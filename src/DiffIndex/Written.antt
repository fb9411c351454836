-- ===== src/DiffIndex/Written.antt =====
-- What the loop of Diff of internal/ingestion/diffindex/diffindex.go leaves in the table.
use zero_trust_sh.Prelude.{
  ℕ, Bool, false, ◌&&◌, List, [], ◌∷◌, some, if◌then◌else◌, ◌≡◌, refl, ◌∙◌, arith, inl, inr, Member,
  any,
}
use zero_trust_sh.Prelude.Text.{Bytes, str_eq, str_eq_refl, str_eq_comm}
use zero_trust_sh.Targeting.Search.{has}
use zero_trust_sh.DiffIndex.State.{StateDb}
use zero_trust_sh.DiffIndex.{Walked, walked, record_file, paths}
use zero_trust_sh.DiffIndex.Walk.{record_files, Outcome-cases, record_file-walked}

-- No path stands in the list twice.
abbrev pub Unique : List (Bytes × Bytes) → Type 0
Unique [] = Unit
Unique ((rel, hash) ∷ files) = (has (paths files) rel ≡ false) × Unique files

module _ {S : Type 0} (db : StateDb S) (digest : Bytes → Bytes) (cancelled : Bytes → Bool) (now : ℕ)
    (project : Bytes) (prior : List (Bytes × Bytes)) where
  record_file-cached :
      (rel hash : Bytes) (s s1 : S) (w w1 : Walked) (q g : Bytes)
      → record_file db digest cancelled now project prior rel hash s w ≡ walked s1 w1
      → db.cached s1 q g ≡ (if str_eq project q && str_eq rel g then some hash else db.cached s q g)
  record_file-cached rel hash s s1 w w1 q g e =
      let (up, a, b) =
        record_file-walked db digest cancelled now project prior rel hash s s1 w w1 e in
      db.upsert_cached s s1
        (record {
          project_id = project;
          file_path = rel;
          content_hash = hash;
          last_scanned_at = now;
        })
        q g up

  -- Other projects and other paths keep their hashes.
  pub record_files-kept :
      (files : List (Bytes × Bytes)) (s s1 : S) (w w1 : Walked) (q g : Bytes)
      → record_files db digest cancelled now project prior files s w ≡ walked s1 w1
      → (str_eq project q && has (paths files) g) ≡ false
      → db.cached s1 q g ≡ db.cached s q g
  unfolding record_files has any
  record_files-kept [] s s1 w w1 q g e h = let same : s1 ≡ s = cc e in rw same refl
  record_files-kept ((rel, hash) ∷ files) s s1 w w1 q g e h =
      elim (Outcome-cases db digest cancelled now project prior
        (record_file db digest cancelled now project prior rel hash s w)) [
          | inl (s', f) ↦ cc (rw (f, record_files) at e)
          | inr (s', w', f) ↦
              let rest =
                record_files-kept files s' s1 w' w1 q g (rw (f, record_files) at e)
                  (ground (arith)) in
              let now_here = record_file-cached rel hash s s' w w' q g f in
              let off : (str_eq project q && str_eq rel g) ≡ false =
                ground (arith, str_eq_comm rel g) in
              rest ∙ (rw off at now_here)
        ]

  pub record_files-written :
      (files : List (Bytes × Bytes)) (s s1 : S) (w w1 : Walked) (rel hash : Bytes)
      → record_files db digest cancelled now project prior files s w ≡ walked s1 w1
      → Unique files
      → Member (rel, hash) files
      → db.cached s1 project rel ≡ some hash
  unfolding record_files
  record_files-written [] s s1 w w1 rel hash e u m = absurd m
  record_files-written ((r, h) ∷ files) s s1 w w1 rel hash e u m =
      elim (Outcome-cases db digest cancelled now project prior
        (record_file db digest cancelled now project prior r h s w)) [
          | inl (s', f) ↦ cc (rw (f, record_files) at e)
          | inr (s', w', f) ↦
              let more = rw (f, record_files) at e in
              elim m [
                | inr k ↦ record_files-written files s' s1 w' w1 rel hash more u.1 k
                | inl same ↦
                    let p : r ≡ rel = cc same in
                    let t : h ≡ hash = cc same in
                    let kept =
                      record_files-kept files s' s1 w' w1 project r more (rw u.0 (ground arith)) in
                    let here = record_file-cached r h s s' w w' project r f in
                    let wrote = rw (str_eq_refl project, str_eq_refl r) at here in
                    cc (p, t, kept, wrote)
              ]
        ]
