-- ===== src/DiffIndex/Walk.antt =====
-- The walk of Diff of internal/ingestion/diffindex/diffindex.go against the list of the files that it counts.
use zero_trust_sh.Prelude.{
  ℕ, Bool, true, false, List, [], ◌∷◌, ◌++◌, none, some, if◌then◌else◌, ◌≡◌, ◌⊎◌, refl, sym, ◌∙◌,
  ap, inl, inr, Bool-cases, Option-cases, append_assoc, append-nil, keep, not,
}
use zero_trust_sh.Prelude.Text.{Bytes, str_eq}
use zero_trust_sh.Prelude.Assoc.{lookup}
use zero_trust_sh.DiffIndex.State.{StateDb}
use zero_trust_sh.DiffIndex.{
  Entries, end, file, dir, broken, child, should_skip, Walked, Outcome, stopped, walked,
  record_file, visit_file, walk, paths, hash_of,
}

-- The files below a directory that are neither skipped nor unreadable, with their hashes.
unfoldable pub counted : (Bytes → Bytes) → Bytes → Entries → List (Bytes × Bytes)
counted digest parent end = []
counted digest parent (broken rest) = counted digest parent rest
counted digest parent (file name none rest) = counted digest parent rest
counted digest parent (file name (some contents) rest) = elim (should_skip (child parent name)) [
  | true ↦ counted digest parent rest
  | false ↦ (child parent name, digest contents) ∷ counted digest parent rest
]
counted digest parent (dir name children rest) = elim (should_skip (child parent name)) [
  | true ↦ counted digest parent rest
  | false ↦ counted digest (child parent name) children ++ counted digest parent rest
]

module _ {S : Type 0} (db : StateDb S) (digest : Bytes → Bytes) (cancelled : Bytes → Bool) (now : ℕ)
    (project : Bytes) (prior : List (Bytes × Bytes)) where
  -- The files one after the other.
  unfoldable pub record_files : List (Bytes × Bytes) → S → Walked → Outcome S
  record_files [] s w = walked s w
  record_files ((rel, hash) ∷ files) s w =
      elim (record_file db digest cancelled now project prior rel hash s w) [
        | stopped s' ↦ stopped s'
        | walked s' w' ↦ record_files files s' w'
      ]

  pub Outcome-cases :
      (o : Outcome S) → ((s : S) × (o ≡ stopped s)) ⊎ ((s : S) × (w : Walked) × (o ≡ walked s w))
  Outcome-cases (stopped s) = inl (s, refl)
  Outcome-cases (walked s w) = inr (s, w, refl)

  record_files-append :
      (xs ys : List (Bytes × Bytes)) (s s1 : S) (w w1 : Walked)
      → record_files xs s w ≡ walked s1 w1
      → record_files (xs ++ ys) s w ≡ record_files ys s1 w1
  unfolding record_files
  record_files-append [] ys s s1 w w1 e = cc e
  record_files-append ((rel, hash) ∷ xs) ys s s1 w w1 e =
      elim (Outcome-cases (record_file db digest cancelled now project prior rel hash s w)) [
        | inl (s', f) ↦ cc (rw (f, record_files) at e)
        | inr (s', w', f) ↦
            rw (f, record_files) (record_files-append xs ys s' s1 w' w1 (rw (f, record_files) at e))
      ]

  pub walk-record_files :
      (parent : Bytes) (tree : Entries) (s s1 : S) (w w1 : Walked)
      → walk db digest cancelled now project prior parent tree s w ≡ walked s1 w1
      → record_files (counted digest parent tree) s w ≡ walked s1 w1
  unfolding walk visit_file counted record_files
  walk-record_files parent end s s1 w w1 e = e
  walk-record_files parent (broken rest) s s1 w w1 e = cc e
  walk-record_files parent (file name none rest) s s1 w w1 e =
      elim (Bool-cases (cancelled (child parent name))) [
        | inl c ↦ cc (rw (c, walk) at e)
        | inr c ↦ elim (Bool-cases (should_skip (child parent name))) [
          | inl k ↦ walk-record_files parent rest s s1 w w1 (rw (c, k, walk) at e)
          | inr k ↦ walk-record_files parent rest s s1 w w1 (rw (c, k, walk) at e)
        ]
      ]
  walk-record_files parent (file name (some contents) rest) s s1 w w1 e =
      elim (Bool-cases (cancelled (child parent name))) [
        | inl c ↦ cc (rw (c, walk) at e)
        | inr c ↦ elim (Bool-cases (should_skip (child parent name))) [
          | inl k ↦ rw (k, counted) (walk-record_files parent rest s s1 w w1 (rw (c, k, walk) at e))
          | inr k ↦
              elim (Outcome-cases (
                record_file db digest cancelled now project prior (child parent name)
                  (digest contents) s w)) [
                    | inl (s', f) ↦ cc (rw (c, k, f, walk) at e)
                    | inr (s', w', f) ↦
                        rw (k, f, counted, record_files)
                          (walk-record_files parent rest s' s1 w' w1 (rw (c, k, f, walk) at e))
                  ]
        ]
      ]
  walk-record_files parent (dir name children rest) s s1 w w1 e =
      elim (Bool-cases (cancelled (child parent name))) [
        | inl c ↦ cc (rw (c, walk) at e)
        | inr c ↦ elim (Bool-cases (should_skip (child parent name))) [
          | inl k ↦ rw (k, counted) (walk-record_files parent rest s s1 w w1 (rw (c, k, walk) at e))
          | inr k ↦
              elim (Outcome-cases
                (walk db digest cancelled now project prior (child parent name) children s w)) [
                  | inl (s', f) ↦ cc (rw (c, k, f, walk) at e)
                  | inr (s', w', f) ↦
                      let inside = walk-record_files (child parent name) children s s' w w' f in
                      rw (k, counted)
                        (record_files-append (counted digest (child parent name) children)
                            (counted digest parent rest) s s' w w' inside
                          ∙ walk-record_files parent rest s' s1 w' w1 (rw (c, k, f, walk) at e))
                ]
        ]
      ]

  abbrev pub differs : Bytes × Bytes → Bool
  differs e = not (str_eq (hash_of (lookup (e.0) prior)) (e.1))

  -- A file that the loop gets past is written to the table.
  pub record_file-walked :
      (rel hash : Bytes) (s s1 : S) (w w1 : Walked)
      → record_file db digest cancelled now project prior rel hash s w ≡ walked s1 w1
      → (db.upsert_scan_state s (record {
        project_id = project;
        file_path = rel;
        content_hash = hash;
        last_scanned_at = now;
      })
          ≡ some s1)
        × (w1.seen ≡ w.seen ++ rel ∷ [])
        × (w1.changed ≡ (if differs (rel, hash) then w.changed ++ rel ∷ [] else w.changed))
  unfolding record_file
  record_file-walked rel hash s s1 w w1 e =
      elim (Option-cases (
        db.upsert_scan_state s (record {
          project_id = project;
          file_path = rel;
          content_hash = hash;
          last_scanned_at = now;
        }))) [
          | inl f ↦ cc (rw (f, record_file) at e)
          | inr (s', f) ↦ elim (Bool-cases (str_eq (hash_of (lookup rel prior)) hash)) [
            | inl k ↦
                let g = rw (f, k, record_file) at e in (cc (f, g), cc g, rw (k, differs) (cc g))
            | inr k ↦
                let g = rw (f, k, record_file) at e in (cc (f, g), cc g, rw (k, differs) (cc g))
          ]
        ]

  -- What the loop has collected where it goes through.
  pub record_files-Walked :
      (files : List (Bytes × Bytes)) (s s1 : S) (w w1 : Walked)
      → record_files files s w ≡ walked s1 w1
      → (w1.seen ≡ w.seen ++ paths files) × (w1.changed ≡ w.changed ++ paths (keep differs files))
  unfolding record_files keep
  record_files-Walked [] s s1 w w1 e =
      let same : w1 ≡ w = cc e in rw same (sym (append-nil w.seen), sym (append-nil w.changed))
  record_files-Walked ((rel, hash) ∷ files) s s1 w w1 e =
      elim (Outcome-cases (record_file db digest cancelled now project prior rel hash s w)) [
        | inl (s', f) ↦ cc (rw (f, record_files) at e)
        | inr (s', w', f) ↦
            let (up, a, b) = record_file-walked rel hash s s' w w' f in
            let (c, d) = record_files-Walked files s' s1 w' w1 (rw (f, record_files) at e) in
            (
              c ∙ (ap (λ xs. xs ++ paths files) a ∙ append_assoc w.seen (rel ∷ []) (paths files)),
              elim (Bool-cases (differs (rel, hash))) [
                | inl k ↦
                    rw (k, keep)
                      (d
                        ∙ (ap (λ xs. xs ++ paths (keep differs files)) (rw k at b)
                            ∙ append_assoc w.changed (rel ∷ []) (paths (keep differs files))))
                | inr k ↦ rw (k, keep) (d ∙ ap (λ xs. xs ++ paths (keep differs files)) (rw k at b))
              ],
            )
      ]
