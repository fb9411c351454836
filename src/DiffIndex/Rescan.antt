-- ===== src/DiffIndex/Rescan.antt =====
-- Diff and Commit of internal/ingestion/diffindex/diffindex.go on a tree that does not change between two scans.
use zero_trust_sh.Prelude.{
  ℕ, Bool, true, false, not, ◌&&◌, List, [], ◌∷◌, Option, none, some, if◌then◌else◌, ◌≡◌, refl, ◌∙◌,
  ap, arith, inl, inr, Bool-cases, Option-cases, Member, any,
}
use zero_trust_sh.Prelude.Text.{Bytes, str_eq, str_eq_refl, str_eq_comm}
use zero_trust_sh.Targeting.Search.{has}
use zero_trust_sh.Targeting.Search.Reach.{is_some}
use zero_trust_sh.DiffIndex.State.{StateDb}
use zero_trust_sh.DiffIndex.{ChangeSet, Entries, found, paths, hash_of, diff, delete_all, commit}
use zero_trust_sh.DiffIndex.Walk.{counted}
use zero_trust_sh.DiffIndex.Scan.{diff-found, diff-cached, keep-nil, has-nil, Member-has-paths}
use zero_trust_sh.DiffIndex.Written.{Unique}

module _ {S : Type 0} (db : StateDb S) (digest : Bytes → Bytes) (cancelled : Bytes → Bool) (now : ℕ)
    (project : Bytes) where
  -- The table has the hashes of the files.
  abbrev Synced : S → List (Bytes × Bytes) → Type 0
  Synced s files = (f h : Bytes) → Member (f, h) files → db.cached s project f ≡ some h

  Synced-diff :
      (tree : Entries) (s s1 : S) (cs : ChangeSet)
      → Synced s (counted digest [] tree)
      → diff db digest cancelled now project tree s ≡ found s1 cs
      → cs.changed ≡ []
  unfolding hash_of
  Synced-diff tree s s1 cs synced e =
      (diff-found db digest cancelled now project tree s s1 cs e).0
      ∙ ap paths (
          keep-nil (λ x. not (str_eq (hash_of (db.cached s project (x.0))) (x.1)))
            (counted digest [] tree) (λ x m. rw (synced (x.0) (x.1) m, str_eq_refl (x.1)) refl))

  -- A second Diff of a tree that has not changed reports no changed file, although Commit was not called: what
  -- a scan that failed after Diff did not analyse is not reported again. The paths of the files are
  -- distinct.
  pub diff-diff :
      (tree : Entries) (s s1 s2 : S) (cs cs2 : ChangeSet)
      → Unique (counted digest [] tree)
      → diff db digest cancelled now project tree s ≡ found s1 cs
      → diff db digest cancelled now project tree s1 ≡ found s2 cs2
      → cs2.changed ≡ []
  diff-diff tree s s1 s2 cs cs2 u e f =
      Synced-diff tree s1 s2 cs2 (diff-cached db digest cancelled now project tree s s1 cs u e).0 f

  delete_all-cached :
      (gone : List Bytes) (s s1 : S) (f : Bytes)
      → delete_all db digest cancelled now project gone s ≡ (true, s1)
      → db.cached s1 project f ≡ (if has gone f then none else db.cached s project f)
  unfolding delete_all has any
  delete_all-cached [] s s1 f e = let same : s1 ≡ s = cc e in rw same refl
  delete_all-cached (g ∷ gone) s s1 f e = elim (Option-cases (db.delete_scan_state s project g)) [
    | inl d ↦ cc (rw (d, delete_all) at e)
    | inr (s', d) ↦
        let rest = delete_all-cached gone s' s1 f (rw (d, delete_all) at e) in
        let one = db.delete_cached s s' project g project f d in
        let here = rw (str_eq_refl project) at one in ground (arith, str_eq_comm g f, rest, here)
  ]

  gone_or_none :
      (o o1 o2 : Option Bytes) (b : Bool)
      → o1 ≡ o
      → b ≡ is_some o
      → o2 ≡ (if b then none else o1)
      → (is_some o2 && true) ≡ false
  gone_or_none none o1 o2 b e f g = rw (g, f, e) refl
  gone_or_none (some h) o1 o2 b e f g = rw (g, f) refl

  -- Where Diff, Commit and a second Diff of a tree that has not changed all go through, the second change set is
  -- empty. The paths of the files are distinct.
  pub diff-commit :
      (tree : Entries) (s s1 s2 s3 : S) (cs cs2 : ChangeSet)
      → Unique (counted digest [] tree)
      → diff db digest cancelled now project tree s ≡ found s1 cs
      → commit db digest cancelled now project cs s1 ≡ (true, s2)
      → diff db digest cancelled now project tree s2 ≡ found s3 cs2
      → (cs2.changed ≡ []) × (cs2.removed ≡ [])
  unfolding commit
  diff-commit tree s s1 s2 s3 cs cs2 u e c f =
      let (written, kept) = diff-cached db digest cancelled now project tree s s1 cs u e in
      let (changed, removed) = diff-found db digest cancelled now project tree s s1 cs e in
      let deleted = λ (g : Bytes). delete_all-cached cs.removed s1 s2 g c in
      (
        Synced-diff tree s2 s3 cs2
            (λ g h m.
              let inside = Member-has-paths g h (counted digest [] tree) m in
              let stays : has cs.removed g ≡ false = removed g ∙ rw inside (ground arith) in
              deleted g ∙ rw stays (written g h m))
            f,
        has-nil cs2.removed (λ g.
            (diff-found db digest cancelled now project tree s2 s3 cs2 f).1 g
            ∙ elim (Bool-cases (has (paths (counted digest [] tree)) g)) [
              | inl inside ↦ rw inside (ground arith)
              | inr outside ↦
                  let same = kept project g (rw outside (ground arith)) in
                  let was : has cs.removed g ≡ is_some (db.cached s project g) =
                    removed g ∙ rw outside (ground arith) in
                  rw outside (
                    gone_or_none (db.cached s project g) (db.cached s1 project g)
                      (db.cached s2 project g) (has cs.removed g) same was (deleted g))
            ]),
      )
