-- ===== src/DiffIndex/Scan.antt =====
-- Diff and Commit of internal/ingestion/diffindex/diffindex.go, one scan after another.
use zero_trust_sh.Prelude.{
  ℕ, Bool, true, false, not, ◌&&◌, List, [], ◌∷◌, some, ◌≡◌, refl, sym, ◌∙◌, ap, arith, inl, inr,
  Bool-cases, Option-cases, keep, Member, any,
}
use mathlib.Core.Path.{subst}
use zero_trust_sh.Prelude.Text.{Bytes, codes, str_eq, str_eq_iff, str_eq_refl}
use zero_trust_sh.Targeting.Search.{has}
use zero_trust_sh.Targeting.Search.Reach.{has-keys, is_some}
use zero_trust_sh.DiffIndex.State.{StateDb, ScanStateRow}
use zero_trust_sh.DiffIndex.{
  ChangeSet, Entries, Walked, walked, found, walk, paths, hash_of, prior_map, removed_of, conclude,
  diff,
}
use zero_trust_sh.DiffIndex.Walk.{
  counted, record_files, Outcome-cases, walk-record_files, record_files-Walked, differs,
}
use zero_trust_sh.DiffIndex.Prior.{prior_map-cached}
use zero_trust_sh.DiffIndex.Written.{Unique, record_files-kept, record_files-written}

removed_of-has :
    (ks seen : List Bytes) (f : Bytes) → has (removed_of ks seen) f ≡ (has ks f && not (has seen f))
unfolding removed_of has any
removed_of-has [] seen f = refl
removed_of-has (k ∷ ks) seen f = elim (Bool-cases (str_eq f k)) [
  | inl e ↦
      let same : f ≡ k = (str_eq_iff f k).0 e in
      elim (Bool-cases (has seen k)) [
        | inl h ↦
            let g : has seen f ≡ true = cc (h, same) in
            ground (arith, removed_of-has ks seen f, g, h)
        | inr h ↦
            let g : has seen f ≡ false = cc (h, same) in
            ground (arith, removed_of-has ks seen f, g, h, e)
      ]
  | inr e ↦ ground (arith, removed_of-has ks seen f, e)
]

keep_ext :
    (p q : Bytes × Bytes → Bool) (xs : List (Bytes × Bytes))
    → ((x : Bytes × Bytes) → p x ≡ q x)
    → keep p xs ≡ keep q xs
unfolding keep
keep_ext p q [] f = refl
keep_ext p q (x ∷ xs) f = rw (f x, keep_ext p q xs f) refl

pub keep-nil :
    (p : Bytes × Bytes → Bool) (xs : List (Bytes × Bytes))
    → ((x : Bytes × Bytes) → Member x xs → p x ≡ false)
    → keep p xs ≡ []
unfolding keep
keep-nil p [] f = refl
keep-nil p (x ∷ xs) f = rw (f x (inl refl)) (keep-nil p xs (λ y m. f y (inr m)))

pub has-nil : (xs : List Bytes) → ((f : Bytes) → has xs f ≡ false) → xs ≡ []
unfolding has any
has-nil [] h = refl
has-nil (x ∷ xs) h = absurd (ground (arith, h x, str_eq_refl x))

pub Member-has-paths :
    (f h : Bytes) (xs : List (Bytes × Bytes)) → Member (f, h) xs → has (paths xs) f ≡ true
unfolding has any
Member-has-paths f h [] m = absurd m
Member-has-paths f h ((g, i) ∷ xs) m = elim m [
  | inl same ↦ let p : g ≡ f = cc same in ground (arith, str_eq_iff f g)
  | inr t ↦ ground (arith, Member-has-paths f h xs t)
]

module _ {S : Type 0} (db : StateDb S) (digest : Bytes → Bytes) (cancelled : Bytes → Bool) (now : ℕ)
    (project : Bytes) where
  diff-Walked :
      (tree : Entries) (s s1 : S) (cs : ChangeSet)
      → diff db digest cancelled now project tree s ≡ found s1 cs
      → (rows : List ScanStateRow) × (w : Walked) × (db.list_scan_state s project ≡ some rows)
        × (record_files db digest cancelled now project
              (prior_map rows [])
              (counted digest [] tree)
              s
              (record { changed = []; seen = [] })
            ≡ walked s1 w)
        × (w.changed ≡ cs.changed)
        × (removed_of (paths (prior_map rows [])) w.seen ≡ cs.removed)
  unfolding diff conclude
  diff-Walked tree s s1 cs e = elim (Option-cases (db.list_scan_state s project)) [
    | inl l ↦ cc (rw (l, diff) at e)
    | inr (rows, l) ↦ elim (Bool-cases (cancelled (codes "."))) [
      | inl c ↦ cc (rw (l, c, diff) at e)
      | inr c ↦
          elim (Outcome-cases db digest cancelled now project (prior_map rows []) (
            walk db digest cancelled now project (prior_map rows []) [] tree s
              (record { changed = []; seen = [] }))) [
                | inl (s', f) ↦ cc (rw (l, c, f, diff) at e)
                | inr (s', w', f) ↦
                    let g = rw (l, c, f, diff) at e in
                    let same : s' ≡ s1 = cc g in
                    (
                      rows,
                      w',
                      l,
                      subst
                          (λ z.
                            record_files db digest cancelled now project (prior_map rows [])
                              (counted digest [] tree) s (record { changed = []; seen = [] })
                            ≡ walked z w')
                          same
                          (walk-record_files db digest cancelled now project (prior_map rows []) []
                            tree s s' (record { changed = []; seen = [] }) w' f),
                      cc g,
                      cc g,
                    )
              ]
    ]
  ]

  -- Where Diff gives a change set, the changed files are the counted files whose hash is not the one in the
  -- table, in the order of the walk, and the removed files are those of the table that are not counted.
  pub diff-found :
      (tree : Entries) (s s1 : S) (cs : ChangeSet)
      → diff db digest cancelled now project tree s ≡ found s1 cs
      → (cs.changed
          ≡ paths (
              keep
                (λ e. not (str_eq (hash_of (db.cached s project (e.0))) (e.1)))
                (counted digest [] tree)))
        × ((f : Bytes)
            → has cs.removed f
              ≡ (is_some (db.cached s project f) && not (has (paths (counted digest [] tree)) f)))
  diff-found tree s s1 cs e =
      let (rows, w, l, loop, same, gone) = diff-Walked tree s s1 cs e in
      let (seen, changed) =
        record_files-Walked db digest cancelled now project (prior_map rows [])
          (counted digest [] tree) s s1 (record { changed = []; seen = [] }) w loop in
      (
        sym same
            ∙ (changed
                ∙ ap paths (
                    keep_ext (differs db digest cancelled now project (prior_map rows []))
                      (λ x. not (str_eq (hash_of (db.cached s project (x.0))) (x.1)))
                      (counted digest [] tree)
                      (λ x. rw (prior_map-cached db s project rows (x.0) l) refl))),
        λ f.
            sym (ap (λ xs. has xs f) gone)
            ∙ (removed_of-has (paths (prior_map rows [])) w.seen f
                ∙ rw (has-keys (prior_map rows []) f, prior_map-cached db s project rows f l, seen)
                    refl),
      )

  -- After Diff the table has the hash of every counted file, and of the other files what it had.
  pub diff-cached :
      (tree : Entries) (s s1 : S) (cs : ChangeSet)
      → Unique (counted digest [] tree)
      → diff db digest cancelled now project tree s ≡ found s1 cs
      → ((f h : Bytes) → Member (f, h) (counted digest [] tree) → db.cached s1 project f ≡ some h)
        × ((q f : Bytes)
            → (str_eq project q && has (paths (counted digest [] tree)) f) ≡ false
            → db.cached s1 q f ≡ db.cached s q f)
  diff-cached tree s s1 cs u e =
      let (rows, w, l, loop, same, gone) = diff-Walked tree s s1 cs e in
      (
        λ f h m.
            record_files-written db digest cancelled now project (prior_map rows [])
              (counted digest [] tree) s s1 (record { changed = []; seen = [] }) w f h loop u m,
        λ q f off.
            record_files-kept db digest cancelled now project (prior_map rows [])
              (counted digest [] tree) s s1 (record { changed = []; seen = [] }) w q f loop off,
      )
