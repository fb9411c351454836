-- ===== src/DiffIndex/Prior.antt =====
-- The map of the earlier hashes that Diff of internal/ingestion/diffindex/diffindex.go builds.
use zero_trust_sh.Prelude.{
  true, List, [], ◌∷◌, Option, none, some, ◌≡◌, ◌≢◌, refl, sym, ◌∙◌, arith, inl, inr, Bool-cases,
  Option-cases, Member,
}
use zero_trust_sh.Prelude.Text.{Bytes, str_eq, str_eq_iff}
use zero_trust_sh.Prelude.Assoc.{lookup, insert, lookup-insert}
use zero_trust_sh.DiffIndex.State.{StateDb, ScanStateRow}
use zero_trust_sh.DiffIndex.{prior_map}

-- The rows have the hashes that `c` gives.
abbrev Agrees : (Bytes → Option Bytes) → List ScanStateRow → Type 0
Agrees c rows = (row : ScanStateRow) → Member row rows → c row.file_path ≡ some row.content_hash

prior_map_sound :
    (c : Bytes → Option Bytes) (rows : List ScanStateRow) (m : List (Bytes × Bytes))
    → Agrees c rows
    → ((f h : Bytes) → lookup f m ≡ some h → c f ≡ some h)
    → (f h : Bytes) → lookup f (prior_map rows m) ≡ some h
    → c f ≡ some h
unfolding prior_map
prior_map_sound c [] m a b f h e = b f h e
prior_map_sound c (row ∷ rows) m a b f h e =
    prior_map_sound c rows (insert row.file_path row.content_hash m) (λ r k. a r (inr k))
      (λ g i t. elim (Bool-cases (str_eq row.file_path g)) [
        | inl same ↦
            let at : c row.file_path ≡ some row.content_hash = a row (inl refl) in
            ground (
              arith,
              lookup-insert row.file_path g row.content_hash m,
              str_eq_iff row.file_path g,
              at,
            )
        | inr other ↦ b g i (ground (arith, lookup-insert row.file_path g row.content_hash m))
      ])
      f h e

prior_map_complete :
    (rows : List ScanStateRow) (m : List (Bytes × Bytes)) (f : Bytes)
    → lookup f (prior_map rows m) ≡ none
    → (lookup f m ≡ none) × ((row : ScanStateRow) → Member row rows → row.file_path ≢ f)
unfolding prior_map
prior_map_complete [] m f e = (e, λ row h. absurd h)
prior_map_complete (row ∷ rows) m f e =
    let (a, b) = prior_map_complete rows (insert row.file_path row.content_hash m) f e in
    (
      ground (arith, lookup-insert row.file_path f row.content_hash m),
      λ r h. elim h [
        | inl same ↦ λ p.
            let q : row.file_path ≡ f = cc (same, p) in
            let t : str_eq row.file_path f ≡ true = (str_eq_iff row.file_path f).1 q in
            ground (arith, lookup-insert row.file_path f row.content_hash m, t)
        | inr k ↦ b r k
      ],
    )

module _ {S : Type 0} (db : StateDb S) where
  -- The map that Diff builds from the rows has the hashes of the table.
  pub prior_map-cached :
      (s : S) (p : Bytes) (rows : List ScanStateRow) (f : Bytes)
      → db.list_scan_state s p ≡ some rows
      → lookup f (prior_map rows []) ≡ db.cached s p f
  unfolding lookup
  prior_map-cached s p rows f e = elim (Option-cases (lookup f (prior_map rows []))) [
    | inr (h, l) ↦
        l
        ∙ sym (
            prior_map_sound (db.cached s p) rows [] (λ row k. db.list_sound s p rows row e k)
              (λ g i t. cc t) f h l)
    | inl l ↦ elim (Option-cases (db.cached s p f)) [
      | inl c ↦ l ∙ sym c
      | inr (h, c) ↦
          let (row, k, same) = db.list_complete s p rows f h e c in
          absurd ((prior_map_complete rows [] f l).1 row k same)
    ]
  ]
