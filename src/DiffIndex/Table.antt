-- ===== src/DiffIndex/Table.antt =====
-- A table of rows with the operations that pkg/postgres/state.go has on scan_state: the first row of a project
-- and a path counts.
use zero_trust_sh.Prelude.{
  Bool, true, false, ◌&&◌, not, List, [], ◌∷◌, Option, none, some, ◌≡◌, refl, sym, arith, inl, inr,
  if◌then◌else◌, Member, any, Bool-cases,
}
use mathlib.Core.Path.{subst}
use zero_trust_sh.Prelude.Text.{Bytes, str_eq, str_eq_iff, str_eq_comm, str_eq_refl}
use zero_trust_sh.Targeting.Search.{has}
use zero_trust_sh.DiffIndex.State.{ScanStateRow, StateDb}

abbrev pub is_at : Bytes → Bytes → ScanStateRow → Bool
is_at p path row = str_eq row.project_id p && str_eq row.file_path path

unfoldable pub hash_at : List ScanStateRow → Bytes → Bytes → Option Bytes
hash_at [] p path = none
hash_at (row ∷ rows) p path =
    let rest = hash_at rows p path in if is_at p path row then some row.content_hash else rest

unfoldable pub rows_of : List ScanStateRow → Bytes → List Bytes → List ScanStateRow
unfolding has
rows_of [] p seen = []
rows_of (row ∷ rows) p seen = elim (str_eq row.project_id p && not (has seen row.file_path)) [
  | true ↦ row ∷ rows_of rows p (row.file_path ∷ seen)
  | false ↦ rows_of rows p seen
]

unfoldable pub without : List ScanStateRow → Bytes → Bytes → List ScanStateRow
without [] p path = []
without (row ∷ rows) p path =
    let rest = without rows p path in if is_at p path row then rest else row ∷ rest

pub rows_of_sound :
    (rows : List ScanStateRow) (p : Bytes) (seen : List Bytes) (row : ScanStateRow)
    → Member row (rows_of rows p seen)
    → (has seen row.file_path ≡ false) × (hash_at rows p row.file_path ≡ some row.content_hash)
unfolding rows_of hash_at has any
rows_of_sound [] p seen row m = absurd m
rows_of_sound (r ∷ rows) p seen row m =
    elim (Bool-cases (str_eq r.project_id p && not (has seen r.file_path))) [
      | inl e ↦ elim (rw (e, rows_of) at m) [
        | inl same ↦
            subst
              (λ z.
                (has seen z.file_path ≡ false)
                × (hash_at (r ∷ rows) p z.file_path ≡ some z.content_hash))
              same (ground arith, ground (arith, str_eq_refl r.file_path))
        | inr k ↦
            let (fresh, at) = rows_of_sound rows p (r.file_path ∷ seen) row k in
            (ground arith, ground (arith, at, str_eq_comm row.file_path r.file_path))
      ]
      | inr e ↦
          let (fresh, at) = rows_of_sound rows p seen row (rw (e, rows_of) at m) in
          (fresh, ground (arith, at, e, fresh, str_eq_iff r.file_path row.file_path))
    ]

pub rows_of_complete :
    (rows : List ScanStateRow) (p : Bytes) (seen : List Bytes) (path hash : Bytes)
    → has seen path ≡ false
    → hash_at rows p path ≡ some hash
    → (row : ScanStateRow) × Member row (rows_of rows p seen) × (row.file_path ≡ path)
unfolding rows_of hash_at has any
rows_of_complete [] p seen path hash fresh e = cc e
rows_of_complete (r ∷ rows) p seen path hash fresh e = elim (Bool-cases (is_at p path r)) [
  | inl at ↦
      let same : r.file_path ≡ path = ground (arith, str_eq_iff r.file_path path) in
      let new : has seen r.file_path ≡ false = cc (same, fresh) in
      let taken : (str_eq r.project_id p && not (has seen r.file_path)) ≡ true = ground arith in
      (r, rw (taken, rows_of) (inl refl), same)
  | inr off ↦
      let deeper : hash_at rows p path ≡ some hash = rw (off, hash_at) at e in
      elim (Bool-cases (str_eq r.project_id p && not (has seen r.file_path))) [
        | inl taken ↦
            let new : has (r.file_path ∷ seen) path ≡ false =
              ground (arith, str_eq_comm path r.file_path) in
            let (row, m, same) =
              rows_of_complete rows p (r.file_path ∷ seen) path hash new deeper in
            (row, rw (taken, rows_of) (inr m), same)
        | inr left ↦
            let (row, m, same) = rows_of_complete rows p seen path hash fresh deeper in
            (row, rw (left, rows_of) m, same)
      ]
]

pub without-hash_at :
    (rows : List ScanStateRow) (q gone p path : Bytes)
    → hash_at (without rows q gone) p path
      ≡ (if str_eq q p && str_eq gone path then none else hash_at rows p path)
unfolding without hash_at
without-hash_at [] q gone p path = ground arith
without-hash_at (r ∷ rows) q gone p path = ground (
  arith,
  without-hash_at rows q gone p path,
  str_eq_iff r.project_id q,
  str_eq_iff r.file_path gone,
  str_eq_iff r.project_id p,
  str_eq_iff r.file_path path,
  str_eq_iff q p,
  str_eq_iff gone path,
)

pub has-none : (path : Bytes) → has [] path ≡ false
unfolding has any
has-none path = refl

pub hash_at-front :
    (row : ScanStateRow) (rows : List ScanStateRow) (p path : Bytes)
    → hash_at (row ∷ rows) p path
      ≡ (if is_at p path row then some row.content_hash else hash_at rows p path)
unfolding hash_at
hash_at-front row rows p path = refl

pub out_of : (a b : List ScanStateRow) → some a ≡ some b → b ≡ a
out_of a b e = cc e

abbrev pub row_table : StateDb (List ScanStateRow)
row_table = record {
  list_scan_state = λ rows p. some (rows_of rows p []);
  upsert_scan_state = λ rows row. some (row ∷ rows);
  delete_scan_state = λ rows p path. some (without rows p path);
  cached = hash_at;
  list_sound = λ rows p out row e m.
      (rows_of_sound rows p [] row (subst (Member row) (out_of (rows_of rows p []) out e) m)).1;
  list_complete = λ rows p out path hash e c.
      let (row, m, same) = rows_of_complete rows p [] path hash (has-none path) c in
      (row, subst (Member row) (sym (out_of (rows_of rows p []) out e)) m, same);
  upsert_cached = λ rows rows' row p path e.
      subst
        (λ z.
          hash_at z p path
          ≡ (if is_at p path row then some row.content_hash else hash_at rows p path))
        (sym (out_of (row ∷ rows) rows' e)) (hash_at-front row rows p path);
  delete_cached = λ rows rows' q gone p path e.
      subst
        (λ z.
          hash_at z p path ≡ (if str_eq q p && str_eq gone path then none else hash_at rows p path))
        (sym (out_of (without rows q gone) rows' e)) (without-hash_at rows q gone p path);
}
