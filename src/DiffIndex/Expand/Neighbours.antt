-- ===== src/DiffIndex/Expand/Neighbours.antt =====
-- ExpandWithCPG of internal/ingestion/diffindex/expand.go grows a list of files.
use zero_trust_sh.Prelude.{
  Bool, true, false, ◌&&◌, ◌||◌, List, [], ◌∷◌, ◌++◌, if◌then◌else◌, ◌≡◌, refl, sym, ◌∙◌, ap, arith,
  inl, inr, Bool-cases, keep, length, length-append, any, append_assoc, append-nil,
}
use zero_trust_sh.Prelude.Text.{Bytes, str_eq, str_eq_iff, str_eq_comm}
use zero_trust_sh.Targeting.{Node}
use zero_trust_sh.Targeting.Search.{has}
use zero_trust_sh.DiffIndex.Expand.{mark_file, mark_files, mark_nodes}

pub has-append : (xs ys : List Bytes) (f : Bytes) → has (xs ++ ys) f ≡ (has xs f || has ys f)
unfolding has any
has-append [] ys f = refl
has-append (x ∷ xs) ys f = ground (arith, has-append xs ys f)

-- The nodes with a file.
unfoldable pub files_of : List Node → List Bytes
unfolding str_eq
files_of [] = []
files_of (n ∷ nodes) = if str_eq n.file [] then files_of nodes else n.file ∷ files_of nodes

pub mark_file-has :
    (files : List Bytes) (g f : Bytes) → has (mark_file files g) f ≡ (has files f || str_eq f g)
unfolding mark_file has any
mark_file-has files g f = elim (Bool-cases (has files g)) [
  | inl e ↦ elim (Bool-cases (str_eq f g)) [
    | inl t ↦
        let same : f ≡ g = (str_eq_iff f g).0 t in
        let there : has files f ≡ true = cc (same, e) in rw (e, there) refl
    | inr o ↦ rw (e, o) (ground arith)
  ]
  | inr e ↦ rw e (has-append files (g ∷ []) f ∙ ground arith)
]

pub mark_nodes-has :
    (files : List Bytes) (nodes : List Node) (f : Bytes)
    → has (mark_nodes files nodes) f ≡ (has files f || has (files_of nodes) f)
unfolding mark_nodes files_of has any
mark_nodes-has files [] f = ground arith
mark_nodes-has files (n ∷ nodes) f = elim (Bool-cases (str_eq n.file [])) [
  | inl e ↦ rw (e, mark_nodes, files_of) (mark_nodes-has files nodes f)
  | inr e ↦
      rw (e, mark_nodes, files_of)
        (mark_nodes-has (mark_file files n.file) nodes f
          ∙ ground (arith, mark_file-has files n.file f))
]

-- A list with nothing dropped and items put behind.
abbrev pub Extends : List Bytes → List Bytes → Type 0
Extends xs ys = (more : List Bytes) × (ys ≡ xs ++ more)

pub Extends-refl : (xs : List Bytes) → Extends xs xs
Extends-refl xs = ([], sym (append-nil xs))

pub Extends-trans : (xs ys zs : List Bytes) → Extends xs ys → Extends ys zs → Extends xs zs
Extends-trans xs ys zs (a, e) (b, f) = (a ++ b, f ∙ (ap (λ t. t ++ b) e ∙ append_assoc xs a b))

pub mark_file-Extends : (files : List Bytes) (g : Bytes) → Extends files (mark_file files g)
unfolding mark_file
mark_file-Extends files g = elim (Bool-cases (has files g)) [
  | inl e ↦ rw e (Extends-refl files)
  | inr e ↦ rw e (g ∷ [], refl)
]

pub mark_nodes-Extends :
    (files : List Bytes) (nodes : List Node) → Extends files (mark_nodes files nodes)
unfolding mark_nodes
mark_nodes-Extends files [] = Extends-refl files
mark_nodes-Extends files (n ∷ nodes) = elim (Bool-cases (str_eq n.file [])) [
  | inl e ↦ rw (e, mark_nodes) (mark_nodes-Extends files nodes)
  | inr e ↦
      rw (e, mark_nodes)
        (Extends-trans files (mark_file files n.file) (mark_nodes (mark_file files n.file) nodes)
          (mark_file-Extends files n.file) (mark_nodes-Extends (mark_file files n.file) nodes))
]

-- No file stands in the list twice.
abbrev pub Distinct : List Bytes → Type 0
Distinct [] = Unit
Distinct (f ∷ fs) = (has fs f ≡ false) × Distinct fs

-- None of the files is among the others.
abbrev pub Apart : List Bytes → List Bytes → Type 0
Apart files [] = Unit
Apart files (f ∷ fs) = (has files f ≡ false) × Apart files fs

pub Apart-nil : (fs : List Bytes) → Apart [] fs
unfolding has any
Apart-nil [] = tt
Apart-nil (f ∷ fs) = (refl, Apart-nil fs)

pub Apart-more :
    (files : List Bytes) (g : Bytes) (fs : List Bytes)
    → has fs g ≡ false
    → Apart files fs
    → Apart (files ++ g ∷ []) fs
unfolding has any
Apart-more files g [] h a = tt
Apart-more files g (f ∷ fs) h a = (
  has-append files (g ∷ []) f ∙ ground (arith, a.0, str_eq_comm f g),
  Apart-more files g fs (ground arith) a.1,
)

pub mark_files-Distinct :
    (files fs : List Bytes) → Apart files fs → Distinct fs → mark_files files fs ≡ files ++ fs
unfolding mark_files mark_file
mark_files-Distinct files [] a d = sym (append-nil files)
mark_files-Distinct files (f ∷ fs) a d =
    rw (a.0, mark_files, mark_file)
      (mark_files-Distinct (files ++ f ∷ []) fs (Apart-more files f fs d.0 a.1) d.1
        ∙ append_assoc files (f ∷ []) fs)

pub keep-has :
    (p : Bytes → Bool) (xs : List Bytes) (f : Bytes) → has (keep p xs) f ≡ (p f && has xs f)
unfolding keep has any
keep-has p [] f = ground arith
keep-has p (x ∷ xs) f = elim (Bool-cases (str_eq f x)) [
  | inl e ↦
      let same : f ≡ x = (str_eq_iff f x).0 e in
      elim (Bool-cases (p x)) [
        | inl t ↦ let u : p f ≡ true = cc (same, t) in rw (t, u, keep) (rw e refl)
        | inr t ↦
            let u : p f ≡ false = cc (same, t) in rw (t, u, keep) (keep-has p xs f ∙ rw u refl)
      ]
  | inr e ↦ elim (Bool-cases (p x)) [
    | inl t ↦ rw (t, e, keep) (keep-has p xs f)
    | inr t ↦ rw (t, e, keep) (keep-has p xs f)
  ]
]

-- Lists of one length, the second of which begins with the first, are the same.
pub same_length : (xs more : List Bytes) → length (xs ++ more) ≡ length xs → xs ++ more ≡ xs
same_length xs [] e = append-nil xs
same_length xs (f ∷ more) e = absurd (omega (arith, length-append xs (f ∷ more)))
