-- ===== src/Dedup/Suppress/Laws.antt =====
-- What automatic suppression may do to a finding.
use zero_trust_sh.Prelude.{
  ℕ, ◌≡◌, refl, ap, ◌∙◌, true, false, ◌||◌, ◌⊎◌, inl, inr, Bool-cases, ◌↔◌, [], ◌∷◌, ◌++◌, any, Any,
  arith,
}
use zero_trust_sh.Prelude.Text.{Bytes, str_eq, str_eq_iff, has_suffix, to_lower, split}
use zero_trust_sh.Prelude.Glob.{path_match, base}
use zero_trust_sh.Prelude.Search.{any_iff}
use zero_trust_sh.Finding.{Finding, reason_test_file, reason_framework_safe}
use zero_trust_sh.Dedup.Sidecar.{
  suppress, apply_framework_safe, framework_safe_patterns, pattern_matches,
}
use zero_trust_sh.Dedup.Sidecar.Laws.{
  apply_framework_safe-cases, apply_framework_safe-hit, apply_framework_safe-miss,
}
use zero_trust_sh.Dedup.Suppress.{
  auto_suppress, has_test_suffix, has_test_dir, test_patterns, test_dirs,
}

-- The two outcomes of each branch.
pub auto_suppress-cases :
    (f : Finding)
    → (has_test_suffix f.path || has_test_dir f.path ≡ true
        → auto_suppress f ≡ suppress reason_test_file f)
      × (has_test_suffix f.path || has_test_dir f.path ≡ false
          → (auto_suppress f ≡ f) ⊎ (auto_suppress f ≡ suppress reason_framework_safe f))
unfolding auto_suppress
auto_suppress-cases f = elim (Bool-cases (has_test_suffix f.path)) [
  | inl s ↦ rw s ((λ h. refl), (λ h. cc))
  | inr s ↦ elim (Bool-cases (has_test_dir f.path)) [
    | inl d ↦ rw (s, d) ((λ h. refl), (λ h. cc))
    | inr d ↦ rw (s, d) ((λ h. cc), (λ h. apply_framework_safe-cases f))
  ]
]

auto_suppress-other :
    (f : Finding)
    → has_test_suffix f.path || has_test_dir f.path ≡ false
    → auto_suppress f ≡ apply_framework_safe f
unfolding auto_suppress
auto_suppress-other f h = ground arith

nil-suffix : (pre p : Bytes) → [] ≡ pre ++ p → [] ≡ p
nil-suffix [] p e = e
nil-suffix (c ∷ pre) p e = cc e

suffix-or :
    (c : ℕ) (s p pre : Bytes)
    → c ∷ s ≡ pre ++ p
    → ((pre : Bytes) × (s ≡ pre ++ p) → has_suffix s p ≡ true)
    → str_eq (c ∷ s) p || has_suffix s p ≡ true
suffix-or c s p [] e h =
    let k : str_eq (c ∷ s) p ≡ true = (str_eq_iff (c ∷ s) p).1 e in ground arith
suffix-or c s p (d ∷ pre) e h = let k : has_suffix s p ≡ true = h (pre, cc e) in ground arith

has_suffix_iff : (s p : Bytes) → (has_suffix s p ≡ true) ↔ ((pre : Bytes) × (s ≡ pre ++ p))
unfolding has_suffix
has_suffix_iff [] p =
    (λ h. ([], (str_eq_iff [] p).0 h), λ (pre, e). (str_eq_iff [] p).1 (nil-suffix pre p e))
has_suffix_iff (c ∷ s) p = (
  λ h. elim (Bool-cases (str_eq (c ∷ s) p)) [
    | inl e ↦ ([], (str_eq_iff (c ∷ s) p).0 e)
    | inr e ↦ let (pre, k) = (has_suffix_iff s p).0 (ground arith) in (c ∷ pre, ap (λ t. c ∷ t) k)
  ],
  λ (pre, e). suffix-or c s p pre e (has_suffix_iff s p).1,
)

-- The path ends in one of the suffixes of a test file, whatever its case, or a part of it is the name
-- of a test directory.
abbrev pub InTests : Bytes → Type 0
InTests path =
    Any (λ s. (pre : Bytes) × (to_lower path ≡ pre ++ s)) test_patterns
    ⊎ Any (λ part. Any (λ d. to_lower part ≡ d) test_dirs) (split path b'/')

-- A framework-safe glob matches the path or its last element.
abbrev pub IsFramework : Bytes → Type 0
IsFramework path =
    Any (λ pat. (path_match pat.glob path ≡ true) ⊎ (path_match pat.glob (base path) ≡ true))
      framework_safe_patterns

has_test_suffix_iff :
    (path : Bytes)
    → (has_test_suffix path ≡ true)
      ↔ Any (λ s. (pre : Bytes) × (to_lower path ≡ pre ++ s)) test_patterns
unfolding has_test_suffix
has_test_suffix_iff path =
    any_iff (has_suffix (to_lower path)) (λ s. (pre : Bytes) × (to_lower path ≡ pre ++ s))
      test_patterns (has_suffix_iff (to_lower path))

has_test_dir_iff :
    (path : Bytes)
    → (has_test_dir path ≡ true)
      ↔ Any (λ part. Any (λ d. to_lower part ≡ d) test_dirs) (split path b'/')
unfolding has_test_dir
has_test_dir_iff path =
    any_iff (λ part. any (str_eq (to_lower part)) test_dirs)
      (λ part. Any (λ d. to_lower part ≡ d) test_dirs) (split path b'/')
      (λ part.
        any_iff (str_eq (to_lower part)) (λ d. to_lower part ≡ d) test_dirs
          (str_eq_iff (to_lower part)))

InTests-iff : (path : Bytes) → (has_test_suffix path || has_test_dir path ≡ true) ↔ InTests path
InTests-iff path =
    let (a, b) = has_test_suffix_iff path in
    let (c, d) = has_test_dir_iff path in
    (
      λ h. elim (Bool-cases (has_test_suffix path)) [
        | inl e ↦ inl (a e)
        | inr e ↦ inr (c (ground arith))
      ],
      λ h. elim h [
        | inl x ↦ let e : has_test_suffix path ≡ true = b x in ground arith
        | inr x ↦ let e : has_test_dir path ≡ true = d x in ground arith
      ],
    )

IsFramework-iff :
    (path : Bytes) → (any (pattern_matches path) framework_safe_patterns ≡ true) ↔ IsFramework path
IsFramework-iff path =
    any_iff (pattern_matches path)
      (λ pat. (path_match pat.glob path ≡ true) ⊎ (path_match pat.glob (base path) ≡ true))
      framework_safe_patterns (λ pat. unfold pattern_matches in ground arith)

-- A finding in a test file or a test directory is suppressed as such. Any other whose path, or its last
-- element, a framework-safe glob matches is suppressed as framework-safe, and the rest is unchanged.
pub auto_suppress-path :
    (f : Finding)
    → (InTests f.path × (auto_suppress f ≡ suppress reason_test_file f))
      ⊎ ((¬ InTests f.path
            × IsFramework f.path
            × (auto_suppress f ≡ suppress reason_framework_safe f))
          ⊎ (¬ InTests f.path × ¬ IsFramework f.path × (auto_suppress f ≡ f)))
auto_suppress-path f = elim (Bool-cases (has_test_suffix f.path || has_test_dir f.path)) [
  | inl t ↦ inl ((InTests-iff f.path).0 t, (auto_suppress-cases f).0 t)
  | inr t ↦
      let other : ¬ InTests f.path = λ x. cc (t, (InTests-iff f.path).1 x) in
      elim (Bool-cases (any (pattern_matches f.path) framework_safe_patterns)) [
        | inl p ↦ inr (
            inl (
              other,
              (IsFramework-iff f.path).0 p,
              auto_suppress-other f t ∙ apply_framework_safe-hit f p,
            ))
        | inr p ↦ inr (
            inr (
              other,
              λ x. cc (p, (IsFramework-iff f.path).1 x),
              auto_suppress-other f t ∙ apply_framework_safe-miss f p,
            ))
      ]
]
