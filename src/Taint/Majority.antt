-- ===== src/Taint/Majority.antt =====
-- DetectLanguageFromFiles of internal/cpg_engine/taint.go. Go visits the keys of the map of counts in
-- any order, so the order is a parameter.
use zero_trust_sh.Prelude.{
  ℕ, suc, ◌≤◌, ◌<◌, ◌∷◌, [], List, Bool, true, false, Option, none, some, ◌≡◌, refl, sym, ap, arith,
  Member, inl, inr, Bool-cases, if◌then◌else◌, All, ltb,
}
use mathlib.Core.Path.{subst}
use zero_trust_sh.Prelude.Text.{Bytes}
use zero_trust_sh.Taint.{Language, java, python, js, go, unsupported}
use zero_trust_sh.Taint.Lookup.{detect_language}

-- The language of a file counts for `lang`.
counts_for : Language → Option Language → Bool
counts_for java (some java) = true
counts_for python (some python) = true
counts_for js (some js) = true
counts_for go (some go) = true
counts_for _ _ = false

-- counts[lang] after the first loop.
unfoldable pub language_count : List Bytes → Language → ℕ
unfolding counts_for
language_count [] lang = 0
language_count (f ∷ fs) lang =
    let rest = language_count fs lang in
    if counts_for lang (detect_language f) then suc rest else rest

-- The second loop, over the keys that are left.
unfoldable pub best_from : (Language → ℕ) → List Language → Language → ℕ → Language
best_from n [] best max_n = best
best_from n (lang ∷ order) best max_n =
    let better = best_from n order lang (n lang) in
    let same = best_from n order best max_n in if ltb max_n (n lang) then better else same

-- `order` lists the keys of the map, those with a count; an empty map gives no language. The zero
-- value of best is unsupported.
unfoldable pub detect_language_from_files : List Bytes → List Language → Option Language
unfolding language_count best_from
detect_language_from_files files [] = none
detect_language_from_files files (lang ∷ order) =
    some (best_from (language_count files) (lang ∷ order) unsupported 0)

module _ (n : Language → ℕ) where
  best_from_more :
      (lang : Language) (order : List Language) (best : Language) (max_n : ℕ)
      → ltb max_n (n lang) ≡ true
      → best_from n (lang ∷ order) best max_n ≡ best_from n order lang (n lang)
  unfolding best_from
  best_from_more lang order best max_n e = rw e refl

  best_from_less :
      (lang : Language) (order : List Language) (best : Language) (max_n : ℕ)
      → ltb max_n (n lang) ≡ false
      → best_from n (lang ∷ order) best max_n ≡ best_from n order best max_n
  unfolding best_from
  best_from_less lang order best max_n e = rw e refl

  -- The loop ends with a language of the greatest count.
  best_from_max :
      (order : List Language) (best : Language) (max_n : ℕ)
      → n best ≡ max_n
      → (max_n ≤ n (best_from n order best max_n))
        × All (λ lang. n lang ≤ n (best_from n order best max_n)) order
  best_from_max [] best max_n h = unfold best_from in (omega arith, tt)
  best_from_max (lang ∷ order) best max_n h = elim (Bool-cases (ltb max_n (n lang))) [
    | inl more ↦
        let r = best_from_max order lang (n lang) refl in
        subst (λ b. (max_n ≤ n b) × All (λ l. n l ≤ n b) (lang ∷ order))
          (sym (best_from_more lang order best max_n more)) (ground (arith, more, r.0), (r.0, r.1))
    | inr less ↦
        let r = best_from_max order best max_n h in
        subst (λ b. (max_n ≤ n b) × All (λ l. n l ≤ n b) (lang ∷ order))
          (sym (best_from_less lang order best max_n less)) (r.0, (ground (arith, less, r.0), r.1))
  ]

  -- It is the language that the loop began with, or one of the keys.
  best_from-Member :
      (order : List Language) (best : Language) (max_n : ℕ)
      → Member (best_from n order best max_n) (best ∷ order)
  best_from-Member [] best max_n = unfold best_from in inl refl
  best_from-Member (lang ∷ order) best max_n = elim (Bool-cases (ltb max_n (n lang))) [
    | inl more ↦
        subst (λ b. Member b (best ∷ lang ∷ order))
          (sym (best_from_more lang order best max_n more))
          (inr (best_from-Member order lang (n lang)))
    | inr less ↦
        subst (λ b. Member b (best ∷ lang ∷ order))
          (sym (best_from_less lang order best max_n less))
          (elim (best_from-Member order best max_n) [ inl e ↦ inl e | inr t ↦ inr (inr t) ])
  ]

count_unsupported : (files : List Bytes) → language_count files unsupported ≡ 0
unfolding language_count
count_unsupported [] = refl
count_unsupported (f ∷ fs) = count_unsupported fs

not_initial :
    (n : Language → ℕ) (b : Language) (lang : Language) (order : List Language)
    → n unsupported ≡ 0
    → 0 < n lang
    → n lang ≤ n b
    → Member b (unsupported ∷ lang ∷ order)
    → Member b (lang ∷ order)
not_initial n b lang order z pos le m = elim m [
  | inl e ↦ absurd (let e' : n unsupported ≡ n b = ap n e in omega arith)
  | inr t ↦ t
]

-- In whatever order Go visits the languages that were counted, the result is one of them, and none
-- of them has more files.
pub majority :
    (files : List Bytes) (lang : Language) (order : List Language)
    → 0 < language_count files lang
    → (best : Language) × (detect_language_from_files files (lang ∷ order) ≡ some best)
      × Member best (lang ∷ order)
      × All (λ l. language_count files l ≤ language_count files best) (lang ∷ order)
majority files lang order pos =
    let n = language_count files in
    let best = best_from n (lang ∷ order) unsupported 0 in
    let top = best_from_max n (lang ∷ order) unsupported 0 (count_unsupported files) in
    (
      best,
      unfold detect_language_from_files in refl,
      not_initial n best lang order (count_unsupported files) pos top.1.0
          (best_from-Member n (lang ∷ order) unsupported 0),
      top.1,
    )
