-- ===== src/Prelude/Search.antt =====
-- Laws of the first item that passes a test.
use zero_trust_sh.Prelude.Tests.{Bool-cases}
use zero_trust_sh.Prelude.Lists.{find_first, any, Any, All, Member}
use mathlib.Core.Path.{◌≡◌, refl, subst}
use mathlib.Core.Logic.{inl, inr, ◌↔◌}
use mathlib.Core.Bool.{Bool, true, false}
use mathlib.Core.Option.{none, some}
use mathlib.Core.List.{List, [], ◌∷◌, ◌++◌}
use native.Mathlib.Omega.{arith}

pub find_first-append {ℓ} :
    {A : Type ℓ} (p : A → Bool) (xs ys : List A)
    → All (λ x. p x ≡ false) xs
    → find_first p (xs ++ ys) ≡ find_first p ys
unfolding find_first
find_first-append p [] ys h = refl
find_first-append p (x ∷ xs) ys h = rw (h.0) (find_first-append p xs ys h.1)

pub find_first-cons {ℓ} :
    {A : Type ℓ} (p : A → Bool) (x : A) (xs : List A) → p x ≡ true → find_first p (x ∷ xs) ≡ some x
unfolding find_first
find_first-cons p x xs h = rw h

pub find_first-none {ℓ} :
    {A : Type ℓ} (p : A → Bool) (xs : List A) → All (λ x. p x ≡ false) xs → find_first p xs ≡ none
unfolding find_first
find_first-none p [] h = refl
find_first-none p (x ∷ xs) h = rw (h.0) (find_first-none p xs h.1)

pub find_first-All {ℓ} :
    {A : Type ℓ} (p : A → Bool) (P : A → Type 0) (xs : List A) {x : A}
    → All P xs
    → find_first p xs ≡ some x
    → P x
unfolding find_first
find_first-All p P [] h e = cc
find_first-All {A} p P (y ∷ xs) {x = x} h e = elim (Bool-cases (p y)) [
  | inl found ↦ let same : y ≡ x = ground arith in subst P same h.0
  | inr other ↦ find_first-All p P xs h.1 (ground arith)
]

-- What is found is an item of the list and passes the test.
pub find_first_sound :
    {A : Type 0} (p : A → Bool) (xs : List A) {x : A}
    → find_first p xs ≡ some x
    → Member x xs × (p x ≡ true)
unfolding find_first
find_first_sound p [] e = cc
find_first_sound p (y ∷ xs) {x = x} e = elim (Bool-cases (p y)) [
  | inl found ↦ let same : y ≡ x = ground arith in (inl same, subst (λ z. p z ≡ true) same found)
  | inr other ↦ let (m, t) = find_first_sound p xs {x = x} (ground arith) in (inr m, t)
]

-- Where nothing is found, no item passes.
pub find_first_complete :
    {A : Type 0} (p : A → Bool) (xs : List A) → find_first p xs ≡ none → All (λ x. p x ≡ false) xs
unfolding find_first
find_first_complete p [] e = tt
find_first_complete p (y ∷ xs) e = elim (Bool-cases (p y)) [
  | inl found ↦ absurd (ground arith)
  | inr other ↦ (other, find_first_complete p xs (ground arith))
]

-- Where an item passes, what is found stands no later than it: the items up to it decide.
pub find_first-before :
    {A : Type 0} (p : A → Bool) (P : A → Type 0) (pre : List A) (a : A) (post : List A)
    → All P pre
    → P a
    → p a ≡ true
    → (x : A) × (find_first p (pre ++ a ∷ post) ≡ some x) × P x
unfolding find_first
find_first-before p P [] a post h pa e = (a, rw e refl, pa)
find_first-before p P (y ∷ pre) a post h pa e = elim (Bool-cases (p y)) [
  | inl found ↦ (y, rw found refl, h.0)
  | inr other ↦
      let (x, first, px) = find_first-before p P pre a post h.1 pa e in (x, rw other first, px)
]

-- A test that decides a predicate, for some item of a list.
pub any_iff :
    {A : Type 0} (p : A → Bool) (P : A → Type 0) (xs : List A)
    → ((x : A) → (p x ≡ true) ↔ P x)
    → (any p xs ≡ true) ↔ Any P xs
unfolding any
any_iff p P [] h = (λ e. cc e, λ x. absurd x)
any_iff p P (x ∷ xs) h =
    let (a, b) = any_iff p P xs h in
    (
      λ e. elim (Bool-cases (p x)) [
        | inl here ↦ inl ((h x).0 here)
        | inr other ↦ inr (a (ground arith))
      ],
      λ m. elim m [
        | inl here ↦ let e : p x ≡ true = (h x).1 here in ground arith
        | inr there ↦ let e : any p xs ≡ true = b there in ground arith
      ],
    )

pub find_first-any :
    {A : Type 0} (p : A → Bool) (xs : List A)
    → any p xs ≡ true
    → (x : A) × (find_first p xs ≡ some x)
unfolding any find_first
find_first-any p [] h = cc
find_first-any p (x ∷ xs) h = elim (Bool-cases (p x)) [
  | inl here ↦ (x, rw here refl)
  | inr other ↦ let (y, e) = find_first-any p xs (ground arith) in (y, rw other e)
]

pub find_first-any-none :
    {A : Type 0} (p : A → Bool) (xs : List A) → any p xs ≡ false → find_first p xs ≡ none
unfolding any find_first
find_first-any-none p [] h = refl
find_first-any-none p (x ∷ xs) h = ground (arith, find_first-any-none p xs)
