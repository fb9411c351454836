-- ===== src/Prelude/Words.antt =====
-- More of the package strings: trimming, fields, and cutting at a rune boundary.
use Prim.Native.Nat.{ℕ, zero, suc, ◌≤◌, ◌<◌}
use zero_trust_sh.Prelude.Tests.{ltb, leb, ◌==◌, if◌then◌else◌, Bool-cases}
use zero_trust_sh.Prelude.Lists.{length, take, any, get_elem?}
use zero_trust_sh.Prelude.Text.{Bytes, is_space}
use mathlib.Core.Path.{◌≡◌, refl}
use mathlib.Core.Logic.{◌⊎◌, inl, inr}
use mathlib.Core.Bool.{Bool, true, false, ◌||◌}
use mathlib.Core.Option.{none, some}
use mathlib.Core.List.{List, [], ◌∷◌, ◌++◌}
use native.Mathlib.Omega.{arith}

unfoldable pub trim_left : (ℕ → Bool) → Bytes → Bytes
trim_left p [] = []
trim_left p (c ∷ s) = let rest = trim_left p s in if p c then rest else c ∷ s

trim_right : (ℕ → Bool) → Bytes → Bytes
trim_right p [] = []
trim_right p (c ∷ s) =
    let rest = trim_right p s in elim rest [ [] ↦ if p c then [] else c ∷ [] | d ∷ r ↦ c ∷ d ∷ r ]

-- strings.TrimSpace
unfoldable pub trim_space : Bytes → Bytes
unfolding trim_left trim_right is_space
trim_space s = trim_right is_space (trim_left is_space s)

-- strings.Trim(s, cutset)
unfoldable pub trim : Bytes → Bytes → Bytes
unfolding trim_left trim_right any
trim s cutset =
    trim_right (λ c. any (λ d. c == d) cutset) (trim_left (λ c. any (λ d. c == d) cutset) s)

-- strings.Fields: `cur` is the word being read.
fields_from : Bytes → Bytes → List Bytes
unfolding is_space
fields_from [] [] = []
fields_from [] (d ∷ cur) = (d ∷ cur) ∷ []
fields_from (c ∷ s) [] = elim (is_space c) [
  | true ↦ fields_from s []
  | false ↦ fields_from s (c ∷ [])
]
fields_from (c ∷ s) (d ∷ cur) = elim (is_space c) [
  | true ↦ (d ∷ cur) ∷ fields_from s []
  | false ↦ fields_from s (d ∷ cur ++ c ∷ [])
]

unfoldable pub fields : Bytes → List Bytes
unfolding fields_from
fields s = fields_from s []

-- The last item, or nothing.
unfoldable pub last_or_empty : List Bytes → Bytes
last_or_empty [] = []
last_or_empty (x ∷ []) = x
last_or_empty (x ∷ y ∷ xs) = last_or_empty (y ∷ xs)

-- utf8.RuneStart: not a continuation byte.
unfoldable pub rune_start : ℕ → Bool
rune_start b = ltb b 128 || leb 192 b

unfoldable pub starts_at : Bytes → ℕ → Bool
unfolding rune_start
starts_at s n = elim (get_elem? s n) [ none ↦ false | some b ↦ rune_start b ]

-- for n > 0 && !utf8.RuneStart(s[n]) { n-- }
unfoldable pub back_up : Bytes → ℕ → ℕ
unfolding starts_at
back_up s zero = zero
back_up s (suc n) = let rest = back_up s n in if starts_at s (suc n) then suc n else rest

-- truncateUTF8, which three packages repeat word for word.
unfoldable pub truncate_utf8 : Bytes → ℕ → Bytes
unfolding back_up
truncate_utf8 s n = if leb (length s) n then s else take (back_up s n) s

back_up-le : (s : Bytes) (n : ℕ) → back_up s n ≤ n
unfolding back_up
back_up-le s zero = omega arith
back_up-le s (suc n) = ground (arith, back_up-le s n)

back_up_here : (s : Bytes) (n : ℕ) → starts_at s (suc n) ≡ true → back_up s (suc n) ≡ suc n
unfolding back_up
back_up_here s n h = ground arith

back_up_lower : (s : Bytes) (n : ℕ) → starts_at s (suc n) ≡ false → back_up s (suc n) ≡ back_up s n
unfolding back_up
back_up_lower s n h = ground arith

back_up-boundary : (s : Bytes) (n : ℕ) → (back_up s n ≡ 0) ⊎ (starts_at s (back_up s n) ≡ true)
back_up-boundary s zero = unfold back_up in inl refl
back_up-boundary s (suc n) = elim (Bool-cases (starts_at s (suc n))) [
  | inl here ↦ inr (rw (back_up_here s n here) here)
  | inr not_here ↦ rw (back_up_lower s n not_here) (back_up-boundary s n)
]

length-take-le : (n : ℕ) (s : Bytes) → length (take n s) ≤ n
length-take-le zero s = omega arith
length-take-le (suc n) [] = omega arith
length-take-le (suc n) (c ∷ s) = omega (arith, length-take-le n s)

truncate_long : (s : Bytes) (n : ℕ) → n < length s → truncate_utf8 s n ≡ take (back_up s n) s
unfolding truncate_utf8
truncate_long s n h = ground arith

-- A truncated text has at most `n` bytes, is a prefix of the text (its first `back_up s n` bytes),
-- and ends before a byte that starts a rune, unless nothing is left. A text that fits is kept.
pub truncate_utf8_lem :
    (s : Bytes) (n : ℕ)
    → (length s ≤ n → truncate_utf8 s n ≡ s)
      × (n < length s
          → (truncate_utf8 s n ≡ take (back_up s n) s)
            × (length (truncate_utf8 s n) ≤ n)
            × ((back_up s n ≡ 0) ⊎ (starts_at s (back_up s n) ≡ true)))
truncate_utf8_lem s n = (
  λ fits. unfold truncate_utf8 in ground arith,
  λ long.
      let cut = truncate_long s n long in
      (
        cut,
        rw cut (omega (arith, length-take-le (back_up s n) s, back_up-le s n)),
        back_up-boundary s n,
      ),
)
