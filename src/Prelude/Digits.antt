-- ===== src/Prelude/Digits.antt =====
-- What strconv.Itoa of Prelude/Text promises: distinct numbers have distinct texts, of digits only; and how a text
-- that is joined by a byte comes apart.
use Prim.Native.Nat.{ℕ, zero, suc, ◌+◌, ◌*◌, ◌/◌, ◌%◌, ◌<◌}
use zero_trust_sh.Prelude.Tests.{ltb, ◌==◌, Bool-cases}
use zero_trust_sh.Prelude.Lists.{All}
use zero_trust_sh.Prelude.Text.{Bytes, itoa, itoa_from, atoi_from}
use mathlib.Core.Path.{◌≡◌, refl, sym, ap, ◌∙◌}
use mathlib.Core.Logic.{inl, inr}
use mathlib.Core.Bool.{false}
use mathlib.Core.Option.{some}
use mathlib.Core.List.{[], ◌∷◌, ◌++◌}
use native.Mathlib.Omega.{arith}

atoi_from-digit :
    (d k : ℕ) (out : Bytes) → d < 10 → atoi_from ((b'0' + d) ∷ out) k ≡ atoi_from out (k * 10 + d)
unfolding atoi_from
atoi_from-digit d k out h = ground arith

itoa_from-atoi_from :
    (fuel n : ℕ) (out : Bytes) → n < fuel → atoi_from (itoa_from fuel n out) 0 ≡ atoi_from out n
unfolding itoa_from
itoa_from-atoi_from zero n out h = absurd (omega (arith, h))
itoa_from-atoi_from (suc fuel) n out h = elim (Bool-cases (ltb n 10)) [
  | inl e ↦
      let same : 0 * 10 + n ≡ n = omega arith in
      rw e (atoi_from-digit n 0 out (ground arith) ∙ ap (atoi_from out) same)
  | inr e ↦
      let m : n / 10 < fuel = ground arith in
      let same : n / 10 * 10 + n % 10 ≡ n = omega arith in
      rw e (
        itoa_from-atoi_from fuel (n / 10) ((b'0' + n % 10) ∷ out) m
        ∙ atoi_from-digit (n % 10) (n / 10) out (omega arith)
        ∙ ap (atoi_from out) same)
]

atoi_from-nil : (n : ℕ) → atoi_from [] n ≡ some n
unfolding atoi_from
atoi_from-nil n = refl

itoa-atoi_from : (n : ℕ) → atoi_from (itoa n) 0 ≡ some n
itoa-atoi_from n = unfold itoa in itoa_from-atoi_from (suc n) n [] (omega arith) ∙ atoi_from-nil n

pub itoa_injective : (m n : ℕ) → itoa m ≡ itoa n → m ≡ n
itoa_injective m n e =
    let k : some m ≡ some n =
      sym (itoa-atoi_from m) ∙ ap (λ s. atoi_from s 0) e ∙ itoa-atoi_from n in
    cc k

itoa_from-bar :
    (fuel n : ℕ) (out : Bytes)
    → All (λ c. (c == b'|') ≡ false) out
    → All (λ c. (c == b'|') ≡ false) (itoa_from fuel n out)
unfolding itoa_from
itoa_from-bar zero n out h = h
itoa_from-bar (suc fuel) n out h = elim (Bool-cases (ltb n 10)) [
  | inl e ↦ rw e (ground arith, h)
  | inr e ↦ rw e (itoa_from-bar fuel (n / 10) ((b'0' + n % 10) ∷ out) (ground arith, h))
]

pub itoa-bar : (n : ℕ) → All (λ c. (c == b'|') ≡ false) (itoa n)
itoa-bar n = unfold itoa in itoa_from-bar (suc n) n [] tt

-- The first bar of a text, and the last.
pub first_bar :
    (a b s t : Bytes)
    → All (λ c. (c == b'|') ≡ false) a
    → All (λ c. (c == b'|') ≡ false) b
    → a ++ b'|' ∷ s ≡ b ++ b'|' ∷ t
    → (a ≡ b) × (s ≡ t)
first_bar [] [] s t ha hb e = (refl, cc e)
first_bar [] (d ∷ b) s t ha hb e = let k : b'|' ≡ d = cc e in absurd (ground (arith, hb.0))
first_bar (c ∷ a) [] s t ha hb e = let k : c ≡ b'|' = cc e in absurd (ground (arith, ha.0))
first_bar (c ∷ a) (d ∷ b) s t ha hb e =
    let k : c ≡ d = cc e in let (x, y) = first_bar a b s t ha.1 hb.1 (cc e) in (cc (k, x), y)

no_bar : (d q e : Bytes) → All (λ c. (c == b'|') ≡ false) d → d ≡ q ++ b'|' ∷ e → ⊥
no_bar [] [] e h k = cc k
no_bar [] (x ∷ q) e h k = cc k
no_bar (c ∷ d) [] e h k = let j : c ≡ b'|' = cc k in ground (arith, h.0)
no_bar (c ∷ d) (x ∷ q) e h k = no_bar d q e h.1 (cc k)

pub last_bar :
    (p q d e : Bytes)
    → All (λ c. (c == b'|') ≡ false) d
    → All (λ c. (c == b'|') ≡ false) e
    → p ++ b'|' ∷ d ≡ q ++ b'|' ∷ e
    → (p ≡ q) × (d ≡ e)
last_bar [] [] d e hd he k = (refl, cc k)
last_bar [] (x ∷ q) d e hd he k = absurd (no_bar d q e hd (cc k))
last_bar (x ∷ p) [] d e hd he k = absurd (no_bar e p d he (cc k))
last_bar (x ∷ p) (y ∷ q) d e hd he k =
    let j : x ≡ y = cc k in let (a, b) = last_bar p q d e hd he (cc k) in (cc (j, a), b)
