-- ===== src/Tests/Floats.antt =====
-- Scores in thousandths: an arithmetic on which the laws of Prelude.Float hold.
use zero_trust_sh.Prelude.{ℕ, zero, suc, ◌+◌, ◌*◌, ◌/◌, ◌^◌, ◌≤◌, ◌<◌, refl, arith}
use zero_trust_sh.Prelude.Float.{FloatOps, IsFloat64}
use native.Mathlib.Nat.{
  le_of_mul-le-mul_right, mul-le-mul_right, one-le-pow, le-div_iff_mul-le, div-mul-le_self,
}

abbrev pub thousandths : FloatOps
thousandths = record {
  decimal = λ n k. n * 1000 / 10 ^ k;
  add = λ x y. x + y;
  div = λ x y. x * 1000 / y;
}

scaled : (m n a b : ℕ) → 0 < a → 0 < b → m * b ≤ n * a → m * 1000 / a ≤ n * 1000 / b
scaled m n a b ha hb h =
    let below = mul-le-mul_right b (div-mul-le_self (m * 1000) a) in
    (le-div_iff_mul-le hb).1 (
      le_of_mul-le-mul_right {m = (m * 1000 / a) * b} {n = n * 1000} {k = a}
        (grind (arith, below, h)) ha)

digits :
    (m k n j : ℕ) → m * 10 ^ j < n * 10 ^ k → k ≤ 3 → j ≤ 3 → m * 1000 / 10 ^ k < n * 1000 / 10 ^ j
digits m (suc (suc (suc (suc k)))) n j h hk hj = absurd (omega (arith, hk))
digits m zero n (suc (suc (suc (suc j)))) h hk hj = absurd (omega (arith, hj))
digits m (suc zero) n (suc (suc (suc (suc j)))) h hk hj = absurd (omega (arith, hj))
digits m (suc (suc zero)) n (suc (suc (suc (suc j)))) h hk hj = absurd (omega (arith, hj))
digits m (suc (suc (suc zero))) n (suc (suc (suc (suc j)))) h hk hj = absurd (omega (arith, hj))
digits m zero n zero h hk hj = omega (arith, h)
digits m zero n (suc zero) h hk hj = omega (arith, h)
digits m zero n (suc (suc zero)) h hk hj = omega (arith, h)
digits m zero n (suc (suc (suc zero))) h hk hj = omega (arith, h)
digits m (suc zero) n zero h hk hj = omega (arith, h)
digits m (suc zero) n (suc zero) h hk hj = omega (arith, h)
digits m (suc zero) n (suc (suc zero)) h hk hj = omega (arith, h)
digits m (suc zero) n (suc (suc (suc zero))) h hk hj = omega (arith, h)
digits m (suc (suc zero)) n zero h hk hj = omega (arith, h)
digits m (suc (suc zero)) n (suc zero) h hk hj = omega (arith, h)
digits m (suc (suc zero)) n (suc (suc zero)) h hk hj = omega (arith, h)
digits m (suc (suc zero)) n (suc (suc (suc zero))) h hk hj = omega (arith, h)
digits m (suc (suc (suc zero))) n zero h hk hj = omega (arith, h)
digits m (suc (suc (suc zero))) n (suc zero) h hk hj = omega (arith, h)
digits m (suc (suc (suc zero))) n (suc (suc zero)) h hk hj = omega (arith, h)
digits m (suc (suc (suc zero))) n (suc (suc (suc zero))) h hk hj = omega (arith, h)

pub thousandths-IsFloat64 : IsFloat64 thousandths
thousandths-IsFloat64 = record {
  decimal_le = λ m k n j h.
      scaled m n (10 ^ k) (10 ^ j) (one-le-pow k 10 (omega arith)) (one-le-pow j 10 (omega arith))
        h;
  decimal_lt = λ m k n j h hn hk hj. digits m k n j h hk hj;
  le-add = λ x y h. omega arith;
  add_mono = λ x y z h. omega (arith, h);
  div_mono = λ x y h. omega (arith, h);
  div_ten = refl;
}
