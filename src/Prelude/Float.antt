-- ===== src/Prelude/Float.antt =====
-- float64 without NaN, which the program never meets: its scores come from decimal literals, from
-- JSON numbers, and from sums and quotients of these. The values other than NaN are linearly
-- ordered (the two zeros count as one), and a value stands for its rank in that order, so Go's
-- comparisons are those of ℕ. Arithmetic and literals are parameters with the laws of IEEE 754.
use Prim.Native.Nat.{ℕ, ◌*◌, ◌^◌, ◌≤◌, ◌<◌}
use mathlib.Core.Path.{◌≡◌}

abbrev pub Float64 : Type 0
Float64 = ℕ

pub record FloatOps : Type 0 where
  -- `decimal n k` is the literal n / 10^k.
  pub decimal : ℕ → ℕ → Float64
  pub add : Float64 → Float64 → Float64
  pub div : Float64 → Float64 → Float64

-- Rounding is monotone, and exact on the operands themselves.
pub record IsFloat64 (F : FloatOps) : Type 0 where
  pub decimal_le : (m k n j : ℕ) → m * 10 ^ j ≤ n * 10 ^ k → F.decimal m k ≤ F.decimal n j
  -- Literals of few digits that differ are different values.
  pub decimal_lt :
      (m k n j : ℕ)
      → m * 10 ^ j < n * 10 ^ k
      → n ≤ 1000
      → k ≤ 3
      → j ≤ 3
      → F.decimal m k < F.decimal n j
  pub le-add : (x y : Float64) → F.decimal 0 0 ≤ y → x ≤ F.add x y
  pub add_mono : (x y z : Float64) → x ≤ y → F.add x z ≤ F.add y z
  pub div_mono : (x y : Float64) → x ≤ y → F.div x (F.decimal 10 0) ≤ F.div y (F.decimal 10 0)
  pub div_ten : F.div (F.decimal 10 0) (F.decimal 10 0) ≡ F.decimal 1 0
