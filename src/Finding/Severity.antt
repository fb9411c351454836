-- ===== src/Finding/Severity.antt =====
-- What the severity labels of internal/finding/finding.go promise.
use zero_trust_sh.Prelude.{◌≤◌, ◌<◌, ◌≡◌, ◌↔◌, arith}
use zero_trust_sh.Prelude.Float.{Float64, FloatOps, IsFloat64}
use zero_trust_sh.Finding.{
  block, high, medium, low, suppressed, label_rank, severity_from_confidence,
}

module _ (F : FloatOps) (laws : IsFloat64 F) where
  -- The literals of the thresholds are in order.
  pub threshold_order :
      (F.decimal 30 2 ≤ F.decimal 60 2)
      × (F.decimal 60 2 ≤ F.decimal 75 2)
      × (F.decimal 75 2 ≤ F.decimal 92 2)
  threshold_order = (
    laws.decimal_le 30 2 60 2 (omega arith),
    laws.decimal_le 60 2 75 2 (omega arith),
    laws.decimal_le 75 2 92 2 (omega arith),
  )

  -- A higher confidence never gives a less severe label.
  pub severity_from_confidence_anti :
      (c d : Float64)
      → c ≤ d
      → label_rank (severity_from_confidence F d) ≤ label_rank (severity_from_confidence F c)
  unfolding severity_from_confidence
  severity_from_confidence_anti c d h = ground (arith, threshold_order)

  -- Each label is given for exactly one band of confidence: at least its threshold and below the
  -- threshold of the label above it.
  pub severity_bands :
      (c : Float64)
      → ((severity_from_confidence F c ≡ block) ↔ (F.decimal 92 2 ≤ c))
        × ((severity_from_confidence F c ≡ high) ↔ ((F.decimal 75 2 ≤ c) × (c < F.decimal 92 2)))
        × ((severity_from_confidence F c ≡ medium) ↔ ((F.decimal 60 2 ≤ c) × (c < F.decimal 75 2)))
        × ((severity_from_confidence F c ≡ low) ↔ ((F.decimal 30 2 ≤ c) × (c < F.decimal 60 2)))
        × ((severity_from_confidence F c ≡ suppressed) ↔ (c < F.decimal 30 2))
  unfolding severity_from_confidence
  severity_bands c = ground (arith, threshold_order)
