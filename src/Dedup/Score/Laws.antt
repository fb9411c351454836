-- ===== src/Dedup/Score/Laws.antt =====
-- What the scoring of a finding promises.
use zero_trust_sh.Prelude.{◌≡◌, ◌≤◌, true, false, arith, if◌then◌else◌}
use zero_trust_sh.Prelude.Float.{Float64, FloatOps, IsFloat64}
use zero_trust_sh.Config.{Config}
use zero_trust_sh.Config.Valid.{InUnit, validate, boosts-InUnit}
use zero_trust_sh.Finding.{Finding, source_pattern, severity_from_confidence, label_rank, medium}
use zero_trust_sh.Dedup.Score.{
  apply_boost_and_score, final_confidence, raise, cross_path_boost, cvss_floor, ssvc_active_boost,
  ssvc_automatable_boost, pattern_floor,
}

module _ (F : FloatOps) (laws : IsFloat64 F) (cfg : Config) (valid : validate F cfg ≡ true) where
  -- `d` is a confidence that is not below `c` and not above 1.
  Rises : Float64 → Float64 → Type 0
  Rises c d = (c ≤ d) × (d ≤ F.decimal 1 0)

  raise-Rises : (c b : Float64) → c ≤ F.decimal 1 0 → F.decimal 0 0 ≤ b → Rises c (raise F cfg c b)
  unfolding Rises raise
  raise-Rises c b h k = omega (arith, laws.le-add c b k)

  boosts :
      InUnit F cfg.boost_cross_path
      × InUnit F cfg.boost_ssvc_active
      × InUnit F cfg.boost_ssvc_automatable
      × InUnit F cfg.floor_pattern_path
  boosts = boosts-InUnit F cfg valid

  cross_path_boost-Rises :
      (f : Finding) (c : Float64) → c ≤ F.decimal 1 0 → Rises c (cross_path_boost F cfg f c)
  unfolding Rises cross_path_boost
  cross_path_boost-Rises f c h = ground (arith, raise-Rises c cfg.boost_cross_path h boosts.0.0)

  cvss_floor-Rises :
      (f : Finding) (c : Float64)
      → f.cvss ≤ F.decimal 10 0
      → c ≤ F.decimal 1 0
      → Rises c (cvss_floor F cfg f c)
  unfolding Rises cvss_floor
  cvss_floor-Rises f c k h = ground (arith, laws.div_mono f.cvss (F.decimal 10 0) k, laws.div_ten)

  ssvc_active_boost-Rises :
      (f : Finding) (c : Float64) → c ≤ F.decimal 1 0 → Rises c (ssvc_active_boost F cfg f c)
  unfolding Rises ssvc_active_boost
  ssvc_active_boost-Rises f c h = ground (arith, raise-Rises c cfg.boost_ssvc_active h boosts.1.0)

  ssvc_automatable_boost-Rises :
      (f : Finding) (c : Float64) → c ≤ F.decimal 1 0 → Rises c (ssvc_automatable_boost F cfg f c)
  unfolding Rises ssvc_automatable_boost
  ssvc_automatable_boost-Rises f c h =
      ground (arith, raise-Rises c cfg.boost_ssvc_automatable h boosts.2.0)

  pattern_floor-Rises :
      (f : Finding) (c : Float64) → c ≤ F.decimal 1 0 → Rises c (pattern_floor F cfg f c)
  unfolding Rises pattern_floor
  pattern_floor-Rises f c h = ground (arith, boosts.3)

  -- With a valid configuration, a confidence of at most 1 and a CVSS score of at most 10, scoring
  -- never lowers a confidence and never takes it above 1.
  pub final_confidence-bounds :
      (f : Finding)
      → f.confidence ≤ F.decimal 1 0
      → f.cvss ≤ F.decimal 10 0
      → (f.confidence ≤ final_confidence F cfg f) × (final_confidence F cfg f ≤ F.decimal 1 0)
  unfolding final_confidence Rises
  final_confidence-bounds f h k =
      let r1 = cross_path_boost-Rises f f.confidence h in
      let r2 = cvss_floor-Rises f _ k r1.1 in
      let r3 = ssvc_active_boost-Rises f _ r2.1 in
      let r4 = ssvc_automatable_boost-Rises f _ r3.1 in
      let r5 = pattern_floor-Rises f _ r4.1 in omega (arith, r1, r2, r3, r4, r5)

-- Scoring sets the confidence to the final one. It leaves a pinned label as it is, and gives any
-- other finding the label of its final confidence.
pub apply_boost_and_score-label :
    (F : FloatOps) (cfg : Config) (f : Finding)
    → let g = apply_boost_and_score F cfg f in
      (g.confidence ≡ final_confidence F cfg f)
      × (g.severity_label ≡ (
          if f.severity_pinned then f.severity_label else severity_from_confidence F g.confidence))
      × (g.severity_pinned ≡ f.severity_pinned)
unfolding apply_boost_and_score
apply_boost_and_score-label F cfg f = ground arith

-- A finding of the deterministic path never scores below the configured floor; where the floor is
-- 0.60 or more, such a finding that is not pinned is labelled MEDIUM or above.
pub pattern_finding_floor :
    (F : FloatOps) (laws : IsFloat64 F) (cfg : Config) (f : Finding)
    → f.source_path ≡ source_pattern
    → f.severity_pinned ≡ false
    → F.decimal 60 2 ≤ cfg.floor_pattern_path
    → (cfg.floor_pattern_path ≤ (apply_boost_and_score F cfg f).confidence)
      × (label_rank (apply_boost_and_score F cfg f).severity_label ≤ label_rank medium)
unfolding apply_boost_and_score pattern_floor severity_from_confidence
pattern_finding_floor F laws cfg f s p h = ground arith
