-- ===== src/Dedup/Score.antt =====
-- applyBoostAndScore of internal/dedup/dedup.go. `cfg` is the global config.C.
pub mod Laws
use zero_trust_sh.Prelude.{Bool, true, false, not, ◌&&◌, ◌||◌, if◌then◌else◌, ltb}
use Prim.Native.Nat.{min}
use zero_trust_sh.Prelude.Text.{codes, str_eq}
use zero_trust_sh.Prelude.Float.{Float64, FloatOps}
use zero_trust_sh.Config.{Config}
use zero_trust_sh.Finding.{Finding, is_both, is_pattern, severity_from_confidence}

module _ (F : FloatOps) (cfg : Config) where
  -- Go's min of floats is that of their ranks.
  raise : Float64 → Float64 → Float64
  raise c boost = min (F.add c boost) (F.decimal 1 0)

  cross_path_boost : Finding → Float64 → Float64
  unfolding raise
  cross_path_boost f c =
      if is_both f.source_path && ltb c cfg.conf_block then raise c cfg.boost_cross_path else c

  cvss_floor : Finding → Float64 → Float64
  cvss_floor f c =
      let floor = F.div f.cvss (F.decimal 10 0) in
      if ltb (F.decimal 0 0) f.cvss && ltb c floor then floor else c

  ssvc_active_boost : Finding → Float64 → Float64
  unfolding raise
  ssvc_active_boost f c =
      if (f.exploitable || is_both f.source_path) && str_eq f.ssvc.exploitation (codes "Active")
      then raise c cfg.boost_ssvc_active
      else c

  ssvc_automatable_boost : Finding → Float64 → Float64
  unfolding raise
  ssvc_automatable_boost f c =
      if (f.exploitable || is_both f.source_path) && str_eq f.ssvc.automatable (codes "Yes")
      then raise c cfg.boost_ssvc_automatable
      else c

  pattern_floor : Finding → Float64 → Float64
  pattern_floor f c =
      if is_pattern f.source_path && ltb c cfg.floor_pattern_path then cfg.floor_pattern_path else c

  unfoldable pub final_confidence : Finding → Float64
  unfolding cross_path_boost cvss_floor ssvc_active_boost ssvc_automatable_boost pattern_floor
  final_confidence f = pattern_floor f (
      ssvc_automatable_boost f
        (ssvc_active_boost f (cvss_floor f (cross_path_boost f f.confidence))))

  unfoldable pub apply_boost_and_score : Finding → Finding
  unfolding final_confidence
  apply_boost_and_score f =
      let c = final_confidence f in
      if f.severity_pinned
      then record f { confidence = c }
      else record f { confidence = c; severity_label = severity_from_confidence F c }
