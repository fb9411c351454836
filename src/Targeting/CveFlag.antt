-- ===== src/Targeting/CveFlag.antt =====
-- AutoFlagCVESurfaces and cvssConfidence of internal/semantic/targeting/targeting.go. The arithmetic of the sigmoid
-- (math.Exp) is a parameter.
use zero_trust_sh.Prelude.{
  ◌≤◌, Bool, true, false, not, ◌&&◌, ◌||◌, ◌==◌, List, [], ◌∷◌, if◌then◌else◌, ltb, leb, keep, map,
  ◌≡◌, refl, arith, inl, inr, Bool-cases,
}
use zero_trust_sh.Prelude.Float.{Float64}
use zero_trust_sh.Config.{Config}
use zero_trust_sh.Surface.{Surface}

-- `zero_score` is the float 0, `sigmoid` takes slope, intercept and CVSS.
pub record Scale : Type 0 where
  pub zero_score : Float64
  pub sigmoid : Float64 → Float64 → Float64 → Float64

-- `global` is config.C.
unfoldable pub cvss_confidence : Scale → Config → Float64 → Config → Float64
cvss_confidence scale global cvss cal =
    if not (cal.cvss_platt_slope == scale.zero_score)
    then (if ltb cvss global.cvss_medium
        then scale.zero_score
        else scale.sigmoid cal.cvss_platt_slope cal.cvss_platt_intercept cvss)
    else if leb global.cvss_critical cvss
    then global.conf_cvss_critical
    else if leb global.cvss_high cvss
    then global.conf_cvss_high
    else if leb global.cvss_medium cvss
    then global.conf_cvss_medium
    else scale.zero_score

unfoldable pub cvss_of : Scale → Config → Surface → Float64
cvss_of scale global s =
    if s.cvss_score == scale.zero_score then global.cvss_missing_default else s.cvss_score

unfoldable pub confidence_of : Scale → Config → Config → Surface → Float64
unfolding cvss_confidence cvss_of
confidence_of scale global cal s = cvss_confidence scale global (cvss_of scale global s) cal

-- s.ConfidenceScore = conf
unfoldable pub score_flag : Scale → Config → Config → Surface → Surface
unfolding confidence_of
score_flag scale global cal s = record s { confidence_score = confidence_of scale global cal s }

pub record Split : Type 0 where
  pub flagged : List Surface
  pub remaining : List Surface

-- The two conditions under which a surface remains.
unfoldable pub stays : Scale → Config → Config → Surface → Bool
unfolding confidence_of
stays scale global cal s =
    not s.has_cve_match || confidence_of scale global cal s == scale.zero_score

unfoldable pub auto_flag_step : Scale → Config → Config → Surface → Split → Split
unfolding stays score_flag
auto_flag_step scale global cal s rest =
    if stays scale global cal s
    then record { flagged = rest.flagged; remaining = s ∷ rest.remaining }
    else record {
      flagged = score_flag scale global cal s ∷ rest.flagged;
      remaining = rest.remaining;
    }

unfoldable pub auto_flag_cve_surfaces : Scale → Config → Config → List Surface → Split
unfolding auto_flag_step
auto_flag_cve_surfaces scale global cal [] = record { flagged = []; remaining = [] }
auto_flag_cve_surfaces scale global cal (s ∷ surfaces) =
    auto_flag_step scale global cal s (auto_flag_cve_surfaces scale global cal surfaces)

-- No band has the score 0, and the bands are ordered.
pub record IsGraded (scale : Scale) (global : Config) : Type 0 where
  pub critical_not_zero : (global.conf_cvss_critical == scale.zero_score) ≡ false
  pub high_not_zero : (global.conf_cvss_high == scale.zero_score) ≡ false
  pub medium_not_zero : (global.conf_cvss_medium == scale.zero_score) ≡ false
  pub medium_le_high : global.cvss_medium ≤ global.cvss_high
  pub high_le_critical : global.cvss_high ≤ global.cvss_critical

-- The calibration has a slope, and its sigmoid is 0 at the score, as where the exponential overflows.
unfoldable pub underflows : Scale → Config → Float64 → Bool
underflows scale cal cvss =
    not (cal.cvss_platt_slope == scale.zero_score)
    && scale.sigmoid cal.cvss_platt_slope cal.cvss_platt_intercept cvss == scale.zero_score

cvss_confidence-zero :
    (scale : Scale) (global : Config) (cvss : Float64) (cal : Config)
    → IsGraded scale global
    → (cvss_confidence scale global cvss cal == scale.zero_score)
      ≡ (ltb cvss global.cvss_medium || underflows scale cal cvss)
unfolding cvss_confidence underflows
cvss_confidence-zero scale global cvss cal h = ground (
  arith, h.critical_not_zero, h.high_not_zero, h.medium_not_zero, h.medium_le_high,
  h.high_le_critical,
)

-- A CVE match whose CVSS, or the default where it is missing, is at least the medium bound, and at which the sigmoid of
-- a calibration is not 0.
unfoldable pub is_flagged : Scale → Config → Config → Surface → Bool
unfolding cvss_of underflows
is_flagged scale global cal s =
    s.has_cve_match
    && not (
        ltb (cvss_of scale global s) global.cvss_medium
        || underflows scale cal (cvss_of scale global s))

de_morgan : (a b : Bool) → (not a || b) ≡ not (a && not b)
de_morgan true true = refl
de_morgan true false = refl
de_morgan false b = refl

stays-is_flagged :
    (scale : Scale) (global cal : Config) (s : Surface)
    → IsGraded scale global
    → stays scale global cal s ≡ not (is_flagged scale global cal s)
unfolding stays is_flagged confidence_of
stays-is_flagged scale global cal s h =
    rw (cvss_confidence-zero scale global (cvss_of scale global s) cal h) (
      de_morgan s.has_cve_match (
        ltb (cvss_of scale global s) global.cvss_medium
        || underflows scale cal (cvss_of scale global s)))

-- Where the bands of the configuration are ordered and none has the confidence 0, a surface is flagged, with its
-- confidence, if and only if it has a CVE match, its CVSS (the default where it is missing) is at least the medium
-- bound, and the sigmoid of a calibration, where there is one, is not 0 there. All others remain. Both
-- keep the order.
pub auto_flag_cve_surfaces-is_flagged :
    (scale : Scale) (global cal : Config) (surfaces : List Surface)
    → IsGraded scale global
    → ((auto_flag_cve_surfaces scale global cal surfaces).flagged
        ≡ map (score_flag scale global cal) (keep (is_flagged scale global cal) surfaces))
      × ((auto_flag_cve_surfaces scale global cal surfaces).remaining
          ≡ keep (λ s. not (is_flagged scale global cal s)) surfaces)
unfolding auto_flag_cve_surfaces auto_flag_step keep
auto_flag_cve_surfaces-is_flagged scale global cal [] h = (refl, refl)
auto_flag_cve_surfaces-is_flagged scale global cal (s ∷ surfaces) h =
    let (a, b) = auto_flag_cve_surfaces-is_flagged scale global cal surfaces h in
    let same = stays-is_flagged scale global cal s h in
    elim (Bool-cases (is_flagged scale global cal s)) [
      | inl e ↦ rw (same, e) (rw a refl, b)
      | inr e ↦ rw (same, e) (a, rw b refl)
    ]
