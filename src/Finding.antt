-- ===== src/Finding.antt =====
-- internal/finding/finding.go: the record that all stages pass on, and its labels.
pub mod Build
pub mod Severity
pub mod Language
use zero_trust_sh.Prelude.{ℕ, Bool, true, false, Option, none, some, if◌then◌else◌, leb}
use zero_trust_sh.Prelude.Text.{Bytes, codes, str_eq}
use zero_trust_sh.Prelude.Float.{Float64, FloatOps}

-- The labels from highest to lowest severity; the code builds no other value of the int type.
pub data SeverityLabel : Type 0 where
  block high medium low suppressed : SeverityLabel

-- The int behind a label (iota).
abbrev pub label_rank : SeverityLabel → ℕ
label_rank block = 0
label_rank high = 1
label_rank medium = 2
label_rank low = 3
label_rank suppressed = 4

-- String: the wire name of a label.
unfoldable pub to_string : SeverityLabel → Bytes
to_string block = codes "BLOCK"
to_string high = codes "HIGH"
to_string medium = codes "MEDIUM"
to_string low = codes "LOW"
to_string suppressed = codes "SUPPRESSED"

unfoldable pub go_string : SeverityLabel → Bytes
go_string block = codes "finding.SeverityBlock"
go_string high = codes "finding.SeverityHigh"
go_string medium = codes "finding.SeverityMedium"
go_string low = codes "finding.SeverityLow"
go_string suppressed = codes "finding.SeveritySuppressed"

-- What UnmarshalJSON leaves in `s` once encoding/json has read the string `str`; `none` is its error.
unfoldable pub unmarshal_json : SeverityLabel → Option Bytes → Option SeverityLabel
unfolding str_eq
unmarshal_json s none = none
unmarshal_json s (some str) = some (
    if str_eq str (codes "BLOCK")
    then block
    else if str_eq str (codes "HIGH")
    then high
    else if str_eq str (codes "MEDIUM")
    then medium
    else if str_eq str (codes "LOW")
    then low
    else if str_eq str (codes "SUPPRESSED")
    then suppressed
    else s)

-- The three constants, and the zero value of a finding that no path has claimed.
pub data SourcePath : Type 0 where
  source_unset source_pattern source_semantic source_both : SourcePath

abbrev pub is_pattern : SourcePath → Bool
is_pattern source_pattern = true
is_pattern _ = false

abbrev pub is_semantic : SourcePath → Bool
is_semantic source_semantic = true
is_semantic _ = false

abbrev pub is_both : SourcePath → Bool
is_both source_both = true
is_both _ = false

-- A sidecar rule may give any text as a reason, so the type is that of texts.
abbrev pub SuppressReason : Type 0
SuppressReason = Bytes

abbrev pub reason_uncertain : SuppressReason
reason_uncertain = codes "uncertain"

abbrev pub reason_test_file : SuppressReason
reason_test_file = codes "test_file"

abbrev pub reason_framework_safe : SuppressReason
reason_framework_safe = codes "framework_safe"

abbrev pub reason_user_ack : SuppressReason
reason_user_ack = codes "user_acknowledged"

abbrev pub reason_safe : SuppressReason
reason_safe = codes "safe"

abbrev pub reason_false_positive : SuppressReason
reason_false_positive = codes "false_positive"

pub data PoeStatus : Type 0 where
  not_attempted success failed_no_effect failed_sandbox failed_timeout inconclusive : PoeStatus
  language_unsupported : PoeStatus

-- Lines are counted from 1.
pub record LineRange : Type 0 where
  pub start : ℕ
  pub end : ℕ

pub record SsvcDimensions : Type 0 where
  pub exploitation : Bytes
  pub automatable : Bytes
  pub technical_impact : Bytes

pub record PoeContext : Type 0 where
  pub source_node : Bytes
  pub sink_node : Bytes
  pub taint_path_summary : Bytes
  pub required_conditions : Bytes

pub record PoeResult : Type 0 where
  pub status : PoeStatus
  pub exploit_input : Bytes
  pub confidence : Float64
  pub business_impact_tier : Bytes
  pub dev_trace : Bytes
  pub exec_summary : Bytes

pub record Finding : Type 0 where
  pub id : Bytes
  pub surface_id : Bytes
  pub path : Bytes
  pub line_range : LineRange
  pub cwe : Bytes
  pub severity_label : SeverityLabel
  pub confidence : Float64
  pub source_path : SourcePath
  pub suppress_reason : SuppressReason
  pub justification : Bytes
  pub dcc_evidence : Bytes
  pub summary : Bytes
  pub matched_code : Bytes
  pub rule_id : Bytes
  pub cve : Bytes
  pub cvss : Float64
  pub ssvc : SsvcDimensions
  pub poe_context : Option PoeContext
  pub poe_result : Option PoeResult
  pub patch : Bytes
  pub patch_status : Bytes
  pub patch_scope : Bytes
  pub taint_mismatch : Bool
  pub exploitable : Bool
  pub severity_pinned : Bool

module _ (F : FloatOps) where
  -- SeverityFromConfidence, with the thresholds 0.92, 0.75, 0.60 and 0.30.
  unfoldable pub severity_from_confidence : Float64 → SeverityLabel
  severity_from_confidence c =
      if leb (F.decimal 92 2) c
      then block
      else if leb (F.decimal 75 2) c
      then high
      else if leb (F.decimal 60 2) c
      then medium
      else if leb (F.decimal 30 2) c
      then low
      else suppressed
