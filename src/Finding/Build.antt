-- ===== src/Finding/Build.antt =====
-- How findings are made: ComputeID, the options and New of internal/finding/finding.go.
use zero_trust_sh.Prelude.{ℕ, ◌++◌, ◌∷◌, [], List, false, Option, none}
use zero_trust_sh.Prelude.Text.{Bytes, codes, itoa}
use zero_trust_sh.Prelude.Float.{Float64, FloatOps}
use zero_trust_sh.Finding.{
  Finding, LineRange, SourcePath, source_unset, SsvcDimensions, PoeContext, low,
  severity_from_confidence,
}

-- SHA-256 and hexadecimal encoding are of the standard library.
module _ (sha256_hex : Bytes → Bytes) where
  unfoldable pub compute_id : Bytes → Bytes → ℕ → Bytes
  unfolding itoa
  compute_id cwe path line = sha256_hex (cwe ++ (codes ":" ++ (path ++ (codes ":" ++ itoa line))))

-- Each functional option of New, as a constructor.
pub data Opt : Type 0 where
  with_cve : Bytes → Opt
  with_cvss : Float64 → Opt
  with_rule_id : Bytes → Opt
  with_matched_code : Bytes → Opt
  with_confidence : Float64 → Opt
  with_source_path : SourcePath → Opt
  with_ssvc : SsvcDimensions → Opt
  with_poe_context : Option PoeContext → Opt

unfoldable pub apply_option : FloatOps → Opt → Finding → Finding
unfolding severity_from_confidence
apply_option F (with_cve v) f = record f { cve = v }
apply_option F (with_cvss v) f = record f { cvss = v }
apply_option F (with_rule_id v) f = record f { rule_id = v }
apply_option F (with_matched_code v) f = record f { matched_code = v }
apply_option F (with_confidence c) f = record f {
  confidence = c;
  severity_label = severity_from_confidence F c;
}
apply_option F (with_source_path v) f = record f { source_path = v }
apply_option F (with_ssvc v) f = record f { ssvc = v }
apply_option F (with_poe_context v) f = record f { poe_context = v }

unfoldable pub apply_options : FloatOps → List Opt → Finding → Finding
unfolding apply_option
apply_options F [] f = f
apply_options F (o ∷ os) f = apply_options F os (apply_option F o f)

-- New: a finding of confidence 0.30 and label LOW, changed by the options in order.
unfoldable pub new :
    FloatOps → (Bytes → Bytes) → Bytes → LineRange → Bytes → Bytes → List Opt → Finding
unfolding compute_id apply_options
new F sha256_hex path lr cwe justification opts = apply_options F opts (record {
  id = compute_id sha256_hex cwe path lr.start;
  surface_id = [];
  path = path;
  line_range = lr;
  cwe = cwe;
  severity_label = low;
  confidence = F.decimal 30 2;
  source_path = source_unset;
  suppress_reason = [];
  justification = justification;
  dcc_evidence = [];
  summary = [];
  matched_code = [];
  rule_id = [];
  cve = [];
  cvss = F.decimal 0 0;
  ssvc = record { exploitation = []; automatable = []; technical_impact = [] };
  poe_context = none;
  poe_result = none;
  patch = [];
  patch_status = [];
  patch_scope = [];
  taint_mismatch = false;
  exploitable = false;
  severity_pinned = false;
})
