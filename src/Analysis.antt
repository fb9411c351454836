-- ===== src/Analysis.antt =====
-- internal/semantic/analysis: how the verdict that the LLM gives on a surface becomes a finding
-- (verdict.go), with the CWE of a surface's kind (prompt.go). Parsing the verdict out of the LLM's
-- text is left out: it is encoding/json and regular expressions.
pub mod Laws
use zero_trust_sh.Prelude.{
  ℕ, Bool, true, false, List, [], ◌∷◌, ◌++◌, none, if◌then◌else◌, ltb, leb, length, take,
}
use zero_trust_sh.Prelude.Text.{Bytes, codes, split, join, to_upper, str_eq}
use zero_trust_sh.Prelude.Words.{fields}
use zero_trust_sh.Prelude.Float.{Float64, FloatOps}
use zero_trust_sh.Finding.{
  Finding, LineRange, SeverityLabel, block, high, medium, low, source_semantic,
}
use zero_trust_sh.Finding.Build.{compute_id}
use zero_trust_sh.Surface.{
  EnrichedSurface, CveMatch, SurfaceKind, external_input, auth_boundary, idor_candidate,
  dangerous_sink, other_kind,
}

-- The LLM's answer, read from JSON.
pub record Verdict : Type 0 where
  pub exploitable : Bool
  pub cwe : Bytes
  pub severity : Bytes
  pub confidence : Float64
  pub summary : Bytes
  pub explanation : Bytes
  pub taint_mismatch : Bool

unfoldable pub severity_from_label : Bytes → SeverityLabel
unfolding to_upper str_eq
severity_from_label label =
    let l = to_upper label in
    if str_eq l (codes "CRITICAL")
    then block
    else if str_eq l (codes "HIGH")
    then high
    else if str_eq l (codes "MEDIUM")
    then medium
    else if str_eq l (codes "LOW")
    then low
    else medium

unfoldable pub applicable_cwe : SurfaceKind → Bytes
applicable_cwe external_input = codes "CWE-89"
applicable_cwe idor_candidate = codes "CWE-862"
applicable_cwe auth_boundary = codes "CWE-862"
applicable_cwe dangerous_sink = codes "CWE-327"
applicable_cwe (other_kind text) = []

unfoldable pub first_n_words : Bytes → ℕ → Bytes
unfolding fields join
first_n_words s n =
    if leb (length (fields s)) n then s else join (take n (fields s)) (codes " ") ++ codes "..."

-- The first of the texts that is not empty, or the last.
unfoldable pub or_else : Bytes → Bytes → Bytes
or_else [] t = t
or_else (c ∷ s) t = c ∷ s

-- The surface's CWE as the contracts found it, else that of its kind, else the LLM's.
unfoldable pub cwe_of : EnrichedSurface → Verdict → Bytes
unfolding or_else applicable_cwe
cwe_of surface v = or_else (or_else (surface.contract_cwe) (applicable_cwe (surface.kind))) (v.cwe)

unfoldable pub line_of : EnrichedSurface → ℕ
line_of surface = if ltb 0 (surface.sink_line) then surface.sink_line else surface.line

unfoldable pub first_cve : List CveMatch → Bytes
first_cve [] = []
first_cve (m ∷ ms) = m.cve

unfoldable pub first_cvss : FloatOps → List CveMatch → Float64
first_cvss F [] = F.decimal 0 0
first_cvss F (m ∷ ms) = m.cvss

-- The first 30 lines.
unfoldable pub snippet : Bytes → Bytes
unfolding split join
snippet code = join (take 30 (split code 10)) (10 ∷ [])

module _ (F : FloatOps) (sha256_hex : Bytes → Bytes) where
  unfoldable pub verdict_to_finding : EnrichedSurface → Verdict → Finding
  unfolding severity_from_label cwe_of line_of first_cve first_cvss snippet first_n_words or_else
      compute_id
  verdict_to_finding surface v = record {
    id = compute_id sha256_hex (cwe_of surface v) (surface.file) (line_of surface);
    surface_id = surface.id;
    path = surface.file;
    line_range = record { start = line_of surface; end = line_of surface };
    cwe = cwe_of surface v;
    severity_label = if v.exploitable then severity_from_label (v.severity) else low;
    confidence = if leb (v.confidence) (F.decimal 0 0) then F.decimal 5 1 else v.confidence;
    source_path = source_semantic;
    suppress_reason = [];
    justification = v.explanation;
    dcc_evidence = [];
    summary = or_else (v.summary) (first_n_words (v.explanation) 25);
    matched_code = snippet (surface.code);
    rule_id = [];
    cve = first_cve (surface.cve_matches);
    cvss = first_cvss F (surface.cve_matches);
    ssvc = record { exploitation = []; automatable = []; technical_impact = [] };
    poe_context = none;
    poe_result = none;
    patch = [];
    patch_status = [];
    patch_scope = [];
    taint_mismatch = v.taint_mismatch;
    exploitable = v.exploitable;
    severity_pinned = if v.exploitable then false else true;
  }
