-- ===== src/Tests/Data.antt =====
-- The findings, surfaces and rules of the tests.
use zero_trust_sh.Prelude.{Bool, false, [], ◌∷◌, none}
use zero_trust_sh.Prelude.Text.{Bytes, codes}
use zero_trust_sh.Prelude.Float.{Float64}
use zero_trust_sh.Config.{Config, default_config}
use zero_trust_sh.Finding.{Finding, SourcePath, low, source_pattern, source_semantic}
use zero_trust_sh.Dedup.Process.{Layer}
use zero_trust_sh.Dedup.Ssvc.{Net}
use zero_trust_sh.Surface.{EnrichedSurface, SurfaceKind, external_input, call}
use zero_trust_sh.Tests.Floats.{thousandths}

abbrev pub config : Config
config = default_config thousandths

-- The digest is the text itself.
abbrev pub digest : Bytes → Bytes
digest s = s

-- A finding of app.go, line 7, in CWE-89.
abbrev pub finding : Bytes → SourcePath → Float64 → Finding
finding id path confidence = record {
  id = id;
  surface_id = [];
  path = codes "app.go";
  line_range = record { start = 7; end = 7 };
  cwe = codes "CWE-89";
  severity_label = low;
  confidence = confidence;
  source_path = path;
  suppress_reason = [];
  justification = [];
  dcc_evidence = [];
  summary = [];
  matched_code = [];
  rule_id = [];
  cve = [];
  cvss = 0;
  ssvc = record { exploitation = []; automatable = []; technical_impact = [] };
  poe_context = none;
  poe_result = none;
  patch = [];
  patch_status = [];
  patch_scope = [];
  taint_mismatch = false;
  exploitable = false;
  severity_pinned = false;
}

abbrev pub by_rule : Finding
by_rule = finding (codes "r") source_pattern 400

abbrev pub by_model : Finding
by_model = finding (codes "m") source_semantic 800

abbrev pub unsure : Finding
unsure = finding (codes "u") source_semantic 200

abbrev pub layer : Layer
layer = record { sidecar = none; db = none; project_id = [] }

abbrev pub net : Net
net = record { kev = λ cve. false; epss = λ cve. 0 }

-- A handler that runs a query on its input.
abbrev pub handler : SurfaceKind → Bytes → Bool → EnrichedSurface
handler kind code sanitized = record {
  surface = record {
    id = codes "n1";
    file = codes "app.go";
    function_name = codes "get";
    line = 7;
    node_type = call;
    kind = kind;
    call_graph_depth = 0;
    is_idor_candidate = false;
    is_second_order = false;
    cvss_score = 0;
    has_cve_match = false;
    confidence_score = 0;
  };
  code = code;
  language = codes "go";
  cve_matches = [];
  auto_flagged = false;
  caller_ids = [];
  callee_ids = [];
  resource_id_flows = [];
  sink_nodes = codes "db.Query" ∷ [];
  call_path = codes "get" ∷ [];
  sanitized = sanitized;
  contract_cwe = [];
  taint_confidence = [];
  sink_file = [];
  sink_line = 0;
}

abbrev pub query_handler : EnrichedSurface
query_handler = handler external_input (codes "db.Query(q)") false
