-- ===== src/Surface.antt =====
-- The surfaces that the reasoning path passes on: Surface of internal/semantic/targeting/targeting.go
-- and EnrichedSurface of internal/semantic/enrichment/enrichment.go.
use zero_trust_sh.Prelude.{ℕ, Bool, List}
use zero_trust_sh.Prelude.Text.{Bytes, codes}
use zero_trust_sh.Prelude.Float.{Float64}

-- The four constants, and any other text.
pub data SurfaceKind : Type 0 where
  external_input auth_boundary idor_candidate dangerous_sink : SurfaceKind
  other_kind : Bytes → SurfaceKind

-- The text behind a kind.
unfoldable pub kind_name : SurfaceKind → Bytes
kind_name external_input = codes "external_input"
kind_name auth_boundary = codes "auth_boundary"
kind_name idor_candidate = codes "idor_candidate"
kind_name dangerous_sink = codes "dangerous_sink"
kind_name (other_kind text) = text

-- The constants of NodeType in internal/cpg_engine/interface.go.
pub data NodeType : Type 0 where
  method call identifier parameter literal return_node block field_access control_flow : NodeType

pub record Surface : Type 0 where
  pub id : Bytes
  pub file : Bytes
  pub function_name : Bytes
  pub line : ℕ
  pub node_type : NodeType
  pub kind : SurfaceKind
  pub call_graph_depth : ℕ
  pub is_idor_candidate : Bool
  pub is_second_order : Bool
  pub cvss_score : Float64
  pub has_cve_match : Bool
  pub confidence_score : Float64

pub record CveMatch : Type 0 where
  pub cve : Bytes
  pub cvss : Float64
  pub package_name : Bytes
  pub version : Bytes
  pub fixed_in : Bytes

pub record ResourceIdFlow : Type 0 where
  pub source_param : Bytes
  pub storage_sink : Bytes
  pub has_ownership_check : Bool

-- The embedded Surface gives its fields to the enriched one.
pub record EnrichedSurface : Type 0 where
  pub surface : Surface
  pub open surface use *
  pub code : Bytes
  pub language : Bytes
  pub cve_matches : List CveMatch
  pub auto_flagged : Bool
  pub caller_ids : List Bytes
  pub callee_ids : List Bytes
  pub resource_id_flows : List ResourceIdFlow
  pub sink_nodes : List Bytes
  pub call_path : List Bytes
  pub sanitized : Bool
  pub contract_cwe : Bytes
  pub taint_confidence : Bytes
  pub sink_file : Bytes
  pub sink_line : ℕ
