-- ===== src/Config.antt =====
-- internal/config/config.go: the numeric parameters of the pipeline, with their defaults.
pub mod Valid
use zero_trust_sh.Prelude.{ℕ, Bool, false, List, [], ◌∷◌}
use zero_trust_sh.Prelude.Text.{Bytes, codes}
use zero_trust_sh.Prelude.Float.{Float64, FloatOps}

-- A count (int) is a natural number, since validation refuses the others.
pub record Config : Type 0 where
  pub conf_block : Float64
  pub conf_high : Float64
  pub conf_medium : Float64
  pub conf_low : Float64
  pub classifier_vulnerable_threshold : Float64
  pub classifier_safe_threshold : Float64
  pub escalation_cap : Float64
  pub classifier_batch_size : ℕ
  pub classifier_max_length : ℕ
  pub classifier_hidden_size : ℕ
  pub verifier_high_confidence : Float64
  pub verifier_asc_threshold : Float64
  pub verifier_asc_max_rounds : ℕ
  pub verifier_uncertain_penalty : Float64
  pub dedup_embedding_exact : Float64
  pub dedup_embedding_near_miss : Float64
  pub dedup_ast_edit : Float64
  pub dedup_gate3_max_survivors : ℕ
  pub boost_cross_path : Float64
  pub boost_ssvc_active : Float64
  pub boost_ssvc_automatable : Float64
  pub floor_pattern_path : Float64
  pub boost_poe_confirmed : Float64
  pub cvss_critical : Float64
  pub cvss_high : Float64
  pub cvss_medium : Float64
  pub cvss_missing_default : Float64
  pub conf_cvss_critical : Float64
  pub conf_cvss_high : Float64
  pub conf_cvss_medium : Float64
  pub auto_flag_cvss : Float64
  pub cvss_platt_slope : Float64
  pub cvss_platt_intercept : Float64
  pub epss_poc : Float64
  pub epss_active : Float64
  pub assembler_batch_size : ℕ
  pub summarizer_batch_size : ℕ
  pub summarizer_max_functions_per_batch : ℕ
  pub assembler_max_depth : ℕ
  pub cpg_default_max_depth : ℕ
  pub cpg_hard_max_depth : ℕ
  pub cpg_hub_caller_threshold : ℕ
  pub cpg_max_scope_loc : ℕ
  pub cpg_max_taint_paths : ℕ
  pub module_depth_default : ℕ
  pub module_depth_thorough : ℕ
  pub conf_schema_check : Float64
  pub conf_low_pattern : Float64
  pub conf_mid_pattern : Float64
  pub patch_llm_temperature : Float64
  pub patch_llm_max_tokens : ℕ
  pub generate_patches : Bool
  pub poe_min_severity : Bytes
  pub poe_supported_languages : List Bytes
  pub joern_default_port : ℕ
  pub joern_ping_retries : ℕ
  pub joern_query_timeout_seconds : ℕ
  pub joern_max_heap_mb : ℕ
  pub llm_verify_temperature : Float64
  pub llm_verify_max_predict : ℕ
  pub asc_temperatures : List Float64
  pub asc_max_rounds : ℕ
  pub asc_confidence_threshold : Float64
  pub ollama_timeout_seconds : ℕ
  pub verdict_max_justification_len : ℕ

unfoldable pub default_config : FloatOps → Config
default_config F = record {
  conf_block = F.decimal 92 2;
  conf_high = F.decimal 75 2;
  conf_medium = F.decimal 60 2;
  conf_low = F.decimal 30 2;
  classifier_vulnerable_threshold = F.decimal 80 2;
  classifier_safe_threshold = F.decimal 20 2;
  escalation_cap = F.decimal 25 2;
  classifier_batch_size = 8;
  classifier_max_length = 1024;
  classifier_hidden_size = 1024;
  verifier_high_confidence = F.decimal 90 2;
  verifier_asc_threshold = F.decimal 70 2;
  verifier_asc_max_rounds = 2;
  verifier_uncertain_penalty = F.decimal 80 2;
  dedup_embedding_exact = F.decimal 95 2;
  dedup_embedding_near_miss = F.decimal 85 2;
  dedup_ast_edit = F.decimal 85 2;
  dedup_gate3_max_survivors = 300;
  boost_cross_path = F.decimal 15 2;
  boost_ssvc_active = F.decimal 10 2;
  boost_ssvc_automatable = F.decimal 5 2;
  floor_pattern_path = F.decimal 60 2;
  boost_poe_confirmed = F.decimal 20 2;
  cvss_critical = F.decimal 90 1;
  cvss_high = F.decimal 70 1;
  cvss_medium = F.decimal 40 1;
  cvss_missing_default = F.decimal 50 1;
  conf_cvss_critical = F.decimal 95 2;
  conf_cvss_high = F.decimal 82 2;
  conf_cvss_medium = F.decimal 68 2;
  auto_flag_cvss = F.decimal 70 1;
  cvss_platt_slope = F.decimal 0 0;
  cvss_platt_intercept = F.decimal 0 0;
  epss_poc = F.decimal 1 1;
  epss_active = F.decimal 5 1;
  assembler_batch_size = 5;
  summarizer_batch_size = 5;
  summarizer_max_functions_per_batch = 15;
  assembler_max_depth = 3;
  cpg_default_max_depth = 5;
  cpg_hard_max_depth = 6;
  cpg_hub_caller_threshold = 50;
  cpg_max_scope_loc = 50_000;
  cpg_max_taint_paths = 1_000;
  module_depth_default = 2;
  module_depth_thorough = 3;
  conf_schema_check = F.decimal 90 2;
  conf_low_pattern = F.decimal 65 2;
  conf_mid_pattern = F.decimal 75 2;
  patch_llm_temperature = F.decimal 1 1;
  patch_llm_max_tokens = 512;
  generate_patches = false;
  poe_min_severity = codes "HIGH";
  poe_supported_languages =
      codes "java" ∷ codes "python" ∷ codes "javascript" ∷ codes "typescript" ∷ codes "go" ∷ [];
  joern_default_port = 8080;
  joern_ping_retries = 12;
  joern_query_timeout_seconds = 120;
  joern_max_heap_mb = 8192;
  llm_verify_temperature = F.decimal 1 1;
  llm_verify_max_predict = 300;
  asc_temperatures = F.decimal 35 2 ∷ F.decimal 6 1 ∷ [];
  asc_max_rounds = 2;
  asc_confidence_threshold = F.decimal 70 2;
  ollama_timeout_seconds = 30;
  verdict_max_justification_len = 200;
}
