-- ===== src/Config/Valid.antt =====
-- Config.Validate and Load of internal/config/config.go. The library of validators is third-party; a
-- struct tag means what it says: `gte=0,lte=1` is a closed interval. The tag `gte=0` on an int holds of
-- every natural number.
use zero_trust_sh.Prelude.{
  ℕ, ◌*◌, ◌^◌, ◌≤◌, ◌≡◌, refl, Bool, true, ◌&&◌, List, [], ◌∷◌, map, Option, none, some, arith,
  if◌then◌else◌, leb, le→leb, zero, suc, get_elem?, all, All,
}
use zero_trust_sh.Prelude.Text.{Bytes, str_eq}
use zero_trust_sh.Prelude.Float.{Float64, FloatOps, IsFloat64}
use zero_trust_sh.Config.{Config, default_config}

-- The fields with the tag gte=0,lte=1.
unit_scores : Config → List Float64
unit_scores cfg =
    cfg.conf_block ∷ cfg.conf_high ∷ cfg.conf_medium ∷ cfg.conf_low
    ∷ cfg.classifier_vulnerable_threshold ∷ cfg.classifier_safe_threshold ∷ cfg.escalation_cap
    ∷ cfg.verifier_high_confidence ∷ cfg.verifier_asc_threshold ∷ cfg.verifier_uncertain_penalty
    ∷ cfg.dedup_embedding_exact ∷ cfg.dedup_embedding_near_miss ∷ cfg.dedup_ast_edit
    ∷ cfg.boost_cross_path ∷ cfg.boost_ssvc_active ∷ cfg.boost_ssvc_automatable
    ∷ cfg.floor_pattern_path ∷ cfg.boost_poe_confirmed ∷ cfg.conf_cvss_critical ∷ cfg.conf_cvss_high
    ∷ cfg.conf_cvss_medium ∷ cfg.epss_poc ∷ cfg.epss_active ∷ cfg.conf_schema_check
    ∷ cfg.conf_low_pattern ∷ cfg.conf_mid_pattern ∷ cfg.asc_confidence_threshold ∷ []

-- The fields with the tag gte=0,lte=10.
cvss_scores : Config → List Float64
cvss_scores cfg =
    cfg.cvss_critical ∷ cfg.cvss_high ∷ cfg.cvss_medium ∷ cfg.cvss_missing_default
    ∷ cfg.auto_flag_cvss ∷ []

-- The fields with the tag gte=0,lte=2.
temperatures : Config → List Float64
temperatures cfg = cfg.patch_llm_temperature ∷ cfg.llm_verify_temperature ∷ cfg.asc_temperatures

-- The fields with the tag gte=1.
positive_counts : Config → List ℕ
positive_counts cfg =
    cfg.classifier_batch_size ∷ cfg.classifier_max_length ∷ cfg.classifier_hidden_size
    ∷ cfg.verifier_asc_max_rounds ∷ cfg.assembler_batch_size ∷ cfg.summarizer_batch_size
    ∷ cfg.summarizer_max_functions_per_batch ∷ cfg.assembler_max_depth ∷ cfg.cpg_default_max_depth
    ∷ cfg.cpg_hard_max_depth ∷ cfg.cpg_hub_caller_threshold ∷ cfg.cpg_max_taint_paths
    ∷ cfg.patch_llm_max_tokens ∷ cfg.joern_default_port ∷ cfg.joern_ping_retries
    ∷ cfg.joern_query_timeout_seconds ∷ cfg.llm_verify_max_predict ∷ cfg.asc_max_rounds
    ∷ cfg.ollama_timeout_seconds ∷ cfg.verdict_max_justification_len ∷ []

within : FloatOps → ℕ → Float64 → Bool
within F hi v = leb (F.decimal 0 0) v && leb v (F.decimal hi 0)

unfoldable pub validate : FloatOps → Config → Bool
unfolding unit_scores cvss_scores temperatures positive_counts within all
validate F cfg =
    all (within F 1) (unit_scores cfg)
    && (all (within F 10) (cvss_scores cfg)
        && (all (within F 2) (temperatures cfg)
            && (leb (F.decimal 0 0) cfg.cvss_platt_slope
                && (all (leb 1) (positive_counts cfg)
                    && (leb 1000 cfg.cpg_max_scope_loc && leb cfg.joern_default_port 65535)))))

-- What os.ReadFile answers.
pub data FileRead : Type 0 where
  absent failed : FileRead
  contents : Bytes → FileRead

pub data LoadResult : Type 0 where
  loaded : Config → LoadResult
  load_error : LoadResult

-- `decode base text` is json.Unmarshal into a struct that holds `base`; `none` is its error.
module _ (F : FloatOps) (decode : Config → Bytes → Option Config) where
  check_decoded : Option Config → LoadResult
  check_decoded none = load_error
  check_decoded (some cfg) = if validate F cfg then loaded cfg else load_error

  load_file : FileRead → LoadResult
  unfolding check_decoded
  load_file absent = loaded (default_config F)
  load_file failed = load_error
  load_file (contents text) = check_decoded (decode (default_config F) text)

  unfoldable pub load : Bytes → FileRead → LoadResult
  unfolding load_file str_eq
  load path file = if str_eq path [] then loaded (default_config F) else load_file file

module _ (F : FloatOps) (laws : IsFloat64 F) where
  literal : ℕ × ℕ → Float64
  literal p = F.decimal p.0 p.1

  within-literal : (hi n k : ℕ) → n * 1 ≤ hi * 10 ^ k → within F hi (F.decimal n k) ≡ true
  unfolding within
  within-literal hi n k h =
      rw (le→leb _ _ (laws.decimal_le 0 0 n k (omega arith)))
        (le→leb _ _ (laws.decimal_le n k hi 0 h))

  all-literal :
      (hi : ℕ) (ps : List (ℕ × ℕ))
      → All (λ p. p.0 * 1 ≤ hi * 10 ^ p.1) ps
      → all (within F hi) (map literal ps) ≡ true
  unfolding all literal
  all-literal hi [] h = refl
  all-literal hi ((n, k) ∷ ps) h = rw (within-literal hi n k h.0) (all-literal hi ps h.1)

  default_unit : all (within F 1) (unit_scores (default_config F)) ≡ true
  unfolding unit_scores default_config literal
  default_unit =
      all-literal 1
        ((92, 2)
          ∷ (75, 2)
          ∷ (60, 2)
          ∷ (30, 2)
          ∷ (80, 2)
          ∷ (20, 2)
          ∷ (25, 2)
          ∷ (90, 2)
          ∷ (70, 2)
          ∷ (80, 2)
          ∷ (95, 2)
          ∷ (85, 2)
          ∷ (85, 2)
          ∷ (15, 2)
          ∷ (10, 2)
          ∷ (5, 2)
          ∷ (60, 2)
          ∷ (20, 2)
          ∷ (95, 2)
          ∷ (82, 2)
          ∷ (68, 2)
          ∷ (1, 1)
          ∷ (5, 1)
          ∷ (90, 2)
          ∷ (65, 2)
          ∷ (75, 2)
          ∷ (70, 2)
          ∷ [])
        (omega arith)

  default_cvss : all (within F 10) (cvss_scores (default_config F)) ≡ true
  unfolding cvss_scores default_config literal
  default_cvss = all-literal 10 ((90, 1) ∷ (70, 1) ∷ (40, 1) ∷ (50, 1) ∷ (70, 1) ∷ []) (omega arith)

  default_temperatures : all (within F 2) (temperatures (default_config F)) ≡ true
  unfolding temperatures default_config literal
  default_temperatures = all-literal 2 ((1, 1) ∷ (1, 1) ∷ (35, 2) ∷ (6, 1) ∷ []) (omega arith)

  default_counts : all (leb 1) (positive_counts (default_config F)) ≡ true
  unfolding positive_counts default_config all
  default_counts = refl

  -- The compile-time defaults pass validation, so New never panics.
  pub validate-default_config : validate F (default_config F) ≡ true
  unfolding validate default_config
  validate-default_config =
      rw (default_unit, default_cvss, default_temperatures, default_counts)
        (rw (le→leb _ _ (laws.decimal_le 0 0 0 0 (omega arith))) refl)

  -- Whatever the path, the file and its text, a configuration that Load returns passes validation.
  pub load-validate :
      (decode : Config → Bytes → Option Config) (path : Bytes) (file : FileRead) {cfg : Config}
      → load F decode path file ≡ loaded cfg
      → validate F cfg ≡ true
  unfolding load load_file check_decoded
  load-validate decode path absent h = ground (arith, validate-default_config)
  load-validate decode path failed h = ground (arith, validate-default_config)
  load-validate decode path (contents text) h = ground (arith, validate-default_config)

all-get_elem? :
    (p : Float64 → Bool) (xs : List Float64) (i : ℕ) {x : Float64}
    → all p xs ≡ true
    → get_elem? xs i ≡ some x
    → p x ≡ true
unfolding all
all-get_elem? p [] i h e = cc
all-get_elem? p (y ∷ xs) zero h e = ground arith
all-get_elem? p (y ∷ xs) (suc i) h e = all-get_elem? p xs i (ground arith) e

and_left : (a b : Bool) → (a && b) ≡ true → a ≡ true
and_left a b h = ground arith

-- The value lies in the unit interval.
abbrev pub InUnit : FloatOps → Float64 → Type 0
InUnit F x = (F.decimal 0 0 ≤ x) × (x ≤ F.decimal 1 0)

within-InUnit : (F : FloatOps) (x : Float64) → within F 1 x ≡ true → InUnit F x
unfolding within
within-InUnit F x h = ground arith

unit-InUnit :
    (F : FloatOps) (cfg : Config) (i : ℕ) (x : Float64)
    → validate F cfg ≡ true
    → get_elem? (unit_scores cfg) i ≡ some x
    → InUnit F x
unfolding validate
unit-InUnit F cfg i x v e =
    within-InUnit F x (all-get_elem? (within F 1) (unit_scores cfg) i (and_left _ _ v) e)

-- A valid configuration keeps the boosts and the floor in the unit interval.
pub boosts-InUnit :
    (F : FloatOps) (cfg : Config)
    → validate F cfg ≡ true
    → InUnit F cfg.boost_cross_path
      × InUnit F cfg.boost_ssvc_active
      × InUnit F cfg.boost_ssvc_automatable
      × InUnit F cfg.floor_pattern_path
unfolding unit_scores
boosts-InUnit F cfg v = (
  unit-InUnit F cfg 13 cfg.boost_cross_path v refl,
  unit-InUnit F cfg 14 cfg.boost_ssvc_active v refl,
  unit-InUnit F cfg 15 cfg.boost_ssvc_automatable v refl,
  unit-InUnit F cfg 16 cfg.floor_pattern_path v refl,
)
