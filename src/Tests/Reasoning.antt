-- ===== src/Tests/Reasoning.antt =====
-- The contract checks, the verdicts and the retries on one handler.
use zero_trust_sh.Prelude.{
  ◌++◌, ℕ, zero, suc, ◌<◌, true, false, [], ◌∷◌, Option, none, some, refl, inl, inr, ◌≡◌, ◌≢◌, ◌⊎◌,
  ◌↔◌, length, Any, Member, arith, count,
}
use zero_trust_sh.Prelude.Text.{Bytes, codes, contains, has_prefix}
use zero_trust_sh.Finding.{low}
use zero_trust_sh.Surface.{EnrichedSurface, external_input, idor_candidate, other_kind}
use zero_trust_sh.Contracts.{Checker, PromptData, violation, safe}
use zero_trust_sh.Contracts.Injection.{rule_89, rule_78, rule_22, rule_79}
use zero_trust_sh.Contracts.Others.{rule_94, rule_918, rule_502, rule_862}
use zero_trust_sh.Contracts.Source.{strip_code, strip_code-escaped_backslash}
use zero_trust_sh.Contracts.Escalate.{escalate, prompt_data}
use zero_trust_sh.Contracts.Escalate.Majority.{escalate-majority, samples, says}
use zero_trust_sh.Contracts.Evaluate.{applicable_cwes}
use zero_trust_sh.Contracts.Check.{check, check_all}
use zero_trust_sh.Contracts.Check.Best.{Reports, candidates, check-Reports}
use zero_trust_sh.Contracts.Check.Verdicts.{Breach, check-violation, check-Breach}
use zero_trust_sh.Contracts.Check.Safe.{Cleared, check-Cleared}
use zero_trust_sh.Contracts.Check.Schedule.{check_all-map}
use zero_trust_sh.Analysis
use zero_trust_sh.Analysis.Laws.{negative_verdict-low}
use zero_trust_sh.Dedup.Score.{apply_boost_and_score}
use zero_trust_sh.Retry.{
  default_retry_config, Outcome, failed, other_error, model_blocked, with_retry, generate,
}
use zero_trust_sh.Retry.Laws.{Explains, generate-Explains}
use zero_trust_sh.Tests.Floats.{thousandths}
use zero_trust_sh.Tests.Data.{config, digest, query_handler, handler}

-- No LLM.
abbrev plain_checker : Checker
plain_checker = record { llm = none; caller_context = λ surface. [] }

-- Two of the three samples say YES.
abbrev mostly_yes : PromptData → ℕ → Option Bytes
mostly_yes prompt zero = some (codes "it is escaped: NO")
mostly_yes prompt (suc i) = some (codes "it is escaped: yes.")

abbrev asking_checker : Checker
asking_checker = record { llm = some mostly_yes; caller_context = λ surface. [] }

check-Reports_example :
    Reports
      (check plain_checker query_handler)
      (candidates plain_checker query_handler (applicable_cwes external_input))
check-Reports_example = check-Reports plain_checker query_handler

check-violation_example :
    ((check asking_checker query_handler).verdict ≡ violation)
    ↔ Any
        (λ c. c.verdict ≡ violation)
        (candidates asking_checker query_handler (applicable_cwes external_input))
check-violation_example = check-violation asking_checker query_handler

check-Breach_example :
    let cwe = (check plain_checker query_handler).cwe in
    Member cwe (applicable_cwes external_input) × Breach plain_checker query_handler cwe
unfolding check rule_918 rule_502 rule_94 rule_79 rule_78 rule_89 rule_22
check-Breach_example = check-Breach plain_checker query_handler refl

abbrev clean_handler : EnrichedSurface
clean_handler = handler idor_candidate (codes "db.Query(q)") true

-- The query is prepared.
abbrev prepared_handler : EnrichedSurface
prepared_handler = handler idor_candidate (codes "PreparedStatement p; db.Query(p)") false

check-Cleared_example : Cleared plain_checker prepared_handler refl (applicable_cwes idor_candidate)
unfolding check rule_78 rule_89 rule_22 rule_862
check-Cleared_example = check-Cleared plain_checker prepared_handler refl refl

escalate-majority_example :
    let answers =
      samples (mostly_yes (prompt_data asking_checker query_handler rule_89 (codes "CWE-89"))) 3 in
    let verdict = (escalate asking_checker mostly_yes query_handler rule_89 (codes "CWE-89")).0 in
    ((verdict ≡ safe) ↔ (
      (0 < length (query_handler.code)) × (count (says false) answers < count (says true) answers)))
    × ((verdict ≡ safe) ⊎ (verdict ≡ violation))
escalate-majority_example =
    escalate-majority asking_checker mostly_yes query_handler rule_89 (codes "CWE-89")

-- The second goroutine writes first.
all_run : (i : ℕ) → i < 2 → Member i (1 ∷ 0 ∷ [])
all_run zero h = inr (inl refl)
all_run (suc zero) h = inl refl
all_run (suc (suc i)) h = absurd (omega (arith, h))

check_all-map_example :
    check_all plain_checker (query_handler ∷ clean_handler ∷ []) (1 ∷ 0 ∷ [])
    ≡ some (check plain_checker query_handler) ∷ some (check plain_checker clean_handler) ∷ []
check_all-map_example =
    check_all-map plain_checker (query_handler ∷ clean_handler ∷ []) (1 ∷ 0 ∷ []) all_run

strip_code-escaped_backslash_example :
    (strip_code (codes "p(" ++ b'"' ∷ (codes "C:" ++ 92 ∷ 92 ∷ b'"' ∷ codes ");")) ≡ codes "p(")
    × (strip_code (
          codes "p(" ++ b'"' ∷ (codes "C:" ++ 92 ∷ 92 ∷ b'"' ∷ (codes ");" ++ b'"' ∷ codes "a();")))
        ≡ codes "p(" ++ strip_code (codes "a();"))
strip_code-escaped_backslash_example =
    strip_code-escaped_backslash (codes "p(") (codes "C:") (codes ");") (codes "a();")
      (refl, (refl, tt)) (unfold contains has_prefix in refl) (refl, (refl, tt)) (refl, (refl, tt))

external_input-known : (text : Bytes) → external_input ≢ other_kind text
external_input-known text e = cc e

-- Not exploitable, and sure of it.
abbrev negative_verdict : Analysis.Verdict
negative_verdict = record {
  exploitable = false;
  cwe = codes "CWE-20";
  severity = codes "CRITICAL";
  confidence = 950;
  summary = [];
  explanation = codes "the caller checks it";
  taint_mismatch = false;
}

negative_verdict-low_example :
    let f = Analysis.verdict_to_finding thousandths digest query_handler negative_verdict in
    (f.severity_label ≡ low) × ((apply_boost_and_score thousandths config f).severity_label ≡ low)
negative_verdict-low_example =
    negative_verdict-low thousandths digest config query_handler negative_verdict refl

-- A first call that fails, and a second that is blocked.
abbrev failing_call : ℕ → Outcome Bytes
failing_call zero = failed (other_error (codes "EOF"))
failing_call (suc i) = failed model_blocked

generate-Explains_example :
    Explains failing_call (λ i. true) 3 (generate default_retry_config failing_call (λ i. true))
unfolding with_retry
generate-Explains_example = generate-Explains default_retry_config failing_call (λ i. true)
