-- ===== src/Contracts/Evaluate.antt =====
-- One rule against one surface: the body of the loop of Check in internal/semantic/contracts/check.go.
use zero_trust_sh.Prelude.{ℕ, Bool, true, false, not, List, [], ◌∷◌, ◌++◌, Option, none, some}
use zero_trust_sh.Prelude.{◌&&◌, if◌then◌else◌, any}
use zero_trust_sh.Prelude.Text.{Bytes, codes, contains, str_eq, trim_prefix, atoi}
use zero_trust_sh.Surface.{
  EnrichedSurface, SurfaceKind, external_input, auth_boundary, idor_candidate, dangerous_sink,
  other_kind,
}
use zero_trust_sh.Contracts.{Invariant, Verdict, safe, violation, inconclusive, Checker}
use zero_trust_sh.Contracts.Source.{
  mentions, has_safe_node, first_match, violation_evidence, strip_code,
}
use zero_trust_sh.Contracts.Rulebook.{find_rule}
use zero_trust_sh.Contracts.Escalate.{escalate}

unfoldable pub applicable_cwes : SurfaceKind → List Bytes
applicable_cwes external_input =
    codes "CWE-22"
    ∷ codes "CWE-89"
    ∷ codes "CWE-78"
    ∷ codes "CWE-79"
    ∷ codes "CWE-94"
    ∷ codes "CWE-502"
    ∷ codes "CWE-918"
    ∷ []
applicable_cwes auth_boundary = codes "CWE-862" ∷ codes "CWE-89" ∷ codes "CWE-78" ∷ []
applicable_cwes idor_candidate =
    codes "CWE-862" ∷ codes "CWE-89" ∷ codes "CWE-78" ∷ codes "CWE-22" ∷ []
applicable_cwes dangerous_sink = codes "CWE-327" ∷ []
applicable_cwes (other_kind text) = []

unfoldable pub cwe_number : Bytes → ℕ
unfolding trim_prefix atoi
cwe_number cwe = elim (atoi (trim_prefix cwe (codes "CWE-"))) [ none ↦ 0 | some v ↦ v ]

pub record Candidate : Type 0 where
  pub cwe : Bytes
  pub verdict : Verdict
  pub evidence : Bytes
  pub sink_matched : Bool

unfoldable pub anchor_in_sinks : Invariant → EnrichedSurface → Bool
unfolding mentions
anchor_in_sinks inv surface =
    any (λ anchor. any (λ node. mentions node anchor) (surface.sink_nodes)) (inv.sink_anchors)

unfoldable pub anchor_in_code : Invariant → EnrichedSurface → Bytes → Bool
unfolding strip_code contains str_eq
anchor_in_code inv surface cwe =
    not (str_eq (surface.code) [])
    && not (str_eq cwe (codes "CWE-89"))
    && any (λ anchor. contains (strip_code (surface.code)) anchor) (inv.sink_anchors)

-- The rule has no sink signature.
unfoldable pub assess_no_sink : EnrichedSurface → Invariant → Bytes → Verdict × Bytes
assess_no_sink surface inv cwe =
    if surface.sanitized
    then (safe, codes "CPG taint analysis confirmed a sanitizer on every path for " ++ cwe)
    else (
      inconclusive,
      codes "no fixed sink signature for "
          ++ (inv.name
              ++ (codes " ("
                  ++ (cwe
                      ++ (codes ") "
                          ++ (226
                              ∷ 128
                              ∷ 148
                              ∷ codes " deferring to LLM reasoning over real code"))))),
    )

-- The rule's sink was found, and no structural sanitizer.
unfoldable pub assess_unsanitized : Checker → EnrichedSurface → Invariant → Bytes → Verdict × Bytes
unfolding escalate has_safe_node first_match violation_evidence
assess_unsanitized checker surface inv cwe = elim (checker.llm) [
  | some generate ↦ escalate checker generate surface inv cwe
  | none ↦
      if has_safe_node (surface.call_path) (inv.safe_nodes) (surface.code)
      then (safe, codes "safe node on call path neutralizes " ++ cwe)
      else (
        violation,
        violation_evidence (inv.name) (first_match (inv.sink_anchors) (surface.sink_nodes)),
      )
]

-- The rule's sink was found.
unfoldable pub assess_sink : Checker → EnrichedSurface → Invariant → Bytes → Verdict × Bytes
unfolding assess_unsanitized
assess_sink checker surface inv cwe = elim (surface.call_path) [
  | [] ↦
      (inconclusive, codes "sink anchor " ++ (inv.name ++ codes " matched but call path is empty"))
  | node ∷ path ↦
      if surface.sanitized
      then (
        safe,
        codes "CPG taint analysis confirmed a sanitizer on every path to the sink for " ++ cwe,
      )
      else assess_unsanitized checker surface inv cwe
]

unfoldable pub candidate : Bytes → Verdict × Bytes → Bool → Candidate
candidate cwe (v, evidence) sink_matched = record {
  cwe = cwe;
  verdict = v;
  evidence = evidence;
  sink_matched = sink_matched;
}

-- `none` where the loop goes on to the next rule.
unfoldable pub evaluate_rule : Checker → EnrichedSurface → Bytes → Invariant → Option Candidate
unfolding anchor_in_sinks anchor_in_code assess_no_sink assess_sink candidate
evaluate_rule checker surface cwe inv =
    if inv.no_sink_model
    then some (candidate cwe (assess_no_sink surface inv cwe) false)
    else if anchor_in_sinks inv surface
    then some (candidate cwe (assess_sink checker surface inv cwe) true)
    else if anchor_in_code inv surface cwe
    then some (candidate cwe (assess_sink checker surface inv cwe) false)
    else none

-- A CWE that the table does not have is passed over.
unfoldable pub evaluate_found :
    Checker → EnrichedSurface → Bytes → Option Invariant → Option Candidate
unfolding evaluate_rule
evaluate_found checker surface cwe none = none
evaluate_found checker surface cwe (some inv) = evaluate_rule checker surface cwe inv

unfoldable pub evaluate : Checker → EnrichedSurface → Bytes → Option Candidate
unfolding find_rule evaluate_found
evaluate checker surface cwe = evaluate_found checker surface cwe (find_rule cwe)
