-- ===== src/Contracts/Escalate.antt =====
-- The question to the LLM: escalate and answersYes of internal/semantic/contracts/check.go.
pub mod Majority
use zero_trust_sh.Prelude.{ℕ, zero, suc, ◌+◌, ◌<◌, Bool, true, false, not, List, [], ◌∷◌, ◌++◌}
use zero_trust_sh.Prelude.{
  ◌≡◌, refl, ◌↔◌, ◌==◌, ◌&&◌, leb, ap, length-append, if◌then◌else◌, length, count, Option, none,
  some, arith,
}
use zero_trust_sh.Prelude.{Bool-cases, inl, inr, ◌⊎◌}
use zero_trust_sh.Prelude.Text.{Bytes, codes, split, to_upper, str_eq, itoa}
use zero_trust_sh.Prelude.Words.{trim_space, trim, fields, last_or_empty, truncate_utf8}
use zero_trust_sh.Surface.{EnrichedSurface}
use zero_trust_sh.Contracts.{Invariant, Verdict, safe, violation, PromptData, Checker}
use zero_trust_sh.Contracts.Source.{first_match, violation_evidence}

unfoldable pub answers_yes : Bytes → Bool
unfolding trim_space split to_upper fields last_or_empty trim str_eq
answers_yes resp =
    let last_line = to_upper (trim_space (last_or_empty (split (trim_space resp) 10))) in
    str_eq (trim (last_or_empty (fields last_line)) (codes ".,;:!\"'")) (codes "YES")

pub record Votes : Type 0 where
  pub yes : ℕ
  pub no : ℕ
  pub last_resp : Bytes

-- One sample: an error counts for neither side.
unfoldable pub vote : Votes → Option Bytes → Votes
unfolding answers_yes
vote v none = v
vote v (some resp) = elim (answers_yes resp) [
  | true ↦ record { yes = v.yes + 1; no = v.no; last_resp = resp }
  | false ↦ record { yes = v.yes; no = v.no + 1; last_resp = resp }
]

unfoldable pub draw : (ℕ → Option Bytes) → ℕ → Votes
unfolding vote
draw generate zero = record { yes = 0; no = 0; last_resp = [] }
draw generate (suc i) = vote (draw generate i) (generate i)

abbrev pub escalation_samples : ℕ
escalation_samples = 3

-- The code that the prompt shows.
unfoldable pub shown_code : Bytes → Bytes
unfolding truncate_utf8
shown_code code =
    if leb (length code) 1500 then code else truncate_utf8 code 1500 ++ 10 ∷ codes "...[truncated]"

unfoldable pub prompt_data : Checker → EnrichedSurface → Invariant → Bytes → PromptData
unfolding shown_code
prompt_data checker surface inv cwe = record {
  cwe_name = inv.name;
  cwe = cwe;
  code = shown_code (surface.code);
  caller_context = checker.caller_context surface;
}

-- The verdict of the votes, with what is said for a violation.
unfoldable pub decide : Bytes → Bytes → Votes → Verdict × Bytes
unfolding itoa trim_space
decide cwe evidence v =
    if v.yes == 0 && v.no == 0
    then (violation, evidence)
    else if leb (v.yes) (v.no)
    then (violation, evidence)
    else (
      safe,
      codes "scoped LLM check confirmed sanitization for "
          ++ (cwe
              ++ (codes " ("
                  ++ (itoa (v.yes)
                      ++ (codes "/"
                          ++ (itoa (v.yes + v.no)
                              ++ (codes " votes): " ++ trim_space (v.last_resp))))))),
    )

-- if code == "" { return at_once }
unfoldable pub unless_empty : Bytes → Verdict × Bytes → Verdict × Bytes → Verdict × Bytes
unless_empty [] at_once asked = at_once
unless_empty (c ∷ code) at_once asked = asked

unfoldable pub escalate :
    Checker
    → (PromptData → ℕ → Option Bytes)
    → EnrichedSurface
    → Invariant
    → Bytes
    → Verdict × Bytes
unfolding first_match violation_evidence prompt_data shown_code decide draw unless_empty
escalate checker generate surface inv cwe =
    let evidence =
      violation_evidence (inv.name) (first_match (inv.sink_anchors) (surface.sink_nodes)) in
    let data_of = prompt_data checker surface inv cwe in
    unless_empty (shown_code (surface.code)) (violation, evidence)
      (decide cwe evidence (draw (generate data_of) escalation_samples))
