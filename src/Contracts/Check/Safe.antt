-- ===== src/Contracts/Check/Safe.antt =====
-- When Check of internal/semantic/contracts/check.go says SAFE without an LLM.
use zero_trust_sh.Prelude.{true, List, [], ◌∷◌, Option, none, some, arith}
use zero_trust_sh.Prelude.{◌≡◌, refl, sym, ap, ◌∙◌, ◌⊎◌, inl, inr, Member, Option-cases}
use zero_trust_sh.Prelude.Text.{Bytes}
use zero_trust_sh.Surface.{EnrichedSurface}
use zero_trust_sh.Contracts.{Verdict, Invariant, inconclusive, safe, Checker}
use zero_trust_sh.Contracts.Source.{has_safe_node}
use zero_trust_sh.Contracts.Rulebook.{find_rule}
use zero_trust_sh.Contracts.Evaluate.{
  applicable_cwes, Candidate, candidate, evaluate, evaluate_found, evaluate_rule, assess_sink,
  assess_no_sink, assess_unsanitized,
}
use zero_trust_sh.Contracts.Check.{check}
use zero_trust_sh.Contracts.Check.Best.{candidates, check-Reports}

module _ (checker : Checker) (surface : EnrichedSurface) (no_llm : checker.llm ≡ none) where
  unsanitized-safe :
      (inv : Invariant) (cwe : Bytes)
      → (assess_unsanitized checker surface inv cwe).0 ≡ safe
      → has_safe_node (surface.call_path) (inv.safe_nodes) (surface.code) ≡ true
  unfolding assess_unsanitized
  unsanitized-safe inv cwe h = ground (arith, no_llm)

  assess_sink-safe :
      (inv : Invariant) (cwe : Bytes)
      → (assess_sink checker surface inv cwe).0 ≡ safe
      → (surface.sanitized ≡ true)
        ⊎ (has_safe_node (surface.call_path) (inv.safe_nodes) (surface.code) ≡ true)
  unfolding assess_sink
  assess_sink-safe inv cwe h = ground (arith, unsanitized-safe inv cwe)

  assess_no_sink-safe :
      (inv : Invariant) (cwe : Bytes)
      → (assess_no_sink surface inv cwe).0 ≡ safe
      → surface.sanitized ≡ true
  unfolding assess_no_sink
  assess_no_sink-safe inv cwe h = ground arith

  evaluate_rule-safe :
      (inv : Invariant) (cwe : Bytes) (c : Candidate)
      → evaluate_rule checker surface cwe inv ≡ some c
      → c.verdict ≡ safe
      → (surface.sanitized ≡ true)
        ⊎ (has_safe_node (surface.call_path) (inv.safe_nodes) (surface.code) ≡ true)
  unfolding evaluate_rule candidate
  evaluate_rule-safe inv cwe c h v =
      ground (arith, assess_sink-safe inv cwe, assess_no_sink-safe inv cwe)

  -- What makes a rule of the list safe.
  abbrev pub Cleared : List Bytes → Type 0
  Cleared cwes =
      (surface.sanitized ≡ true)
      ⊎ ((cwe : Bytes) × (inv : Invariant) × Member cwe cwes
          × (find_rule cwe ≡ some inv)
          × (has_safe_node (surface.call_path) (inv.safe_nodes) (surface.code) ≡ true))

  evaluate_found-safe :
      (cwe : Bytes) (found : Option Invariant) (c : Candidate)
      → find_rule cwe ≡ found
      → evaluate_found checker surface cwe found ≡ some c
      → c.verdict ≡ safe
      → (cwes : List Bytes) → Cleared (cwe ∷ cwes)
  unfolding evaluate_found
  evaluate_found-safe cwe none c e h v cwes = cc
  evaluate_found-safe cwe (some inv) c e h v cwes = elim (evaluate_rule-safe inv cwe c h v) [
    | inl s ↦ inl s
    | inr node ↦ inr (cwe, inv, inl refl, e, node)
  ]

  Cleared-later : (cwe : Bytes) (cwes : List Bytes) → Cleared cwes → Cleared (cwe ∷ cwes)
  Cleared-later cwe cwes h = elim h [
    | inl s ↦ inl s
    | inr (d, inv, m, e, node) ↦ inr (d, inv, inr m, e, node)
  ]

  candidates-safe :
      (cwes : List Bytes) (c : Candidate)
      → Member c (candidates checker surface cwes)
      → c.verdict ≡ safe
      → Cleared cwes
  candidates-safe [] c m v = absurd m
  candidates-safe (cwe ∷ cwes) c m v = elim (Option-cases (evaluate checker surface cwe)) [
    | inl e ↦ Cleared-later cwe cwes (candidates-safe cwes c (rw e at m) v)
    | inr (d, e) ↦ elim (rw e at m) [
      | inl same ↦
          unfold evaluate in
          evaluate_found-safe cwe (find_rule cwe) c refl (e ∙ ap some same) v cwes
      | inr later ↦ Cleared-later cwe cwes (candidates-safe cwes c later v)
    ]
  ]

  inconclusive-safe : (v : Verdict) → v ≡ inconclusive → ¬ (v ≡ safe)
  inconclusive-safe v e h = ground arith

  -- Without an LLM the checker says SAFE only where the structural analysis found a sanitizer on
  -- every path, or a safe node of the rule of an applicable CWE is on the call path or in the code.
  pub check-Cleared :
      (check checker surface).verdict ≡ safe → Cleared (applicable_cwes (surface.kind))
  check-Cleared v = elim (check-Reports checker surface) [
    | inl (no_candidates, i) ↦ absurd (inconclusive-safe (check checker surface).verdict i v)
    | inr (b, best, e, evidence, cwe) ↦
        candidates-safe (applicable_cwes (surface.kind)) b (best.0) (sym e ∙ v)
  ]
