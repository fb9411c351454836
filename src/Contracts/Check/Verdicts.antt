-- ===== src/Contracts/Check/Verdicts.antt =====
-- What the verdicts of Check in internal/semantic/contracts/check.go rest on.
use zero_trust_sh.Prelude.{◌<◌, ◌≤◌, true, false, List, [], ◌∷◌, Option, none, some, arith, length}
use zero_trust_sh.Prelude.{
  ◌≡◌, refl, sym, ap, ◌∙◌, ◌↔◌, inl, inr, ◌||◌, if◌then◌else◌, All, Any, Member, Option-cases,
}
use zero_trust_sh.Prelude.Text.{Bytes}
use zero_trust_sh.Surface.{EnrichedSurface}
use zero_trust_sh.Contracts.{
  Verdict, Invariant, inconclusive, safe, violation, verdict_rank, Checker,
}
use zero_trust_sh.Contracts.Rulebook.{find_rule}
use zero_trust_sh.Contracts.Evaluate.{
  evaluate_found, applicable_cwes, Candidate, candidate, evaluate, evaluate_rule, anchor_in_sinks,
  anchor_in_code, assess_sink, assess_no_sink,
}
use zero_trust_sh.Contracts.Check.{replaces, same_verdict, check}
use zero_trust_sh.Contracts.Check.Best.{candidates, check-Reports}

module _ (checker : Checker) (surface : EnrichedSurface) where
  assess_sink-violation :
      (inv : Invariant) (cwe : Bytes)
      → (assess_sink checker surface inv cwe).0 ≡ violation
      → (surface.sanitized ≡ false) × (0 < length (surface.call_path))
  unfolding assess_sink
  assess_sink-violation inv cwe h = ground arith

  -- Why a rule gives a violation.
  abbrev pub Breach : Bytes → Type 0
  Breach cwe =
      (inv : Invariant) × (find_rule cwe ≡ some inv)
      × ((anchor_in_sinks inv surface || anchor_in_code inv surface cwe) ≡ true)
      × (surface.sanitized ≡ false)
      × (0 < length (surface.call_path))

  no_sink-violation :
      (inv : Invariant) (cwe : Bytes) → ¬ ((assess_no_sink surface inv cwe).0 ≡ violation)
  unfolding assess_no_sink
  no_sink-violation inv cwe h = ground arith

  evaluate_rule-violation :
      (inv : Invariant) (cwe : Bytes) (c : Candidate)
      → evaluate_rule checker surface cwe inv ≡ some c
      → c.verdict ≡ violation
      → (c.cwe ≡ cwe)
        × ((anchor_in_sinks inv surface || anchor_in_code inv surface cwe) ≡ true)
        × (surface.sanitized ≡ false)
        × (0 < length (surface.call_path))
  unfolding evaluate_rule candidate
  evaluate_rule-violation inv cwe c h v =
      ground (arith, assess_sink-violation inv cwe, no_sink-violation inv cwe)

  evaluate_found-violation :
      (cwe : Bytes) (found : Option Invariant) (c : Candidate)
      → evaluate_found checker surface cwe found ≡ some c
      → c.verdict ≡ violation
      → (c.cwe ≡ cwe)
        × (inv : Invariant) × (found ≡ some inv)
        × ((anchor_in_sinks inv surface || anchor_in_code inv surface cwe) ≡ true)
        × (surface.sanitized ≡ false)
        × (0 < length (surface.call_path))
  unfolding evaluate_found
  evaluate_found-violation cwe none c h v = cc
  evaluate_found-violation cwe (some inv) c h v =
      let l = evaluate_rule-violation inv cwe c h v in (l.0, inv, refl, l.1, l.2, l.3)

  evaluate-violation :
      (cwe : Bytes) (c : Candidate)
      → evaluate checker surface cwe ≡ some c
      → c.verdict ≡ violation
      → (c.cwe ≡ cwe) × Breach cwe
  unfolding evaluate
  evaluate-violation cwe c h v =
      let l = evaluate_found-violation cwe (find_rule cwe) c h v in (l.0, (l.1, l.2, l.3, l.4, l.5))

  -- Every violation among the candidates has its reason, under a CWE of the list.
  candidates-violation :
      (cwes : List Bytes) (c : Candidate)
      → Member c (candidates checker surface cwes)
      → c.verdict ≡ violation
      → Member (c.cwe) cwes × Breach (c.cwe)
  candidates-violation [] c m v = absurd m
  candidates-violation (cwe ∷ cwes) c m v = elim (Option-cases (evaluate checker surface cwe)) [
    | inl e ↦ let l = candidates-violation cwes c (rw e at m) v in (inr (l.0), l.1)
    | inr (d, e) ↦ elim (rw e at m) [
      | inl same ↦
          let l = evaluate-violation cwe c (e ∙ ap some same) v in (inl (sym (l.0)), rw (l.0) (l.1))
      | inr later ↦ let l = candidates-violation cwes c later v in (inr (l.0), l.1)
    ]
  ]

verdict_top : (v : Verdict) → 2 ≤ verdict_rank v → v ≡ violation
verdict_top inconclusive h = absurd (omega (arith, h))
verdict_top safe h = absurd (omega (arith, h))
verdict_top violation h = refl

replaces-rank :
    (c b : Candidate) → replaces c b ≡ false → verdict_rank (c.verdict) ≤ verdict_rank (b.verdict)
unfolding replaces
replaces-rank c b h = ground arith

best-violation :
    (b c : Candidate) → replaces c b ≡ false → c.verdict ≡ violation → b.verdict ≡ violation
best-violation b c h v =
    verdict_top (b.verdict) (omega (arith, replaces-rank c b h, ap verdict_rank v))

Any-violation :
    (b : Candidate) (cs : List Candidate)
    → All (λ c. replaces c b ≡ false) cs
    → Any (λ c. c.verdict ≡ violation) cs
    → b.verdict ≡ violation
Any-violation b [] all some_one = absurd some_one
Any-violation b (c ∷ cs) all some_one = elim some_one [
  | inl v ↦ best-violation b c (all.0) v
  | inr later ↦ Any-violation b cs (all.1) later
]

Member-Any :
    (b : Candidate) (cs : List Candidate)
    → Member b cs
    → b.verdict ≡ violation
    → Any (λ c. c.verdict ≡ violation) cs
Member-Any b [] m v = absurd m
Member-Any b (c ∷ cs) m v = elim m [
  | inl e ↦ inl (rw e v)
  | inr later ↦ inr (Member-Any b cs later v)
]

inconclusive-violation : (v : Verdict) → v ≡ inconclusive → ¬ (v ≡ violation)
inconclusive-violation v e h = ground arith

-- A violation is returned exactly if some applicable rule gives one: no other rule's verdict hides it.
pub check-violation :
    (checker : Checker) (surface : EnrichedSurface)
    → ((check checker surface).verdict ≡ violation)
      ↔ Any
          (λ c. c.verdict ≡ violation)
          (candidates checker surface (applicable_cwes (surface.kind)))
check-violation checker surface = elim (check-Reports checker surface) [
  | inl (no_candidates, i) ↦ (
    λ v. absurd (inconclusive-violation (check checker surface).verdict i v),
    λ some_one. absurd (rw no_candidates at some_one),
  )
  | inr (b, best, e, evidence, cwe) ↦
      let cs = candidates checker surface (applicable_cwes (surface.kind)) in
      (
        λ v. Member-Any b cs (best.0) (sym e ∙ v),
        λ some_one. e ∙ Any-violation b cs (best.1) some_one,
      )
]

-- A violation names a CWE that applies to the surface's kind and has a rule in the table; an anchor
-- of that rule is in a sink node or in the stripped code, the call path is not empty, and the
-- structural analysis found no sanitizer.
pub check-Breach :
    (checker : Checker) (surface : EnrichedSurface)
    → (check checker surface).verdict ≡ violation
    → let cwe = (check checker surface).cwe in
      Member cwe (applicable_cwes (surface.kind)) × Breach checker surface cwe
check-Breach checker surface v = elim (check-Reports checker surface) [
  | inl (no_candidates, i) ↦ absurd (inconclusive-violation (check checker surface).verdict i v)
  | inr (b, best, e, evidence, cwe) ↦
      let l =
        candidates-violation checker surface (applicable_cwes (surface.kind)) b (best.0)
          (sym e ∙ v) in
      rw (cwe ∙ ap (λ x. if same_verdict x safe then [] else b.cwe) (sym e ∙ v)) l
]

-- A surface whose paths are all sanitized is never a violation, whatever the LLM answers.
pub check-sanitized :
    (checker : Checker) (surface : EnrichedSurface)
    → surface.sanitized ≡ true
    → ¬ ((check checker surface).verdict ≡ violation)
check-sanitized checker surface s v =
    let (m, (inv, rule, anchored, unsanitized, path)) = check-Breach checker surface v in
    cc (s, unsanitized)
