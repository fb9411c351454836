-- ===== src/Contracts/Check/Best.antt =====
-- The loop of Check in internal/semantic/contracts/check.go keeps a best candidate.
use zero_trust_sh.Prelude.{
  ℕ, if◌then◌else◌, ◌==◌, ltb, not, ◌&&◌, ◌||◌, sym, Bool, true, false, List, [], ◌∷◌, ◌++◌, Option,
  none, some, arith,
}
use zero_trust_sh.Prelude.{
  ◌≡◌, refl, ◌⊎◌, inl, inr, All, Member, Bool-cases, Option-cases, append_assoc, append-nil,
}
use zero_trust_sh.Prelude.{All-append, Member-append_left, Member-append_right}
use zero_trust_sh.Prelude.Text.{Bytes}
use zero_trust_sh.Surface.{EnrichedSurface}
use zero_trust_sh.Contracts.{inconclusive, safe, verdict_rank, Result, Checker}
use zero_trust_sh.Contracts.Evaluate.{applicable_cwes, cwe_number, Candidate, evaluate}
use zero_trust_sh.Contracts.Check.{
  same_bool, same_verdict, replaces, improve, best_from, report_best, choose, check,
}

abbrev pub option_list : Option Candidate → List Candidate
option_list none = []
option_list (some c) = c ∷ []

-- All candidates, in the order of the rules.
abbrev pub candidates : Checker → EnrichedSurface → List Bytes → List Candidate
candidates checker surface [] = []
candidates checker surface (cwe ∷ cwes) =
    option_list (evaluate checker surface cwe) ++ candidates checker surface cwes

-- An item of the list that no item would replace.
abbrev pub IsBest : Candidate → List Candidate → Type 0
IsBest best cs = Member best cs × All (λ c. replaces c best ≡ false) cs

replaces_irrefl : (c : Candidate) → replaces c c ≡ false
unfolding replaces
replaces_irrefl c = ground arith

replaces_asym : (c d : Candidate) → replaces c d ≡ true → replaces d c ≡ false
unfolding replaces
replaces_asym c d h = ground arith

-- The order behind the choice: verdict, then for violations a matched sink, then the lower number.
before : ℕ → Bool → ℕ → ℕ → Bool → ℕ → Bool
before rc mc nc rb mb nb =
    ltb rb rc || ((rc == rb && rc == 2) && ((mc && not mb) || (same_bool mc mb && ltb nc nb)))

before_keep :
    (rc : ℕ) (mc : Bool) (nc rb : ℕ) (mb : Bool) (nb rd : ℕ) (md : Bool) (nd : ℕ)
    → before rc mc nc rb mb nb ≡ true
    → before rd md nd rb mb nb ≡ false
    → before rd md nd rc mc nc ≡ false
unfolding before
before_keep rc true nc rb true nb rd true nd hc hd = ground arith
before_keep rc true nc rb true nb rd false nd hc hd = ground arith
before_keep rc true nc rb false nb rd true nd hc hd = ground arith
before_keep rc true nc rb false nb rd false nd hc hd = ground arith
before_keep rc false nc rb true nb rd true nd hc hd = ground arith
before_keep rc false nc rb true nb rd false nd hc hd = ground arith
before_keep rc false nc rb false nb rd true nd hc hd = ground arith
before_keep rc false nc rb false nb rd false nd hc hd = ground arith

replaces-before :
    (c b : Candidate)
    → replaces c b
      ≡ before
          (verdict_rank (c.verdict))
          (c.sink_matched)
          (cwe_number (c.cwe))
          (verdict_rank (b.verdict))
          (b.sink_matched)
          (cwe_number (b.cwe))
unfolding replaces before
replaces-before c b = refl

replaces_keep :
    (c best d : Candidate) → replaces c best ≡ true → replaces d best ≡ false → replaces d c ≡ false
replaces_keep c best d hc hd = rw (replaces-before d c) (
    before_keep (verdict_rank (c.verdict)) (c.sink_matched) (cwe_number (c.cwe))
      (verdict_rank (best.verdict)) (best.sink_matched) (cwe_number (best.cwe))
      (verdict_rank (d.verdict)) (d.sink_matched) (cwe_number (d.cwe))
      (rw (sym (replaces-before c best)) hc) (rw (sym (replaces-before d best)) hd))

improve_yes : (b c : Candidate) → replaces c b ≡ true → improve (some b) (some c) ≡ some c
unfolding improve
improve_yes b c h = rw h refl

improve_no : (b c : Candidate) → replaces c b ≡ false → improve (some b) (some c) ≡ some b
unfolding improve
improve_no b c h = rw h refl

All-keep :
    (c b : Candidate) (seen : List Candidate)
    → replaces c b ≡ true
    → All (λ d. replaces d b ≡ false) seen
    → All (λ d. replaces d c ≡ false) seen
All-keep c b [] h all = tt
All-keep c b (d ∷ seen) h all = (replaces_keep c b d h (all.0), All-keep c b seen h (all.1))

improve-IsBest :
    (b c : Candidate) (seen : List Candidate)
    → IsBest b seen
    → (b' : Candidate) × (improve (some b) (some c) ≡ some b') × IsBest b' (seen ++ c ∷ [])
improve-IsBest b c seen best = elim (Bool-cases (replaces c b)) [
  | inl h ↦ (
    c,
    improve_yes b c h,
    (
      Member-append_right c seen (c ∷ []) (inl refl),
      All-append (λ d. replaces d c ≡ false) seen (c ∷ []) (All-keep c b seen h (best.1))
          (replaces_irrefl c, tt),
    ),
  )
  | inr h ↦ (
    b,
    improve_no b c h,
    (
      Member-append_left b seen (c ∷ []) (best.0),
      All-append (λ d. replaces d b ≡ false) seen (c ∷ []) (best.1) (h, tt),
    ),
  )
]

module _ (checker : Checker) (surface : EnrichedSurface) where
  best_from-step :
      (best : Option Candidate) (cwe : Bytes) (cwes : List Bytes)
      → best_from checker surface best (cwe ∷ cwes)
        ≡ best_from checker surface (improve best (evaluate checker surface cwe)) cwes
  unfolding best_from
  best_from-step best cwe cwes = refl

  improve-none : (best : Option Candidate) → improve best none ≡ best
  unfolding improve
  improve-none none = refl
  improve-none (some b) = refl

  best_from-some :
      (cwes : List Bytes) (b : Candidate) (seen : List Candidate)
      → IsBest b seen
      → (b' : Candidate) × (best_from checker surface (some b) cwes ≡ some b')
        × IsBest b' (seen ++ candidates checker surface cwes)
  best_from-some [] b seen best = (b, unfold best_from in refl, rw (append-nil seen) best)
  best_from-some (cwe ∷ cwes) b seen best = elim (Option-cases (evaluate checker surface cwe)) [
    | inl e ↦
        rw (best_from-step (some b) cwe cwes, e, improve-none (some b))
          (best_from-some cwes b seen best)
    | inr (c, e) ↦
        let (b1, e1, best1) = improve-IsBest b c seen best in
        rw
          (
            best_from-step (some b) cwe cwes,
            e,
            e1,
            sym (append_assoc seen (c ∷ []) (candidates checker surface cwes)),
          )
          (best_from-some cwes b1 (seen ++ c ∷ []) best1)
  ]

  -- The loop ends without a candidate if no rule gives one, and else with a best one of them all.
  best_from_lem :
      (cwes : List Bytes)
      → ((best_from checker surface none cwes ≡ none) × (candidates checker surface cwes ≡ []))
        ⊎ ((b : Candidate) × (best_from checker surface none cwes ≡ some b)
            × IsBest b (candidates checker surface cwes))
  best_from_lem [] = inl (unfold best_from in refl, refl)
  best_from_lem (cwe ∷ cwes) = elim (Option-cases (evaluate checker surface cwe)) [
    | inl e ↦ rw (best_from-step none cwe cwes, e, improve-none none) (best_from_lem cwes)
    | inr (c, e) ↦
        rw (best_from-step none cwe cwes, e)
          (inr
            (unfold improve in best_from-some cwes c (c ∷ []) (inl refl, (replaces_irrefl c, tt))))
  ]

-- What a result has to say, given the candidates: no candidate and INCONCLUSIVE, or the verdict,
-- the evidence and the CWE of a best candidate, the CWE empty for SAFE.
abbrev pub Reports : Result → List Candidate → Type 0
Reports r cs =
    ((cs ≡ []) × (r.verdict ≡ inconclusive))
    ⊎ ((b : Candidate) × IsBest b cs
        × (r.verdict ≡ b.verdict)
        × (r.evidence ≡ b.evidence)
        × (r.cwe ≡ (if same_verdict (b.verdict) safe then [] else b.cwe)))

choose-Reports :
    (checker : Checker) (surface : EnrichedSurface) (cwes : List Bytes)
    → Reports (choose checker surface cwes) (candidates checker surface cwes)
unfolding choose evaluate
choose-Reports checker surface [] = unfold choose in inl (refl, refl)
choose-Reports checker surface (cwe ∷ cwes) = elim (best_from_lem checker surface (cwe ∷ cwes)) [
  | inl (e, c) ↦ rw (e, choose) (unfold report_best in inl (c, refl))
  | inr (b, e, best) ↦ rw (e, choose) (unfold report_best in inr (b, best, refl, refl, refl))
]

-- What Check returns is a best one of the candidates that the applicable rules give: a greater
-- verdict first, then among violations a matched sink node, then the lower CWE number. Without a
-- candidate the verdict is INCONCLUSIVE.
pub check-Reports :
    (checker : Checker) (surface : EnrichedSurface)
    → Reports (check checker surface) (candidates checker surface (applicable_cwes (surface.kind)))
unfolding check
check-Reports checker surface = choose-Reports checker surface (applicable_cwes (surface.kind))
