-- ===== src/Contracts/Check.antt =====
-- The choice among the rules: Check and CheckAll of internal/semantic/contracts/check.go.
pub mod Best
pub mod Verdicts
pub mod Safe
pub mod Schedule
use zero_trust_sh.Prelude.{
  ℕ, zero, suc, Bool, true, false, not, List, [], ◌∷◌, ◌++◌, Option, none, some, map,
}
use zero_trust_sh.Prelude.{◌&&◌, ◌||◌, ◌==◌, ltb, if◌then◌else◌, get_elem?, set}
use zero_trust_sh.Prelude.Text.{Bytes, codes}
use zero_trust_sh.Surface.{EnrichedSurface, kind_name}
use zero_trust_sh.Contracts.{
  Verdict, safe, violation, inconclusive, verdict_rank, greater_than, Result, Checker,
}
use zero_trust_sh.Contracts.Evaluate.{applicable_cwes, cwe_number, Candidate, evaluate}

abbrev pub same_bool : Bool → Bool → Bool
same_bool a b = if a then b else not b

abbrev pub same_verdict : Verdict → Verdict → Bool
same_verdict v w = verdict_rank v == verdict_rank w

-- The condition under which a new candidate takes the place of the best one.
unfoldable pub replaces : Candidate → Candidate → Bool
unfolding cwe_number
replaces c best =
    greater_than (c.verdict) (best.verdict)
    || (same_verdict (c.verdict) (best.verdict)
        && same_verdict (c.verdict) violation
        && ((c.sink_matched && not (best.sink_matched))
            || (same_bool (c.sink_matched) (best.sink_matched)
                && ltb (cwe_number (c.cwe)) (cwe_number (best.cwe)))))

unfoldable pub improve : Option Candidate → Option Candidate → Option Candidate
unfolding replaces
improve best none = best
improve none (some c) = some c
improve (some b) (some c) = if replaces c b then some c else some b

unfoldable pub best_from :
    Checker → EnrichedSurface → Option Candidate → List Bytes → Option Candidate
unfolding evaluate improve
best_from checker surface best [] = best
best_from checker surface best (cwe ∷ cwes) =
    best_from checker surface (improve best (evaluate checker surface cwe)) cwes

-- The result for the best candidate; the CWE of a SAFE one is dropped.
unfoldable pub report_best : EnrichedSurface → Bytes → Option Candidate → Result
report_best surface primary none = record {
  surface = surface;
  verdict = inconclusive;
  cwe = primary;
  evidence = codes "no sink anchor matched for any applicable CWE";
}
report_best surface primary (some best) = record {
  surface = surface;
  verdict = best.verdict;
  cwe = if same_verdict (best.verdict) safe then [] else best.cwe;
  evidence = best.evidence;
}

unfoldable pub choose : Checker → EnrichedSurface → List Bytes → Result
unfolding kind_name best_from report_best
choose checker surface [] = record {
  surface = surface;
  verdict = inconclusive;
  cwe = [];
  evidence = codes "no applicable CWE for surface kind " ++ kind_name (surface.kind);
}
choose checker surface (primary ∷ rest) =
    report_best surface primary (best_from checker surface none (primary ∷ rest))

unfoldable pub check : Checker → EnrichedSurface → Result
unfolding choose applicable_cwes
check checker surface = choose checker surface (applicable_cwes (surface.kind))

-- CheckAll: the goroutine of index `i` writes results[i]. A schedule lists the goroutines in the
-- order in which they write.
unfoldable pub write_result :
    Checker → List EnrichedSurface → ℕ → List (Option Result) → List (Option Result)
unfolding check
write_result checker surfaces i results = elim (get_elem? surfaces i) [
  | none ↦ results
  | some surface ↦ set results i (some (check checker surface))
]

unfoldable pub run_schedule :
    Checker → List EnrichedSurface → List ℕ → List (Option Result) → List (Option Result)
unfolding write_result
run_schedule checker surfaces [] results = results
run_schedule checker surfaces (i ∷ schedule) results =
    run_schedule checker surfaces schedule (write_result checker surfaces i results)

unfoldable pub check_all : Checker → List EnrichedSurface → List ℕ → List (Option Result)
unfolding run_schedule
check_all checker surfaces schedule =
    run_schedule checker surfaces schedule (map (λ surface. none) surfaces)
