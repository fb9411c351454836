-- ===== src/Dedup/Process/Counts.antt =====
-- The pass as a whole: it never panics, its output is the scored grouping, and its counts add up.
use zero_trust_sh.Prelude.{
  ℕ, suc, ◌+◌, ◌∷◌, [], List, false, Option, none, some, length, Bool-cases, inl, inr, ◌≡◌, refl,
  ap, ◌∙◌, append-nil, arith, count,
}
use native.Mathlib.Nat.{add-zero}
use zero_trust_sh.Prelude.Text.{Bytes, str_eq}
use zero_trust_sh.Prelude.Float.{FloatOps}
use zero_trust_sh.Config.{Config}
use zero_trust_sh.Finding.{Finding}
use zero_trust_sh.Dedup.{MergeRecord, Stats}
use zero_trust_sh.Dedup.Gate.{GateState, empty_gate, gate1, gate3, gate4}
use zero_trust_sh.Dedup.Grouped.{grouped}
use zero_trust_sh.Dedup.Grouped.Refine.{gate1-grouped}
use zero_trust_sh.Dedup.History.{Snapshot, dedup_historical}
use zero_trust_sh.Dedup.History.Laws.{dedup_historical-count, dedup_historical-records}
use zero_trust_sh.Dedup.Ssvc.{Net}
use zero_trust_sh.Dedup.Process.{
  Layer, is_suppressed, from_history, history_of, all_pass, score_all, finish, process,
  count_suppressed,
}

history_of-walk :
    (walk : Option (List (Bytes × Snapshot))) (project_id : Bytes) (input : List Finding)
    → str_eq project_id [] ≡ false
    → history_of (some walk) project_id input ≡ dedup_historical walk input
unfolding history_of
history_of-walk walk project_id input e = rw e

-- The history splits its input into survivors and merges, one record each.
history_of-counts :
    (db : Option (Option (List (Bytes × Snapshot)))) (project_id : Bytes) (input : List Finding)
    → let h = history_of db project_id input in
      (length h.survivors + h.merge_count ≡ length input) × (length h.records ≡ h.merge_count)
history_of-counts none project_id input = unfold history_of all_pass in (omega arith, refl)
history_of-counts (some walk) project_id input = elim (Bool-cases (str_eq project_id [])) [
  | inl e ↦ unfold history_of all_pass in rw e (omega arith, refl)
  | inr e ↦
      rw (history_of-walk walk project_id input e)
        (dedup_historical-count walk input, dedup_historical-records walk input)
]

module _ (F : FloatOps) (cfg : Config) (layer : Layer) (nets : ℕ → Net) where
  length-score_all :
      (i : ℕ) (fs : List Finding) → length (score_all F cfg layer nets i fs) ≡ length fs
  unfolding score_all
  length-score_all i [] = refl
  length-score_all i (f ∷ fs) = ap suc (length-score_all (suc i) fs)

  abbrev final_stats : List Finding → List Finding → GateState → Stats
  final_stats input out st = record {
    input_count = length input;
    output_count = length out;
    merge_count = st.merge_count;
    auto_suppressed_count = count (λ f. is_suppressed f.severity_label) out;
  }

  gate3_lem : (fs : List Finding) → gate3 fs ≡ (fs, [], 0, [])
  unfolding gate3
  gate3_lem [] = refl
  gate3_lem (f ∷ fs) = refl

  finish_lem :
      (input : List Finding) (st : GateState)
      → let out = score_all F cfg layer nets 0 st.out in
        finish F cfg layer nets input st ≡ (out, st.records, final_stats input out st)
  unfolding finish gate4 count_suppressed
  finish_lem input st = simp (gate3_lem st.out, append-nil, add-zero)

  process-runs :
      (digest : Bytes → Bytes) (input : List Finding) (st : GateState)
      → let h = from_history layer input in
        gate1 digest h.survivors (empty_gate h.records h.merge_count) ≡ some st
        → process F cfg layer digest nets input ≡ some (finish F cfg layer nets input st)
  unfolding process
  process-runs digest input st runs = rw (runs, process)

  -- The pass never panics. Its output is the grouping by key of the findings that the history lets
  -- through, each scored; survivors and merges make up the input; there is one record for each
  -- merge; and the suppressed count is the number of suppressed findings in the output.
  pub process_lem :
      (digest : Bytes → Bytes) (input : List Finding)
      → (out : List Finding) × (records : List MergeRecord) × (stats : Stats) × (process F cfg layer
            digest nets input
          ≡ some (out, records, stats))
        × (out
            ≡ score_all F cfg layer nets 0 (grouped digest (from_history layer input).survivors []))
        × (stats.input_count ≡ length input)
        × (stats.output_count ≡ length out)
        × (stats.output_count + stats.merge_count ≡ stats.input_count)
        × (length records ≡ stats.merge_count)
        × (stats.auto_suppressed_count ≡ count (λ f. is_suppressed f.severity_label) out)
  process_lem digest input =
      let h = from_history layer input in
      let counts = history_of-counts layer.db layer.project_id input in
      let (st, runs, groups, count1, count2) =
        gate1-grouped digest h.survivors h.records h.merge_count in
      let out = score_all F cfg layer nets 0 st.out in
      (
        out,
        st.records,
        final_stats input out st,
        process-runs digest input st runs ∙ ap some (finish_lem input st),
        ap (score_all F cfg layer nets 0) groups,
        refl,
        refl,
        unfold from_history in omega (arith, length-score_all 0 st.out, count1, counts.0),
        unfold from_history in omega (arith, count2, counts.1),
        refl,
      )

  -- Any result of the pass is the scored grouping.
  pub process-out :
      (digest : Bytes → Bytes) (input : List Finding) {out : List Finding}
      {records : List MergeRecord} {stats : Stats}
      → process F cfg layer digest nets input ≡ some (out, records, stats)
      → out ≡ score_all F cfg layer nets 0 (grouped digest (from_history layer input).survivors [])
  process-out digest input e = let l = process_lem digest input in cc (l.3, l.4)
