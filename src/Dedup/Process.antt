-- ===== src/Dedup/Process.antt =====
-- Layer.process of internal/dedup/dedup.go: history, gate 1, the two stub gates, and the scoring of
-- each survivor.
pub mod Counts
pub mod Coverage
pub mod Places
use zero_trust_sh.Prelude.{
  ℕ, suc, ◌+◌, ◌++◌, ◌∷◌, [], List, Bool, true, false, Option, none, some, length, if◌then◌else◌,
  count,
}
use zero_trust_sh.Prelude.Text.{Bytes, str_eq}
use zero_trust_sh.Prelude.Float.{FloatOps}
use zero_trust_sh.Config.{Config}
use zero_trust_sh.Finding.{Finding, SeverityLabel, suppressed}
use zero_trust_sh.Dedup.{MergeRecord, Stats}
use zero_trust_sh.Dedup.Gate.{GateState, empty_gate, gate1, gate3, gate4}
use zero_trust_sh.Dedup.Score.{apply_boost_and_score}
use zero_trust_sh.Dedup.Sidecar.{Sidecar, apply}
use zero_trust_sh.Dedup.Ssvc.{Net, derive_ssvc}
use zero_trust_sh.Dedup.Suppress.{auto_suppress}
use zero_trust_sh.Dedup.History.{Snapshot, Filtered, dedup_historical}

-- The fields of a layer that the pass reads: the rules, the project, and the database with what its
-- walk answers (`none` inside is a query that failed).
pub record Layer : Type 0 where
  pub sidecar : Option Sidecar
  pub db : Option (Option (List (Bytes × Snapshot)))
  pub project_id : Bytes

abbrev pub is_suppressed : SeverityLabel → Bool
is_suppressed suppressed = true
is_suppressed _ = false

unfoldable pub all_pass : List Finding → Filtered
all_pass input = record { survivors = input; records = []; merge_count = 0 }

-- The history is asked only where a database and a project are set.
unfoldable pub history_of :
    Option (Option (List (Bytes × Snapshot))) → Bytes → List Finding → Filtered
unfolding all_pass dedup_historical
history_of none project_id input = all_pass input
history_of (some walk) project_id input =
    if str_eq project_id [] then all_pass input else dedup_historical walk input

unfoldable pub from_history : Layer → List Finding → Filtered
unfolding history_of
from_history layer input = history_of layer.db layer.project_id input

unfoldable pub apply_sidecar : Option Sidecar → Finding → Finding
unfolding apply
apply_sidecar none f = f
apply_sidecar (some sc) f = if is_suppressed f.severity_label then f else apply sc f

module _ (F : FloatOps) (cfg : Config) (layer : Layer) where
  unfoldable pub score_one : Net → Finding → Finding
  unfolding apply_sidecar auto_suppress apply_boost_and_score derive_ssvc
  score_one net f =
      apply_sidecar layer.sidecar
        (auto_suppress (apply_boost_and_score F cfg (derive_ssvc F cfg net f)))

  -- `nets i` is what the network answers while finding `i` is scored.
  unfoldable pub score_all : (ℕ → Net) → ℕ → List Finding → List Finding
  unfolding score_one
  score_all nets i [] = []
  score_all nets i (f ∷ fs) = score_one (nets i) f ∷ score_all nets (suc i) fs

  unfoldable pub count_suppressed : List Finding → ℕ
  unfolding count
  count_suppressed out = count (λ f. is_suppressed f.severity_label) out

  -- What follows gate 1.
  unfoldable pub finish :
      (ℕ → Net) → List Finding → GateState → List Finding × List MergeRecord × Stats
  unfolding gate3 gate4 score_all count_suppressed
  finish nets input st =
      let g3 = gate3 st.out in
      let g4 = gate4 g3.0 g3.3 in
      let out = score_all nets 0 g4.0 in
      (
        out,
        (st.records ++ g3.1) ++ g4.1,
        record {
          input_count = length input;
          output_count = length out;
          merge_count = st.merge_count + g3.2 + g4.2;
          auto_suppressed_count = count_suppressed out;
        },
      )

  -- `none` is a panic of gate 1.
  unfoldable pub process :
      (Bytes → Bytes) → (ℕ → Net) → List Finding → Option (List Finding × List MergeRecord × Stats)
  unfolding from_history gate1 empty_gate finish
  process digest nets input =
      let h = from_history layer input in
      elim (gate1 digest h.survivors (empty_gate h.records h.merge_count)) [
        | none ↦ none
        | some st ↦ some (finish nets input st)
      ]
