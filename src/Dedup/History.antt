-- ===== src/Dedup/History.antt =====
-- dedupHistorical of internal/dedup/dedup.go: findings that the store already holds with the same
-- verdict are dropped. `walk` is what WalkFindingSnapshots of the database yields in order.
pub mod Laws
use zero_trust_sh.Prelude.{
  ℕ, suc, ◌++◌, ◌∷◌, [], List, Bool, true, false, ◌&&◌, Option, none, some, if◌then◌else◌, ◌==◌,
}
use zero_trust_sh.Prelude.Text.{Bytes, str_eq}
use zero_trust_sh.Prelude.Assoc.{lookup, insert}
use zero_trust_sh.Prelude.Float.{Float64}
use zero_trust_sh.Finding.{Finding, to_string}
use zero_trust_sh.Dedup.{MergeRecord, historical}

-- FindingSnapshot of pkg/postgres/findings.go.
pub record Snapshot : Type 0 where
  pub severity : Bytes
  pub confidence : Float64
  pub suppress_reason : Bytes

-- The map that the walk fills; a later row of an id replaces an earlier one.
unfoldable pub known_from :
    List (Bytes × Snapshot) → List (Bytes × Snapshot) → List (Bytes × Snapshot)
unfolding insert
known_from [] known = known
known_from ((id, snap) ∷ rows) known = known_from rows (insert id snap known)

unfoldable pub same_verdict : Option Snapshot → Finding → Bool
unfolding str_eq to_string
same_verdict none f = false
same_verdict (some prior) f =
    str_eq prior.severity (to_string f.severity_label)
    && (prior.confidence == f.confidence && str_eq prior.suppress_reason f.suppress_reason)

unfoldable pub is_unchanged : List (Bytes × Snapshot) → Finding → Bool
unfolding same_verdict lookup
is_unchanged known f = same_verdict (lookup f.id known) f

unfoldable pub historical_record : Finding → MergeRecord
historical_record f = record {
  kept_id = f.id;
  dropped_id = f.id;
  strategy = historical;
  cross_path_boost_applied = false;
}

pub record Filtered : Type 0 where
  pub survivors : List Finding
  pub records : List MergeRecord
  pub merge_count : ℕ

-- One round of the loop.
unfoldable pub filter_step : List (Bytes × Snapshot) → Finding → Filtered → Filtered
unfolding is_unchanged historical_record
filter_step known f st =
    if is_unchanged known f
    then record st {
      records = st.records ++ historical_record f ∷ [];
      merge_count = suc st.merge_count;
    }
    else record st { survivors = st.survivors ++ f ∷ [] }

unfoldable pub filter_from : List (Bytes × Snapshot) → List Finding → Filtered → Filtered
unfolding filter_step
filter_from known [] st = st
filter_from known (f ∷ fs) st = filter_from known fs (filter_step known f st)

-- `none` is a query that failed: the scan goes on without the history.
unfoldable pub dedup_historical : Option (List (Bytes × Snapshot)) → List Finding → Filtered
unfolding filter_from known_from
dedup_historical none input = record { survivors = input; records = []; merge_count = 0 }
dedup_historical (some rows) input =
    filter_from (known_from rows []) input
      (record { survivors = []; records = []; merge_count = 0 })
