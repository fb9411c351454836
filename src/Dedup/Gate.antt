-- ===== src/Dedup/Gate.antt =====
-- Gate 1 of internal/dedup/dedup.go: the loop over the findings with its map from keys to places
-- in the output, and the two later gates, which pass everything on (internal/dedup/gates.go).
use zero_trust_sh.Prelude.{ℕ, suc, ◌++◌, ◌∷◌, [], List, Option, none, some, length, get_elem?, set}
use zero_trust_sh.Prelude.Text.{Bytes}
use zero_trust_sh.Prelude.Assoc.{lookup, insert}
use zero_trust_sh.Finding.{Finding}
use zero_trust_sh.Dedup.{MergeRecord, exact_key, gate1_key, merge}

-- The variables of the loop.
pub record GateState : Type 0 where
  pub key_map : List (Bytes × ℕ)
  pub out : List Finding
  pub records : List MergeRecord
  pub merge_count : ℕ

unfoldable pub empty_gate : List MergeRecord → ℕ → GateState
empty_gate records merges = record {
  key_map = [];
  out = [];
  records = records;
  merge_count = merges;
}

-- The finding `g` at `idx` is merged with its duplicate `f`.
unfoldable pub merged_at : ℕ → Finding → Finding → GateState → GateState
merged_at idx g f st = record st {
  out = set st.out idx (merge g f exact_key).0;
  records = st.records ++ (merge g f exact_key).1 ∷ [];
  merge_count = suc st.merge_count;
}

-- `none` is the panic of an index out of range.
unfoldable pub merge_at : ℕ → Finding → GateState → Option GateState
unfolding merged_at
merge_at idx f st = elim (get_elem? st.out idx) [
  | none ↦ none
  | some g ↦ some (merged_at idx g f st)
]

module _ (digest : Bytes → Bytes) where
  unfoldable pub append_new : Finding → GateState → GateState
  append_new f st = record st {
    key_map = insert (gate1_key digest f) (length st.out) st.key_map;
    out = st.out ++ f ∷ [];
  }

  unfoldable pub gate1_step : Finding → GateState → Option GateState
  unfolding merge_at append_new
  gate1_step f st = elim (lookup (gate1_key digest f) st.key_map) [
    | none ↦ some (append_new f st)
    | some idx ↦ merge_at idx f st
  ]

  unfoldable pub gate1 : List Finding → GateState → Option GateState
  gate1 [] st = some st
  gate1 (f ∷ fs) st = elim (gate1_step f st) [ none ↦ none | some st' ↦ gate1 fs st' ]

-- The embedding gate is a stub: survivors, no records, no merges, no near misses.
unfoldable pub gate3 : List Finding → List Finding × List MergeRecord × ℕ × List (ℕ × ℕ)
gate3 [] = ([], [], 0, [])
gate3 (f ∷ fs) = (f ∷ fs, [], 0, [])

-- The edit-distance gate is a stub too.
unfoldable pub gate4 : List Finding → List (ℕ × ℕ) → List Finding × List MergeRecord × ℕ
gate4 survivors near_miss = (survivors, [], 0)
