-- ===== src/Dedup.antt =====
-- internal/dedup/dedup.go and internal/dedup/gates.go: the records of the layer, the key of gate 1
-- and the merge of two findings that were found to be duplicates.
pub mod Gate
pub mod Grouped
pub mod Merge
pub mod Score
pub mod Suppress
pub mod Sidecar
pub mod Ssvc
pub mod History
pub mod Process
pub mod Place
use zero_trust_sh.Prelude.{
  ℕ, ◌++◌, ◌∷◌, [], List, Bool, true, false, ◌&&◌, ◌||◌, if◌then◌else◌, ltb,
}
use zero_trust_sh.Prelude.Text.{Bytes, codes, itoa}
use zero_trust_sh.Finding.{Finding, source_both, is_pattern, is_semantic, is_both}

-- "historical" is the text that dedupHistorical writes.
pub data Strategy : Type 0 where
  exact_key embedding edit_distance historical : Strategy

pub record MergeRecord : Type 0 where
  pub kept_id : Bytes
  pub dropped_id : Bytes
  pub strategy : Strategy
  pub cross_path_boost_applied : Bool

pub record Stats : Type 0 where
  pub input_count : ℕ
  pub output_count : ℕ
  pub merge_count : ℕ
  pub auto_suppressed_count : ℕ

-- The text that gate 1 hashes: CWE, path and start line.
unfoldable pub gate1_raw : Finding → Bytes
unfolding itoa
gate1_raw f = f.cwe ++ (codes "|" ++ (f.path ++ (codes "|" ++ itoa f.line_range.start)))

-- `digest` is the first eight bytes of SHA-256 in hexadecimal, of the standard library.
unfoldable pub gate1_key : (Bytes → Bytes) → Finding → Bytes
unfolding gate1_raw
gate1_key digest f = digest (gate1_raw f)

unfoldable pub is_cross_path : Finding → Finding → Bool
is_cross_path a b =
    (is_pattern a.source_path && is_semantic b.source_path)
    || ((is_semantic a.source_path && is_pattern b.source_path)
        || (is_both a.source_path || is_both b.source_path))

-- The finding of higher confidence wins; a tie goes to the first.
unfoldable pub winner : Finding → Finding → Finding
winner a b = if ltb a.confidence b.confidence then b else a

unfoldable pub loser : Finding → Finding → Finding
loser a b = if ltb a.confidence b.confidence then a else b

mark_both : Bool → Finding → Finding
mark_both cross w = if cross then record w { source_path = source_both } else w

keep_pinned : Finding → Finding → Finding
keep_pinned l w =
    if l.severity_pinned
    then record w { severity_label = l.severity_label; severity_pinned = true }
    else w

unfoldable pub merge : Finding → Finding → Strategy → Finding × MergeRecord
unfolding is_cross_path winner loser mark_both keep_pinned
merge a b strategy = (
  keep_pinned (loser a b) (mark_both (is_cross_path a b) (winner a b)),
  record {
    kept_id = (winner a b).id;
    dropped_id = (loser a b).id;
    strategy = strategy;
    cross_path_boost_applied = is_cross_path a b;
  },
)
