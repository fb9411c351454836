-- ===== src/Dedup/Merge.antt =====
-- What the merge of two duplicates keeps.
use zero_trust_sh.Prelude.{◌≡◌, ◌⊎◌, ◌≤◌, arith, if◌then◌else◌, ◌||◌}
use zero_trust_sh.Finding.{Finding, source_both}
use zero_trust_sh.Dedup.{Strategy, merge, winner, loser, is_cross_path, gate1_raw, gate1_key}
use zero_trust_sh.Prelude.Text.{Bytes}

-- The merged finding stands where the winner stood, so its key is that of the winner.
pub gate1_raw-merge :
    (a b : Finding) (s : Strategy) → gate1_raw (merge a b s).0 ≡ gate1_raw (winner a b)
unfolding merge gate1_raw
gate1_raw-merge a b s = ground arith

pub gate1_key-merge :
    (digest : Bytes → Bytes) (a b : Finding) (s : Strategy)
    → gate1_key digest a ≡ gate1_key digest b
    → gate1_key digest (merge a b s).0 ≡ gate1_key digest a
unfolding gate1_key winner
gate1_key-merge digest a b s h = ground (arith, gate1_raw-merge a b s)

-- A merge keeps the higher confidence, and nothing of either finding is rated lower for it: both
-- confidences are at most the merged one, and it is one of the two.
pub merge-confidence :
    (a b : Finding) (s : Strategy)
    → let m = (merge a b s).0 in
      (a.confidence ≤ m.confidence)
      × (b.confidence ≤ m.confidence)
      × ((m.confidence ≡ a.confidence) ⊎ (m.confidence ≡ b.confidence))
unfolding merge
merge-confidence a b s = ground arith

-- A label that an upstream stage pinned survives a merge: where either finding is pinned, the
-- merged one is pinned with the label of a pinned finding, that of the loser where both are.
pub merge-pinned :
    (a b : Finding) (s : Strategy)
    → let m = (merge a b s).0 in
      (m.severity_pinned ≡ a.severity_pinned || b.severity_pinned)
      × (m.severity_label ≡ (
          if (loser a b).severity_pinned
          then (loser a b).severity_label
          else (winner a b).severity_label))
unfolding merge
merge-pinned a b s = ground arith

-- A finding is confirmed by both paths exactly when the two sides of the merge came from the two
-- paths, or one was confirmed before; the record of the merge says so too.
pub merge-source_path :
    (a b : Finding) (s : Strategy)
    → let c = is_cross_path a b in
      ((merge a b s).0.source_path ≡ (if c then source_both else (winner a b).source_path))
      × ((merge a b s).1.cross_path_boost_applied ≡ c)
unfolding merge
merge-source_path a b s = ground arith
