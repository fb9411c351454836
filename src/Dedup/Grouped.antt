-- ===== src/Dedup/Grouped.antt =====
-- What gate 1 computes, without its map: each finding is absorbed by the first survivor of its key,
-- or becomes a survivor itself.
pub mod Index
pub mod Refine
pub mod Keys
use zero_trust_sh.Prelude.{◌∷◌, [], List, if◌then◌else◌}
use zero_trust_sh.Prelude.Text.{Bytes, str_eq}
use zero_trust_sh.Finding.{Finding}
use zero_trust_sh.Dedup.{exact_key, gate1_key, merge}

module _ (digest : Bytes → Bytes) where
  unfoldable pub absorb : Finding → List Finding → List Finding
  absorb f [] = f ∷ []
  absorb f (g ∷ gs) =
      let rest = absorb f gs in
      if str_eq (gate1_key digest g) (gate1_key digest f)
      then (merge g f exact_key).0 ∷ gs
      else g ∷ rest

  unfoldable pub grouped : List Finding → List Finding → List Finding
  grouped [] out = out
  grouped (f ∷ fs) out = grouped fs (absorb f out)
