-- ===== src/Targeting/Select/Order.antt =====
-- The order in which Run of internal/semantic/targeting/targeting.go gives the surfaces.
use zero_trust_sh.Prelude.{List, [], ◌∷◌, false, All, ◌≡◌, inl, inr, Bool-cases, ℕ, ◌<◌, ◌⊎◌}
use zero_trust_sh.Prelude.Path.{bytes_lt}
use zero_trust_sh.Surface.{Surface, SurfaceKind, external_input, auth_boundary, idor_candidate}
use zero_trust_sh.Targeting.Select.{comes_before, place, sorted}

-- Whatever stands further back does not come before what stands further ahead.
abbrev Sorted : List Surface → Type 0
Sorted [] = Unit
Sorted (s ∷ ss) = All (λ t. comes_before t s ≡ false) ss × Sorted ss

All-place :
    (P : Surface → Type 0) (s : Surface) (ss : List Surface) → P s → All P ss → All P (place s ss)
unfolding place
All-place P s [] p h = (p, tt)
All-place P s (t ∷ ts) p h = elim (Bool-cases (comes_before t s)) [
  | inl e ↦ rw e (h.0, All-place P s ts p h.1)
  | inr e ↦ rw e (p, h)
]

pub All-sorted : (P : Surface → Type 0) (ss : List Surface) → All P ss → All P (sorted ss)
unfolding sorted
All-sorted P [] h = tt
All-sorted P (s ∷ ss) h = All-place P s (sorted ss) h.0 (All-sorted P ss h.1)

-- Candidates for IDOR stand first, then authentication boundaries, then external inputs, then the rest.
abbrev pub rank_of : SurfaceKind → ℕ
rank_of idor_candidate = 0
rank_of auth_boundary = 1
rank_of external_input = 2
rank_of _ = 3

-- `s` may stand before `t`: its kind ranks before that of `t`; or as high, and it is nearer to a source; or as near, and
-- the id of `t` is not the smaller one.
abbrev pub Precedes : Surface → Surface → Type 0
Precedes s t =
    (rank_of s.kind < rank_of t.kind)
    ⊎ ((rank_of s.kind ≡ rank_of t.kind)
        × ((s.call_graph_depth < t.call_graph_depth)
            ⊎ ((s.call_graph_depth ≡ t.call_graph_depth) × (bytes_lt t.id s.id ≡ false))))

-- Every surface of the list may stand before all that stand behind it.
abbrev pub Ordered : List Surface → Type 0
Ordered [] = Unit
Ordered (s ∷ ss) = All (Precedes s) ss × Ordered ss
