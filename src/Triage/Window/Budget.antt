-- ===== src/Triage/Window/Budget.antt =====
-- The loop of truncateAroundLine of internal/semantic/triage/triage.go ends, within its budget.
use zero_trust_sh.Prelude.{
  ℕ, zero, suc, ◌+◌, ◌-◌, ◌≤◌, ◌<◌, true, false, ◌||◌, List, ◌∷◌, some, ◌≡◌, ◌⊎◌, refl, sym, arith,
  inl, inr, length, Bool-cases,
}
use zero_trust_sh.Prelude.Text.{Bytes}
use zero_trust_sh.Triage.Window.{
  line_at, Window, fits_below, fits_above, grow_below, grow_above, grow, clamp, start_at, window_of,
}
use zero_trust_sh.Triage.Window.Joined.{joined, joined-start, joined-below, joined-above}

-- The window holds the target line, counts its bytes, and keeps to the budget once it is more than that line.
pub record IsWindow (lines : List Bytes) (budget target : ℕ) (w : Window) : Type 0 where
  pub above : w.lo ≤ target
  pub below : target ≤ w.hi
  pub inside : w.hi < length lines
  pub counted : w.size ≡ joined lines w.lo w.hi
  pub bound : (w.size ≤ budget) ⊎ ((w.lo ≡ target) × (w.hi ≡ target))

module _ (lines : List Bytes) (budget target : ℕ) where
  grow_below-IsWindow :
      (w : Window)
      → IsWindow lines budget target w
      → IsWindow lines budget target (grow_below lines budget w)
  unfolding grow_below fits_below
  grow_below-IsWindow w h = elim (Bool-cases (fits_below lines budget w)) [
    | inr e ↦ rw e h
    | inl e ↦
        let le : w.lo ≤ w.hi = omega (arith, h.above, h.below) in
        let room : w.hi + 1 < length lines = ground arith in
        let fits : w.size + length (line_at lines (w.hi + 1)) + 1 ≤ budget = ground arith in
        let more = joined-below lines w.lo w.hi le room in
        rw e (record {
          above = h.above;
          below = omega (arith, h.below);
          inside = room;
          counted = omega (arith, h.counted, more);
          bound = inl (omega (arith, fits));
        })
  ]

  grow_above-IsWindow :
      (w : Window)
      → IsWindow lines budget target w
      → IsWindow lines budget target (grow_above lines budget w)
  unfolding grow_above fits_above
  grow_above-IsWindow w h = elim (Bool-cases (fits_above lines budget w)) [
    | inr e ↦ rw e h
    | inl e ↦
        let le : w.lo ≤ w.hi = omega (arith, h.above, h.below) in
        let room : 1 ≤ w.lo = ground arith in
        let fits : w.size + length (line_at lines (w.lo - 1)) + 1 ≤ budget = ground arith in
        let more = joined-above lines w.lo w.hi room le h.inside in
        rw e (record {
          above = omega (arith, h.above);
          below = h.below;
          inside = h.inside;
          counted = omega (arith, h.counted, more);
          bound = inl (omega (arith, fits));
        })
  ]

  -- The lines outside the window.
  abbrev left_over : Window → ℕ
  left_over w = (length lines - suc w.hi) + w.lo

  left_over-below :
      (w : Window)
      → (left_over (grow_below lines budget w) ≤ left_over w)
        × ((fits_below lines budget w ≡ false)
            ⊎ (left_over (grow_below lines budget w) < left_over w))
  unfolding grow_below fits_below
  left_over-below w = elim (Bool-cases (fits_below lines budget w)) [
    | inr e ↦ rw e (omega arith, inl refl)
    | inl e ↦
        let room : w.hi + 1 < length lines = ground arith in
        rw e (omega (arith, room), inr (omega (arith, room)))
  ]

  left_over-above :
      (w : Window)
      → (left_over (grow_above lines budget w) ≤ left_over w)
        × ((fits_above lines budget w ≡ false)
            ⊎ (left_over (grow_above lines budget w) < left_over w))
  unfolding grow_above fits_above
  left_over-above w = elim (Bool-cases (fits_above lines budget w)) [
    | inr e ↦ rw e (omega arith, inl refl)
    | inl e ↦
        let room : 1 ≤ w.lo = ground arith in rw e (omega (arith, room), inr (omega (arith, room)))
  ]

  left_over-grown :
      (w : Window)
      → (fits_below lines budget w || fits_above lines budget (grow_below lines budget w)) ≡ true
      → left_over (grow_above lines budget (grow_below lines budget w)) < left_over w
  left_over-grown w h =
      let (a, b) = left_over-below w in
      let (c, d) = left_over-above (grow_below lines budget w) in
      elim b [
        | inr less ↦ omega (arith, less, c)
        | inl stuck ↦ elim d [ inr less ↦ omega (arith, less, a) | inl nor ↦ absurd (ground arith) ]
      ]

  grow-ends :
      (fuel : ℕ) (w : Window)
      → IsWindow lines budget target w
      → left_over w < fuel
      → (out : Window) × (grow lines budget fuel w ≡ some out)
        × IsWindow lines budget target out
        × (fits_below lines budget out ≡ false)
        × (fits_above lines budget out ≡ false)
  unfolding grow grow_below
  grow-ends zero w h m = absurd (omega (arith, m))
  grow-ends (suc fuel) w h m =
      elim (Bool-cases
        (fits_below lines budget w || fits_above lines budget (grow_below lines budget w))) [
          | inl e ↦
              let next = grow_above lines budget (grow_below lines budget w) in
              let inv = grow_above-IsWindow (grow_below lines budget w) (grow_below-IsWindow w h) in
              let less = left_over-grown w e in
              rw (e, grow) (grow-ends fuel next inv (omega (arith, less, m)))
          | inr e ↦
              let stuck : fits_below lines budget w ≡ false = ground arith in
              let nor : fits_above lines budget (grow_below lines budget w) ≡ false =
                ground arith in
              rw (e, grow) (w, refl, h, stuck, rw (stuck, grow_below) at nor)
        ]

clamp-inside :
    (first : Bytes) (rest : List Bytes) (target : ℕ)
    → clamp (first ∷ rest) target < length (first ∷ rest)
unfolding clamp
clamp-inside first rest target = ground arith

-- The loop of truncateAroundLine ends on every text: its window holds the target line (the last line where the target lies
-- behind it), its joined lines have at most `budget` bytes unless it is that line alone, and neither the
-- line above nor the line below would still fit.
pub window_of-IsWindow :
    (first : Bytes) (rest : List Bytes) (target budget : ℕ)
    → (w : Window) × (window_of (first ∷ rest) target budget ≡ some w)
      × IsWindow (first ∷ rest) budget (clamp (first ∷ rest) target) w
      × (fits_below (first ∷ rest) budget w ≡ false)
      × (fits_above (first ∷ rest) budget w ≡ false)
unfolding window_of start_at
window_of-IsWindow first rest target budget =
    let t = clamp (first ∷ rest) target in
    let inside = clamp-inside first rest target in
    grow-ends (first ∷ rest) budget t (length (first ∷ rest)) (start_at (first ∷ rest) t)
      (record {
        above = omega arith;
        below = omega arith;
        inside = inside;
        counted = sym (joined-start (first ∷ rest) t inside);
        bound = inr (refl, refl);
      })
      (omega (arith, inside))
