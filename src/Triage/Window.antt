-- ===== src/Triage/Window.antt =====
-- truncateAroundLine of internal/semantic/triage/triage.go. Prompt gives the text; here is the window of lines.
pub mod Joined
pub mod Budget
use zero_trust_sh.Prelude.{
  ℕ, zero, suc, ◌+◌, ◌-◌, Bool, true, false, ◌&&◌, ◌||◌, List, [], ◌∷◌, ◌++◌, Option, none, some,
  if◌then◌else◌, ltb, leb, length, get_elem?, take, drop,
}
use zero_trust_sh.Prelude.Text.{Bytes, codes, split, join}

unfoldable pub or_empty : Option Bytes → Bytes
or_empty none = []
or_empty (some line) = line

-- lines[i]
unfoldable pub line_at : List Bytes → ℕ → Bytes
unfolding or_empty
line_at lines i = or_empty (get_elem? lines i)

pub record Window : Type 0 where
  pub lo : ℕ
  pub hi : ℕ
  pub size : ℕ

module _ (lines : List Bytes) (budget : ℕ) where
  unfoldable pub fits_below : Window → Bool
  unfolding line_at
  fits_below w =
      ltb (w.hi + 1) (length lines) && leb (w.size + length (line_at lines (w.hi + 1)) + 1) budget

  unfoldable pub fits_above : Window → Bool
  unfolding line_at
  fits_above w = leb 1 w.lo && leb (w.size + length (line_at lines (w.lo - 1)) + 1) budget

  unfoldable pub grow_below : Window → Window
  unfolding fits_below line_at
  grow_below w =
      if fits_below w
      then record {
        lo = w.lo;
        hi = w.hi + 1;
        size = w.size + (length (line_at lines (w.hi + 1)) + 1);
      }
      else w

  unfoldable pub grow_above : Window → Window
  unfolding fits_above line_at
  grow_above w =
      if fits_above w
      then record {
        lo = w.lo - 1;
        hi = w.hi;
        size = w.size + (length (line_at lines (w.lo - 1)) + 1);
      }
      else w

  -- The loop; `none` is fuel that does not suffice. A round that does not grow the window ends it.
  unfoldable pub grow : ℕ → Window → Option Window
  unfolding fits_below fits_above grow_below grow_above
  grow zero w = none
  grow (suc fuel) w = elim (fits_below w || fits_above (grow_below w)) [
    | true ↦ grow fuel (grow_above (grow_below w))
    | false ↦ some w
  ]

-- The target line within the lines.
unfoldable pub clamp : List Bytes → ℕ → ℕ
clamp lines target = if leb (length lines) target then length lines - 1 else target

unfoldable pub start_at : List Bytes → ℕ → Window
unfolding line_at
start_at lines target = record { lo = target; hi = target; size = length (line_at lines target) }

-- The window of the lines, with a round for each line.
unfoldable pub window_of : List Bytes → ℕ → ℕ → Option Window
unfolding grow clamp start_at
window_of lines target budget =
    grow lines budget (length lines) (start_at lines (clamp lines target))

unfoldable pub print_window : List Bytes → Option Window → Bytes
unfolding join
print_window lines none = []
print_window lines (some w) =
    (if ltb 0 w.lo then codes "... [truncated head]\n" else [])
    ++ (join (take ((w.hi + 1) - w.lo) (drop w.lo lines)) (codes "\n")
        ++ (if ltb (w.hi + 1) (length lines) then codes "\n... [truncated tail]" else []))

-- A target below 0 is 0 there, as it is in ℕ.
unfoldable pub truncate_around_line : Bytes → ℕ → ℕ → Bytes
unfolding split window_of print_window
truncate_around_line code target budget =
    print_window (split code 10) (window_of (split code 10) target budget)
