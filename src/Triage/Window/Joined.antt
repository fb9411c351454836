-- ===== src/Triage/Window/Joined.antt =====
-- The size that truncateAroundLine of internal/semantic/triage/triage.go counts is that of the joined lines.
use zero_trust_sh.Prelude.{
  ℕ, zero, suc, ◌+◌, ◌-◌, ◌≤◌, ◌<◌, List, [], ◌∷◌, ◌++◌, ◌≡◌, refl, ◌∙◌, ap, arith, length,
  length-append, take, drop,
}
use zero_trust_sh.Prelude.Text.{Bytes, codes, join}
use zero_trust_sh.Triage.Window.{or_empty, line_at}

-- The bytes of the lines lo to hi with the newlines between them.
unfoldable pub joined : List Bytes → ℕ → ℕ → ℕ
joined lines lo hi = length (join (take (suc hi - lo) (drop lo lines)) (codes "\n"))

drop-line_at :
    (lines : List Bytes) (i : ℕ)
    → i < length lines
    → drop i lines ≡ line_at lines i ∷ drop (suc i) lines
unfolding line_at or_empty
drop-line_at [] i h = absurd (omega (arith, h))
drop-line_at (x ∷ lines) zero h = refl
drop-line_at (x ∷ lines) (suc i) h = drop-line_at lines i (omega (arith, h))

line_at-drop : (lines : List Bytes) (lo k : ℕ) → line_at (drop lo lines) k ≡ line_at lines (lo + k)
unfolding line_at or_empty
line_at-drop lines zero k = let same : k ≡ zero + k = omega arith in ap (line_at lines) same
line_at-drop [] (suc lo) k = refl
line_at-drop (x ∷ lines) (suc lo) k =
    let same : suc (lo + k) ≡ suc lo + k = omega arith in
    line_at-drop lines lo k ∙ ap (line_at (x ∷ lines)) same

length-drop_add :
    (lines : List Bytes) (lo : ℕ) → lo ≤ length lines → length (drop lo lines) + lo ≡ length lines
length-drop_add lines zero h = omega arith
length-drop_add [] (suc lo) h = absurd (omega (arith, h))
length-drop_add (x ∷ lines) (suc lo) h = omega (arith, length-drop_add lines lo (omega (arith, h)))

join-cons :
    (x y : Bytes) (ys : List Bytes)
    → length (join (x ∷ y ∷ ys) (codes "\n")) ≡ length (join (y ∷ ys) (codes "\n")) + (length x + 1)
unfolding join
join-cons x y ys = omega (arith, length-append x (codes "\n" ++ join (y ∷ ys) (codes "\n")))

-- One line more at the end.
take-join :
    (lines : List Bytes) (k : ℕ)
    → suc k < length lines
    → length (join (take (suc (suc k)) lines) (codes "\n"))
      ≡ length (join (take (suc k) lines) (codes "\n")) + (length (line_at lines (suc k)) + 1)
unfolding join line_at or_empty
take-join [] k h = absurd (omega (arith, h))
take-join (x ∷ []) k h = absurd (omega (arith, h))
take-join (x ∷ y ∷ lines) zero h = omega (arith, join-cons x y [])
take-join (x ∷ y ∷ lines) (suc k) h = omega (
  arith,
  take-join (y ∷ lines) k (omega (arith, h)),
  join-cons x y (take (suc k) lines),
  join-cons x y (take k lines),
)

pub joined-start :
    (lines : List Bytes) (t : ℕ) → t < length lines → joined lines t t ≡ length (line_at lines t)
unfolding joined join
joined-start lines t h =
    let one : suc t - t ≡ 1 = omega arith in rw (one, drop-line_at lines t h) refl

pub joined-below :
    (lines : List Bytes) (lo hi : ℕ)
    → lo ≤ hi
    → hi + 1 < length lines
    → joined lines lo (hi + 1) ≡ joined lines lo hi + (length (line_at lines (hi + 1)) + 1)
unfolding joined
joined-below lines lo hi h m =
    let k = hi - lo in
    let two : suc (hi + 1) - lo ≡ suc (suc k) = omega (arith, h) in
    let one : suc hi - lo ≡ suc k = omega (arith, h) in
    let back : lo + suc k ≡ hi + 1 = omega (arith, h) in
    let more =
      take-join (drop lo lines) k
        (omega (arith, length-drop_add lines lo (omega (arith, h, m)), h, m)) in
    rw (two, one)
      (more
        ∙ ap (λ l. length (join (take (suc k) (drop lo lines)) (codes "\n")) + (length l + 1))
            (line_at-drop lines lo (suc k) ∙ ap (line_at lines) back))

pub joined-above :
    (lines : List Bytes) (lo hi : ℕ)
    → 1 ≤ lo
    → lo ≤ hi
    → hi < length lines
    → joined lines (lo - 1) hi ≡ joined lines lo hi + (length (line_at lines (lo - 1)) + 1)
unfolding joined join
joined-above lines zero hi l h m = absurd (omega (arith, l))
joined-above lines (suc lo) hi l h m =
    let two : suc hi - lo ≡ suc (suc (hi - suc lo)) = omega (arith, h) in
    let one : suc hi - suc lo ≡ suc (hi - suc lo) = omega (arith, h) in
    let pred : suc lo - 1 ≡ lo = omega arith in
    rw
      (
        pred,
        two,
        one,
        drop-line_at lines lo (omega (arith, h, m)),
        drop-line_at lines (suc lo) (omega (arith, h, m)),
      )
      (join-cons (line_at lines lo) (line_at lines (suc lo))
        (take (hi - suc lo) (drop (suc (suc lo)) lines)))
