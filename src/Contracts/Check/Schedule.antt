-- ===== src/Contracts/Check/Schedule.antt =====
-- CheckAll of internal/semantic/contracts/check.go: the order of the goroutines does not matter.
use zero_trust_sh.Prelude.{
  ℕ, zero, suc, ◌<◌, ◌≤◌, List, [], ◌∷◌, Option, none, some, map, arith, length,
}
use zero_trust_sh.Prelude.{
  ◌≡◌, ◌≢◌, refl, sym, ◌∙◌, ap, get_elem?, set, Member, ◌⊎◌, inl, inr, Option-cases, ==_iff, ◌==◌,
  Bool-cases, ltb, ltb→lt, false,
}
use zero_trust_sh.Surface.{EnrichedSurface}
use zero_trust_sh.Contracts.{Result, Checker}
use zero_trust_sh.Contracts.Check.{check, write_result, run_schedule, check_all}

module _ {A : Type 0} where
  get_elem?-set_same :
      (xs : List A) (i : ℕ) (v : A) → i < length xs → get_elem? (set xs i v) i ≡ some v
  get_elem?-set_same [] i v h = absurd (omega (arith, h))
  get_elem?-set_same (x ∷ xs) zero v h = refl
  get_elem?-set_same (x ∷ xs) (suc i) v h = get_elem?-set_same xs i v (omega (arith, h))

  get_elem?-set_other :
      (xs : List A) (i j : ℕ) (v : A) → i ≢ j → get_elem? (set xs i v) j ≡ get_elem? xs j
  get_elem?-set_other [] i j v h = refl
  get_elem?-set_other (x ∷ xs) zero zero v h = absurd (h refl)
  get_elem?-set_other (x ∷ xs) zero (suc j) v h = refl
  get_elem?-set_other (x ∷ xs) (suc i) zero v h = refl
  get_elem?-set_other (x ∷ xs) (suc i) (suc j) v h =
      get_elem?-set_other xs i j v (λ e. h (ap suc e))

  length-set : (xs : List A) (i : ℕ) (v : A) → length (set xs i v) ≡ length xs
  length-set [] i v = refl
  length-set (x ∷ xs) zero v = refl
  length-set (x ∷ xs) (suc i) v = ap suc (length-set xs i v)

  get_elem?-some-lt : (xs : List A) (i : ℕ) (a : A) → get_elem? xs i ≡ some a → i < length xs
  get_elem?-some-lt [] i a h = cc
  get_elem?-some-lt (x ∷ xs) zero a h = omega arith
  get_elem?-some-lt (x ∷ xs) (suc i) a h = omega (arith, get_elem?-some-lt xs i a h)

  get_elem?-none : (xs : List A) (i : ℕ) → length xs ≤ i → get_elem? xs i ≡ none
  get_elem?-none [] i h = refl
  get_elem?-none (x ∷ xs) zero h = absurd (omega (arith, h))
  get_elem?-none (x ∷ xs) (suc i) h = get_elem?-none xs i (omega (arith, h))

  get_elem?-none-le : (xs : List A) (i : ℕ) → get_elem? xs i ≡ none → length xs ≤ i
  get_elem?-none-le [] i h = omega arith
  get_elem?-none-le (x ∷ xs) zero h = cc
  get_elem?-none-le (x ∷ xs) (suc i) h = omega (arith, get_elem?-none-le xs i h)

  list_ext : (xs ys : List A) → ((i : ℕ) → get_elem? xs i ≡ get_elem? ys i) → xs ≡ ys
  list_ext [] [] h = refl
  list_ext [] (y ∷ ys) h = cc (h 0)
  list_ext (x ∷ xs) [] h = cc (h 0)
  list_ext (x ∷ xs) (y ∷ ys) h = cc (h 0, list_ext xs ys (λ i. h (suc i)))

differ : (i j : ℕ) → (i == j) ≡ false → i ≢ j
differ i j h = ground arith

not_below : (i n : ℕ) → ltb i n ≡ false → n ≤ i
not_below i n h = ground arith

get_elem?-map :
    {A B : Type 0} (f : A → B) (xs : List A) (i : ℕ) (a : A)
    → get_elem? xs i ≡ some a
    → get_elem? (map f xs) i ≡ some (f a)
get_elem?-map f [] i a h = cc
get_elem?-map f (x ∷ xs) zero a h = cc
get_elem?-map f (x ∷ xs) (suc i) a h = get_elem?-map f xs i a h

length-map : {A B : Type 0} (f : A → B) (xs : List A) → length (map f xs) ≡ length xs
length-map f [] = refl
length-map f (x ∷ xs) = ap suc (length-map f xs)

-- Slot `i` holds the result of surface `i`.
module _ (checker : Checker) (surfaces : List EnrichedSurface) where
  checked : EnrichedSurface → Option Result
  checked surface = some (check checker surface)

  abbrev Done : ℕ → List (Option Result) → Type 0
  Done i results = get_elem? results i ≡ get_elem? (map checked surfaces) i

  write-none :
      (i : ℕ) (results : List (Option Result))
      → get_elem? surfaces i ≡ none
      → write_result checker surfaces i results ≡ results
  unfolding write_result
  write-none i results e = rw (e, write_result) refl

  write-some :
      (i : ℕ) (results : List (Option Result)) (surface : EnrichedSurface)
      → get_elem? surfaces i ≡ some surface
      → write_result checker surfaces i results ≡ set results i (checked surface)
  unfolding write_result checked
  write-some i results surface e = rw (e, write_result) refl

  length-write :
      (i : ℕ) (results : List (Option Result))
      → length (write_result checker surfaces i results) ≡ length results
  length-write i results = elim (Option-cases (get_elem? surfaces i)) [
    | inl e ↦ ap length (write-none i results e)
    | inr (surface, e) ↦
        ap length (write-some i results surface e) ∙ length-set results i (checked surface)
  ]

  write_same :
      (i : ℕ) (results : List (Option Result)) (surface : EnrichedSurface)
      → length results ≡ length surfaces
      → get_elem? surfaces i ≡ some surface
      → Done i (set results i (checked surface))
  write_same i results surface l e =
      get_elem?-set_same results i (checked surface)
        (omega (arith, l, get_elem?-some-lt surfaces i surface e))
      ∙ sym (get_elem?-map checked surfaces i surface e)

  -- One write settles the slot of its surface and keeps the settled ones.
  write-Done :
      (i j : ℕ) (results : List (Option Result))
      → length results ≡ length surfaces
      → (i ≡ j) ⊎ Done j results
      → Done j (write_result checker surfaces i results)
  write-Done i j results l h = elim (Option-cases (get_elem? surfaces i)) [
    | inl e ↦ rw (write-none i results e) (elim h [
      | inr done ↦ done
      | inl same ↦ rw (sym same) (
          get_elem?-none results i (omega (arith, l, get_elem?-none-le surfaces i e))
          ∙ sym (
              get_elem?-none (map checked surfaces) i
                (omega (arith, length-map checked surfaces, get_elem?-none-le surfaces i e))))
    ])
    | inr (surface, e) ↦ rw (write-some i results surface e) (elim (Bool-cases (i == j)) [
      | inl same ↦ rw (sym ((==_iff i j).0 same)) (write_same i results surface l e)
      | inr other ↦ elim h [
        | inl same ↦ rw (sym same) (write_same i results surface l e)
        | inr done ↦ get_elem?-set_other results i j (checked surface) (differ i j other) ∙ done
      ]
    ])
  ]

  run-Done :
      (schedule : List ℕ) (j : ℕ) (results : List (Option Result))
      → length results ≡ length surfaces
      → Member j schedule ⊎ Done j results
      → Done j (run_schedule checker surfaces schedule results)
  unfolding run_schedule
  run-Done [] j results l h = elim h [ inl m ↦ absurd m | inr done ↦ done ]
  run-Done (i ∷ schedule) j results l h =
      run-Done schedule j (write_result checker surfaces i results) (length-write i results ∙ l)
        (elim h [
          | inl m ↦ elim m [
            | inl same ↦ inr (write-Done i j results l (inl same))
            | inr later ↦ inl later
          ]
          | inr done ↦ inr (write-Done i j results l (inr done))
        ])

-- Whatever the order in which the goroutines write, once or more often, if each surface's goroutine
-- has run then CheckAll returns the results of Check in the order of the surfaces.
pub check_all-map :
    (checker : Checker) (surfaces : List EnrichedSurface) (schedule : List ℕ)
    → ((i : ℕ) → i < length surfaces → Member i schedule)
    → check_all checker surfaces schedule ≡ map (λ surface. some (check checker surface)) surfaces
unfolding check_all checked
check_all-map checker surfaces schedule every =
    list_ext (check_all checker surfaces schedule) (map (checked checker surfaces) surfaces) (λ i.
      run-Done checker surfaces schedule i (map (λ surface. none) surfaces)
        (length-map (λ surface. none) surfaces)
        (elim (Bool-cases (ltb i (length surfaces))) [
          | inl h ↦ inl (every i (ltb→lt i (length surfaces) h))
          | inr h ↦ inr (
              get_elem?-none (map (λ surface. none) surfaces) i (
                omega (
                  arith,
                  length-map {A = EnrichedSurface} {B = Option Result} (λ surface. none) surfaces,
                  not_below i (length surfaces) h,
                ))
              ∙ sym (
                  get_elem?-none (map (checked checker surfaces) surfaces) i (
                    omega (
                      arith,
                      length-map (checked checker surfaces) surfaces,
                      not_below i (length surfaces) h,
                    ))))
        ]))
