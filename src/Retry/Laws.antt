-- ===== src/Retry/Laws.antt =====
-- What the repeated calls of pkg/llm/retry.go give.
use zero_trust_sh.Prelude.{
  ℕ, zero, suc, ◌+◌, ◌-◌, ◌≤◌, ◌<◌, Bool, true, false, not, Option, none, some, arith,
}
use zero_trust_sh.Prelude.{
  ◌≡◌, refl, sym, ◌∙◌, ap, ◌⊎◌, inl, inr, Bool-cases, ==_iff, ◌==◌, ltb, ◌&&◌, if◌then◌else◌,
}
use zero_trust_sh.Retry.{
  RetryConfig, CallError, retryable, Outcome, answer, failed, with_retry, error_of, last_outcome,
  react, attempts, generate,
}

-- A call that the loop repeats.
abbrev pub transient : {A : Type 0} → Outcome A → Bool
transient (answer a) = false
transient (failed e) = retryable e

module _ {A : Type 0} (call : ℕ → Outcome A) (wait_ok : ℕ → Bool) where
  -- The outcome is that of the last call, of at most `total`. All earlier ones failed with a retryable error, and the
  -- loop ended because the last one did not, the wait was cut short, or all attempts were used.
  abbrev pub Explains : ℕ → Option (Outcome A) × ℕ → Type 0
  Explains total r =
      (m : ℕ) × (r.1 ≡ suc m)
      × (suc m ≤ total)
      × (r.0 ≡ some (call m))
      × ((j : ℕ) → j < m → transient (call j) ≡ true)
      × ((transient (call m) ≡ false) ⊎ ((wait_ok (suc m) ≡ false) ⊎ (suc m ≡ total)))

  Explains-react :
      (total attempt : ℕ) (o : Outcome A) (rest : Option (Outcome A) × ℕ)
      → o ≡ call attempt
      → suc attempt ≤ total
      → ((j : ℕ) → j < attempt → transient (call j) ≡ true)
      → ((e : CallError) → o ≡ failed e → retryable e ≡ true → Explains total rest)
      → Explains total (react attempt o rest)
  unfolding react
  Explains-react total attempt (answer a) rest e within before later =
      (attempt, refl, within, ap some e, before, inl (ap transient (sym e)))
  Explains-react total attempt (failed err) rest e within before later =
      elim (Bool-cases (retryable err)) [
        | inl t ↦ rw (t, react) (later err refl t)
        | inr t ↦
            rw (t, react) (attempt, refl, within, ap some e, before, inl (ap transient (sym e) ∙ t))
      ]

  attempts-step :
      (attempt left : ℕ) (last_err : Option CallError) (b : Bool)
      → (ltb 0 attempt && not (wait_ok attempt)) ≡ b
      → attempts call wait_ok attempt (suc left) last_err ≡ (
          if b
          then (last_outcome last_err, attempt)
          else react attempt
              (call attempt)
              (attempts call wait_ok (suc attempt) left (error_of (call attempt))))
  unfolding attempts
  attempts-step attempt left last_err b h =
      ap
        (λ t.
          if t
          then (last_outcome last_err, attempt)
          else react attempt (call attempt)
              (attempts call wait_ok (suc attempt) left (error_of (call attempt))))
        h

  last-call :
      (o : Outcome A) (e : CallError) → o ≡ failed e → last_outcome {A = A} (error_of o) ≡ some o
  unfolding last_outcome error_of
  last-call (answer a) e h = cc
  last-call (failed f) e h = refl

  cut_short : (b : ℕ) → wait_ok (suc b) ≡ false → (ltb 0 (suc b) && not (wait_ok (suc b))) ≡ true
  cut_short b h = ground arith

  waited : (b : ℕ) → wait_ok (suc b) ≡ true → (ltb 0 (suc b) && not (wait_ok (suc b))) ≡ false
  waited b h = ground arith

  before-suc :
      (n : ℕ)
      → ((j : ℕ) → j < n → transient (call j) ≡ true)
      → transient (call n) ≡ true
      → (j : ℕ) → j < suc n
      → transient (call j) ≡ true
  before-suc n before h j lt = elim (Bool-cases (j == n)) [
    | inl same ↦ rw ((==_iff j n).0 same) h
    | inr other ↦ before j (smaller j n other lt)
  ]
    where
      smaller : (j n : ℕ) → (j == n) ≡ false → j < suc n → j < n
      smaller j n other lt = ground arith

  -- From the second attempt on.
  attempts-Explains :
      (total b left : ℕ) (last_err : Option CallError)
      → total ≡ suc b + left
      → last_outcome last_err ≡ some (call b)
      → ((j : ℕ) → j < suc b → transient (call j) ≡ true)
      → Explains total (attempts call wait_ok (suc b) left last_err)
  attempts-Explains total b zero last_err e last before =
      unfold attempts in
      (
        b,
        refl,
        omega (arith, e),
        last,
        λ j lt. before j (omega (arith, lt)),
        inr (inr (omega (arith, e))),
      )
  attempts-Explains total b (suc left) last_err e last before =
      elim (Bool-cases (wait_ok (suc b))) [
        | inr w ↦
            rw (attempts-step (suc b) left last_err true (cut_short b w))
              (b, refl, omega (arith, e), last, λ j lt. before j (omega (arith, lt)), inr (inl w))
        | inl w ↦ rw (attempts-step (suc b) left last_err false (waited b w)) (
            Explains-react total (suc b) (call (suc b))
              (attempts call wait_ok (suc (suc b)) left (error_of (call (suc b)))) refl
              (omega (arith, e)) before
              (λ err he t.
                attempts-Explains total (suc b) left (error_of (call (suc b))) (omega (arith, e))
                  (last-call (call (suc b)) err he)
                  (before-suc (suc b) before (ap transient he ∙ t))))
      ]

  attempts_lem : (n : ℕ) → Explains (suc n) (attempts call wait_ok 0 (suc n) none)
  attempts_lem n = rw (attempts-step 0 n none false refl) (
      Explains-react (suc n) 0 (call 0) (attempts call wait_ok 1 n (error_of (call 0))) refl
        (omega arith) (λ j lt. absurd (omega (arith, lt)))
        (λ err he t.
          attempts-Explains (suc n) 0 n (error_of (call 0)) (omega arith)
            (last-call (call 0) err he)
            (before-suc 0 (λ j lt. absurd (omega (arith, lt))) (ap transient he ∙ t))))

with_retry-positive : (cfg : RetryConfig) → (n : ℕ) × ((with_retry cfg).max_attempts ≡ suc n)
unfolding with_retry
with_retry-positive cfg = elim (Bool-cases (cfg.max_attempts == 0)) [
  | inl z ↦ rw z (2, refl)
  | inr p ↦ rw p (cfg.max_attempts - 1, positive (cfg.max_attempts) p)
]
  where
    positive : (m : ℕ) → (m == 0) ≡ false → m ≡ suc (m - 1)
    positive m p = ground arith

-- Under every configuration the provider makes at least one call and at most MaxAttempts (3 where
-- that is not positive), and returns the outcome of its last call, never the empty answer without
-- an error. Every earlier call failed with an error that may be retried: a blocked model, a
-- cancellation and an expired deadline end the loop at once. It stops before MaxAttempts calls only
-- for such an outcome or because the context was done while it waited.
pub generate-Explains :
    {A : Type 0} (cfg : RetryConfig) (call : ℕ → Outcome A) (wait_ok : ℕ → Bool)
    → Explains call wait_ok ((with_retry cfg).max_attempts) (generate cfg call wait_ok)
unfolding generate
generate-Explains cfg call wait_ok =
    let (n, e) = with_retry-positive cfg in rw e (attempts_lem call wait_ok n)
