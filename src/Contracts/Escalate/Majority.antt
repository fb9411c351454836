-- ===== src/Contracts/Escalate/Majority.antt =====
-- The vote of escalate in internal/semantic/contracts/check.go: what its counters mean.
use zero_trust_sh.Prelude.{ℕ, zero, suc, ◌+◌, ◌<◌, Bool, true, false, not, List, [], ◌∷◌, ◌++◌}
use zero_trust_sh.Prelude.{
  ◌≡◌, refl, ◌↔◌, leb, ap, length-append, if◌then◌else◌, length, count, Option, none, some, arith,
}
use zero_trust_sh.Prelude.{Bool-cases, inl, inr, ◌⊎◌}
use zero_trust_sh.Prelude.Text.{Bytes, codes}
use zero_trust_sh.Prelude.Words.{truncate_utf8}
use zero_trust_sh.Surface.{EnrichedSurface}
use zero_trust_sh.Contracts.{Invariant, safe, violation, PromptData, Checker}
use zero_trust_sh.Contracts.Source.{first_match, violation_evidence}
use zero_trust_sh.Contracts.Escalate.{
  answers_yes, Votes, vote, draw, escalation_samples, shown_code, prompt_data, decide, unless_empty,
  escalate,
}

-- What the samples say, counted apart from the loop.
abbrev pub says : Bool → Option Bytes → Bool
says b none = false
says b (some resp) = elim b [ true ↦ answers_yes resp | false ↦ not (answers_yes resp) ]

abbrev pub samples : (ℕ → Option Bytes) → ℕ → List (Option Bytes)
samples generate zero = []
samples generate (suc i) = generate i ∷ samples generate i

vote-yes : (v : Votes) (s : Option Bytes) → (vote v s).yes ≡ count (says true) (s ∷ []) + v.yes
unfolding vote count
vote-yes v none = omega arith
vote-yes v (some resp) = elim (Bool-cases (answers_yes resp)) [
  | inl e ↦ rw (e, vote) (omega arith)
  | inr e ↦ rw (e, vote) (omega arith)
]

vote-no : (v : Votes) (s : Option Bytes) → (vote v s).no ≡ count (says false) (s ∷ []) + v.no
unfolding vote count
vote-no v none = omega arith
vote-no v (some resp) = elim (Bool-cases (answers_yes resp)) [
  | inl e ↦ rw (e, vote) (omega arith)
  | inr e ↦ rw (e, vote) (omega arith)
]

count-cons {ℓ} :
    {A : Type ℓ} (p : A → Bool) (x : A) (xs : List A)
    → count p (x ∷ xs) ≡ count p (x ∷ []) + count p xs
unfolding count
count-cons p x xs = elim (Bool-cases (p x)) [
  | inl e ↦ rw e (omega arith)
  | inr e ↦ rw e (omega arith)
]

-- The loop's two counters are the numbers of samples that say YES and that do not.
pub draw-counts :
    (generate : ℕ → Option Bytes) (n : ℕ)
    → ((draw generate n).yes ≡ count (says true) (samples generate n))
      × ((draw generate n).no ≡ count (says false) (samples generate n))
unfolding draw
draw-counts generate zero = unfold count in (refl, refl)
draw-counts generate (suc i) =
    let rest = draw-counts generate i in
    (
      omega (
        arith,
        vote-yes (draw generate i) (generate i),
        count-cons (says true) (generate i) (samples generate i),
        rest.0,
      ),
      omega (
        arith,
        vote-no (draw generate i) (generate i),
        count-cons (says false) (generate i) (samples generate i),
        rest.1,
      ),
    )

decide-safe :
    (cwe evidence : Bytes) (v : Votes) → ((decide cwe evidence v).0 ≡ safe) ↔ (v.no < v.yes)
unfolding decide
decide-safe cwe evidence v = ground arith

decide-cases :
    (cwe evidence : Bytes) (v : Votes)
    → ((decide cwe evidence v).0 ≡ safe) ⊎ ((decide cwe evidence v).0 ≡ violation)
unfolding decide
decide-cases cwe evidence v = ground arith

long_code : (code : Bytes) → leb (length code) 1500 ≡ false → 1500 < length code
long_code code h = ground arith

majority_trans :
    {S : Type 0} {m n yes no a b : ℕ}
    → S ↔ ((0 < m) × (no < yes))
    → (0 < m) ↔ (0 < n)
    → yes ≡ a
    → no ≡ b
    → S ↔ ((0 < n) × (b < a))
majority_trans s h ha hb = (
  λ x. (h.0 ((s.0 x).0), omega (arith, (s.0 x).1, ha, hb)),
  λ y. s.1 (h.1 (y.0), omega (arith, y.1, ha, hb)),
)

shown_code_if :
    (code : Bytes) (b : Bool)
    → leb (length code) 1500 ≡ b
    → shown_code code ≡ (if b then code else truncate_utf8 code 1500 ++ 10 ∷ codes "...[truncated]")
unfolding shown_code
shown_code_if code b h =
    ap (λ t. if t then code else truncate_utf8 code 1500 ++ 10 ∷ codes "...[truncated]") h

length-shown_code : (code : Bytes) → (0 < length (shown_code code)) ↔ (0 < length code)
length-shown_code code = elim (Bool-cases (leb (length code) 1500)) [
  | inl fits ↦ rw (shown_code_if code true fits) (λ h. h, λ h. h)
  | inr long ↦
      let e = ap length (shown_code_if code false long) in
      let l = length-append (truncate_utf8 code 1500) (10 ∷ codes "...[truncated]") in
      let n = long_code code long in (λ h. omega (arith, n), λ h. omega (arith, e, l))
]

unless_empty-safe :
    (s cwe evidence : Bytes) (v : Votes)
    → ((unless_empty s (violation, evidence) (decide cwe evidence v)).0 ≡ safe)
      ↔ ((0 < length s) × (v.no < v.yes))
unfolding unless_empty
unless_empty-safe [] cwe evidence v = ground arith
unless_empty-safe (c ∷ s) cwe evidence v = ground (arith, decide-safe cwe evidence v)

unless_empty-cases :
    (s cwe evidence : Bytes) (v : Votes)
    → let verdict = (unless_empty s (violation, evidence) (decide cwe evidence v)).0 in
      (verdict ≡ safe) ⊎ (verdict ≡ violation)
unfolding unless_empty
unless_empty-cases [] cwe evidence v = inr refl
unless_empty-cases (c ∷ s) cwe evidence v = decide-cases cwe evidence v

-- The escalation says SAFE exactly if there is code to show and more of the samples say YES than
-- do not, a failed sample being on neither side; else it says VIOLATION.
pub escalate-majority :
    (checker : Checker) (generate : PromptData → ℕ → Option Bytes) (surface : EnrichedSurface)
    (inv : Invariant) (cwe : Bytes)
    → let answers = samples (generate (prompt_data checker surface inv cwe)) escalation_samples in
      let verdict = (escalate checker generate surface inv cwe).0 in
      ((verdict ≡ safe)
        ↔ ((0 < length (surface.code)) × (count (says false) answers < count (says true) answers)))
      × ((verdict ≡ safe) ⊎ (verdict ≡ violation))
escalate-majority checker generate surface inv cwe =
    let evidence =
      violation_evidence (inv.name) (first_match (inv.sink_anchors) (surface.sink_nodes)) in
    let votes = draw (generate (prompt_data checker surface inv cwe)) escalation_samples in
    let counts = draw-counts (generate (prompt_data checker surface inv cwe)) escalation_samples in
    let shown = length-shown_code (surface.code) in
    let decided = unless_empty-safe (shown_code (surface.code)) cwe evidence votes in
    unfold escalate in
    (
      majority_trans decided shown (counts.0) (counts.1),
      unless_empty-cases (shown_code (surface.code)) cwe evidence votes,
    )
