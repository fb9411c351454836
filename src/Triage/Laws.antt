-- ===== src/Triage/Laws.antt =====
-- Filter of internal/semantic/triage/triage.go: what is dropped, and the range of the scores.
use zero_trust_sh.Prelude.{
  ℕ, Bool, true, false, ◌&&◌, ◌||◌, ◌≤◌, ◌<◌, ◌*◌, ◌^◌, List, [], ◌∷◌, Option, none, some,
  if◌then◌else◌, ltb, leb, length, ◌≡◌, ◌↔◌, ◌⊎◌, refl, ap, arith, inl, inr, Bool-cases, All, map,
  ltb→lt,
}
use zero_trust_sh.Prelude.Text.{Bytes, codes, contains, to_upper}
use zero_trust_sh.Prelude.Words.{trim_space}
use zero_trust_sh.Prelude.Float.{Float64, FloatOps, IsFloat64}
use zero_trust_sh.Surface.{EnrichedSurface}
use zero_trust_sh.Triage.{drop_it, Result, Triager, judge, score_of, triage_one, filter}
use zero_trust_sh.Triage.Prompt.{build_triage_prompt}
use zero_trust_sh.Triage.Confidence.{
  category, category_line, from_marker, first_line, decimal_or_half, first_score, parse_confidence,
  safe_from,
}

-- The trimmed code has fewer than 50 bytes.
abbrev pub Stub : EnrichedSurface → Type 0
Stub s = length (trim_space s.code) < 50

-- The LLM answers, and the score of its answer is below the threshold.
abbrev pub Cleared : Triager → EnrichedSurface → Type 0
Cleared t s =
    (resp : Bytes) × (t.generate (t.render (build_triage_prompt s)) ≡ some resp)
    × (parse_confidence t.floats t.find_decimal resp < t.threshold)

abbrev Dropped : Triager → Result → Type 0
Dropped t r = (r.disposition ≡ drop_it) ↔ (Stub r.surface ⊎ Cleared t r.surface)

judge-Cleared :
    (t : Triager) (s : EnrichedSurface) (o : Option Bytes)
    → ((judge t s o).disposition ≡ drop_it) ↔ (
        (resp : Bytes) × (o ≡ some resp)
        × (parse_confidence t.floats t.find_decimal resp < t.threshold))
unfolding judge score_of
judge-Cleared t s none =
    let over : leb t.threshold t.threshold ≡ true = ground arith in
    (λ e. absurd (cc (rw over at e)), λ (resp, e, l). cc e)
judge-Cleared t s (some resp) =
    elim (Bool-cases (leb t.threshold (parse_confidence t.floats t.find_decimal resp))) [
      | inl e ↦ (
        λ d. absurd (cc (rw e at d)),
        λ (r, f, l). let same : resp ≡ r = cc f in absurd (ground arith),
      )
      | inr e ↦ (λ d. (resp, refl, ground arith), λ x. rw e refl)
    ]

not_lt : (a b : ℕ) → ltb a b ≡ false → a < b → ⊥
not_lt a b e h = ground arith

triage_one-Dropped : (t : Triager) (s : EnrichedSurface) → Dropped t (triage_one t s)
unfolding triage_one judge
triage_one-Dropped t s = elim (Bool-cases (ltb (length (trim_space s.code)) 50)) [
  | inl e ↦ rw e (λ d. inl (ltb→lt (length (trim_space s.code)) 50 e), λ x. refl)
  | inr e ↦
      let (a, b) = judge-Cleared t s (t.generate (t.render (build_triage_prompt s))) in
      rw e (
        λ d. inr (a d),
        λ x. elim x [
          | inl stub ↦ absurd (not_lt (length (trim_space s.code)) 50 e stub)
          | inr clear ↦ b clear
        ],
      )
]

triage_one-surface : (t : Triager) (s : EnrichedSurface) → (triage_one t s).surface ≡ s
unfolding triage_one judge
triage_one-surface t s = elim (Bool-cases (ltb (length (trim_space s.code)) 50)) [
  | inl e ↦ rw e refl
  | inr e ↦ rw e refl
]

-- Filter gives one result for each surface, in order, and drops a surface if and only if its trimmed code has fewer than
-- 50 bytes, or the LLM answers and the score of the answer is below the threshold. A failed call to the LLM
-- never drops one.
pub filter-Dropped :
    (t : Triager) (surfaces : List EnrichedSurface)
    → (map (λ r. r.surface) (filter t surfaces) ≡ surfaces)
      × All
          (λ r. (r.disposition ≡ drop_it) ↔ (Stub r.surface ⊎ Cleared t r.surface))
          (filter t surfaces)
unfolding filter
filter-Dropped t [] = (refl, tt)
filter-Dropped t (s ∷ surfaces) =
    let (order, all) = filter-Dropped t surfaces in
    (rw (triage_one-surface t s) (ap (λ ss. s ∷ ss) order), (triage_one-Dropped t s, all))

module _ (F : FloatOps) (laws : IsFloat64 F) where
  abbrev Within : Float64 → Type 0
  Within v = (F.decimal 0 0 ≤ v) × (v ≤ F.decimal 1 0)

  abbrev Within? : Option Float64 → Type 0
  Within? none = Unit
  Within? (some v) = Within v

  if-Within :
      (b : Bool) (o p : Option Float64) → Within? o → Within? p → Within? (if b then o else p)
  if-Within true o p h k = h
  if-Within false o p h k = k

  -- A literal between 0 and 1.
  within : (n k : ℕ) → 0 * 10 ^ k ≤ n * 10 ^ 0 → n * 10 ^ 0 ≤ 1 * 10 ^ k → Within (F.decimal n k)
  within n k h l = (laws.decimal_le 0 0 n k h, laws.decimal_le n k 1 0 l)

  category-Within : (text : Bytes) → Within? (category F text)
  unfolding category
  category-Within text =
      if-Within (contains text (codes "PROBABLY SAFE") || contains text (codes "PROBABLY_SAFE"))
        (some (F.decimal 25 2)) _ (within 25 2 (omega arith) (omega arith))
        (if-Within
          (contains text (codes "PROBABLY VULNERABLE")
            || contains text (codes "PROBABLY_VULNERABLE"))
          (some (F.decimal 75 2)) _ (within 75 2 (omega arith) (omega arith))
          (if-Within (contains text (codes "EXPLOITABLE")) (some (F.decimal 10 1)) _
            (within 10 1 (omega arith) (omega arith))
            (if-Within (contains text (codes "UNCERTAIN")) (some (F.decimal 5 1)) _
              (within 5 1 (omega arith) (omega arith))
              (if-Within (safe_from false text) (some (F.decimal 0 1)) none
                (within 0 1 (omega arith) (omega arith)) tt))))

  first_score-Within :
      (a b : Option Float64) (v : Float64)
      → Within? a
      → Within? b
      → Within v
      → Within (first_score a b v)
  unfolding first_score
  first_score-Within (some x) b v h k l = h
  first_score-Within none (some x) v h k l = k
  first_score-Within none none v h k l = l

  category_line-Within : (o : Option Bytes) → Within? (category_line F o)
  unfolding category_line
  category_line-Within none = tt
  category_line-Within (some text) = category-Within (first_line text)

  decimal_or_half-Within : (o : Option Float64) → Within (decimal_or_half F o)
  unfolding decimal_or_half
  decimal_or_half-Within none = (within 5 1 (omega arith) (omega arith))
  decimal_or_half-Within (some v) =
      elim (Bool-cases (leb (F.decimal 0 0) v && leb v (F.decimal 1 0))) [
        | inl e ↦ rw e (ground arith)
        | inr e ↦ rw e (within 5 1 (omega arith) (omega arith))
      ]

  -- Every answer of the LLM, in whatever format, gives a score between 0 and 1.
  pub parse_confidence-bounds :
      (find_decimal : Bytes → Option Float64) (raw : Bytes)
      → (F.decimal 0 0 ≤ parse_confidence F find_decimal raw)
        × (parse_confidence F find_decimal raw ≤ F.decimal 1 0)
  unfolding parse_confidence
  parse_confidence-bounds find_decimal raw =
      first_score-Within (category_line F (from_marker (to_upper raw))) (category F (to_upper raw))
        (decimal_or_half F (find_decimal raw)) (category_line-Within (from_marker (to_upper raw)))
        (category-Within (to_upper raw)) (decimal_or_half-Within (find_decimal raw))
