-- ===== src/Dedup/Process/Places.antt =====
-- The whole pass keeps every place of the findings that the history lets through.
use zero_trust_sh.Prelude.{
  ℕ, suc, ◌≤◌, ◌∷◌, [], List, true, some, ◌≡◌, refl, sym, ap, ◌∙◌, All, Any, Member, inl, inr,
  Bool-cases,
}
use mathlib.Core.Path.{subst}
use zero_trust_sh.Prelude.Text.{Bytes, str_eq}
use zero_trust_sh.Prelude.Float.{FloatOps, IsFloat64}
use zero_trust_sh.Config.{Config}
use zero_trust_sh.Config.Valid.{validate}
use zero_trust_sh.Finding.{Finding}
use zero_trust_sh.Dedup.{MergeRecord, Stats, exact_key, gate1_raw, gate1_key, merge}
use zero_trust_sh.Dedup.Place.{
  SamePlace, IsPlain, SamePlace-trans, gate1_raw-SamePlace, gate1_raw_injective, merge-SamePlace,
  score_one-SamePlace,
}
use zero_trust_sh.Dedup.Grouped.{absorb, grouped}
use zero_trust_sh.Dedup.Grouped.Keys.{Distinct, Covers}
use zero_trust_sh.Dedup.Ssvc.{Net}
use zero_trust_sh.Dedup.Process.{Layer, score_one, score_all, from_history, process}
use zero_trust_sh.Dedup.Process.Counts.{process-out}
use zero_trust_sh.Dedup.Process.Coverage.{InRange, process-Covers}

-- Some finding of the list stands where `g` stands.
abbrev From : List Finding → Finding → Type 0
From fs g = Any (SamePlace g) fs

From-SamePlace : (fs : List Finding) (f g : Finding) → SamePlace f g → From fs g → From fs f
From-SamePlace [] f g s h = h
From-SamePlace (e ∷ fs) f g s h = elim h [
  | inl here ↦ inl (SamePlace-trans f g e s here)
  | inr there ↦ inr (From-SamePlace fs f g s there)
]

module _ (digest : Bytes → Bytes) where
  absorb-From :
      (src : List Finding) (f : Finding) (out : List Finding)
      → From src f
      → All (From src) out
      → All (From src) (absorb digest f out)
  unfolding absorb
  absorb-From src f [] hf h = (hf, tt)
  absorb-From src f (g ∷ gs) hf h =
      elim (Bool-cases (str_eq (gate1_key digest g) (gate1_key digest f))) [
        | inl same ↦
            let here : From src (merge g f exact_key).0 = elim (merge-SamePlace g f) [
              | inl s ↦ From-SamePlace src (merge g f exact_key).0 g s h.0
              | inr s ↦ From-SamePlace src (merge g f exact_key).0 f s hf
            ] in
            rw same (here, h.1)
        | inr other ↦ rw other (h.0, absorb-From src f gs hf h.1)
      ]

  grouped-From :
      (src fs out : List Finding)
      → All (From src) fs
      → All (From src) out
      → All (From src) (grouped digest fs out)
  unfolding grouped
  grouped-From src [] out hf h = h
  grouped-From src (f ∷ fs) out hf h =
      grouped-From src fs (absorb digest f out) hf.1 (absorb-From src f out hf.0 h)

All-From :
    (src : List Finding) (fs : List Finding)
    → ((f : Finding) → Member f fs → From src f)
    → All (From src) fs
All-From src [] h = tt
All-From src (f ∷ fs) h = (h f (inl refl), All-From src fs (λ g m. h g (inr m)))

Member-From : (src : List Finding) (f : Finding) → Member f src → From src f
Member-From (e ∷ src) f m = elim m [
  | inl same ↦ inl (subst (λ z. SamePlace z e) same (refl, refl, refl))
  | inr there ↦ inr (Member-From src f there)
]
Member-From [] f m = absurd m

Any-Member :
    (P : Finding → Type 0) (fs : List Finding) → Any P fs → (f : Finding) × Member f fs × P f
Any-Member P [] h = absurd h
Any-Member P (f ∷ fs) h = elim h [
  | inl here ↦ (f, inl refl, here)
  | inr there ↦ let (g, m, p) = Any-Member P fs there in (g, inr m, p)
]

All-Member : (P : Finding → Type 0) (fs : List Finding) (f : Finding) → All P fs → Member f fs → P f
All-Member P [] f h m = absurd m
All-Member P (e ∷ fs) f h m = elim m [
  | inl same ↦ subst P same h.0
  | inr there ↦ All-Member P fs f h.1 there
]

module _ (F : FloatOps) (cfg : Config) (layer : Layer) (nets : ℕ → Net) where
  score_all-From :
      (src : List Finding) (i : ℕ) (fs : List Finding)
      → All (From src) fs
      → All (From src) (score_all F cfg layer nets i fs)
  unfolding score_all
  score_all-From src i [] h = tt
  score_all-From src i (f ∷ fs) h = (
    From-SamePlace src (score_one F cfg layer (nets i) f) f
        (score_one-SamePlace F cfg layer (nets i) f) h.0,
    score_all-From src (suc i) fs h.1,
  )

-- Some finding of the list stands where `f` stands, and has at least its confidence.
abbrev pub Keeps : List Finding → Finding → Type 0
Keeps out f = Any (λ g. SamePlace g f × (f.confidence ≤ g.confidence)) out

module _ (digest : Bytes → Bytes) (src : List Finding) (plain : All IsPlain src)
    (free : (f g : Finding)
      → Member f src
      → Member g src
      → digest (gate1_raw f) ≡ digest (gate1_raw g)
      → gate1_raw f ≡ gate1_raw g) where
  -- A finding with the key of `f` that stands where some finding of the list stands does so where `f` stands.
  place_of :
      (f g : Finding)
      → Member f src
      → From src g
      → gate1_key digest g ≡ gate1_key digest f
      → SamePlace g f
  unfolding gate1_key
  place_of f g m from k =
      let (e, n, s) = Any-Member (SamePlace g) src from in
      let same = free e f n m (ap digest (sym (gate1_raw-SamePlace g e s)) ∙ k) in
      SamePlace-trans g e f s (
        gate1_raw_injective e f (All-Member IsPlain src e plain n)
          (All-Member IsPlain src f plain m) same)

  Covers-Keeps :
      (f : Finding) (out : List Finding)
      → Member f src
      → All (From src) out
      → Covers digest f out
      → Keeps out f
  Covers-Keeps f [] m from h = h
  Covers-Keeps f (g ∷ out) m from h = elim h [
    | inl (k, c) ↦ inl (place_of f g m from.0 k, c)
    | inr there ↦ inr (Covers-Keeps f out m from.1 there)
  ]

  All-Covers-Keeps :
      (fs out : List Finding)
      → ((f : Finding) → Member f fs → Member f src)
      → All (From src) out
      → All (λ f. Covers digest f out) fs
      → All (Keeps out) fs
  All-Covers-Keeps [] out m from h = tt
  All-Covers-Keeps (f ∷ fs) out m from h = (
    Covers-Keeps f out (m f (inl refl)) from h.0,
    All-Covers-Keeps fs out (λ g n. m g (inr n)) from h.1,
  )

module _ (F : FloatOps) (laws : IsFloat64 F) (cfg : Config) (valid : validate F cfg ≡ true)
    (digest : Bytes → Bytes) (layer : Layer) (nets : ℕ → Net) where
  -- With a valid configuration, and for findings that the history lets through whose scores are in range,
  -- whose CWEs hold no bar, and of which none with different texts to hash collide in the digest: no two
  -- findings of the result share a key, and each of those findings has one in the result with its CWE, its path,
  -- its start line and at least its confidence.
  pub process-Keeps :
      (input : List Finding) {out : List Finding} {records : List MergeRecord} {stats : Stats}
      → All (InRange F laws cfg valid) (from_history layer input).survivors
      → All IsPlain (from_history layer input).survivors
      → ((f g : Finding)
          → Member f (from_history layer input).survivors
          → Member g (from_history layer input).survivors
          → digest (gate1_raw f) ≡ digest (gate1_raw g)
          → gate1_raw f ≡ gate1_raw g)
      → process F cfg layer digest nets input ≡ some (out, records, stats)
      → Distinct digest out × All (Keeps out) (from_history layer input).survivors
  process-Keeps input {out = out} {records = records} {stats = stats} r plain free e =
      let survivors = (from_history layer input).survivors in
      let covers = process-Covers F laws cfg valid digest layer nets input r e in
      let same : out ≡ score_all F cfg layer nets 0 (grouped digest survivors []) =
        process-out F cfg layer nets digest input e in
      let from : All (From survivors) out =
        subst (λ z. All (From survivors) z) (sym same)
          (score_all-From F cfg layer nets survivors 0 (grouped digest survivors []) (
            grouped-From digest survivors survivors []
              (All-From survivors survivors (Member-From survivors)) tt)) in
      (
        covers.0,
        All-Covers-Keeps digest survivors plain free survivors out (λ f m. m) from covers.1,
      )
