-- ===== src/Dedup/Grouped/Keys.antt =====
-- What the grouping promises: one survivor for each key, and no finding without a survivor.
use zero_trust_sh.Prelude.{
  ◌≤◌, ◌∷◌, [], List, ◌≡◌, ◌≢◌, refl, sym, ◌∙◌, inl, inr, All, Any, arith, Bool-cases,
}
use zero_trust_sh.Prelude.Text.{Bytes, str_eq, str_eq_iff}
use zero_trust_sh.Finding.{Finding}
use zero_trust_sh.Dedup.{exact_key, gate1_key}
use zero_trust_sh.Dedup.Merge.{gate1_key-merge, merge-confidence}
use zero_trust_sh.Dedup.Grouped.{absorb, grouped}

module _ (digest : Bytes → Bytes) where
  -- No two findings of the list share a key.
  abbrev pub Distinct : List Finding → Type 0
  Distinct [] = Unit
  Distinct (g ∷ gs) = All (λ h. gate1_key digest h ≢ gate1_key digest g) gs × Distinct gs

  -- Some finding of the list has the key of `f` and at least its confidence.
  abbrev pub Covers : Finding → List Finding → Type 0
  Covers f = Any (λ g. (gate1_key digest g ≡ gate1_key digest f) × (f.confidence ≤ g.confidence))

  All-absorb :
      (k : Bytes) (f : Finding) (out : List Finding)
      → gate1_key digest f ≢ k
      → All (λ h. gate1_key digest h ≢ k) out
      → All (λ h. gate1_key digest h ≢ k) (absorb digest f out)
  unfolding absorb
  All-absorb k f [] hf h = (hf, tt)
  All-absorb k f (g ∷ gs) hf h =
      elim (Bool-cases (str_eq (gate1_key digest g) (gate1_key digest f))) [
        | inl same ↦ rw same (
          λ e. h.0 (sym (gate1_key-merge digest g f exact_key ((str_eq_iff _ _).0 same)) ∙ e),
          h.1,
        )
        | inr other ↦ rw other (h.0, All-absorb k f gs hf h.1)
      ]

  Distinct-absorb :
      (f : Finding) (out : List Finding) → Distinct out → Distinct (absorb digest f out)
  unfolding absorb
  Distinct-absorb f [] h = (tt, tt)
  Distinct-absorb f (g ∷ gs) h =
      elim (Bool-cases (str_eq (gate1_key digest g) (gate1_key digest f))) [
        | inl same ↦ rw same (rw (gate1_key-merge digest g f exact_key ((str_eq_iff _ _).0 same)) h)
        | inr other ↦ rw other (
          All-absorb (gate1_key digest g) f gs
              (λ e. ground (arith, str_eq_iff (gate1_key digest g) (gate1_key digest f))) h.0,
          Distinct-absorb f gs h.1,
        )
      ]

  -- After gate 1 no two findings share a key.
  pub grouped-Distinct : (fs out : List Finding) → Distinct out → Distinct (grouped digest fs out)
  unfolding grouped
  grouped-Distinct [] out h = h
  grouped-Distinct (f ∷ fs) out h =
      grouped-Distinct fs (absorb digest f out) (Distinct-absorb f out h)

  Covers-absorb_self : (f : Finding) (out : List Finding) → Covers f (absorb digest f out)
  unfolding absorb
  Covers-absorb_self f [] = inl (refl, omega arith)
  Covers-absorb_self f (g ∷ gs) =
      elim (Bool-cases (str_eq (gate1_key digest g) (gate1_key digest f))) [
        | inl same ↦
            let e = (str_eq_iff _ _).0 same in
            rw same
              (inl (gate1_key-merge digest g f exact_key e ∙ e, (merge-confidence g f exact_key).1))
        | inr other ↦ rw other (inr (Covers-absorb_self f gs))
      ]

  Covers-absorb :
      (e f : Finding) (out : List Finding) → Covers e out → Covers e (absorb digest f out)
  unfolding absorb
  Covers-absorb e f [] h = absurd h
  Covers-absorb e f (g ∷ gs) h =
      elim (Bool-cases (str_eq (gate1_key digest g) (gate1_key digest f))) [
        | inl same ↦ rw same (elim h [
          | inl (k, c) ↦ inl (
            gate1_key-merge digest g f exact_key ((str_eq_iff _ _).0 same) ∙ k,
            omega (arith, (merge-confidence g f exact_key).0),
          )
          | inr t ↦ inr t
        ])
        | inr other ↦ rw other (elim h [ inl a ↦ inl a | inr t ↦ inr (Covers-absorb e f gs t) ])
      ]

  Covers-grouped :
      (e : Finding) (fs out : List Finding) → Covers e out → Covers e (grouped digest fs out)
  unfolding grouped
  Covers-grouped e [] out h = h
  Covers-grouped e (f ∷ fs) out h =
      Covers-grouped e fs (absorb digest f out) (Covers-absorb e f out h)

  -- Every finding that enters gate 1 has a survivor of its key with at least its confidence.
  pub grouped-Covers : (fs out : List Finding) → All (λ f. Covers f (grouped digest fs out)) fs
  unfolding grouped
  grouped-Covers [] out = tt
  grouped-Covers (f ∷ fs) out = (
    Covers-grouped f fs (absorb digest f out) (Covers-absorb_self f out),
    grouped-Covers fs (absorb digest f out),
  )
