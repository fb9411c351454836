-- ===== src/Dedup/Grouped/Index.antt =====
-- Where a key stands among the survivors: the meaning of the map of gate 1.
use zero_trust_sh.Prelude.{
  ℕ, zero, suc, ◌++◌, ◌∷◌, [], List, ◌≡◌, refl, ap, Option, none, some, length, get_elem?, set,
  if◌then◌else◌, arith, Bool-cases, inl, inr,
}
use zero_trust_sh.Prelude.Text.{Bytes, str_eq, str_eq_iff}
use zero_trust_sh.Finding.{Finding}
use zero_trust_sh.Dedup.{exact_key, gate1_key, merge}
use zero_trust_sh.Dedup.Merge.{gate1_key-merge}
use zero_trust_sh.Dedup.Grouped.{absorb}

abbrev bump : Option ℕ → Option ℕ
bump none = none
bump (some i) = some (suc i)

module _ (digest : Bytes → Bytes) where
  unfoldable pub index_of : Bytes → List Finding → Option ℕ
  index_of k [] = none
  index_of k (g ∷ gs) =
      let rest = bump (index_of k gs) in if str_eq (gate1_key digest g) k then some 0 else rest

  -- A finding of a new key goes to the end.
  pub absorb_new :
      (f : Finding) (out : List Finding)
      → index_of (gate1_key digest f) out ≡ none
      → absorb digest f out ≡ out ++ f ∷ []
  unfolding index_of absorb
  absorb_new f [] h = refl
  absorb_new f (g ∷ gs) h = ground (arith, absorb_new f gs)

  -- A finding of a known key is merged in place.
  pub absorb_known :
      (f : Finding) (out : List Finding) (i : ℕ)
      → index_of (gate1_key digest f) out ≡ some i
      → (g : Finding) × (get_elem? out i ≡ some g)
        × (gate1_key digest g ≡ gate1_key digest f)
        × (set out i (merge g f exact_key).0 ≡ absorb digest f out)
  unfolding index_of absorb
  absorb_known f [] i h = cc
  absorb_known f (g ∷ gs) zero h =
      elim (Bool-cases (str_eq (gate1_key digest g) (gate1_key digest f))) [
        | inl same ↦ (g, refl, (str_eq_iff _ _).0 same, rw same)
        | inr other ↦ ground (arith)
      ]
  absorb_known f (g ∷ gs) (suc i) h =
      elim (Bool-cases (str_eq (gate1_key digest g) (gate1_key digest f))) [
        | inl same ↦ absurd (ground (arith))
        | inr other ↦
            let (a, found, key, placed) = absorb_known f gs i (ground arith) in
            (a, found, key, rw other (ap (λ (l : List Finding). g ∷ l) placed))
      ]

  pub index_of-append :
      (k : Bytes) (out : List Finding) (f : Finding)
      → index_of k (out ++ f ∷ []) ≡ elim (index_of k out) [
        | some i ↦ some i
        | none ↦ if str_eq (gate1_key digest f) k then some (length out) else none
      ]
  unfolding index_of
  index_of-append k [] f = ground arith
  index_of-append k (g ∷ gs) f = ground (arith, index_of-append k gs f)

  pub index_of-absorb :
      (k : Bytes) (f : Finding) (out : List Finding) (i : ℕ)
      → index_of (gate1_key digest f) out ≡ some i
      → index_of k (absorb digest f out) ≡ index_of k out
  unfolding index_of absorb
  index_of-absorb k f [] i h = cc
  index_of-absorb k f (g ∷ gs) zero h =
      elim (Bool-cases (str_eq (gate1_key digest g) (gate1_key digest f))) [
        | inl same ↦
            rw same (rw (gate1_key-merge digest g f exact_key ((str_eq_iff _ _).0 same)) refl)
        | inr other ↦ absurd (ground arith)
      ]
  index_of-absorb k f (g ∷ gs) (suc i) h =
      elim (Bool-cases (str_eq (gate1_key digest g) (gate1_key digest f))) [
        | inl same ↦ absurd (ground (arith))
        | inr other ↦ rw other (rw (index_of-absorb k f gs i (ground arith)) refl)
      ]
