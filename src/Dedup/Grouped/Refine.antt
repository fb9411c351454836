-- ===== src/Dedup/Grouped/Refine.antt =====
-- Gate 1 with its map implements the grouping, never indexes out of range, and loses no count.
use zero_trust_sh.Prelude.{
  ℕ, zero, suc, ◌+◌, ◌∷◌, [], List, ◌≡◌, refl, sym, ap, ◌∙◌, none, some, length, length-append,
  get_elem?, set, arith, Option-cases, inl, inr,
}
use zero_trust_sh.Prelude.Text.{Bytes, str_eq_iff}
use zero_trust_sh.Prelude.Assoc.{lookup, lookup-insert}
use zero_trust_sh.Finding.{Finding}
use zero_trust_sh.Dedup.{MergeRecord, exact_key, gate1_key, merge}
use zero_trust_sh.Dedup.Gate.{GateState, empty_gate, gate1_step, gate1, append_new, merged_at}
use zero_trust_sh.Dedup.Grouped.{absorb, grouped}
use zero_trust_sh.Dedup.Grouped.Index.{
  index_of, absorb_new, absorb_known, index_of-append, index_of-absorb,
}

length-set {ℓ} : {A : Type ℓ} (xs : List A) (i : ℕ) (v : A) → length (set xs i v) ≡ length xs
length-set [] i v = refl
length-set (x ∷ xs) zero v = refl
length-set (x ∷ xs) (suc i) v = ap suc (length-set xs i v)

module _ (digest : Bytes → Bytes) where
  -- The map gives the place of each key among the survivors.
  abbrev Tracks : GateState → Type 0
  Tracks st = (k : Bytes) → lookup k st.key_map ≡ index_of digest k st.out

  -- What one round of the loop leaves behind.
  record Round (f : Finding) (st st' : GateState) : Type 0 where
    steps : gate1_step digest f st ≡ some st'
    absorbs : st'.out ≡ absorb digest f st.out
    tracks : Tracks st'
    counts : length st'.out + st'.merge_count ≡ suc (length st.out + st.merge_count)
    records_count : length st'.records + st.merge_count ≡ st'.merge_count + length st.records

  step_new :
      (f : Finding) (st : GateState)
      → lookup (gate1_key digest f) st.key_map ≡ none
      → gate1_step digest f st ≡ some (append_new digest f st)
  unfolding gate1_step
  step_new f st new = ground arith

  step_known :
      (f g : Finding) (st : GateState) (i : ℕ)
      → lookup (gate1_key digest f) st.key_map ≡ some i
      → get_elem? st.out i ≡ some g
      → gate1_step digest f st ≡ some (merged_at i g f st)
  unfolding gate1_step
  step_known f g st i old found = ground arith

  Round-new :
      (f : Finding) (st : GateState)
      → Tracks st
      → lookup (gate1_key digest f) st.key_map ≡ none
      → Round f st (append_new digest f st)
  Round-new f st h new = record {
    steps = step_new f st new;
    absorbs = unfold append_new in sym (absorb_new digest f st.out (sym (h _) ∙ new));
    tracks =
        unfold append_new in
        λ k.
          rw (lookup-insert, index_of-append)
            (ground (arith, h k, new, str_eq_iff (gate1_key digest f) k));
    counts = unfold append_new in omega (arith, length-append st.out (f ∷ []));
    records_count = unfold append_new in omega arith;
  }

  Round-known :
      (f : Finding) (st : GateState) (i : ℕ)
      → Tracks st
      → lookup (gate1_key digest f) st.key_map ≡ some i
      → (st' : GateState) × Round f st st'
  unfolding merged_at
  Round-known f st i h old =
      let known : index_of digest (gate1_key digest f) st.out ≡ some i = sym (h _) ∙ old in
      let (g, found, key, placed) = absorb_known digest f st.out i known in
      (
        merged_at i g f st,
        record {
          steps = step_known f g st i old found;
          absorbs = placed;
          tracks = λ k. h k ∙ sym (rw placed (index_of-absorb digest k f st.out i known));
          counts = omega (arith, length-set st.out i (merge g f exact_key).0);
          records_count = omega (arith, length-append st.records ((merge g f exact_key).1 ∷ []));
        },
      )

  round : (f : Finding) (st : GateState) → Tracks st → (st' : GateState) × Round f st st'
  round f st h = elim (Option-cases (lookup (gate1_key digest f) st.key_map)) [
    | inl new ↦ (append_new digest f st, Round-new f st h new)
    | inr (i, old) ↦ Round-known f st i h old
  ]

  record Outcome (fs : List Finding) (st st' : GateState) : Type 0 where
    runs : gate1 digest fs st ≡ some st'
    groups : st'.out ≡ grouped digest fs st.out
    counts : length st'.out + st'.merge_count ≡ length fs + (length st.out + st.merge_count)
    records_count : length st'.records + st.merge_count ≡ st'.merge_count + length st.records

  gate1-cons :
      (f : Finding) (fs : List Finding) (st mid end : GateState)
      → gate1_step digest f st ≡ some mid
      → gate1 digest fs mid ≡ some end
      → gate1 digest (f ∷ fs) st ≡ some end
  unfolding gate1
  gate1-cons f fs st mid end s r = ground arith

  grouped-cons :
      (f : Finding) (fs out mid : List Finding)
      → mid ≡ absorb digest f out
      → grouped digest (f ∷ fs) out ≡ grouped digest fs mid
  unfolding grouped
  grouped-cons f fs out mid e = rw e refl

  gate1_outcome :
      (fs : List Finding) (st : GateState) → Tracks st → (st' : GateState) × Outcome fs st st'
  gate1_outcome [] st h = (
    st,
    record {
      runs = unfold gate1 in refl;
      groups = unfold grouped in refl;
      counts = omega arith;
      records_count = omega arith;
    },
  )
  gate1_outcome (f ∷ fs) st h =
      let (mid, r) = round f st h in
      let (end, o) = gate1_outcome fs mid r.tracks in
      (
        end,
        record {
          runs = gate1-cons f fs st mid end r.steps o.runs;
          groups = o.groups ∙ sym (grouped-cons f fs st.out mid.out r.absorbs);
          counts = omega (arith, r.counts, o.counts);
          records_count = omega (arith, r.records_count, o.records_count);
        },
      )

  -- Gate 1 never indexes out of range. It returns exactly the grouping of its input by key, one
  -- record for each merge, and as many survivors and merges together as there were findings.
  pub gate1-grouped :
      (fs : List Finding) (records : List MergeRecord) (merges : ℕ)
      → (st : GateState) × (gate1 digest fs (empty_gate records merges) ≡ some st)
        × (st.out ≡ grouped digest fs [])
        × (length st.out + st.merge_count ≡ length fs + merges)
        × (length st.records + merges ≡ st.merge_count + length records)
  unfolding empty_gate
  gate1-grouped fs records merges =
      let (st, o) =
        gate1_outcome fs (empty_gate records merges) (λ k. unfold lookup index_of in refl) in
      (st, o.runs, o.groups, omega (arith, o.counts), o.records_count)
