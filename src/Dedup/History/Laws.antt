-- ===== src/Dedup/History/Laws.antt =====
-- What the comparison with the store drops and what it lets through.
use zero_trust_sh.Prelude.{
  suc, ◌+◌, ◌++◌, ◌∷◌, [], List, ◌≡◌, refl, sym, ◌∙◌, Bool, true, false, not, some, none, Option,
  keep, count, map, length, arith, Bool-cases, inl, inr, append_assoc, append-nil, if◌then◌else◌,
  ap, ◌↔◌,
}
use zero_trust_sh.Prelude.Text.{Bytes, str_eq, str_eq_iff}
use zero_trust_sh.Prelude.Assoc.{lookup, insert, lookup-insert}
use zero_trust_sh.Finding.{Finding, to_string}
use zero_trust_sh.Dedup.History.{
  Snapshot, Filtered, same_verdict, known_from, is_unchanged, historical_record, filter_step,
  filter_from, dedup_historical,
}

abbrev filter_old : Finding → Filtered → Filtered
filter_old f st = record st {
  records = st.records ++ historical_record f ∷ [];
  merge_count = suc st.merge_count;
}

abbrev filter_new : Finding → Filtered → Filtered
filter_new f st = record st { survivors = st.survivors ++ f ∷ [] }

module _ (known : List (Bytes × Snapshot)) where
  -- What one round adds to the survivors, the records and the count.
  step_old :
      (f : Finding) (st : Filtered)
      → is_unchanged known f ≡ true
      → filter_step known f st ≡ filter_old f st
  unfolding filter_step
  step_old f st old = rw old

  step_new :
      (f : Finding) (st : Filtered)
      → is_unchanged known f ≡ false
      → filter_step known f st ≡ filter_new f st
  unfolding filter_step
  step_new f st new = rw new

  filter_from-cons :
      (f : Finding) (fs : List Finding) (st : Filtered)
      → filter_from known (f ∷ fs) st ≡ filter_from known fs (filter_step known f st)
  unfolding filter_from
  filter_from-cons f fs st = refl

  filter_from-nil : (st : Filtered) → filter_from known [] st ≡ st
  unfolding filter_from
  filter_from-nil st = refl

  filter_from_lem :
      (fs : List Finding) (st : Filtered)
      → let r = filter_from known fs st in
        (r.survivors ≡ st.survivors ++ keep (λ f. not (is_unchanged known f)) fs)
        × (r.records ≡ st.records ++ map historical_record (keep (is_unchanged known) fs))
        × (r.merge_count ≡ st.merge_count + count (is_unchanged known) fs)
  unfolding keep count
  filter_from_lem [] st = rw filter_from-nil (sym (append-nil _), sym (append-nil _), omega arith)
  filter_from_lem (f ∷ fs) st = elim (Bool-cases (is_unchanged known f)) [
    | inl old ↦
        rw (filter_from-cons, step_old f st old, old)
          (
            (filter_from_lem fs (filter_old f st)).0,
            (filter_from_lem fs (filter_old f st)).1 ∙ append_assoc st.records _ _,
            omega (arith, (filter_from_lem fs (filter_old f st)).2),
          )
    | inr new ↦
        rw (filter_from-cons, step_new f st new, new)
          (
            (filter_from_lem fs (filter_new f st)).0 ∙ append_assoc st.survivors _ _,
            (filter_from_lem fs (filter_new f st)).1,
            (filter_from_lem fs (filter_new f st)).2,
          )
  ]

-- The loop, as a filter of the input by the test of one round.
pub dedup_historical_lem :
    (rows : List (Bytes × Snapshot)) (input : List Finding)
    → let known = known_from rows [] in
      let r = dedup_historical (some rows) input in
      (r.survivors ≡ keep (λ f. not (is_unchanged known f)) input)
      × (r.records ≡ map historical_record (keep (is_unchanged known) input))
      × (r.merge_count ≡ count (is_unchanged known) input)
unfolding dedup_historical
dedup_historical_lem rows input =
    let l =
      filter_from_lem (known_from rows []) input
        (record { survivors = []; records = []; merge_count = 0 }) in
    (l.0, l.1, omega (arith, l.2))

-- The snapshot in the last row of an id that the walk yields.
latest : Option Snapshot → Option Snapshot → Option Snapshot
latest (some later) earlier = some later
latest none earlier = earlier

unfoldable pub newest : List (Bytes × Snapshot) → Bytes → Option Snapshot
unfolding latest
newest [] k = none
newest ((id, snap) ∷ rows) k = latest (newest rows k) (if str_eq id k then some snap else none)

latest-if :
    (b : Bool) (snap : Snapshot) (o : Option Snapshot)
    → (if b then some snap else o) ≡ latest (if b then some snap else none) o
unfolding latest
latest-if true snap o = refl
latest-if false snap o = refl

latest-none : (o : Option Snapshot) → o ≡ latest o none
unfolding latest
latest-none none = refl
latest-none (some snap) = refl

latest_assoc : (a b c : Option Snapshot) → latest a (latest b c) ≡ latest (latest a b) c
unfolding latest
latest_assoc none b c = refl
latest_assoc (some a) b c = refl

lookup-known_from :
    (k : Bytes) (rows known : List (Bytes × Snapshot))
    → lookup k (known_from rows known) ≡ latest (newest rows k) (lookup k known)
unfolding known_from newest latest
lookup-known_from k [] known = refl
lookup-known_from k ((id, snap) ∷ rows) known =
    lookup-known_from k rows (insert id snap known)
    ∙ ap (latest (newest rows k)) (lookup-insert id k snap known ∙ latest-if (str_eq id k) snap _)
    ∙ latest_assoc (newest rows k) _ (lookup k known)

-- The newest row of the finding's id has its severity, its confidence and its reason.
abbrev pub IsStored : List (Bytes × Snapshot) → Finding → Type 0
IsStored rows f =
    (snap : Snapshot) × (newest rows f.id ≡ some snap)
    × (snap.severity ≡ to_string f.severity_label)
    × (snap.confidence ≡ f.confidence)
    × (snap.suppress_reason ≡ f.suppress_reason)

same_verdict_lem :
    (rows : List (Bytes × Snapshot)) (f : Finding) (o : Option Snapshot)
    → newest rows f.id ≡ o
    → (same_verdict o f ≡ true) ↔ IsStored rows f
unfolding same_verdict
same_verdict_lem rows f none e = (λ h. cc h, λ (snap, k, s, c, r). cc (e, k))
same_verdict_lem rows f (some prior) e = (
  λ h. (
    prior,
    e,
    (str_eq_iff _ _).0 (ground arith),
    ground arith,
    (str_eq_iff _ _).0 (ground arith),
  ),
  λ (snap, k, s, c, r).
      let same : snap ≡ prior = cc (e, k) in
      ground (
        arith,
        same,
        s,
        c,
        r,
        str_eq_iff prior.severity (to_string f.severity_label),
        str_eq_iff prior.suppress_reason f.suppress_reason,
      ),
)

is_unchanged-IsStored :
    (rows : List (Bytes × Snapshot)) (f : Finding)
    → (is_unchanged (known_from rows []) f ≡ true) ↔ IsStored rows f
unfolding is_unchanged lookup
is_unchanged-IsStored rows f =
    same_verdict_lem rows f _
      (latest-none (newest rows f.id) ∙ sym (lookup-known_from f.id rows []))

-- Where the store answers, the findings that pass are those that are not stored with the verdict they have now, in
-- their order: a finding is held back exactly if the last row of its id that the walk yields has its severity,
-- its confidence and its reason. Each finding held back leaves one record, and is counted as a merge.
pub dedup_historical-IsStored :
    (rows : List (Bytes × Snapshot)) (input : List Finding) (f : Finding)
    → let old = is_unchanged (known_from rows []) in
      let r = dedup_historical (some rows) input in
      (r.survivors ≡ keep (λ g. not (old g)) input)
      × (r.records ≡ map historical_record (keep old input))
      × (r.merge_count ≡ count old input)
      × ((old f ≡ true) ↔ IsStored rows f)
dedup_historical-IsStored rows input f =
    let l = dedup_historical_lem rows input in (l.0, l.1, l.2, is_unchanged-IsStored rows f)

length-keep-count :
    (p : Finding → Bool) (fs : List Finding)
    → length (keep (λ f. not (p f)) fs) + count p fs ≡ length fs
unfolding keep count
length-keep-count p [] = omega arith
length-keep-count p (f ∷ fs) = ground (arith, length-keep-count p fs)

-- Survivors and merges together are as many as the findings that came in.
pub dedup_historical-count :
    (history : Option (List (Bytes × Snapshot))) (input : List Finding)
    → let r = dedup_historical history input in length r.survivors + r.merge_count ≡ length input
dedup_historical-count none input = unfold dedup_historical in omega arith
dedup_historical-count (some rows) input =
    let l = dedup_historical_lem rows input in
    rw (l.0, l.2) (length-keep-count (is_unchanged (known_from rows [])) input)

length-map-keep :
    (p : Finding → Bool) (fs : List Finding)
    → length (map historical_record (keep p fs)) ≡ count p fs
unfolding keep count
length-map-keep p [] = refl
length-map-keep p (f ∷ fs) = ground (arith, length-map-keep p fs)

pub dedup_historical-records :
    (history : Option (List (Bytes × Snapshot))) (input : List Finding)
    → let r = dedup_historical history input in length r.records ≡ r.merge_count
dedup_historical-records none input = unfold dedup_historical in refl
dedup_historical-records (some rows) input =
    let l = dedup_historical_lem rows input in
    rw (l.1, l.2) (length-map-keep (is_unchanged (known_from rows [])) input)
