-- ===== src/Targeting/Search/Depths.antt =====
-- The breadth-first depths of internal/semantic/targeting/targeting.go.
pub mod Ends
pub mod Rounds
pub mod Shortest
use zero_trust_sh.Prelude.{
  ℕ, zero, suc, ◌≤◌, ◌<◌, Bool, true, false, List, [], ◌∷◌, ◌++◌, Option, none, some, ◌≡◌, refl,
  sym, ◌∙◌, ap, ◌⊎◌, inl, inr, Member, Member-append_left, Member-append_right, Member-append,
  Option-cases, Bool-cases, arith, if◌then◌else◌,
}
use zero_trust_sh.Prelude.Text.{Bytes, str_eq, str_eq_refl, str_eq_iff}
use zero_trust_sh.Prelude.Assoc.{lookup, insert, lookup-insert}
use zero_trust_sh.Targeting.{CallGraph, callees}
use zero_trust_sh.Targeting.Search.{Levels, reach, reach_all, depths_loop}

-- `u` calls `v`.
abbrev pub Edge : CallGraph → Bytes → Bytes → Type 0
Edge cg u v = Member v (callees cg u)

-- A walk of `n` calls from a seed.
pub data Walk (cg : CallGraph) (seeds : List Bytes) : ℕ → Bytes → Type 0 where
  start : {v : Bytes} → Member v seeds → Walk cg seeds zero v
  step : {n : ℕ} {u v : Bytes} → Walk cg seeds n u → Edge cg u v → Walk cg seeds (suc n) v

pub lookup-insert_same :
    (k : Bytes) (d : ℕ) (m : List (Bytes × ℕ)) → lookup k (insert k d m) ≡ some d
lookup-insert_same k d m = rw (lookup-insert k k d m, str_eq_refl k) refl

pub lookup-insert_keep :
    (k : Bytes) (d : ℕ) (m : List (Bytes × ℕ)) (v : Bytes) (n : ℕ)
    → lookup k m ≡ none
    → lookup v m ≡ some n
    → lookup v (insert k d m) ≡ some n
lookup-insert_keep k d m v n e h = ground (arith, lookup-insert k v d m, str_eq_iff k v)

pub lookup-insert_back :
    (k : Bytes) (d : ℕ) (m : List (Bytes × ℕ)) (v : Bytes) (n : ℕ)
    → lookup v (insert k d m) ≡ some n
    → (lookup v m ≡ some n) ⊎ ((v ≡ k) × (n ≡ d))
lookup-insert_back k d m v n h = ground (arith, lookup-insert k v d m, str_eq_iff k v)

-- What the visits of a list of ids at depth `d` change.
pub record Grows (d : ℕ) (ids : List Bytes) (st st' : Levels) : Type 0 where
  pub keeps : (v : Bytes) (n : ℕ) → lookup v st.depths ≡ some n → lookup v st'.depths ≡ some n
  pub keeps_queue : (x : Bytes × ℕ) → Member x st.queue → Member x st'.queue
  pub covers : (v : Bytes) → Member v ids → (n : ℕ) × (lookup v st'.depths ≡ some n)
  pub fresh :
      (v : Bytes) (n : ℕ)
      → lookup v st'.depths ≡ some n
      → (lookup v st.depths ≡ some n) ⊎ ((n ≡ d) × Member (v, n) st'.queue × Member v ids)
  pub queued :
      (v : Bytes) (n : ℕ)
      → Member (v, n) st'.queue
      → Member (v, n) st.queue ⊎ (lookup v st'.depths ≡ some n)

pub reach-seen :
    (d : ℕ) (st : Levels) (next : Bytes) (n : ℕ)
    → lookup next st.depths ≡ some n
    → reach d st next ≡ st
unfolding reach
reach-seen d st next n e = rw (e, reach) refl

pub reach-new :
    (d : ℕ) (st : Levels) (next : Bytes)
    → lookup next st.depths ≡ none
    → reach d st next
      ≡ record { depths = insert next d st.depths; queue = st.queue ++ (next, d) ∷ [] }
unfolding reach
reach-new d st next e = rw (e, reach) refl

reach-Grows : (d : ℕ) (st : Levels) (next : Bytes) → Grows d (next ∷ []) st (reach d st next)
reach-Grows d st next = elim (Option-cases (lookup next st.depths)) [
  | inr (m, e) ↦ rw (reach-seen d st next m e) (record {
    keeps = λ v n h. h;
    keeps_queue = λ x h. h;
    covers = λ v h. elim h [ inl same ↦ (m, rw (sym same) e) | inr none_left ↦ absurd none_left ];
    fresh = λ v n h. inl h;
    queued = λ v n h. inl h;
  })
  | inl e ↦ rw (reach-new d st next e) (record {
    keeps = λ v n h. lookup-insert_keep next d st.depths v n e h;
    keeps_queue = λ x h. Member-append_left x st.queue ((next, d) ∷ []) h;
    covers = λ v h. elim h [
      | inl same ↦ (d, rw (sym same) (lookup-insert_same next d st.depths))
      | inr none_left ↦ absurd none_left
    ];
    fresh = λ v n h. elim (lookup-insert_back next d st.depths v n h) [
      | inl old ↦ inl old
      | inr (sv, sn) ↦ inr (
        sn,
        Member-append_right (v, n) st.queue ((next, d) ∷ []) (inl (cc (sv, sn))),
        inl (sym sv),
      )
    ];
    queued = λ v n h. elim (Member-append (v, n) st.queue ((next, d) ∷ []) h) [
      | inl old ↦ inl old
      | inr new ↦ elim new [
        | inl same ↦ inr (
            rw (sym (ap (λ p. p.0) same), sym (ap (λ p. p.1) same))
              (lookup-insert_same next d st.depths))
        | inr none_left ↦ absurd none_left
      ]
    ];
  })
]

Grows-nil : (d : ℕ) (st : Levels) → Grows d [] st st
Grows-nil d st = record {
  keeps = λ v n h. h;
  keeps_queue = λ x h. h;
  covers = λ v h. absurd h;
  fresh = λ v n h. inl h;
  queued = λ v n h. inl h;
}

Grows-cons :
    (d : ℕ) (next : Bytes) (ids : List Bytes) (st st' st'' : Levels)
    → Grows d (next ∷ []) st st'
    → Grows d ids st' st''
    → Grows d (next ∷ ids) st st''
Grows-cons d next ids st st' st'' g h = record {
  keeps = λ v n e. h.keeps v n (g.keeps v n e);
  keeps_queue = λ x m. h.keeps_queue x (g.keeps_queue x m);
  covers = λ v m. elim m [
    | inl same ↦ let (n, e) = g.covers v (inl same) in (n, h.keeps v n e)
    | inr later ↦ h.covers v later
  ];
  fresh = λ v n e. elim (h.fresh v n e) [
    | inl old ↦ elim (g.fresh v n old) [
      | inl older ↦ inl older
      | inr (at, q, m) ↦ inr (
        at,
        h.keeps_queue (v, n) q,
        elim m [ inl same ↦ inl same | inr none_left ↦ absurd none_left ],
      )
    ]
    | inr (at, q, m) ↦ inr (at, q, inr m)
  ];
  queued = λ v n m. elim (h.queued v n m) [
    | inl old ↦ elim (g.queued v n old) [ inl older ↦ inl older | inr e ↦ inr (h.keeps v n e) ]
    | inr e ↦ inr e
  ];
}

pub reach_all-Grows : (d : ℕ) (st : Levels) (ids : List Bytes) → Grows d ids st (reach_all d st ids)
unfolding reach_all
reach_all-Grows d st [] = Grows-nil d st
reach_all-Grows d st (next ∷ ids) =
    Grows-cons d next ids st (reach d st next) (reach_all d (reach d st next) ids)
      (reach-Grows d st next) (reach_all-Grows d (reach d st next) ids)

pub depths_loop-done :
    (cg : CallGraph) (fuel : ℕ) (st : Levels)
    → st.queue ≡ []
    → depths_loop cg fuel st ≡ some st.depths
unfolding depths_loop
depths_loop-done cg zero st e = rw e refl
depths_loop-done cg (suc fuel) st e = rw e refl

pub depths_loop-stuck :
    (cg : CallGraph) (st : Levels) (cur : Bytes × ℕ) (rest : List (Bytes × ℕ))
    → st.queue ≡ cur ∷ rest
    → depths_loop cg zero st ≡ none
unfolding depths_loop
depths_loop-stuck cg st cur rest e = rw e refl

pub depths_loop-round :
    (cg : CallGraph) (fuel : ℕ) (st : Levels) (cur : Bytes × ℕ) (rest : List (Bytes × ℕ))
    → st.queue ≡ cur ∷ rest
    → depths_loop cg (suc fuel) st
      ≡ depths_loop cg fuel
          (reach_all (suc (cur.1)) (record st { queue = rest }) (callees cg (cur.0)))
unfolding depths_loop
depths_loop-round cg fuel st cur rest e = rw e refl
