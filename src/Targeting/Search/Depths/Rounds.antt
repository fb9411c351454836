-- ===== src/Targeting/Search/Depths/Rounds.antt =====
-- The levels of the loop of bfsDepths in internal/semantic/targeting/targeting.go.
use zero_trust_sh.Prelude.{
  ℕ, suc, ◌≤◌, List, [], ◌∷◌, ◌++◌, some, ◌≡◌, inl, inr, All, All-append, Option-cases, arith,
}
use zero_trust_sh.Prelude.Text.{Bytes}
use zero_trust_sh.Prelude.Assoc.{lookup}
use zero_trust_sh.Targeting.Search.{Levels, reach, reach_all}
use zero_trust_sh.Targeting.Search.Depths.{reach-seen, reach-new, lookup-insert_back}

-- The depths of a queue do not fall.
abbrev pub Ascending : List (Bytes × ℕ) → Type 0
Ascending [] = Unit
Ascending (x ∷ xs) = All (λ y. x.1 ≤ y.1) xs × Ascending xs

-- The queue spans the levels from `lo` to `hi`, and no depth is above `hi`.
pub record Band (lo hi : ℕ) (st : Levels) : Type 0 where
  pub ascending : Ascending st.queue
  pub inside : All (λ y. (lo ≤ y.1) × (y.1 ≤ hi)) st.queue
  pub bounded : (v : Bytes) (n : ℕ) → lookup v st.depths ≡ some n → n ≤ hi

Ascending-concat :
    (x : Bytes) (hi : ℕ) (q : List (Bytes × ℕ))
    → Ascending q
    → All (λ y. y.1 ≤ hi) q
    → Ascending (q ++ (x, hi) ∷ [])
Ascending-concat x hi [] a h = (tt, tt)
Ascending-concat x hi (y ∷ q) a h = (
  All-append (λ z. y.1 ≤ z.1) q ((x, hi) ∷ []) (a.0) (h.0, tt),
  Ascending-concat x hi q (a.1) (h.1),
)

All-upper :
    (lo hi : ℕ) (q : List (Bytes × ℕ))
    → All (λ y. (lo ≤ y.1) × (y.1 ≤ hi)) q
    → All (λ y. y.1 ≤ hi) q
All-upper lo hi [] h = tt
All-upper lo hi (y ∷ q) h = (h.0.1, All-upper lo hi q (h.1))

reach-Band :
    (lo hi : ℕ) (st : Levels) (next : Bytes)
    → lo ≤ hi
    → Band lo hi st
    → Band lo hi (reach hi st next)
reach-Band lo hi st next h b = elim (Option-cases (lookup next st.depths)) [
  | inr (n, e) ↦ rw (reach-seen hi st next n e) b
  | inl e ↦ rw (reach-new hi st next e) (record {
    ascending = Ascending-concat next hi st.queue b.ascending (All-upper lo hi st.queue b.inside);
    inside =
        All-append (λ y. (lo ≤ y.1) × (y.1 ≤ hi)) st.queue ((next, hi) ∷ []) b.inside
          ((h, omega arith), tt);
    bounded = λ v n q. elim (lookup-insert_back next hi st.depths v n q) [
      | inl old ↦ b.bounded v n old
      | inr (sv, sn) ↦ omega (arith, sn)
    ];
  })
]

pub reach_all-Band :
    (lo hi : ℕ) (st : Levels) (ids : List Bytes)
    → lo ≤ hi
    → Band lo hi st
    → Band lo hi (reach_all hi st ids)
unfolding reach_all
reach_all-Band lo hi st [] h b = b
reach_all-Band lo hi st (next ∷ ids) h b =
    reach_all-Band lo hi (reach hi st next) ids h (reach-Band lo hi st next h b)

All-between :
    (lo hi n : ℕ) (q : List (Bytes × ℕ))
    → All (λ y. (lo ≤ y.1) × (y.1 ≤ hi)) q
    → All (λ y. n ≤ y.1) q
    → hi ≤ suc n
    → All (λ y. (n ≤ y.1) × (y.1 ≤ suc n)) q
All-between lo hi n [] h k e = tt
All-between lo hi n (y ∷ q) h k e =
    ((k.0, omega (arith, h.0.1, e)), All-between lo hi n q (h.1) (k.1) e)

-- Once the head of the queue is taken, the rest spans its level and the next one.
pub Band-pop :
    (lo hi : ℕ) (st : Levels) (cur : Bytes × ℕ) (rest : List (Bytes × ℕ))
    → st.queue ≡ cur ∷ rest
    → hi ≤ suc lo
    → Band lo hi st
    → Band (cur.1) (suc (cur.1)) (record st { queue = rest })
Band-pop lo hi st cur rest e h b =
    let inside = rw e at b.inside in
    let ascending = rw e at b.ascending in
    record {
      ascending = ascending.1;
      inside =
          All-between lo hi (cur.1) rest (inside.1) (ascending.0) (omega (arith, h, inside.0.0));
      bounded = λ v n q. omega (arith, b.bounded v n q, h, inside.0.0);
    }
