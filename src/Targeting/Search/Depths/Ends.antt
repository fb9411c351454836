-- ===== src/Targeting/Search/Depths/Ends.antt =====
-- The loop of bfsDepths in internal/semantic/targeting/targeting.go ends.
use zero_trust_sh.Prelude.{
  ℕ, zero, suc, ◌+◌, ◌≤◌, ◌<◌, List, [], ◌∷◌, ◌++◌, Option, none, some, ◌≡◌, refl, ap, inl, inr,
  Member, Member-append_left, Member-append_right, Option-cases, arith, length, length-append,
  List-cases, Bool-cases,
}
use zero_trust_sh.Prelude.Text.{Bytes, str_eq}
use zero_trust_sh.Prelude.Assoc.{lookup, insert}
use zero_trust_sh.Targeting.{CallGraph, callees, or_nil}
use zero_trust_sh.Targeting.Search.{Levels, reach, reach_all, depths_loop, bfs_depths, edge_count}
use zero_trust_sh.Targeting.Search.Depths.{
  Edge, reach-seen, reach-new, lookup-insert_same, lookup-insert_keep, depths_loop-done,
  depths_loop-round,
}

unless_seen : Option ℕ → ℕ → ℕ
unless_seen none n = suc n
unless_seen (some d) n = n

-- The ids of the list that have no depth yet.
pub unseen : List (Bytes × ℕ) → List Bytes → ℕ
unfolding unless_seen
unseen m [] = 0
unseen m (u ∷ us) = unless_seen (lookup u m) (unseen m us)

unless_seen-le :
    {a b : ℕ} (o p : Option ℕ)
    → ((n : ℕ) → o ≡ some n → p ≡ some n)
    → a ≤ b
    → unless_seen p a ≤ unless_seen o b
unfolding unless_seen
unless_seen-le none none keep h = omega arith
unless_seen-le none (some n) keep h = omega arith
unless_seen-le (some n) none keep h = cc (keep n refl)
unless_seen-le (some n) (some m) keep h = omega arith

unseen-insert_le :
    (k : Bytes) (d : ℕ) (m : List (Bytes × ℕ)) (us : List Bytes)
    → lookup k m ≡ none
    → unseen (insert k d m) us ≤ unseen m us
unfolding unseen
unseen-insert_le k d m [] e = omega arith
unseen-insert_le k d m (u ∷ us) e =
    unless_seen-le (lookup u m) (lookup u (insert k d m)) (λ n h. lookup-insert_keep k d m u n e h)
      (unseen-insert_le k d m us e)

unless_seen-lt :
    {a b : ℕ} (o p : Option ℕ) (d : ℕ)
    → o ≡ none
    → p ≡ some d
    → a ≤ b
    → unless_seen p a < unless_seen o b
unfolding unless_seen
unless_seen-lt none (some n) d ho hp h = omega arith
unless_seen-lt none none d ho hp h = cc hp
unless_seen-lt (some n) p d ho hp h = cc ho

unless_seen-lt_rest :
    {a b : ℕ} (o p : Option ℕ)
    → ((n : ℕ) → o ≡ some n → p ≡ some n)
    → a < b
    → unless_seen p a < unless_seen o b
unfolding unless_seen
unless_seen-lt_rest none none keep h = omega arith
unless_seen-lt_rest none (some n) keep h = omega arith
unless_seen-lt_rest (some n) none keep h = cc (keep n refl)
unless_seen-lt_rest (some n) (some m) keep h = omega arith

unseen-insert_lt :
    (k : Bytes) (d : ℕ) (m : List (Bytes × ℕ)) (us : List Bytes)
    → lookup k m ≡ none
    → Member k us
    → unseen (insert k d m) us < unseen m us
unfolding unseen
unseen-insert_lt k d m [] e h = absurd h
unseen-insert_lt k d m (u ∷ us) e h = elim h [
  | inl same ↦
      unless_seen-lt (lookup u m) (lookup u (insert k d m)) d (rw same e)
        (rw same (lookup-insert_same k d m)) (unseen-insert_le k d m us e)
  | inr later ↦
      unless_seen-lt_rest (lookup u m) (lookup u (insert k d m))
        (λ n q. lookup-insert_keep k d m u n e q) (unseen-insert_lt k d m us e later)
]

unseen-nothing : (us : List Bytes) → unseen [] us ≡ length us
unfolding unseen lookup unless_seen
unseen-nothing [] = refl
unseen-nothing (u ∷ us) = ap suc (unseen-nothing us)

-- The seeds and all callees, which are the ids that the loop can meet.
abbrev pub all_callees : CallGraph → List Bytes
all_callees [] = []
all_callees ((caller, ids) ∷ cg) = ids ++ all_callees cg

length-all_callees : (cg : CallGraph) → length (all_callees cg) ≡ edge_count cg
unfolding edge_count
length-all_callees [] = refl
length-all_callees ((caller, ids) ∷ cg) =
    omega (arith, length-append ids (all_callees cg), length-all_callees cg)

-- The callees of an id stand in the list of all.
pub Edge-all_callees : (cg : CallGraph) (u v : Bytes) → Edge cg u v → Member v (all_callees cg)
unfolding callees or_nil lookup
Edge-all_callees [] u v h = absurd h
Edge-all_callees ((caller, ids) ∷ cg) u v h = elim (Bool-cases (str_eq caller u)) [
  | inl e ↦ Member-append_left v ids (all_callees cg) (rw e at h)
  | inr e ↦ Member-append_right v ids (all_callees cg) (Edge-all_callees cg u v (rw e at h))
]

module _ (universe : List Bytes) where
  abbrev work : Levels → ℕ
  work st = unseen st.depths universe + length st.queue

  reach-work :
      (d : ℕ) (st : Levels) (next : Bytes) → Member next universe → work (reach d st next) ≤ work st
  reach-work d st next m = elim (Option-cases (lookup next st.depths)) [
    | inr (n, e) ↦ rw (reach-seen d st next n e) (omega arith)
    | inl e ↦ rw (reach-new d st next e) (
        omega (
          arith,
          unseen-insert_lt next d st.depths universe e m,
          length-append st.queue ((next, d) ∷ []),
        ))
  ]

  pub reach_all-work :
      (d : ℕ) (st : Levels) (ids : List Bytes)
      → ((v : Bytes) → Member v ids → Member v universe)
      → work (reach_all d st ids) ≤ work st
  unfolding reach_all
  reach_all-work d st [] h = omega arith
  reach_all-work d st (next ∷ ids) h = omega (
    arith,
    reach-work d st next (h next (inl refl)),
    reach_all-work d (reach d st next) ids (λ v m. h v (inr m)),
  )

  depths_loop_ends :
      (cg : CallGraph) (fuel : ℕ) (st : Levels)
      → ((u v : Bytes) → Edge cg u v → Member v universe)
      → work st ≤ fuel
      → (out : List (Bytes × ℕ)) × (depths_loop cg fuel st ≡ some out)
  depths_loop_ends cg zero st inside h = elim (List-cases st.queue) [
    | inl e ↦ (st.depths, depths_loop-done cg zero st e)
    | inr (cur, rest, e) ↦ absurd (omega (arith, h, ap length e))
  ]
  depths_loop_ends cg (suc fuel) st inside h = elim (List-cases st.queue) [
    | inl e ↦ (st.depths, depths_loop-done cg (suc fuel) st e)
    | inr (cur, rest, e) ↦ rw (depths_loop-round cg fuel st cur rest e) (
        depths_loop_ends cg fuel
          (reach_all (suc (cur.1)) (record st { queue = rest }) (callees cg (cur.0))) inside
          (omega (
            arith,
            h,
            ap length e,
            reach_all-work (suc (cur.1)) (record st { queue = rest }) (callees cg (cur.0))
                (λ v m. inside (cur.0) v m),
          )))
  ]

-- The fuel of bfsDepths is enough: it returns a map for every call graph and every list of seeds.
pub bfs_depths_ends :
    (cg : CallGraph) (seeds : List Bytes)
    → (out : List (Bytes × ℕ)) × (bfs_depths cg seeds ≡ some out)
unfolding bfs_depths
bfs_depths_ends cg seeds =
    let universe = seeds ++ all_callees cg in
    depths_loop_ends universe cg (length seeds + edge_count cg)
      (reach_all 0 (record { depths = []; queue = [] }) seeds)
      (λ u v e. Member-append_right v seeds (all_callees cg) (Edge-all_callees cg u v e))
      (omega (
        arith,
        reach_all-work universe 0 (record { depths = []; queue = [] }) seeds
            (λ v m. Member-append_left v seeds (all_callees cg) m),
        unseen-nothing universe,
        length-append seeds (all_callees cg),
        length-all_callees cg,
      ))
