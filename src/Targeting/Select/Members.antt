-- ===== src/Targeting/Select/Members.antt =====
-- Which surfaces Run of internal/semantic/targeting/targeting.go selects.
use zero_trust_sh.Prelude.{
  ℕ, List, [], ◌∷◌, true, ◌||◌, not, All, All-map, Member, any, ◌≡◌, refl, arith, inl, inr, ◌⊎◌,
  Bool-cases, Option-cases, some,
}
use zero_trust_sh.Prelude.Text.{Bytes, str_eq, str_eq_iff, str_eq_refl}
use zero_trust_sh.Prelude.Float.{Float64}
use zero_trust_sh.Prelude.Assoc.{lookup, insert, lookup-insert}
use zero_trust_sh.Surface.{Surface}
use zero_trust_sh.Targeting.{Node, CallGraph, or_nil}
use zero_trust_sh.Targeting.Boundary.{FileClass}
use zero_trust_sh.Targeting.Search.{has, bfs_forward, build_reverse_cg}
use zero_trust_sh.Targeting.Search.Depths.{Walk}
use zero_trust_sh.Targeting.Search.Reach.{bfs_forward-reachable}
use zero_trust_sh.Targeting.Select.{
  by_id, Reached, Seeds, surface_of, intersect, overwrite, add_missing, values, merge_surfaces,
  reach_from, select_from, is_nil, sorted,
}
use zero_trust_sh.Targeting.Select.Idor.{identify_idor, is_candidate, promote}
use zero_trust_sh.Targeting.Select.SecondOrder.{
  second_order_from, second_order_of, detect_second_order, storage_ids, second_order_surface,
}
use zero_trust_sh.Targeting.Select.Order.{All-sorted}

-- Both searches met the surface; only a second-order one need not be met from a source.
abbrev Meets : Reached → Surface → Type 0
Meets r s =
    (has r.backward s.id ≡ true) × ((s.is_second_order ≡ true) ⊎ (has r.forward s.id ≡ true))

abbrev pub Named : List (Bytes × Node) → Type 0
Named nodes = (k : Bytes) (m : Node) → lookup k nodes ≡ some m → m.id ≡ k

insert-Named : (m : Node) (nodes : List (Bytes × Node)) → Named nodes → Named (insert m.id m nodes)
insert-Named m nodes h k n e = elim (Bool-cases (str_eq m.id k)) [
  | inl t ↦ ground (arith, lookup-insert m.id k m nodes, str_eq_iff m.id k)
  | inr f ↦ h k n (ground (arith, lookup-insert m.id k m nodes))
]

pub by_id-Named :
    (methods : List Node) (nodes : List (Bytes × Node)) → Named nodes → Named (by_id methods nodes)
unfolding by_id
by_id-Named [] nodes h = h
by_id-Named (m ∷ methods) nodes h =
    by_id-Named methods (insert m.id m nodes) (insert-Named m nodes h)

module _ (P : Surface → Type 0) where
  -- Every surface of the map satisfies `P`.
  abbrev Each : List (Bytes × Surface) → Type 0
  Each merged = All (λ e. P (e.1)) merged

  insert-Each :
      (k : Bytes) (s : Surface) (m : List (Bytes × Surface)) → P s → Each m → Each (insert k s m)
  unfolding insert
  insert-Each k s [] p h = (p, tt)
  insert-Each k s ((j, t) ∷ m) p h = elim (Bool-cases (str_eq j k)) [
    | inl e ↦ rw e (p, h.1)
    | inr e ↦ rw e (h.0, insert-Each k s m p h.1)
  ]

  overwrite-Each :
      (ss : List Surface) (m : List (Bytes × Surface)) → All P ss → Each m → Each (overwrite ss m)
  unfolding overwrite
  overwrite-Each [] m h e = e
  overwrite-Each (s ∷ ss) m h e =
      overwrite-Each ss (insert s.id s m) h.1 (insert-Each s.id s m h.0 e)

  add_missing-Each :
      (ss : List Surface) (m : List (Bytes × Surface)) → All P ss → Each m → Each (add_missing ss m)
  unfolding add_missing
  add_missing-Each [] m h e = e
  add_missing-Each (s ∷ ss) m h e = elim (Option-cases (lookup s.id m)) [
    | inl new ↦
        rw (new, add_missing)
          (add_missing-Each ss (insert s.id s m) h.1 (insert-Each s.id s m h.0 e))
    | inr (old, found) ↦ rw (found, add_missing) (add_missing-Each ss m h.1 e)
  ]

  values-All : (m : List (Bytes × Surface)) → Each m → All P (values m)
  values-All [] h = tt
  values-All (e ∷ m) h = (h.0, values-All m h.1)

module _ (z : Float64) (r : Reached) where
  intersect-Each :
      (ids : List Bytes) (m : List (Bytes × Surface))
      → Named r.nodes
      → All (λ id. has r.forward id ≡ true) ids
      → Each (Meets r) m
      → Each (Meets r) (intersect z r ids m)
  unfolding intersect surface_of
  intersect-Each [] m named met h = h
  intersect-Each (id ∷ ids) m named met h = elim (Bool-cases (has r.backward id)) [
    | inr e ↦ rw (e, intersect) (intersect-Each ids m named met.1 h)
    | inl e ↦ elim (Option-cases (lookup id r.nodes)) [
      | inl none_found ↦ rw (e, none_found, intersect) (intersect-Each ids m named met.1 h)
      | inr (n, found) ↦
          let same = named id n found in
          let good : Meets r (surface_of z r id n) =
            (cc (same, e), inr (let f : has r.forward id ≡ true = met.0 in cc (same, f))) in
          rw (e, found, intersect)
            (intersect-Each ids (insert id (surface_of z r id n) m) named met.1
              (insert-Each (Meets r) id (surface_of z r id n) m good h))
    ]
  ]

  identify_idor-Each :
      (can : List Bytes) (m : List (Bytes × Surface))
      → Each (Meets r) m
      → All (Meets r) (identify_idor m can)
  unfolding identify_idor promote
  identify_idor-Each can [] h = tt
  identify_idor-Each can ((id, s) ∷ m) h = elim (Bool-cases (is_candidate can (id, s))) [
    | inl e ↦ rw e (h.0, identify_idor-Each can m h.1)
    | inr e ↦ rw e (identify_idor-Each can m h.1)
  ]

  second_order_from-All :
      (seen ids : List Bytes) → All (Meets r) (second_order_from z r.nodes r.backward seen ids)
  unfolding second_order_from second_order_surface
  second_order_from-All seen [] = tt
  second_order_from-All seen (id ∷ ids) =
      elim (Bool-cases (has seen id || not (has r.backward id))) [
        | inl e ↦ rw (e, second_order_from) (second_order_from-All seen ids)
        | inr e ↦
            rw (e, second_order_from)
              ((ground arith, inl refl), second_order_from-All (id ∷ seen) ids)
      ]

Member-has : (id : Bytes) (ids : List Bytes) → Member id ids → has ids id ≡ true
unfolding has any
Member-has id [] h = absurd h
Member-has id (j ∷ ids) h = elim h [
  | inl e ↦ rw (e, str_eq_refl id) refl
  | inr t ↦ ground (arith, Member-has id ids t)
]

All-Member :
    (P : Bytes → Type 0) (ids : List Bytes) → ((id : Bytes) → Member id ids → P id) → All P ids
All-Member P [] f = tt
All-Member P (id ∷ ids) f = (f id (inl refl), All-Member P ids (λ j m. f j (inr m)))

detect_second_order-All :
    (z : Float64) (cg : CallGraph) (methods : List Node) (r : Reached) (ids : List Bytes)
    → All (Meets r) (second_order_of z cg r.nodes r.backward ids)
unfolding second_order_of
detect_second_order-All z cg methods r [] = tt
detect_second_order-All z cg methods r (id ∷ ids) =
    second_order_from-All z r [] (or_nil (bfs_forward (build_reverse_cg cg) (id ∷ ids)))

merge_surfaces-Each :
    (z : Float64) (root : Bytes) (classes : List (Bytes × FileClass)) (cg : CallGraph)
    (methods : List Node) (r : Reached)
    → Named r.nodes
    → Each (Meets r) (merge_surfaces z root classes cg methods r)
unfolding merge_surfaces detect_second_order
merge_surfaces-Each z root classes cg methods r named =
    let met =
      All-Member (λ id. has r.forward id ≡ true) r.forward (λ id m. Member-has id r.forward m) in
    let both : Each (Meets r) (intersect z r r.forward []) =
      intersect-Each z r r.forward [] named met tt in
    let idor = identify_idor-Each z r r.auth (intersect z r r.forward []) both in
    add_missing-Each (Meets r)
      (second_order_of z cg r.nodes r.backward (storage_ids root classes methods []))
      (overwrite (identify_idor (intersect z r r.forward []) r.auth) (intersect z r r.forward []))
      (detect_second_order-All z cg methods r (storage_ids root classes methods []))
      (overwrite-Each (Meets r) (identify_idor (intersect z r r.forward []) r.auth)
        (intersect z r r.forward []) idor both)

-- A walk of calls, in the graph, from one of the seeds to the surface.
abbrev pub Reaches : CallGraph → List Bytes → Surface → Type 0
Reaches cg seeds s = (n : ℕ) × Walk cg seeds n s.id

bfs_forward-Reaches :
    (cg : CallGraph) (seeds : List Bytes) (s : Surface)
    → has (or_nil (bfs_forward cg seeds)) s.id ≡ true
    → Reaches cg seeds s
unfolding or_nil
bfs_forward-Reaches cg seeds s h =
    let (out, e, sound, complete) = bfs_forward-reachable cg seeds in sound s.id (rw e at h)

-- Every surface that Run selects, from the seeds it has collected, reaches a sink seed along calls (in the reversed
-- graph a walk leads to it from there); and it is reached along calls from a source seed, unless
-- it is marked as second-order.
pub select_from-Reaches :
    (z : Float64) (root : Bytes) (classes : List (Bytes × FileClass)) (cg : CallGraph)
    (methods : List Node) (seeds : Seeds)
    → All
        (λ s.
          Reaches (build_reverse_cg cg) seeds.sink_seeds s
          × ((s.is_second_order ≡ true) ⊎ Reaches cg seeds.source_seeds s))
        (select_from z root classes cg methods seeds)
unfolding select_from reach_from
select_from-Reaches z root classes cg methods seeds =
    let r = reach_from cg methods seeds in
    elim (Bool-cases (is_nil seeds.source_seeds || is_nil seeds.sink_seeds)) [
      | inl e ↦ rw e tt
      | inr e ↦ rw e (
          All-map (Meets r)
            (λ s.
              Reaches (build_reverse_cg cg) seeds.sink_seeds s
              × ((s.is_second_order ≡ true) ⊎ Reaches cg seeds.source_seeds s))
            (sorted (values (merge_surfaces z root classes cg methods r)))
            (λ s h. (
              bfs_forward-Reaches (build_reverse_cg cg) seeds.sink_seeds s h.0,
              elim h.1 [
                | inl second ↦ inl second
                | inr f ↦ inr (bfs_forward-Reaches cg seeds.source_seeds s f)
              ],
            ))
            (All-sorted (Meets r) (values (merge_surfaces z root classes cg methods r)) (
              values-All (Meets r) (merge_surfaces z root classes cg methods r) (
                merge_surfaces-Each z root classes cg methods r
                  (by_id-Named methods [] (λ k m e. cc e))))))
    ]
