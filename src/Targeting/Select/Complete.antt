-- ===== src/Targeting/Select/Complete.antt =====
-- Run of internal/semantic/targeting/targeting.go leaves out no function between a source and a sink.
use zero_trust_sh.Prelude.{
  ℕ, List, [], ◌∷◌, true, false, All, Any, ◌≡◌, refl, sym, ◌∙◌, inl, inr, ◌⊎◌, Bool-cases,
  Option-cases, some, any,
}
use zero_trust_sh.Prelude.Text.{Bytes, str_eq, str_eq_iff}
use zero_trust_sh.Prelude.Float.{Float64}
use zero_trust_sh.Prelude.Assoc.{lookup, insert, lookup-insert}
use zero_trust_sh.Surface.{Surface}
use zero_trust_sh.Targeting.{Node, CallGraph, or_nil}
use zero_trust_sh.Targeting.Boundary.{FileClass}
use zero_trust_sh.Targeting.Search.{has, bfs_forward, build_reverse_cg}
use zero_trust_sh.Targeting.Search.Depths.{Walk}
use zero_trust_sh.Targeting.Search.Reach.{bfs_forward-reachable, is_some}
use zero_trust_sh.Targeting.Select.{
  by_id, Reached, Seeds, surface_of, intersect, overwrite, add_missing, values, merge_surfaces,
  reach_from, select_from, is_nil, sorted, place, comes_before,
}
use zero_trust_sh.Targeting.Select.Idor.{identify_idor}
use zero_trust_sh.Targeting.Select.SecondOrder.{detect_second_order}
use zero_trust_sh.Targeting.Select.Members.{Named, by_id-Named}

-- Every surface stands under its id.
abbrev Keyed : List (Bytes × Surface) → Type 0
Keyed merged = All (λ e. (e.1).id ≡ e.0) merged

insert-Keyed :
    (k : Bytes) (s : Surface) (m : List (Bytes × Surface))
    → s.id ≡ k
    → Keyed m
    → Keyed (insert k s m)
unfolding insert
insert-Keyed k s [] e h = (e, tt)
insert-Keyed k s ((j, t) ∷ m) e h = elim (Bool-cases (str_eq j k)) [
  | inl b ↦ rw b (e, h.1)
  | inr b ↦ rw b (h.0, insert-Keyed k s m e h.1)
]

overwrite-Keyed :
    (ss : List Surface) (m : List (Bytes × Surface)) → Keyed m → Keyed (overwrite ss m)
unfolding overwrite
overwrite-Keyed [] m h = h
overwrite-Keyed (s ∷ ss) m h = overwrite-Keyed ss (insert s.id s m) (insert-Keyed s.id s m refl h)

add_missing-Keyed :
    (ss : List Surface) (m : List (Bytes × Surface)) → Keyed m → Keyed (add_missing ss m)
unfolding add_missing
add_missing-Keyed [] m h = h
add_missing-Keyed (s ∷ ss) m h = elim (Option-cases (lookup s.id m)) [
  | inl e ↦
      rw (e, add_missing) (add_missing-Keyed ss (insert s.id s m) (insert-Keyed s.id s m refl h))
  | inr (old, e) ↦ rw (e, add_missing) (add_missing-Keyed ss m h)
]

-- Some surface stands under the id.
abbrev Present : Bytes → List (Bytes × Surface) → Type 0
Present id merged = is_some (lookup id merged) ≡ true

insert-Present :
    (id k : Bytes) (s : Surface) (m : List (Bytes × Surface))
    → Present id m
    → Present id (insert k s m)
insert-Present id k s m h =
    rw (lookup-insert k id s m)
      (elim (Bool-cases (str_eq k id)) [ inl e ↦ rw e refl | inr e ↦ rw e h ])

overwrite-Present :
    (id : Bytes) (ss : List Surface) (m : List (Bytes × Surface))
    → Present id m
    → Present id (overwrite ss m)
unfolding overwrite
overwrite-Present id [] m h = h
overwrite-Present id (s ∷ ss) m h =
    overwrite-Present id ss (insert s.id s m) (insert-Present id s.id s m h)

add_missing-Present :
    (id : Bytes) (ss : List Surface) (m : List (Bytes × Surface))
    → Present id m
    → Present id (add_missing ss m)
unfolding add_missing
add_missing-Present id [] m h = h
add_missing-Present id (s ∷ ss) m h = elim (Option-cases (lookup s.id m)) [
  | inl e ↦
      rw (e, add_missing)
        (add_missing-Present id ss (insert s.id s m) (insert-Present id s.id s m h))
  | inr (old, e) ↦ rw (e, add_missing) (add_missing-Present id ss m h)
]

values-Present :
    (id : Bytes) (m : List (Bytes × Surface))
    → Keyed m
    → Present id m
    → Any (λ s. s.id ≡ id) (values m)
unfolding lookup
values-Present id [] h p = absurd (cc p)
values-Present id ((j, s) ∷ m) h p = elim (Bool-cases (str_eq j id)) [
  | inl e ↦ inl (h.0 ∙ (str_eq_iff j id).0 e)
  | inr e ↦ inr (values-Present id m h.1 (rw (e, lookup) at p))
]

Any-place :
    (P : Surface → Type 0) (s : Surface) (ss : List Surface) → P s ⊎ Any P ss → Any P (place s ss)
unfolding place
Any-place P s [] h = h
Any-place P s (t ∷ ts) h = elim (Bool-cases (comes_before t s)) [
  | inr e ↦ rw (e, place) h
  | inl e ↦
      rw (e, place)
        (elim h [
          | inl p ↦ inr (Any-place P s ts (inl p))
          | inr q ↦ elim q [ inl p ↦ inl p | inr r ↦ inr (Any-place P s ts (inr r)) ]
        ])
]

Any-sorted : (P : Surface → Type 0) (ss : List Surface) → Any P ss → Any P (sorted ss)
unfolding sorted
Any-sorted P [] h = absurd h
Any-sorted P (s ∷ ss) h = elim h [
  | inl p ↦ Any-place P s (sorted ss) (inl p)
  | inr q ↦ Any-place P s (sorted ss) (inr (Any-sorted P ss q))
]

module _ (z : Float64) (r : Reached) where
  intersect-Keyed :
      (ids : List Bytes) (m : List (Bytes × Surface))
      → Named r.nodes
      → Keyed m
      → Keyed (intersect z r ids m)
  unfolding intersect surface_of
  intersect-Keyed [] m named h = h
  intersect-Keyed (id ∷ ids) m named h = elim (Bool-cases (has r.backward id)) [
    | inr e ↦ rw (e, intersect) (intersect-Keyed ids m named h)
    | inl e ↦ elim (Option-cases (lookup id r.nodes)) [
      | inl f ↦ rw (e, f, intersect) (intersect-Keyed ids m named h)
      | inr (n, f) ↦
          rw (e, f, intersect)
            (intersect-Keyed ids (insert id (surface_of z r id n) m) named
              (insert-Keyed id (surface_of z r id n) m (named id n f) h))
    ]
  ]

  intersect-Present :
      (id : Bytes) (n : Node) (ids : List Bytes) (m : List (Bytes × Surface))
      → has r.backward id ≡ true
      → lookup id r.nodes ≡ some n
      → Present id m ⊎ (has ids id ≡ true)
      → Present id (intersect z r ids m)
  unfolding intersect has any
  intersect-Present id n [] m b l h = elim h [ inl p ↦ p | inr q ↦ absurd (cc q) ]
  intersect-Present id n (j ∷ ids) m b l h = elim (Bool-cases (str_eq id j)) [
    | inl e ↦
        let same : id ≡ j = (str_eq_iff id j).0 e in
        let bj : has r.backward j ≡ true = cc (same, b) in
        let lj : lookup j r.nodes ≡ some n = cc (same, l) in
        let back : str_eq j id ≡ true = (str_eq_iff j id).1 (sym same) in
        rw (bj, lj, intersect)
          (intersect-Present id n ids (insert j (surface_of z r j n) m) b l
            (inl (rw (lookup-insert j id (surface_of z r j n) m, back) refl)))
    | inr e ↦
        let rest : Present id m ⊎ (has ids id ≡ true) = elim h [
          | inl p ↦ inl p
          | inr q ↦ inr (rw e at q)
        ] in
        elim (Bool-cases (has r.backward j)) [
          | inr bj ↦ rw (bj, intersect) (intersect-Present id n ids m b l rest)
          | inl bj ↦ elim (Option-cases (lookup j r.nodes)) [
            | inl lj ↦ rw (bj, lj, intersect) (intersect-Present id n ids m b l rest)
            | inr (o, lj) ↦
                rw (bj, lj, intersect)
                  (intersect-Present id n ids (insert j (surface_of z r j o) m) b l (elim rest [
                    | inl p ↦ inl (insert-Present id j (surface_of z r j o) m p)
                    | inr q ↦ inr q
                  ]))
          ]
        ]
  ]

bfs_forward-has :
    (cg : CallGraph) (seeds : List Bytes) (n : ℕ) (v : Bytes)
    → Walk cg seeds n v
    → has (or_nil (bfs_forward cg seeds)) v ≡ true
unfolding or_nil
bfs_forward-has cg seeds n v w =
    let (out, e, sound, complete) = bfs_forward-reachable cg seeds in rw e (complete v n w)

-- Where there are source and sink seeds, Run selects a surface for every known function that is reached along
-- calls from a source seed and reaches a sink seed.
pub select_from_complete :
    (z : Float64) (root : Bytes) (classes : List (Bytes × FileClass)) (cg : CallGraph)
    (methods : List Node) (seeds : Seeds) (id : Bytes) (node : Node) (n k : ℕ)
    → is_nil seeds.source_seeds ≡ false
    → is_nil seeds.sink_seeds ≡ false
    → lookup id (by_id methods []) ≡ some node
    → Walk cg seeds.source_seeds n id
    → Walk (build_reverse_cg cg) seeds.sink_seeds k id
    → Any (λ s. s.id ≡ id) (select_from z root classes cg methods seeds)
unfolding select_from merge_surfaces reach_from
select_from_complete z root classes cg methods seeds id node n k src snk known from to =
    let r = reach_from cg methods seeds in
    let named = by_id-Named methods [] (λ j m e. cc e) in
    let start = intersect z r r.forward [] in
    let idor = identify_idor start r.auth in
    let second = detect_second_order z cg methods r.nodes classes r.backward root in
    let here =
      intersect-Present z r id node r.forward []
        (bfs_forward-has (build_reverse_cg cg) seeds.sink_seeds k id to) known
        (inr (bfs_forward-has cg seeds.source_seeds n id from)) in
    rw (src, snk)
      (Any-sorted (λ s. s.id ≡ id) (values (merge_surfaces z root classes cg methods r))
        (values-Present id (merge_surfaces z root classes cg methods r)
          (add_missing-Keyed second (overwrite idor start)
            (overwrite-Keyed idor start (intersect-Keyed z r r.forward [] named tt)))
          (add_missing-Present id second (overwrite idor start)
            (overwrite-Present id idor start here))))
