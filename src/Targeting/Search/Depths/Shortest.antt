-- ===== src/Targeting/Search/Depths/Shortest.antt =====
-- What bfsDepths of internal/semantic/targeting/targeting.go returns.
use zero_trust_sh.Prelude.{
  ℕ, zero, suc, ◌≤◌, List, [], ◌∷◌, some, ◌≡◌, refl, sym, ◌∙◌, ap, ◌⊎◌, inl, inr, Member,
  List-cases, arith, length, ◌+◌,
}
use zero_trust_sh.Prelude.Text.{Bytes}
use zero_trust_sh.Prelude.Assoc.{lookup}
use zero_trust_sh.Targeting.{CallGraph, callees}
use zero_trust_sh.Targeting.Search.{Levels, reach_all, depths_loop, bfs_depths, edge_count}
use zero_trust_sh.Targeting.Search.Depths.{
  Edge, Walk, start, step, Grows, reach_all-Grows, depths_loop-done, depths_loop-stuck,
  depths_loop-round,
}
use zero_trust_sh.Targeting.Search.Depths.Rounds.{Band, Band-pop, reach_all-Band}
use zero_trust_sh.Targeting.Search.Depths.Ends.{bfs_depths_ends}

module _ (cg : CallGraph) (seeds : List Bytes) where
  -- A callee of `u` at depth `n` has a depth, of at most one more.
  abbrev pub Close : List (Bytes × ℕ) → ℕ → Bytes → Type 0
  Close m n v = (d : ℕ) × (lookup v m ≡ some d) × (d ≤ suc n)

  record Inv (st : Levels) : Type 0 where
    lo : ℕ
    hi : ℕ
    narrow : hi ≤ suc lo
    band : Band lo hi st
    queued : (v : Bytes) (n : ℕ) → Member (v, n) st.queue → lookup v st.depths ≡ some n
    sound : (v : Bytes) (n : ℕ) → lookup v st.depths ≡ some n → Walk cg seeds n v
    closed :
        (u v : Bytes) (n : ℕ)
        → lookup u st.depths ≡ some n
        → Edge cg u v
        → Member (u, n) st.queue ⊎ Close st.depths n v
    seeded : (v : Bytes) → Member v seeds → lookup v st.depths ≡ some zero

  Close-keeps :
      (d : ℕ) (ids : List Bytes) (st st' : Levels) (n : ℕ) (v : Bytes)
      → Grows d ids st st'
      → Close st.depths n v
      → Close st'.depths n v
  Close-keeps d ids st st' n v g (m, e, h) = (m, g.keeps v m e, h)

  module _ (st : Levels) (cur : Bytes × ℕ) (rest : List (Bytes × ℕ)) (e : st.queue ≡ cur ∷ rest)
      (inv : Inv st) where
    popped : Levels
    popped = record st { queue = rest }

    after : Levels
    unfolding popped
    after = reach_all (suc (cur.1)) popped (callees cg (cur.0))

    grows : Grows (suc (cur.1)) (callees cg (cur.0)) popped after
    unfolding after
    grows = reach_all-Grows (suc (cur.1)) popped (callees cg (cur.0))

    Band-after : Band (cur.1) (suc (cur.1)) after
    unfolding after popped
    Band-after =
        reach_all-Band (cur.1) (suc (cur.1)) popped (callees cg (cur.0)) (omega arith)
          (Band-pop inv.lo inv.hi st cur rest e inv.narrow inv.band)

    cur_depth : lookup (cur.0) st.depths ≡ some (cur.1)
    cur_depth = inv.queued (cur.0) (cur.1) (rw e (inl refl))

    -- The callees of the id that left the queue.
    Close-callee : (v : Bytes) → Edge cg (cur.0) v → Close after.depths (cur.1) v
    Close-callee v edge = let (n, h) = grows.covers v edge in (n, h, Band-after.bounded v n h)

    Inv-after : Inv after
    unfolding popped
    Inv-after = record {
      lo = cur.1;
      hi = suc (cur.1);
      narrow = omega arith;
      band = Band-after;
      queued = λ v n m. elim (grows.queued v n m) [
        | inl old ↦ grows.keeps v n (inv.queued v n (rw e (inr old)))
        | inr now ↦ now
      ];
      sound = λ v n h. elim (grows.fresh v n h) [
        | inl old ↦ inv.sound v n old
        | inr (at, q, edge) ↦ rw at (step (inv.sound (cur.0) (cur.1) cur_depth) edge)
      ];
      closed = λ u v n h edge. elim (grows.fresh u n h) [
        | inr (at, q, m) ↦ inl q
        | inl old ↦ elim (inv.closed u v n old edge) [
          | inr c ↦ inr (Close-keeps (suc (cur.1)) (callees cg (cur.0)) popped after n v grows c)
          | inl waiting ↦ elim (rw e at waiting) [
            | inl same ↦ inr (
                rw (sym (ap (λ p. p.1) same))
                  (Close-callee v (rw (sym (ap (λ p. p.0) same)) at edge)))
            | inr later ↦ inl (grows.keeps_queue (u, n) later)
          ]
        ]
      ];
      seeded = λ v m. grows.keeps v zero (inv.seeded v m);
    }

  lookup-nothing : (v : Bytes) (n : ℕ) → ¬ (lookup {V = ℕ} v [] ≡ some n)
  unfolding lookup
  lookup-nothing v n h = cc h

  nothing : Levels
  nothing = record { depths = []; queue = [] }

  Inv-start : Inv (reach_all 0 nothing seeds)
  unfolding nothing
  Inv-start =
      let g = reach_all-Grows 0 nothing seeds in
      let b = reach_all-Band 0 0 nothing seeds (omega arith) (record {
        ascending = tt;
        inside = tt;
        bounded = λ v n h. absurd (lookup-nothing v n h);
      }) in
      record {
        lo = 0;
        hi = 0;
        narrow = omega arith;
        band = b;
        queued = λ v n m. elim (g.queued v n m) [ inl old ↦ absurd old | inr now ↦ now ];
        sound = λ v n h. elim (g.fresh v n h) [
          | inl old ↦ absurd (lookup-nothing v n old)
          | inr (at, q, m) ↦ rw at (start m)
        ];
        closed = λ u v n h edge. elim (g.fresh u n h) [
          | inl old ↦ absurd (lookup-nothing u n old)
          | inr (at, q, m) ↦ inl q
        ];
        seeded = λ v m.
            let (n, h) = g.covers v m in
            let zero_depth : n ≡ zero = omega (arith, b.bounded v n h) in rw zero_depth at h;
      }

  loop-Inv :
      (fuel : ℕ) (st : Levels) (out : List (Bytes × ℕ))
      → Inv st
      → depths_loop cg fuel st ≡ some out
      → (end : Levels) × Inv end × (end.queue ≡ []) × (end.depths ≡ out)
  loop-Inv zero st out inv h = elim (List-cases st.queue) [
    | inl e ↦ (st, inv, e, cc (depths_loop-done cg zero st e, h))
    | inr (cur, rest, e) ↦ cc (depths_loop-stuck cg st cur rest e, h)
  ]
  loop-Inv (suc fuel) st out inv h = elim (List-cases st.queue) [
    | inl e ↦ (st, inv, e, cc (depths_loop-done cg (suc fuel) st e, h))
    | inr (cur, rest, e) ↦
        loop-Inv fuel (after st cur rest e inv) out (Inv-after st cur rest e inv)
          (unfold after popped in sym (depths_loop-round cg fuel st cur rest e) ∙ h)
  ]

  -- With an empty queue no walk is shorter than the depth.
  Walk-depth :
      (st : Levels)
      → Inv st
      → st.queue ≡ []
      → {n : ℕ} {v : Bytes} → Walk cg seeds n v
      → (d : ℕ) × (lookup v st.depths ≡ some d) × (d ≤ n)
  Walk-depth st inv e {v = v} (start m) = (zero, inv.seeded v m, omega arith)
  Walk-depth st inv e {v = v} (step {n} {u} w edge) =
      let (d, h, le) = Walk-depth st inv e w in
      elim (inv.closed u v d h edge) [
        | inl waiting ↦ absurd (rw e at waiting)
        | inr (m, hv, lev) ↦ (m, hv, omega (arith, le, lev))
      ]

-- bfsDepths returns, for every call graph and every list of seeds: each depth is the length of a walk
-- of calls from a seed, and each id to which a walk leads has a depth, at most the walk's length. So
-- the depths are the least numbers of calls, and the ids without one are those that no walk reaches.
pub bfs_depths-shortest :
    (cg : CallGraph) (seeds : List Bytes)
    → (out : List (Bytes × ℕ)) × (bfs_depths cg seeds ≡ some out)
      × ((v : Bytes) (n : ℕ) → lookup v out ≡ some n → Walk cg seeds n v)
      × ((v : Bytes) (n : ℕ) → Walk cg seeds n v → (d : ℕ) × (lookup v out ≡ some d) × (d ≤ n))
bfs_depths-shortest cg seeds =
    let (out, e) = bfs_depths_ends cg seeds in
    let (end, inv, empty, same) =
      loop-Inv cg seeds (length seeds + edge_count cg) (reach_all 0 (nothing cg seeds) seeds) out
        (Inv-start cg seeds) (unfold bfs_depths nothing in e) in
    (
      out,
      e,
      λ v n h. inv.sound v n (rw same h),
      λ v n w. rw (sym same) (Walk-depth cg seeds end inv empty w),
    )
