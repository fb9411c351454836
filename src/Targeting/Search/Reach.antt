-- ===== src/Targeting/Search/Reach.antt =====
-- bfsForward of internal/semantic/targeting/targeting.go is bfsDepths without the depths.
use zero_trust_sh.Prelude.{
  ℕ, zero, suc, ◌+◌, Bool, true, false, List, [], ◌∷◌, ◌++◌, Option, none, some, map, ◌≡◌, refl,
  sym, ◌∙◌, ap, inl, inr, Option-cases, Bool-cases, List-cases, length, any,
}
use zero_trust_sh.Prelude.Text.{Bytes, str_eq, str_eq_comm}
use zero_trust_sh.Prelude.Assoc.{lookup, insert}
use zero_trust_sh.Targeting.{CallGraph, callees}
use zero_trust_sh.Targeting.Search.{
  has, Forward, visit, visit_all, forward_loop, bfs_forward, Levels, reach, reach_all, depths_loop,
  bfs_depths, edge_count,
}
use zero_trust_sh.Targeting.Search.Depths.{
  Walk, reach-seen, reach-new, depths_loop-done, depths_loop-stuck, depths_loop-round,
}
use zero_trust_sh.Targeting.Search.Depths.Shortest.{bfs_depths-shortest}

abbrev pub keys : {V : Type 0} → List (Bytes × V) → List Bytes
keys m = map (λ p. p.0) m

abbrev pub is_some : {V : Type 0} → Option V → Bool
is_some none = false
is_some (some v) = true

pub has-keys :
    {V : Type 0} (m : List (Bytes × V)) (k : Bytes) → has (keys m) k ≡ is_some (lookup k m)
unfolding has any lookup
has-keys [] k = refl
has-keys ((j, d) ∷ m) k = elim (Bool-cases (str_eq j k)) [
  | inl e ↦ rw (str_eq_comm k j, e) refl
  | inr e ↦ rw (str_eq_comm k j, e) (has-keys m k)
]

keys-insert :
    (k : Bytes) (d : ℕ) (m : List (Bytes × ℕ))
    → lookup k m ≡ none
    → keys (insert k d m) ≡ keys m ++ k ∷ []
unfolding insert lookup
keys-insert k d [] e = refl
keys-insert k d ((j, w) ∷ m) e = elim (Bool-cases (str_eq j k)) [
  | inl h ↦ cc (rw h at e)
  | inr h ↦ rw h (ap (λ ids. j ∷ ids) (keys-insert k d m (rw h at e)))
]

keys-append : (m n : List (Bytes × ℕ)) → keys (m ++ n) ≡ keys m ++ keys n
keys-append [] n = refl
keys-append (p ∷ m) n = ap (λ ids. p.0 ∷ ids) (keys-append m n)

-- A state without its depths.
abbrev forget : Levels → Forward
forget st = record { visited = keys st.depths; queue = keys st.queue }

visit-reach :
    (d : ℕ) (st : Levels) (next : Bytes) → visit (forget st) next ≡ forget (reach d st next)
unfolding visit
visit-reach d st next = elim (Option-cases (lookup next st.depths)) [
  | inr (n, e) ↦ rw (reach-seen d st next n e, has-keys st.depths next, e) refl
  | inl e ↦
      rw
        (
          reach-new d st next e,
          has-keys st.depths next,
          e,
          keys-insert next d st.depths e,
          keys-append st.queue ((next, d) ∷ []),
        )
        refl
]

visit_all-reach_all :
    (d : ℕ) (st : Levels) (ids : List Bytes)
    → visit_all (forget st) ids ≡ forget (reach_all d st ids)
unfolding visit_all reach_all
visit_all-reach_all d st [] = refl
visit_all-reach_all d st (next ∷ ids) =
    rw (visit-reach d st next) (visit_all-reach_all d (reach d st next) ids)

abbrev keys_of : Option (List (Bytes × ℕ)) → Option (List Bytes)
keys_of none = none
keys_of (some m) = some (keys m)

forward_loop-done :
    (cg : CallGraph) (fuel : ℕ) (st : Forward)
    → st.queue ≡ []
    → forward_loop cg fuel st ≡ some st.visited
unfolding forward_loop
forward_loop-done cg zero st e = rw e refl
forward_loop-done cg (suc fuel) st e = rw e refl

forward_loop-stuck :
    (cg : CallGraph) (st : Forward) (id : Bytes) (rest : List Bytes)
    → st.queue ≡ id ∷ rest
    → forward_loop cg zero st ≡ none
unfolding forward_loop
forward_loop-stuck cg st id rest e = rw e refl

forward_loop-round :
    (cg : CallGraph) (fuel : ℕ) (st : Forward) (id : Bytes) (rest : List Bytes)
    → st.queue ≡ id ∷ rest
    → forward_loop cg (suc fuel) st
      ≡ forward_loop cg fuel (visit_all (record st { queue = rest }) (callees cg id))
unfolding forward_loop
forward_loop-round cg fuel st id rest e = rw e refl

-- Round by round the two loops agree.
forward_loop-depths_loop :
    (cg : CallGraph) (fuel : ℕ) (st : Levels)
    → forward_loop cg fuel (forget st) ≡ keys_of (depths_loop cg fuel st)
forward_loop-depths_loop cg zero st = elim (List-cases st.queue) [
  | inl e ↦
      rw (forward_loop-done cg zero (forget st) (ap keys e), depths_loop-done cg zero st e) refl
  | inr (cur, rest, e) ↦
      rw
        (
          forward_loop-stuck cg (forget st) (cur.0) (keys rest) (ap keys e),
          depths_loop-stuck cg st cur rest e,
        )
        refl
]
forward_loop-depths_loop cg (suc fuel) st = elim (List-cases st.queue) [
  | inl e ↦
      rw
        (
          forward_loop-done cg (suc fuel) (forget st) (ap keys e),
          depths_loop-done cg (suc fuel) st e,
        )
        refl
  | inr (cur, rest, e) ↦
      forward_loop-round cg fuel (forget st) (cur.0) (keys rest) (ap keys e)
      ∙ ap (forward_loop cg fuel)
          (visit_all-reach_all (suc (cur.1)) (record st { queue = rest }) (callees cg (cur.0)))
      ∙ forward_loop-depths_loop cg fuel
          (reach_all (suc (cur.1)) (record st { queue = rest }) (callees cg (cur.0)))
      ∙ ap keys_of (sym (depths_loop-round cg fuel st cur rest e))
]

bfs_forward-bfs_depths :
    (cg : CallGraph) (seeds : List Bytes) → bfs_forward cg seeds ≡ keys_of (bfs_depths cg seeds)
unfolding bfs_forward bfs_depths
bfs_forward-bfs_depths cg seeds =
    ap (forward_loop cg (length seeds + edge_count cg))
      (visit_all-reach_all 0 (record { depths = []; queue = [] }) seeds)
    ∙ forward_loop-depths_loop cg (length seeds + edge_count cg)
        (reach_all 0 (record { depths = []; queue = [] }) seeds)

is_some-some : (o : Option ℕ) → is_some o ≡ true → (n : ℕ) × (o ≡ some n)
is_some-some none h = cc h
is_some-some (some n) h = (n, refl)

-- bfsForward returns, for every call graph and every list of seeds, exactly the ids to which a walk
-- of calls leads from a seed.
pub bfs_forward-reachable :
    (cg : CallGraph) (seeds : List Bytes)
    → (out : List Bytes) × (bfs_forward cg seeds ≡ some out)
      × ((v : Bytes) → has out v ≡ true → (n : ℕ) × Walk cg seeds n v)
      × ((v : Bytes) (n : ℕ) → Walk cg seeds n v → has out v ≡ true)
bfs_forward-reachable cg seeds =
    let (m, e, sound, complete) = bfs_depths-shortest cg seeds in
    (
      keys m,
      bfs_forward-bfs_depths cg seeds ∙ ap keys_of e,
      λ v h.
          let (n, found) = is_some-some (lookup v m) (sym (has-keys m v) ∙ h) in
          (n, sound v n found),
      λ v n w. let (d, found, le) = complete v n w in has-keys m v ∙ ap is_some found,
    )
