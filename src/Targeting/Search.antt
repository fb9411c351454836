-- ===== src/Targeting/Search.antt =====
-- The traversals of internal/semantic/targeting/targeting.go.
pub mod Depths
pub mod Reach
pub mod Reverse
use zero_trust_sh.Prelude.{
  ℕ, zero, suc, ◌+◌, Bool, true, false, List, [], ◌∷◌, ◌++◌, Option, none, some, if◌then◌else◌,
  length, any,
}
use zero_trust_sh.Prelude.Text.{Bytes, str_eq}
use zero_trust_sh.Prelude.Assoc.{lookup, insert}
use zero_trust_sh.Targeting.{CallGraph, callees, or_nil}

-- A map[string]bool that only ever holds true, as its keys.
unfoldable pub has : List Bytes → Bytes → Bool
unfolding any str_eq
has ids id = any (str_eq id) ids

-- The number of ids that the loops can ever see: the seeds and all callees.
unfoldable pub edge_count : CallGraph → ℕ
edge_count [] = 0
edge_count ((caller, ids) ∷ cg) = length ids + edge_count cg

pub record Forward : Type 0 where
  pub visited : List Bytes
  pub queue : List Bytes

-- An id that is not marked is marked and enters the queue.
unfoldable pub visit : Forward → Bytes → Forward
unfolding has
visit st next =
    if has st.visited next
    then st
    else record { visited = st.visited ++ next ∷ []; queue = st.queue ++ next ∷ [] }

unfoldable pub visit_all : Forward → List Bytes → Forward
unfolding visit
visit_all st [] = st
visit_all st (next ∷ ids) = visit_all (visit st next) ids

-- The loop over the queue; `none` is a queue that the fuel does not empty.
unfoldable pub forward_loop : CallGraph → ℕ → Forward → Option (List Bytes)
unfolding visit_all callees
forward_loop cg zero st = elim st.queue [ [] ↦ some st.visited | id ∷ rest ↦ none ]
forward_loop cg (suc fuel) st = elim st.queue [
  | [] ↦ some st.visited
  | id ∷ rest ↦ forward_loop cg fuel (visit_all (record st { queue = rest }) (callees cg id))
]

-- Every id enters the queue once, so there are at most as many rounds as ids.
unfoldable pub bfs_forward : CallGraph → List Bytes → Option (List Bytes)
unfolding forward_loop visit_all edge_count
bfs_forward cg seeds =
    forward_loop cg (length seeds + edge_count cg)
      (visit_all (record { visited = []; queue = [] }) seeds)

-- rev[callee] = append(rev[callee], caller)
unfoldable pub add_caller : Bytes → CallGraph → Bytes → CallGraph
unfolding insert lookup or_nil
add_caller caller rev callee = insert callee (or_nil (lookup callee rev) ++ caller ∷ []) rev

unfoldable pub add_callers : Bytes → CallGraph → List Bytes → CallGraph
unfolding add_caller
add_callers caller rev [] = rev
add_callers caller rev (callee ∷ ids) = add_callers caller (add_caller caller rev callee) ids

unfoldable pub reverse_from : CallGraph → CallGraph → CallGraph
unfolding add_callers
reverse_from [] rev = rev
reverse_from ((caller, ids) ∷ cg) rev = reverse_from cg (add_callers caller rev ids)

unfoldable pub build_reverse_cg : CallGraph → CallGraph
unfolding reverse_from
build_reverse_cg cg = reverse_from cg []

pub record Levels : Type 0 where
  pub depths : List (Bytes × ℕ)
  pub queue : List (Bytes × ℕ)

-- An id without a depth gets the depth `d` and enters the queue with it.
unfoldable pub reach : ℕ → Levels → Bytes → Levels
unfolding lookup insert
reach d st next = elim (lookup next st.depths) [
  | some seen ↦ st
  | none ↦ record { depths = insert next d st.depths; queue = st.queue ++ (next, d) ∷ [] }
]

unfoldable pub reach_all : ℕ → Levels → List Bytes → Levels
unfolding reach
reach_all d st [] = st
reach_all d st (next ∷ ids) = reach_all d (reach d st next) ids

unfoldable pub depths_loop : CallGraph → ℕ → Levels → Option (List (Bytes × ℕ))
unfolding reach_all callees
depths_loop cg zero st = elim st.queue [ [] ↦ some st.depths | cur ∷ rest ↦ none ]
depths_loop cg (suc fuel) st = elim st.queue [
  | [] ↦ some st.depths
  | cur ∷ rest ↦
      depths_loop cg fuel
        (reach_all (suc (cur.1)) (record st { queue = rest }) (callees cg (cur.0)))
]

unfoldable pub bfs_depths : CallGraph → List Bytes → Option (List (Bytes × ℕ))
unfolding depths_loop reach_all edge_count
bfs_depths cg seeds =
    depths_loop cg (length seeds + edge_count cg)
      (reach_all 0 (record { depths = []; queue = [] }) seeds)
