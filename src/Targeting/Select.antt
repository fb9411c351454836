-- ===== src/Targeting/Select.antt =====
-- The selection of surfaces: Run of internal/semantic/targeting/targeting.go, identifyIDOR of idor.go
-- and DetectSecondOrder of second_order.go.
pub mod Collect
pub mod Idor
pub mod SecondOrder
pub mod Order
pub mod Members
pub mod Complete
use zero_trust_sh.Prelude.{
  ℕ, zero, suc, ◌+◌, ◌-◌, Bool, true, false, List, [], ◌∷◌, ◌++◌, Option, none, some, map,
  if◌then◌else◌, ltb, ◌==◌, ◌&&◌, ◌||◌, not, any, take, drop, length,
}
use zero_trust_sh.Prelude.Text.{Bytes, codes, contains, str_eq, to_lower}
use zero_trust_sh.Prelude.Float.{Float64}
use zero_trust_sh.Prelude.Path.{is_abs, join_path, bytes_lt}
use zero_trust_sh.Prelude.Assoc.{lookup, insert}
use zero_trust_sh.Surface.{
  Surface, SurfaceKind, external_input, auth_boundary, idor_candidate, dangerous_sink, other_kind,
  method,
}
use zero_trust_sh.Targeting.{Node, CallGraph, or_nil}
use zero_trust_sh.Targeting.TestFile.{is_test_file}
use zero_trust_sh.Targeting.Boundary.{FileClass}
use zero_trust_sh.Targeting.Search.{has, bfs_forward, bfs_depths, build_reverse_cg}
use zero_trust_sh.Targeting.Select.Idor.{identify_idor}
use zero_trust_sh.Targeting.Select.SecondOrder.{detect_second_order, abs_file}
unfoldable pub use zero_trust_sh.Targeting.Select.Collect.*

unfoldable pub depth_of : Option ℕ → ℕ
depth_of none = 0
depth_of (some d) = d

unfoldable pub depths_or_nil : Option (List (Bytes × ℕ)) → List (Bytes × ℕ)
depths_or_nil none = []
depths_or_nil (some m) = m

abbrev pub is_nil : List Bytes → Bool
is_nil [] = true
is_nil (id ∷ ids) = false

-- What the phases after the seeds read.
pub record Reached : Type 0 where
  pub nodes : List (Bytes × Node)
  pub forward : List Bytes
  pub backward : List Bytes
  pub auth : List Bytes
  pub auth_seed_set : List Bytes
  pub depths : List (Bytes × ℕ)

unfoldable pub surface_of : Float64 → Reached → Bytes → Node → Surface
unfolding has depth_of lookup
surface_of zero_score r id m = record {
  id = m.id;
  file = m.file;
  function_name = m.name;
  line = m.line;
  node_type = method;
  kind = if has r.auth_seed_set id || has r.auth id then auth_boundary else external_input;
  call_graph_depth = depth_of (lookup id r.depths);
  is_idor_candidate = false;
  is_second_order = false;
  cvss_score = zero_score;
  has_cve_match = false;
  confidence_score = zero_score;
}

-- Phase 5: the nodes that both searches reach; `ids` is what is left of the forward set.
unfoldable pub intersect :
    Float64 → Reached → List Bytes → List (Bytes × Surface) → List (Bytes × Surface)
unfolding has lookup insert surface_of
intersect zero_score r [] merged = merged
intersect zero_score r (id ∷ ids) merged = elim (has r.backward id) [
  | false ↦ intersect zero_score r ids merged
  | true ↦ elim (lookup id r.nodes) [
    | none ↦ intersect zero_score r ids merged
    | some m ↦ intersect zero_score r ids (insert id (surface_of zero_score r id m) merged)
  ]
]

-- merged[s.ID] = s
unfoldable pub overwrite : List Surface → List (Bytes × Surface) → List (Bytes × Surface)
unfolding insert
overwrite [] merged = merged
overwrite (s ∷ surfaces) merged = overwrite surfaces (insert s.id s merged)

-- if _, exists := merged[s.ID]; !exists { merged[s.ID] = s }
unfoldable pub add_missing : List Surface → List (Bytes × Surface) → List (Bytes × Surface)
unfolding insert lookup
add_missing [] merged = merged
add_missing (s ∷ surfaces) merged = elim (lookup s.id merged) [
  | some old ↦ add_missing surfaces merged
  | none ↦ add_missing surfaces (insert s.id s merged)
]

abbrev pub kind_priority : SurfaceKind → ℕ
kind_priority idor_candidate = 3
kind_priority auth_boundary = 2
kind_priority external_input = 1
kind_priority _ = 0

-- The comparison of the sort.
unfoldable pub comes_before : Surface → Surface → Bool
unfolding bytes_lt
comes_before a b =
    ltb (kind_priority b.kind) (kind_priority a.kind)
    || (kind_priority a.kind == kind_priority b.kind
        && (ltb a.call_graph_depth b.call_graph_depth
            || (a.call_graph_depth == b.call_graph_depth && bytes_lt a.id b.id)))

-- sort.SliceStable
unfoldable pub place : Surface → List Surface → List Surface
unfolding comes_before
place s [] = s ∷ []
place s (t ∷ ts) = let rest = place s ts in if comes_before t s then t ∷ rest else s ∷ t ∷ ts

unfoldable pub sorted : List Surface → List Surface
unfolding place
sorted [] = []
sorted (s ∷ ss) = place s (sorted ss)

abbrev pub values : List (Bytes × Surface) → List Surface
values merged = map (λ p. p.1) merged

-- The two failures of the graph, that of the walk over the files, and the surfaces.
pub data Selection : Type 0 where
  import_failed call_graph_failed query_failed : Selection
  selected : List Surface → Selection

unfoldable pub reach_from : CallGraph → List Node → Seeds → Reached
unfolding or_nil bfs_forward bfs_depths build_reverse_cg by_id auth_seeds_of depths_or_nil
reach_from cg methods seeds = record {
  nodes = by_id methods [];
  forward = or_nil (bfs_forward cg seeds.source_seeds);
  backward = or_nil (bfs_forward (build_reverse_cg cg) seeds.sink_seeds);
  auth = or_nil (bfs_forward (build_reverse_cg cg) (auth_seeds_of seeds));
  auth_seed_set = auth_seeds_of seeds;
  depths = depths_or_nil (bfs_depths cg seeds.source_seeds);
}

-- Phases 5 to 7, before the sort.
unfoldable pub merge_surfaces :
    Float64
    → Bytes
    → List (Bytes × FileClass)
    → CallGraph
    → List Node
    → Reached
    → List (Bytes × Surface)
unfolding intersect overwrite add_missing identify_idor detect_second_order
merge_surfaces zero_score root classes cg methods r =
    let merged = intersect zero_score r r.forward [] in
    let with_idor = overwrite (identify_idor merged r.auth) merged in
    add_missing (detect_second_order zero_score cg methods r.nodes classes r.backward root)
      with_idor

unfoldable pub select_from :
    Float64 → Bytes → List (Bytes × FileClass) → CallGraph → List Node → Seeds → List Surface
unfolding sorted merge_surfaces reach_from
select_from zero_score root classes cg methods seeds =
    if is_nil seeds.source_seeds || is_nil seeds.sink_seeds
    then []
    else sorted
        (values (merge_surfaces zero_score root classes cg methods (reach_from cg methods seeds)))

-- Run: `none` is an error of the walk, of GetCallGraph or of QueryNodes.
unfoldable pub run :
    Float64
    → (Bytes → Option (List Bytes))
    → Bytes
    → Option (List (Bytes × FileClass))
    → Option CallGraph
    → Option (List Node)
    → Selection
unfolding select_from seed_all
run zero_score read root none graph nodes = import_failed
run zero_score read root (some classes) none nodes = call_graph_failed
run zero_score read root (some classes) (some cg) none = query_failed
run zero_score read root (some classes) (some cg) (some methods) = selected (
    select_from zero_score root classes cg methods (
      seed_all read root classes methods
        (record { source_seeds = []; sink_seeds = []; auth_seeds = []; fallback_auth_seeds = [] })))
