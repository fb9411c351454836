-- ===== src/Targeting/Select/SecondOrder.antt =====
-- internal/semantic/targeting/second_order.go. storageReachable and storageWriters are computed there
-- and read by nothing; they are left out.
use zero_trust_sh.Prelude.{
  ℕ, List, [], ◌∷◌, ◌++◌, Bool, true, false, ◌&&◌, ◌||◌, if◌then◌else◌, not, Option, none, some,
}
use zero_trust_sh.Prelude.Text.{Bytes}
use zero_trust_sh.Prelude.Float.{Float64}
use zero_trust_sh.Prelude.Path.{is_abs, join_path}
use zero_trust_sh.Prelude.Assoc.{lookup}
use zero_trust_sh.Surface.{Surface, external_input, method}
use zero_trust_sh.Targeting.{Node, CallGraph, or_nil}
use zero_trust_sh.Targeting.Boundary.{FileClass}
use zero_trust_sh.Targeting.Search.{has, bfs_forward, build_reverse_cg}

-- Files of nodes are relative to the root.
unfoldable pub abs_file : Bytes → Bytes → Bytes
unfolding is_abs join_path
abs_file root file = if is_abs file then file else join_path root file

abbrev pub has_storage : Option FileClass → Bool
has_storage none = false
has_storage (some fc) = fc.bound.storage

-- The keys of storageMethodIDs.
unfoldable pub storage_ids : Bytes → List (Bytes × FileClass) → List Node → List Bytes → List Bytes
unfolding abs_file lookup has
storage_ids root classes [] ids = ids
storage_ids root classes (m ∷ methods) ids =
    elim (has_storage (lookup (abs_file root m.file) classes) && not (has ids m.id)) [
      | true ↦ storage_ids root classes methods (ids ++ m.id ∷ [])
      | false ↦ storage_ids root classes methods ids
    ]

-- `zero_score` is the zero_score of the scores. A Go map of nodes gives the zero_score node for an id that it does not have.
abbrev pub file_of : Option Node → Bytes
file_of none = []
file_of (some n) = n.file

abbrev pub name_of : Option Node → Bytes
name_of none = []
name_of (some n) = n.name

abbrev pub line_of : Option Node → ℕ
line_of none = 0
line_of (some n) = n.line

unfoldable pub second_order_surface : Float64 → Bytes → Option Node → Surface
second_order_surface zero_score id n = record {
  id = id;
  file = file_of n;
  function_name = name_of n;
  line = line_of n;
  node_type = method;
  kind = external_input;
  call_graph_depth = 0;
  is_idor_candidate = false;
  is_second_order = true;
  cvss_score = zero_score;
  has_cve_match = false;
  confidence_score = zero_score;
}

-- The loop over the readers.
unfoldable pub second_order_from :
    Float64 → List (Bytes × Node) → List Bytes → List Bytes → List Bytes → List Surface
unfolding has second_order_surface lookup
second_order_from zero_score nodes backward seen [] = []
second_order_from zero_score nodes backward seen (id ∷ readers) =
    elim (has seen id || not (has backward id)) [
      | true ↦ second_order_from zero_score nodes backward seen readers
      | false ↦
          second_order_surface zero_score id (lookup id nodes)
          ∷ second_order_from zero_score nodes backward (id ∷ seen) readers
    ]

unfoldable pub second_order_of :
    Float64 → CallGraph → List (Bytes × Node) → List Bytes → List Bytes → List Surface
unfolding second_order_from bfs_forward build_reverse_cg or_nil
second_order_of zero_score cg nodes backward [] = []
second_order_of zero_score cg nodes backward (id ∷ seeds) =
    second_order_from zero_score nodes backward []
      (or_nil (bfs_forward (build_reverse_cg cg) (id ∷ seeds)))

unfoldable pub detect_second_order :
    Float64
    → CallGraph
    → List Node
    → List (Bytes × Node)
    → List (Bytes × FileClass)
    → List Bytes
    → Bytes
    → List Surface
unfolding second_order_of storage_ids
detect_second_order zero_score cg methods nodes classes backward root =
    second_order_of zero_score cg nodes backward (storage_ids root classes methods [])
