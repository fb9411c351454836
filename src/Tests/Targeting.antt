-- ===== src/Tests/Targeting.antt =====
-- The selection of surfaces on a graph of three functions.
use zero_trust_sh.Prelude.{
  ◌*◌, ◌/◌, keep, not, ℕ, ◌≤◌, true, ◌||◌, List, [], ◌∷◌, some, refl, ◌≡◌, ◌⊎◌, ◌↔◌, All, Any, inl,
  any, map, take, arith,
}
use zero_trust_sh.Prelude.Text.{str_eq, Bytes, codes, contains, to_lower}
use zero_trust_sh.Prelude.Assoc.{lookup}
use zero_trust_sh.Surface.{Surface, method}
use zero_trust_sh.Targeting.{Node, CallGraph, callees}
use zero_trust_sh.Targeting.Search.{has, bfs_forward, bfs_depths, build_reverse_cg}
use zero_trust_sh.Targeting.Search.Depths.{Walk, start, step, Edge}
use zero_trust_sh.Targeting.Search.Depths.Shortest.{bfs_depths-shortest}
use zero_trust_sh.Targeting.Search.Reach.{bfs_forward-reachable}
use zero_trust_sh.Targeting.Search.Reverse.{build_reverse_cg-Edge}
use zero_trust_sh.Targeting.Select.{Seeds, by_id, select_from}
use zero_trust_sh.Targeting.Select.Complete.{select_from_complete}
use zero_trust_sh.Targeting.Select.Members.{Reaches, select_from-Reaches}
use zero_trust_sh.Targeting.Select.Idor.{has_idor_signal}
use zero_trust_sh.Targeting.Select.Idor.Case.{lower_signals, has_idor_signal-lower_signals}
use zero_trust_sh.Targeting.Boundary.{tables_of, classify_lines, max_import_lines}
use zero_trust_sh.Targeting.Boundary.Scan.{imports_any, classify_lines_lem}
use zero_trust_sh.Targeting.CveFlag.{
  Scale, IsGraded, score_flag, is_flagged, auto_flag_cve_surfaces,
  auto_flag_cve_surfaces-is_flagged,
}
use zero_trust_sh.Config.{Config, default_config}
use zero_trust_sh.Tests.Data.{query_handler, config}

abbrev calls : CallGraph
calls = (codes "a", codes "b" ∷ []) ∷ (codes "b", codes "c" ∷ []) ∷ []

abbrev function : Bytes → Node
function id = record {
  id = id;
  node_type = method;
  name = id;
  file = codes "app.go";
  line = 7;
  language = codes "go";
  code = [];
}

abbrev functions : List Node
functions = function (codes "a") ∷ function (codes "b") ∷ function (codes "c") ∷ []

abbrev ends : Seeds
ends = record {
  source_seeds = codes "a" ∷ [];
  sink_seeds = codes "c" ∷ [];
  auth_seeds = [];
  fallback_auth_seeds = [];
}

-- All three functions lie on the way from a to c.
select_from-ids :
    map (λ s. s.id) (select_from 0 (codes "/r") [] calls functions ends)
    ≡ codes "a" ∷ codes "b" ∷ codes "c" ∷ []
unfolding select_from
select_from-ids = refl

select_from-Reaches_example :
    All
      (λ s.
        Reaches (build_reverse_cg calls) (codes "c" ∷ []) s
        × ((s.is_second_order ≡ true) ⊎ Reaches calls (codes "a" ∷ []) s))
      (select_from 0 (codes "/r") [] calls functions ends)
select_from-Reaches_example = select_from-Reaches 0 (codes "/r") [] calls functions ends

bfs_depths-shortest_example :
    (out : List (Bytes × ℕ)) × (bfs_depths calls (codes "a" ∷ []) ≡ some out)
    × ((v : Bytes) (n : ℕ) → lookup v out ≡ some n → Walk calls (codes "a" ∷ []) n v)
    × ((v : Bytes) (n : ℕ)
        → Walk calls (codes "a" ∷ []) n v
        → (d : ℕ) × (lookup v out ≡ some d) × (d ≤ n))
bfs_depths-shortest_example = bfs_depths-shortest calls (codes "a" ∷ [])

bfs_forward-reachable_example :
    (out : List Bytes) × (bfs_forward calls (codes "a" ∷ []) ≡ some out)
    × ((v : Bytes) → has out v ≡ true → (n : ℕ) × Walk calls (codes "a" ∷ []) n v)
    × ((v : Bytes) (n : ℕ) → Walk calls (codes "a" ∷ []) n v → has out v ≡ true)
bfs_forward-reachable_example = bfs_forward-reachable calls (codes "a" ∷ [])

build_reverse_cg-Edge_example :
    Edge (build_reverse_cg calls) (codes "b") (codes "a") ↔ Edge calls (codes "a") (codes "b")
build_reverse_cg-Edge_example =
    build_reverse_cg-Edge calls (codes "a") (codes "b") (((λ e. ground arith), tt), (tt, tt))

has_idor_signal-lower_signals_example :
    has_idor_signal query_handler.surface
    ≡ any
        (λ signal.
          contains (to_lower query_handler.surface.function_name) signal
          || contains (to_lower query_handler.surface.file) signal)
        lower_signals
has_idor_signal-lower_signals_example = has_idor_signal-lower_signals query_handler.surface

abbrev imports : List Bytes
imports = codes "import \"net/http\"" ∷ codes "import \"os/exec\"" ∷ []

classify_lines_lem_example : classify_lines (tables_of (codes ".go")) (some imports) ≡ record {
  source = imports_any (tables_of (codes ".go")).srcs (take max_import_lines imports);
  sink = imports_any (tables_of (codes ".go")).sinks (take max_import_lines imports);
  auth = imports_any (tables_of (codes ".go")).auths (take max_import_lines imports);
  storage = imports_any (tables_of (codes ".go")).stores (take max_import_lines imports);
}
classify_lines_lem_example = classify_lines_lem (tables_of (codes ".go")) imports

abbrev scale : Scale
scale = record { zero_score = 0; sigmoid = λ slope intercept cvss. slope * cvss / 20000 }

abbrev calibrated : Config
calibrated = record config { cvss_platt_slope = 1000 }

abbrev with_cve : Surface
with_cve = record (query_handler.surface) { has_cve_match = true; cvss_score = 7500 }

scale-IsGraded : IsGraded scale config
unfolding default_config
scale-IsGraded = record {
  critical_not_zero = refl;
  high_not_zero = refl;
  medium_not_zero = refl;
  medium_le_high = omega arith;
  high_le_critical = omega arith;
}

abbrev two_surfaces : List Surface
two_surfaces = query_handler.surface ∷ with_cve ∷ []

auto_flag_cve_surfaces-is_flagged_example :
    ((auto_flag_cve_surfaces scale config calibrated two_surfaces).flagged
      ≡ map
          (score_flag scale config calibrated)
          (keep (is_flagged scale config calibrated) two_surfaces))
    × ((auto_flag_cve_surfaces scale config calibrated two_surfaces).remaining
        ≡ keep (λ s. not (is_flagged scale config calibrated s)) two_surfaces)
auto_flag_cve_surfaces-is_flagged_example =
    auto_flag_cve_surfaces-is_flagged scale config calibrated two_surfaces scale-IsGraded

a_to_b : Walk calls (codes "a" ∷ []) 1 (codes "b")
unfolding callees lookup str_eq
a_to_b = step (start (inl refl)) (inl refl)

c_back_to_b : Walk (build_reverse_cg calls) (codes "c" ∷ []) 1 (codes "b")
unfolding callees lookup build_reverse_cg str_eq
c_back_to_b = step (start (inl refl)) (inl refl)

b_known : lookup (codes "b") (by_id functions []) ≡ some (function (codes "b"))
unfolding lookup by_id str_eq
b_known = refl

select_from_complete_example :
    Any (λ s. s.id ≡ codes "b") (select_from 0 (codes "/r") [] calls functions ends)
select_from_complete_example =
    select_from_complete 0 (codes "/r") [] calls functions ends (codes "b") (function (codes "b")) 1
      1 refl refl b_known a_to_b c_back_to_b
