-- ===== src/Targeting.antt =====
-- internal/semantic/targeting: which functions of the call graph the reasoning path looks at. The walk over the
-- files with their import classes is in Boundary, the graph traversals in Search, the selection in
-- Select, the flagging by CVE in CveFlag, and the test for test files in TestFile.
pub mod Search
pub mod TestFile
pub mod Boundary
pub mod Select
pub mod CveFlag
use zero_trust_sh.Prelude.{ℕ, Bool, List, [], Option, none, some}
use zero_trust_sh.Prelude.Text.{Bytes}
use zero_trust_sh.Prelude.Assoc.{lookup}
use zero_trust_sh.Surface.{NodeType}

-- Node of internal/cpg_engine/interface.go.
pub record Node : Type 0 where
  pub id : Bytes
  pub node_type : NodeType
  pub name : Bytes
  pub file : Bytes
  pub line : ℕ
  pub language : Bytes
  pub code : Bytes

-- CallGraph: a Go map, as the entries in the order in which a range visits them.
abbrev pub CallGraph : Type 0
CallGraph = List (Bytes × List Bytes)

unfoldable pub or_nil : Option (List Bytes) → List Bytes
or_nil none = []
or_nil (some ids) = ids

-- cg[id]
unfoldable pub callees : CallGraph → Bytes → List Bytes
unfolding lookup or_nil
callees cg id = or_nil (lookup id cg)
