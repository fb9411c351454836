-- ===== src/Targeting/Boundary.antt =====
-- Import boundaries: classifyFile and AnalyzeImports of internal/semantic/targeting/import_boundary.go.
pub mod Tables
pub mod Scan
use zero_trust_sh.Prelude.{
  ℕ, zero, suc, Bool, true, false, List, [], ◌∷◌, ◌++◌, Option, none, some, ◌&&◌, ◌||◌, not,
  if◌then◌else◌, any, length, ◌==◌, ◌+◌,
}
use zero_trust_sh.Prelude.Text.{Bytes, codes, contains, str_eq, equal_fold}
use zero_trust_sh.Prelude.Assoc.{insert}
use zero_trust_sh.Finding.Language.{ext}
use zero_trust_sh.Targeting.Boundary.Tables.{
  source_pkg_prefixes, sink_pkg_prefixes, auth_pkg_prefixes, storage_pkg_prefixes, skip_dirs,
}

-- The four bits of a BoundaryKind.
pub record BoundaryKind : Type 0 where
  pub source : Bool
  pub sink : Bool
  pub auth : Bool
  pub storage : Bool

abbrev pub boundary_none : BoundaryKind
boundary_none = record { source = false; sink = false; auth = false; storage = false }

unfoldable pub is_all : BoundaryKind → Bool
is_all b = b.source && (b.sink && (b.auth && b.storage))

unfoldable pub is_none : BoundaryKind → Bool
is_none b = not (b.source || (b.sink || (b.auth || b.storage)))

pub record FileClass : Type 0 where
  pub path : Bytes
  pub bound : BoundaryKind

-- The four tables of a file's extension.
pub record ImportTables : Type 0 where
  pub srcs : List Bytes
  pub sinks : List Bytes
  pub auths : List Bytes
  pub stores : List Bytes

unfoldable pub imports_one : List Bytes → Bytes → Bool
unfolding any contains
imports_one packages line = any (λ p. contains line p) packages

-- What one line adds.
unfoldable pub mark : ImportTables → BoundaryKind → Bytes → BoundaryKind
unfolding imports_one
mark t b line = record {
  source = b.source || imports_one t.srcs line;
  sink = b.sink || imports_one t.sinks line;
  auth = b.auth || imports_one t.auths line;
  storage = b.storage || imports_one t.stores line;
}

-- The loop over at most `left` more lines; it stops once all bits are set.
unfoldable pub scan : ImportTables → ℕ → BoundaryKind → List Bytes → BoundaryKind
unfolding mark is_all
scan t zero b lines = b
scan t (suc left) b [] = b
scan t (suc left) b (line ∷ lines) = elim (is_all (mark t b line)) [
  | true ↦ mark t b line
  | false ↦ scan t left (mark t b line) lines
]

abbrev pub max_import_lines : ℕ
max_import_lines = 250

unfoldable pub tables_of : Bytes → ImportTables
unfolding source_pkg_prefixes sink_pkg_prefixes auth_pkg_prefixes storage_pkg_prefixes
tables_of e = record {
  srcs = source_pkg_prefixes e;
  sinks = sink_pkg_prefixes e;
  auths = auth_pkg_prefixes e;
  stores = storage_pkg_prefixes e;
}

unfoldable pub classify_lines : ImportTables → Option (List Bytes) → BoundaryKind
unfolding scan
classify_lines t none = boundary_none
classify_lines t (some lines) = scan t max_import_lines boundary_none lines

-- `read` gives the lines of a file, `none` where it cannot be opened.
unfoldable pub classify_file : (Bytes → Option (List Bytes)) → Bytes → BoundaryKind
unfolding tables_of classify_lines ext
classify_file read path =
    let t = tables_of (ext path) in
    if length t.srcs + length t.sinks + length t.auths + length t.stores == 0
    then boundary_none
    else classify_lines t (read path)

-- The tree that the walk meets. A broken entry is one that cannot be read.
mutual
  pub data Entry : Type 0 where
    file : Bytes → Entry
    dir : Bytes → Entries → Entry
    broken : Entry

  pub data Entries : Type 0 where
    end : Entries
    more : Entry → Entries → Entries

unfoldable pub is_skipped : Bytes → Bool
unfolding any equal_fold
is_skipped name = any (λ skip. equal_fold name skip) skip_dirs

unfoldable pub is_source : Bytes → Bool
unfolding str_eq ext
is_source path =
    str_eq (ext path) (codes ".java")
    || str_eq (ext path) (codes ".py")
    || str_eq (ext path) (codes ".go")

unfoldable pub child_path : Bytes → Bytes → Bytes
child_path parent name = parent ++ 47 ∷ name

module _ (read : Bytes → Option (List Bytes)) (cancelled : Bytes → Bool) where
  -- The walk's function on a file; `none` is the context's error, which ends the walk.
  unfoldable pub visit_file : Bytes → List (Bytes × FileClass) → Option (List (Bytes × FileClass))
  unfolding is_source classify_file is_none insert
  visit_file path classes =
      let bound = classify_file read path in
      if cancelled path
      then none
      else if not (is_source path) || is_none bound
      then some classes
      else some (insert path (record { path = path; bound = bound }) classes)

  unfoldable mutual
    unfolding visit_file is_skipped child_path

    pub walk : Bytes → Entry → List (Bytes × FileClass) → Option (List (Bytes × FileClass))
    walk parent (file name) classes = visit_file (child_path parent name) classes
    walk parent (dir name entries) classes = elim (is_skipped name) [
      | true ↦ some classes
      | false ↦ walk_all (child_path parent name) entries classes
    ]
    walk parent broken classes = some classes

    pub walk_all : Bytes → Entries → List (Bytes × FileClass) → Option (List (Bytes × FileClass))
    walk_all parent end classes = some classes
    walk_all parent (more entry entries) classes = elim (walk parent entry classes) [
      | none ↦ none
      | some seen ↦ walk_all parent entries seen
    ]

  -- AnalyzeImports of the directory `name` below `parent`; `none` is its error.
  unfoldable pub analyze_imports : Bytes → Bytes → Entries → Option (List (Bytes × FileClass))
  unfolding walk
  analyze_imports parent name entries = walk parent (dir name entries) []
