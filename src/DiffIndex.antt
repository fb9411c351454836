-- ===== src/DiffIndex.antt =====
-- internal/ingestion/diffindex: which files changed since the state cache was written (diffindex.go), and
-- the expansion along the call graph (expand.go, in Expand). The table scan_state of pkg/postgres/state.go is
-- an interface.
pub mod State
pub mod Walk
pub mod Prior
pub mod Written
pub mod Scan
pub mod Rescan
pub mod Expand
pub mod Table
use zero_trust_sh.Prelude.{
  ℕ, Bool, true, false, not, ◌||◌, List, [], ◌∷◌, ◌++◌, Option, none, some, if◌then◌else◌, any, map,
  take,
}
use zero_trust_sh.Prelude.Text.{Bytes, codes, str_eq, split, to_lower}
use zero_trust_sh.Prelude.Assoc.{lookup, insert}
use zero_trust_sh.Finding.Language.{ext}
use zero_trust_sh.Targeting.Search.{has}
use zero_trust_sh.DiffIndex.State.{ScanStateRow, StateDb}

pub record ChangeSet : Type 0 where
  pub changed : List Bytes
  pub removed : List Bytes

abbrev pub skip_dirs : List Bytes
skip_dirs =
    codes ".git"
    ∷ codes "vendor"
    ∷ codes "node_modules"
    ∷ codes ".cache"
    ∷ codes "__pycache__"
    ∷ codes ".pytest_cache"
    ∷ codes ".venv"
    ∷ codes "venv"
    ∷ []

abbrev pub binary_exts : List Bytes
binary_exts =
    codes ".exe"
    ∷ codes ".bin"
    ∷ codes ".so"
    ∷ codes ".dylib"
    ∷ codes ".dll"
    ∷ codes ".o"
    ∷ codes ".a"
    ∷ codes ".lib"
    ∷ codes ".png"
    ∷ codes ".jpg"
    ∷ codes ".jpeg"
    ∷ codes ".gif"
    ∷ codes ".webp"
    ∷ codes ".ico"
    ∷ codes ".pdf"
    ∷ codes ".zip"
    ∷ codes ".tar"
    ∷ codes ".gz"
    ∷ codes ".bz2"
    ∷ codes ".xz"
    ∷ codes ".wasm"
    ∷ codes ".db"
    ∷ codes ".sqlite"
    ∷ codes ".db-shm"
    ∷ codes ".db-wal"
    ∷ []

unfoldable pub should_skip : Bytes → Bool
unfolding any has split ext to_lower
should_skip rel = any (has skip_dirs) (split rel 47) || has binary_exts (to_lower (ext rel))

-- The tree below a directory, in the order of the walk. A file has its contents, `none` where it cannot be
-- read; `broken` is a path that the walk cannot read.
pub data Entries : Type 0 where
  end : Entries
  file : Bytes → Option Bytes → Entries → Entries
  dir : Bytes → Entries → Entries → Entries
  broken : Entries → Entries

-- The path of a child relative to the root, which is the empty path here.
unfoldable pub child : Bytes → Bytes → Bytes
child [] name = name
child (c ∷ parent) name = c ∷ parent ++ 47 ∷ name

-- changed and seen of Diff
pub record Walked : Type 0 where
  pub changed : List Bytes
  pub seen : List Bytes

-- What the walk leaves: the state of the table in both cases.
pub data Outcome (S : Type 0) : Type 0 where
  stopped : S → Outcome S
  walked : S → Walked → Outcome S

pub data DiffResult (S : Type 0) : Type 0 where
  failed : S → DiffResult S
  found : S → ChangeSet → DiffResult S

-- m[path], the empty text where the key is missing
unfoldable pub hash_of : Option Bytes → Bytes
hash_of none = []
hash_of (some h) = h

-- priorMap
unfoldable pub prior_map : List ScanStateRow → List (Bytes × Bytes) → List (Bytes × Bytes)
unfolding insert
prior_map [] m = m
prior_map (row ∷ rows) m = prior_map rows (insert row.file_path row.content_hash m)

abbrev pub paths : List (Bytes × Bytes) → List Bytes
paths m = map (λ e. e.0) m

-- for relPath := range priorMap { if !seen[relPath] { removed = append(removed, relPath) } }
unfoldable pub removed_of : List Bytes → List Bytes → List Bytes
unfolding has
removed_of [] seen = []
removed_of (path ∷ prior) seen =
    let rest = removed_of prior seen in if has seen path then rest else path ∷ rest

-- `digest` is the hexadecimal SHA-256 of crypto/sha256, `cancelled` tells where the context's error is seen.
module _ {S : Type 0} (db : StateDb S) (digest : Bytes → Bytes) (cancelled : Bytes → Bool) (now : ℕ)
    (project : Bytes) where
  -- What the walk's function does with a file that it can read.
  unfoldable pub record_file : List (Bytes × Bytes) → Bytes → Bytes → S → Walked → Outcome S
  unfolding lookup str_eq hash_of
  record_file prior rel hash s w =
      let row : ScanStateRow = record {
        project_id = project;
        file_path = rel;
        content_hash = hash;
        last_scanned_at = now;
      } in
      elim (db.upsert_scan_state s row) [
        | none ↦ stopped s
        | some s' ↦ walked s' (record {
          changed =
              if str_eq (hash_of (lookup rel prior)) hash then w.changed else w.changed ++ rel ∷ [];
          seen = w.seen ++ rel ∷ [];
        })
      ]

  unfoldable pub visit_file : List (Bytes × Bytes) → Bytes → Option Bytes → S → Walked → Outcome S
  unfolding record_file
  visit_file prior rel none s w = walked s w
  visit_file prior rel (some contents) s w = record_file prior rel (digest contents) s w

  -- filepath.WalkDir with the function of Diff.
  unfoldable pub walk : List (Bytes × Bytes) → Bytes → Entries → S → Walked → Outcome S
  unfolding should_skip child visit_file
  walk prior parent end s w = walked s w
  walk prior parent (broken rest) s w = stopped s
  walk prior parent (file name contents rest) s w = elim (cancelled (child parent name)) [
    | true ↦ stopped s
    | false ↦ elim (should_skip (child parent name)) [
      | true ↦ walk prior parent rest s w
      | false ↦ elim (visit_file prior (child parent name) contents s w) [
        | stopped s' ↦ stopped s'
        | walked s' w' ↦ walk prior parent rest s' w'
      ]
    ]
  ]
  walk prior parent (dir name children rest) s w = elim (cancelled (child parent name)) [
    | true ↦ stopped s
    | false ↦ elim (should_skip (child parent name)) [
      | true ↦ walk prior parent rest s w
      | false ↦ elim (walk prior (child parent name) children s w) [
        | stopped s' ↦ stopped s'
        | walked s' w' ↦ walk prior parent rest s' w'
      ]
    ]
  ]

  unfoldable pub conclude : List (Bytes × Bytes) → Outcome S → DiffResult S
  unfolding removed_of
  conclude prior (stopped s) = failed s
  conclude prior (walked s w) =
      found s (record { changed = w.changed; removed = removed_of (paths prior) w.seen })

  -- Diff of the tree below a root that the walk can read.
  unfoldable pub diff : Entries → S → DiffResult S
  unfolding prior_map walk conclude
  diff tree s = elim (db.list_scan_state s project) [
    | none ↦ failed s
    | some rows ↦ elim (cancelled (codes ".")) [
      | true ↦ failed s
      | false ↦
          conclude (prior_map rows [])
            (walk (prior_map rows []) [] tree s (record { changed = []; seen = [] }))
    ]
  ]

  -- The loop of Commit: whether it went through, and the state of the table.
  unfoldable pub delete_all : List Bytes → S → Bool × S
  delete_all [] s = (true, s)
  delete_all (path ∷ gone) s = elim (db.delete_scan_state s project path) [
    | none ↦ (false, s)
    | some s' ↦ delete_all gone s'
  ]

  unfoldable pub commit : ChangeSet → S → Bool × S
  unfolding delete_all
  commit cs s = delete_all cs.removed s

-- DeriveProjectID
unfoldable pub derive_project_id : (Bytes → Bytes) → Bytes → Bytes
derive_project_id digest root = take 16 (digest root)
