-- ===== src/DiffIndex/State.antt =====
-- The table scan_state as pkg/postgres/state.go gives access to it. The database itself is not part of the
-- repository: its answers are the operations of an interface, whose laws say that a row is what was last written
-- for its project and path.
use zero_trust_sh.Prelude.{ℕ, List, Option, none, some, ◌≡◌, if◌then◌else◌, Member, ◌&&◌}
use zero_trust_sh.Prelude.Text.{Bytes, str_eq}

pub record ScanStateRow : Type 0 where
  pub project_id : Bytes
  pub file_path : Bytes
  pub content_hash : Bytes
  pub last_scanned_at : ℕ

-- `none` is the error of an operation; `cached` is the hash that the table has for a project and a path.
pub record StateDb (S : Type 0) : Type 0 where
  pub list_scan_state : S → Bytes → Option (List ScanStateRow)
  pub upsert_scan_state : S → ScanStateRow → Option S
  pub delete_scan_state : S → Bytes → Bytes → Option S
  pub cached : S → Bytes → Bytes → Option Bytes
  -- The rows listed for a project are the ones that the table has.
  pub list_sound :
      (s : S) (p : Bytes) (rows : List ScanStateRow) (row : ScanStateRow)
      → list_scan_state s p ≡ some rows
      → Member row rows
      → cached s p row.file_path ≡ some row.content_hash
  pub list_complete :
      (s : S) (p : Bytes) (rows : List ScanStateRow) (path hash : Bytes)
      → list_scan_state s p ≡ some rows
      → cached s p path ≡ some hash
      → (row : ScanStateRow) × Member row rows × (row.file_path ≡ path)
  -- Writes and deletions concern the one row of their project and path.
  pub upsert_cached :
      (s s' : S) (row : ScanStateRow) (p path : Bytes)
      → upsert_scan_state s row ≡ some s'
      → cached s' p path ≡ (
          if str_eq row.project_id p && str_eq row.file_path path
          then some row.content_hash
          else cached s p path)
  pub delete_cached :
      (s s' : S) (q gone p path : Bytes)
      → delete_scan_state s q gone ≡ some s'
      → cached s' p path ≡ (if str_eq q p && str_eq gone path then none else cached s p path)
