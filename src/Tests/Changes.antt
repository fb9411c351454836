-- ===== src/Tests/Changes.antt =====
-- Two scans of a tree with one file that has changed and one that is gone, and the expansion along one call.
use zero_trust_sh.Prelude.{
  Bool, true, false, not, ◌&&◌, ◌||◌, List, [], ◌∷◌, ◌++◌, any, Option, some, refl, ◌≡◌, keep,
}
use zero_trust_sh.Prelude.Text.{Bytes, codes, str_eq}
use zero_trust_sh.Surface.{method}
use zero_trust_sh.Targeting.{Node}
use zero_trust_sh.Targeting.Search.{has}
use zero_trust_sh.Targeting.Search.Reach.{is_some}
use zero_trust_sh.DiffIndex.{
  ChangeSet, Entries, end, file, paths, hash_of, should_skip, child, diff, found, commit,
}
use zero_trust_sh.DiffIndex.State.{ScanStateRow}
use zero_trust_sh.DiffIndex.Table.{row_table, hash_at, rows_of, without}
use zero_trust_sh.DiffIndex.Walk.{counted}
use zero_trust_sh.DiffIndex.Scan.{diff-found}
use zero_trust_sh.DiffIndex.Written.{Unique}
use zero_trust_sh.DiffIndex.Rescan.{diff-diff, diff-commit}
use zero_trust_sh.DiffIndex.Expand.{expand_with_cpg}
use zero_trust_sh.DiffIndex.Expand.Result.{neighbours, expand_with_cpg-has}
use zero_trust_sh.Tests.Data.{digest}

abbrev row : Bytes → Bytes → ScanStateRow
row path hash = record {
  project_id = codes "p";
  file_path = path;
  content_hash = hash;
  last_scanned_at = 3;
}

abbrev rows : List ScanStateRow
rows = row (codes "app.go") (codes "old") ∷ row (codes "gone.go") (codes "x") ∷ []

abbrev tree : Entries
tree = file (codes "app.go") (some (codes "new")) end

abbrev never : Bytes → Bool
never path = false

abbrev changes : ChangeSet
changes = record { changed = codes "app.go" ∷ []; removed = codes "gone.go" ∷ [] }

abbrev nothing : ChangeSet
nothing = record { changed = []; removed = [] }

abbrev new_row : ScanStateRow
new_row = record {
  project_id = codes "p";
  file_path = codes "app.go";
  content_hash = codes "new";
  last_scanned_at = 5;
}

first_diff : diff row_table digest never 5 (codes "p") tree rows ≡ found (new_row ∷ rows) changes
unfolding diff rows_of
first_diff = refl

diff-found_example :
    (changes.changed
      ≡ paths (
          keep
            (λ e. not (str_eq (hash_of (hash_at rows (codes "p") (e.0))) (e.1)))
            (counted digest [] tree)))
    × ((f : Bytes)
        → has changes.removed f
          ≡ (is_some (hash_at rows (codes "p") f) && not (has (paths (counted digest [] tree)) f)))
diff-found_example =
    diff-found row_table digest never 5 (codes "p") tree rows (new_row ∷ rows) changes first_diff

abbrev still_gone : ChangeSet
still_gone = record { changed = []; removed = codes "gone.go" ∷ [] }

second_diff :
    diff row_table digest never 5 (codes "p") tree (new_row ∷ rows)
    ≡ found (new_row ∷ new_row ∷ rows) still_gone
unfolding diff rows_of
second_diff = refl

tree-Unique : Unique ((codes "app.go", codes "new") ∷ [])
unfolding has any
tree-Unique = (refl, tt)

diff-diff_example : still_gone.changed ≡ []
unfolding counted should_skip child
diff-diff_example =
    diff-diff row_table digest never 5 (codes "p") tree rows (new_row ∷ rows)
      (new_row ∷ new_row ∷ rows) changes still_gone tree-Unique first_diff second_diff

abbrev committed : List ScanStateRow
committed = new_row ∷ row (codes "app.go") (codes "old") ∷ []

first_commit :
    commit row_table digest never 5 (codes "p") changes (new_row ∷ rows) ≡ (true, committed)
unfolding commit without str_eq
first_commit = refl

next_diff :
    diff row_table digest never 5 (codes "p") tree committed ≡ found (new_row ∷ committed) nothing
unfolding diff rows_of
next_diff = refl

diff-commit_example : (nothing.changed ≡ []) × (nothing.removed ≡ [])
unfolding counted should_skip child
diff-commit_example =
    diff-commit row_table digest never 5 (codes "p") tree rows (new_row ∷ rows) committed
      (new_row ∷ committed) changes nothing tree-Unique first_diff first_commit next_diff

abbrev function : Bytes → Node
function name = record {
  id = name;
  node_type = method;
  name = name;
  file = name ++ codes ".go";
  line = 1;
  language = codes "go";
  code = [];
}

-- The method app of the changed file is called by main and calls nothing.
abbrev methods_of : Bytes → Option (List Node)
methods_of path = some (function (codes "app") ∷ [])

abbrev callers : Bytes → Option (List Node)
callers id = some (function (codes "main") ∷ [])

abbrev callees : Bytes → Option (List Node)
callees id = some []

expanded :
    expand_with_cpg methods_of callers callees (some changes)
    ≡ some (record { changed = codes "app.go" ∷ codes "main.go" ∷ []; removed = changes.removed })
unfolding expand_with_cpg keep
expanded = refl

expand_with_cpg-has_example :
    (out : ChangeSet) × (expand_with_cpg methods_of callers callees (some changes) ≡ some out)
    × (has out.changed (codes "main.go") ≡ (
        has changes.changed (codes "main.go")
        || has (neighbours methods_of callers callees changes.changed) (codes "main.go")))
    × (out.removed ≡ changes.removed)
expand_with_cpg-has_example =
    expand_with_cpg-has methods_of callers callees changes (codes "main.go") tree-Unique
