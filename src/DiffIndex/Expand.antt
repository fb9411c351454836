-- ===== src/DiffIndex/Expand.antt =====
-- ExpandWithCPG of internal/ingestion/diffindex/expand.go. The graph's answers are parameters; `none` is an error.
pub mod Neighbours
pub mod Result
use zero_trust_sh.Prelude.{
  ℕ, zero, suc, ◌+◌, ◌≤◌, Bool, true, false, not, ◌&&◌, ◌||◌, ◌==◌, List, [], ◌∷◌, ◌++◌, Option,
  none, some, if◌then◌else◌, ◌≡◌, refl, sym, ◌∙◌, ap, arith, inl, inr, Bool-cases, Option-cases,
  keep, length, length-append, any, append_assoc, append-nil,
}
use zero_trust_sh.Prelude.Text.{Bytes, str_eq, str_eq_iff, str_eq_refl, str_eq_comm}
use zero_trust_sh.Targeting.{Node}
use zero_trust_sh.Targeting.Search.{has}
use zero_trust_sh.DiffIndex.{ChangeSet}

-- expanded[f] = true: the keys of the map
unfoldable pub mark_file : List Bytes → Bytes → List Bytes
unfolding has
mark_file files f = if has files f then files else files ++ f ∷ []

unfoldable pub mark_files : List Bytes → List Bytes → List Bytes
unfolding mark_file
mark_files files [] = files
mark_files files (f ∷ fs) = mark_files (mark_file files f) fs

-- The loop over the callers, and that over the callees.
unfoldable pub mark_nodes : List Bytes → List Node → List Bytes
unfolding mark_file str_eq
mark_nodes files [] = files
mark_nodes files (n ∷ nodes) =
    mark_nodes (if str_eq n.file [] then files else mark_file files n.file) nodes

module _ (methods_of : Bytes → Option (List Node)) (get_callers : Bytes → Option (List Node))
    (get_callees : Bytes → Option (List Node)) where
  -- One method of a changed file.
  unfoldable pub expand_node : List Bytes → Node → List Bytes
  unfolding mark_nodes
  expand_node files n = elim (get_callers n.id) [
    | none ↦ files
    | some callers ↦ elim (get_callees n.id) [
      | none ↦ mark_nodes files callers
      | some callees ↦ mark_nodes (mark_nodes files callers) callees
    ]
  ]

  unfoldable pub expand_nodes : List Bytes → List Node → List Bytes
  unfolding expand_node
  expand_nodes files [] = files
  expand_nodes files (n ∷ nodes) = expand_nodes (expand_node files n) nodes

  unfoldable pub expand_files : List Bytes → List Bytes → List Bytes
  unfolding expand_nodes
  expand_files files [] = files
  expand_files files (f ∷ changed) = elim (methods_of f) [
    | none ↦ expand_files files changed
    | some nodes ↦ expand_files (expand_nodes files nodes) changed
  ]

  unfoldable pub expand_from : ChangeSet → List Bytes → ChangeSet
  unfolding has
  expand_from cs expanded = if length expanded == length cs.changed then cs else record {
    changed = cs.changed ++ keep (λ f. not (has cs.changed f)) expanded;
    removed = cs.removed;
  }

  -- `none` is the nil pointer, and no error is ever returned.
  unfoldable pub expand_with_cpg : Option ChangeSet → Option ChangeSet
  unfolding expand_from expand_files mark_files
  expand_with_cpg none = none
  expand_with_cpg (some cs) =
      if length cs.changed == 0
      then some cs
      else some (expand_from cs (expand_files (mark_files [] cs.changed) cs.changed))
