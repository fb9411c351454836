-- ===== src/DiffIndex/Expand/Result.antt =====
-- ExpandWithCPG of internal/ingestion/diffindex/expand.go adds the files one call away, and no others.
use zero_trust_sh.Prelude.{
  not, ◌||◌, ◌==◌, List, [], ◌∷◌, ◌++◌, Option, none, some, ◌≡◌, refl, sym, ◌∙◌, ap, arith, inl,
  inr, Bool-cases, Option-cases, keep, length, any,
}
use mathlib.Core.Path.{subst}
use zero_trust_sh.Prelude.Text.{Bytes}
use zero_trust_sh.Targeting.{Node}
use zero_trust_sh.Targeting.Search.{has}
use zero_trust_sh.DiffIndex.{ChangeSet}
use zero_trust_sh.DiffIndex.Expand.{
  mark_files, mark_nodes, expand_node, expand_nodes, expand_files, expand_from, expand_with_cpg,
}
use zero_trust_sh.DiffIndex.Expand.Neighbours.{
  Distinct, Apart-nil, mark_files-Distinct, has-append, files_of, mark_nodes-has, Extends,
  Extends-refl, Extends-trans, mark_nodes-Extends, keep-has, same_length,
}

length-zero : (xs : List Bytes) → length xs ≡ 0 → xs ≡ []
length-zero [] e = refl
length-zero (x ∷ xs) e = absurd (omega (arith, e))

module _ (methods_of : Bytes → Option (List Node)) (get_callers : Bytes → Option (List Node))
    (get_callees : Bytes → Option (List Node)) where
  -- The files one call away from a method, as far as the graph answers.
  unfoldable pub around : Node → List Bytes
  unfolding files_of
  around n = elim (get_callers n.id) [
    | none ↦ []
    | some callers ↦ elim (get_callees n.id) [
      | none ↦ files_of callers
      | some callees ↦ files_of callers ++ files_of callees
    ]
  ]

  unfoldable pub around_all : List Node → List Bytes
  unfolding around
  around_all [] = []
  around_all (n ∷ nodes) = around n ++ around_all nodes

  unfoldable pub neighbours : List Bytes → List Bytes
  unfolding around_all
  neighbours [] = []
  neighbours (f ∷ changed) = elim (methods_of f) [
    | none ↦ neighbours changed
    | some nodes ↦ around_all nodes ++ neighbours changed
  ]

  -- A step of the expansion, as the two facts that the steps after it need.
  abbrev Adds : List Bytes → List Bytes → List Bytes → Type 0
  Adds files new out = Extends files out × ((f : Bytes) → has out f ≡ (has files f || has new f))

  Adds-none : (files : List Bytes) → Adds files [] files
  unfolding has any
  Adds-none files = (Extends-refl files, λ f. ground arith)

  Adds-Adds :
      (files new out more last : List Bytes)
      → Adds files new out
      → Adds out more last
      → Adds files (new ++ more) last
  Adds-Adds files new out more last (a, b) (c, d) = (
    Extends-trans files out last a c,
    λ f. d f ∙ (rw (b f) (ground (arith, has-append new more f))),
  )

  mark_nodes-Adds :
      (files : List Bytes) (nodes : List Node)
      → Adds files (files_of nodes) (mark_nodes files nodes)
  mark_nodes-Adds files nodes = (mark_nodes-Extends files nodes, mark_nodes-has files nodes)

  expand_node-Adds :
      (files : List Bytes) (n : Node)
      → Adds files (around n) (expand_node methods_of get_callers get_callees files n)
  unfolding expand_node around
  expand_node-Adds files n = elim (Option-cases (get_callers n.id)) [
    | inl e ↦ rw (e, expand_node, around) (Adds-none files)
    | inr (callers, e) ↦ elim (Option-cases (get_callees n.id)) [
      | inl d ↦ rw (e, d, expand_node, around) (mark_nodes-Adds files callers)
      | inr (callees, d) ↦
          rw (e, d, expand_node, around)
            (Adds-Adds files (files_of callers) (mark_nodes files callers) (files_of callees)
              (mark_nodes (mark_nodes files callers) callees) (mark_nodes-Adds files callers)
              (mark_nodes-Adds (mark_nodes files callers) callees))
    ]
  ]

  expand_nodes-Adds :
      (files : List Bytes) (nodes : List Node)
      → Adds files (around_all nodes) (expand_nodes methods_of get_callers get_callees files nodes)
  unfolding expand_nodes around_all
  expand_nodes-Adds files [] = Adds-none files
  expand_nodes-Adds files (n ∷ nodes) =
      let step = expand_node methods_of get_callers get_callees files n in
      Adds-Adds files (around n) step (around_all nodes)
        (expand_nodes methods_of get_callers get_callees step nodes) (expand_node-Adds files n)
        (expand_nodes-Adds step nodes)

  expand_files-Adds :
      (files changed : List Bytes)
      → Adds files
          (neighbours changed)
          (expand_files methods_of get_callers get_callees files changed)
  unfolding expand_files neighbours
  expand_files-Adds files [] = Adds-none files
  expand_files-Adds files (f ∷ changed) = elim (Option-cases (methods_of f)) [
    | inl e ↦ rw (e, expand_files, neighbours) (expand_files-Adds files changed)
    | inr (nodes, e) ↦
        let step = expand_nodes methods_of get_callers get_callees files nodes in
        rw (e, expand_files, neighbours)
          (Adds-Adds files (around_all nodes) step (neighbours changed)
            (expand_files methods_of get_callers get_callees step changed)
            (expand_nodes-Adds files nodes) (expand_files-Adds step changed))
  ]

  expand_from-has :
      (cs : ChangeSet) (new expanded : List Bytes) (f : Bytes)
      → Adds cs.changed new expanded
      → has (expand_from methods_of get_callers get_callees cs expanded).changed f
        ≡ (has cs.changed f || has new f)
  unfolding expand_from
  expand_from-has cs new expanded f ((more, e), adds) =
      elim (Bool-cases (length expanded == length cs.changed)) [
        | inl t ↦
            let same : expanded ≡ cs.changed =
              e ∙ same_length cs.changed more (ap length (sym e) ∙ ground arith) in
            rw (t, expand_from) (ap (λ xs. has xs f) (sym same) ∙ adds f)
        | inr t ↦
            rw (t, expand_from)
              (has-append cs.changed (keep (λ g. not (has cs.changed g)) expanded) f
                ∙ ground (arith, keep-has (λ g. not (has cs.changed g)) expanded f, adds f))
      ]

  expand_from-removed :
      (cs : ChangeSet) (expanded : List Bytes)
      → (expand_from methods_of get_callers get_callees cs expanded).removed ≡ cs.removed
  unfolding expand_from
  expand_from-removed cs expanded = elim (Bool-cases (length expanded == length cs.changed)) [
    | inl t ↦ rw (t, expand_from) refl
    | inr t ↦ rw (t, expand_from) refl
  ]

  -- Where no changed file stands twice, the expansion gives a change set; its changed files are the given ones and
  -- the files one call away from a method of a changed file, as far as the graph answers, and no others; the
  -- removed files stay. A query that fails leaves out its own file or method only.
  pub expand_with_cpg-has :
      (cs : ChangeSet) (f : Bytes)
      → Distinct cs.changed
      → (out : ChangeSet) × (expand_with_cpg methods_of get_callers get_callees (some cs)
          ≡ some out)
        × (has out.changed f ≡ (has cs.changed f || has (neighbours cs.changed) f))
        × (out.removed ≡ cs.removed)
  unfolding expand_with_cpg neighbours
  expand_with_cpg-has cs f d = elim (Bool-cases (length cs.changed == 0)) [
    | inl e ↦
        let nil = length-zero cs.changed (ground arith) in
        (
          cs,
          rw (e, expand_with_cpg) refl,
          ap (λ xs. has xs f) nil ∙ sym (ap (λ xs. has xs f || has (neighbours xs) f) nil),
          refl,
        )
    | inr e ↦
        let expanded =
          expand_files methods_of get_callers get_callees (mark_files [] cs.changed) cs.changed in
        let adds =
          subst (λ z. Adds z (neighbours cs.changed) expanded)
            (mark_files-Distinct [] cs.changed (Apart-nil cs.changed) d)
            (expand_files-Adds (mark_files [] cs.changed) cs.changed) in
        (
          expand_from methods_of get_callers get_callees cs expanded,
          rw (e, expand_with_cpg) refl,
          expand_from-has cs (neighbours cs.changed) expanded f adds,
          expand_from-removed cs expanded,
        )
  ]
