-- ===== src/Targeting/Search/Reverse.antt =====
-- buildReverseCG of internal/semantic/targeting/targeting.go turns the edges around.
use zero_trust_sh.Prelude.{
  List, [], ◌∷◌, ◌++◌, ◌≡◌, ◌≢◌, refl, sym, ◌↔◌, ◌⊎◌, inl, inr, Member, Member-append,
  Member-append_left, Member-append_right, Bool-cases, All, if◌then◌else◌,
}
use zero_trust_sh.Prelude.Text.{Bytes, str_eq, str_eq_iff}
use zero_trust_sh.Prelude.Assoc.{lookup, lookup-insert}
use zero_trust_sh.Targeting.{CallGraph, callees, or_nil}
use zero_trust_sh.Targeting.Search.{add_caller, add_callers, reverse_from, build_reverse_cg}
use zero_trust_sh.Targeting.Search.Depths.{Edge}

-- A key stands once in a Go map.
abbrev pub Unique : CallGraph → Type 0
Unique [] = Unit
Unique ((caller, ids) ∷ cg) = All (λ e. e.0 ≢ caller) cg × Unique cg

-- Some entry of the list has the edge.
abbrev Entry : CallGraph → Bytes → Bytes → Type 0
Entry [] u v = ⊥
Entry ((caller, ids) ∷ cg) u v = ((caller ≡ u) × Member v ids) ⊎ Entry cg u v

callees-add_caller :
    (caller callee v : Bytes) (rev : CallGraph)
    → callees (add_caller caller rev callee) v
      ≡ (if str_eq callee v then callees rev callee ++ caller ∷ [] else callees rev v)
unfolding callees add_caller
callees-add_caller caller callee v rev = elim (Bool-cases (str_eq callee v)) [
  | inl e ↦
      rw (lookup-insert callee v (or_nil (lookup callee rev) ++ caller ∷ []) rev, e)
        (unfold or_nil in refl)
  | inr e ↦ rw (lookup-insert callee v (or_nil (lookup callee rev) ++ caller ∷ []) rev, e) refl
]

Edge-add_caller :
    (caller callee u v : Bytes) (rev : CallGraph)
    → Edge (add_caller caller rev callee) v u ↔ (Edge rev v u ⊎ ((caller ≡ u) × (callee ≡ v)))
Edge-add_caller caller callee u v rev = elim (Bool-cases (str_eq callee v)) [
  | inl e ↦
      let same = (str_eq_iff callee v).0 e in
      rw (callees-add_caller caller callee v rev, e)
        (
          λ m. elim (Member-append u (callees rev callee) (caller ∷ []) m) [
            | inl old ↦ inl (rw same at old)
            | inr new ↦ elim new [ inl c ↦ inr (c, same) | inr no_more ↦ absurd no_more ]
          ],
          λ m. elim m [
            | inl old ↦
                Member-append_left u (callees rev callee) (caller ∷ []) (rw (sym same) at old)
            | inr both ↦ Member-append_right u (callees rev callee) (caller ∷ []) (inl (both.0))
          ],
        )
  | inr e ↦
      rw (callees-add_caller caller callee v rev, e)
        (
          λ m. inl m,
          λ m. elim m [ inl old ↦ old | inr both ↦ cc (e, (str_eq_iff callee v).1 (both.1)) ],
        )
]

Edge-add_callers :
    (caller : Bytes) (ids : List Bytes) (u v : Bytes) (rev : CallGraph)
    → Edge (add_callers caller rev ids) v u ↔ (Edge rev v u ⊎ ((caller ≡ u) × Member v ids))
unfolding add_callers
Edge-add_callers caller [] u v rev =
    (λ m. inl m, λ m. elim m [ inl old ↦ old | inr no_more ↦ absurd (no_more.1) ])
Edge-add_callers caller (callee ∷ ids) u v rev =
    let first = Edge-add_caller caller callee u v rev in
    let later = Edge-add_callers caller ids u v (add_caller caller rev callee) in
    (
      λ m. elim (later.0 m) [
        | inl old ↦ elim (first.0 old) [ inl o ↦ inl o | inr b ↦ inr (b.0, inl (b.1)) ]
        | inr b ↦ inr (b.0, inr (b.1))
      ],
      λ m. elim m [
        | inl old ↦ later.1 (inl (first.1 (inl old)))
        | inr (c, at) ↦ elim at [
          | inl here ↦ later.1 (inl (first.1 (inr (c, here))))
          | inr there ↦ later.1 (inr (c, there))
        ]
      ],
    )

Edge-reverse_from :
    (cg rev : CallGraph) (u v : Bytes)
    → Edge (reverse_from cg rev) v u ↔ (Edge rev v u ⊎ Entry cg u v)
unfolding reverse_from
Edge-reverse_from [] rev u v =
    (λ m. inl m, λ m. elim m [ inl old ↦ old | inr no_more ↦ absurd no_more ])
Edge-reverse_from ((caller, ids) ∷ cg) rev u v =
    let first = Edge-add_callers caller ids u v rev in
    let later = Edge-reverse_from cg (add_callers caller rev ids) u v in
    (
      λ m. elim (later.0 m) [
        | inl old ↦ elim (first.0 old) [ inl o ↦ inl o | inr b ↦ inr (inl b) ]
        | inr b ↦ inr (inr b)
      ],
      λ m. elim m [
        | inl old ↦ later.1 (inl (first.1 (inl old)))
        | inr at ↦ elim at [
          | inl here ↦ later.1 (inl (first.1 (inr here)))
          | inr there ↦ later.1 (inr there)
        ]
      ],
    )

Entry-absent : (cg : CallGraph) (u v : Bytes) → All (λ e. e.0 ≢ u) cg → ¬ Entry cg u v
Entry-absent [] u v h m = m
Entry-absent ((caller, ids) ∷ cg) u v h m = elim m [
  | inl here ↦ h.0 (here.0)
  | inr there ↦ Entry-absent cg u v (h.1) there
]

Entry-Edge : (cg : CallGraph) (u v : Bytes) → Unique cg → Entry cg u v ↔ Edge cg u v
unfolding callees or_nil lookup
Entry-Edge [] u v h = (λ m. m, λ m. m)
Entry-Edge ((caller, ids) ∷ cg) u v h = elim (Bool-cases (str_eq caller u)) [
  | inl e ↦
      let same = (str_eq_iff caller u).0 e in
      rw e (
        λ m. elim m [
          | inl here ↦ here.1
          | inr there ↦ absurd (Entry-absent cg u v (rw same at (h.0)) there)
        ],
        λ m. inl (same, m),
      )
  | inr e ↦
      let rest = Entry-Edge cg u v (h.1) in
      rw e (
        λ m. elim m [
          | inl here ↦ cc (e, (str_eq_iff caller u).1 (here.0))
          | inr there ↦ rest.0 there
        ],
        λ m. inr (rest.1 m),
      )
]

-- In the reverse of a call graph in which no key stands twice, `v` calls `u` exactly if `u` calls `v`
-- in the graph.
pub build_reverse_cg-Edge :
    (cg : CallGraph) (u v : Bytes) → Unique cg → Edge (build_reverse_cg cg) v u ↔ Edge cg u v
unfolding build_reverse_cg
build_reverse_cg-Edge cg u v h =
    let turned = Edge-reverse_from cg [] u v in
    let entry = Entry-Edge cg u v h in
    (
      λ m. elim (turned.0 m) [
        | inl no_more ↦ absurd (unfold callees or_nil lookup in no_more)
        | inr at ↦ entry.0 at
      ],
      λ m. turned.1 (inr (entry.1 m)),
    )
