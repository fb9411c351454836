-- ===== src/Dedup/Sidecar/Laws.antt =====
-- What the sidecar rules and the framework-safe patterns do to a finding.
use zero_trust_sh.Prelude.{
  ap, any, ◌≡◌, refl, ◌∷◌, ◌++◌, [], List, true, false, Option, none, some, ◌⊎◌, inl, inr, All,
}
use zero_trust_sh.Prelude.Text.{str_eq}
use zero_trust_sh.Prelude.Search.{
  find_first-append, find_first-cons, find_first-none, find_first-All, find_first-any,
  find_first-any-none,
}
use zero_trust_sh.Finding.{Finding, reason_framework_safe}
use zero_trust_sh.Dedup.Sidecar.{
  SidecarEntry, SafePattern, suppress, rule_matches, apply, apply_framework_safe,
  framework_safe_patterns, safe_found, safe, pattern_matches,
}

-- The first rule that matches decides: with no match before it, the finding is suppressed for the
-- reason of that rule, whatever rules follow.
pub apply-first_match :
    (before after : List SidecarEntry) (rule : SidecarEntry) (f : Finding)
    → All (λ r. rule_matches f r ≡ false) before
    → rule_matches f rule ≡ true
    → apply (record { suppressions = before ++ rule ∷ after }) f ≡ suppress rule.reason f
unfolding apply
apply-first_match before after rule f none_before here =
    rw (find_first-append (rule_matches f) before (rule ∷ after) none_before)
      (rw (find_first-cons (rule_matches f) rule after here) refl)

-- A finding that no rule matches passes unchanged.
pub apply-no_match :
    (rules : List SidecarEntry) (f : Finding)
    → All (λ r. rule_matches f r ≡ false) rules
    → apply (record { suppressions = rules }) f ≡ f
unfolding apply
apply-no_match rules f h = rw (find_first-none (rule_matches f) rules h)

-- A rule that names neither an id, nor a path, nor a CWE suppresses every finding, for its reason,
-- an empty reason included.
pub apply-blanket :
    (rule : SidecarEntry) (after : List SidecarEntry) (f : Finding)
    → rule.id ≡ []
    → rule.path ≡ []
    → rule.cwe ≡ []
    → apply (record { suppressions = rule ∷ after }) f ≡ suppress rule.reason f
apply-blanket rule after f i p c =
    apply-first_match [] after rule f tt (unfold rule_matches str_eq in rw (i, p, c) refl)

All-framework_safe : All (λ q. q.reason ≡ reason_framework_safe) framework_safe_patterns
unfolding framework_safe_patterns safe
All-framework_safe = (refl, (refl, (refl, (refl, (refl, (refl, (refl, (refl, tt))))))))

safe_found-cases :
    (f : Finding) (o : Option SafePattern)
    → ((pat : SafePattern) → o ≡ some pat → pat.reason ≡ reason_framework_safe)
    → (safe_found f o ≡ f) ⊎ (safe_found f o ≡ suppress reason_framework_safe f)
unfolding safe_found
safe_found-cases f none h = inl refl
safe_found-cases f (some pat) h = inr (rw (h pat refl) refl)

-- A framework-safe pattern suppresses a finding for the reason framework_safe, or leaves it alone.
pub apply_framework_safe-cases :
    (f : Finding)
    → (apply_framework_safe f ≡ f) ⊎ (apply_framework_safe f ≡ suppress reason_framework_safe f)
unfolding apply_framework_safe
apply_framework_safe-cases f = safe_found-cases f _ (λ pat e.
    find_first-All (pattern_matches f.path) (λ q. q.reason ≡ reason_framework_safe)
      framework_safe_patterns All-framework_safe e)

-- A path that a framework-safe pattern matches is suppressed for it, and no other.
pub apply_framework_safe-hit :
    (f : Finding)
    → any (pattern_matches f.path) framework_safe_patterns ≡ true
    → apply_framework_safe f ≡ suppress reason_framework_safe f
unfolding apply_framework_safe safe_found
apply_framework_safe-hit f h =
    let (pat, e) = find_first-any (pattern_matches f.path) framework_safe_patterns h in
    let r =
      find_first-All (pattern_matches f.path) (λ q. q.reason ≡ reason_framework_safe)
        framework_safe_patterns All-framework_safe e in
    rw e (ap (λ reason. suppress reason f) r)

pub apply_framework_safe-miss :
    (f : Finding)
    → any (pattern_matches f.path) framework_safe_patterns ≡ false
    → apply_framework_safe f ≡ f
unfolding apply_framework_safe safe_found
apply_framework_safe-miss f h =
    rw (find_first-any-none (pattern_matches f.path) framework_safe_patterns h) refl
