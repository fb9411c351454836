-- ===== src/Targeting/Select/Collect.antt =====
-- The seeds of Run of internal/semantic/targeting/targeting.go, and isAuthMethod.
use zero_trust_sh.Prelude.{
  ℕ, ◌+◌, ◌-◌, Bool, false, List, [], ◌∷◌, ◌++◌, Option, none, some, if◌then◌else◌, ltb, ◌&&◌, ◌||◌,
  not, any, take, drop,
}
use zero_trust_sh.Prelude.Text.{Bytes, codes, contains, str_eq, to_lower}
use zero_trust_sh.Prelude.Assoc.{lookup, insert}
use zero_trust_sh.Targeting.{Node}
use zero_trust_sh.Targeting.TestFile.{is_test_file}
use zero_trust_sh.Targeting.Boundary.{FileClass}
use zero_trust_sh.Targeting.Select.SecondOrder.{abs_file}

abbrev pub auth_patterns : List Bytes
auth_patterns =
    codes "auth"
    ∷ codes "login"
    ∷ codes "logout"
    ∷ codes "token"
    ∷ codes "verify"
    ∷ codes "validate"
    ∷ codes "permission"
    ∷ codes "authorize"
    ∷ codes "authenticate"
    ∷ codes "access"
    ∷ codes "security"
    ∷ codes "credential"
    ∷ codes "principal"
    ∷ codes "session"
    ∷ codes "jwt"
    ∷ codes "oauth"
    ∷ []

abbrev pub auth_annotations : List Bytes
auth_annotations =
    codes "@PreAuthorize" ∷ codes "@Secured" ∷ codes "@RolesAllowed" ∷ codes "@WithMockUser" ∷ []

unfoldable pub has_annotation : Bytes → Bool
unfolding any contains
has_annotation line = any (λ a. contains line a) auth_annotations

-- lines[max(line-6, 0) : min(line+4, len)]
unfoldable pub annotated : Option (List Bytes) → ℕ → Bool
unfolding any has_annotation
annotated none line = false
annotated (some lines) line =
    any has_annotation (take ((line + 4) - (line - 6)) (drop (line - 6) lines))

-- `read` gives the lines of a file, `none` where it cannot be read.
unfoldable pub is_auth_method : (Bytes → Option (List Bytes)) → Bytes → Node → Bool
unfolding any contains to_lower annotated abs_file str_eq
is_auth_method read root m =
    any (λ p. contains (to_lower m.name) p) auth_patterns
    || (not (str_eq m.file []) && ltb 0 m.line && annotated (read (abs_file root m.file)) m.line)

-- The four seed lists; `any_auth` is anyAuthMethod.
pub record Seeds : Type 0 where
  pub source_seeds : List Bytes
  pub sink_seeds : List Bytes
  pub auth_seeds : List Bytes
  pub fallback_auth_seeds : List Bytes

abbrev pub append_if : Bool → Bytes → List Bytes → List Bytes
append_if b id ids = if b then ids ++ id ∷ [] else ids

module _ (read : Bytes → Option (List Bytes)) (root : Bytes)
    (classes : List (Bytes × FileClass)) where
  unfoldable pub seed_classified : Node → Option FileClass → Seeds → Seeds
  unfolding is_auth_method
  seed_classified m none seeds = seeds
  seed_classified m (some fc) seeds = record {
    source_seeds = append_if fc.bound.source m.id seeds.source_seeds;
    sink_seeds = append_if fc.bound.sink m.id seeds.sink_seeds;
    auth_seeds = append_if (fc.bound.auth && is_auth_method read root m) m.id seeds.auth_seeds;
    fallback_auth_seeds = append_if fc.bound.auth m.id seeds.fallback_auth_seeds;
  }

  -- The body of the loop over the methods.
  unfoldable pub seed_method : Node → Seeds → Seeds
  unfolding is_test_file abs_file lookup seed_classified
  seed_method m seeds =
      if is_test_file m.file
      then seeds
      else seed_classified m (lookup (abs_file root m.file) classes) seeds

  unfoldable pub seed_all : List Node → Seeds → Seeds
  unfolding seed_method
  seed_all [] seeds = seeds
  seed_all (m ∷ methods) seeds = seed_all methods (seed_method m seeds)

-- byID: a later method of an id replaces an earlier one.
unfoldable pub by_id : List Node → List (Bytes × Node) → List (Bytes × Node)
unfolding insert
by_id [] nodes = nodes
by_id (m ∷ methods) nodes = by_id methods (insert m.id m nodes)

-- Where no method is one of authentication by name or annotation, its file decides.
unfoldable pub auth_seeds_of : Seeds → List Bytes
auth_seeds_of seeds = elim seeds.auth_seeds [ [] ↦ seeds.fallback_auth_seeds | id ∷ ids ↦ id ∷ ids ]
