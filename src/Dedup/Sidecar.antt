-- ===== src/Dedup/Sidecar.antt =====
-- internal/dedup/sidecar.go: the user's suppression rules and the framework-safe patterns.
pub mod Laws
use zero_trust_sh.Prelude.{
  ◌∷◌, [], List, Bool, true, false, not, ◌&&◌, ◌||◌, Option, none, some, any, find_first,
  if◌then◌else◌,
}
use zero_trust_sh.Prelude.Text.{Bytes, codes, str_eq, split, equal_fold}
use zero_trust_sh.Prelude.Glob.{path_match, base}
use zero_trust_sh.Finding.{Finding, SuppressReason, suppressed, reason_framework_safe}

pub record SidecarEntry : Type 0 where
  pub id : Bytes
  pub path : Bytes
  pub cwe : Bytes
  pub reason : Bytes

pub record Sidecar : Type 0 where
  pub suppressions : List SidecarEntry

-- What LoadSidecar makes of the file. `decode` is yaml.Unmarshal of a third party; a root that is
-- empty, a file that cannot be read and a text that does not parse give no rules.
pub load_sidecar : (Bytes → Option Sidecar) → Bytes → Option Bytes → Sidecar
load_sidecar decode root none = record { suppressions = [] }
load_sidecar decode root (some text) =
    if str_eq root []
    then record { suppressions = [] }
    else elim (decode text) [ none ↦ record { suppressions = [] } | some sc ↦ sc ]

unfoldable pub suppress : SuppressReason → Finding → Finding
suppress reason f = record f { severity_label = suppressed; suppress_reason = reason }

-- globMatchPath: the pattern matches a segment of the path.
unfoldable pub glob_match_path : Bytes → Bytes → Bool
unfolding any path_match split
glob_match_path pattern path = any (λ part. path_match pattern part) (split path b'/')

-- A rule applies unless one of its fields that are not empty speaks against it.
unfoldable pub rule_matches : Finding → SidecarEntry → Bool
unfolding glob_match_path equal_fold
rule_matches f rule =
    (str_eq rule.id [] || str_eq f.id rule.id)
    && ((str_eq rule.path [] || (path_match rule.path f.path || glob_match_path rule.path f.path))
        && (str_eq rule.cwe [] || equal_fold f.cwe rule.cwe))

unfoldable pub apply_found : Finding → Option SidecarEntry → Finding
unfolding suppress
apply_found f none = f
apply_found f (some rule) = suppress rule.reason f

-- Apply: the first rule that matches suppresses the finding, for its reason.
unfoldable pub apply : Sidecar → Finding → Finding
unfolding apply_found rule_matches find_first
apply sc f = apply_found f (find_first (rule_matches f) sc.suppressions)

pub record SafePattern : Type 0 where
  pub glob : Bytes
  pub reason : SuppressReason

unfoldable pub safe : Bytes → SafePattern
safe glob = record { glob = glob; reason = reason_framework_safe }

unfoldable pub framework_safe_patterns : List SafePattern
unfolding safe
framework_safe_patterns =
    safe (codes "*/migrations/*.py")
    ∷ safe (codes "*/settings.py")
    ∷ safe (codes "*SecurityConfig.java")
    ∷ safe (codes "*SecurityConfiguration.java")
    ∷ safe (codes "*.pb.go")
    ∷ safe (codes "*_grpc.pb.go")
    ∷ safe (codes "*/alembic/versions/*.py")
    ∷ safe (codes "*/database/migrations/*.php")
    ∷ []

-- The glob is tried on the path, then on its last element.
unfoldable pub pattern_matches : Bytes → SafePattern → Bool
unfolding path_match base
pattern_matches path pat = path_match pat.glob path || path_match pat.glob (base path)

unfoldable pub safe_found : Finding → Option SafePattern → Finding
unfolding suppress
safe_found f none = f
safe_found f (some pat) = suppress pat.reason f

unfoldable pub apply_framework_safe : Finding → Finding
unfolding safe_found pattern_matches find_first framework_safe_patterns
apply_framework_safe f = safe_found f (find_first (pattern_matches f.path) framework_safe_patterns)
