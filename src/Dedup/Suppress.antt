-- ===== src/Dedup/Suppress.antt =====
-- AutoSuppress of internal/dedup/dedup.go: test files, test directories and framework-safe paths.
pub mod Laws
use zero_trust_sh.Prelude.{◌∷◌, [], List, Bool, any, if◌then◌else◌}
use zero_trust_sh.Prelude.Text.{Bytes, codes, str_eq, has_suffix, to_lower, split}
use zero_trust_sh.Finding.{Finding, reason_test_file}
use zero_trust_sh.Dedup.Sidecar.{suppress, apply_framework_safe}

unfoldable pub test_patterns : List Bytes
test_patterns =
    codes "_test.go"
    ∷ codes "_test.py"
    ∷ codes "test_.py"
    ∷ codes "_spec.rb"
    ∷ codes "_spec.js"
    ∷ codes "_spec.ts"
    ∷ codes ".test.js"
    ∷ codes ".test.ts"
    ∷ codes ".test.jsx"
    ∷ codes ".test.tsx"
    ∷ codes ".spec.js"
    ∷ codes ".spec.ts"
    ∷ []

-- The keys of a map whose values are all true.
unfoldable pub test_dirs : List Bytes
test_dirs = codes "__tests__" ∷ codes "testdata" ∷ codes "tests" ∷ codes "test" ∷ codes "spec" ∷ []

unfoldable pub has_test_suffix : Bytes → Bool
unfolding any has_suffix to_lower test_patterns str_eq
has_test_suffix path = any (has_suffix (to_lower path)) test_patterns

unfoldable pub has_test_dir : Bytes → Bool
unfolding any split to_lower test_dirs str_eq
has_test_dir path = any (λ part. any (str_eq (to_lower part)) test_dirs) (split path b'/')

unfoldable pub auto_suppress : Finding → Finding
unfolding has_test_suffix has_test_dir suppress apply_framework_safe
auto_suppress f =
    if has_test_suffix f.path
    then suppress reason_test_file f
    else if has_test_dir f.path
    then suppress reason_test_file f
    else apply_framework_safe f
