-- ===== src/Targeting/TestFile.antt =====
-- IsTestFile of pkg/util/testfile.go.
use zero_trust_sh.Prelude.{Bool, ◌||◌, List, [], ◌∷◌, any}
use zero_trust_sh.Prelude.Text.{Bytes, codes, has_prefix, has_suffix, split, str_eq}
use zero_trust_sh.Prelude.Glob.{base}

-- The suffixes of the languages' test files.
abbrev pub test_suffixes : List Bytes
test_suffixes =
    codes "Test.java"
    ∷ codes "Tests.java"
    ∷ codes "IT.java"
    ∷ codes "Spec.kt"
    ∷ codes "Test.kt"
    ∷ codes "_test.go"
    ∷ codes "_test.py"
    ∷ codes ".test.js"
    ∷ codes ".spec.js"
    ∷ codes ".test.ts"
    ∷ codes ".spec.ts"
    ∷ []

abbrev pub test_segments : List Bytes
test_segments =
    codes "test"
    ∷ codes "tests"
    ∷ codes "__tests__"
    ∷ codes "androidTest"
    ∷ codes "testFixtures"
    ∷ codes "it"
    ∷ []

unfoldable pub is_test_file : Bytes → Bool
unfolding any base has_prefix has_suffix split str_eq
is_test_file path =
    any (λ s. has_suffix (base path) s) test_suffixes
    || has_prefix (base path) (codes "test")
    || any (λ part. any (λ s. str_eq part s) test_segments) (split path 47)
