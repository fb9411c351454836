-- ===== src/Finding/Language.antt =====
-- The language of a source file by its extension: LangFromPath of internal/finding/finding.go.
use zero_trust_sh.Prelude.{◌≡◌, refl, if◌then◌else◌, ◌||◌, [], ◌∷◌, ◌==◌}
use zero_trust_sh.Prelude.Text.{Bytes, codes, str_eq, to_lower}

-- filepath.Ext: the text from the last dot of the last path element on, and nothing where that
-- element has no dot.
unfoldable pub ext_from : Bytes → Bytes → Bytes
ext_from [] best = best
ext_from (c ∷ s) best = ext_from s (if c == b'/' then [] else if c == b'.' then c ∷ s else best)

unfoldable pub ext : Bytes → Bytes
unfolding ext_from
ext path = ext_from path []

-- The switch over the lower-case extension.
unfoldable pub lang_of_ext : Bytes → Bytes
unfolding str_eq
lang_of_ext e =
    if str_eq e (codes ".py")
    then codes "python"
    else if str_eq e (codes ".java")
    then codes "java"
    else if str_eq e (codes ".go")
    then codes "go"
    else if str_eq e (codes ".js") || str_eq e (codes ".mjs")
    then codes "javascript"
    else if str_eq e (codes ".ts") || str_eq e (codes ".tsx")
    then codes "typescript"
    else if str_eq e (codes ".rs")
    then codes "rust"
    else if str_eq e (codes ".kt") || str_eq e (codes ".kts")
    then codes "kotlin"
    else if str_eq e (codes ".swift")
    then codes "swift"
    else if str_eq e (codes ".cs")
    then codes "csharp"
    else codes "unknown"

unfoldable pub lang_from_path : Bytes → Bytes
unfolding ext to_lower lang_of_ext
lang_from_path path = lang_of_ext (to_lower (ext path))

lang_from_path_tsx : lang_from_path (codes "web/src.d/App.TSX") ≡ codes "typescript"
unfolding lang_from_path
lang_from_path_tsx = refl

lang_from_path_none : lang_from_path (codes "web.py/Makefile") ≡ codes "unknown"
unfolding lang_from_path
lang_from_path_none = refl
