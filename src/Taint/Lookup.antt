-- ===== src/Taint/Lookup.antt =====
-- The lookups of internal/cpg_engine/taint.go in the taint configuration of a language.
use zero_trust_sh.Prelude.{
  ◌∷◌, [], List, Bool, false, Option, none, some, map, any, find_first, if◌then◌else◌,
}
use zero_trust_sh.Prelude.Text.{Bytes, codes, str_eq, to_lower, contains, after_last}
use zero_trust_sh.Finding.Language.{ext}
use zero_trust_sh.Taint.{
  Language, java, python, js, go, unsupported, SourceDef, SinkDef, TaintConfig,
}
use zero_trust_sh.Taint.Java.{java_sources, java_sinks, java_constructor_sinks, java_sanitizers}
use zero_trust_sh.Taint.Python.{python_sources, python_sinks, python_sanitizers}
use zero_trust_sh.Taint.Js.{js_sources, js_sinks, js_sanitizers}
use zero_trust_sh.Taint.Go.{go_sources, go_sinks, go_sanitizers}

-- TaintConfigs[lang]; `none` is a missing key.
unfoldable pub taint_configs : Language → Option TaintConfig
taint_configs java = some (record {
  language = java;
  sources = java_sources;
  sinks = java_sinks;
  constructor_sinks = java_constructor_sinks;
  sanitizers = java_sanitizers;
})
taint_configs python = some (record {
  language = python;
  sources = python_sources;
  sinks = python_sinks;
  constructor_sinks = [];
  sanitizers = python_sanitizers;
})
taint_configs js = some (record {
  language = js;
  sources = js_sources;
  sinks = js_sinks;
  constructor_sinks = [];
  sanitizers = js_sanitizers;
})
taint_configs go = some (record {
  language = go;
  sources = go_sources;
  sinks = go_sinks;
  constructor_sinks = [];
  sanitizers = go_sanitizers;
})
taint_configs unsupported = none

language_of_ext : Bytes → Option Language
unfolding str_eq
language_of_ext e =
    if str_eq e (codes ".java")
    then some java
    else if str_eq e (codes ".py")
    then some python
    else if any (str_eq e)
        (codes ".js" ∷ codes ".jsx" ∷ codes ".ts" ∷ codes ".tsx" ∷ codes ".mjs" ∷ codes ".cjs" ∷ [])
    then some js
    else if str_eq e (codes ".go")
    then some go
    else none

unfoldable pub detect_language : Bytes → Option Language
unfolding language_of_ext any ext to_lower
detect_language path = language_of_ext (to_lower (ext path))

-- The name behind the last dot; the whole name where there is none.
unfoldable pub bare_name : Bytes → Bytes
unfolding after_last
bare_name name = after_last b'.' name name

unfoldable pub joern_name : SinkDef → Bytes
unfolding bare_name
joern_name s = bare_name s.name

unfoldable pub constructor_sink_type_names : Language → List Bytes
unfolding taint_configs
constructor_sink_type_names lang = elim (taint_configs lang) [
  | none ↦ []
  | some cfg ↦ map (λ s. s.name) cfg.constructor_sinks
]

-- A sink matches a call that contains its bare name.
unfoldable pub sink_matches : Bytes → SinkDef → Bool
unfolding contains bare_name
sink_matches call s = contains call (bare_name s.name)

unfoldable pub sink_def_for_call : Language → Bytes → Option SinkDef
unfolding taint_configs find_first sink_matches
sink_def_for_call lang call = elim (taint_configs lang) [
  | none ↦ none
  | some cfg ↦ find_first (sink_matches call) cfg.sinks
]

-- A source matches a call that contains its whole name.
unfoldable pub source_matches : Bytes → SourceDef → Bool
unfolding contains
source_matches call s = contains call s.name

unfoldable pub source_def_for_call : Language → Bytes → Option SourceDef
unfolding taint_configs find_first source_matches
source_def_for_call lang call = elim (taint_configs lang) [
  | none ↦ none
  | some cfg ↦ find_first (source_matches call) cfg.sources
]

unfoldable pub detect_sanitizer : Language → Bytes → Bool
unfolding taint_configs any contains
detect_sanitizer lang name = elim (taint_configs lang) [
  | none ↦ false
  | some cfg ↦ any (λ s. contains name s.name) cfg.sanitizers
]
