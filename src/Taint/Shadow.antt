-- ===== src/Taint/Shadow.antt =====
-- What the lookups in the taint tables find.
use zero_trust_sh.Prelude.{
  ◌∷◌, ◌++◌, [], List, Bool, true, false, not, none, some, ◌≡◌, refl, sym, ap, ◌∙◌, take, drop,
  arith, Member, All, all, find_first,
}
use zero_trust_sh.Prelude.Search.{find_first_sound, find_first_complete, find_first-before}
use zero_trust_sh.Prelude.Text.{Bytes, codes, str_eq, contains}
use zero_trust_sh.Taint.{
  Language, java, python, js, go, unsupported, SinkDef, sink, deserialization,
}
use zero_trust_sh.Taint.Python.{python_sinks}
use zero_trust_sh.Taint.Go.{go_sinks}
use zero_trust_sh.Taint.Java.{java_sinks}
use zero_trust_sh.Taint.Js.{js_sinks}
use zero_trust_sh.Taint.Lookup.{bare_name, sink_matches, sink_def_for_call}

-- The sinks of a language.
abbrev pub sinks_of : Language → List SinkDef
sinks_of java = java_sinks
sinks_of python = python_sinks
sinks_of js = js_sinks
sinks_of go = go_sinks
sinks_of unsupported = []

-- The lookup is a search through the sinks of the language, in order.
sink_def_for_call-find_first :
    (lang : Language) (call : Bytes)
    → sink_def_for_call lang call ≡ find_first (sink_matches call) (sinks_of lang)
unfolding sink_def_for_call
sink_def_for_call-find_first java call = refl
sink_def_for_call-find_first python call = refl
sink_def_for_call-find_first js call = refl
sink_def_for_call-find_first go call = refl
sink_def_for_call-find_first unsupported call = refl

-- A sink that is found is an entry of the language's table whose bare name the call contains;
-- where none is found, the call contains the bare name of no entry.
pub sink_def_for_call_lem :
    (lang : Language) (call : Bytes)
    → ((s : SinkDef)
        → sink_def_for_call lang call ≡ some s
        → Member s (sinks_of lang) × (contains call (bare_name s.name) ≡ true))
      × (sink_def_for_call lang call ≡ none
          → All (λ s. contains call (bare_name s.name) ≡ false) (sinks_of lang))
unfolding sink_matches
sink_def_for_call_lem lang call = (
  λ s e.
      find_first_sound (sink_matches call) (sinks_of lang)
        (sym (sink_def_for_call-find_first lang call) ∙ e),
  λ e.
      find_first_complete (sink_matches call) (sinks_of lang)
        (sym (sink_def_for_call-find_first lang call) ∙ e),
)

All-of-all :
    {A : Type 0} (p : A → Bool) (xs : List A)
    → all (λ x. not (p x)) xs ≡ true
    → All (λ x. p x ≡ false) xs
unfolding all
All-of-all p [] h = tt
All-of-all p (x ∷ xs) h = (ground arith, All-of-all p xs (ground arith))

is_path_traversal : SinkDef → Bool
is_path_traversal s = str_eq s.cwe (codes "CWE-22")

abbrev shelve_open : SinkDef
shelve_open = sink (codes "shelve.open") deserialization (codes "CWE-502")

-- The table of Python around its entry for shelve.open.
python_sinks_split : python_sinks ≡ take 16 python_sinks ++ shelve_open ∷ drop 17 python_sinks
unfolding python_sinks
python_sinks_split = refl

before_shelve_open : All (λ s. is_path_traversal s ≡ false) (take 16 python_sinks)
before_shelve_open =
    All-of-all is_path_traversal (take 16 python_sinks)
      (unfold python_sinks all is_path_traversal str_eq in refl)

-- A Python call whose name contains "open" is never classified as path traversal (CWE-22): the entry
-- for shelve.open, or one before it, is found first, so the table's own entry for open is dead.
pub python_open_shadowed :
    (call : Bytes)
    → contains call (codes "open") ≡ true
    → (s : SinkDef) × (sink_def_for_call python call ≡ some s)
      × (str_eq s.cwe (codes "CWE-22") ≡ false)
unfolding is_path_traversal
python_open_shadowed call h =
    let (s, found, other) =
      find_first-before (sink_matches call) (λ s. is_path_traversal s ≡ false)
        (take 16 python_sinks) shelve_open (drop 17 python_sinks) before_shelve_open
        (unfold str_eq in refl) (unfold sink_matches in h) in
    (
      s,
      sink_def_for_call-find_first python call
          ∙ ap (find_first (sink_matches call)) python_sinks_split
          ∙ found,
      other,
    )
