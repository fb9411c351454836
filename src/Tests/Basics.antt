-- ===== src/Tests/Basics.antt =====
-- The labels, the configuration, the taint tables and the text helpers on small inputs.
use zero_trust_sh.Prelude.{
  ◌<◌, ◌≤◌, true, false, List, [], ◌∷◌, some, refl, ◌≡◌, ◌⊎◌, length, take, All, Member, arith,
}
use zero_trust_sh.Prelude.Text.{Bytes, codes, contains, str_eq}
use zero_trust_sh.Prelude.Words.{truncate_utf8, truncate_utf8_lem, back_up, starts_at}
use zero_trust_sh.Config.{Config, default_config}
use zero_trust_sh.Config.Valid.{validate, load, load-validate, contents}
use zero_trust_sh.Taint.{Language, go, python, SinkDef}
use zero_trust_sh.Taint.Lookup.{detect_language, sink_def_for_call}
use zero_trust_sh.Taint.Majority.{language_count, detect_language_from_files, majority}
use zero_trust_sh.Taint.Shadow.{python_open_shadowed}
use zero_trust_sh.Tests.Floats.{thousandths, thousandths-IsFloat64}

-- A file that sets the cross-path boost.
abbrev boosted : Config
boosted = record (default_config thousandths) { boost_cross_path = 250 }

load-validate_example : validate thousandths boosted ≡ true
unfolding load validate default_config
load-validate_example =
    load-validate thousandths thousandths-IsFloat64 (λ cfg text. some boosted) (codes "zt.yaml")
      (contents (codes "boost: 0.25")) refl

abbrev files : List Bytes
files = codes "a.go" ∷ codes "b.py" ∷ codes "c.py" ∷ []

majority_example :
    (best : Language) × (detect_language_from_files files (go ∷ python ∷ []) ≡ some best)
    × Member best (go ∷ python ∷ [])
    × All (λ l. language_count files l ≤ language_count files best) (go ∷ python ∷ [])
unfolding language_count detect_language
majority_example = majority files go (python ∷ []) (omega arith)

python_open_shadowed_example :
    (s : SinkDef) × (sink_def_for_call python (codes "open") ≡ some s)
    × (str_eq s.cwe (codes "CWE-22") ≡ false)
unfolding contains
python_open_shadowed_example = python_open_shadowed (codes "open") refl

-- The third byte continues a character of two bytes.
abbrev text : Bytes
text = 97 ∷ 195 ∷ 169 ∷ 98 ∷ []

truncate_utf8_lem_example :
    (4 ≤ 2 → truncate_utf8 text 2 ≡ text)
    × (2 < 4
        → (truncate_utf8 text 2 ≡ take (back_up text 2) text)
          × (length (truncate_utf8 text 2) ≤ 2)
          × ((back_up text 2 ≡ 0) ⊎ (starts_at text (back_up text 2) ≡ true)))
truncate_utf8_lem_example = truncate_utf8_lem text 2
