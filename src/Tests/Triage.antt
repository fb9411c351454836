-- ===== src/Tests/Triage.antt =====
-- The triage of one handler.
use zero_trust_sh.Prelude.{◌≤◌, false, List, [], ◌∷◌, none, some, refl, ◌≡◌, ◌⊎◌, ◌↔◌, All, map}
use zero_trust_sh.Prelude.Text.{Bytes, codes, contains}
use zero_trust_sh.Prelude.Words.{trim_space}
use zero_trust_sh.Surface.{EnrichedSurface, external_input}
use zero_trust_sh.Triage.{Triager, filter, drop_it}
use zero_trust_sh.Triage.Laws.{Stub, Cleared, filter-Dropped, parse_confidence-bounds}
use zero_trust_sh.Triage.Confidence.{parse_confidence}
use zero_trust_sh.Triage.Window.{Window, window_of, clamp, fits_below, fits_above}
use zero_trust_sh.Triage.Window.Budget.{IsWindow, window_of-IsWindow}
use zero_trust_sh.Triage.Obfuscate.{obfuscate_lines, obfuscate_lines-open_comment, Scan}
use zero_trust_sh.Tests.Floats.{thousandths, thousandths-IsFloat64}
use zero_trust_sh.Tests.Data.{query_handler, handler}

abbrev triager : Triager
triager = record {
  floats = thousandths;
  render = λ d. d.code;
  generate = λ prompt. some (codes "Reasoning: bound\nCategory: PROBABLY_SAFE");
  find_decimal = λ text. none;
  threshold = 400;
}

abbrev long_handler : EnrichedSurface
long_handler =
    handler external_input
      (codes "rows := db.Query(template); for rows.Next() { out = append(out, rows.Value()) }")
      false

abbrev two_handlers : List EnrichedSurface
two_handlers = query_handler ∷ long_handler ∷ []

filter-Dropped_example :
    (map (λ r. r.surface) (filter triager two_handlers) ≡ two_handlers)
    × All
        (λ r. (r.disposition ≡ drop_it) ↔ (Stub r.surface ⊎ Cleared triager r.surface))
        (filter triager two_handlers)
filter-Dropped_example = filter-Dropped triager two_handlers

score : parse_confidence thousandths (λ text. none) (codes "category: exploitable") ≡ 1000
unfolding parse_confidence
score = refl

parse_confidence-bounds_example :
    (0 ≤ parse_confidence thousandths (λ text. none) (codes "I think it is safe"))
    × (parse_confidence thousandths (λ text. none) (codes "I think it is safe") ≤ 1000)
parse_confidence-bounds_example =
    parse_confidence-bounds thousandths thousandths-IsFloat64 (λ text. none)
      (codes "I think it is safe")

abbrev three_lines : List Bytes
three_lines = codes "aa" ∷ codes "bb" ∷ codes "cc" ∷ []

window_of-IsWindow_example :
    (w : Window) × (window_of three_lines 2 5 ≡ some w)
    × IsWindow three_lines 5 (clamp three_lines 2) w
    × (fits_below three_lines 5 w ≡ false)
    × (fits_above three_lines 5 w ≡ false)
window_of-IsWindow_example = window_of-IsWindow (codes "aa") (codes "bb" ∷ codes "cc" ∷ []) 2 5

abbrev fresh : Scan
fresh = record { in_block_comment = false; in_import_block = false }

-- The pattern of a route opens a comment for the scan, and that of another one closes it.
obfuscate_lines-open_comment_example :
    (obfuscate_lines fresh (codes "match(\"/api/**\")" ∷ codes "db.Query(q)" ∷ []) ≡ [])
    × (obfuscate_lines fresh (
          codes "match(\"/api/**\")"
          ∷ codes "db.Query(q)"
          ∷ codes "m(\"**/x\")"
          ∷ codes "end()"
          ∷ [])
        ≡ obfuscate_lines fresh (codes "end()" ∷ []))
unfolding contains trim_space
obfuscate_lines-open_comment_example =
    obfuscate_lines-open_comment false (codes "match(\"/api/**\")") (codes "db.Query(q)" ∷ [])
      (codes "end()" ∷ []) (codes "m(\"**/x\")") refl (refl, tt) refl
