-- ===== src/Triage.antt =====
-- internal/semantic/triage/triage.go: the filter that drops surfaces before the full analysis. The prompt's parts are
-- in Prompt, what it removes from code in Obfuscate, the reading of the answer in Confidence. The LLM, the
-- prompt template and regexp's search for a decimal are parameters.
pub mod Obfuscate
pub mod Window
pub mod Prompt
pub mod Confidence
pub mod Laws
use zero_trust_sh.Prelude.{
  ℕ, Bool, true, false, List, [], ◌∷◌, Option, none, some, if◌then◌else◌, ltb, leb, length,
}
use zero_trust_sh.Prelude.Text.{Bytes, codes}
use zero_trust_sh.Prelude.Words.{trim_space}
use zero_trust_sh.Prelude.Float.{Float64, FloatOps}
use zero_trust_sh.Surface.{EnrichedSurface}
use zero_trust_sh.Triage.Prompt.{PromptData, build_triage_prompt}
use zero_trust_sh.Triage.Confidence.{parse_confidence}

pub data Disposition : Type 0 where
  drop_it escalate : Disposition

unfoldable pub disposition_name : Disposition → Bytes
disposition_name drop_it = codes "DROP"
disposition_name escalate = codes "ESCALATE"

pub record Result : Type 0 where
  pub surface : EnrichedSurface
  pub disposition : Disposition
  pub confidence : Float64
  pub explanation : Bytes

pub record Triager : Type 0 where
  pub floats : FloatOps
  pub render : PromptData → Bytes
  -- The LLM's answer to a prompt; `none` is its error.
  pub generate : Bytes → Option Bytes
  -- The decimal that the regular expression finds in a text.
  pub find_decimal : Bytes → Option Float64
  pub threshold : Float64

unfoldable pub score_of : Triager → Option Bytes → Float64
unfolding parse_confidence
score_of t none = t.threshold
score_of t (some resp) = parse_confidence t.floats t.find_decimal resp

unfoldable pub explanation_of : Option Bytes → Bytes
explanation_of none = codes "not evaluated"
explanation_of (some resp) = resp

unfoldable pub judge : Triager → EnrichedSurface → Option Bytes → Result
unfolding score_of explanation_of
judge t surface resp = record {
  surface = surface;
  disposition = if leb t.threshold (score_of t resp) then escalate else drop_it;
  confidence = score_of t resp;
  explanation = explanation_of resp;
}

-- The body of the loop.
unfoldable pub triage_one : Triager → EnrichedSurface → Result
unfolding judge build_triage_prompt trim_space
triage_one t surface =
    if ltb (length (trim_space surface.code)) 50
    then record {
      surface = surface;
      disposition = drop_it;
      confidence = t.floats.decimal 0 0;
      explanation = codes "stub: no method body";
    }
    else judge t surface (t.generate (t.render (build_triage_prompt surface)))

unfoldable pub filter : Triager → List EnrichedSurface → List Result
unfolding triage_one
filter t [] = []
filter t (surface ∷ surfaces) = triage_one t surface ∷ filter t surfaces
