-- ===== src/Contracts.antt =====
-- internal/semantic/contracts: the deterministic contract checker. The rules are in Rulebook, one
-- rule's verdict in Evaluate, the choice among the rules in Check, the question to the LLM in
-- Escalate, and the text helpers in Source.
pub mod Injection
pub mod Others
pub mod Rulebook
pub mod Source
pub mod Escalate
pub mod Evaluate
pub mod Check
use zero_trust_sh.Prelude.{ℕ, Bool, List, ltb, Option}
use zero_trust_sh.Prelude.Text.{Bytes, codes}
use zero_trust_sh.Surface.{EnrichedSurface}

-- Invariant of rulebook.go.
pub record Invariant : Type 0 where
  pub cwe : Bytes
  pub name : Bytes
  pub sink_anchors : List Bytes
  pub safe_nodes : List Bytes
  pub no_sink_model : Bool
  pub reference : Bytes

-- Verdict of check.go, in ascending order of priority (iota).
pub data Verdict : Type 0 where
  inconclusive safe violation : Verdict

abbrev pub verdict_rank : Verdict → ℕ
verdict_rank inconclusive = 0
verdict_rank safe = 1
verdict_rank violation = 2

unfoldable pub to_string : Verdict → Bytes
to_string safe = codes "SAFE"
to_string violation = codes "VIOLATION"
to_string inconclusive = codes "INCONCLUSIVE"

abbrev pub greater_than : Verdict → Verdict → Bool
greater_than v other = ltb (verdict_rank other) (verdict_rank v)

pub record Result : Type 0 where
  pub surface : EnrichedSurface
  pub verdict : Verdict
  pub cwe : Bytes
  pub evidence : Bytes

-- What the escalation prompt is made of.
pub record PromptData : Type 0 where
  pub cwe_name : Bytes
  pub cwe : Bytes
  pub code : Bytes
  pub caller_context : Bytes

-- Checker of check.go. `llm` answers sample `i` of a prompt, `none` for an error; the prompt is the
-- template of internal/semantic/contracts filled with the data. `caller_context` is what the graph
-- and the files of the callers give.
pub record Checker : Type 0 where
  pub llm : Option (PromptData → ℕ → Option Bytes)
  pub caller_context : EnrichedSurface → Bytes
