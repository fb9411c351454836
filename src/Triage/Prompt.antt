-- ===== src/Triage/Prompt.antt =====
-- buildTriagePrompt of internal/semantic/triage/triage.go: what it passes to the template.
use zero_trust_sh.Prelude.{
  ℕ, ◌&&◌, ◌||◌, ◌==◌, ◌-◌, List, [], ◌∷◌, ◌++◌, if◌then◌else◌, ltb, leb, length, drop, map,
}
use zero_trust_sh.Prelude.Text.{Bytes, codes, str_eq, split, join}
use zero_trust_sh.Prelude.Words.{trim_left, truncate_utf8}
use zero_trust_sh.Surface.{
  EnrichedSurface, SurfaceKind, external_input, auth_boundary, idor_candidate, dangerous_sink,
  other_kind,
}
use zero_trust_sh.Triage.Obfuscate.{obfuscate_code}
use zero_trust_sh.Triage.Window.{truncate_around_line}

pub record PromptData : Type 0 where
  pub file : Bytes
  pub function_name : Bytes
  pub taint_info : Bytes
  pub cwes : Bytes
  pub code : Bytes

unfoldable pub applicable_cwes_for_kind : SurfaceKind → List Bytes
applicable_cwes_for_kind external_input =
    codes "CWE-22"
    ∷ codes "CWE-89"
    ∷ codes "CWE-78"
    ∷ codes "CWE-79"
    ∷ codes "CWE-94"
    ∷ codes "CWE-502"
    ∷ codes "CWE-918"
    ∷ []
applicable_cwes_for_kind auth_boundary = codes "CWE-862" ∷ codes "CWE-89" ∷ codes "CWE-78" ∷ []
applicable_cwes_for_kind idor_candidate = codes "CWE-862" ∷ codes "CWE-89" ∷ codes "CWE-78" ∷ []
applicable_cwes_for_kind dangerous_sink = codes "CWE-327" ∷ []
applicable_cwes_for_kind (other_kind text) = []

unfoldable pub short_path : Bytes → Bytes
unfolding split join
short_path p =
    let parts = split p b'/' in
    if leb (length parts) 2 then p else join (drop (length parts - 2) parts) (codes "/")

unfoldable pub strip_indent : Bytes → Bytes
unfolding split join trim_left
strip_indent code = join (map (trim_left (λ c. c == 32 || c == 9)) (split code 10)) (codes "\n")

abbrev pub budget : ℕ
budget = 1500

-- The cut of code above the budget.
unfoldable pub shorten : EnrichedSurface → Bytes → Bytes
unfolding truncate_around_line truncate_utf8 str_eq
shorten s code =
    if leb (length code) budget
    then code
    else if str_eq s.sink_file s.file && (ltb 0 s.sink_line && leb s.line s.sink_line)
    then truncate_around_line code (s.sink_line - s.line) budget
    else truncate_utf8 code budget ++ codes "\n...[truncated]"

-- The verb %v on a slice of strings
unfoldable pub sprint : List Bytes → Bytes
unfolding join
sprint nodes = codes "[" ++ (join nodes (codes " ") ++ codes "]")

unfoldable pub build_triage_prompt : EnrichedSurface → PromptData
unfolding strip_indent shorten obfuscate_code applicable_cwes_for_kind short_path sprint join
build_triage_prompt s = record {
  file = short_path s.file;
  function_name = s.function_name;
  taint_info =
      if ltb 0 (length s.sink_nodes)
      then codes "CONFIRMED taint path to dangerous sink: " ++ sprint s.sink_nodes
      else codes "No confirmed taint path.";
  cwes =
      if ltb 0 (length (applicable_cwes_for_kind s.kind))
      then join (applicable_cwes_for_kind s.kind) (codes ", ")
      else codes "[]";
  code = obfuscate_code (shorten s (strip_indent s.code));
}
