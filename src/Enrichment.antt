-- ===== src/Enrichment.antt =====
-- internal/semantic/enrichment/enrichment.go: the helpers on sinks, lines and files. Enrich itself and
-- readFunctionBody are not modelled.
use zero_trust_sh.Prelude.{
  Bool, true, false, ◌||◌, ◌==◌, List, [], ◌∷◌, if◌then◌else◌, keep, length, map, ◌≡◌, refl, inl,
  inr, Bool-cases, Member,
}
use zero_trust_sh.Prelude.Text.{Bytes, codes, contains, has_prefix, str_eq}
use zero_trust_sh.Surface.{Surface, ResourceIdFlow}
use zero_trust_sh.Targeting.{Node}
use zero_trust_sh.Targeting.Search.{has}

-- DetectIDORFlows where there is a graph
unfoldable pub detect_idor_flows : Surface → List ResourceIdFlow
detect_idor_flows s =
    if s.is_idor_candidate
    then record {
      source_param = s.function_name;
      storage_sink = codes "unknown";
      has_ownership_check = false;
    }
      ∷ []
    else []

abbrev pub node_ids : List Node → List Bytes
node_ids nodes = map (λ n. n.id) nodes

-- A sink of a taint path, with the text of its kind.
pub record PathSink : Type 0 where
  pub name : Bytes
  pub kind : Bytes

unfoldable pub label_of : PathSink → Bytes
unfolding str_eq
label_of sink = if str_eq sink.name [] then sink.kind else sink.name

unfoldable pub dedup_from : List Bytes → List PathSink → List Bytes
unfolding has label_of
dedup_from seen [] = []
dedup_from seen (sink ∷ sinks) = elim (has seen (label_of sink)) [
  | true ↦ dedup_from seen sinks
  | false ↦ label_of sink ∷ dedup_from (label_of sink ∷ seen) sinks
]

unfoldable pub dedup_sinks : List PathSink → List Bytes
unfolding dedup_from
dedup_sinks sinks = dedup_from [] sinks

unfoldable pub or_all : List Bytes → List Bytes → List Bytes
or_all [] sinks = sinks
or_all (s ∷ filtered) sinks = s ∷ filtered

unfoldable pub filter_sinks_by_call_path : List Bytes → List Bytes → List Bytes
unfolding has or_all
filter_sinks_by_call_path sinks call_path =
    if length sinks == 0 || length call_path == 0
    then sinks
    else or_all (keep (has call_path) sinks) sinks

-- line[:strings.Index(line, "//")]
unfoldable pub before_slashes : Bytes → Bytes
unfolding has_prefix
before_slashes [] = []
before_slashes (c ∷ s) =
    let rest = before_slashes s in if has_prefix (c ∷ s) (codes "//") then [] else c ∷ rest

-- Where the scan stands: outside a string, in one, or behind a backslash in one.
pub data StringMode : Type 0 where
  outside inside behind_backslash : StringMode

unfoldable pub strip_from : StringMode → Bytes → Bytes
strip_from mode [] = []
strip_from outside (c ∷ s) = elim (c == 34) [
  | true ↦ c ∷ strip_from inside s
  | false ↦ c ∷ strip_from outside s
]
strip_from inside (c ∷ s) = elim (c == 92) [
  | true ↦ strip_from behind_backslash s
  | false ↦ elim (c == 34) [ true ↦ c ∷ strip_from outside s | false ↦ strip_from inside s ]
]
strip_from behind_backslash (c ∷ s) = strip_from inside s

unfoldable pub strip_strings_and_comments : Bytes → Bytes
unfolding before_slashes strip_from
strip_strings_and_comments line = strip_from outside (before_slashes line)

unfoldable pub is_method_like_declaration : Bytes → Bool
unfolding has_prefix
is_method_like_declaration line =
    has_prefix line (codes "private ")
    || has_prefix line (codes "public ")
    || has_prefix line (codes "protected ")
    || has_prefix line (codes "static ")
    || has_prefix line (codes "@")

unfoldable pub is_class_like_declaration : Bytes → Bool
unfolding contains
is_class_like_declaration line =
    contains line (codes " class ")
    || contains line (codes " interface ")
    || contains line (codes " enum ")
    || contains line (codes " @interface ")

keep-Member : (p : Bytes → Bool) (xs : List Bytes) (x : Bytes) → Member x (keep p xs) → Member x xs
unfolding keep
keep-Member p [] x m = absurd m
keep-Member p (y ∷ xs) x m = elim (Bool-cases (p y)) [
  | inl e ↦ elim (rw (e, keep) at m) [ inl same ↦ inl same | inr t ↦ inr (keep-Member p xs x t) ]
  | inr e ↦ inr (keep-Member p xs x (rw (e, keep) at m))
]

or_all-Member :
    (filtered sinks : List Bytes) (s : Bytes)
    → ((x : Bytes) → Member x filtered → Member x sinks)
    → Member s (or_all filtered sinks)
    → Member s sinks
unfolding or_all
or_all-Member [] sinks s h m = m
or_all-Member (x ∷ filtered) sinks s h m = h s m

-- The filter keeps only sinks of the surface.
filter_sinks_by_call_path-Member :
    (sinks call_path : List Bytes) (s : Bytes)
    → Member s (filter_sinks_by_call_path sinks call_path)
    → Member s sinks
unfolding filter_sinks_by_call_path
filter_sinks_by_call_path-Member sinks call_path s m =
    elim (Bool-cases (length sinks == 0 || length call_path == 0)) [
      | inl e ↦ rw e at m
      | inr e ↦
          or_all-Member (keep (has call_path) sinks) sinks s
            (λ x k. keep-Member (has call_path) sinks x k) (rw e at m)
    ]

-- A literal with a URL loses the rest of its line, here the opening brace of the block.
strip_strings_and_comments-url :
    strip_strings_and_comments (codes "get(\"http://x\", () -> {") ≡ codes "get(\""
unfolding strip_strings_and_comments
strip_strings_and_comments-url = refl
