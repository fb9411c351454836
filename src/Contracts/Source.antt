-- ===== src/Contracts/Source.antt =====
-- The text helpers of internal/semantic/contracts/check.go.
use zero_trust_sh.Prelude.{ℕ, Bool, true, false, List, [], ◌∷◌, ◌++◌, Option, none, some}
use zero_trust_sh.Prelude.{
  ◌≡◌, refl, ap, ◌∙◌, append-nil, not, ◌&&◌, ◌||◌, ◌==◌, any, find_first, All, arith,
}
use zero_trust_sh.Prelude.{Bool-cases, inl, inr}
use zero_trust_sh.Prelude.Text.{Bytes, codes, contains, str_eq, has_prefix}

-- strings.Contains(h, n) || n == h
unfoldable pub mentions : Bytes → Bytes → Bool
mentions h n = contains h n || str_eq n h

unfoldable pub has_safe_node : List Bytes → List Bytes → Bytes → Bool
unfolding mentions
has_safe_node call_path [] code = false
has_safe_node call_path (safe ∷ safes) code =
    any (λ node. any (λ s. mentions node s) (safe ∷ safes)) call_path
    || any (λ s. contains code s) (safe ∷ safes)

unfoldable pub or_empty : Option Bytes → Bytes
or_empty none = []
or_empty (some s) = s

unfoldable pub first_match : List Bytes → List Bytes → Bytes
unfolding mentions or_empty
first_match needles haystack = or_empty (find_first (λ n. any (λ h. mentions h n) haystack) needles)

unfoldable pub violation_evidence : Bytes → Bytes → Bytes
violation_evidence name anchor =
    codes "user-controlled value reaches "
    ++ (name ++ (codes " sink (" ++ (anchor ++ codes ") with no safe node on path")))

-- Where the scan stands: in the code, in a comment, or in a literal behind the byte `prev`.
pub data Mode : Type 0 where
  plain comment : Mode
  literal : ℕ → Mode

unfoldable pub strip_from : Mode → Bytes → Bytes
strip_from mode [] = []
strip_from plain (c ∷ code) = elim (c == b'/' && has_prefix code (codes "/")) [
  | true ↦ strip_from comment code
  | false ↦ elim (c == b'"') [
    | true ↦ strip_from (literal c) code
    | false ↦ c ∷ strip_from plain code
  ]
]
strip_from comment (c ∷ code) = elim (c == 10) [
  | true ↦ 10 ∷ strip_from plain code
  | false ↦ strip_from comment code
]
strip_from (literal prev) (c ∷ code) = elim (c == b'"' && not (prev == 92)) [
  | true ↦ strip_from plain code
  | false ↦ strip_from (literal c) code
]

unfoldable pub strip_code : Bytes → Bytes
unfolding strip_from
strip_code code = strip_from plain code

strip_from-no_quote :
    (mode : Mode) (code : Bytes) → All (λ c. (c == b'"') ≡ false) (strip_from mode code)
unfolding strip_from
strip_from-no_quote mode [] = tt
strip_from-no_quote plain (c ∷ code) =
    elim (Bool-cases (c == b'/' && has_prefix code (codes "/"))) [
      | inl e ↦ rw (e, strip_from, All) (strip_from-no_quote comment code)
      | inr e ↦ elim (Bool-cases (c == b'"')) [
        | inl q ↦ rw (e, q, strip_from, All) (strip_from-no_quote (literal c) code)
        | inr q ↦ rw (e, q, strip_from, All) (q, strip_from-no_quote plain code)
      ]
    ]
strip_from-no_quote comment (c ∷ code) = elim (Bool-cases (c == 10)) [
  | inl e ↦ rw (e, strip_from, All) (refl, strip_from-no_quote plain code)
  | inr e ↦ rw (e, strip_from, All) (strip_from-no_quote comment code)
]
strip_from-no_quote (literal prev) (c ∷ code) = elim (Bool-cases (c == b'"' && not (prev == 92))) [
  | inl e ↦ rw (e, strip_from, All) (strip_from-no_quote plain code)
  | inr e ↦ rw (e, strip_from, All) (strip_from-no_quote (literal c) code)
]

-- The stripped code holds no quote, so no anchor is found inside a literal by its quotes.
pub strip_code-no_quote : (code : Bytes) → All (λ c. (c == b'"') ≡ false) (strip_code code)
unfolding strip_code
strip_code-no_quote code = strip_from-no_quote plain code

-- Code with neither a quote nor the two slashes of a comment is kept as it is.
pub strip_code-plain :
    (code : Bytes)
    → All (λ c. (c == b'"') ≡ false) code
    → contains code (codes "//") ≡ false
    → strip_code code ≡ code
unfolding strip_code strip_from contains has_prefix
strip_code-plain [] hq hc = refl
strip_code-plain (c ∷ code) hq hc = ground (arith, strip_code-plain code hq.1)

literal-no_quote :
    (prev : ℕ) (code : Bytes)
    → All (λ c. (c == b'"') ≡ false) code
    → strip_from (literal prev) code ≡ []
unfolding strip_from
literal-no_quote prev [] h = refl
literal-no_quote prev (c ∷ code) h = rw (h.0, strip_from) (literal-no_quote c code h.1)

-- Plain code up to a literal is kept.
strip_from-prefix :
    (pre t : Bytes)
    → All (λ c. (c == b'"') ≡ false) pre
    → contains pre (codes "//") ≡ false
    → strip_from plain (pre ++ b'"' ∷ t) ≡ pre ++ strip_from (literal b'"') t
unfolding strip_from contains has_prefix
strip_from-prefix [] t hq hc = refl
strip_from-prefix (c ∷ []) t hq hc = ground arith
strip_from-prefix (c ∷ d ∷ pre) t hq hc = ground (arith, strip_from-prefix (d ∷ pre) t hq.1)

-- The quote behind two backslashes does not close the literal.
literal-backslashes :
    (prev : ℕ) (body t : Bytes)
    → All (λ c. (c == b'"') ≡ false) body
    → strip_from (literal prev) (body ++ 92 ∷ 92 ∷ b'"' ∷ t) ≡ strip_from (literal b'"') t
unfolding strip_from
literal-backslashes prev [] t h = refl
literal-backslashes prev (c ∷ body) t h = rw (h.0, strip_from) (literal-backslashes c body t h.1)

literal-closing :
    (prev : ℕ) (code rest : Bytes)
    → (prev == 92) ≡ false
    → All (λ c. ((c == b'"') || (c == 92)) ≡ false) code
    → strip_from (literal prev) (code ++ b'"' ∷ rest) ≡ strip_from plain rest
unfolding strip_from
literal-closing prev [] rest e h = rw (e, strip_from) refl
literal-closing prev (c ∷ code) rest e h =
    let quote : (c == b'"') ≡ false = ground arith in
    rw (quote, strip_from) (literal-closing c code rest (ground arith) h.1)

All-no_quote :
    (code : Bytes)
    → All (λ c. ((c == b'"') || (c == 92)) ≡ false) code
    → All (λ c. (c == b'"') ≡ false) code
All-no_quote [] h = tt
All-no_quote (c ∷ code) h = (ground arith, All-no_quote code h.1)

-- Behind plain code, a literal that ends in two backslashes, with no quote in its text: the scan takes its closing
-- quote for an escaped one. The code behind it, without quotes and backslashes, is dropped up to the
-- quote that follows it, where the scan goes on as outside a literal, or to the end where none follows.
pub strip_code-escaped_backslash :
    (pre body code rest : Bytes)
    → All (λ c. (c == b'"') ≡ false) pre
    → contains pre (codes "//") ≡ false
    → All (λ c. (c == b'"') ≡ false) body
    → All (λ c. ((c == b'"') || (c == 92)) ≡ false) code
    → (strip_code (pre ++ b'"' ∷ (body ++ 92 ∷ 92 ∷ b'"' ∷ code)) ≡ pre)
      × (strip_code (pre ++ b'"' ∷ (body ++ 92 ∷ 92 ∷ b'"' ∷ (code ++ b'"' ∷ rest)))
          ≡ pre ++ strip_code rest)
unfolding strip_code
strip_code-escaped_backslash pre body code rest hp hc hb hq = (
  strip_from-prefix pre (body ++ 92 ∷ 92 ∷ b'"' ∷ code) hp hc
      ∙ ap (λ t. pre ++ t)
          (literal-backslashes b'"' body code hb
            ∙ literal-no_quote b'"' code (All-no_quote code hq))
      ∙ append-nil pre,
  strip_from-prefix pre (body ++ 92 ∷ 92 ∷ b'"' ∷ (code ++ b'"' ∷ rest)) hp hc
      ∙ ap (λ t. pre ++ t)
          (literal-backslashes b'"' body (code ++ b'"' ∷ rest) hb
            ∙ literal-closing b'"' code rest refl hq),
)
