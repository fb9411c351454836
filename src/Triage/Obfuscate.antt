-- ===== src/Triage/Obfuscate.antt =====
-- obfuscateCode and blankStringLiterals of internal/semantic/triage/triage.go.
use zero_trust_sh.Prelude.{
  ℕ, Bool, true, false, not, ◌&&◌, ◌||◌, ◌==◌, List, [], ◌∷◌, ◌++◌, ◌≡◌, refl, ap, arith, inl, inr,
  Bool-cases, All,
}
use zero_trust_sh.Prelude.Text.{Bytes, codes, contains, has_prefix, str_eq, split}
use zero_trust_sh.Prelude.Words.{trim_space}

-- Where the scan of blankStringLiterals stands; a literal has its quote.
pub data Mode : Type 0 where
  outside : Mode
  inside : ℕ → Mode
  escaped : ℕ → Mode

abbrev pub is_quote : ℕ → Bool
is_quote c = c == 34 || c == 39

unfoldable pub blank_from : Mode → Bytes → Bytes
blank_from mode [] = []
blank_from outside (c ∷ s) = elim (is_quote c) [
  | true ↦ c ∷ blank_from (inside c) s
  | false ↦ c ∷ blank_from outside s
]
blank_from (inside q) (c ∷ s) = elim (c == 92) [
  | true ↦ blank_from (escaped q) s
  | false ↦ elim (c == q) [ true ↦ q ∷ blank_from outside s | false ↦ blank_from (inside q) s ]
]
blank_from (escaped q) (c ∷ s) = blank_from (inside q) s

unfoldable pub blank_string_literals : Bytes → Bytes
unfolding blank_from
blank_string_literals line = blank_from outside line

pub record Scan : Type 0 where
  pub in_block_comment : Bool
  pub in_import_block : Bool

abbrev pub is_comment : Bytes → Bool
is_comment trimmed =
    has_prefix trimmed (codes "//")
    || has_prefix trimmed (codes "#")
    || has_prefix trimmed (codes "-- ")

-- The lines that obfuscateCode writes.
unfoldable pub obfuscate_lines : Scan → List Bytes → List Bytes
unfolding contains has_prefix str_eq trim_space blank_string_literals
obfuscate_lines st [] = []
obfuscate_lines st (line ∷ lines) = elim st.in_block_comment [
  | true ↦
      obfuscate_lines
        (record st { in_block_comment = not (contains (trim_space line) (codes "*/")) }) lines
  | false ↦
      elim (contains (trim_space line) (codes "/*")
        && not (contains (trim_space line) (codes "*/"))) [
          | true ↦ obfuscate_lines (record st { in_block_comment = true }) lines
          | false ↦ elim (has_prefix (trim_space line) (codes "package ")) [
            | true ↦ obfuscate_lines st lines
            | false ↦
                elim (has_prefix (trim_space line) (codes "import ")
                  || str_eq (trim_space line) (codes "import (")) [
                    | true ↦
                        obfuscate_lines
                          (record st {
                            in_import_block = str_eq (trim_space line) (codes "import (");
                          })
                          lines
                    | false ↦ elim st.in_import_block [
                      | true ↦
                          obfuscate_lines
                            (record st {
                              in_import_block = not (str_eq (trim_space line) (codes ")"));
                            })
                            lines
                      | false ↦ elim (is_comment (trim_space line) || str_eq (trim_space line) []) [
                        | true ↦ obfuscate_lines st lines
                        | false ↦ blank_string_literals line ∷ obfuscate_lines st lines
                      ]
                    ]
                  ]
          ]
        ]
]

-- Each line with its newline.
unfoldable pub unlines : List Bytes → Bytes
unlines [] = []
unlines (line ∷ lines) = line ++ 10 ∷ unlines lines

unfoldable pub obfuscate_code : Bytes → Bytes
unfolding obfuscate_lines unlines trim_space split
obfuscate_code code = trim_space (
    unlines (
      obfuscate_lines (record { in_block_comment = false; in_import_block = false })
        (split code 10)))

blank_from-inside :
    (q : ℕ) (s : Bytes)
    → is_quote q ≡ true
    → (blank_from outside (blank_from outside s) ≡ blank_from outside s)
      × (blank_from (inside q) (blank_from (inside q) s) ≡ blank_from (inside q) s)
      × (blank_from (inside q) (blank_from (escaped q) s) ≡ blank_from (escaped q) s)
unfolding blank_from
blank_from-inside q [] h = (refl, refl, refl)
blank_from-inside q (c ∷ s) h =
    let (a, b, d) = blank_from-inside q s h in
    (
      elim (Bool-cases (is_quote c)) [
        | inl k ↦
            let (e, f, g) = blank_from-inside c s k in
            rw (k, blank_from) (rw (k, blank_from) (ap (λ t. c ∷ t) f))
        | inr k ↦ rw (k, blank_from) (rw (k, blank_from) (ap (λ t. c ∷ t) a))
      ],
      elim (Bool-cases (c == 92)) [
        | inl k ↦ rw (k, blank_from) d
        | inr k ↦ elim (Bool-cases (c == q)) [
          | inl m ↦
              let n : (q == 92) ≡ false = ground arith in
              let o : (q == q) ≡ true = ground arith in
              rw (k, m, blank_from) (rw (n, o, blank_from) (ap (λ t. q ∷ t) a))
          | inr m ↦ rw (k, m, blank_from) b
        ]
      ],
      b,
    )

-- Blanking the literals of a line a second time changes nothing: no literal is left with contents.
pub blank_string_literals-idempotent :
    (line : Bytes) → blank_string_literals (blank_string_literals line) ≡ blank_string_literals line
unfolding blank_string_literals
blank_string_literals-idempotent line = (blank_from-inside 34 line refl).0

abbrev pub opens_comment : Bytes → Bool
opens_comment line =
    contains (trim_space line) (codes "/*") && not (contains (trim_space line) (codes "*/"))

-- The lines of a comment are dropped, up to one with the closing.
obfuscate_lines-comment :
    (imports : Bool) (mid rest : List Bytes) (last : Bytes)
    → All (λ l. contains (trim_space l) (codes "*/") ≡ false) mid
    → contains (trim_space last) (codes "*/") ≡ true
    → let inside : Scan = record { in_block_comment = true; in_import_block = imports } in
      (obfuscate_lines inside mid ≡ [])
      × (obfuscate_lines inside (mid ++ last ∷ rest)
          ≡ obfuscate_lines (record { in_block_comment = false; in_import_block = imports }) rest)
unfolding obfuscate_lines
obfuscate_lines-comment imports [] rest last h c = (refl, rw (c, obfuscate_lines) refl)
obfuscate_lines-comment imports (line ∷ mid) rest last h c =
    rw (h.0, obfuscate_lines) (obfuscate_lines-comment imports mid rest last h.1 c)

-- Outside comments, a line that contains the two bytes of a comment's opening and not those of its closing, be it in a
-- string literal, drops itself and all lines behind it up to and including the first that contains the
-- closing, or all of them where none does.
pub obfuscate_lines-open_comment :
    (imports : Bool) (line : Bytes) (mid rest : List Bytes) (last : Bytes)
    → opens_comment line ≡ true
    → All (λ l. contains (trim_space l) (codes "*/") ≡ false) mid
    → contains (trim_space last) (codes "*/") ≡ true
    → let code : Scan = record { in_block_comment = false; in_import_block = imports } in
      (obfuscate_lines code (line ∷ mid) ≡ [])
      × (obfuscate_lines code (line ∷ (mid ++ last ∷ rest)) ≡ obfuscate_lines code rest)
unfolding obfuscate_lines
obfuscate_lines-open_comment imports line mid rest last o h c =
    rw (o, obfuscate_lines) (obfuscate_lines-comment imports mid rest last h c)
