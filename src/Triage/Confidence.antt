-- ===== src/Triage/Confidence.antt =====
-- parseConfidence of internal/semantic/triage/triage.go. The regular expressions of its categories are plain texts,
-- and one word between word boundaries.
use zero_trust_sh.Prelude.{
  ℕ, Bool, false, not, ◌&&◌, ◌||◌, ◌==◌, [], ◌∷◌, Option, none, some, if◌then◌else◌, leb, drop,
}
use zero_trust_sh.Prelude.Text.{Bytes, codes, contains, has_prefix, to_upper}
use zero_trust_sh.Prelude.Float.{Float64, FloatOps}

-- A word character of regexp.
unfoldable pub is_word : ℕ → Bool
is_word c =
    (leb b'0' c && leb c b'9')
    || ((leb b'A' c && leb c b'Z') || ((leb b'a' c && leb c b'z') || c == 95))

unfoldable pub starts_word : Bytes → Bool
unfolding is_word
starts_word [] = false
starts_word (c ∷ s) = is_word c

-- `\bSAFE\b`; `after_word` tells whether a word character stands before the text.
unfoldable pub safe_from : Bool → Bytes → Bool
unfolding has_prefix starts_word is_word
safe_from after_word [] = false
safe_from after_word (c ∷ s) =
    (not after_word && (has_prefix (c ∷ s) (codes "SAFE") && not (starts_word (drop 4 (c ∷ s)))))
    || safe_from (is_word c) s

-- The score of the first category whose pattern the text has.
unfoldable pub category : FloatOps → Bytes → Option Float64
unfolding contains safe_from
category F text =
    if contains text (codes "PROBABLY SAFE") || contains text (codes "PROBABLY_SAFE")
    then some (F.decimal 25 2)
    else if contains text (codes "PROBABLY VULNERABLE")
        || contains text (codes "PROBABLY_VULNERABLE")
    then some (F.decimal 75 2)
    else if contains text (codes "EXPLOITABLE")
    then some (F.decimal 10 1)
    else if contains text (codes "UNCERTAIN")
    then some (F.decimal 5 1)
    else if safe_from false text
    then some (F.decimal 0 1)
    else none

-- The text from the first "CATEGORY:" on.
unfoldable pub from_marker : Bytes → Option Bytes
unfolding has_prefix
from_marker [] = none
from_marker (c ∷ s) =
    let rest = from_marker s in
    if has_prefix (c ∷ s) (codes "CATEGORY:") then some (c ∷ s) else rest

unfoldable pub first_line : Bytes → Bytes
first_line [] = []
first_line (c ∷ s) = let rest = first_line s in if c == 10 then [] else c ∷ rest

unfoldable pub category_line : FloatOps → Option Bytes → Option Float64
unfolding category first_line
category_line F none = none
category_line F (some text) = category F (first_line text)

-- A bare decimal between 0 and 1, or 0.5.
unfoldable pub decimal_or_half : FloatOps → Option Float64 → Float64
decimal_or_half F none = F.decimal 5 1
decimal_or_half F (some v) =
    if leb (F.decimal 0 0) v && leb v (F.decimal 1 0) then v else F.decimal 5 1

unfoldable pub first_score : Option Float64 → Option Float64 → Float64 → Float64
first_score (some v) anywhere default = v
first_score none (some v) default = v
first_score none none default = default

unfoldable pub parse_confidence : FloatOps → (Bytes → Option Float64) → Bytes → Float64
unfolding to_upper from_marker category_line category decimal_or_half first_score
parse_confidence F find_decimal raw =
    first_score (category_line F (from_marker (to_upper raw))) (category F (to_upper raw))
      (decimal_or_half F (find_decimal raw))
