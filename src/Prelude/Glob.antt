-- ===== src/Prelude/Glob.antt =====
-- filepath.Match and filepath.Base of Go's standard library (Unix separators), over ASCII names.
use Prim.Native.Nat.{ℕ}
use zero_trust_sh.Prelude.Tests.{leb, ◌==◌, if◌then◌else◌}
use zero_trust_sh.Prelude.Lists.{any}
use zero_trust_sh.Prelude.Text.{Bytes, codes, str_eq, after_last}
use mathlib.Core.Path.{◌≡◌, refl}
use mathlib.Core.Bool.{Bool, true, false, not, ◌&&◌, ◌||◌}
use mathlib.Core.Option.{Option, none, some}
use mathlib.Core.List.{List, [], ◌∷◌, ◌++◌}

-- One term of a pattern.
pub data Term : Type 0 where
  star : Term
  any_one : Term
  lit : ℕ → Term
  class : Bool → List (ℕ × ℕ) → Term

-- Where the reader of a pattern stands: between terms, behind a backslash, or in a class.
pub data Mode : Type 0 where
  plain escaped class_open : Mode
  class_lo class_lo_escaped : Bool → List (ℕ × ℕ) → Mode
  class_dash class_hi class_hi_escaped : Bool → List (ℕ × ℕ) → ℕ → Mode

-- In a class before a range: a bracket ends a class that has a range, a dash is malformed.
class_byte : Bool → List (ℕ × ℕ) → ℕ → List Term → Option (Mode × List Term)
class_byte neg rs c out =
    if c == b']'
    then elim rs [ [] ↦ none | r ∷ rest ↦ some (plain, out ++ class neg (r ∷ rest) ∷ []) ]
    else if c == b'-'
    then none
    else if c == b'\\'
    then some (class_lo_escaped neg rs, out)
    else some (class_dash neg rs c, out)

read_byte : Mode → ℕ → List Term → Option (Mode × List Term)
read_byte plain c out =
    if c == b'*'
    then some (plain, out ++ star ∷ [])
    else if c == b'?'
    then some (plain, out ++ any_one ∷ [])
    else if c == b'['
    then some (class_open, out)
    else if c == b'\\'
    then some (escaped, out)
    else some (plain, out ++ lit c ∷ [])
read_byte escaped c out = some (plain, out ++ lit c ∷ [])
read_byte class_open c out =
    if c == b'^' then some (class_lo true [], out) else class_byte false [] c out
read_byte (class_lo neg rs) c out = class_byte neg rs c out
read_byte (class_lo_escaped neg rs) c out = some (class_dash neg rs c, out)
read_byte (class_dash neg rs lo) c out =
    if c == b'-' then some (class_hi neg rs lo, out) else class_byte neg (rs ++ (lo, lo) ∷ []) c out
read_byte (class_hi neg rs lo) c out =
    if c == b'-' || c == b']'
    then none
    else if c == b'\\'
    then some (class_hi_escaped neg rs lo, out)
    else some (class_lo neg (rs ++ (lo, c) ∷ []), out)
read_byte (class_hi_escaped neg rs lo) c out = some (class_lo neg (rs ++ (lo, c) ∷ []), out)

-- The terms of a pattern; `none` is ErrBadPattern.
read_pattern : Bytes → Mode → List Term → Option (List Term)
read_pattern [] plain out = some out
read_pattern [] _ out = none
read_pattern (c ∷ p) mode out = elim (read_byte mode c out) [
  | none ↦ none
  | some (mode', out') ↦ read_pattern p mode' out'
]

-- scanChunk: the terms between stars, each with whether a star stands before it.
chunks : Bool → List Term → List Term → List (Bool × List Term)
chunks starred cur [] = elim cur [
  | [] ↦ if starred then (true, []) ∷ [] else []
  | t ∷ ts ↦ (starred, t ∷ ts) ∷ []
]
chunks starred cur (star ∷ ts) = elim cur [
  | [] ↦ chunks true [] ts
  | u ∷ us ↦ (starred, u ∷ us) ∷ chunks true [] ts
]
chunks starred cur (t ∷ ts) = chunks starred (cur ++ t ∷ []) ts

in_ranges : ℕ → List (ℕ × ℕ) → Bool
unfolding any
in_ranges c rs = any (λ r. leb r.0 c && leb c r.1) rs

match_one : Term → ℕ → Bool
unfolding in_ranges
match_one star c = false
match_one any_one c = not (c == b'/')
match_one (lit d) c = c == d
match_one (class neg rs) c = if neg then not (in_ranges c rs) else in_ranges c rs

-- matchChunk: the rest of the name behind a chunk.
match_chunk : List Term → Bytes → Option Bytes
match_chunk [] s = some s
match_chunk (t ∷ ts) [] = none
match_chunk (t ∷ ts) (c ∷ s) = let rest = match_chunk ts s in if match_one t c then rest else none

-- The last chunk has to use up the name.
try_chunk : Bool → List Term → Bytes → Option Bytes
try_chunk last ts s = elim (match_chunk ts s) [
  | none ↦ none
  | some [] ↦ some []
  | some (c ∷ r) ↦ if last then none else some (c ∷ r)
]

-- Behind a star the chunk is tried at each place up to the next separator.
seek_chunk : Bool → List Term → Bytes → Option Bytes
seek_chunk last ts [] = try_chunk last ts []
seek_chunk last ts (c ∷ s) = elim (try_chunk last ts (c ∷ s)) [
  | some r ↦ some r
  | none ↦ elim (c == b'/') [ true ↦ none | false ↦ seek_chunk last ts s ]
]

match_chunks : List (Bool × List Term) → Bytes → Bool
unfolding any str_eq
match_chunks [] s = str_eq s []
match_chunks ((true, []) ∷ cs) s = not (any (λ c. c == b'/') s)
match_chunks ((false, ts) ∷ []) s = elim (try_chunk true ts s) [
  | none ↦ false
  | some r ↦ match_chunks [] r
]
match_chunks ((false, ts) ∷ c ∷ cs) s = elim (try_chunk false ts s) [
  | none ↦ false
  | some r ↦ match_chunks (c ∷ cs) r
]
match_chunks ((true, t ∷ ts) ∷ []) s = elim (seek_chunk true (t ∷ ts) s) [
  | none ↦ false
  | some r ↦ match_chunks [] r
]
match_chunks ((true, t ∷ ts) ∷ c ∷ cs) s = elim (seek_chunk false (t ∷ ts) s) [
  | none ↦ false
  | some r ↦ match_chunks (c ∷ cs) r
]

-- `matched, _ := filepath.Match(pattern, name)`: a malformed pattern matches nothing.
unfoldable pub path_match : Bytes → Bytes → Bool
unfolding class_byte read_byte read_pattern chunks match_one match_chunk try_chunk seek_chunk
    match_chunks
path_match pattern name = elim (read_pattern pattern plain []) [
  | none ↦ false
  | some ts ↦ match_chunks (chunks false [] ts) name
]

strip_slashes : Bytes → Bytes
strip_slashes [] = []
strip_slashes (c ∷ s) =
    let rest = strip_slashes s in
    elim rest [ [] ↦ if c == b'/' then [] else c ∷ [] | d ∷ r ↦ c ∷ d ∷ r ]

-- filepath.Base: the last element of a path, "." for the empty path and "/" for a root.
unfoldable pub base : Bytes → Bytes
unfolding strip_slashes after_last
base [] = codes "."
base (c ∷ s) =
    let p = strip_slashes (c ∷ s) in
    elim p [ [] ↦ codes "/" | d ∷ r ↦ after_last b'/' (d ∷ r) (d ∷ r) ]

migrations : path_match (codes "*/migrations/*.py") (codes "app/migrations/0001.py") ≡ true
unfolding path_match
migrations = refl

no_separator : path_match (codes "*.py") (codes "app/models.py") ≡ false
unfolding path_match
no_separator = refl

ranges : path_match (codes "[^a-c]x?") (codes "dxy") ≡ true
unfolding path_match
ranges = refl

malformed : path_match (codes "a[") (codes "a") ≡ false
unfolding path_match
malformed = refl

base_name : base (codes "a/b.go/") ≡ codes "b.go"
unfolding base
base_name = refl
