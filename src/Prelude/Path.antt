-- ===== src/Prelude/Path.antt =====
-- filepath.IsAbs, Clean and Join of Go's standard library (Unix separators), and the order of strings.
use zero_trust_sh.Prelude.Tests.{ltb, ◌==◌, if◌then◌else◌}
use zero_trust_sh.Prelude.Text.{Bytes, codes, str_eq, split, join, has_prefix}
use mathlib.Core.Path.{◌≡◌, refl}
use mathlib.Core.Bool.{Bool, true, false, not, ◌&&◌, ◌||◌}
use mathlib.Core.List.{List, [], ◌∷◌, ◌++◌}
use native.Mathlib.Omega.{arith}

unfoldable pub is_abs : Bytes → Bool
unfolding has_prefix
is_abs path = has_prefix path (codes "/")

-- One element of a path, on the elements kept so far, the last one first.
unfoldable pub clean_step : Bool → List Bytes → Bytes → List Bytes
unfolding str_eq
clean_step rooted [] part =
    if str_eq part [] || str_eq part (codes ".")
    then []
    else if str_eq part (codes "..")
    then (if rooted then [] else part ∷ [])
    else part ∷ []
clean_step rooted (top ∷ kept) part =
    if str_eq part [] || str_eq part (codes ".")
    then top ∷ kept
    else if str_eq part (codes "..") && not (str_eq top (codes ".."))
    then kept
    else part ∷ top ∷ kept

unfoldable pub clean_parts : Bool → List Bytes → List Bytes → List Bytes
unfolding clean_step
clean_parts rooted kept [] = kept
clean_parts rooted kept (part ∷ parts) = clean_parts rooted (clean_step rooted kept part) parts

unfoldable pub or_dot : Bytes → Bytes
or_dot [] = codes "."
or_dot (c ∷ path) = c ∷ path

unfoldable pub reversed : List Bytes → List Bytes → List Bytes
reversed [] out = out
reversed (x ∷ xs) out = reversed xs (x ∷ out)

unfoldable pub clean : Bytes → Bytes
unfolding clean_parts is_abs or_dot split join reversed
clean path =
    let rooted = is_abs path in
    let body = join (reversed (clean_parts rooted [] (split path 47)) []) (codes "/") in
    if rooted then codes "/" ++ body else or_dot body

unfoldable pub join_path : Bytes → Bytes → Bytes
unfolding clean
join_path [] [] = []
join_path [] (d ∷ b) = clean (d ∷ b)
join_path (c ∷ a) [] = clean (c ∷ a)
join_path (c ∷ a) (d ∷ b) = clean (c ∷ a ++ 47 ∷ d ∷ b)

-- a < b on strings
unfoldable pub bytes_lt : Bytes → Bytes → Bool
bytes_lt s [] = false
bytes_lt [] (d ∷ t) = true
bytes_lt (c ∷ s) (d ∷ t) = ltb c d || (c == d && bytes_lt s t)

pub bytes_lt_trans :
    (s t u : Bytes) → bytes_lt t s ≡ false → bytes_lt u t ≡ false → bytes_lt u s ≡ false
unfolding bytes_lt
bytes_lt_trans [] t u h k = refl
bytes_lt_trans (c ∷ s) [] u h k = cc h
bytes_lt_trans (c ∷ s) (d ∷ t) [] h k = cc k
bytes_lt_trans (c ∷ s) (d ∷ t) (e ∷ u) h k = ground (arith, bytes_lt_trans s t u)

pub bytes_lt_asym : (s t : Bytes) → bytes_lt s t ≡ true → bytes_lt t s ≡ false
unfolding bytes_lt
bytes_lt_asym s [] h = cc h
bytes_lt_asym [] (d ∷ t) h = refl
bytes_lt_asym (c ∷ s) (d ∷ t) h = ground (arith, bytes_lt_asym s t)
