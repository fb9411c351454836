-- ===== src/Targeting/Select/Idor/Case.antt =====
-- identifyIDOR of internal/semantic/targeting/idor.go searches names in lower case for its signals.
use zero_trust_sh.Prelude.{
  ℕ, List, [], ◌∷◌, Bool, true, false, ◌||◌, ◌&&◌, ◌==◌, leb, any, ◌≡◌, refl, arith, inl, inr,
  Bool-cases, All, ◌++◌,
}
use zero_trust_sh.Prelude.Text.{Bytes, codes, contains, has_prefix, to_lower, lower_byte}
use zero_trust_sh.Surface.{Surface}
use zero_trust_sh.Targeting.Select.Idor.{idor_signals, has_idor_signal}

unfoldable pub is_upper : ℕ → Bool
is_upper c = leb b'A' c && leb c b'Z'

lower_byte-is_upper : (c : ℕ) → is_upper (lower_byte c) ≡ false
unfolding is_upper lower_byte
lower_byte-is_upper c = ground arith

has_prefix-upper : (s p : Bytes) → any is_upper p ≡ true → has_prefix (to_lower s) p ≡ false
unfolding has_prefix any to_lower
has_prefix-upper s [] h = cc h
has_prefix-upper [] (d ∷ p) h = refl
has_prefix-upper (c ∷ s) (d ∷ p) h = elim (Bool-cases (lower_byte c == d)) [
  | inl e ↦
      let same : lower_byte c ≡ d = ground arith in
      let low : is_upper d ≡ false = cc (lower_byte-is_upper c, same) in
      let more : any is_upper p ≡ true = ground (arith, low) in
      ground (arith, has_prefix-upper s p more)
  | inr e ↦ rw e refl
]

contains-upper : (s p : Bytes) → any is_upper p ≡ true → contains (to_lower s) p ≡ false
unfolding contains to_lower has_prefix
contains-upper [] p h = has_prefix-upper [] p h
contains-upper (c ∷ s) p h = rw (has_prefix-upper (c ∷ s) p h) (contains-upper s p h)

-- The signals that have no letter in upper case.
abbrev pub lower_signals : List Bytes
lower_signals =
    codes "resource"
    ∷ codes "profile"
    ∷ codes "account"
    ∷ codes "order"
    ∷ codes "invoice"
    ∷ codes "document"
    ∷ codes "record"
    ∷ codes "item"
    ∷ codes "asset"
    ∷ []

abbrev mentions : Surface → Bytes → Bool
mentions s signal = contains (to_lower s.function_name) signal || contains (to_lower s.file) signal

mentions-upper : (s : Surface) (p : Bytes) → any is_upper p ≡ true → mentions s p ≡ false
mentions-upper s p h = rw (contains-upper s.function_name p h, contains-upper s.file p h) refl

any-upper :
    (s : Surface) (ps qs : List Bytes)
    → All (λ p. any is_upper p ≡ true) ps
    → any (mentions s) (ps ++ qs) ≡ any (mentions s) qs
unfolding any
any-upper s [] qs h = refl
any-upper s (p ∷ ps) qs h = rw (mentions-upper s p h.0) (any-upper s ps qs h.1)

abbrev camel_signals : List Bytes
camel_signals =
    codes "getById"
    ∷ codes "findById"
    ∷ codes "loadById"
    ∷ codes "fetchById"
    ∷ codes "getBy"
    ∷ codes "findBy"
    ∷ codes "fetchBy"
    ∷ codes "byId"
    ∷ codes "byUsername"
    ∷ codes "byEmail"
    ∷ codes "byUser"
    ∷ []

-- A surface has a resource signal if and only if its name or its file, in lower case, contains one of the nine
-- signals without an upper-case letter: the eleven others, such as getById, never match anything.
pub has_idor_signal-lower_signals :
    (s : Surface)
    → has_idor_signal s
      ≡ any
          (λ signal.
            contains (to_lower s.function_name) signal || contains (to_lower s.file) signal)
          lower_signals
unfolding has_idor_signal idor_signals any is_upper
has_idor_signal-lower_signals s =
    any-upper s camel_signals lower_signals
      (refl, (refl, (refl, (refl, (refl, (refl, (refl, (refl, (refl, (refl, (refl, tt)))))))))))
