-- ===== src/Dedup/Place.antt =====
-- Where a finding stands: its CWE, its path and its start line, which are what gate 1 hashes.
use zero_trust_sh.Prelude.{
  false, ◌==◌, ◌∷◌, ◌++◌, ◌≡◌, refl, ◌∙◌, All, inl, inr, Bool-cases, ◌||◌, Option, none, some,
  arith, ◌⊎◌, ltb,
}
use zero_trust_sh.Prelude.Text.{Bytes, itoa}
use zero_trust_sh.Prelude.Digits.{first_bar, last_bar, itoa-bar, itoa_injective}
use zero_trust_sh.Prelude.Float.{FloatOps}
use zero_trust_sh.Config.{Config}
use zero_trust_sh.Finding.{Finding, reason_test_file, reason_framework_safe}
use zero_trust_sh.Dedup.{exact_key, gate1_raw, merge, winner}
use zero_trust_sh.Dedup.Score.{apply_boost_and_score}
use zero_trust_sh.Dedup.Sidecar.{Sidecar, SidecarEntry, suppress, apply_found}
use zero_trust_sh.Dedup.Suppress.{auto_suppress, has_test_suffix, has_test_dir}
use zero_trust_sh.Dedup.Suppress.Laws.{auto_suppress-cases}
use zero_trust_sh.Dedup.Ssvc.{Net, derive_ssvc}
use zero_trust_sh.Dedup.Process.{Layer, is_suppressed, apply_sidecar, score_one}

abbrev pub SamePlace : Finding → Finding → Type 0
SamePlace f g = (f.cwe ≡ g.cwe) × (f.path ≡ g.path) × (f.line_range.start ≡ g.line_range.start)

-- The CWE holds no bar.
abbrev pub IsPlain : Finding → Type 0
IsPlain f = All (λ c. (c == b'|') ≡ false) f.cwe

pub SamePlace-trans : (f g h : Finding) → SamePlace f g → SamePlace g h → SamePlace f h
SamePlace-trans f g h a b = (a.0 ∙ b.0, a.1 ∙ b.1, a.2 ∙ b.2)

pub gate1_raw-SamePlace : (f g : Finding) → SamePlace f g → gate1_raw f ≡ gate1_raw g
unfolding gate1_raw
gate1_raw-SamePlace f g (c, p, l) = rw (c, p, l) refl

-- Findings with the same text to hash stand in one place, where their CWEs hold no bar.
pub gate1_raw_injective :
    (f g : Finding) → IsPlain f → IsPlain g → gate1_raw f ≡ gate1_raw g → SamePlace f g
unfolding gate1_raw
gate1_raw_injective f g hf hg e =
    let (c, r) =
      first_bar f.cwe g.cwe (f.path ++ b'|' ∷ itoa f.line_range.start)
        (g.path ++ b'|' ∷ itoa g.line_range.start) hf hg e in
    let (p, d) =
      last_bar f.path g.path (itoa f.line_range.start) (itoa g.line_range.start)
        (itoa-bar f.line_range.start) (itoa-bar g.line_range.start) r in
    (c, p, itoa_injective f.line_range.start g.line_range.start d)

winner-SamePlace : (a b : Finding) → SamePlace (winner a b) a ⊎ SamePlace (winner a b) b
unfolding winner
winner-SamePlace a b = elim (Bool-cases (ltb a.confidence b.confidence)) [
  | inl e ↦ rw e (inr (refl, refl, refl))
  | inr e ↦ rw e (inl (refl, refl, refl))
]

merge-winner : (a b : Finding) → SamePlace (merge a b exact_key).0 (winner a b)
unfolding merge
merge-winner a b = ground arith

-- A merged finding stands where one of the two stood.
pub merge-SamePlace :
    (a b : Finding) → SamePlace (merge a b exact_key).0 a ⊎ SamePlace (merge a b exact_key).0 b
merge-SamePlace a b = elim (winner-SamePlace a b) [
  | inl s ↦ inl (SamePlace-trans (merge a b exact_key).0 (winner a b) a (merge-winner a b) s)
  | inr s ↦ inr (SamePlace-trans (merge a b exact_key).0 (winner a b) b (merge-winner a b) s)
]

apply_found-SamePlace : (f : Finding) (o : Option SidecarEntry) → SamePlace (apply_found f o) f
unfolding apply_found suppress
apply_found-SamePlace f none = (refl, refl, refl)
apply_found-SamePlace f (some rule) = (refl, refl, refl)

apply_sidecar-SamePlace : (o : Option Sidecar) (f : Finding) → SamePlace (apply_sidecar o f) f
apply_sidecar-SamePlace none f = unfold apply_sidecar in (refl, refl, refl)
apply_sidecar-SamePlace (some sc) f = elim (Bool-cases (is_suppressed f.severity_label)) [
  | inl e ↦ unfold apply_sidecar in rw e (refl, refl, refl)
  | inr e ↦ unfold apply_sidecar in rw e (apply_found-SamePlace f _)
]

suppress-SamePlace : (reason : Bytes) (f : Finding) → SamePlace (suppress reason f) f
unfolding suppress
suppress-SamePlace reason f = (refl, refl, refl)

auto_suppress-SamePlace : (f : Finding) → SamePlace (auto_suppress f) f
auto_suppress-SamePlace f = elim (Bool-cases (has_test_suffix f.path || has_test_dir f.path)) [
  | inl e ↦ rw ((auto_suppress-cases f).0 e) (suppress-SamePlace reason_test_file f)
  | inr e ↦ elim ((auto_suppress-cases f).1 e) [
    | inl same ↦ rw same (refl, refl, refl)
    | inr safe ↦ rw safe (suppress-SamePlace reason_framework_safe f)
  ]
]

module _ (F : FloatOps) (cfg : Config) where
  scored-SamePlace :
      (net : Net) (f : Finding)
      → SamePlace (apply_boost_and_score F cfg (derive_ssvc F cfg net f)) f
  unfolding apply_boost_and_score derive_ssvc
  scored-SamePlace net f = ground arith

  -- Scoring and suppression leave a finding where it is.
  pub score_one-SamePlace :
      (layer : Layer) (net : Net) (f : Finding) → SamePlace (score_one F cfg layer net f) f
  unfolding score_one
  score_one-SamePlace layer net f =
      let g = apply_boost_and_score F cfg (derive_ssvc F cfg net f) in
      SamePlace-trans (apply_sidecar layer.sidecar (auto_suppress g)) (auto_suppress g) f
        (apply_sidecar-SamePlace layer.sidecar (auto_suppress g))
        (SamePlace-trans (auto_suppress g) g f (auto_suppress-SamePlace g) (scored-SamePlace net f))
