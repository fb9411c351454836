-- ===== src/Dedup/Process/Coverage.antt =====
-- Keys, coverage and confidence of the whole pass.
use zero_trust_sh.Prelude.{
  ℕ, suc, ◌≤◌, ◌∷◌, [], List, true, Option, none, some, ◌≡◌, ◌≢◌, refl, sym, ap, ◌∙◌, All, inl, inr,
  arith, Bool-cases, ◌||◌,
}
use zero_trust_sh.Prelude.Text.{Bytes, str_eq}
use zero_trust_sh.Prelude.Float.{FloatOps, IsFloat64}
use zero_trust_sh.Config.{Config}
use zero_trust_sh.Config.Valid.{validate}
use zero_trust_sh.Finding.{Finding, reason_test_file, reason_framework_safe}
use zero_trust_sh.Dedup.{MergeRecord, Stats, exact_key, gate1_raw, gate1_key, merge}
use zero_trust_sh.Dedup.Grouped.{absorb, grouped}
use zero_trust_sh.Dedup.Grouped.Keys.{Distinct, Covers, grouped-Distinct, grouped-Covers}
use zero_trust_sh.Dedup.Score.{apply_boost_and_score}
use zero_trust_sh.Dedup.Score.Laws.{final_confidence-bounds, apply_boost_and_score-label}
use zero_trust_sh.Dedup.Sidecar.{Sidecar, SidecarEntry, suppress, apply_found}
use zero_trust_sh.Dedup.Suppress.{auto_suppress, has_test_suffix, has_test_dir}
use zero_trust_sh.Dedup.Suppress.Laws.{auto_suppress-cases}
use zero_trust_sh.Dedup.Ssvc.{Net, derive_ssvc}
use zero_trust_sh.Dedup.Process.{
  Layer, is_suppressed, apply_sidecar, score_one, score_all, from_history, process,
}
use zero_trust_sh.Dedup.Process.Counts.{process-out}

-- The two findings differ in label and reason at most.
abbrev Relabelled : Finding → Finding → Type 0
Relabelled f g = (gate1_raw g ≡ gate1_raw f) × (g.confidence ≡ f.confidence)

apply_found-Relabelled : (f : Finding) (o : Option SidecarEntry) → Relabelled f (apply_found f o)
unfolding apply_found suppress gate1_raw
apply_found-Relabelled f none = (refl, refl)
apply_found-Relabelled f (some rule) = (refl, refl)

apply_sidecar-Relabelled : (o : Option Sidecar) (f : Finding) → Relabelled f (apply_sidecar o f)
apply_sidecar-Relabelled none f = unfold apply_sidecar in (refl, refl)
apply_sidecar-Relabelled (some sc) f = elim (Bool-cases (is_suppressed f.severity_label)) [
  | inl e ↦ unfold apply_sidecar in rw e (refl, refl)
  | inr e ↦ unfold apply_sidecar in rw e (apply_found-Relabelled f _)
]

suppress-Relabelled : (reason : Bytes) (f : Finding) → Relabelled f (suppress reason f)
unfolding suppress gate1_raw
suppress-Relabelled reason f = (refl, refl)

auto_suppress-Relabelled : (f : Finding) → Relabelled f (auto_suppress f)
auto_suppress-Relabelled f = elim (Bool-cases (has_test_suffix f.path || has_test_dir f.path)) [
  | inl e ↦ rw ((auto_suppress-cases f).0 e) (suppress-Relabelled reason_test_file f)
  | inr e ↦ elim ((auto_suppress-cases f).1 e) [
    | inl same ↦ rw same (refl, refl)
    | inr safe ↦ rw safe (suppress-Relabelled reason_framework_safe f)
  ]
]

module _ (F : FloatOps) (laws : IsFloat64 F) (cfg : Config) (valid : validate F cfg ≡ true) where
  -- A confidence of at most 1 and a CVSS score of at most 10.
  abbrev pub InRange : Finding → Type 0
  InRange f = (f.confidence ≤ F.decimal 1 0) × (f.cvss ≤ F.decimal 10 0)

  scored-raw :
      (net : Net) (f : Finding)
      → gate1_raw (apply_boost_and_score F cfg (derive_ssvc F cfg net f)) ≡ gate1_raw f
  unfolding apply_boost_and_score derive_ssvc gate1_raw
  scored-raw net f = ground arith

  scored-confidence :
      (net : Net) (f : Finding)
      → InRange f
      → f.confidence ≤ (apply_boost_and_score F cfg (derive_ssvc F cfg net f)).confidence
  unfolding derive_ssvc
  scored-confidence net f h =
      rw ((apply_boost_and_score-label F cfg (derive_ssvc F cfg net f)).0)
        (final_confidence-bounds F laws cfg valid (derive_ssvc F cfg net f) h.0 h.1).0

  score_one-keeps :
      (layer : Layer) (net : Net) (f : Finding)
      → InRange f
      → (gate1_raw (score_one F cfg layer net f) ≡ gate1_raw f)
        × (f.confidence ≤ (score_one F cfg layer net f).confidence)
  score_one-keeps layer net f h =
      let g = apply_boost_and_score F cfg (derive_ssvc F cfg net f) in
      let a = auto_suppress-Relabelled g in
      let b = apply_sidecar-Relabelled layer.sidecar (auto_suppress g) in
      (
        unfold score_one in b.0 ∙ (a.0 ∙ scored-raw net f),
        unfold score_one in omega (arith, a.1, b.1, scored-confidence net f h),
      )

  merge-InRange : (a b : Finding) → InRange a → InRange b → InRange (merge a b exact_key).0
  unfolding merge
  merge-InRange a b h k = ground arith

  module _ (digest : Bytes → Bytes) (layer : Layer) (nets : ℕ → Net) where
    absorb-InRange :
        (f : Finding) (out : List Finding)
        → InRange f
        → All InRange out
        → All InRange (absorb digest f out)
    unfolding absorb
    absorb-InRange f [] hf h = (hf, tt)
    absorb-InRange f (g ∷ gs) hf h =
        elim (Bool-cases (str_eq (gate1_key digest g) (gate1_key digest f))) [
          | inl same ↦ rw same (merge-InRange g f h.0 hf, h.1)
          | inr other ↦ rw other (h.0, absorb-InRange f gs hf h.1)
        ]

    grouped-InRange :
        (fs out : List Finding)
        → All InRange fs
        → All InRange out
        → All InRange (grouped digest fs out)
    unfolding grouped
    grouped-InRange [] out hf h = h
    grouped-InRange (f ∷ fs) out hf h =
        grouped-InRange fs (absorb digest f out) hf.1 (absorb-InRange f out hf.0 h)

    score_one-key :
        (net : Net) (f : Finding)
        → InRange f
        → gate1_key digest (score_one F cfg layer net f) ≡ gate1_key digest f
    unfolding gate1_key
    score_one-key net f h = ap digest (score_one-keeps layer net f h).0

    Covers-score_all :
        (e : Finding) (i : ℕ) (fs : List Finding)
        → All InRange fs
        → Covers digest e fs
        → Covers digest e (score_all F cfg layer nets i fs)
    unfolding score_all
    Covers-score_all e i [] r h = h
    Covers-score_all e i (f ∷ fs) r h = elim h [
      | inl (k, c) ↦ inl (
        score_one-key (nets i) f r.0 ∙ k,
        omega (arith, (score_one-keeps layer (nets i) f r.0).1),
      )
      | inr t ↦ inr (Covers-score_all e (suc i) fs r.1 t)
    ]

    All-score_all :
        (k : Bytes) (i : ℕ) (fs : List Finding)
        → All InRange fs
        → All (λ h. gate1_key digest h ≢ k) fs
        → All (λ h. gate1_key digest h ≢ k) (score_all F cfg layer nets i fs)
    unfolding score_all
    All-score_all k i [] r h = tt
    All-score_all k i (f ∷ fs) r h =
        (λ e. h.0 (sym (score_one-key (nets i) f r.0) ∙ e), All-score_all k (suc i) fs r.1 h.1)

    Distinct-score_all :
        (i : ℕ) (fs : List Finding)
        → All InRange fs
        → Distinct digest fs
        → Distinct digest (score_all F cfg layer nets i fs)
    unfolding score_all
    Distinct-score_all i [] r h = tt
    Distinct-score_all i (f ∷ fs) r h = (
      rw (score_one-key (nets i) f r.0) (All-score_all (gate1_key digest f) (suc i) fs r.1 h.0),
      Distinct-score_all (suc i) fs r.1 h.1,
    )

    All-Covers-score_all :
        (es fs : List Finding)
        → All InRange fs
        → All (λ e. Covers digest e fs) es
        → All (λ e. Covers digest e (score_all F cfg layer nets 0 fs)) es
    All-Covers-score_all [] fs r h = tt
    All-Covers-score_all (e ∷ es) fs r h =
        (Covers-score_all e 0 fs r h.0, All-Covers-score_all es fs r h.1)

    -- No two findings of the result share a key, and each finding that the history lets through has one of its key
    -- there with at least its confidence.
    pub process-Covers :
        (input : List Finding) {out : List Finding} {records : List MergeRecord} {stats : Stats}
        → All InRange (from_history layer input).survivors
        → process F cfg layer digest nets input ≡ some (out, records, stats)
        → Distinct digest out × All (λ f. Covers digest f out) (from_history layer input).survivors
    process-Covers input {out = out} r e =
        let survivors = (from_history layer input).survivors in
        let groups = grouped digest survivors [] in
        let ranged = grouped-InRange survivors [] r tt in
        let same : out ≡ score_all F cfg layer nets 0 groups =
          process-out F cfg layer nets digest input e in
        rw same (
          Distinct-score_all 0 groups ranged (grouped-Distinct digest survivors [] tt),
          All-Covers-score_all survivors groups ranged (grouped-Covers digest survivors []),
        )
