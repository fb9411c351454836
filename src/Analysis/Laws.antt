-- ===== src/Analysis/Laws.antt =====
-- A negative verdict of internal/semantic/analysis/verdict.go in the scoring of internal/dedup/dedup.go.
use zero_trust_sh.Prelude.{false, [], ◌∷◌, ◌≡◌, ◌≢◌, refl}
use zero_trust_sh.Prelude.Text.{Bytes}
use zero_trust_sh.Prelude.Float.{FloatOps}
use zero_trust_sh.Config.{Config}
use zero_trust_sh.Finding.{low}
use zero_trust_sh.Surface.{
  EnrichedSurface, SurfaceKind, external_input, auth_boundary, idor_candidate, dangerous_sink,
  other_kind,
}
use zero_trust_sh.Dedup.Score.{apply_boost_and_score}
use zero_trust_sh.Analysis.{Verdict, verdict_to_finding, cwe_of, or_else, applicable_cwe}

-- A verdict of "not exploitable" gives a LOW finding, and the scoring of dedup leaves it LOW under
-- any configuration, however confident the verdict is and whatever the CVE score.
pub negative_verdict-low :
    (F : FloatOps) (sha256_hex : Bytes → Bytes) (cfg : Config) (surface : EnrichedSurface)
    (v : Verdict)
    → v.exploitable ≡ false
    → let f = verdict_to_finding F sha256_hex surface v in
      (f.severity_label ≡ low) × ((apply_boost_and_score F cfg f).severity_label ≡ low)
negative_verdict-low F sha256_hex cfg surface v h =
    unfold verdict_to_finding apply_boost_and_score in rw h (refl, refl)

known_kind :
    (contract : Bytes) (kind : SurfaceKind) (named : Bytes)
    → ((text : Bytes) → kind ≢ other_kind text)
    → or_else (or_else contract (applicable_cwe kind)) named
      ≡ or_else contract (applicable_cwe kind)
unfolding or_else applicable_cwe
known_kind (c ∷ contract) kind named h = refl
known_kind [] external_input named h = refl
known_kind [] auth_boundary named h = refl
known_kind [] idor_candidate named h = refl
known_kind [] dangerous_sink named h = refl
known_kind [] (other_kind text) named h = absurd (h text refl)

-- For a surface of one of the four kinds the CWE that the LLM names is never used: the finding has
-- the CWE of the contracts, or that of the kind.
pub cwe_of-kind :
    (surface : EnrichedSurface) (v : Verdict)
    → ((text : Bytes) → surface.kind ≢ other_kind text)
    → cwe_of surface v ≡ or_else (surface.contract_cwe) (applicable_cwe (surface.kind))
unfolding cwe_of
cwe_of-kind surface v h = known_kind (surface.contract_cwe) (surface.kind) (v.cwe) h
