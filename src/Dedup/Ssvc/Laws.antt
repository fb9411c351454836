-- ===== src/Dedup/Ssvc/Laws.antt =====
-- When a finding counts as exploited, and what the cache of the KEV catalogue keeps.
use zero_trust_sh.Prelude.{
  ℕ, ◌-◌, ◌≤◌, ◌<◌, ◌≡◌, ◌≢◌, ◌↔◌, ◌⊎◌, [], List, true, Option, none, some, arith,
}
use zero_trust_sh.Prelude.Text.{Bytes, codes, str_eq_iff}
use zero_trust_sh.Prelude.Float.{FloatOps}
use zero_trust_sh.Config.{Config}
use zero_trust_sh.Finding.{Finding}
use zero_trust_sh.Dedup.Ssvc.{
  Net, KevStore, derive_ssvc, exploitation_of, epss_score, kev_contains, has_id,
}

-- A finding is marked as actively exploited exactly when it has a CVE of the KEV catalogue, or its
-- EPSS score reaches the threshold.
pub derive_ssvc-active :
    (F : FloatOps) (cfg : Config) (net : Net) (f : Finding)
    → ((derive_ssvc F cfg net f).ssvc.exploitation ≡ codes "Active")
      ↔ (((f.cve ≢ []) × (net.kev f.cve ≡ true)) ⊎ (cfg.epss_active ≤ epss_score F cfg net f.cve))
unfolding derive_ssvc exploitation_of
derive_ssvc-active F cfg net f = ground (arith, str_eq_iff f.cve [])

-- While the catalogue is fresh, the answer is read from it and the store stays as it is, whatever a
-- fetch would give.
pub kev_contains-fresh :
    (ttl now now' : ℕ) (fetched : Option (List Bytes)) (cve : Bytes) (d : List Bytes)
    (st st' : KevStore)
    → st.catalogue ≡ some d
    → now - st.at ≤ ttl
    → cve ≢ []
    → kev_contains ttl now now' fetched cve st st' ≡ (has_id d cve, st)
unfolding kev_contains
kev_contains-fresh ttl now now' fetched cve d st st' e h n = ground (arith, str_eq_iff cve [])

-- Once the catalogue is stale, a fetch that fails leaves the old catalogue in force, and one that
-- succeeds replaces it and sets its time.
pub kev_contains-stale :
    (ttl now now' : ℕ) (cve : Bytes) (d e : List Bytes) (st : KevStore)
    → st.catalogue ≡ some d
    → ttl < now - st.at
    → now ≤ now'
    → cve ≢ []
    → (kev_contains ttl now now' none cve st st ≡ (has_id d cve, st))
      × (kev_contains ttl now now' (some e) cve st st
          ≡ (has_id e cve, record { catalogue = some e; at = now' }))
unfolding kev_contains
kev_contains-stale ttl now now' cve d e st c h l n = ground (arith, str_eq_iff cve [])
