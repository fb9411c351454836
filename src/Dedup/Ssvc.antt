-- ===== src/Dedup/Ssvc.antt =====
-- internal/dedup/ssvc.go: the CWE tables, the KEV cache and DeriveSSVC. What the network answers is a
-- parameter.
pub mod Laws
use zero_trust_sh.Prelude.{
  ℕ, ◌-◌, ◌∷◌, [], List, Bool, true, false, not, ◌&&◌, Option, none, some, any, if◌then◌else◌, leb,
}
use zero_trust_sh.Prelude.Text.{Bytes, codes, str_eq}
use zero_trust_sh.Prelude.Assoc.{lookup}
use zero_trust_sh.Prelude.Float.{Float64, FloatOps}
use zero_trust_sh.Config.{Config}
use zero_trust_sh.Finding.{Finding}

abbrev pub yes_text : Bytes
yes_text = codes "Yes"

abbrev pub no_text : Bytes
no_text = codes "No"

abbrev pub total : Bytes
total = codes "Total"

abbrev pub partial : Bytes
partial = codes "Partial"

unfoldable pub cwe_automatable : List (Bytes × Bytes)
cwe_automatable =
    (codes "CWE-20", yes_text)
    ∷ (codes "CWE-22", yes_text)
    ∷ (codes "CWE-77", yes_text)
    ∷ (codes "CWE-78", yes_text)
    ∷ (codes "CWE-79", yes_text)
    ∷ (codes "CWE-89", yes_text)
    ∷ (codes "CWE-90", yes_text)
    ∷ (codes "CWE-94", yes_text)
    ∷ (codes "CWE-119", no_text)
    ∷ (codes "CWE-120", no_text)
    ∷ (codes "CWE-190", no_text)
    ∷ (codes "CWE-200", yes_text)
    ∷ (codes "CWE-287", yes_text)
    ∷ (codes "CWE-306", yes_text)
    ∷ (codes "CWE-352", yes_text)
    ∷ (codes "CWE-400", yes_text)
    ∷ (codes "CWE-434", yes_text)
    ∷ (codes "CWE-476", no_text)
    ∷ (codes "CWE-502", yes_text)
    ∷ (codes "CWE-601", yes_text)
    ∷ (codes "CWE-611", yes_text)
    ∷ (codes "CWE-639", yes_text)
    ∷ (codes "CWE-918", yes_text)
    ∷ []

unfoldable pub cwe_technical_impact : List (Bytes × Bytes)
cwe_technical_impact =
    (codes "CWE-77", total)
    ∷ (codes "CWE-78", total)
    ∷ (codes "CWE-89", total)
    ∷ (codes "CWE-94", total)
    ∷ (codes "CWE-120", total)
    ∷ (codes "CWE-190", partial)
    ∷ (codes "CWE-200", partial)
    ∷ (codes "CWE-287", total)
    ∷ (codes "CWE-306", total)
    ∷ (codes "CWE-400", partial)
    ∷ (codes "CWE-502", total)
    ∷ (codes "CWE-611", total)
    ∷ (codes "CWE-918", partial)
    ∷ []

-- The process-wide cache of the KEV catalogue; times are in nanoseconds.
pub record KevStore : Type 0 where
  pub catalogue : Option (List Bytes)
  pub at : ℕ

fresh_data : ℕ → ℕ → KevStore → Option (List Bytes)
fresh_data ttl now st = elim st.catalogue [
  | none ↦ none
  | some d ↦ if leb (now - st.at) ttl then some d else none
]

unfoldable pub has_id : List Bytes → Bytes → Bool
unfolding any str_eq
has_id d cve = any (str_eq cve) d

-- The write half, under the lock, once the catalogue was fetched (`none` is an error of loadKEV).
store_fetched : ℕ → Option (List Bytes) → KevStore → KevStore
store_fetched now (some d) st = record { catalogue = some d; at = now }
store_fetched now none st = elim st.catalogue [
  | none ↦ record st { catalogue = some [] }
  | some d ↦ st
]

in_store : KevStore → Bytes → Bool
unfolding has_id
in_store st cve = elim st.catalogue [ none ↦ false | some d ↦ has_id d cve ]

-- After the fetch: another goroutine may have refreshed the store meanwhile.
unfoldable pub kev_refresh : ℕ → ℕ → Option (List Bytes) → Bytes → KevStore → Bool × KevStore
unfolding fresh_data has_id store_fetched in_store
kev_refresh ttl now fetched cve st = elim (fresh_data ttl now st) [
  | some d ↦ (has_id d cve, st)
  | none ↦ (in_store (store_fetched now fetched st) cve, store_fetched now fetched st)
]

-- kevContains: `st` is the store at the read lock, `st'` the one at the write lock.
unfoldable pub kev_contains :
    ℕ → ℕ → ℕ → Option (List Bytes) → Bytes → KevStore → KevStore → Bool × KevStore
unfolding fresh_data has_id kev_refresh
kev_contains ttl now now' fetched cve st st' =
    let slow = kev_refresh ttl now' fetched cve st' in
    let fast : Bool × KevStore = elim (fresh_data ttl now st) [
      | some d ↦ (has_id d cve, st)
      | none ↦ slow
    ] in
    if str_eq cve [] then (false, st) else fast

-- What the network answers while one finding is scored.
pub record Net : Type 0 where
  pub kev : Bytes → Bool
  pub epss : Bytes → Float64

module _ (F : FloatOps) (cfg : Config) where
  abbrev automatable_of : Option Bytes → Bytes
  automatable_of (some v) = v
  automatable_of none = no_text

  impact_of : Float64 → Option Bytes → Bytes
  impact_of cvss (some v) = v
  impact_of cvss none = if leb cfg.cvss_high cvss then total else partial

  -- epssScore answers 0 for an empty CVE.
  unfoldable pub epss_score : Net → Bytes → Float64
  unfolding str_eq
  epss_score net cve = if str_eq cve [] then F.decimal 0 0 else net.epss cve

  exploitation_of : Net → Bytes → Bytes
  unfolding epss_score str_eq
  exploitation_of net cve =
      if not (str_eq cve []) && net.kev cve
      then codes "Active"
      else if leb cfg.epss_active (epss_score net cve)
      then codes "Active"
      else if leb cfg.epss_poc (epss_score net cve)
      then codes "PoC"
      else codes "None"

  unfoldable pub derive_ssvc : Net → Finding → Finding
  unfolding impact_of exploitation_of lookup
  derive_ssvc net f = record f {
    ssvc = record {
      exploitation = exploitation_of net f.cve;
      automatable = automatable_of (lookup f.cwe cwe_automatable);
      technical_impact = impact_of f.cvss (lookup f.cwe cwe_technical_impact);
    };
  }
