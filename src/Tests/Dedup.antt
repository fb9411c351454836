-- ===== src/Tests/Dedup.antt =====
-- The deduplication and the scoring on two findings of one place.
use zero_trust_sh.Prelude.{
  true, List, [], ◌∷◌, some, refl, ◌≡◌, ◌⊎◌, ◌+◌, length, All, arith, ◌≤◌, count, keep, ◌↔◌,
}
use zero_trust_sh.Prelude.Text.{Bytes, codes}
use zero_trust_sh.Finding.{Finding, reason_test_file, reason_framework_safe}
use zero_trust_sh.Config.Valid.{validate-default_config}
use zero_trust_sh.Dedup.{MergeRecord, Stats, gate1_raw, gate1_key}
use zero_trust_sh.Dedup.Gate.{GateState, gate1, gate1_step, empty_gate}
use zero_trust_sh.Dedup.Grouped.{grouped, absorb}
use zero_trust_sh.Dedup.Grouped.Refine.{gate1-grouped}
use zero_trust_sh.Dedup.Grouped.Keys.{Distinct}
use zero_trust_sh.Dedup.Score.{final_confidence}
use zero_trust_sh.Dedup.Score.Laws.{final_confidence-bounds}
use zero_trust_sh.Dedup.Suppress.{auto_suppress}
use zero_trust_sh.Dedup.Suppress.Laws.{auto_suppress-path, InTests, IsFramework}
use zero_trust_sh.Dedup.Sidecar.{SidecarEntry, suppress}
use zero_trust_sh.Dedup.Ssvc.{Net, KevStore}
use zero_trust_sh.Dedup.History.{
  Snapshot, known_from, dedup_historical, historical_record, is_unchanged,
}
use zero_trust_sh.Dedup.History.Laws.{dedup_historical-IsStored, IsStored}
use zero_trust_sh.Dedup.Process.{process, score_all, from_history, is_suppressed}
use zero_trust_sh.Dedup.Process.Counts.{process_lem}
use zero_trust_sh.Dedup.Place.{SamePlace, gate1_raw_injective}
use zero_trust_sh.Dedup.Process.Places.{process-Keeps, Keeps}
use zero_trust_sh.Tests.Floats.{thousandths, thousandths-IsFloat64}
use zero_trust_sh.Tests.Data.{config, digest, by_rule, by_model, layer, net}

abbrev two_findings : List Finding
two_findings = by_rule ∷ by_model ∷ []

process_lem_example :
    (out : List Finding) × (records : List MergeRecord) × (stats : Stats) × (process thousandths
        config layer digest
        (λ i. net)
        two_findings
      ≡ some (out, records, stats))
    × (out
        ≡ score_all thousandths config layer
            (λ i. net)
            0
            (grouped digest (from_history layer two_findings).survivors []))
    × (stats.input_count ≡ 2)
    × (stats.output_count ≡ length out)
    × (stats.output_count + stats.merge_count ≡ stats.input_count)
    × (length records ≡ stats.merge_count)
    × (stats.auto_suppressed_count ≡ count (λ f. is_suppressed f.severity_label) out)
process_lem_example = process_lem thousandths config layer (λ i. net) digest two_findings

abbrev scored : List Finding
scored =
    score_all thousandths config layer (λ i. net) 0
      (grouped digest (from_history layer two_findings).survivors [])

process-Keeps_example :
    Distinct digest scored × All (Keeps scored) (from_history layer two_findings).survivors
unfolding process from_history gate1_step gate1_key grouped absorb
process-Keeps_example =
    process-Keeps thousandths thousandths-IsFloat64 config
      (validate-default_config thousandths thousandths-IsFloat64) digest layer (λ i. net)
      two_findings ((omega arith, omega arith), ((omega arith, omega arith), tt))
      (
        (refl, (refl, (refl, (refl, (refl, (refl, tt)))))),
        ((refl, (refl, (refl, (refl, (refl, (refl, tt)))))), tt),
      )
      (λ f g m n e. e) refl

gate1_raw_injective_example : SamePlace by_rule by_model
unfolding gate1_raw
gate1_raw_injective_example =
    gate1_raw_injective by_rule by_model (refl, (refl, (refl, (refl, (refl, (refl, tt))))))
      (refl, (refl, (refl, (refl, (refl, (refl, tt)))))) refl

gate1-grouped_example :
    (st : GateState) × (gate1 digest two_findings (empty_gate [] 0) ≡ some st)
    × (st.out ≡ grouped digest two_findings [])
    × (length st.out + st.merge_count ≡ 2 + 0)
    × (length st.records + 0 ≡ st.merge_count + 0)
gate1-grouped_example = gate1-grouped digest two_findings [] 0

-- The LOW label of a verdict that says "not exploitable", against a rule's finding.
abbrev negative : Finding
negative = record by_model { severity_pinned = true }

-- The store holds the rule's finding as it is, and the model's with another confidence.
abbrev rows : List (Bytes × Snapshot)
rows =
    (codes "r", record { severity = codes "LOW"; confidence = 400; suppress_reason = [] })
    ∷ (codes "m", record { severity = codes "LOW"; confidence = 700; suppress_reason = [] })
    ∷ []

dedup_historical-IsStored_example :
    let old = is_unchanged (known_from rows []) in
    let r = dedup_historical (some rows) two_findings in
    (r.survivors ≡ by_model ∷ [])
    × (r.records ≡ historical_record by_rule ∷ [])
    × (r.merge_count ≡ 1)
    × ((old by_rule ≡ true) ↔ IsStored rows by_rule)
unfolding keep count is_unchanged known_from historical_record
dedup_historical-IsStored_example = dedup_historical-IsStored rows two_findings by_rule

final_confidence-bounds_example :
    (800 ≤ final_confidence thousandths config by_model)
    × (final_confidence thousandths config by_model ≤ 1000)
final_confidence-bounds_example =
    final_confidence-bounds thousandths thousandths-IsFloat64 config
      (validate-default_config thousandths thousandths-IsFloat64) by_model (omega arith)
      (omega arith)

-- The rule's finding in a generated file.
abbrev in_generated : Finding
in_generated = record by_rule { path = codes "api/v1.pb.go" }

auto_suppress-path_example :
    (InTests in_generated.path
      × (auto_suppress in_generated ≡ suppress reason_test_file in_generated))
    ⊎ ((¬ InTests in_generated.path
          × IsFramework in_generated.path
          × (auto_suppress in_generated ≡ suppress reason_framework_safe in_generated))
        ⊎ (¬ InTests in_generated.path
            × ¬ IsFramework in_generated.path
            × (auto_suppress in_generated ≡ in_generated)))
auto_suppress-path_example = auto_suppress-path in_generated

abbrev other_rule : SidecarEntry
other_rule = record { id = codes "x"; path = []; cwe = []; reason = codes "old" }

abbrev query_rule : SidecarEntry
query_rule = record {
  id = [];
  path = codes "app.go";
  cwe = codes "CWE-89";
  reason = codes "checked";
}

abbrev blanket_rule : SidecarEntry
blanket_rule = record { id = []; path = []; cwe = []; reason = [] }

-- The model's finding with a CVE that is in the catalogue.
abbrev known_exploited : Finding
known_exploited = record by_model { cve = codes "CVE-1" }

abbrev kev_net : Net
kev_net = record { kev = λ cve. true; epss = λ cve. 0 }

abbrev store : KevStore
store = record { catalogue = some (codes "CVE-1" ∷ []); at = 10 }
