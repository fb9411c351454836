-- ===== src/Contracts/Rulebook.antt =====
-- The table of internal/semantic/contracts/rulebook.go.
use zero_trust_sh.Prelude.{◌∷◌, [], List, Option}
use zero_trust_sh.Prelude.Text.{Bytes, codes}
use zero_trust_sh.Prelude.Assoc.{lookup}
use zero_trust_sh.Contracts.{Invariant}
use zero_trust_sh.Contracts.Injection.{rule_89, rule_78, rule_22, rule_79}
use zero_trust_sh.Contracts.Others.{rule_94, rule_918, rule_862, rule_327, rule_502}

unfoldable pub rulebook : List (Bytes × Invariant)
rulebook =
    (codes "CWE-89", rule_89)
    ∷ (codes "CWE-78", rule_78)
    ∷ (codes "CWE-22", rule_22)
    ∷ (codes "CWE-79", rule_79)
    ∷ (codes "CWE-94", rule_94)
    ∷ (codes "CWE-918", rule_918)
    ∷ (codes "CWE-862", rule_862)
    ∷ (codes "CWE-327", rule_327)
    ∷ (codes "CWE-502", rule_502)
    ∷ []

-- inv, ok := Rulebook[cwe]
unfoldable pub find_rule : Bytes → Option Invariant
unfolding lookup rulebook
find_rule cwe = lookup cwe rulebook
