-- ===== src/Policy/Contract.antt =====
-- The entry counts of the API contract: controller/api/v1alpha1/policy_capacity.go.
use juneau.Prelude.{ℕ, ◌+◌, ◌*◌, List, [], ◌∷◌, length, ltb, if◌then◌else◌}
use juneau.Policy.Resources.{SecurityGroupRule, NetworkAclRule}

abbrev pub at_least_one : ℕ → ℕ
at_least_one n = if ltb n 1 then 1 else n

abbrev pub network_acl_max_entries_per_direction : ℕ
network_acl_max_entries_per_direction = 16

abbrev pub security_group_max_entries_per_direction : ℕ
security_group_max_entries_per_direction = 8

unfoldable pub network_acl_rule_entry_count : NetworkAclRule → ℕ
network_acl_rule_entry_count rule = at_least_one (length rule.ports)

unfoldable pub security_group_rule_entry_count : SecurityGroupRule → ℕ
security_group_rule_entry_count rule =
    at_least_one (length rule.peers) * at_least_one (length rule.ports)

unfoldable pub sum_entry_count : {A : Type 0} → List A → (A → ℕ) → ℕ
sum_entry_count [] entry_count = 0
sum_entry_count (rule ∷ rules) entry_count = entry_count rule + sum_entry_count rules entry_count
