-- ===== src/Policy/Fits.antt =====
-- The API contract and the window of the data plane agree.
use Prim.Native.String.{String}
use juneau.Prelude.{ℕ, ◌≤◌, ◌≡◌, Option, none, ok, arith}
use juneau.Range.{Prefix}
use juneau.Policy.{RuleSet}
use juneau.Policy.Capacity.{Layer, fit_rule_set}
use juneau.Policy.Capacity.Fit.{fit_rule_set_small}
use juneau.Policy.Expand.{expand_network_acl, expand_security_group, listed}
use juneau.Policy.Resources.{NetworkAcl, SecurityGroup}
use juneau.Policy.Contract.{
  sum_entry_count, network_acl_rule_entry_count, security_group_rule_entry_count,
  network_acl_max_entries_per_direction, security_group_max_entries_per_direction,
}
use juneau.Policy.Expand.Budget.{expand_network_acl-le, expand_security_group-le}

-- A NetworkACL that expands and whose directions each cost at most what the API contract allows is
-- installed as it was expanded, with no capacity error.
pub expand_network_acl-fits :
    (parse_prefix : String → Option Prefix) (acl : NetworkAcl) (rs : RuleSet)
    → sum_entry_count (listed acl.ingress) network_acl_rule_entry_count
      ≤ network_acl_max_entries_per_direction
    → sum_entry_count (listed acl.egress) network_acl_rule_entry_count
      ≤ network_acl_max_entries_per_direction
    → expand_network_acl parse_prefix acl ≡ ok rs
    → fit_rule_set Layer.network_acl rs network_acl_max_entries_per_direction ≡ (rs, none)
expand_network_acl-fits parse_prefix acl rs h k e =
    let b = expand_network_acl-le parse_prefix acl rs e in
    fit_rule_set_small Layer.network_acl rs 16 (omega arith) (omega arith)

-- A SecurityGroup that expands and whose directions each cost at most what the API contract allows
-- is installed as it was expanded, with no capacity error.
pub expand_security_group-fits :
    (parse_prefix : String → Option Prefix) (resolver : String → Option ℕ) (sg : SecurityGroup)
    (rs : RuleSet)
    → sum_entry_count sg.ingress security_group_rule_entry_count
      ≤ security_group_max_entries_per_direction
    → sum_entry_count (listed sg.egress) security_group_rule_entry_count
      ≤ security_group_max_entries_per_direction
    → expand_security_group parse_prefix resolver sg ≡ ok rs
    → fit_rule_set Layer.security_group rs security_group_max_entries_per_direction ≡ (rs, none)
expand_security_group-fits parse_prefix resolver sg rs h k e =
    let b = expand_security_group-le parse_prefix resolver sg rs e in
    fit_rule_set_small Layer.security_group rs 8 (omega arith) (omega arith)
