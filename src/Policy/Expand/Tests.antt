-- ===== src/Policy/Expand/Tests.antt =====
-- Inputs at which the theorems on the expansion apply.
use Prim.Native.String.{String}
use juneau.Prelude.{ℕ, ◌≡◌, refl, false, Option, none, some, List, [], ◌∷◌, Result, ok, err, arith}
use juneau.Prelude.Int.{pos}
use juneau.Range.{Prefix}
use juneau.Policy.{RuleSet}
use juneau.Policy.Capacity.{Layer, fit_rule_set}
use juneau.Policy.Protocol.{int, resolve_ip_protocol}
use juneau.Policy.Expand.{
  ExpandError, expand_network_acl, expand_security_group, expand_rules, expand_rule,
  sort_by_priority,
}
use juneau.Policy.Resources.{Action, NetworkAcl, NetworkAclRule, SecurityGroup, PolicyPort}
use juneau.Policy.Contract.{security_group_rule_entry_count, sum_entry_count}
use juneau.Policy.Expand.Order.{Ordered, at_priority, sort_by_priority-Ordered}
use juneau.Policy.Fits.{expand_security_group-fits}

-- Every text is 10.0.0.0/8.
abbrev parse_ten : String → Option Prefix
parse_ten text = some (record { addr = record { bit_len = 32; value = 0x0a000000 }; bits = 8 })

abbrev ports : List PolicyPort
ports =
    record { port = some (pos 80); port_range = none }
    ∷ record { port = none; port_range = some (pos 8000, pos 8080) }
    ∷ []

abbrev acl_rule : ℕ → Action → NetworkAclRule
acl_rule priority action = record {
  priority = pos priority;
  action = action;
  cidr = "10.0.0.0/8";
  protocol = some (int (pos 6));
  ports = ports;
}

abbrev acl : NetworkAcl
acl = record {
  acl_id = 9;
  ruleset_version = 2;
  ingress = some (acl_rule 200 Action.action_deny ∷ acl_rule 100 Action.action_allow ∷ []);
  egress = none;
}

abbrev empty_rules : RuleSet
empty_rules = record {
  group_id = 0;
  ingress = [];
  egress = [];
  has_ingress_rules = false;
  has_egress_rules = false;
  ruleset_version = 0;
}

abbrev or_empty : Result ExpandError RuleSet → RuleSet
or_empty (ok rs) = rs
or_empty (err e) = empty_rules

abbrev acl_rules : RuleSet
acl_rules = or_empty (expand_network_acl parse_ten acl)

abbrev sg : SecurityGroup
sg = record {
  group_id = 7;
  ruleset_version = 1;
  ingress =
      record {
        peers = record { cidr = "10.0.0.0/8"; security_group_ref = none } ∷ [];
        protocol = some (int (pos 17));
        ports = ports;
      }
      ∷ [];
  egress = some [];
}

abbrev sg_rules : RuleSet
sg_rules = or_empty (expand_security_group parse_ten (λ name. none) sg)

expand_security_group-fits_example : fit_rule_set Layer.security_group sg_rules 8 ≡ (sg_rules, none)
unfolding expand_security_group sum_entry_count security_group_rule_entry_count expand_rules
    expand_rule resolve_ip_protocol
expand_security_group-fits_example =
    expand_security_group-fits parse_ten (λ name. none) sg sg_rules (omega arith) (omega arith) refl

sort_by_priority-Ordered_example :
    Ordered (sort_by_priority acl_rules.ingress)
    × ((p : ℕ)
        → at_priority p (sort_by_priority acl_rules.ingress) ≡ at_priority p acl_rules.ingress)
sort_by_priority-Ordered_example = sort_by_priority-Ordered acl_rules.ingress
