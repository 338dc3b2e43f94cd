-- ===== src/Policy/Capacity/Tests.antt =====
-- Inputs at which the theorems on the capacity of a window apply.
use juneau.Prelude.{ℕ, ◌≡◌, true, false, [], ◌∷◌}
use juneau.Policy.{Direction, PeerKind, Verdict, Rule, RuleSet}
use juneau.Policy.Capacity.{Layer, fit_rule_set}
use juneau.Policy.Capacity.Fit.{Fitted, fit_rule_set-Fitted}

abbrev allow_tcp : Direction → ℕ → Rule
allow_tcp direction port = record {
  direction = direction;
  proto = 6;
  port_lo = port;
  port_hi = port;
  peer_kind = PeerKind.cidr;
  peer_v4 = 10;
  peer_prefixlen = 8;
  verdict = Verdict.allow;
  priority = 0;
}

-- Two ingress rules and one egress rule.
abbrev rules : RuleSet
rules = record {
  group_id = 7;
  ingress = allow_tcp Direction.ingress 80 ∷ allow_tcp Direction.ingress 443 ∷ [];
  egress = allow_tcp Direction.egress 53 ∷ [];
  has_ingress_rules = false;
  has_egress_rules = true;
  ruleset_version = 1;
}

fit_rule_set-Fitted_example :
    let fitted = (fit_rule_set Layer.security_group rules 1).0 in
    Fitted rules.ingress false fitted.ingress fitted.has_ingress_rules 1
    × Fitted rules.egress true fitted.egress fitted.has_egress_rules 1
    × (fitted.group_id ≡ 7)
    × (fitted.ruleset_version ≡ 1)
fit_rule_set-Fitted_example = fit_rule_set-Fitted Layer.security_group rules 1
