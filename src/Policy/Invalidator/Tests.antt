-- ===== src/Policy/Invalidator/Tests.antt =====
-- An input at which the theorem on `Applied` applies.
use juneau.Prelude.{ℕ, refl, false, true, [], ◌∷◌}
use juneau.Prelude.Dict.{lookup, insert}
use juneau.Policy.{RuleSet}
use juneau.Policy.Invalidator.{Invalidator, Applied, applied_lem, applied, bump_and_record}
use juneau.Policy.InMemory.{memory_bumper}

abbrev rules : RuleSet
rules = record {
  group_id = 7;
  ingress = [];
  egress = [];
  has_ingress_rules = false;
  has_egress_rules = true;
  ruleset_version = 1;
}

abbrev before : Invalidator ℕ
before = record { bumper = 3; installed = [] }

abbrev after : Invalidator ℕ
after = record { bumper = 4; installed = (7, rules) ∷ [] }

applied_example : Applied memory_bumper before 7 rules after
unfolding applied bump_and_record lookup insert
applied_example = applied_lem memory_bumper before after 7 rules refl
