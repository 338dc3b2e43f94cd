-- ===== src/Policy/Capacity.antt =====
-- What fits the window of one direction: daemon/internal/daemon/dataplane/policy/capacity.go.
pub mod Fit
mod Tests
use juneau.Prelude.{
  ℕ, Bool, true, Option, none, some, List, [], ◌∷◌, ◌++◌, length, ltb, if◌then◌else◌,
}
use juneau.Policy.{Direction, Rule, RuleSet}

-- `sgLayer` and `aclLayer`
pub data Layer : Type 0 where
  network_acl security_group : Layer

pub record CapacityError : Type 0 where
  pub layer : Layer
  pub id : ℕ
  pub direction : Direction
  pub entries : ℕ
  pub limit : ℕ

-- The errors that `collectCapacityErrors` tells apart: a capacity error, one that joins several,
-- one that wraps another, and any other.
mutual
  pub data Error : Type 0 where
    capacity : CapacityError → Error
    joined : Errors → Error
    wrapped : Error → Error
    other : Error

  pub data Errors : Type 0 where
    nil : Errors
    cons : Error → Errors → Errors

unfoldable mutual
  pub collect_capacity_errors : Error → List CapacityError
  collect_capacity_errors (capacity e) = e ∷ []
  collect_capacity_errors (joined es) = collect_joined es
  collect_capacity_errors (wrapped e) = collect_capacity_errors e
  collect_capacity_errors other = []

  pub collect_joined : Errors → List CapacityError
  collect_joined nil = []
  collect_joined (cons e es) = collect_capacity_errors e ++ collect_joined es

-- `CapacityErrorsFrom`; `none` is the nil error.
unfoldable pub capacity_errors_from : Option Error → List CapacityError
capacity_errors_from none = []
capacity_errors_from (some e) = collect_capacity_errors e

to_errors : List CapacityError → Errors
to_errors [] = nil
to_errors (e ∷ es) = cons (capacity e) (to_errors es)

-- `errors.Join` of capacity errors.
unfoldable pub join : List CapacityError → Option Error
unfolding to_errors
join [] = none
join (e ∷ es) = some (joined (to_errors (e ∷ es)))

overfull : Layer → ℕ → Direction → List Rule → ℕ → List CapacityError
overfull layer id direction rules per_direction =
    if ltb per_direction (length rules)
    then record {
      layer = layer;
      id = id;
      direction = direction;
      entries = length rules;
      limit = per_direction;
    }
      ∷ []
    else []

fit_ingress : RuleSet → ℕ → RuleSet
fit_ingress rs per_direction =
    if ltb per_direction (length rs.ingress)
    then record rs { ingress = []; has_ingress_rules = true }
    else rs

fit_egress : RuleSet → ℕ → RuleSet
fit_egress rs per_direction =
    if ltb per_direction (length rs.egress)
    then record rs { egress = []; has_egress_rules = true }
    else rs

-- The rule set that may be written, and the error to report after writing it.
unfoldable pub fit_rule_set : Layer → RuleSet → ℕ → RuleSet × Option Error
unfolding overfull fit_ingress fit_egress
fit_rule_set layer rs per_direction = (
  fit_egress (fit_ingress rs per_direction) per_direction,
  join (
      overfull layer rs.group_id Direction.ingress rs.ingress per_direction
      ++ overfull layer rs.group_id Direction.egress rs.egress per_direction),
)
