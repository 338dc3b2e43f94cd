-- ===== src/Policy/Capacity/Fit.antt =====
-- What `fitRuleSet` lets through, and what it reports.
use juneau.Prelude.{
  ite, dec_lt, ◌↔◌, ℕ, ◌≤◌, ◌<◌, ◌≡◌, ◌⊎◌, refl, ap, ◌∙◌, Bool, true, false, none, List, [], ◌∷◌,
  ◌++◌, length, arith, ltb,
}
use juneau.Policy.{Direction, Rule, RuleSet}
use juneau.Policy.Capacity.{
  Layer, CapacityError, collect_capacity_errors, collect_joined, capacity_errors_from, to_errors,
  join, overfull, fit_rule_set,
}

collect-to_errors : (es : List CapacityError) → collect_joined (to_errors es) ≡ es
unfolding collect_joined collect_capacity_errors to_errors
collect-to_errors [] = refl
collect-to_errors (e ∷ es) = ap (◌∷◌ e) (collect-to_errors es)

-- Joining capacity errors loses none of them and keeps their order.
capacity_errors_from-join : (es : List CapacityError) → capacity_errors_from (join es) ≡ es
unfolding capacity_errors_from join collect_capacity_errors
capacity_errors_from-join [] = refl
capacity_errors_from-join (e ∷ es) = collect-to_errors (e ∷ es)

-- One direction that fits is installed as it is, and one that does not is installed empty.
abbrev pub Fitted : List Rule → Bool → List Rule → Bool → ℕ → Type 0
Fitted rules has rules' has' limit =
    ((length rules ≤ limit) × (rules' ≡ rules) × (has' ≡ has))
    ⊎ ((limit < length rules) × (rules' ≡ []) × (has' ≡ true))

-- `fitRuleSet` treats each direction on its own: one that fits is unchanged; one that does not fit
-- is empty and marked as declared. The id and the version are unchanged.
pub fit_rule_set-Fitted :
    (layer : Layer) (rs : RuleSet) (limit : ℕ)
    → let fitted = (fit_rule_set layer rs limit).0 in
      Fitted rs.ingress rs.has_ingress_rules fitted.ingress fitted.has_ingress_rules limit
      × Fitted rs.egress rs.has_egress_rules fitted.egress fitted.has_egress_rules limit
      × (fitted.group_id ≡ rs.group_id)
      × (fitted.ruleset_version ≡ rs.ruleset_version)
unfolding fit_rule_set
fit_rule_set-Fitted layer rs limit = ground arith

abbrev pub entry : Layer → RuleSet → Direction → List Rule → ℕ → CapacityError
entry layer rs direction rules limit = record {
  layer = layer;
  id = rs.group_id;
  direction = direction;
  entries = length rules;
  limit = limit;
}

-- What a direction that does not fit is reported as.
abbrev pub reported : Layer → RuleSet → Direction → List Rule → ℕ → List CapacityError
reported layer rs direction rules limit =
    ite (dec_lt limit (length rules)) (entry layer rs direction rules limit ∷ []) []

-- `CapacityErrorsFrom` finds in the error of `fitRuleSet` one capacity error for each direction that
-- does not fit, ingress first, with the number of entries and the limit; and the error is nil exactly
-- if both directions fit.
pub fit_rule_set-errors :
    (layer : Layer) (rs : RuleSet) (limit : ℕ)
    → let e = (fit_rule_set layer rs limit).1 in
      (capacity_errors_from e
        ≡ reported layer rs Direction.ingress rs.ingress limit
          ++ reported layer rs Direction.egress rs.egress limit)
      × ((e ≡ none) ↔ ((length rs.ingress ≤ limit) × (length rs.egress ≤ limit)))
unfolding fit_rule_set join
fit_rule_set-errors layer rs limit =
    let f = capacity_errors_from-join (
      overfull layer rs.group_id Direction.ingress rs.ingress limit
      ++ overfull layer rs.group_id Direction.egress rs.egress limit) in
    (f ∙ ground arith, ground arith)

-- A rule set that fits is written unchanged and reported with no error.
pub fit_rule_set_small :
    (layer : Layer) (rs : RuleSet) (limit : ℕ)
    → length rs.ingress ≤ limit
    → length rs.egress ≤ limit
    → fit_rule_set layer rs limit ≡ (rs, none)
unfolding fit_rule_set join
fit_rule_set_small layer rs limit h k =
    let p : ltb limit (length rs.ingress) ≡ false = ground arith in
    let q : ltb limit (length rs.egress) ≡ false = ground arith in rw (p, q)
