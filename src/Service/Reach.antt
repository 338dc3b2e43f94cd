-- ===== src/Service/Reach.antt =====
-- Who reaches a Service (`ResolvableFrom`), and how long a client stays with a backend.
use Prim.Native.String.{String}
use text.Mathlib.Text.{◌==◌ as str_eq}
use text.Mathlib.TextEquality.{eq_iff}
use juneau.Prelude.{
  ◌≡◌, refl, ◌≢◌, ◌⊎◌, ◌↔◌, ◌<◌, inl, inr, true, Option, none, some, List, [], ◌∷◌, any, Bool-cases,
  arith,
}
use juneau.Prelude.Text.{str_eq-false}
use juneau.Service.{
  Service, CallerVpc, resolvable_from, owning_vpc, is_shared, allowed_consumer_vpcs,
  is_allowed_consumer, vpc_or_default, annotation, selection_policy_of, affinity_policy_of,
  timeout_of, affinity_client_ip, default_vpc, annotation_vpc,
}

-- The text is one of the list.
pub OneOf : String → List String → Type 0
OneOf name [] = ⊥
OneOf name (v ∷ vs) = (v ≡ name) ⊎ OneOf name vs

any-OneOf :
    (name : String) (vs : List String) → (any (λ v. str_eq v name) vs ≡ true) ↔ OneOf name vs
unfolding OneOf
any-OneOf name [] = (λ e. absurd (cc e), λ x. absurd x)
any-OneOf name (v ∷ vs) = ground (arith, any-OneOf name vs, eq_iff v name)

module _ (split : String → List String) (trim_space : String → String) where
  -- A caller reaches a Service exactly if its VPC has Service routing and either owns the Service, or
  -- consumes shared Services and the Service is shared and lists no consumers or this one. It lists
  -- no consumers where the annotation is missing, and also where it is there and names nobody.
  pub resolvable_from_iff :
      (svc : Service) (caller : CallerVpc)
      → (resolvable_from split trim_space (some svc) caller ≡ true) ↔ (
          (caller.service_enabled ≡ true)
          × ((owning_vpc (some svc) ≡ caller.name)
              ⊎ ((caller.consume ≡ true)
                  × (is_shared (some svc) ≡ true)
                  × ((allowed_consumer_vpcs split trim_space (some svc) ≡ [])
                      ⊎ OneOf caller.name (allowed_consumer_vpcs split trim_space (some svc))))))
  unfolding resolvable_from is_allowed_consumer
  resolvable_from_iff svc caller = ground (
    arith,
    eq_iff (owning_vpc (some svc)) caller.name,
    any-OneOf caller.name (allowed_consumer_vpcs split trim_space (some svc)),
  )

vpc_or_default_named : (o : Option String) → vpc_or_default o ≢ ""
unfolding vpc_or_default
vpc_or_default_named none = str_eq-false default_vpc "" refl
vpc_or_default_named (some v) = elim (Bool-cases (str_eq v "")) [
  | inl e ↦ rw e (str_eq-false default_vpc "" refl)
  | inr e ↦ rw e (str_eq-false v "" e)
]

-- A Service always has an owner with a name.
pub owning_vpc_named : (svc : Option Service) → owning_vpc svc ≢ ""
unfolding owning_vpc
owning_vpc_named none = str_eq-false default_vpc "" refl
owning_vpc_named (some svc) = vpc_or_default_named (annotation svc annotation_vpc)

-- A backend selection that keeps clients at their backend does so for a positive time.
pub selection_policy_of-positive :
    (svc : Option Service)
    → (selection_policy_of svc).affinity.mode ≡ affinity_client_ip
    → 0 < (selection_policy_of svc).affinity.timeout
unfolding selection_policy_of affinity_policy_of timeout_of
selection_policy_of-positive none e = absurd (cc e)
selection_policy_of-positive (some svc) e = ground arith
