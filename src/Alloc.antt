-- ===== src/Alloc.antt =====
-- The allocation of numbers and addresses to claims. This file is
-- controller/internal/controller/allocation_helpers.go and the types of controller/api/v1alpha1
-- (allocationclaim_types.go, allocationlease_types.go, allocationpool_types.go,
-- retainreference_types.go, networkinterfaceidentity_types.go). Used and Pools are the allocator and
-- Claims the reconciler of allocationclaim_controller.go, Leases is allocationlease_controller.go, and
-- Exec and Api have their calls and Watches what wakes them. Times are nanoseconds; a nil time and a
-- zero time are both `none`. Of the status conditions only Ready is kept.
pub mod Used
pub mod Pools
pub mod Exec
pub mod Api
pub mod Claims
pub mod Leases
pub mod Watches
mod Tests
use Prim.Native.String.{String}
use text.Mathlib.Text.{◌==◌ as str_eq}
use juneau.Prelude.{
  ℕ, Bool, true, false, not, ◌&&◌, Option, none, some, List, [], ◌∷◌, ite, any, ◌==◌, if◌then◌else◌,
  ℕ_discrete,
}
use juneau.Prelude.Int.{ℤ}
use juneau.Prelude.Text.{string_discrete}
use juneau.Range.Candidates.{PoolIpSpec}

pub record AllocationValue : Type 0 where
  pub number : ℕ
  pub ip : String

pub record RetainReference : Type 0 where
  pub api_version : String
  pub kind : String
  pub namespace : String
  pub name : String

pub record NetworkInterfaceIdentity : Type 0 where
  pub namespace : String
  pub allocation_identity : String
  pub interface : String

pub data ClaimPhase : Type 0 where
  unset pending allocated : ClaimPhase

-- The Ready condition: whether its status is True, and the generation that it saw.
pub record ReadyCondition : Type 0 where
  pub is_true : Bool
  pub observed_generation : ℕ

-- `AllocationClaimStatus`
pub record ClaimStatus : Type 0 where
  pub observed_generation : ℕ
  pub phase : ClaimPhase
  pub value : AllocationValue
  pub ready : Option ReadyCondition

-- The fields of `AllocationClaim` that the controllers read; `filter` is the CIDR list of
-- `allocationFilter`, and `release_after` a duration.
pub record AllocationClaim : Type 0 where
  pub name : String
  pub uid : String
  pub generation : ℕ
  pub deleting : Bool
  pub finalizer : Bool
  pub pool_refs : List String
  pub requested_number : Option ℕ
  pub requested_ip : Option String
  pub filter : List String
  pub release_after : Option ℤ
  pub reuse_key : String
  pub retain_while : Option RetainReference
  pub network_interface : Option NetworkInterfaceIdentity
  pub status : ClaimStatus

pub record ClaimReference : Type 0 where
  pub name : String
  pub uid : String

-- `AllocationLeaseSpec`
pub record LeaseSpec : Type 0 where
  pub pool_ref : String
  pub value : AllocationValue
  pub claim_ref : ClaimReference
  pub owner_deletion_timestamp : Option ℕ
  pub ttl_seconds : Option ℤ
  pub retain_while : Option RetainReference
  pub network_interface : Option NetworkInterfaceIdentity

pub record AllocationLease : Type 0 where
  pub name : String
  pub uid : String
  pub spec : LeaseSpec

pub data PoolType : Type 0 where
  number_pool ip_pool other_pool : PoolType

pub record NumberSpec : Type 0 where
  pub min : ℕ
  pub max : ℕ

pub record AllocationPool : Type 0 where
  pub name : String
  pub type : PoolType
  pub number : Option NumberSpec
  pub ip : Option PoolIpSpec
  pub allocation_version : ℕ
  pub last_allocated_number : ℕ
  pub last_allocated_ip : String

unfoldable pub is_zero : Option ℕ → Bool
is_zero none = true
is_zero (some t) = false

unfoldable pub lease_name_for : AllocationClaim → String
lease_name_for claim = if not (str_eq claim.reuse_key "") then claim.reuse_key else claim.name

unfoldable pub lease_owned_by_claim : AllocationLease → AllocationClaim → Bool
lease_owned_by_claim lease claim = str_eq lease.spec.claim_ref.name claim.name

unfoldable pub lease_held_by_other_claim : AllocationLease → AllocationClaim → Bool
unfolding is_zero lease_owned_by_claim
lease_held_by_other_claim lease claim =
    not (lease_owned_by_claim lease claim) && is_zero lease.spec.owner_deletion_timestamp

unfoldable pub claim_references_pool : AllocationClaim → String → Bool
claim_references_pool claim pool = any (λ ref. str_eq ref pool) claim.pool_refs

adopted : Option NetworkInterfaceIdentity → AllocationClaim → LeaseSpec → LeaseSpec
adopted none claim spec = record spec { network_interface = claim.network_interface }
adopted (some identity) claim spec = spec

unfoldable pub adopt_network_interface_identity : LeaseSpec → AllocationClaim → LeaseSpec
unfolding adopted
adopt_network_interface_identity spec claim = adopted spec.network_interface claim spec

-- `allocationClaimReady`
is_ready : AllocationClaim → Option ReadyCondition → Bool
is_ready claim none = false
is_ready claim (some c) = c.is_true && c.observed_generation == claim.generation

unfoldable pub is_allocated : ClaimPhase → Bool
is_allocated allocated = true
is_allocated _ = false

unfoldable pub allocation_claim_ready : AllocationClaim → Bool
unfolding is_ready is_allocated
allocation_claim_ready claim =
    if not (is_allocated claim.status.phase)
    then false
    else (if claim.status.value.number == 0 && str_eq claim.status.value.ip ""
        then false
        else is_ready claim claim.status.ready)

ℤ_discrete : Discrete ℤ
ℤ_discrete = hlevel ℕ_discrete

option_discrete : {A : Type 0} → Discrete A → Discrete (Option A)
option_discrete dec none none = yes (λ i. none)
option_discrete dec none (some b) = no (λ p. cc p)
option_discrete dec (some a) none = no (λ p. cc p)
option_discrete dec (some a) (some b) = elim (dec a b) [
  | yes p ↦ yes (λ i. some (p i))
  | no n ↦ no (λ p. n (cc p))
]

pub ttl_discrete : Discrete (Option ℤ)
unfolding option_discrete ℤ_discrete
ttl_discrete = option_discrete ℤ_discrete

value_discrete : Discrete AllocationValue
value_discrete = hlevel (ℕ_discrete, string_discrete)

claim_reference_discrete : Discrete ClaimReference
claim_reference_discrete = hlevel string_discrete

retain_reference_discrete : Discrete RetainReference
retain_reference_discrete = hlevel string_discrete

identity_discrete : Discrete NetworkInterfaceIdentity
identity_discrete = hlevel string_discrete

-- `reflect.DeepEqual` on the spec of a lease.
pub lease_spec_discrete : Discrete LeaseSpec
unfolding value_discrete claim_reference_discrete retain_reference_discrete identity_discrete
    option_discrete ℤ_discrete
lease_spec_discrete = hlevel (
  string_discrete,
  value_discrete,
  claim_reference_discrete,
  option_discrete ℕ_discrete,
  option_discrete ℤ_discrete,
  option_discrete retain_reference_discrete,
  option_discrete identity_discrete,
)

phase_discrete : Discrete ClaimPhase
phase_discrete = hlevel

bool_discrete : Discrete Bool
bool_discrete true true = yes (λ i. true)
bool_discrete false false = yes (λ i. false)
bool_discrete true false = no (λ p. cc p)
bool_discrete false true = no (λ p. cc p)

ready_discrete : Discrete ReadyCondition
ready_discrete = hlevel (bool_discrete, ℕ_discrete)

pub claim_status_discrete : Discrete ClaimStatus
unfolding phase_discrete ready_discrete bool_discrete option_discrete value_discrete
claim_status_discrete =
    hlevel (ℕ_discrete, phase_discrete, value_discrete, option_discrete ready_discrete)

list_discrete : {A : Type 0} → Discrete A → Discrete (List A)
list_discrete dec [] [] = yes (λ i. [])
list_discrete dec [] (b ∷ bs) = no (λ p. cc p)
list_discrete dec (a ∷ rest) [] = no (λ p. cc p)
list_discrete dec (a ∷ rest) (b ∷ bs) = elim (dec a b) [
  | no q ↦ no (λ p. q (cc p))
  | yes p ↦ elim (list_discrete dec rest bs) [ no q ↦ no (λ r. q (cc r)) | yes r ↦ yes (cc (p, r)) ]
]

pub claim_discrete : Discrete AllocationClaim
unfolding option_discrete ℤ_discrete bool_discrete retain_reference_discrete identity_discrete
    list_discrete
claim_discrete = hlevel (
  string_discrete,
  ℕ_discrete,
  bool_discrete,
  list_discrete string_discrete,
  option_discrete ℕ_discrete,
  option_discrete string_discrete,
  option_discrete ℤ_discrete,
  option_discrete retain_reference_discrete,
  option_discrete identity_discrete,
  claim_status_discrete,
)

pub lease_discrete : Discrete AllocationLease
lease_discrete = hlevel (string_discrete, lease_spec_discrete)
