-- ===== src/Alloc/Watches.antt =====
-- The events that wake the reconcilers of
-- controller/internal/controller/allocationclaim_controller.go and allocationlease_controller.go: the
-- field indexes and the maps from an event to requests. A request is the name of the claim or of the
-- lease. The answers of `r.List` for one value of an index are a parameter.
pub mod Keys
pub mod Woken
pub mod Cache
mod Tests
use Prim.Native.String.{String, ◌++◌ as str_append}
use text.Mathlib.Text.{◌==◌ as str_eq}
use juneau.Prelude.{
  Bool, true, false, Option, none, some, List, [], ◌∷◌, map, Result, ok, err, if◌then◌else◌,
}
use juneau.Alloc.{AllocationClaim, AllocationLease, AllocationPool, RetainReference}
use juneau.Alloc.Used.{ApiError}

-- `r.List` with `MatchingFields` on the two indexes.
pub record Lists : Type 0 where
  pub claims : String → Result ApiError (List AllocationClaim)
  pub leases : String → Result ApiError (List AllocationLease)

pub data Event : Type 0 where
  create_event update_event delete_event generic_event : Event

unfoldable pub join_slash : String → String → String
join_slash s t = str_append s (str_append "/" t)

unfoldable pub retain_reference_key : RetainReference → String
unfolding join_slash
retain_reference_key ref =
    join_slash (join_slash (join_slash ref.api_version ref.kind) ref.namespace) ref.name

-- The index `claimPoolRefIndex` of a claim.
unfoldable pub named_pools : List String → List String
named_pools [] = []
named_pools (ref ∷ refs) = if str_eq ref "" then named_pools refs else ref ∷ named_pools refs

-- The index `leaseRetainWhileIndex` of a lease.
unfoldable pub retain_index : Option RetainReference → List String
unfolding retain_reference_key
retain_index none = []
retain_index (some ref) = retain_reference_key ref ∷ []

unfoldable pub lease_deletion_predicate : Event → Bool
lease_deletion_predicate delete_event = true
lease_deletion_predicate _ = false

unfoldable pub requests_for : {A : Type 0} → (A → String) → Result ApiError (List A) → List String
requests_for name (ok objects) = map name objects
requests_for name (err e) = []

module _ (lists : Lists) where
  unfoldable pub claims_referencing_pool : String → List String
  unfolding requests_for
  claims_referencing_pool pool = requests_for (λ c. c.name) (lists.claims pool)

  unfoldable pub map_pool_to_claims : AllocationPool → List String
  unfolding claims_referencing_pool
  map_pool_to_claims pool = claims_referencing_pool pool.name

  unfoldable pub map_lease_to_claims : AllocationLease → List String
  unfolding claims_referencing_pool
  map_lease_to_claims lease =
      if str_eq lease.spec.pool_ref "" then [] else claims_referencing_pool lease.spec.pool_ref

  -- The watch on leases: the predicate, and then the map.
  unfoldable pub woken_by_lease : Event → AllocationLease → List String
  unfolding lease_deletion_predicate map_lease_to_claims
  woken_by_lease event lease =
      if lease_deletion_predicate event then map_lease_to_claims lease else []

  -- The object of the event has this reference.
  unfoldable pub map_retained_object_to_leases : RetainReference → List String
  unfolding requests_for retain_reference_key
  map_retained_object_to_leases object =
      requests_for (λ l. l.name) (lists.leases (retain_reference_key object))
