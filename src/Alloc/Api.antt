-- ===== src/Alloc/Api.antt =====
-- The API server that the claim reconciler of
-- controller/internal/controller/allocationclaim_controller.go calls, a parameter, and the objects
-- that it writes there. An update carries the object that it was made from.
use Prim.Native.String.{String}
use Prim.Native.Nat.{◌%◌}
use text.Mathlib.Text.{◌==◌ as str_eq}
use juneau.Prelude.{◌+◌, ◌^◌, Bool, Option, none, some, if◌then◌else◌, Result, ok, err}
use juneau.Alloc.{
  AllocationValue, AllocationClaim, AllocationLease, LeaseSpec, AllocationPool, ClaimPhase,
  ClaimStatus, lease_name_for, adopt_network_interface_identity, is_allocated,
}
use juneau.Alloc.Exec.{Exec, Done}
use juneau.Alloc.Used.{ApiError, not_found, already_exists, Reader, AllocationResult}

-- The API server's answers to `r.reader()` and, from its cache, to `r.Get`, and its writes.
pub record Api (S : Type 0) : Type 1 where
  pub reader : S → Reader
  pub read_claim : String → S → Result ApiError AllocationClaim
  pub cached_claim : String → S → Result ApiError AllocationClaim
  pub cached_lease : String → S → Result ApiError AllocationLease
  pub create_lease : AllocationLease → Done S
  pub update_lease : AllocationLease → LeaseSpec → Done S
  pub delete_lease : AllocationLease → Done S
  pub update_claim : AllocationClaim → Bool → Done S
  pub update_claim_status : AllocationClaim → ClaimStatus → Done S
  pub update_pool_status : AllocationPool → Done S
  pub owner_exists : AllocationClaim → S → Bool
  pub retry_on_conflict : (A : Type 0) → Exec S A → Exec S A

unfoldable pub ignore_not_found : Result ApiError (Unit {0}) → Result ApiError (Unit {0})
ignore_not_found (err not_found) = ok tt
ignore_not_found r = r

-- A lease that was created meanwhile is as good.
unfoldable pub exists_ignored : Result ApiError (Unit {0}) → Result ApiError (Unit {0})
exists_ignored (err already_exists) = ok tt
exists_ignored r = r

unfoldable pub lease_of : Result ApiError AllocationLease → Result ApiError (Option AllocationLease)
lease_of (ok lease) = ok (some lease)
lease_of (err not_found) = ok none
lease_of (err e) = err e

unfoldable pub held_spec : AllocationClaim → LeaseSpec → LeaseSpec
held_spec claim spec =
    adopt_network_interface_identity
      (record spec { claim_ref = record { name = claim.name; uid = claim.uid } }) claim

unfoldable pub new_lease : AllocationClaim → AllocationPool → AllocationResult → AllocationLease
new_lease claim pool result = record {
  name = lease_name_for claim;
  uid = "";
  spec = record {
    pool_ref = pool.name;
    value = result.value;
    claim_ref = record { name = claim.name; uid = claim.uid };
    owner_deletion_timestamp = none;
    ttl_seconds = none;
    retain_while = claim.retain_while;
    network_interface = claim.network_interface;
  };
}

unfoldable pub revived : AllocationClaim → AllocationPool → AllocationResult → LeaseSpec → LeaseSpec
revived claim pool result spec =
    adopt_network_interface_identity
      (record spec {
        pool_ref = pool.name;
        value = result.value;
        claim_ref = record { name = claim.name; uid = claim.uid };
        owner_deletion_timestamp = none;
        ttl_seconds = none;
        retain_while = claim.retain_while;
      })
      claim

unfoldable pub next_status : ClaimPhase → AllocationValue → Bool → AllocationClaim → ClaimStatus
next_status phase value ready fresh = record {
  observed_generation = fresh.generation;
  phase = phase;
  value = if is_allocated phase then value else record { number = 0; ip = "" };
  ready = some (record { is_true = ready; observed_generation = fresh.generation });
}

unfoldable pub kept_ip : String → String → String
kept_ip last ip = if str_eq ip "" then last else ip

-- `freshPool.Status` after an allocation; the version is an uint64.
unfoldable pub counted_pool : AllocationPool → AllocationResult → AllocationPool
unfolding kept_ip
counted_pool pool result = record pool {
  allocation_version = (pool.allocation_version + 1) % 2 ^ 64;
  last_allocated_number = result.value.number;
  last_allocated_ip = kept_ip pool.last_allocated_ip result.value.ip;
}

abbrev pub empty_result : AllocationValue
empty_result = record { number = 0; ip = "" }
