-- ===== src/Alloc/Claims.antt =====
-- `AllocationClaimReconciler` of controller/internal/controller/allocationclaim_controller.go:
-- `Reconcile` and what it calls, over the API server of Api. The retry on a conflict, of client-go,
-- and the conversion of a duration to seconds as an int32 are parameters too. Log lines, the reason
-- and the message of a condition, and the controller reference of a lease are left out.
pub mod Exclusive
pub mod Laws
pub mod Fit
pub mod Ensured
pub mod Keeps
pub mod Steps
pub mod Reconciled
pub mod Finalizer
pub mod Exclusion
pub mod Memory
use Prim.Native.String.{String}
use Prim.Native.Nat.{◌%◌}
use text.Mathlib.Text.{◌==◌ as str_eq}
use juneau.Prelude.{
  ℕ, zero, suc, ◌+◌, ◌^◌, Bool, true, false, not, ◌&&◌, ◌||◌, Option, none, some, List, [], ◌∷◌,
  ite, if◌then◌else◌, Result, ok, err,
}
use juneau.Prelude.Int.{ℤ, pos, negsuc}
use juneau.Alloc.{
  AllocationValue, AllocationClaim, AllocationLease, LeaseSpec, AllocationPool, ClaimPhase, pending,
  allocated, ClaimStatus, claim_status_discrete, lease_spec_discrete, ttl_discrete, is_zero,
  lease_name_for, lease_owned_by_claim, lease_held_by_other_claim, adopt_network_interface_identity,
  allocation_claim_ready, is_allocated,
}
use juneau.Alloc.Exec.{Exec, Done, done, fail, asks, ◌>>=◌}
use juneau.Alloc.Pools.{allocate}
use juneau.Alloc.Used.{
  ApiError, not_found, already_exists, Reader, Netip, AllocError, all_pools_exhausted,
  pool_not_found, AllocationResult,
}
use juneau.Alloc.Api.{
  Api, ignore_not_found, exists_ignored, lease_of, held_spec, new_lease, revived, next_status,
  kept_ip, counted_pool, empty_result,
}

module _ {S : Type 0} (api : Api S) where
  write_status : AllocationClaim → ClaimStatus → Done S
  write_status fresh status =
      ite (claim_status_discrete status fresh.status) (done tt)
        (api.update_claim_status fresh status)

  -- `updateStatus`, under one run of the retry.
  unfoldable pub update_status_once : String → ClaimPhase → AllocationValue → Bool → Done S
  unfolding write_status
  update_status_once name phase value ready = asks (api.cached_claim name) >>= λ fresh.
      if allocation_claim_ready fresh && not (is_allocated phase)
      then done tt
      else write_status fresh (next_status phase value ready fresh)

  unfoldable pub update_status : String → ClaimPhase → AllocationValue → Bool → Done S
  unfolding update_status_once
  update_status name phase value ready =
      api.retry_on_conflict (Unit {0}) (update_status_once name phase value ready)

  unfoldable pub write_lease : AllocationLease → LeaseSpec → Done S
  write_lease existing desired =
      ite (lease_spec_discrete existing.spec desired) (done tt) (api.update_lease existing desired)

  unfoldable pub ensure_lease_on :
      AllocationClaim → AllocationPool → AllocationResult → Result ApiError AllocationLease → Done S
  unfolding exists_ignored write_lease
  ensure_lease_on claim pool result (ok existing) =
      if lease_held_by_other_claim existing claim
      then done tt
      else write_lease existing (revived claim pool result existing.spec)
  ensure_lease_on claim pool result (err not_found) =
      λ s. let (r, s') = api.create_lease (new_lease claim pool result) s in (exists_ignored r, s')
  ensure_lease_on claim pool result (err e) = fail e

  unfoldable pub ensure_lease : AllocationClaim → AllocationPool → AllocationResult → Done S
  unfolding ensure_lease_on
  ensure_lease claim pool result s =
      ensure_lease_on claim pool result (api.cached_lease (lease_name_for claim) s) s

  unfoldable pub adopt_lease : AllocationClaim → Option AllocationLease → Done S
  unfolding write_lease
  adopt_lease claim none = done tt
  adopt_lease claim (some lease) =
      if not (str_eq lease.spec.claim_ref.name "") && not (lease_owned_by_claim lease claim)
      then done tt
      else write_lease lease (held_spec claim lease.spec)

  unfoldable pub reconcile_lease : AllocationClaim → Done S
  unfolding lease_of adopt_lease
  reconcile_lease claim =
      asks (λ s. lease_of ((api.reader s).lease (lease_name_for claim))) >>= adopt_lease claim

  module _ (n : Netip) where
    unfoldable pub settle :
        AllocationClaim → Result AllocError (AllocationResult × AllocationPool) → Done S
    unfolding ensure_lease update_status
    settle fresh (ok (result, pool)) = ensure_lease fresh pool result >>= λ _.
        api.update_pool_status (counted_pool pool result) >>= λ _.
        update_status fresh.name allocated result.value true
    settle fresh (err e) = update_status fresh.name pending empty_result false

    -- One run of the retry of `Reconcile`.
    unfoldable pub allocate_once : String → Done S
    unfolding settle
    allocate_once name = asks (api.read_claim name) >>= λ fresh.
        if allocation_claim_ready fresh then done tt else λ s.
        settle fresh (allocate n (api.reader s) fresh) s

  module _ (int32_seconds : ℕ → ℤ) (now : ℕ) where
    same_ttl : LeaseSpec → ℤ → Bool
    same_ttl spec ttl =
        ite (ttl_discrete spec.ttl_seconds (some ttl)) (not (is_zero spec.owner_deletion_timestamp))
          false

    unfoldable pub release_lease : Option ℤ → AllocationLease → Done S
    unfolding same_ttl ignore_not_found
    release_lease (some (pos (suc d))) lease =
        let ttl = int32_seconds (suc d) in
        if same_ttl lease.spec ttl
        then done tt
        else api.update_lease lease
            (record lease.spec { owner_deletion_timestamp = some now; ttl_seconds = some ttl })
    release_lease _ lease =
        λ s. (ignore_not_found (api.delete_lease lease s).0, (api.delete_lease lease s).1)

    unfoldable pub drop_lease : AllocationClaim → Option AllocationLease → Done S
    unfolding release_lease
    drop_lease claim none = done tt
    drop_lease claim (some lease) =
        if lease_owned_by_claim lease claim
        then release_lease claim.release_after lease
        else done tt

    unfoldable pub handle_deletion : AllocationClaim → Done S
    unfolding drop_lease lease_of
    handle_deletion claim =
        if not claim.finalizer
        then done tt
        else asks (λ s. lease_of (api.cached_lease (lease_name_for claim) s)) >>= λ lease.
            drop_lease claim lease >>= λ _. api.update_claim claim false

  -- One run of the retry that adds the finalizer; the claim as it is then.
  unfoldable pub finalize_once : String → Exec S AllocationClaim
  finalize_once name = asks (api.cached_claim name) >>= λ fresh.
      if fresh.finalizer
      then done fresh
      else api.update_claim fresh true >>= λ _. done (record fresh { finalizer = true })

  unfoldable pub with_finalizer : AllocationClaim → Exec S AllocationClaim
  unfolding finalize_once
  with_finalizer claim =
      if claim.finalizer
      then done claim
      else api.retry_on_conflict AllocationClaim (finalize_once claim.name)

  -- Goes on with an object that was read, and ends without an error where there is none.
  unfoldable pub or_quit : (AllocationClaim → Done S) → Result ApiError AllocationClaim → Done S
  or_quit next (ok claim) = next claim
  or_quit next (err not_found) = done tt
  or_quit next (err e) = fail e

  no_pools : List String → Bool
  no_pools [] = true
  no_pools (ref ∷ refs) = false

  module _ (n : Netip) where
    -- `Reconcile` once the finalizer is there.
    unfoldable pub pursue : AllocationClaim → Done S
    unfolding reconcile_lease update_status allocate_once no_pools
    pursue claim =
        if allocation_claim_ready claim
        then reconcile_lease claim
        else if no_pools claim.pool_refs
        then update_status claim.name pending empty_result false
        else λ s.
            (if not (api.owner_exists claim s)
                then update_status claim.name pending empty_result false
                else api.retry_on_conflict (Unit {0}) (allocate_once n claim.name))
              s

    module _ (int32_seconds : ℕ → ℤ) (now : ℕ) where
      unfoldable pub reconcile_read : AllocationClaim → Done S
      unfolding handle_deletion with_finalizer or_quit pursue
      reconcile_read claim =
          if claim.deleting then handle_deletion int32_seconds now claim else λ s.
          or_quit pursue (with_finalizer claim s).0 (with_finalizer claim s).1

      unfoldable pub reconcile : String → Done S
      unfolding reconcile_read or_quit
      reconcile name s = or_quit reconcile_read (api.cached_claim name s) s
