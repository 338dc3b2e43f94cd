-- ===== src/Alloc/Pools/Reuse.antt =====
-- A claim that comes back gets its value again.
use text.Mathlib.TextEquality.{eq_iff}
use juneau.Prelude.{◌≡◌, refl, inl, inr, false, arith, Option-cases, ok}
use juneau.Alloc.{
  AllocationClaim, AllocationLease, AllocationPool, lease_name_for, lease_held_by_other_claim,
  lease_owned_by_claim, is_zero, claim_references_pool,
}
use juneau.Alloc.Pools.{allocate, allocate_holding, reuse_lease, reused_or}
use juneau.Alloc.Used.{Netip, Reader, get_lease}
use juneau.Alloc.Pools.Rivals.{References, get-any}
use juneau.Alloc.Pools.Granted.{MayTake}

MayTake-not_held :
    (claim : AllocationClaim) (lease : AllocationLease)
    → MayTake claim lease
    → lease_held_by_other_claim lease claim ≡ false
unfolding lease_held_by_other_claim lease_owned_by_claim is_zero
MayTake-not_held claim lease (inl e) = rw ((eq_iff lease.spec.claim_ref.name claim.name).1 e) refl
MayTake-not_held claim lease (inr q) = elim (Option-cases lease.spec.owner_deletion_timestamp) [
  | inl e ↦ absurd (q e)
  | inr (t, e) ↦ ground arith
]

-- A claim that may take the lease of its key, from a pool that it lists and that is there, is given
-- the value of that lease, whatever else is allocated and whatever value it requests.
pub allocate_reuses :
    (n : Netip) (rd : Reader) (claim : AllocationClaim) (held : AllocationLease)
    (pool : AllocationPool)
    → rd.lease (lease_name_for claim) ≡ ok held
    → MayTake claim held
    → References claim held.spec.pool_ref
    → rd.pool held.spec.pool_ref ≡ ok pool
    → allocate n rd claim ≡ ok (record { pool_name = pool.name; value = held.spec.value }, pool)
unfolding allocate get_lease allocate_holding reuse_lease reused_or claim_references_pool
allocate_reuses n rd claim held pool read may (i, listed) got = rw (
  read,
  MayTake-not_held claim held may,
  get-any claim.pool_refs held.spec.pool_ref i listed,
  got,
)
