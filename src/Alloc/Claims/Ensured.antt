-- ===== src/Alloc/Claims/Ensured.antt =====
-- What `ensureLease` writes, and that it writes nothing where it reports an error.
use Prim.Native.String.{String}
use juneau.Prelude.{
  ◌≡◌, refl, subst, ◌⊎◌, inl, inr, some, Result, ok, err, Bool-cases, Option-cases, Result-cases,
  ite,
}
use juneau.Alloc.{
  AllocationClaim, AllocationLease, LeaseSpec, AllocationPool, lease_spec_discrete, lease_name_for,
  lease_held_by_other_claim, adopt_network_interface_identity, adopted,
}
use juneau.Alloc.Used.{
  ApiError, not_found, conflict, already_exists, other_failure, AllocationResult,
}
use juneau.Alloc.Claims.{write_lease, ensure_lease_on}
use juneau.Alloc.Api.{Api, exists_ignored, revived, new_lease}
use juneau.Alloc.Exec.{done}
use juneau.Alloc.Claims.Exclusive.{Agree, Put}
use juneau.Alloc.Claims.Laws.{Served}

-- What `ensureLease` writes.
pub record Recorded (c : AllocationClaim) (r : AllocationResult) (pool : AllocationPool)
    (spec : LeaseSpec) : Type 0 where
  pub of_pool : spec.pool_ref ≡ pool.name
  pub of_value : spec.value ≡ r.value

revived-Recorded :
    (c : AllocationClaim) (r : AllocationResult) (pool : AllocationPool) (spec : LeaseSpec)
    → Recorded c r pool (revived c pool r spec)
unfolding revived adopt_network_interface_identity adopted
revived-Recorded c r pool spec = elim (Option-cases spec.network_interface) [
  | inl e ↦ rw e (record { of_pool = refl; of_value = refl })
  | inr (i, e) ↦ rw e (record { of_pool = refl; of_value = refl })
]

module _ {S : Type 0} (api : Api S) (sv : Served api) where
  abbrev pub Unchanged : S → S → Type 0
  Unchanged s t = Agree (sv.claims s) (sv.claims t) × Agree (sv.leases s) (sv.leases t)

  pub write_lease-refused :
      (existing : AllocationLease) (desired : LeaseSpec) (s : S) (x : ApiError)
      → (write_lease api existing desired s).0 ≡ err x
      → Unchanged s (write_lease api existing desired s).1
  unfolding write_lease
  write_lease-refused existing desired s x p =
      elim (lease_spec_discrete existing.spec desired)
          as (λ d.
            (ite d (done {S = S} tt) (api.update_lease existing desired) s).0 ≡ err x
            → Unchanged s (ite d (done {S = S} tt) (api.update_lease existing desired) s).1) [
              | Dec.yes e ↦ λ q. absurd (cc q)
              | Dec.no e ↦ sv.update_refused existing desired s x
            ]
        p

  -- A write of a lease either finds nothing to write, or updates the lease that is stored.
  pub write_lease-put :
      (existing : AllocationLease) (desired : LeaseSpec) (s : S)
      → (write_lease api existing desired s).0 ≡ ok tt
      → Unchanged s (write_lease api existing desired s).1
        ⊎ ((sv.leases s existing.name ≡ some existing)
            × Agree (sv.claims s) (sv.claims (write_lease api existing desired s).1)
            × Put existing.name
                (some (record existing { spec = desired }))
                (sv.leases s)
                (sv.leases (write_lease api existing desired s).1))
  unfolding write_lease
  write_lease-put existing desired s p =
      elim (lease_spec_discrete existing.spec desired)
          as (λ d.
            (ite d (done {S = S} tt) (api.update_lease existing desired) s).0 ≡ ok tt
            → Unchanged s (ite d (done {S = S} tt) (api.update_lease existing desired) s).1
              ⊎ ((sv.leases s existing.name ≡ some existing)
                  × Agree (sv.claims s)
                      (sv.claims (ite d (done {S = S} tt) (api.update_lease existing desired) s).1)
                  × Put existing.name (some (record existing { spec = desired })) (sv.leases s) (
                      sv.leases
                        (ite d (done {S = S} tt) (api.update_lease existing desired) s).1))) [
                          | Dec.yes e ↦ λ q. inl ((λ m. refl), (λ m. refl))
                          | Dec.no e ↦ λ q. inr (sv.updated existing desired s q)
                        ]
        p

  -- What `ensureLease` leaves if it reports no error: the lease of the claim's key with the value,
  -- or everything as it was.
  unfoldable pub Ensured : AllocationClaim → AllocationPool → AllocationResult → S → S → Type 0
  Ensured c pool r s t =
      Agree (sv.claims s) (sv.claims t)
      × (((l : AllocationLease) × Put (lease_name_for c) (some l) (sv.leases s) (sv.leases t)
            × Recorded c r pool l.spec)
          ⊎ Agree (sv.leases s) (sv.leases t))

  module _ (c : AllocationClaim) (pool : AllocationPool) (r : AllocationResult) (s : S) where
    pub ensure-found :
        (l : AllocationLease)
        → l.name ≡ lease_name_for c
        → (ensure_lease_on api c pool r (ok l) s).0 ≡ ok tt
        → Ensured c pool r s (ensure_lease_on api c pool r (ok l) s).1
    unfolding ensure_lease_on Ensured
    ensure-found l named p = elim (Bool-cases (lease_held_by_other_claim l c)) [
      | inl t ↦ rw t ((λ m. refl), inr (λ m. refl))
      | inr f ↦ elim (write_lease-put l (revived c pool r l.spec) s (rw f at p)) [
        | inl (same, g) ↦ rw f (same, inr g)
        | inr (here, same, put) ↦
            let l' : AllocationLease = record l { spec = revived c pool r l.spec } in
            rw f (
              same,
              inl (
                l',
                subst
                    (λ (k : String).
                      Put k (some l') (sv.leases s)
                        (sv.leases (write_lease api l (revived c pool r l.spec) s).1))
                    named put,
                revived-Recorded c r pool l.spec,
              ),
            )
      ]
    ]

    pub ensure-new :
        (ensure_lease_on api c pool r (err not_found) s).0 ≡ ok tt
        → Ensured c pool r s (ensure_lease_on api c pool r (err not_found) s).1
    unfolding ensure_lease_on Ensured exists_ignored new_lease
    ensure-new p = elim (Result-cases (api.create_lease (new_lease c pool r) s).0) [
      | inl (u, e) ↦
          let (same, uid, put) = sv.created (new_lease c pool r) s e in
          (same, inl (_, put, record { of_pool = refl; of_value = refl }))
      | inr (not_found, e) ↦ absurd (cc (rw e at p))
      | inr (conflict, e) ↦ absurd (cc (rw e at p))
      | inr (already_exists, e) ↦
          let (same, g) = sv.create_refused (new_lease c pool r) s already_exists e in (same, inr g)
      | inr (other_failure, e) ↦ absurd (cc (rw e at p))
    ]

    pub ensure-refused :
        (answer : Result ApiError AllocationLease) (x : ApiError)
        → (ensure_lease_on api c pool r answer s).0 ≡ err x
        → Unchanged s (ensure_lease_on api c pool r answer s).1
    unfolding ensure_lease_on exists_ignored
    ensure-refused (ok l) x p = elim (Bool-cases (lease_held_by_other_claim l c)) [
      | inl t ↦ absurd (cc (rw t at p))
      | inr f ↦ rw f (write_lease-refused l (revived c pool r l.spec) s x (rw f at p))
    ]
    ensure-refused (err not_found) x p =
        elim (Result-cases (api.create_lease (new_lease c pool r) s).0) [
          | inl (u, e) ↦ absurd (cc (rw e at p))
          | inr (y, e) ↦ sv.create_refused (new_lease c pool r) s y e
        ]
    ensure-refused (err conflict) x p = ((λ m. refl), (λ m. refl))
    ensure-refused (err already_exists) x p = ((λ m. refl), (λ m. refl))
    ensure-refused (err other_failure) x p = ((λ m. refl), (λ m. refl))
