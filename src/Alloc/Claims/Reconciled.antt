-- ===== src/Alloc/Claims/Reconciled.antt =====
-- Every pass of the reconciler keeps values exclusive.
use Prim.Native.String.{String}
use text.Mathlib.Text.{◌==◌ as str_eq}
use juneau.Prelude.{
  ◌≡◌, refl, not, ◌&&◌, sym, ap, subst, ◌∙◌, inl, inr, false, Option, some, ok, err, Bool-cases,
  Option-cases, Result-cases,
}
use juneau.Range.{Addr}
use juneau.Alloc.{
  AllocationValue, AllocationClaim, AllocationLease, LeaseSpec, AllocationPool, lease_name_for,
  adopt_network_interface_identity, adopted, allocation_claim_ready, lease_owned_by_claim,
}
use juneau.Alloc.Pools.{allocate}
use juneau.Alloc.Used.{
  ApiError, not_found, conflict, already_exists, other_failure, Netip, AllocationResult,
}
use juneau.Alloc.Pools.Given.{allocate-Given}
use juneau.Alloc.Claims.{
  write_lease, ensure_lease_on, ensure_lease, settle, allocate_once, adopt_lease, reconcile_lease,
}
use juneau.Alloc.Api.{Api, counted_pool, held_spec, lease_of, empty_result}
use juneau.Alloc.Exec.{◌>>=◌, continue}
use juneau.Alloc.Claims.Exclusive.{Agree, Put, Same, Exclusive-lease_put}
use juneau.Alloc.Claims.Laws.{Served}
use juneau.Alloc.Claims.Fit.{Fit, Given-Fit}
use juneau.Alloc.Claims.Ensured.{
  Unchanged, Ensured, ensure-found, ensure-new, ensure-refused, write_lease-put,
  write_lease-refused,
}
use juneau.Alloc.Claims.Keeps.{E, E-unchanged, Allowed-Unchanged, Ensured-Allowed}
use juneau.Alloc.Claims.Steps.{update_allocated-E, update_pending-E}

some_same : {A : Type 0} {x y : A} → ◌≡◌ {A = Option A} (some x) (some y) → x ≡ y
some_same p = cc p

-- What a new holder leaves of a lease.
record Handed (c : AllocationClaim) (old new : LeaseSpec) : Type 0 where
  pool_kept : new.pool_ref ≡ old.pool_ref
  value_kept : new.value ≡ old.value

held_spec-Handed : (c : AllocationClaim) (spec : LeaseSpec) → Handed c spec (held_spec c spec)
unfolding held_spec adopt_network_interface_identity adopted
held_spec-Handed c spec = elim (Option-cases spec.network_interface) [
  | inl e ↦ rw e (record { pool_kept = refl; value_kept = refl })
  | inr (i, e) ↦ rw e (record { pool_kept = refl; value_kept = refl })
]

module _ (n : Netip) {S : Type 0} (api : Api S) (sv : Served api) where
  ensured :
      (c : AllocationClaim) (pool : AllocationPool) (r : AllocationResult) (s : S)
      → (ensure_lease api c pool r s).0 ≡ ok tt
      → Ensured api sv c pool r s (ensure_lease api c pool r s).1
  unfolding ensure_lease
  ensured c pool r s p = elim (Result-cases (api.cached_lease (lease_name_for c) s)) [
    | inl (l, q) ↦
        rw q
          (ensure-found api sv c pool r s l (sv.lease_cached (lease_name_for c) s l q) (rw q at p))
    | inr (not_found, q) ↦ rw q (ensure-new api sv c pool r s (rw q at p))
    | inr (conflict, q) ↦ absurd (cc (rw (q, ensure_lease_on) at p))
    | inr (already_exists, q) ↦ absurd (cc (rw (q, ensure_lease_on) at p))
    | inr (other_failure, q) ↦ absurd (cc (rw (q, ensure_lease_on) at p))
  ]

  ensured-refused :
      (c : AllocationClaim) (pool : AllocationPool) (r : AllocationResult) (s : S) (x : ApiError)
      → (ensure_lease api c pool r s).0 ≡ err x
      → Unchanged api sv s (ensure_lease api c pool r s).1
  unfolding ensure_lease
  ensured-refused c pool r s x p =
      ensure-refused api sv c pool r s (api.cached_lease (lease_name_for c) s) x p

  settle-E :
      (c : AllocationClaim) (pool : AllocationPool) (r : AllocationResult) (s : S)
      → E n api sv s
      → Fit n api sv s c r pool
      → E n api sv (settle api n c (ok (r, pool)) s).1
  unfolding settle ◌>>=◌ continue
  settle-E c pool r s e fit = elim (Result-cases (ensure_lease api c pool r s).0) [
    | inr (x, p) ↦ rw p (E-unchanged n api sv s _ e (ensured-refused c pool r s x p))
    | inl (u, p) ↦
        let (et, allowed) = Ensured-Allowed n api sv c pool r s e fit _ (ensured c pool r s p) in
        let t = (ensure_lease api c pool r s).1 in
        let same = sv.pool_updated (counted_pool pool r) t in
        elim (Result-cases (api.update_pool_status (counted_pool pool r) t).0) [
          | inr (x, q) ↦ rw (p, q) (E-unchanged n api sv t _ et same)
          | inl (v, q) ↦
              rw (p, q)
                (update_allocated-E n api sv c r.value _ (E-unchanged n api sv t _ et same)
                  (Allowed-Unchanged n api sv t _ c r.value same allowed))
        ]
  ]

  -- A lease gets another spec of the same pool and value.
  pub lease_put-E :
      (l : AllocationLease) (spec : LeaseSpec) (s t : S)
      → E n api sv s
      → sv.leases s l.name ≡ some l
      → Agree (sv.claims s) (sv.claims t)
      → Put l.name (some (record l { spec = spec })) (sv.leases s) (sv.leases t)
      → spec.pool_ref ≡ l.spec.pool_ref
      → spec.value ≡ l.spec.value
      → E n api sv t
  lease_put-E l spec s t e here f put pools values =
      Exclusive-lease_put n e l.name (record l { spec = spec }) f put
        (λ b m p ne q same.
          e.leases_apart b l.name m l p here ne (q ∙ pools)
            (subst (λ (v : AllocationValue). Same n m.spec.value v) values same))
        (λ a d p live same.
          e.backed a l.name spec.pool_ref d l p live here (sym pools)
            (subst (λ (v : AllocationValue). Same n v d.status.value) values same))

  write_lease-E :
      (l : AllocationLease) (spec : LeaseSpec) (s : S)
      → E n api sv s
      → spec.pool_ref ≡ l.spec.pool_ref
      → spec.value ≡ l.spec.value
      → E n api sv (write_lease api l spec s).1
  write_lease-E l spec s e pools values = elim (Result-cases (write_lease api l spec s).0) [
    | inr (x, p) ↦ E-unchanged n api sv s _ e (write_lease-refused api sv l spec s x p)
    | inl (u, p) ↦ elim (write_lease-put api sv l spec s p) [
      | inl same ↦ E-unchanged n api sv s _ e same
      | inr (here, f, put) ↦ lease_put-E l spec s _ e here f put pools values
    ]
  ]

  adopt_lease-E :
      (c : AllocationClaim) (l : AllocationLease) (s : S)
      → E n api sv s
      → E n api sv (adopt_lease api c (some l) s).1
  unfolding adopt_lease
  adopt_lease-E c l s e =
      let h = held_spec-Handed c l.spec in
      elim (Bool-cases (not (str_eq l.spec.claim_ref.name "") && not (lease_owned_by_claim l c))) [
        | inl t ↦ rw t e
        | inr f ↦ rw f (write_lease-E l (held_spec c l.spec) s e h.pool_kept h.value_kept)
      ]

  pub reconcile_lease-E :
      (c : AllocationClaim) (s : S) → E n api sv s → E n api sv (reconcile_lease api c s).1
  unfolding reconcile_lease lease_of ◌>>=◌ continue
  reconcile_lease-E c s e = elim (Result-cases ((api.reader s).lease (lease_name_for c))) [
    | inl (l, p) ↦ rw p (adopt_lease-E c l s e)
    | inr (not_found, p) ↦ rw (p, adopt_lease) e
    | inr (conflict, p) ↦ rw p e
    | inr (already_exists, p) ↦ rw p e
    | inr (other_failure, p) ↦ rw p e
  ]

  module _ (reparsed : (a b : Addr) → n.parse_addr (n.text a) ≡ some b → a ≡ b) where
    pub allocate_once-E :
        (name : String) (s : S) → E n api sv s → E n api sv (allocate_once api n name s).1
    unfolding allocate_once settle ◌>>=◌ continue
    allocate_once-E name s e = elim (Result-cases (api.read_claim name s)) [
      | inr (x, p) ↦ rw p e
      | inl (c, p) ↦
          let stored = sv.claim_read name s c p in
          let here = ap (sv.claims s) (sv.claim_named name s c stored) ∙ stored in
          elim (Bool-cases (allocation_claim_ready c)) [
            | inl t ↦ rw (p, t) e
            | inr f ↦ elim (Result-cases (allocate n (api.reader s) c)) [
              | inl ((r, pool), q) ↦
                  rw (p, f, q)
                    (settle-E c pool r s e (
                      Given-Fit n api sv s c r pool e here
                        (allocate-Given n reparsed (api.reader s) c r pool q)))
              | inr (x, q) ↦ rw (p, f, q) (update_pending-E n api sv c empty_result false s e)
            ]
          ]
    ]
