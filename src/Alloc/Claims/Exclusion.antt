-- ===== src/Alloc/Claims/Exclusion.antt =====
-- `Reconcile` never gives one value to two claims.
use Prim.Native.String.{String}
use juneau.Prelude.{
  ℕ, ◌≡◌, refl, inl, inr, true, false, some, Result, ok, err, Bool-cases, if◌then◌else◌,
}
use juneau.Range.{Addr}
use juneau.Alloc.{AllocationClaim, allocation_claim_ready}
use juneau.Alloc.Used.{ApiError, not_found, conflict, already_exists, other_failure, Netip}
use juneau.Alloc.Claims.{
  allocate_once, handle_deletion, with_finalizer, or_quit, pursue, reconcile_read, reconcile,
  no_pools,
}
use juneau.Alloc.Api.{Api, empty_result}
use juneau.Alloc.Exec.{Done}
use juneau.Alloc.Claims.Exclusive.{Exclusive}
use juneau.Alloc.Claims.Laws.{Served}
use juneau.Alloc.Claims.Keeps.{E, retry-keeps}
use juneau.Alloc.Claims.Steps.{update_pending-E}
use juneau.Prelude.Int.{ℤ}
use juneau.Alloc.Claims.Reconciled.{reconcile_lease-E, allocate_once-E}
use juneau.Alloc.Claims.Finalizer.{with_finalizer-E, handle_deletion-E}

module _ (n : Netip) {S : Type 0} (api : Api S) (sv : Served api) where
  module _ (reparsed : (a b : Addr) → n.parse_addr (n.text a) ≡ some b → a ≡ b) where
    pursue-E : (c : AllocationClaim) (s : S) → E n api sv s → E n api sv (pursue api n c s).1
    unfolding pursue
    pursue-E c s e = elim (Bool-cases (allocation_claim_ready c)) [
      | inl t ↦ rw t (reconcile_lease-E n api sv c s e)
      | inr f ↦ elim (Bool-cases (no_pools api c.pool_refs)) [
        | inl t ↦ rw (f, t) (update_pending-E n api sv c empty_result false s e)
        | inr g ↦ elim (Bool-cases (api.owner_exists c s)) [
          | inr h ↦ rw (f, g, h) (update_pending-E n api sv c empty_result false s e)
          | inl t ↦
              rw (f, g, t)
                (retry-keeps n api sv (E n api sv) (E n api sv) (allocate_once api n c.name)
                  (λ u eu. allocate_once-E n api sv reparsed c.name u eu)
                  (λ u eu q. allocate_once-E n api sv reparsed c.name u eu) s _ e
                  (sv.retried (Unit {0}) (allocate_once api n c.name) s))
        ]
      ]
    ]

    or_quit-E :
        (next : AllocationClaim → Done S) (answer : Result ApiError AllocationClaim) (s : S)
        → E n api sv s
        → ((c : AllocationClaim) → answer ≡ ok c → E n api sv (next c s).1)
        → E n api sv (or_quit api next answer s).1
    unfolding or_quit
    or_quit-E next (ok c) s e h = h c refl
    or_quit-E next (err not_found) s e h = e
    or_quit-E next (err conflict) s e h = e
    or_quit-E next (err already_exists) s e h = e
    or_quit-E next (err other_failure) s e h = e

    read-E :
        (int32_seconds : ℕ → ℤ) (now : ℕ) (c : AllocationClaim) (s : S)
        → E n api sv s
        → E n api sv (reconcile_read api n int32_seconds now c s).1
    unfolding reconcile_read
    read-E int32_seconds now c s e =
        let (r, t) = with_finalizer api c s in
        let et = with_finalizer-E n api sv c s e in
        elim c.deleting
          as (λ b.
            E n api sv
              ((if b then handle_deletion api int32_seconds now c else λ u.
                  or_quit api (pursue api n) (with_finalizer api c u).0 (with_finalizer api c u).1)
                s).1) [
                  | true ↦ handle_deletion-E n api sv int32_seconds now c s e
                  | false ↦ or_quit-E (pursue api n) r t et (λ d q. pursue-E d t et)
                ]

    -- Over an API server as `Served` says, whose cache may be out of date, and if an address's text
    -- parses to that address or not at all: one pass of `Reconcile`, whatever it reads from the cache
    -- and whichever call fails, keeps the leases of a pool apart, and keeps apart the values of the
    -- claims that are allocated, list just that pool, and whose leases have different names, claims
    -- that are being deleted included; such a claim also shares its value with no lease of the pool
    -- but the one of that name.
    pub reconcile-Exclusive :
        (int32_seconds : ℕ → ℤ) (now : ℕ) (name : String) (s : S)
        → Exclusive n (sv.claims s) (sv.leases s)
        → Exclusive n
            (sv.claims (reconcile api n int32_seconds now name s).1)
            (sv.leases (reconcile api n int32_seconds now name s).1)
    unfolding reconcile
    reconcile-Exclusive int32_seconds now name s e =
        or_quit-E (reconcile_read api n int32_seconds now) (api.cached_claim name s) s e
          (λ c p. read-E int32_seconds now c s e)
