-- ===== src/Alloc/Claims/Finalizer.antt =====
-- The finalizer of a claim, how it is added and what happens before it goes.
use Prim.Native.String.{String}
use juneau.Prelude.{
  ℕ, ◌≡◌, refl, ◌⊎◌, inl, inr, Bool, true, false, not, Option, none, some, Bool-cases, Result-cases,
  if◌then◌else◌, suc, zero,
}
use juneau.Alloc.{AllocationClaim, AllocationLease, LeaseSpec, lease_name_for, lease_owned_by_claim}
use juneau.Alloc.Used.{not_found, conflict, already_exists, other_failure, Netip}
use juneau.Alloc.Claims.{
  release_lease, drop_lease, handle_deletion, finalize_once, with_finalizer, same_ttl,
}
use juneau.Alloc.Api.{Api, lease_of}
use juneau.Alloc.Exec.{Exec, done, ◌>>=◌, continue, asks}
use juneau.Alloc.Claims.Exclusive.{
  Agree, Put, Exclusive-claim_put, Exclusive-lease_gone, Exclusive-claim_gone,
}
use juneau.Alloc.Claims.Laws.{Served}
use juneau.Alloc.Claims.Keeps.{E, E-unchanged, retry-keeps}
use juneau.Prelude.Int.{ℤ, pos, negsuc}
use juneau.Alloc.Claims.Reconciled.{lease_put-E}

some_same : {A : Type 0} {x y : A} → ◌≡◌ {A = Option A} (some x) (some y) → x ≡ y
some_same p = cc p

module _ (n : Netip) {S : Type 0} (api : Api S) (sv : Served api) where
  update_claim-E :
      (c : AllocationClaim) (f : Bool) (s : S)
      → E n api sv s
      → E n api sv (api.update_claim c f s).1
  unfolding lease_name_for
  update_claim-E c f s e = elim (Result-cases (api.update_claim c f s).0) [
    | inr (x, p) ↦ E-unchanged n api sv s _ e (sv.claim_refused c f s x p)
    | inl (u, p) ↦ let (here, g, put) = sv.claim_updated c f s p in written here g put
  ]
    where
      written :
          sv.claims s c.name ≡ some c
          → Agree (sv.leases s) (sv.leases (api.update_claim c f s).1)
          → Put c.name none (sv.claims s) (sv.claims (api.update_claim c f s).1)
            ⊎ Put c.name
                (some (record c { finalizer = f }))
                (sv.claims s)
                (sv.claims (api.update_claim c f s).1)
          → E n api sv (api.update_claim c f s).1
      written here g (inl put) = Exclusive-claim_gone n e c.name put g
      written here g (inr put) =
          Exclusive-claim_put n e c.name (record c { finalizer = f }) put g
            (λ q k l live x y same.
              e.backed c.name k q c l here (record { given = live.given; one_pool = live.one_pool })
                x y same)
            (λ q b d live x ne live' same.
              e.claims_apart b c.name q d c x here ne live'
                (record { given = live.given; one_pool = live.one_pool }) same)

  then-E :
      {A B : Type 0} (m : Exec S A) (f : A → Exec S B) (s : S)
      → E n api sv (m s).1
      → ((a : A) (t : S) → E n api sv t → E n api sv (f a t).1)
      → E n api sv ((m >>= f) s).1
  unfolding ◌>>=◌ continue
  then-E m f s e next = elim (Result-cases (m s).0) [
    | inl (a, p) ↦ rw p (next a (m s).1 e)
    | inr (x, p) ↦ rw p e
  ]

  finalize_fresh-E :
      (b : Bool) (c : AllocationClaim) (s : S)
      → E n api sv s
      → E n api sv
          ((if b
              then done {S = S} c
              else api.update_claim c true >>= λ _. done {S = S} (record c { finalizer = true }))
            s).1
  finalize_fresh-E true c s e = e
  finalize_fresh-E false c s e =
      then-E (api.update_claim c true) (λ _. done (record c { finalizer = true })) s
        (update_claim-E c true s e) (λ a t et. et)

  finalize_once-E : (name : String) (s : S) → E n api sv s → E n api sv (finalize_once api name s).1
  unfolding finalize_once ◌>>=◌ continue
  finalize_once-E name s e = elim (Result-cases (api.cached_claim name s)) [
    | inr (x, p) ↦ rw p e
    | inl (c, p) ↦ rw p (finalize_fresh-E c.finalizer c s e)
  ]

  pub with_finalizer-E :
      (c : AllocationClaim) (s : S) → E n api sv s → E n api sv (with_finalizer api c s).1
  unfolding with_finalizer
  with_finalizer-E c s e = elim (Bool-cases c.finalizer) [
    | inl t ↦ rw t e
    | inr f ↦ rw f (
        retry-keeps n api sv (E n api sv) (E n api sv) (finalize_once api c.name)
          (λ t et. finalize_once-E c.name t et) (λ t et q. finalize_once-E c.name t et) s _ e
          (sv.retried AllocationClaim (finalize_once api c.name) s))
  ]

  module _ (int32_seconds : ℕ → ℤ) (now : ℕ) (c : AllocationClaim) (s : S) (e : E n api sv s) where
    dropped : (l : AllocationLease) → E n api sv (api.delete_lease l s).1
    dropped l = elim (Result-cases (api.delete_lease l s).0) [
      | inr (x, p) ↦ E-unchanged n api sv s _ e (sv.delete_refused l s x p)
      | inl (u, p) ↦ let (f, put) = sv.deleted l s p in Exclusive-lease_gone n e l.name f put
    ]

    released :
        (d : Option ℤ) (l : AllocationLease)
        → E n api sv (release_lease api int32_seconds now d l s).1
    unfolding release_lease
    released none l = dropped l
    released (some (negsuc d)) l = dropped l
    released (some (pos zero)) l = dropped l
    released (some (pos (suc d))) l =
        let spec : LeaseSpec = record l.spec {
          owner_deletion_timestamp = some now;
          ttl_seconds = some (int32_seconds (suc d));
        } in
        elim (Bool-cases (same_ttl api int32_seconds now l.spec (int32_seconds (suc d)))) [
          | inl t ↦ rw t e
          | inr f ↦ rw f (elim (Result-cases (api.update_lease l spec s).0) [
            | inr (x, p) ↦ E-unchanged n api sv s _ e (sv.update_refused l spec s x p)
            | inl (u, p) ↦
                let (here, g, put) = sv.updated l spec s p in
                lease_put-E n api sv l spec s _ e here g put refl refl
          ])
        ]

    drop_lease-E :
        (lease : Option AllocationLease) → E n api sv (drop_lease api int32_seconds now c lease s).1
    unfolding drop_lease
    drop_lease-E none = e
    drop_lease-E (some l) = elim (Bool-cases (lease_owned_by_claim l c)) [
      | inr f ↦ rw f e
      | inl t ↦ rw t (released c.release_after l)
    ]

    -- The lease that was read is dropped, and then the finalizer.
    let_go-E :
        (lease : Option AllocationLease)
        → E n api sv
            ((drop_lease api int32_seconds now c lease >>= λ _. api.update_claim c false) s).1
    let_go-E lease =
        then-E (drop_lease api int32_seconds now c lease) (λ _. api.update_claim c false) s
          (drop_lease-E lease) (λ a t et. update_claim-E c false t et)

    read_lease-E :
        E n api sv
          ((asks (λ t. lease_of (api.cached_lease (lease_name_for c) t)) >>= λ lease.
              drop_lease api int32_seconds now c lease >>= λ _. api.update_claim c false)
            s).1
    unfolding lease_of ◌>>=◌ continue
    read_lease-E = elim (Result-cases (api.cached_lease (lease_name_for c) s)) [
      | inl (l, p) ↦ rw p (let_go-E (some l))
      | inr (not_found, p) ↦ rw p (let_go-E none)
      | inr (conflict, p) ↦ rw p e
      | inr (already_exists, p) ↦ rw p e
      | inr (other_failure, p) ↦ rw p e
    ]

    pub handle_deletion-E : E n api sv (handle_deletion api int32_seconds now c s).1
    unfolding handle_deletion
    handle_deletion-E =
        elim c.finalizer
          as (λ b.
            E n api sv
              ((if not b
                  then done {S = S} tt
                  else asks (λ t. lease_of (api.cached_lease (lease_name_for c) t)) >>= λ lease.
                      drop_lease api int32_seconds now c lease >>= λ _. api.update_claim c false)
                s).1) [ false ↦ e | true ↦ read_lease-E ]
