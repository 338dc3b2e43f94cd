-- ===== src/Alloc/Claims/Laws.antt =====
-- What the API server of `Api` does: the calls that bypass the cache show what is stored; a read from
-- the cache may answer anything, an object that is long gone or changed included, but under the
-- name that was asked for; an update succeeds only if the object that it was made from is the one
-- that is stored (the check of the resource version); a write that fails changes nothing, and one
-- that succeeds changes its object only; a retried call runs again only after a conflict. Objects
-- are stored under their names, which are not empty.
use Prim.Native.String.{String}
use juneau.Prelude.{ℕ, ◌≡◌, ◌⊎◌, Bool, none, some, List, get_elem?, Result, ok, err}
use juneau.Alloc.{AllocationClaim, AllocationLease, AllocationPool, LeaseSpec, ClaimStatus}
use juneau.Alloc.Used.{ApiError, not_found, conflict}
use juneau.Alloc.Api.{Api}
use juneau.Alloc.Exec.{Exec}
use juneau.Alloc.Claims.Exclusive.{Objects, Agree, Put}

-- A call that runs again after each conflict, and how it ends.
pub data Runs {S A : Type 0} (f : Exec S A) : S → Result ApiError A × S → Type 0 where
  last : {s : S} {r : Result ApiError A × S} → f s ≡ r → Runs f s r
  again :
      {s : S} {r : Result ApiError A × S} → (f s).0 ≡ err conflict → Runs f (f s).1 r → Runs f s r

pub record Served {S : Type 0} (api : Api S) : Type 1 where
  pub claims : S → Objects AllocationClaim
  pub leases : S → Objects AllocationLease
  pub claim_read :
      (k : String) (s : S) (c : AllocationClaim) → api.read_claim k s ≡ ok c → claims s k ≡ some c
  pub claim_cached :
      (k : String) (s : S) (c : AllocationClaim) → api.cached_claim k s ≡ ok c → c.name ≡ k
  pub lease_read :
      (k : String) (s : S) (l : AllocationLease)
      → (api.reader s).lease k ≡ ok l
      → leases s k ≡ some l
  pub lease_cached :
      (k : String) (s : S) (l : AllocationLease) → api.cached_lease k s ≡ ok l → l.name ≡ k
  pub lease_missing :
      (k : String) (s : S) → (api.reader s).lease k ≡ err not_found → leases s k ≡ none
  pub claims_listed :
      (k : String) (s : S) (c : AllocationClaim) (cs : List AllocationClaim)
      → (api.reader s).claims ≡ ok cs
      → claims s k ≡ some c
      → (i : ℕ) × (get_elem? cs i ≡ some c)
  pub leases_listed :
      (k : String) (s : S) (l : AllocationLease) (ls : List AllocationLease)
      → (api.reader s).leases ≡ ok ls
      → leases s k ≡ some l
      → (i : ℕ) × (get_elem? ls i ≡ some l)
  pub pool_named :
      (k : String) (s : S) (p : AllocationPool) → (api.reader s).pool k ≡ ok p → p.name ≡ k
  pub claim_named : (k : String) (s : S) (c : AllocationClaim) → claims s k ≡ some c → c.name ≡ k
  pub lease_named : (k : String) (s : S) (l : AllocationLease) → leases s k ≡ some l → l.name ≡ k
  pub lease_nameless : (s : S) → leases s "" ≡ none
  pub create_refused :
      (l : AllocationLease) (s : S) (e : ApiError)
      → (api.create_lease l s).0 ≡ err e
      → Agree (claims s) (claims (api.create_lease l s).1)
        × Agree (leases s) (leases (api.create_lease l s).1)
  pub created :
      (l : AllocationLease) (s : S)
      → (api.create_lease l s).0 ≡ ok tt
      → Agree (claims s) (claims (api.create_lease l s).1)
        × (uid : String) × Put l.name
            (some (record l { uid = uid }))
            (leases s)
            (leases (api.create_lease l s).1)
  pub update_refused :
      (l : AllocationLease) (spec : LeaseSpec) (s : S) (e : ApiError)
      → (api.update_lease l spec s).0 ≡ err e
      → Agree (claims s) (claims (api.update_lease l spec s).1)
        × Agree (leases s) (leases (api.update_lease l spec s).1)
  pub updated :
      (l : AllocationLease) (spec : LeaseSpec) (s : S)
      → (api.update_lease l spec s).0 ≡ ok tt
      → (leases s l.name ≡ some l)
        × Agree (claims s) (claims (api.update_lease l spec s).1)
        × Put l.name
            (some (record l { spec = spec }))
            (leases s)
            (leases (api.update_lease l spec s).1)
  pub delete_refused :
      (l : AllocationLease) (s : S) (e : ApiError)
      → (api.delete_lease l s).0 ≡ err e
      → Agree (claims s) (claims (api.delete_lease l s).1)
        × Agree (leases s) (leases (api.delete_lease l s).1)
  pub deleted :
      (l : AllocationLease) (s : S)
      → (api.delete_lease l s).0 ≡ ok tt
      → Agree (claims s) (claims (api.delete_lease l s).1)
        × Put l.name none (leases s) (leases (api.delete_lease l s).1)
  pub claim_refused :
      (c : AllocationClaim) (f : Bool) (s : S) (e : ApiError)
      → (api.update_claim c f s).0 ≡ err e
      → Agree (claims s) (claims (api.update_claim c f s).1)
        × Agree (leases s) (leases (api.update_claim c f s).1)
  -- A claim that is being deleted goes with its last finalizer.
  pub claim_updated :
      (c : AllocationClaim) (f : Bool) (s : S)
      → (api.update_claim c f s).0 ≡ ok tt
      → (claims s c.name ≡ some c)
        × Agree (leases s) (leases (api.update_claim c f s).1)
        × (Put c.name none (claims s) (claims (api.update_claim c f s).1)
            ⊎ Put c.name
                (some (record c { finalizer = f }))
                (claims s)
                (claims (api.update_claim c f s).1))
  pub status_refused :
      (c : AllocationClaim) (st : ClaimStatus) (s : S) (e : ApiError)
      → (api.update_claim_status c st s).0 ≡ err e
      → Agree (claims s) (claims (api.update_claim_status c st s).1)
        × Agree (leases s) (leases (api.update_claim_status c st s).1)
  pub status_updated :
      (c : AllocationClaim) (st : ClaimStatus) (s : S)
      → (api.update_claim_status c st s).0 ≡ ok tt
      → (claims s c.name ≡ some c)
        × Put c.name
            (some (record c { status = st }))
            (claims s)
            (claims (api.update_claim_status c st s).1)
        × Agree (leases s) (leases (api.update_claim_status c st s).1)
  pub pool_updated :
      (p : AllocationPool) (s : S)
      → Agree (claims s) (claims (api.update_pool_status p s).1)
        × Agree (leases s) (leases (api.update_pool_status p s).1)
  pub retried : (A : Type 0) (f : Exec S A) (s : S) → Runs f s (api.retry_on_conflict A f s)
