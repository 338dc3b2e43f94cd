-- ===== src/Alloc/Claims/Memory/Server.antt =====
-- An API server in memory. It refuses a nameless object, and an update that was not made from the
-- object that is stored. Its cache has not seen any lease.
use Prim.Native.String.{String}
use juneau.Prelude.{
  Bool, true, false, not, ◌&&◌, Option, none, some, List, ◌∷◌, Result, ok, err, ite,
}
use juneau.Prelude.Text.{string_discrete}
use juneau.Alloc.{AllocationClaim, AllocationLease, AllocationPool, claim_discrete, lease_discrete}
use juneau.Alloc.Used.{ApiError, not_found, conflict, already_exists, other_failure}
use juneau.Alloc.Api.{Api}
use juneau.Alloc.Exec.{Done}
use juneau.Alloc.Claims.Exclusive.{Objects}
use juneau.Alloc.Claims.Memory.Find.{find, remove, answered, visible}

pub record Cluster : Type 0 where
  pub claims : List AllocationClaim
  pub leases : List AllocationLease
  pub pools : List AllocationPool

abbrev pub Outcome : Type 0
Outcome = Result ApiError (Unit {0}) × Cluster

unfoldable pub claim_at : Cluster → Objects AllocationClaim
claim_at s = visible (find (λ c. c.name) s.claims)

unfoldable pub lease_at : Cluster → Objects AllocationLease
lease_at s = visible (find (λ l. l.name) s.leases)

unfoldable pub with_claims : Cluster → List AllocationClaim → Result ApiError (Unit {0}) × Cluster
with_claims s cs = (ok tt, record s { claims = cs })

unfoldable pub with_leases : Cluster → List AllocationLease → Result ApiError (Unit {0}) × Cluster
with_leases s ls = (ok tt, record s { leases = ls })

unfoldable pub refused_or :
    String → Cluster → Result ApiError (Unit {0}) × Cluster → Result ApiError (Unit {0}) × Cluster
refused_or k s r = ite (string_discrete k "") (err other_failure, s) r

unfoldable pub create : Option AllocationLease → AllocationLease → Done Cluster
create (some old) l s = (err already_exists, s)
create none l s = refused_or l.name s (with_leases s (l ∷ s.leases))

-- An update goes through only if its object is the one that is stored.
unfoldable pub unless_changed :
    {A : Type 0}
    → Discrete A
    → Option A
    → A
    → Cluster
    → Result ApiError (Unit {0}) × Cluster
    → Result ApiError (Unit {0}) × Cluster
unless_changed dec none x s r = (err not_found, s)
unless_changed dec (some y) x s r = ite (dec y x) r (err conflict, s)

unfoldable pub change_claim : Bool → AllocationClaim → Bool → Done Cluster
change_claim true c f s = with_claims s (remove (λ x. x.name) c.name s.claims)
change_claim false c f s =
    refused_or c.name s (with_claims s (record c { finalizer = f } ∷ s.claims))

unfoldable pub memory : Api Cluster
unfolding answered lease_at claim_at create refused_or unless_changed with_leases change_claim
    with_claims
memory = record {
  reader = λ s. record {
    lease = λ k. answered (lease_at s k);
    pool = λ k. answered (find (λ p. p.name) s.pools k);
    claims = ok s.claims;
    leases = ok s.leases;
  };
  read_claim = λ k s. answered (claim_at s k);
  cached_claim = λ k s. answered (claim_at s k);
  cached_lease = λ k s. err not_found;
  create_lease = λ l s. create (lease_at s l.name) l s;
  update_lease = λ l spec s.
      unless_changed lease_discrete (lease_at s l.name) l s
        (refused_or l.name s (with_leases s (record l { spec = spec } ∷ s.leases)));
  delete_lease = λ l s. with_leases s (remove (λ x. x.name) l.name s.leases);
  update_claim = λ c f s.
      unless_changed claim_discrete (claim_at s c.name) c s
        (change_claim (c.deleting && not f) c f s);
  update_claim_status = λ c st s.
      unless_changed claim_discrete (claim_at s c.name) c s
        (refused_or c.name s (with_claims s (record c { status = st } ∷ s.claims)));
  update_pool_status = λ p s. (ok tt, record s { pools = p ∷ s.pools });
  owner_exists = λ c s. true;
  retry_on_conflict = λ A f. f;
}
