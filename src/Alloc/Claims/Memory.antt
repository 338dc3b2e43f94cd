-- ===== src/Alloc/Claims/Memory.antt =====
-- An API server in memory meets the laws of `Served`; a retried call runs once.
pub mod Find
pub mod Server
pub mod Calls
use Prim.Native.String.{String}
use juneau.Prelude.{
  ℕ, suc, ◌≡◌, ◌≢◌, refl, sym, ap, ◌∙◌, ◌⊎◌, inl, inr, Bool, true, false, not, ◌&&◌, Option, none,
  some, List, [], ◌∷◌, Result, ok, err, subst, ok-injective, ite, if_pos, if_neg, get_elem?, All,
  All-get_elem?, arith,
}
use juneau.Prelude.Text.{string_discrete}
use juneau.Alloc.{
  AllocationClaim, AllocationLease, AllocationPool, allocated, claim_discrete, lease_discrete,
}
use juneau.Alloc.Used.{ApiError, not_found, already_exists, other_failure, Netip}
use juneau.Alloc.Api.{Api}
use juneau.Alloc.Exec.{Done}
use juneau.Alloc.Claims.Exclusive.{Objects, Agree, Put, Exclusive}
use juneau.Alloc.Claims.Laws.{Served, last}
use juneau.Alloc.Claims.Memory.Find.{
  find, remove, find_named, find_listed, find-remove, answered, answered-ok, answered-none, visible,
  visible-some, visible-nameless, visible-Put,
}
use juneau.Alloc.Claims.Memory.Server.{Cluster, claim_at, lease_at, with_leases, memory, Outcome}
use juneau.Alloc.Claims.Memory.Calls.{
  refused-same, lease-put, claim-put, create_refused-same, create-put, unless_changed-ok,
  unless_changed-same, change-refused, change-put,
}

pub memory_served : Served memory
unfolding memory claim_at lease_at with_leases
memory_served = record {
  claims = claim_at;
  leases = lease_at;
  claim_read = λ k s c. answered-ok (claim_at s k) c;
  claim_cached = λ k s c p.
      find_named (λ x. x.name) s.claims k c (visible-some _ k c (answered-ok (claim_at s k) c p));
  lease_read = λ k s l. answered-ok (lease_at s k) l;
  lease_cached = λ k s l p. absurd (cc p);
  lease_missing = λ k s. answered-none (lease_at s k);
  claims_listed = λ k s c cs p q.
      let (i, r) = find_listed (λ x. x.name) s.claims k c (visible-some _ k c q) in
      (i, ap (λ (l : List AllocationClaim). get_elem? l i) (sym (ok-injective p)) ∙ r);
  leases_listed = λ k s c cs p q.
      let (i, r) = find_listed (λ x. x.name) s.leases k c (visible-some _ k c q) in
      (i, ap (λ (l : List AllocationLease). get_elem? l i) (sym (ok-injective p)) ∙ r);
  pool_named = λ k s p q. find_named (λ x. x.name) s.pools k p (answered-ok _ p q);
  claim_named = λ k s c p. find_named (λ x. x.name) s.claims k c (visible-some _ k c p);
  lease_named = λ k s l p. find_named (λ x. x.name) s.leases k l (visible-some _ k l p);
  lease_nameless = λ s. visible-nameless (find (λ l. l.name) s.leases);
  create_refused = λ l s x. create_refused-same l s (lease_at s l.name) x;
  created = λ l s. create-put l s (lease_at s l.name);
  update_refused = λ l spec s x.
      unless_changed-same lease_discrete (lease_at s l.name) l s _ x
        (refused-same l.name s (record s { leases = record l { spec = spec } ∷ s.leases }) x);
  updated = λ l spec s p.
      let (here, same) = unless_changed-ok lease_discrete (lease_at s l.name) l s _ p in
      let (f, put) =
        lease-put (record l { spec = spec }) s (ap (λ (r : Outcome). r.0) (sym same) ∙ p) in
      let (first, second) =
        subst
          (λ (r : Outcome).
            Agree (claim_at s) (claim_at r.1)
            × Put l.name (some (record l { spec = spec })) (lease_at s) (lease_at r.1))
          (sym same) (f, put) in
      (here, first, second);
  delete_refused = λ l s x p. absurd (cc p);
  deleted = λ l s p. (
    (λ m. refl),
    visible-Put l.name none (find (λ x. x.name) s.leases) _ (inr refl)
        (find-remove (λ x. x.name) l.name s.leases),
  );
  claim_refused = λ c f s x.
      unless_changed-same claim_discrete (claim_at s c.name) c s _ x
        (change-refused c f s (c.deleting && not f) x);
  claim_updated = λ c f s p.
      let (here, same) = unless_changed-ok claim_discrete (claim_at s c.name) c s _ p in
      let (g, put) =
        change-put c f s (c.deleting && not f) (ap (λ (r : Outcome). r.0) (sym same) ∙ p) in
      let (first, second) =
        subst
          (λ (r : Outcome).
            Agree (lease_at s) (lease_at r.1)
            × (Put c.name none (claim_at s) (claim_at r.1)
                ⊎ Put c.name (some (record c { finalizer = f })) (claim_at s) (claim_at r.1)))
          (sym same) (g, put) in
      (here, first, second);
  status_refused = λ c st s x.
      unless_changed-same claim_discrete (claim_at s c.name) c s _ x
        (refused-same c.name s (record s { claims = record c { status = st } ∷ s.claims }) x);
  status_updated = λ c st s p.
      let (here, same) = unless_changed-ok claim_discrete (claim_at s c.name) c s _ p in
      let (put, g) =
        claim-put (record c { status = st }) s (ap (λ (r : Outcome). r.0) (sym same) ∙ p) in
      let (first, second) =
        subst
          (λ (r : Outcome).
            Put c.name (some (record c { status = st })) (claim_at s) (claim_at r.1)
            × Agree (lease_at s) (lease_at r.1))
          (sym same) (put, g) in
      (here, first, second);
  pool_updated = λ p s. ((λ m. refl), (λ m. refl));
  retried = λ A f s. last refl;
}

not_given :
    (cs : List AllocationClaim) (k : String) (c : AllocationClaim)
    → All (λ x. x.status.phase ≢ allocated) cs
    → find (λ x. x.name) cs k ≡ some c
    → c.status.phase ≢ allocated
not_given cs k c h p =
    let (i, q) = find_listed (λ x. x.name) cs k c p in
    All-get_elem? (λ (x : AllocationClaim). x.status.phase ≢ allocated) cs i c h q

-- Where no claim has been given a value and no lease is there, nothing is shared.
pub starting-Exclusive :
    (n : Netip) (s : Cluster)
    → s.leases ≡ []
    → All (λ c. c.status.phase ≢ allocated) s.claims
    → Exclusive n (memory_served.claims s) (memory_served.leases s)
unfolding memory_served claim_at lease_at find
starting-Exclusive n s e h =
    let no_lease : (k : String) (l : AllocationLease) → lease_at s k ≢ some l = λ k l p. absurd (
      cc (
        ap (λ (ls : List AllocationLease). find (λ x. x.name) ls k) (sym e)
        ∙ visible-some (find (λ x. x.name) s.leases) k l p)) in
    record {
      leases_apart = λ a b l m p. absurd (no_lease a l p);
      backed = λ a k p c l q live r. absurd (no_lease k l r);
      claims_apart = λ a b p c d q r ne live.
          absurd (
            not_given s.claims a c h (visible-some (find (λ x. x.name) s.claims) a c q) live.given);
    }
