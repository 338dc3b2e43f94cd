-- ===== src/Alloc/Claims/Fit.antt =====
-- A value that `allocate` hands out fits what is stored: it may be written to the lease and to the
-- status of the claim.
use Prim.Native.String.{String}
use juneau.Prelude.{
  ◌≡◌, ◌≢◌, sym, ap, subst, ◌∙◌, inl, inr, some, [], ◌∷◌, All-get_elem?, get_elem?, zero, suc, ℕ,
  List,
}
use juneau.Alloc.{AllocationValue, AllocationClaim, AllocationLease, AllocationPool, lease_name_for}
use juneau.Alloc.Used.{Netip, AllocationResult, number_key, ip_key}
use juneau.Alloc.Pools.Collected.{Unheld}
use juneau.Alloc.Pools.Rivals.{Rival, Reserved, Clash, References}
use juneau.Alloc.Pools.Granted.{Given, Fresh, Reused, Granted, Spared, nothing, own}
use juneau.Alloc.Api.{Api}
use juneau.Alloc.Claims.Exclusive.{Exclusive, Same, Same-sym, Live}
use juneau.Alloc.Claims.Laws.{Served}

module _ (n : Netip) {S : Type 0} (api : Api S) (sv : Served api) where
  -- No lease of the pool reserves the value but that of the claim's key, and no claim of the pool has
  -- it but those of that key.
  pub record Fit (s : S) (c : AllocationClaim) (r : AllocationResult) (pool : AllocationPool)
      : Type 0 where
    pub stored : sv.claims s c.name ≡ some c
    pub apart :
        (b : String) (m : AllocationLease)
        → sv.leases s b ≡ some m
        → b ≢ lease_name_for c
        → m.spec.pool_ref ≡ pool.name
        → ¬ Same n m.spec.value r.value
    pub rivals :
        (a : String) (d : AllocationClaim)
        → sv.claims s a ≡ some d
        → lease_name_for d ≢ lease_name_for c
        → Live pool.name d
        → ¬ Same n d.status.value r.value
    pub listed : (p : String) → c.pool_refs ≡ p ∷ [] → pool.name ≡ p

  only : (c : AllocationClaim) (ref p : String) → References c ref → c.pool_refs ≡ p ∷ [] → ref ≡ p
  only c ref p (i, q) e = at_most i (ap (λ (l : List String). get_elem? l i) (sym e) ∙ q)
    where
      at_most : (i : ℕ) → get_elem? (p ∷ []) i ≡ some ref → ref ≡ p
      at_most zero q = cc q
      at_most (suc i) q = absurd (cc q)

  module _ (s : S) (c : AllocationClaim) (r : AllocationResult) (pool : AllocationPool)
      (e : Exclusive n (sv.claims s) (sv.leases s)) (here : sv.claims s c.name ≡ some c) where
    Reused-Fit : Reused n (api.reader s) c r pool → Fit s c r pool
    unfolding Reused
    Reused-Fit (held, read, may, refs, got, eq) =
        let mine = sv.lease_read (lease_name_for c) s held read in
        let pooled = sv.pool_named held.spec.pool_ref s pool got in
        record {
          stored = here;
          apart = λ b m p ne q same.
              e.leases_apart b (lease_name_for c) m held p mine ne (q ∙ pooled)
                (subst (λ (v : AllocationValue). Same n m.spec.value v) eq same);
          rivals = λ a d p ne live same. ne (
              sym (
                e.backed a (lease_name_for c) pool.name d held p live mine (sym pooled) (
                  Same-sym n d.status.value held.spec.value
                    (subst (λ (v : AllocationValue). Same n d.status.value v) eq same))));
          listed = λ p q. pooled ∙ only c held.spec.pool_ref p refs q;
        }

    not-Same :
        (v w : AllocationValue)
        → ¬ Clash number_key v w
        → ¬ Clash (ip_key n.parse_addr) v w
        → ¬ Same n v w
    unfolding Same
    not-Same v w f g (inl x) = f x
    not-Same v w f g (inr x) = g x

    Granted-lease :
        (self : String)
        → Granted n (api.reader s) c pool.name self r.value
        → (b : String) (m : AllocationLease) → sv.leases s b ≡ some m
        → Reserved pool.name self m
        → ¬ Same n m.spec.value r.value
    unfolding Granted Unheld
    Granted-lease self (cs, ls, rc, rl, (u1, v1), (u2, v2)) b m p res =
        let (i, at) = sv.leases_listed b s m ls rl p in
        not-Same m.spec.value r.value
          (All-get_elem? (λ l. Reserved pool.name self l → ¬ Clash number_key l.spec.value r.value)
            ls i m v1 at res)
          (All-get_elem?
            (λ l. Reserved pool.name self l → ¬ Clash (ip_key n.parse_addr) l.spec.value r.value) ls
            i m v2 at res)

    Granted-claim :
        (self : String)
        → Granted n (api.reader s) c pool.name self r.value
        → (a : String) (d : AllocationClaim) → sv.claims s a ≡ some d
        → Rival pool.name c.name d
        → ¬ Same n d.status.value r.value
    unfolding Granted Unheld
    Granted-claim self (cs, ls, rc, rl, (u1, v1), (u2, v2)) a d p riv =
        let (i, at) = sv.claims_listed a s d cs rc p in
        not-Same d.status.value r.value
          (All-get_elem? (λ x. Rival pool.name c.name x → ¬ Clash number_key x.status.value r.value)
            cs i d u1 at riv)
          (All-get_elem?
            (λ x. Rival pool.name c.name x → ¬ Clash (ip_key n.parse_addr) x.status.value r.value)
            cs i d u2 at riv)

    not_self :
        (self b : String) (m : AllocationLease)
        → Spared (api.reader s) c self
        → sv.leases s b ≡ some m
        → b ≢ lease_name_for c
        → m.name ≢ self
    not_self self b m (nothing q) p ne x =
        absurd
          (cc (p, sv.lease_nameless s, ap (sv.leases s) (sym (sv.lease_named b s m p) ∙ x ∙ q)))
    not_self self b m (own q h) p ne x = ne (sym (sv.lease_named b s m p) ∙ x ∙ q)

    -- A stored claim of this name is this claim.
    named_once :
        (a : String) (d : AllocationClaim) → sv.claims s a ≡ some d → d.name ≡ c.name → d ≡ c
    named_once a d p x =
        let there : sv.claims s c.name ≡ some d =
          ap (sv.claims s) (sym x ∙ sv.claim_named a s d p) ∙ p in
        cc (there, here)

    Fresh-Fit :
        (self : String)
        → Spared (api.reader s) c self
        → Fresh n (api.reader s) c self r pool
        → Fit s c r pool
    unfolding Fresh
    Fresh-Fit self spared (ref, refs, got, granted) =
        let pooled = sv.pool_named ref s pool got in
        record {
          stored = here;
          apart = λ b m p ne q.
              Granted-lease self granted b m p
                (record { other = not_self self b m spared p ne; of_pool = q });
          rivals = λ a d p ne live. Granted-claim self granted a d p (record {
            other = λ x. ne (ap lease_name_for (named_once a d p x));
            referenced = (0, ap (λ (l : List String). get_elem? l 0) live.one_pool);
            given = live.given;
          });
          listed = λ p q. pooled ∙ only c ref p refs q;
        }

    pub Given-Fit : Given n (api.reader s) c r pool → Fit s c r pool
    unfolding Given
    Given-Fit (inl reused) = Reused-Fit reused
    Given-Fit (inr (self, spared, fresh)) = Fresh-Fit self spared fresh
