-- ===== src/Alloc/Pools/Given.antt =====
-- What `allocate` hands out.
use Prim.Native.String.{String}
use text.Mathlib.Text.{◌==◌ as str_eq}
use juneau.Prelude.{
  ℕ, suc, ◌≡◌, refl, subst, ◌∙◌, ap, ◌⊎◌, inl, inr, Option, none, some, List, [], ◌∷◌, arith,
  Bool-cases, Option-cases, Result, ok, err, Result-cases, >>=-eq-ok, ◌>>=◌, ok-injective, any,
  get_elem?, if◌then◌else◌,
}
use juneau.Range.{Addr}
use juneau.Alloc.{
  AllocationClaim, AllocationLease, AllocationPool, PoolType, number_pool, ip_pool, other_pool,
  lease_name_for, lease_held_by_other_claim, claim_references_pool,
}
use juneau.Alloc.Pools.{
  allocate_number, allocate_ip, allocate_in, or_next, allocate_from, reuse_lease, reused_or,
  allocate_holding, allocate,
}
use juneau.Alloc.Used.{
  Reader, Netip, ApiError, not_found, conflict, already_exists, other_failure, AllocError,
  AllocationResult, get_lease,
}
use juneau.Alloc.Pools.Rivals.{References, any-get}
use juneau.Alloc.Pools.Granted.{
  MayTake, not_held-MayTake, Spared, nothing, own, Granted, Fresh, Reused, Given,
  allocate_number-Granted, allocate_ip-Granted,
}

get_lease-some :
    (answer : Result ApiError AllocationLease) (held : AllocationLease)
    → get_lease answer ≡ ok (some held)
    → answer ≡ ok held
unfolding get_lease
get_lease-some (ok lease) held p = cc p
get_lease-some (err not_found) held p = absurd (cc p)
get_lease-some (err conflict) held p = absurd (cc p)
get_lease-some (err already_exists) held p = absurd (cc p)
get_lease-some (err other_failure) held p = absurd (cc p)

get_lease-none :
    (answer : Result ApiError AllocationLease) → get_lease answer ≡ ok none → answer ≡ err not_found
unfolding get_lease
get_lease-none (ok lease) p = absurd (cc p)
get_lease-none (err not_found) p = refl
get_lease-none (err conflict) p = absurd (cc p)
get_lease-none (err already_exists) p = absurd (cc p)
get_lease-none (err other_failure) p = absurd (cc p)

module _ (n : Netip) (reparsed : (a b : Addr) → n.parse_addr (n.text a) ≡ some b → a ≡ b)
    (rd : Reader) (claim : AllocationClaim) where
  allocate_in-Granted :
      (type : PoolType) (pool : AllocationPool) (self : String) (r : AllocationResult)
      → allocate_in n type rd pool claim self ≡ ok r
      → Granted n rd claim pool.name self r.value
  unfolding allocate_in
  allocate_in-Granted number_pool pool self r p =
      let (m, q, e) =
        >>=-eq-ok (allocate_number rd pool claim self)
          (λ m. ok (record { pool_name = pool.name; value = record { number = m; ip = "" } })) p in
      subst (λ (x : AllocationResult). Granted n rd claim pool.name self x.value) (ok-injective e)
        (allocate_number-Granted n reparsed rd claim pool self m q)
  allocate_in-Granted ip_pool pool self r p =
      let (ip, q, e) =
        >>=-eq-ok (allocate_ip n rd pool claim self)
          (λ ip. ok (record { pool_name = pool.name; value = record { number = 0; ip = ip } })) p in
      subst (λ (x : AllocationResult). Granted n rd claim pool.name self x.value) (ok-injective e)
        (allocate_ip-Granted n reparsed rd claim pool self ip q)
  allocate_in-Granted other_pool pool self r p = absurd (cc p)

  or_next-ok :
      (pool : AllocationPool) (here : Result AllocError AllocationResult)
      (rest : Result AllocError (AllocationResult × AllocationPool)) (r : AllocationResult)
      (q : AllocationPool)
      → or_next n pool here rest ≡ ok (r, q)
      → ((here ≡ ok r) × (pool ≡ q)) ⊎ (rest ≡ ok (r, q))
  unfolding or_next
  or_next-ok pool here rest r q p = ground arith

  allocate_from-Fresh :
      (self : String) (refs : List String) (missing : String) (r : AllocationResult)
      (pool : AllocationPool)
      → ((i : ℕ) (ref : String) → get_elem? refs i ≡ some ref → References claim ref)
      → allocate_from n rd claim self refs missing ≡ ok (r, pool)
      → Fresh n rd claim self r pool
  unfolding allocate_from Fresh
  allocate_from-Fresh self [] missing r pool listed p = absurd (cc p)
  allocate_from-Fresh self (ref ∷ refs) missing r pool listed p =
      let later = λ (i : ℕ) (x : String). listed (suc i) x in
      elim (Result-cases (rd.pool ref)) [
        | inl (here, e) ↦
            elim (or_next-ok here (allocate_in n here.type rd here claim self)
              (allocate_from n rd claim self refs missing) r pool (rw (e, allocate_from) at p)) [
                | inl (got, same) ↦ (
                  ref,
                  listed 0 ref refl,
                  e ∙ ap ok same,
                  subst (λ (x : AllocationPool). Granted n rd claim x.name self r.value) same
                      (allocate_in-Granted here.type here self r got),
                )
                | inr q ↦ allocate_from-Fresh self refs missing r pool later q
              ]
        | inr (not_found, e) ↦
            allocate_from-Fresh self refs (if str_eq missing "" then ref else missing) r pool later
              (rw (e, allocate_from) at p)
        | inr (conflict, e) ↦ absurd (cc (rw (e, allocate_from) at p))
        | inr (already_exists, e) ↦ absurd (cc (rw (e, allocate_from) at p))
        | inr (other_failure, e) ↦ absurd (cc (rw (e, allocate_from) at p))
      ]

  reuse_lease-Reused :
      (held : AllocationLease) (r : AllocationResult) (pool : AllocationPool)
      → rd.lease (lease_name_for claim) ≡ ok held
      → MayTake claim held
      → reuse_lease n rd claim held ≡ ok (some (r, pool))
      → Reused n rd claim r pool
  unfolding reuse_lease Reused claim_references_pool
  reuse_lease-Reused held r pool found_it may p =
      elim (Bool-cases (any (λ ref. str_eq ref held.spec.pool_ref) claim.pool_refs)) [
        | inr f ↦ absurd (cc (rw f at p))
        | inl t ↦ elim (Result-cases (rd.pool held.spec.pool_ref)) [
          | inl (q, e) ↦
              let same = rw (t, e) at p in
              (
                held,
                found_it,
                may,
                any-get claim.pool_refs held.spec.pool_ref t,
                e ∙ cc same,
                cc same,
              )
          | inr (not_found, e) ↦ absurd (cc (rw (t, e) at p))
          | inr (conflict, e) ↦ absurd (cc (rw (t, e) at p))
          | inr (already_exists, e) ↦ absurd (cc (rw (t, e) at p))
          | inr (other_failure, e) ↦ absurd (cc (rw (t, e) at p))
        ]
      ]

  fresh_or :
      (self : String) (r : AllocationResult) (pool : AllocationPool)
      → Spared rd claim self
      → allocate_from n rd claim self claim.pool_refs "" ≡ ok (r, pool)
      → Given n rd claim r pool
  unfolding Given
  fresh_or self r pool spared p =
      inr (self, spared, allocate_from-Fresh self claim.pool_refs "" r pool (λ i ref e. (i, e)) p)

  reused_or_fresh :
      (held : AllocationLease) (r : AllocationResult) (pool : AllocationPool)
      → rd.lease (lease_name_for claim) ≡ ok held
      → MayTake claim held
      → (reuse_lease n rd claim held >>= λ reused.
          reused_or n reused (allocate_from n rd claim (lease_name_for claim) claim.pool_refs ""))
        ≡ ok (r, pool)
      → Given n rd claim r pool
  unfolding Given reused_or
  reused_or_fresh held r pool found_it may p =
      let rest = allocate_from n rd claim (lease_name_for claim) claim.pool_refs "" in
      let (reused, q, e) =
        >>=-eq-ok (reuse_lease n rd claim held) (λ reused. reused_or n reused rest) p in
      elim (Option-cases reused) [
        | inl o ↦
            fresh_or (lease_name_for claim) r pool (own refl (inr (held, found_it, may)))
              (rw o at e)
        | inr ((r', pool'), o) ↦
            let same = rw o at e in
            inl (
              reuse_lease-Reused held r pool found_it may
                (q ∙ ap ok (o ∙ ap some (ok-injective same))))
      ]

  allocate_holding-Given :
      (held : Option AllocationLease) (r : AllocationResult) (pool : AllocationPool)
      → get_lease (rd.lease (lease_name_for claim)) ≡ ok held
      → allocate_holding n rd claim held ≡ ok (r, pool)
      → Given n rd claim r pool
  unfolding allocate_holding get_lease
  allocate_holding-Given none r pool h p =
      fresh_or (lease_name_for claim) r pool (own refl (inl (get_lease-none _ h))) p
  allocate_holding-Given (some held) r pool h p =
      elim (Bool-cases (lease_held_by_other_claim held claim)) [
        | inl t ↦ fresh_or "" r pool (nothing refl) (rw t at p)
        | inr f ↦
            let found_it = get_lease-some (rd.lease (lease_name_for claim)) held h in
            let may = not_held-MayTake claim held f in
            reused_or_fresh held r pool found_it may (rw f at p)
      ]

  -- If an address's text parses, then to that address, what `allocate` gives a claim is one of two.
  -- Either it is the value of the lease of the claim's key, which the claim holds or whose holder has
  -- been deleted, and whose pool the claim lists. Or it is fresh in a pool that the claim lists: no
  -- other allocated claim that lists the pool has its number or its address, and no lease of the pool
  -- reserves it, save perhaps that one lease if the claim may take it.
  pub allocate-Given :
      (r : AllocationResult) (pool : AllocationPool)
      → allocate n rd claim ≡ ok (r, pool)
      → Given n rd claim r pool
  unfolding allocate
  allocate-Given r pool p =
      let (held, h, q) =
        >>=-eq-ok (get_lease (rd.lease (lease_name_for claim))) (allocate_holding n rd claim) p in
      allocate_holding-Given held r pool h q
