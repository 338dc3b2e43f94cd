-- ===== src/Alloc/Pools/Collected.antt =====
-- What `collectUsedNumbers` and `usedPoolIPs` collect.
use Prim.Native.String.{String, ◌++◌ as str_append}
use juneau.Prelude.{
  ◌≡◌, ◌≢◌, refl, inl, inr, Option, none, some, List, [], ◌∷◌, arith, Bool-cases, All, ok,
  ok-injective, Result-cases,
}
use juneau.Prelude.Dict.{Dict, lookup, insert, lookup-insert}
use juneau.Alloc.{AllocationValue, AllocationClaim, AllocationLease}
use juneau.Alloc.Used.{
  claims_used, leases_used, counted_claim, counted_lease, hold_claim, hold_new, hold_lease, Reader,
  collect_used, reading,
}
use juneau.Alloc.Pools.Rivals.{Clash, Rival, Reserved, Rival-counted, Reserved-counted}

module _ {K : Type 0} (dec : Discrete K) (key_of : AllocationValue → Option K)
    (pool self : String) where
  -- A key that is used stays used.
  insert_kept :
      (j k : K) (v : String) (m : Dict K String)
      → lookup dec k m ≢ none
      → lookup dec k (insert dec j v m) ≢ none
  insert_kept j k v m h e = ground (arith, lookup-insert dec k j v m)

  insert_used : (k : K) (v : String) (m : Dict K String) → lookup dec k (insert dec k v m) ≢ none
  insert_used k v m e = ground (arith, lookup-insert dec k k v m)

  hold_claim_kept :
      (o : Option K) (k : K) (v : String) (m : Dict K String)
      → lookup dec k m ≢ none
      → lookup dec k (hold_claim dec o v m) ≢ none
  unfolding hold_claim
  hold_claim_kept none k v m h = h
  hold_claim_kept (some j) k v m h = insert_kept j k v m h

  hold_new_kept :
      (o : Option String) (j k : K) (v : String) (m : Dict K String)
      → lookup dec k m ≢ none
      → lookup dec k (hold_new dec o j v m) ≢ none
  unfolding hold_new
  hold_new_kept none j k v m h = insert_kept j k v m h
  hold_new_kept (some x) j k v m h = h

  hold_lease_kept :
      (o : Option K) (k : K) (v : String) (m : Dict K String)
      → lookup dec k m ≢ none
      → lookup dec k (hold_lease dec o v m) ≢ none
  unfolding hold_lease
  hold_lease_kept none k v m h = h
  hold_lease_kept (some j) k v m h = hold_new_kept (lookup dec j m) j k v m h

  hold_new_used :
      (o : Option String) (k : K) (v : String) (m : Dict K String)
      → lookup dec k m ≡ o
      → lookup dec k (hold_new dec o k v m) ≢ none
  unfolding hold_new
  hold_new_used none k v m e = insert_used k v m
  hold_new_used (some x) k v m e = cc e

  claims_kept :
      (cs : List AllocationClaim) (k : K) (m : Dict K String)
      → lookup dec k m ≢ none
      → lookup dec k (claims_used dec key_of pool self cs m) ≢ none
  unfolding claims_used
  claims_kept [] k m h = h
  claims_kept (c ∷ cs) k m h = elim (Bool-cases (counted_claim pool self c)) [
    | inl y ↦ rw y (claims_kept cs k _ (hold_claim_kept (key_of c.status.value) k c.name m h))
    | inr n ↦ rw n (claims_kept cs k m h)
  ]

  leases_kept :
      (ls : List AllocationLease) (k : K) (m : Dict K String)
      → lookup dec k m ≢ none
      → lookup dec k (leases_used dec key_of pool self ls m) ≢ none
  unfolding leases_used
  leases_kept [] k m h = h
  leases_kept (l ∷ ls) k m h = elim (Bool-cases (counted_lease pool self l)) [
    | inl y ↦ rw y (
        leases_kept ls k _
          (hold_lease_kept (key_of l.spec.value) k (str_append "lease/" l.name) m h))
    | inr n ↦ rw n (leases_kept ls k m h)
  ]

  abbrev ClaimsIn : Dict K String → List AllocationClaim → Type 0
  ClaimsIn m =
      All
        (λ c. Rival pool self c → (k : K) → key_of c.status.value ≡ some k → lookup dec k m ≢ none)

  abbrev LeasesIn : Dict K String → List AllocationLease → Type 0
  LeasesIn m =
      All
        (λ l. Reserved pool self l → (k : K) → key_of l.spec.value ≡ some k → lookup dec k m ≢ none)

  claims_in :
      (cs : List AllocationClaim) (m : Dict K String)
      → ClaimsIn (claims_used dec key_of pool self cs m) cs
  unfolding claims_used hold_claim
  claims_in [] m = tt
  claims_in (c ∷ cs) m = (
    λ r k e. rw (Rival-counted pool self c r, e) (claims_kept cs k _ (insert_used k c.name m)),
    claims_in cs _,
  )

  leases_in :
      (ls : List AllocationLease) (m : Dict K String)
      → LeasesIn (leases_used dec key_of pool self ls m) ls
  unfolding leases_used hold_lease
  leases_in [] m = tt
  leases_in (l ∷ ls) m = (
    λ r k e.
        rw (Reserved-counted pool self l r, e)
          (leases_kept ls k _
            (hold_new_used (lookup dec k m) k (str_append "lease/" l.name) m refl)),
    leases_in ls _,
  )

  claims_free :
      (v : AllocationValue) (cs : List AllocationClaim) (m : Dict K String)
      → ((k : K) → key_of v ≡ some k → lookup dec k m ≡ none)
      → ClaimsIn m cs
      → All (λ c. Rival pool self c → ¬ Clash key_of c.status.value v) cs
  claims_free v [] m free h = tt
  claims_free v (c ∷ cs) m free (h, hs) =
      (λ r (k, p, q). h r k p (free k q), claims_free v cs m free hs)

  leases_free :
      (v : AllocationValue) (ls : List AllocationLease) (m : Dict K String)
      → ((k : K) → key_of v ≡ some k → lookup dec k m ≡ none)
      → LeasesIn m ls
      → All (λ l. Reserved pool self l → ¬ Clash key_of l.spec.value v) ls
  leases_free v [] m free h = tt
  leases_free v (l ∷ ls) m free (h, hs) =
      (λ r (k, p, q). h r k p (free k q), leases_free v ls m free hs)

module _ {K : Type 0} (dec : Discrete K) (key_of : AllocationValue → Option K) (pool : String) where
  -- No other claim that has been given a value, and may have it from the pool, and no lease of the
  -- pool but the one named `lease`, stands for the key of `v`.
  unfoldable pub Unheld :
      String → String → AllocationValue → List AllocationClaim → List AllocationLease → Type 0
  Unheld claim lease v cs ls =
      All (λ c. Rival pool claim c → ¬ Clash key_of c.status.value v) cs
      × All (λ l. Reserved pool lease l → ¬ Clash key_of l.spec.value v) ls

  -- A value that stands for no key clashes with nothing.
  pub Unheld-keyless :
      (claim lease : String) (v : AllocationValue)
      → ((k : K) → key_of v ≢ some k)
      → (cs : List AllocationClaim) (ls : List AllocationLease) → Unheld claim lease v cs ls
  unfolding Unheld
  Unheld-keyless claim lease v none_of [] [] = (tt, tt)
  Unheld-keyless claim lease v none_of [] (l ∷ ls) =
      let rest = Unheld-keyless claim lease v none_of [] ls in
      (tt, ((λ r (k, p, q). none_of k q), rest.1))
  Unheld-keyless claim lease v none_of (c ∷ cs) ls =
      let rest = Unheld-keyless claim lease v none_of cs ls in
      (((λ r (k, p, q). none_of k q), rest.0), rest.1)

  ClaimsIn-leases :
      (claim lease : String) (cs : List AllocationClaim) (ls : List AllocationLease)
      (m : Dict K String)
      → ClaimsIn dec key_of pool claim m cs
      → ClaimsIn dec key_of pool claim (leases_used dec key_of pool lease ls m) cs
  ClaimsIn-leases claim lease [] ls m h = tt
  ClaimsIn-leases claim lease (c ∷ cs) ls m (h, hs) = (
    λ r k e. leases_kept dec key_of pool lease ls k m (h r k e),
    ClaimsIn-leases claim lease cs ls m hs,
  )

  pub collect_used-Unheld :
      (rd : Reader) (claim lease : String) (used : Dict K String) (v : AllocationValue)
      (cs : List AllocationClaim) (ls : List AllocationLease)
      → rd.claims ≡ ok cs
      → rd.leases ≡ ok ls
      → collect_used dec key_of rd pool claim lease ≡ ok used
      → ((k : K) → key_of v ≡ some k → lookup dec k used ≡ none)
      → Unheld claim lease v cs ls
  unfolding collect_used Unheld
  collect_used-Unheld rd claim lease used v cs ls rc rl p free =
      let base = claims_used dec key_of pool claim cs [] in
      let e : leases_used dec key_of pool lease ls base ≡ used = ok-injective (rw (rc, rl) at p) in
      let free' : (k : K)
          → key_of v ≡ some k
          → lookup dec k (leases_used dec key_of pool lease ls base) ≡ none =
        λ k q. rw e (free k q) in
      (
        claims_free dec key_of pool claim v cs _ free'
            (ClaimsIn-leases claim lease cs ls base (claims_in dec key_of pool claim cs [])),
        leases_free dec key_of pool lease v ls _ free' (leases_in dec key_of pool lease ls base),
      )

  -- What is collected was read.
  pub collect_used-reads :
      (rd : Reader) (claim lease : String) (used : Dict K String)
      → collect_used dec key_of rd pool claim lease ≡ ok used
      → (cs : List AllocationClaim) × (ls : List AllocationLease) × (rd.claims ≡ ok cs)
        × (rd.leases ≡ ok ls)
  unfolding collect_used reading
  collect_used-reads rd claim lease used p = elim (Result-cases rd.claims) [
    | inr (e, c) ↦ absurd (cc (rw c at p))
    | inl (cs, c) ↦ elim (Result-cases rd.leases) [
      | inr (e, l) ↦ absurd (cc (rw (c, l) at p))
      | inl (ls, l) ↦ (cs, ls, c, l)
    ]
  ]
