-- ===== src/Alloc/Pools/Granted.antt =====
-- What it is for `allocate` to hand out a value, and that a fresh one is no one else's.
use Prim.Native.String.{String}
use text.Mathlib.Text.{◌==◌ as str_eq}
use text.Mathlib.TextEquality.{eq_iff}
use juneau.Prelude.{
  ℕ, ◌≡◌, ◌≢◌, subst, ◌⊎◌, inl, inr, false, none, some, List, Bool-cases, ok, err, ℕ_discrete,
}
use juneau.Prelude.Dict.{lookup}
use juneau.Range.{Addr, addr_discrete}
use juneau.Alloc.{
  AllocationValue, AllocationClaim, AllocationLease, AllocationPool, lease_name_for,
  lease_held_by_other_claim,
}
use juneau.Alloc.Pools.{allocate_number, allocate_ip, exclude}
use juneau.Alloc.Used.{Reader, Netip, not_found, AllocationResult, number_key, ip_key}
use juneau.Alloc.Pools.Collected.{Unheld, Unheld-keyless, collect_used-Unheld, collect_used-reads}
use juneau.Alloc.Pools.Rivals.{References}
use juneau.Alloc.Pools.Free.{
  number_key-eq, ip_key-eq, no_ip, no_number, allocate_number-steps, allocate_ip-steps,
  number_in-free, ip_in-free, exclude-free,
}

-- The claim holds the lease, or the holder has been deleted.
abbrev pub MayTake : AllocationClaim → AllocationLease → Type 0
MayTake claim lease =
    (lease.spec.claim_ref.name ≡ claim.name) ⊎ (lease.spec.owner_deletion_timestamp ≢ none)

pub not_held-MayTake :
    (claim : AllocationClaim) (lease : AllocationLease)
    → lease_held_by_other_claim lease claim ≡ false
    → MayTake claim lease
unfolding lease_held_by_other_claim
not_held-MayTake claim lease p = elim (Bool-cases (str_eq lease.spec.claim_ref.name claim.name)) [
  | inl e ↦ inl ((eq_iff lease.spec.claim_ref.name claim.name).0 e)
  | inr f ↦ inr (λ q. cc (rw (f, q) at p))
]

-- The lease that need not be heeded: the one of the claim's key, if the claim may take it; `""`
-- names none.
pub data Spared (rd : Reader) (claim : AllocationClaim) (self : String) : Type 0 where
  nothing : self ≡ "" → Spared rd claim self
  own :
      self ≡ lease_name_for claim
      → (rd.lease self ≡ err not_found)
        ⊎ ((held : AllocationLease) × (rd.lease self ≡ ok held) × MayTake claim held)
      → Spared rd claim self

module _ (n : Netip) (rd : Reader) (claim : AllocationClaim) where
  -- The claims and the leases were read, and neither the number nor the address is another's.
  unfoldable pub Granted : String → String → AllocationValue → Type 0
  Granted pool self v =
      (cs : List AllocationClaim) × (ls : List AllocationLease) × (rd.claims ≡ ok cs)
      × (rd.leases ≡ ok ls)
      × Unheld ℕ_discrete number_key pool claim.name self v cs ls
      × Unheld addr_discrete (ip_key n.parse_addr) pool claim.name self v cs ls

  -- A fresh value, from a pool that is read as the one of a name that the claim lists.
  unfoldable pub Fresh : String → AllocationResult → AllocationPool → Type 0
  Fresh self r pool =
      (ref : String) × References claim ref
      × (rd.pool ref ≡ ok pool)
      × Granted pool.name self r.value

  -- The value of a lease that the claim may take, from a pool that it lists.
  unfoldable pub Reused : AllocationResult → AllocationPool → Type 0
  Reused r pool =
      (held : AllocationLease) × (rd.lease (lease_name_for claim) ≡ ok held)
      × MayTake claim held
      × References claim held.spec.pool_ref
      × (rd.pool held.spec.pool_ref ≡ ok pool)
      × (r.value ≡ held.spec.value)

  unfoldable pub Given : AllocationResult → AllocationPool → Type 0
  Given r pool = Reused r pool ⊎ ((self : String) × Spared rd claim self × Fresh self r pool)

module _ (n : Netip) (reparsed : (a b : Addr) → n.parse_addr (n.text a) ≡ some b → a ≡ b)
    (rd : Reader) (claim : AllocationClaim) where
  pub allocate_number-Granted :
      (pool : AllocationPool) (self : String) (m : ℕ)
      → allocate_number rd pool claim self ≡ ok m
      → Granted n rd claim pool.name self (record { number = m; ip = "" })
  unfolding Granted
  allocate_number-Granted pool self m p =
      let (spec, used, c, r) = allocate_number-steps rd pool claim self m p in
      let (cs, ls, rc, rl) =
        collect_used-reads ℕ_discrete number_key pool.name rd claim.name self used c in
      let v : AllocationValue = record { number = m; ip = "" } in
      (
        cs,
        ls,
        rc,
        rl,
        collect_used-Unheld ℕ_discrete number_key pool.name rd claim.name self used v cs ls rc rl c
            (λ k e.
              subst (λ j. lookup ℕ_discrete j used ≡ none) (number_key-eq m k e)
                (number_in-free spec used claim.requested_number m r)),
        Unheld-keyless addr_discrete (ip_key n.parse_addr) pool.name claim.name self v (no_ip n m)
            cs ls,
      )

  pub allocate_ip-Granted :
      (pool : AllocationPool) (self : String) (ip : String)
      → allocate_ip n rd pool claim self ≡ ok ip
      → Granted n rd claim pool.name self (record { number = 0; ip = ip })
  unfolding Granted
  allocate_ip-Granted pool self ip p =
      let (raws, candidates, used, a, c, r, t) = allocate_ip-steps n rd pool claim self ip p in
      let (cs, ls, rc, rl) =
        collect_used-reads addr_discrete (ip_key n.parse_addr) pool.name rd claim.name self used
          c in
      let v : AllocationValue = record { number = 0; ip = ip } in
      (
        cs,
        ls,
        rc,
        rl,
        Unheld-keyless ℕ_discrete number_key pool.name claim.name self v (no_number ip) cs ls,
        collect_used-Unheld addr_discrete (ip_key n.parse_addr) pool.name rd claim.name self used v
            cs ls rc rl c
            (λ k e.
              subst (λ j. lookup addr_discrete j used ≡ none)
                (ip_key-eq n a k ip (reparsed a k) t e)
                (exclude-free n raws used a
                  (ip_in-free n candidates (exclude n raws used) claim.requested_ip a r)).0),
      )
