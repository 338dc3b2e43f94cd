-- ===== src/Alloc/Pools/Free.antt =====
-- What the scans of a pool find is free, for numbers and for addresses.
use Prim.Native.String.{String}
use text.Mathlib.Text.{◌==◌ as str_eq}
use juneau.Prelude.{
  Bool-cases, ap, ◌∙◌, ℕ, zero, suc, ◌+◌, ◌-◌, ◌%◌, ◌^◌, ◌≡◌, ◌≢◌, sym, inl, inr, false, Option,
  none, some, List, [], ◌∷◌, arith, All, Option-cases, Result, ok, >>=-eq-ok, ◌>>=◌, ok-injective,
  ℕ_discrete,
}
use juneau.Prelude.Dict.{Dict, lookup, insert, lookup-insert}
use juneau.Range.{Addr, next, addr_discrete}
use juneau.Range.Candidates.{
  parse_pool_candidates, PoolIpSpec, CandidateRange, Used, first_fit_candidate, scan, taken,
}
use juneau.Alloc.{AllocationClaim, AllocationPool, NumberSpec}
use juneau.Alloc.Pools.{
  Searched, found, exhausted, running, number_scan, number_in, searched, holder_error,
  allocate_number, allocate_ip, exclude, ip_in, narrow, or_refuse, as_refusal,
}
use juneau.Alloc.Used.{
  Reader, Netip, AllocError, collect_used, number_key, ip_key, no_number_spec, no_ip_spec,
  invalid_space,
}

number_scan-free :
    (fuel : ℕ) (used : Dict ℕ String) (c max n : ℕ)
    → number_scan fuel used c max ≡ found n
    → lookup ℕ_discrete n used ≡ none
unfolding number_scan
number_scan-free zero used c max n p = absurd (cc p)
number_scan-free (suc fuel) used c max n p =
    ground (arith, number_scan-free fuel used ((c + 1) % 2 ^ 64) max n)

searched-found : (s : Searched) (n : ℕ) → searched s ≡ ok n → s ≡ found n
unfolding searched
searched-found (found m) n p = cc p
searched-found exhausted n p = absurd (cc p)
searched-found running n p = absurd (cc p)

pub number_in-free :
    (spec : NumberSpec) (used : Dict ℕ String) (requested : Option ℕ) (n : ℕ)
    → number_in spec used requested ≡ ok n
    → lookup ℕ_discrete n used ≡ none
unfolding number_in holder_error
number_in-free spec used none n p =
    number_scan-free _ used spec.min spec.max n (searched-found _ n p)
number_in-free spec used (some r) n p = ground arith

scan-free :
    (fuel : ℕ) (used : Used) (a hi b : Addr) → scan fuel used a hi ≡ some b → taken used b ≡ false
unfolding scan
scan-free zero used a hi b p = absurd (cc p)
scan-free (suc fuel) used a hi b p = ground (arith, scan-free fuel used (next a) hi b)

first_fit-free :
    (cs : List CandidateRange) (used : Used) (b : Addr)
    → first_fit_candidate cs used ≡ some b
    → taken used b ≡ false
unfolding first_fit_candidate
first_fit-free [] used b p = absurd (cc p)
first_fit-free (c ∷ cs) used b p =
    let lo = c.allocatable.lo in
    let hi = c.allocatable.hi in
    ground (arith, scan-free (suc (hi.value - lo.value)) used lo hi b, first_fit-free cs used b)

not_taken : (used : Used) (b : Addr) → taken used b ≡ false → lookup addr_discrete b used ≡ none
unfolding taken
not_taken used b p = ground arith

pub ip_in-free :
    (n : Netip) (cs : List CandidateRange) (used : Used) (requested : Option String) (b : Addr)
    → ip_in n cs used requested ≡ ok b
    → lookup addr_discrete b used ≡ none
unfolding ip_in or_refuse holder_error
ip_in-free n cs used none b p = not_taken used b (first_fit-free cs used b (ground arith))
ip_in-free n cs used (some r) b p = ground arith

-- An address that is free with the excluded ones added is free, and is none of them.
pub exclude-free :
    (n : Netip) (raws : List String) (used : Used) (b : Addr)
    → lookup addr_discrete b (exclude n raws used) ≡ none
    → (lookup addr_discrete b used ≡ none) × All (λ raw. n.parse_addr raw ≢ some b) raws
unfolding exclude
exclude-free n [] used b p = (p, tt)
exclude-free n (raw ∷ raws) used b p = elim (Option-cases (n.parse_addr raw)) [
  | inl e ↦ let (h, hs) = exclude-free n raws used b (rw e at p) in (h, (λ q. cc (e, q), hs))
  | inr (a, e) ↦
      let (h, hs) = exclude-free n raws (insert addr_discrete a "excluded" used) b (rw e at p) in
      let l = lookup-insert addr_discrete b a "excluded" used in
      (ground arith, (λ q. ground arith, hs))
]

pub number_key-eq : (m k : ℕ) → number_key (record { number = m; ip = "" }) ≡ some k → m ≡ k
unfolding number_key
number_key-eq m k e = ground arith

pub ip_key-eq :
    (n : Netip) (a k : Addr) (ip : String)
    → (n.parse_addr (n.text a) ≡ some k → a ≡ k)
    → ip ≡ n.text a
    → ip_key n.parse_addr (record { number = 0; ip = ip }) ≡ some k
    → a ≡ k
unfolding ip_key
ip_key-eq n a k ip law t e = elim (Bool-cases (str_eq ip "")) [
  | inl y ↦ absurd (cc (rw y at e))
  | inr f ↦ law (ap n.parse_addr (sym t) ∙ rw f at e)
]

pub no_ip :
    (n : Netip) (m : ℕ) (k : Addr) → ip_key n.parse_addr (record { number = m; ip = "" }) ≢ some k
unfolding ip_key
no_ip n m k e = cc e

pub no_number : (ip : String) (k : ℕ) → number_key (record { number = 0; ip = ip }) ≢ some k
unfolding number_key
no_number ip k e = cc e

pub allocate_number-steps :
    (rd : Reader) (pool : AllocationPool) (claim : AllocationClaim) (self : String) (m : ℕ)
    → allocate_number rd pool claim self ≡ ok m
    → (spec : NumberSpec) × (used : Dict ℕ String) × (collect_used ℕ_discrete number_key rd
          pool.name claim.name self
        ≡ ok used)
      × (number_in spec used claim.requested_number ≡ ok m)
unfolding allocate_number or_refuse
allocate_number-steps rd pool claim self m p =
    let (spec, e, q) =
      >>=-eq-ok (or_refuse pool.number no_number_spec)
        (λ spec. collect_used ℕ_discrete number_key rd pool.name claim.name self >>= λ used.
          number_in spec used claim.requested_number)
        p in
    let (used, c, r) =
      >>=-eq-ok (collect_used ℕ_discrete number_key rd pool.name claim.name self)
        (λ used. number_in spec used claim.requested_number) q in
    (spec, used, c, r)

-- The raw excluded addresses, the candidates, the used addresses and the address handed out.
pub allocate_ip-steps :
    (n : Netip) (rd : Reader) (pool : AllocationPool) (claim : AllocationClaim) (self ip : String)
    → allocate_ip n rd pool claim self ≡ ok ip
    → (raws : List String) × (candidates : List CandidateRange) × (used : Used) × (a : Addr)
      × (collect_used addr_discrete (ip_key n.parse_addr) rd pool.name claim.name self ≡ ok used)
      × (ip_in n candidates (exclude n raws used) claim.requested_ip ≡ ok a)
      × (ip ≡ n.text a)
unfolding allocate_ip
allocate_ip-steps n rd pool claim self ip p =
    let collected = collect_used addr_discrete (ip_key n.parse_addr) rd pool.name claim.name self in
    let granted : PoolIpSpec → List CandidateRange → Used → Result AllocError Addr =
      λ spec cs used. ip_in n cs (exclude n spec.excluded used) claim.requested_ip in
    let narrowed : PoolIpSpec → List CandidateRange → Result AllocError String = λ spec space.
      narrow n claim.filter space >>= λ cs.
      collected >>= λ used. granted spec cs used >>= λ a. ok (n.text a) in
    let (spec, _, q) =
      >>=-eq-ok (or_refuse pool.ip no_ip_spec)
        (λ spec.
          as_refusal n invalid_space (parse_pool_candidates n.parse_prefix n.parse_addr spec)
          >>= narrowed spec)
        p in
    let (space, _, q1) =
      >>=-eq-ok
        (as_refusal n invalid_space (parse_pool_candidates n.parse_prefix n.parse_addr spec))
        (narrowed spec) q in
    let (cs, _, q2) =
      >>=-eq-ok (narrow n claim.filter space)
        (λ cs. collected >>= λ used. granted spec cs used >>= λ a. ok (n.text a)) q1 in
    let (used, c, q3) =
      >>=-eq-ok collected (λ used. granted spec cs used >>= λ a. ok (n.text a)) q2 in
    let (a, r, t) = >>=-eq-ok (granted spec cs used) (λ a. ok (n.text a)) q3 in
    (spec.excluded, cs, used, a, c, r, sym (ok-injective t))
