-- ===== src/Alloc/Pools.antt =====
-- The allocator of controller/internal/controller/allocationclaim_controller.go: `allocate` and what
-- it calls, over what Used reads.
pub mod Rivals
pub mod Collected
pub mod Free
pub mod Given
pub mod Granted
pub mod Lowest
pub mod Reuse
use Prim.Native.String.{String}
use Prim.Native.Nat.{◌%◌}
use text.Mathlib.Text.{◌==◌ as str_eq}
use juneau.Prelude.{
  ℕ, zero, suc, ◌+◌, ◌-◌, ◌^◌, Bool, true, false, not, ◌&&◌, ◌||◌, Option, none, some, List, [],
  ◌∷◌, leb, ltb, ◌==◌, if◌then◌else◌, Result, ok, err, ◌>>=◌, ℕ_discrete,
}
use juneau.Prelude.Dict.{Dict, lookup, insert}
use juneau.Range.{Addr, addr_discrete, Prefix}
use juneau.Range.Candidates.{
  PoolIpSpec, RangeError, CandidateRange, Used, parse_pool_candidates, parse_prefix_candidates,
  intersect_candidates, candidates_contain, first_fit_candidate,
}
use juneau.Alloc.{
  AllocationValue, AllocationClaim, AllocationLease, AllocationPool, NumberSpec, PoolType,
  number_pool, ip_pool, other_pool, lease_name_for, lease_held_by_other_claim,
  claim_references_pool, is_allocated,
}
use juneau.Alloc.Used.{
  ApiError, not_found, conflict, already_exists, other_failure, Reader, Netip, AllocError,
  all_pools_exhausted, searching, unsupported_type, no_number_spec, no_ip_spec, outside_pool,
  bad_address, pool_not_found, taken_by, read_failed, invalid_space, invalid_filter,
  AllocationResult, reading, get_lease, counted_claim, counted_lease, hold_claim, hold_new,
  hold_lease, claims_used, leases_used, number_key, ip_key, collect_used,
}

pub data Searched : Type 0 where
  found : ℕ → Searched
  exhausted running : Searched

unfoldable pub holder_error : Option String → Result AllocError (Unit {0})
holder_error none = ok tt
holder_error (some holder) = err (taken_by holder)

abbrev pub is_free : Option String → Bool
is_free none = true
is_free (some holder) = false

-- The loop of `allocateNumber`; the counter is an uint64.
unfoldable pub number_scan : ℕ → Dict ℕ String → ℕ → ℕ → Searched
number_scan zero used candidate max = running
number_scan (suc fuel) used candidate max =
    let rest = number_scan fuel used ((candidate + 1) % 2 ^ 64) max in
    if leb candidate max
    then (if is_free (lookup ℕ_discrete candidate used) then found candidate else rest)
    else exhausted

searched : Searched → Result AllocError ℕ
searched (found n) = ok n
searched exhausted = err all_pools_exhausted
searched running = err searching

unfoldable pub number_in : NumberSpec → Dict ℕ String → Option ℕ → Result AllocError ℕ
unfolding searched holder_error
number_in spec used none =
    searched (number_scan (suc (suc (spec.max - spec.min))) used spec.min spec.max)
number_in spec used (some requested) =
    if ltb requested spec.min || ltb spec.max requested
    then err outside_pool
    else holder_error (lookup ℕ_discrete requested used) >>= λ _. ok requested

or_refuse : {A : Type 0} → Option A → AllocError → Result AllocError A
or_refuse none e = err e
or_refuse (some a) e = ok a

unfoldable pub allocate_number :
    Reader → AllocationPool → AllocationClaim → String → Result AllocError ℕ
unfolding or_refuse number_in
allocate_number rd pool claim self = do
  spec ← or_refuse pool.number no_number_spec
  used ← collect_used ℕ_discrete number_key rd pool.name claim.name self
  number_in spec used claim.requested_number

module _ (n : Netip) where
  pub exclude : List String → Used → Used
  exclude [] used = used
  exclude (raw ∷ raws) used = exclude raws (elim (n.parse_addr raw) [
    | none ↦ used
    | some addr ↦ insert addr_discrete addr "excluded" used
  ])

  as_refusal : {A : Type 0} → (RangeError → AllocError) → Result RangeError A → Result AllocError A
  as_refusal f (ok a) = ok a
  as_refusal f (err e) = err (f e)

  not_empty : List CandidateRange → Result AllocError (List CandidateRange)
  not_empty [] = err all_pools_exhausted
  not_empty (c ∷ cs) = ok (c ∷ cs)

  unfoldable pub narrow :
      List String → List CandidateRange → Result AllocError (List CandidateRange)
  unfolding not_empty as_refusal
  narrow [] candidates = ok candidates
  narrow (cidr ∷ cidrs) candidates = do
    filter ← as_refusal invalid_filter (parse_prefix_candidates n.parse_prefix (cidr ∷ cidrs))
    not_empty (intersect_candidates candidates filter)

  unfoldable pub ip_in : List CandidateRange → Used → Option String → Result AllocError Addr
  unfolding or_refuse holder_error
  ip_in candidates used none = or_refuse (first_fit_candidate candidates used) all_pools_exhausted
  ip_in candidates used (some requested) = do
    addr ← or_refuse (n.parse_addr requested) bad_address
    (if not (candidates_contain candidates addr)
        then err outside_pool
        else holder_error (lookup addr_discrete addr used) >>= λ _. ok addr)

  unfoldable pub allocate_ip :
      Reader → AllocationPool → AllocationClaim → String → Result AllocError String
  unfolding or_refuse as_refusal narrow ip_in
  allocate_ip rd pool claim self = do
    spec ← or_refuse pool.ip no_ip_spec
    space ← as_refusal invalid_space (parse_pool_candidates n.parse_prefix n.parse_addr spec)
    candidates ← narrow claim.filter space
    used ← collect_used addr_discrete (ip_key n.parse_addr) rd pool.name claim.name self
    addr ← ip_in candidates (exclude spec.excluded used) claim.requested_ip
    ok (n.text addr)

  -- The `switch` on the type of the pool.
  unfoldable pub allocate_in :
      PoolType
      → Reader
      → AllocationPool
      → AllocationClaim
      → String
      → Result AllocError AllocationResult
  unfolding allocate_number allocate_ip
  allocate_in number_pool rd pool claim self = do
    number ← allocate_number rd pool claim self
    ok (record { pool_name = pool.name; value = record { number = number; ip = "" } })
  allocate_in ip_pool rd pool claim self = do
    ip ← allocate_ip rd pool claim self
    ok (record { pool_name = pool.name; value = record { number = 0; ip = ip } })
  allocate_in other_pool rd pool claim self = err unsupported_type

  none_left : String → AllocError
  none_left missing =
      if not (str_eq missing "") then pool_not_found missing else all_pools_exhausted

  -- An exhausted pool passes the claim on to the next one.
  unfoldable pub or_next :
      AllocationPool
      → Result AllocError AllocationResult
      → Result AllocError (AllocationResult × AllocationPool)
      → Result AllocError (AllocationResult × AllocationPool)
  or_next pool (ok r) rest = ok (r, pool)
  or_next pool (err all_pools_exhausted) rest = rest
  or_next pool (err e) rest = err e

  -- The loop over the pools; `missing` is the first one that does not exist.
  unfoldable pub allocate_from :
      Reader
      → AllocationClaim
      → String
      → List String
      → String
      → Result AllocError (AllocationResult × AllocationPool)
  unfolding none_left or_next allocate_in
  allocate_from rd claim self [] missing = err (none_left missing)
  allocate_from rd claim self (ref ∷ refs) missing = elim (rd.pool ref) [
    | ok pool ↦
        or_next pool (allocate_in pool.type rd pool claim self)
          (allocate_from rd claim self refs missing)
    | err not_found ↦ allocate_from rd claim self refs (if str_eq missing "" then ref else missing)
    | err e ↦ err (read_failed e)
  ]

  -- `reuseLease`
  unfoldable pub reuse_lease :
      Reader
      → AllocationClaim
      → AllocationLease
      → Result AllocError (Option (AllocationResult × AllocationPool))
  reuse_lease rd claim lease =
      if not (claim_references_pool claim lease.spec.pool_ref)
      then ok none
      else elim (rd.pool lease.spec.pool_ref) [
        | ok pool ↦ ok (some (record { pool_name = pool.name; value = lease.spec.value }, pool))
        | err not_found ↦ ok none
        | err e ↦ err (read_failed e)
      ]

  unfoldable pub reused_or :
      Option (AllocationResult × AllocationPool)
      → Result AllocError (AllocationResult × AllocationPool)
      → Result AllocError (AllocationResult × AllocationPool)
  reused_or none rest = rest
  reused_or (some reused) rest = ok reused

  unfoldable pub allocate_holding :
      Reader
      → AllocationClaim
      → Option AllocationLease
      → Result AllocError (AllocationResult × AllocationPool)
  unfolding allocate_from reuse_lease reused_or
  allocate_holding rd claim none = allocate_from rd claim (lease_name_for claim) claim.pool_refs ""
  allocate_holding rd claim (some held) =
      if lease_held_by_other_claim held claim
      then allocate_from rd claim "" claim.pool_refs ""
      else reuse_lease rd claim held >>= λ reused.
          reused_or reused (allocate_from rd claim (lease_name_for claim) claim.pool_refs "")

  unfoldable pub allocate :
      Reader → AllocationClaim → Result AllocError (AllocationResult × AllocationPool)
  unfolding allocate_holding get_lease
  allocate rd claim = get_lease (rd.lease (lease_name_for claim)) >>= allocate_holding rd claim
