-- ===== src/Alloc/Used.antt =====
-- What the API server answers to one allocation, and the values that are in use: `getLease`,
-- `collectUsedNumbers` and `collectUsedIPs` of
-- controller/internal/controller/allocationclaim_controller.go. The answers are a parameter, and so
-- are what Go's netip makes of a text and the text of an address.
use Prim.Native.String.{String, ◌++◌ as str_append}
use text.Mathlib.Text.{◌==◌ as str_eq}
use juneau.Prelude.{
  ℕ, Bool, false, not, Option, none, some, List, [], ◌∷◌, ◌==◌, if◌then◌else◌, Result, ok, err,
  ◌>>=◌,
}
use juneau.Prelude.Dict.{Dict, lookup, insert}
use juneau.Range.{Addr, Prefix}
use juneau.Range.Candidates.{RangeError}
use juneau.Alloc.{
  AllocationValue, AllocationClaim, AllocationLease, AllocationPool, claim_references_pool,
  is_allocated,
}

-- The errors of the API server that the code tells apart.
pub data ApiError : Type 0 where
  not_found conflict already_exists other_failure : ApiError

-- The answers of `r.reader()`.
pub record Reader : Type 0 where
  pub lease : String → Result ApiError AllocationLease
  pub pool : String → Result ApiError AllocationPool
  pub claims : Result ApiError (List AllocationClaim)
  pub leases : Result ApiError (List AllocationLease)

pub record Netip : Type 0 where
  pub parse_prefix : String → Option Prefix
  pub parse_addr : String → Option Addr
  pub text : Addr → String

-- `searching` stands for the scan of a pool that does not end.
pub data AllocError : Type 0 where
  all_pools_exhausted searching unsupported_type no_number_spec no_ip_spec : AllocError
  outside_pool bad_address : AllocError
  pool_not_found taken_by : String → AllocError
  read_failed : ApiError → AllocError
  invalid_space invalid_filter : RangeError → AllocError

-- `allocationResult`
pub record AllocationResult : Type 0 where
  pub pool_name : String
  pub value : AllocationValue

unfoldable pub reading : {A : Type 0} → Result ApiError A → Result AllocError A
reading (ok a) = ok a
reading (err e) = err (read_failed e)

-- `getLease`
unfoldable pub get_lease :
    Result ApiError AllocationLease → Result AllocError (Option AllocationLease)
get_lease (ok lease) = ok (some lease)
get_lease (err not_found) = ok none
get_lease (err e) = err (read_failed e)

unfoldable pub counted_claim : String → String → AllocationClaim → Bool
counted_claim pool self existing =
    if str_eq existing.name self
    then false
    else (if not (claim_references_pool existing pool)
        then false
        else is_allocated existing.status.phase)

unfoldable pub counted_lease : String → String → AllocationLease → Bool
counted_lease pool self lease =
    if not (str_eq lease.spec.pool_ref pool) then false else not (str_eq lease.name self)

module _ {K : Type 0} (dec : Discrete K) where
  unfoldable pub hold_claim : Option K → String → Dict K String → Dict K String
  hold_claim none holder used = used
  hold_claim (some k) holder used = insert dec k holder used

  unfoldable pub hold_new : Option String → K → String → Dict K String → Dict K String
  hold_new none k holder used = insert dec k holder used
  hold_new (some other) k holder used = used

  unfoldable pub hold_lease : Option K → String → Dict K String → Dict K String
  unfolding hold_new
  hold_lease none holder used = used
  hold_lease (some k) holder used = hold_new (lookup dec k used) k holder used

-- The loops of `collectUsedNumbers` and `usedPoolIPs`, which differ in what they take of a value.
module _ {K : Type 0} (dec : Discrete K) (key_of : AllocationValue → Option K) (pool : String) where
  unfoldable pub claims_used : String → List AllocationClaim → Dict K String → Dict K String
  unfolding hold_claim counted_claim
  claims_used self [] used = used
  claims_used self (c ∷ cs) used = claims_used self cs (
      if counted_claim pool self c
      then hold_claim dec (key_of c.status.value) c.name used
      else used)

  unfoldable pub leases_used : String → List AllocationLease → Dict K String → Dict K String
  unfolding hold_lease counted_lease
  leases_used self [] used = used
  leases_used self (l ∷ ls) used = leases_used self ls (
      if counted_lease pool self l
      then hold_lease dec (key_of l.spec.value) (str_append "lease/" l.name) used
      else used)

unfoldable pub number_key : AllocationValue → Option ℕ
number_key v = if v.number == 0 then none else some v.number

unfoldable pub ip_key : (String → Option Addr) → AllocationValue → Option Addr
ip_key parse_addr v = if str_eq v.ip "" then none else parse_addr v.ip

-- `collectUsedNumbers` and `collectUsedIPs`
unfoldable pub collect_used :
    {K : Type 0} (dec : Discrete K) (key_of : AllocationValue → Option K) (rd : Reader)
    → (pool claim lease : String) → Result AllocError (Dict K String)
unfolding reading
collect_used dec key_of rd pool claim lease = do
  cs ← reading rd.claims
  ls ← reading rd.leases
  ok (leases_used dec key_of pool lease ls (claims_used dec key_of pool claim cs []))
