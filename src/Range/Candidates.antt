-- ===== src/Range/Candidates.antt =====
-- The address space of an IP pool: controller/internal/controller/allocation_ranges.go. What
-- `netip.ParsePrefix` and `netip.ParseAddr` make of a text is a parameter.
pub mod Space
pub mod FirstFit
pub mod Counts
mod Tests
use Prim.Native.String.{String}
use juneau.Prelude.{
  ℕ, zero, suc, ◌-◌, Bool, true, false, not, ◌&&◌, ◌||◌, Option, none, some, List, [], ◌∷◌, ◌++◌,
  any, ltb, ◌==◌, if◌then◌else◌, Result, ok, err, ◌>>=◌,
}
use juneau.Prelude.Dict.{Dict, lookup}
use juneau.Range.{
  Addr, addr_discrete, Prefix, no_addr, before, same, is_valid, next, prev, unmap, masked,
  last_addr,
}

-- The type `ipRange`.
pub record IpRange : Type 0 where
  pub lo : Addr
  pub hi : Addr

unfoldable pub contains : IpRange → Addr → Bool
contains r addr = not (before addr r.lo) && not (before r.hi addr)

unfoldable pub covers : IpRange → IpRange → Bool
covers r other = contains r other.lo && contains r other.hi

pub record CandidateRange : Type 0 where
  pub span : IpRange
  pub allocatable : IpRange

pub prefix_reserves_edges : Prefix → Bool
prefix_reserves_edges p =
    if p.addr.bit_len == 32
    then ltb p.bits 31
    else (if p.addr.bit_len == 128 then ltb p.bits 127 else false)

pub candidate_range_from_prefix : Prefix → CandidateRange
candidate_range_from_prefix p =
    let m = masked p in
    let span : IpRange = record { lo = m.addr; hi = last_addr m } in
    if not (prefix_reserves_edges m)
    then record { span = span; allocatable = span }
    else record { span = span; allocatable = record { lo = next span.lo; hi = prev span.hi } }

pub data RangeError : Type 0 where
  invalid_bound mixed_families starts_after_end : RangeError
  invalid_cidr invalid_start invalid_end : String → RangeError

pub candidate_range_from_bounds : Addr → Addr → Result RangeError CandidateRange
candidate_range_from_bounds start end =
    if not (is_valid start) || not (is_valid end)
    then err invalid_bound
    else (let lo = unmap start in
        let hi = unmap end in
        if not (lo.bit_len == hi.bit_len)
        then err mixed_families
        else (if before hi lo
            then err starts_after_end
            else (let span : IpRange = record { lo = lo; hi = hi } in
                ok (record { span = span; allocatable = span }))))

-- An entry of `spec.ranges` of an AllocationPool.
pub record PoolIpRange : Type 0 where
  pub start : String
  pub end : String

-- `AllocationPoolIPSpec`
pub record PoolIpSpec : Type 0 where
  pub cidrs : List String
  pub ranges : List PoolIpRange
  pub excluded : List String

or_fail : {A : Type 0} → Option A → RangeError → Result RangeError A
or_fail none e = err e
or_fail (some a) e = ok a

module _ (parse_prefix : String → Option Prefix) where
  pub parse_prefix_candidates : List String → Result RangeError (List CandidateRange)
  unfolding or_fail
  parse_prefix_candidates [] = ok []
  parse_prefix_candidates (raw ∷ raws) = do
    p ← or_fail (parse_prefix raw) (invalid_cidr raw)
    out ← parse_prefix_candidates raws
    ok (candidate_range_from_prefix p ∷ out)

module _ (parse_addr : String → Option Addr) where
  pub parse_range_candidates : List PoolIpRange → Result RangeError (List CandidateRange)
  unfolding or_fail
  parse_range_candidates [] = ok []
  parse_range_candidates (raw ∷ raws) = do
    start ← or_fail (parse_addr raw.start) (invalid_start raw.start)
    end ← or_fail (parse_addr raw.end) (invalid_end raw.end)
    candidate ← candidate_range_from_bounds start end
    out ← parse_range_candidates raws
    ok (candidate ∷ out)

-- CIDR entries come first.
pub parse_pool_candidates :
    (String → Option Prefix)
    → (String → Option Addr)
    → PoolIpSpec
    → Result RangeError (List CandidateRange)
parse_pool_candidates parse_prefix parse_addr spec = do
  prefixes ← parse_prefix_candidates parse_prefix spec.cidrs
  ranges ← parse_range_candidates parse_addr spec.ranges
  ok (prefixes ++ ranges)

pub intersect_candidates : List CandidateRange → List CandidateRange → List CandidateRange
intersect_candidates candidates [] = []
intersect_candidates candidates (f ∷ filter) =
    let rest = intersect_candidates candidates filter in
    if any (λ c. covers c.span f.span) candidates then f ∷ rest else rest

pub candidates_contain : List CandidateRange → Addr → Bool
candidates_contain candidates addr = any (λ c. contains c.span addr) candidates

-- The addresses that are taken, with their holders.
abbrev pub Used : Type 0
Used = Dict Addr String

abbrev is_some : Option String → Bool
is_some none = false
is_some (some holder) = true

unfoldable pub taken : Used → Addr → Bool
taken used addr = is_some (lookup addr_discrete addr used)

-- The inner loop of `firstFitCandidate`. The fuel is the number of addresses up to `hi`.
unfoldable pub scan : ℕ → Used → Addr → Addr → Option Addr
scan zero used addr hi = none
scan (suc fuel) used addr hi =
    let rest = scan fuel used (next addr) hi in
    if not (taken used addr) then some addr else (if same addr hi then none else rest)

abbrev pub or_else : Option Addr → Option Addr → Option Addr
or_else (some a) other = some a
or_else none other = other

unfoldable pub first_fit_candidate : List CandidateRange → Used → Option Addr
first_fit_candidate [] used = none
first_fit_candidate (c ∷ rest) used =
    let lo = c.allocatable.lo in
    let hi = c.allocatable.hi in
    or_else (scan (suc (hi.value - lo.value)) used lo hi) (first_fit_candidate rest used)
