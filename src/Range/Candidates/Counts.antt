-- ===== src/Range/Candidates/Counts.antt =====
-- The number of addresses of a pool: controller/internal/controller/addresspool_counts.go. The
-- big integers and the `int64` counts are integers; the cap of `capInt64` is written out.
pub mod Merge
use Prim.Native.String.{String}
use mathlib.Core.List.{reverse, foldl}
use juneau.Prelude.{
  ℕ, zero, suc, ◌+◌, ◌*◌, ◌-◌, ◌^◌, Bool, true, false, not, ◌&&◌, Option, none, some, List, [], ◌∷◌,
  any, length, ltb, ◌==◌, if◌then◌else◌, Result, ok, err, ◌>>=◌,
}
use juneau.Prelude.Int.{ℤ, pos, negsuc, sub_ℕ, ◌+ℤ◌, ◌-ℤ◌}
use juneau.Range.{Addr, Prefix, before, same, is4}
use juneau.Range.Candidates.{
  IpRange, CandidateRange, RangeError, PoolIpSpec, Used, contains, parse_pool_candidates,
}

pub record PoolAddressCounts : Type 0 where
  pub total : ℤ
  pub allocated : ℤ
  pub available : ℤ

-- `sort.Slice` by the lower bound.
insert_by_lo : IpRange → List IpRange → List IpRange
insert_by_lo r [] = r ∷ []
insert_by_lo r (s ∷ rest) = if before s.lo r.lo then s ∷ insert_by_lo r rest else r ∷ s ∷ rest

pub sort_by_lo : List IpRange → List IpRange
unfolding insert_by_lo
sort_by_lo [] = []
sort_by_lo (r ∷ rest) = insert_by_lo r (sort_by_lo rest)

allocatables : List CandidateRange → List IpRange
allocatables [] = []
allocatables (c ∷ rest) = c.allocatable ∷ allocatables rest

-- One round of the loop of `mergeRanges`. The list of merged ranges is kept last one first.
pub merge_one : List IpRange → IpRange → List IpRange
merge_one [] r = r ∷ []
merge_one (last ∷ merged) r =
    if not (before last.hi r.lo)
    then (if before last.hi r.hi then record last { hi = r.hi } ∷ merged else last ∷ merged)
    else r ∷ last ∷ merged

pub merge_all : List IpRange → List IpRange → List IpRange
merge_all merged [] = merged
merge_all merged (r ∷ rest) = merge_all (merge_one merged r) rest

pub merge_ranges : List CandidateRange → List IpRange
unfolding allocatables
merge_ranges candidates = reverse (merge_all [] (sort_by_lo (allocatables candidates)))

pub ranges_contain : List IpRange → Addr → Bool
ranges_contain ranges addr = any (λ r. contains r addr) ranges

-- The sixteen bytes of `As16` as one number.
wide : Addr → ℕ
wide a = if is4 a then 0xffff * 2 ^ 32 + a.value else a.value

pub size : IpRange → ℤ
unfolding wide
size r = sub_ℕ (wide r.hi) (wide r.lo) +ℤ pos 1

pub cap_int64 : ℤ → ℤ
cap_int64 (pos n) = if ltb n (2 ^ 63) then pos n else pos (2 ^ 63 - 1)
cap_int64 (negsuc n) = if ltb n (2 ^ 63) then negsuc n else pos (2 ^ 63 - 1)

abbrev pub member : Addr → List Addr → Bool
member addr set = any (λ a. same a addr) set

-- The set of excluded addresses: those that parse and lie in the space.
add_excluded : List IpRange → List Addr → Option Addr → List Addr
add_excluded space set none = set
add_excluded space set (some addr) =
    if ranges_contain space addr && not (member addr set) then addr ∷ set else set

pub excluded_set : (String → Option Addr) → List IpRange → List Addr → List String → List Addr
unfolding add_excluded
excluded_set parse_addr space set [] = set
excluded_set parse_addr space set (raw ∷ raws) =
    excluded_set parse_addr space (add_excluded space set (parse_addr raw)) raws

-- The taken addresses that first fit could have handed out.
pub count_allocated : List IpRange → List Addr → Used → ℕ
count_allocated space excluded [] = 0
count_allocated space excluded ((addr, holder) ∷ used) =
    let rest = count_allocated space excluded used in
    if member addr excluded then rest else (if ranges_contain space addr then suc rest else rest)

pub sizes : List IpRange → ℤ
sizes [] = pos 0
sizes (r ∷ rest) = size r +ℤ sizes rest

pub count_pool_addresses :
    (String → Option Prefix)
    → (String → Option Addr)
    → PoolIpSpec
    → Used
    → Result RangeError PoolAddressCounts
count_pool_addresses parse_prefix parse_addr spec used = do
  candidates ← parse_pool_candidates parse_prefix parse_addr spec
  let space = merge_ranges candidates
  let excluded = excluded_set parse_addr space [] spec.excluded
  let allocated = count_allocated space excluded used
  let total = sizes space -ℤ pos (length excluded)
  ok (record {
    total = cap_int64 total;
    allocated = pos allocated;
    available = cap_int64 (total -ℤ pos allocated);
  })
