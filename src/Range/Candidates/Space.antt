-- ===== src/Range/Candidates/Space.antt =====
-- Which addresses a candidate owns and which of them it hands out.
use juneau.Prelude.{◌≤◌, ◌<◌, ◌^◌, ◌≡◌, true, any, List, [], ◌∷◌, ok, arith}
use juneau.Range.{Addr, Prefix, IsPrefix, host_bits, next, prev, unmap}
use juneau.Range.Fill.{pow2_pos}
use juneau.Range.Last.{
  last_addr_lem, last_addr-masked, masked_bound, pow2_mono, bits-masked, bit_len-masked,
}
use juneau.Range.Candidates.{
  IpRange, CandidateRange, contains, covers, prefix_reserves_edges, candidate_range_from_prefix,
  candidate_range_from_bounds, intersect_candidates, candidates_contain,
}

-- One family, in order, within its bits.
pub record IsRange (r : IpRange) : Type 0 where
  pub family : r.lo.bit_len ≡ r.hi.bit_len
  pub positive : 0 < r.lo.bit_len
  pub ordered : r.lo.value ≤ r.hi.value
  pub bounded : r.hi.value < 2 ^ r.hi.bit_len

-- Both parts are ranges, and what is handed out is owned.
pub record IsCandidate (c : CandidateRange) : Type 0 where
  pub span_range : IsRange c.span
  pub allocatable_range : IsRange c.allocatable
  pub owned : covers c.span c.allocatable ≡ true

-- A pair of bounds, each within its family, that becomes a candidate becomes a well-formed one: valid,
-- of one family and in order, and all of it may be handed out.
pub candidate_range_from_bounds_lem :
    (start end : Addr) {c : CandidateRange}
    → start.value < 2 ^ start.bit_len
    → end.value < 2 ^ end.bit_len
    → candidate_range_from_bounds start end ≡ ok c
    → IsCandidate c
unfolding candidate_range_from_bounds unmap covers contains
candidate_range_from_bounds_lem start end hs he e = ground arith

contains_trans :
    (c f : IpRange) (addr : Addr)
    → covers c f ≡ true
    → contains f addr ≡ true
    → contains c addr ≡ true
unfolding covers contains
contains_trans c f addr e h = ground arith

covers-contains :
    (candidates : List CandidateRange) (f : IpRange) (addr : Addr)
    → contains f addr ≡ true
    → any (λ c. covers c.span f) candidates ≡ true
    → any (λ c. contains c.span addr) candidates ≡ true
covers-contains [] f addr h e = cc
covers-contains (c ∷ candidates) f addr h e =
    ground (arith, contains_trans c.span f addr, covers-contains candidates f addr)

-- An address that lies in the narrowed space lies in the pool and in the filter.
pub intersect_candidates_sound :
    (candidates filter : List CandidateRange) (addr : Addr)
    → candidates_contain (intersect_candidates candidates filter) addr ≡ true
    → (candidates_contain candidates addr ≡ true) × (candidates_contain filter addr ≡ true)
unfolding candidates_contain intersect_candidates
intersect_candidates_sound candidates [] addr h = cc
intersect_candidates_sound candidates (f ∷ filter) addr h = ground (
  arith,
  intersect_candidates_sound candidates filter addr,
  covers-contains candidates f.span addr,
)

-- A prefix that parses becomes a well-formed candidate: its span and what it hands out are ranges of
-- one family, in order, and it hands out nothing that lies outside its span.
pub candidate_range_from_prefix-IsCandidate :
    (p : Prefix) → IsPrefix p → IsCandidate (candidate_range_from_prefix p)
unfolding candidate_range_from_prefix prefix_reserves_edges next prev covers contains
candidate_range_from_prefix-IsCandidate p v = ground (
  arith,
  last_addr-masked p,
  last_addr_lem p v,
  masked_bound p v,
  pow2_pos (host_bits p),
  pow2_mono 2 (host_bits p),
  bits-masked p,
  bit_len-masked p,
)
