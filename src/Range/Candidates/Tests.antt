-- ===== src/Range/Candidates/Tests.antt =====
-- Inputs at which the theorems on address pools apply.
use juneau.Prelude.{ℕ, ◌^◌, ◌≤◌, ◌<◌, ◌≡◌, List, [], ◌∷◌, All, any, arith}
use juneau.Range.{Addr, unmap}
use juneau.Range.Candidates.{
  CandidateRange, Used, contains, candidate_range_from_bounds, first_fit_candidate,
}
use juneau.Range.Candidates.Space.{IsCandidate, candidate_range_from_bounds_lem}
use juneau.Range.Candidates.FirstFit.{FirstFree, first_fit_candidate-FirstFree}
use juneau.Range.Candidates.Counts.{merge_ranges, ranges_contain}
use juneau.Range.Candidates.Counts.Merge.{merge_ranges-contain}

abbrev v4 : ℕ → Addr
v4 n = record { bit_len = 32; value = n }

abbrev candidate : ℕ → ℕ → CandidateRange
candidate a b = record {
  span = record { lo = v4 a; hi = v4 b };
  allocatable = record { lo = v4 a; hi = v4 b };
}

-- Two candidates, the second of which has a free address.
abbrev pool : List CandidateRange
pool = candidate 3 4 ∷ candidate 8 9 ∷ []

candidate-IsCandidate : (a b : ℕ) → a ≤ b → b < 2 ^ 32 → IsCandidate (candidate a b)
unfolding candidate_range_from_bounds unmap
candidate-IsCandidate a b h k =
    candidate_range_from_bounds_lem (v4 a) (v4 b) {c = candidate a b} (omega arith) k (ground arith)

pool-All : All IsCandidate pool
pool-All = (
  candidate-IsCandidate 3 4 (omega arith) (omega arith),
  (candidate-IsCandidate 8 9 (omega arith) (omega arith), tt),
)

abbrev used : Used
used = (v4 3, "nic-a") ∷ (v4 4, "nic-b") ∷ (v4 8, "nic-c") ∷ []

first_fit_candidate-FirstFree_example : FirstFree used pool (first_fit_candidate pool used)
first_fit_candidate-FirstFree_example = first_fit_candidate-FirstFree pool used pool-All

merge_ranges-contain_example :
    ranges_contain (merge_ranges pool) (v4 9) ≡ any (λ c. contains c.allocatable (v4 9)) pool
merge_ranges-contain_example = merge_ranges-contain pool (v4 9)
