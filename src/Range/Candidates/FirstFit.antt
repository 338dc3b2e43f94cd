-- ===== src/Range/Candidates/FirstFit.antt =====
-- First fit (`firstFitCandidate`).
use juneau.Prelude.{
  ℕ, zero, suc, ◌+◌, ◌-◌, ◌≤◌, Bool, ◌<◌, ◌^◌, ◌≡◌, ◌≢◌, ◌⊎◌, inl, inr, refl, Option, none, some,
  true, false, any, List, [], ◌∷◌, arith, Bool-cases, All, subst, dec_lt, ℕ_discrete,
}
use juneau.Range.{Addr, next, same}
use juneau.Range.Candidates.{
  IpRange, CandidateRange, Used, taken, scan, first_fit_candidate, or_else, contains,
}
use juneau.Range.Candidates.Space.{IsRange, IsCandidate}

-- The addresses of one family from `a` on.
abbrev Within : Addr → Addr → Addr → Type 0
Within lo hi b = (b.bit_len ≡ lo.bit_len) × (lo.value ≤ b.value) × (b.value ≤ hi.value)

-- What a scan may return: the lowest free address of the range, or none if all are taken.
pub Scanned : Used → Addr → Addr → Option Addr → Type 0
Scanned used lo hi none = (b : Addr) → Within lo hi b → taken used b ≡ true
Scanned used lo hi (some a) =
    Within lo hi a
    × (taken used a ≡ false)
    × ((b : Addr) → Within lo hi b → b.value < a.value → taken used b ≡ true)

abbrev after : Addr → Addr
after a = record a { value = a.value + 1 }

next-after : (a : Addr) → a.value + 1 < 2 ^ a.bit_len → next a ≡ after a
unfolding next
next-after a h = ground arith

addr_ext : (a b : Addr) → a.bit_len ≡ b.bit_len → a.value ≡ b.value → a ≡ b
addr_ext a b p q = λ i. record { bit_len = p i; value = q i }

-- An address of the range is its first one or lies in the rest.
taken_rest :
    (used : Used) (lo hi b : Addr)
    → taken used lo ≡ true
    → ((c : Addr) → Within (after lo) hi c → taken used c ≡ true)
    → Within lo hi b
    → taken used b ≡ true
taken_rest used lo hi b t rest w = elim (dec_lt lo.value b.value) [
  | yes l ↦ rest b (w.0, omega arith, w.2)
  | no n ↦ rw (addr_ext b lo w.0 (omega arith)) t
]

Scanned-rest :
    (used : Used) (lo hi : Addr) (r : Option Addr)
    → taken used lo ≡ true
    → Scanned used (after lo) hi r
    → Scanned used lo hi r
unfolding Scanned
Scanned-rest used lo hi none t s = λ b w. taken_rest used lo hi b t s w
Scanned-rest used lo hi (some a) t s = (
  (s.0.0, omega (arith, s.0), omega (arith, s.0)),
  s.1,
  λ b w l. elim (dec_lt lo.value b.value) [
    | yes m ↦ s.2 b (w.0, omega arith, w.2) l
    | no n ↦ rw (addr_ext b lo w.0 (omega arith)) t
  ],
)

Scanned-last :
    (used : Used) (lo hi : Addr)
    → taken used lo ≡ true
    → lo.value ≡ hi.value
    → Scanned used lo hi none
unfolding Scanned
Scanned-last used lo hi t e = λ b w. rw (addr_ext b lo w.0 (omega arith)) t

Scanned-free :
    (used : Used) (lo hi : Addr)
    → taken used lo ≡ false
    → lo.value ≤ hi.value
    → Scanned used lo hi (some lo)
unfolding Scanned
Scanned-free used lo hi t h = ((refl, omega arith, h), t, λ b w l. absurd (omega arith))

same_yes : (a b : Addr) → a.bit_len ≡ b.bit_len → a.value ≡ b.value → same a b ≡ true
unfolding same
same_yes a b p q = ground arith

same_no : (a b : Addr) → a.value ≢ b.value → same a b ≡ false
unfolding same
same_no a b n = ground arith

pub scan-Scanned :
    (fuel : ℕ) (used : Used) (lo hi : Addr)
    → IsRange (record { lo = lo; hi = hi })
    → hi.value < lo.value + fuel
    → Scanned used lo hi (scan fuel used lo hi)
unfolding scan
scan-Scanned zero used lo hi v h = absurd (omega arith)
scan-Scanned (suc fuel) used lo hi v h =
    let b : hi.value < 2 ^ lo.bit_len = rw v.family v.bounded in
    elim (Bool-cases (taken used lo)) [
      | inl t ↦ elim (ℕ_discrete lo.value hi.value) [
        | yes e ↦ rw (t, same_yes lo hi v.family e, scan) (Scanned-last used lo hi t e)
        | no n ↦
            rw (t, same_no lo hi n, next-after lo (omega arith), scan)
              (Scanned-rest used lo hi (scan fuel used (after lo) hi) t (
                scan-Scanned fuel used (after lo) hi
                  (record {
                    family = v.family;
                    positive = v.positive;
                    ordered = omega arith;
                    bounded = v.bounded;
                  })
                  (omega arith)))
      ]
      | inr f ↦ rw (f, scan) (Scanned-free used lo hi f v.ordered)
    ]

-- What first fit may return: the lowest free address of the first candidate that has one.
pub FirstFree : Used → List CandidateRange → Option Addr → Type 0
FirstFree used [] r = r ≡ none
FirstFree used (c ∷ rest) r =
    ((a : Addr) × (r ≡ some a) × Scanned used c.allocatable.lo c.allocatable.hi (some a))
    ⊎ (Scanned used c.allocatable.lo c.allocatable.hi none × FirstFree used rest r)

-- Over well-formed candidates first fit returns the lowest free address of the first candidate in
-- the list that has a free address, and none exactly when all are taken.
pub first_fit_candidate-FirstFree :
    (candidates : List CandidateRange) (used : Used)
    → All IsCandidate candidates
    → FirstFree used candidates (first_fit_candidate candidates used)
unfolding first_fit_candidate FirstFree
first_fit_candidate-FirstFree [] used v = refl
first_fit_candidate-FirstFree (c ∷ rest) used v =
    go (scan (suc (hi.value - lo.value)) used lo hi)
      (scan-Scanned (suc (hi.value - lo.value)) used lo hi v.0.allocatable_range (omega arith))
      (first_fit_candidate-FirstFree rest used v.1)
  where
    open c.allocatable use {lo, hi}

    go :
        (r : Option Addr)
        → Scanned used lo hi r
        → FirstFree used rest (first_fit_candidate rest used)
        → FirstFree used (c ∷ rest) (or_else r (first_fit_candidate rest used))
    go none s f = inr (s, f)
    go (some a) s f = inl (a, refl, s)

abbrev pub allocatable_by : Addr → CandidateRange → Bool
allocatable_by a c = contains c.allocatable a

contains-Within : (r : IpRange) (b : Addr) → IsRange r → contains r b ≡ true → Within r.lo r.hi b
unfolding contains
contains-Within r b v e = ground (arith, v.family)

Within-contains : (r : IpRange) (b : Addr) → IsRange r → Within r.lo r.hi b → contains r b ≡ true
unfolding contains
Within-contains r b v w = ground (arith, v.family)

FirstFree-some :
    (candidates : List CandidateRange) (used : Used) (a : Addr)
    → All IsCandidate candidates
    → FirstFree used candidates (some a)
    → (taken used a ≡ false) × (any (allocatable_by a) candidates ≡ true)
unfolding FirstFree Scanned
FirstFree-some [] used a v f = cc
FirstFree-some (c ∷ rest) used a v (inl (b, e, s)) =
    let q : a ≡ b = cc in rw q (s.1, rw (Within-contains c.allocatable b v.0.allocatable_range s.0))
FirstFree-some (c ∷ rest) used a v (inr (s, f)) =
    let r = FirstFree-some rest used a v.1 f in (r.0, ground (arith, r.1))

FirstFree-none :
    (candidates : List CandidateRange) (used : Used) (a : Addr)
    → All IsCandidate candidates
    → FirstFree used candidates none
    → any (allocatable_by a) candidates ≡ true
    → taken used a ≡ true
unfolding FirstFree Scanned
FirstFree-none [] used a v f h = cc
FirstFree-none (c ∷ rest) used a v (inl (b, e, s)) h = cc
FirstFree-none (c ∷ rest) used a v (inr (s, f)) h = elim (Bool-cases (allocatable_by a c)) [
  | inl e ↦ s a (contains-Within c.allocatable a v.0.allocatable_range e)
  | inr e ↦ FirstFree-none rest used a v.1 f (rw e at h)
]

-- First fit over well-formed candidates hands out an address that is not taken and that some
-- candidate may hand out.
pub first_fit_candidate_free :
    (candidates : List CandidateRange) (used : Used) (a : Addr)
    → All IsCandidate candidates
    → first_fit_candidate candidates used ≡ some a
    → (taken used a ≡ false) × (any (allocatable_by a) candidates ≡ true)
first_fit_candidate_free candidates used a v e =
    FirstFree-some candidates used a v
      (subst (FirstFree used candidates) e (first_fit_candidate-FirstFree candidates used v))

-- First fit over well-formed candidates that finds no address leaves none: every address that a
-- candidate may hand out is taken.
pub first_fit_candidate_full :
    (candidates : List CandidateRange) (used : Used) (a : Addr)
    → All IsCandidate candidates
    → first_fit_candidate candidates used ≡ none
    → any (allocatable_by a) candidates ≡ true
    → taken used a ≡ true
first_fit_candidate_full candidates used a v e =
    FirstFree-none candidates used a v
      (subst (FirstFree used candidates) e (first_fit_candidate-FirstFree candidates used v))
