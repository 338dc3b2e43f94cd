-- ===== src/Alloc/Pools/Lowest.antt =====
-- Which number `allocateNumber` finds.
use Prim.Native.String.{String}
use juneau.Prelude.{
  ℕ, zero, suc, ◌+◌, ◌-◌, ◌%◌, ◌^◌, ◌≤◌, ◌<◌, ◌≡◌, ◌≢◌, inl, inr, refl, Option, none, some, ◌⊎◌,
  ◌||◌, ltb, true, false, arith, Bool-cases, Option-cases, Result, ok, err, ℕ_discrete, leb, ap,
  ◌∙◌, subst,
}
use juneau.Prelude.Dict.{Dict, lookup}
use juneau.Alloc.{NumberSpec}
use juneau.Alloc.Pools.{
  Searched, found, exhausted, running, number_scan, number_in, searched, holder_error,
}
use juneau.Alloc.Used.{AllocError, all_pools_exhausted, outside_pool, taken_by}

abbrev InUse : Dict ℕ String → ℕ → Type 0
InUse used m = lookup ℕ_discrete m used ≢ none

-- The lowest free number of the range, or none if all are used.
Lowest : Dict ℕ String → ℕ → ℕ → Searched → Type 0
Lowest used c max (found k) =
    (c ≤ k)
    × (k ≤ max)
    × (lookup ℕ_discrete k used ≡ none)
    × ((m : ℕ) → c ≤ m → m < k → InUse used m)
Lowest used c max exhausted = (m : ℕ) → c ≤ m → m ≤ max → InUse used m
Lowest used c max running = ⊥

Lowest-rest :
    (used : Dict ℕ String) (c max : ℕ) (r : Searched)
    → InUse used c
    → Lowest used (c + 1) max r
    → Lowest used c max r
unfolding Lowest
Lowest-rest used c max (found k) u (a, b, f, below) = (
  omega arith,
  b,
  f,
  λ m h l. elim (ℕ_discrete c m) [
    | yes e ↦ subst (λ (x : ℕ). InUse used x) e u
    | no e ↦ below m (omega arith) l
  ],
)
Lowest-rest used c max exhausted u all = λ m h l. elim (ℕ_discrete c m) [
  | yes e ↦ subst (λ (x : ℕ). InUse used x) e u
  | no e ↦ all m (omega arith) l
]
Lowest-rest used c max running u r = r

next_number : (c max : ℕ) → c ≤ max → max + 1 < 2 ^ 64 → (c + 1) % 2 ^ 64 ≡ c + 1
next_number c max h b = omega arith

number_scan-Lowest :
    (fuel : ℕ) (used : Dict ℕ String) (c max : ℕ)
    → max + 1 < 2 ^ 64
    → c ≤ max + 1
    → max + 1 < c + fuel
    → Lowest used c max (number_scan fuel used c max)
unfolding number_scan Lowest
number_scan-Lowest zero used c max b l h = absurd (omega arith)
number_scan-Lowest (suc fuel) used c max b l h = elim (Bool-cases (leb c max)) [
  | inr f ↦ rw f (λ m l u. absurd (ground arith))
  | inl t ↦
      let le : c ≤ max = ground arith in
      elim (Option-cases (lookup ℕ_discrete c used)) [
        | inl e ↦ rw (t, e) (omega arith, ground arith, e, λ m l u. absurd (omega arith))
        | inr (x, e) ↦
            rw (t, e, next_number c max le b)
              (Lowest-rest used c max (number_scan fuel used (c + 1) max) (λ q. cc (q, e))
                (number_scan-Lowest fuel used (c + 1) max b (omega arith) (omega arith)))
      ]
]

number_scan-empty :
    (fuel : ℕ) (used : Dict ℕ String) (c max : ℕ)
    → leb c max ≡ false
    → number_scan (suc fuel) used c max ≡ exhausted
unfolding number_scan
number_scan-empty fuel used c max f = rw f

nothing_in : (used : Dict ℕ String) (c max : ℕ) → leb c max ≡ false → Lowest used c max exhausted
unfolding Lowest
nothing_in used c max f = λ m l u. absurd (ground arith)

-- What `allocateNumber` may answer without a requested number.
unfoldable pub Placed : NumberSpec → Dict ℕ String → Result AllocError ℕ → Type 0
unfolding Lowest
Placed spec used (ok k) = Lowest used spec.min spec.max (found k)
Placed spec used (err e) = (e ≡ all_pools_exhausted) × Lowest used spec.min spec.max exhausted

placed :
    (spec : NumberSpec) (used : Dict ℕ String) (r : Searched)
    → Lowest used spec.min spec.max r
    → Placed spec used (searched r)
unfolding Placed searched Lowest
placed spec used (found k) h = h
placed spec used exhausted h = (refl, h)
placed spec used running h = absurd h

-- What `allocateNumber` may answer: a requested number exactly if it lies in the range and is not in
-- use, and otherwise the error that says which of the two it is.
unfoldable pub Answered : NumberSpec → Dict ℕ String → Option ℕ → Result AllocError ℕ → Type 0
unfolding Placed
Answered spec used none r = Placed spec used r
Answered spec used (some asked) (ok k) =
    (k ≡ asked) × (spec.min ≤ asked) × (asked ≤ spec.max) × (lookup ℕ_discrete asked used ≡ none)
Answered spec used (some asked) (err e) =
    ((e ≡ outside_pool) × ((asked < spec.min) ⊎ (spec.max < asked)))
    ⊎ ((holder : String) × (e ≡ taken_by holder)
        × (spec.min ≤ asked)
        × (asked ≤ spec.max)
        × (lookup ℕ_discrete asked used ≡ some holder))

number_in-free :
    (spec : NumberSpec) (used : Dict ℕ String)
    → spec.max + 1 < 2 ^ 64
    → Placed spec used (number_in spec used none)
unfolding number_in
number_in-free spec used b = elim (Bool-cases (leb spec.min spec.max)) [
  | inl t ↦
      placed spec used (number_scan (suc (suc (spec.max - spec.min))) used spec.min spec.max) (
        number_scan-Lowest (suc (suc (spec.max - spec.min))) used spec.min spec.max b (ground arith)
          (ground arith))
  | inr f ↦
      rw (number_scan-empty (suc (spec.max - spec.min)) used spec.min spec.max f)
        (placed spec used exhausted (nothing_in used spec.min spec.max f))
]

number_in-asked :
    (spec : NumberSpec) (used : Dict ℕ String) (asked : ℕ)
    → Answered spec used (some asked) (number_in spec used (some asked))
unfolding number_in Answered holder_error
number_in-asked spec used asked = elim (Bool-cases (ltb asked spec.min || ltb spec.max asked)) [
  | inl t ↦ rw t (inl (refl, ground arith))
  | inr f ↦
      let (low, high) : (spec.min ≤ asked) × (asked ≤ spec.max) = ground arith in
      elim (Option-cases (lookup ℕ_discrete asked used)) [
        | inl e ↦ rw (f, e) (refl, low, high, e)
        | inr (x, e) ↦ rw (f, e) (inr (x, refl, low, high, e))
      ]
]

-- A pool whose largest number is below 2 ^ 64 - 1 answers a claim that requests a number with that
-- number if it is in the range and not in use, and otherwise with an error that says whether it is
-- outside the range or taken; it answers a claim that requests none with the lowest number of its
-- range that is not in use, or with the error for an exhausted pool, and then each number of the
-- range is in use.
pub number_in-Placed :
    (spec : NumberSpec) (used : Dict ℕ String) (requested : Option ℕ)
    → spec.max + 1 < 2 ^ 64
    → Answered spec used requested (number_in spec used requested)
unfolding Answered
number_in-Placed spec used none b = number_in-free spec used b
number_in-Placed spec used (some asked) b = number_in-asked spec used asked

number_scan-used :
    (fuel : ℕ) (used : Dict ℕ String) (c max : ℕ)
    → c ≤ max
    → InUse used c
    → number_scan (suc fuel) used c max ≡ number_scan fuel used ((c + 1) % 2 ^ 64) max
unfolding number_scan
number_scan-used fuel used c max h u = elim (Option-cases (lookup ℕ_discrete c used)) [
  | inl e ↦ absurd (u e)
  | inr (x, e) ↦ let t : leb c max ≡ true = ground arith in rw (t, e)
]

number_scan-zero :
    (fuel : ℕ) (used : Dict ℕ String) (max : ℕ)
    → lookup ℕ_discrete 0 used ≡ none
    → number_scan (suc fuel) used 0 max ≡ found 0
unfolding number_scan
number_scan-zero fuel used max z = let t : leb 0 max ≡ true = ground arith in rw (t, z)

number_scan_wraps :
    (k : ℕ) (used : Dict ℕ String) (c max : ℕ)
    → max + 1 ≡ 2 ^ 64
    → c + k ≡ max
    → ((m : ℕ) → c ≤ m → m ≤ max → InUse used m)
    → lookup ℕ_discrete 0 used ≡ none
    → number_scan (suc (suc k)) used c max ≡ found 0
number_scan_wraps zero used c max b s all z =
    let e : (c + 1) % 2 ^ 64 ≡ 0 = omega arith in
    number_scan-used 1 used c max (omega arith) (all c (omega arith) (omega arith))
    ∙ ap (λ (x : ℕ). number_scan 1 used x max) e
    ∙ number_scan-zero 0 used max z
number_scan_wraps (suc k) used c max b s all z =
    let e : (c + 1) % 2 ^ 64 ≡ c + 1 = omega arith in
    number_scan-used (suc (suc k)) used c max (omega arith) (all c (omega arith) (omega arith))
    ∙ ap (λ (x : ℕ). number_scan (suc (suc k)) used x max) e
    ∙ number_scan_wraps k used (c + 1) max b (omega arith) (λ m h l. all m (omega arith) l) z

-- A pool whose largest number is 2 ^ 64 - 1, and whose numbers are all in use, hands out 0, which is
-- not in its range: the counter wraps around. Zero itself must not be in use, which the collected
-- numbers never say.
pub number_in_wraps :
    (spec : NumberSpec) (used : Dict ℕ String)
    → spec.max + 1 ≡ 2 ^ 64
    → spec.min ≤ spec.max
    → ((m : ℕ) → spec.min ≤ m → m ≤ spec.max → lookup ℕ_discrete m used ≢ none)
    → lookup ℕ_discrete 0 used ≡ none
    → number_in spec used none ≡ ok 0
unfolding number_in searched
number_in_wraps spec used b h all z =
    ap searched
      (number_scan_wraps (spec.max - spec.min) used spec.min spec.max b (omega arith) all z)
