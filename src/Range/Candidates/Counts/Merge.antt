-- ===== src/Range/Candidates/Counts/Merge.antt =====
-- The merged ranges of a pool (`mergeRanges`).
use mathlib.Core.List.{reverse, reverse-cons, append_assoc}
use juneau.Prelude.{
  ◌≡◌, refl, true, false, ◌||◌, List, [], ◌∷◌, ◌++◌, any, All, arith, ◌∙◌, ap, Bool-cases, inl, inr,
}
use juneau.Range.{Addr, before}
use juneau.Range.Candidates.{IpRange, CandidateRange, contains}
use juneau.Range.Candidates.Counts.{
  sort_by_lo, insert_by_lo, allocatables, merge_one, merge_all, merge_ranges, ranges_contain,
}

-- `a ≤ b` in the order of addresses.
abbrev Le : Addr → Addr → Type 0
Le a b = before b a ≡ false

-- A bound on the lower ends, from above.
abbrev Above : Addr → List IpRange → Type 0
Above lo = All (λ r. Le lo r.lo)

abbrev Sorted : List IpRange → Type 0
Sorted [] = Unit {0}
Sorted (r ∷ rest) = Above r.lo rest × Sorted rest

Le-trans : (a b c : Addr) → Le a b → Le b c → Le a c
Le-trans a b c p q = ground arith

Above-mono : (a b : Addr) (rs : List IpRange) → Le a b → Above b rs → Above a rs
Above-mono a b [] l h = tt
Above-mono a b (r ∷ rs) l h = (Le-trans a b r.lo l h.0, Above-mono a b rs l h.1)

insert-Above :
    (a : Addr) (r : IpRange) (rs : List IpRange)
    → Le a r.lo
    → Above a rs
    → Above a (insert_by_lo r rs)
unfolding insert_by_lo
insert-Above a r [] l h = (l, tt)
insert-Above a r (s ∷ rs) l h = ground (arith, insert-Above a r rs l h.1)

before-Le : (a b : Addr) → before a b ≡ true → Le a b
before-Le a b h = ground arith

insert-Sorted : (r : IpRange) (rs : List IpRange) → Sorted rs → Sorted (insert_by_lo r rs)
unfolding insert_by_lo
insert-Sorted r [] h = (tt, tt)
insert-Sorted r (s ∷ rs) h = elim (Bool-cases (before s.lo r.lo)) [
  | inl e ↦ rw e (insert-Above s.lo r rs (before-Le s.lo r.lo e) h.0, insert-Sorted r rs h.1)
  | inr e ↦ rw e ((e, Above-mono r.lo s.lo rs e h.0), h)
]

sort-Sorted : (rs : List IpRange) → Sorted (sort_by_lo rs)
unfolding sort_by_lo
sort-Sorted [] = tt
sort-Sorted (r ∷ rs) = insert-Sorted r (sort_by_lo rs) (sort-Sorted rs)

-- The ranges that start where the merged list's last range does, or later.
abbrev Follows : List IpRange → List IpRange → Type 0
Follows [] rs = Unit {0}
Follows (last ∷ merged) rs = Above last.lo rs

merge_one-Follows :
    (merged : List IpRange) (r : IpRange) (rs : List IpRange)
    → Follows merged (r ∷ rs)
    → Above r.lo rs
    → Follows (merge_one merged r) rs
unfolding merge_one
merge_one-Follows [] r rs f h = h
merge_one-Follows (last ∷ merged) r rs f h = ground (arith, h, f.1)

contain_merged :
    (last r : IpRange) (a : Addr)
    → Le last.lo r.lo
    → before last.hi r.lo ≡ false
    → before last.hi r.hi ≡ true
    → contains (record last { hi = r.hi }) a ≡ (contains r a || contains last a)
unfolding contains
contain_merged last r a l m h = ground arith

contain_kept :
    (last r : IpRange) (a : Addr)
    → Le last.lo r.lo
    → before last.hi r.hi ≡ false
    → contains last a ≡ (contains r a || contains last a)
unfolding contains
contain_kept last r a l h = ground arith

merge_one-contains :
    (merged : List IpRange) (r : IpRange) (a : Addr)
    → Follows merged (r ∷ [])
    → ranges_contain (merge_one merged r) a ≡ (contains r a || ranges_contain merged a)
unfolding merge_one ranges_contain
merge_one-contains [] r a f = refl
merge_one-contains (last ∷ merged) r a f =
    ground (arith, contain_merged last r a f.0, contain_kept last r a f.0)

Follows-head :
    (merged : List IpRange) (r : IpRange) (rs : List IpRange)
    → Follows merged (r ∷ rs)
    → Follows merged (r ∷ [])
Follows-head [] r rs f = tt
Follows-head (last ∷ merged) r rs f = (f.0, tt)

merge_all-contains :
    (merged rs : List IpRange) (a : Addr)
    → Sorted rs
    → Follows merged rs
    → ranges_contain (merge_all merged rs) a ≡ (ranges_contain rs a || ranges_contain merged a)
unfolding merge_all ranges_contain
merge_all-contains merged [] a s f = refl
merge_all-contains merged (r ∷ rs) a s f = ground (
  arith,
  merge_all-contains (merge_one merged r) rs a s.1 (merge_one-Follows merged r rs f s.0),
  merge_one-contains merged r a (Follows-head merged r rs f),
)

any-insert :
    (r : IpRange) (rs : List IpRange) (a : Addr)
    → ranges_contain (insert_by_lo r rs) a ≡ (contains r a || ranges_contain rs a)
unfolding insert_by_lo ranges_contain
any-insert r [] a = refl
any-insert r (s ∷ rs) a = ground (arith, any-insert r rs a)

any-sort : (rs : List IpRange) (a : Addr) → ranges_contain (sort_by_lo rs) a ≡ ranges_contain rs a
unfolding sort_by_lo ranges_contain
any-sort [] a = refl
any-sort (r ∷ rs) a = any-insert r (sort_by_lo rs) a ∙ ap (λ t. contains r a || t) (any-sort rs a)

any-append :
    (rs ts : List IpRange) (a : Addr)
    → ranges_contain (rs ++ ts) a ≡ (ranges_contain rs a || ranges_contain ts a)
unfolding ranges_contain
any-append [] ts a = refl
any-append (r ∷ rs) ts a = ground (arith, any-append rs ts a)

any-reverse : (rs : List IpRange) (a : Addr) → ranges_contain (reverse rs) a ≡ ranges_contain rs a
unfolding ranges_contain
any-reverse [] a = refl
any-reverse (r ∷ rs) a =
    ground (arith, reverse-cons r rs, any-append (reverse rs) (r ∷ []) a, any-reverse rs a)

any-allocatables :
    (cs : List CandidateRange) (a : Addr)
    → ranges_contain (allocatables cs) a ≡ any (λ c. contains c.allocatable a) cs
unfolding allocatables ranges_contain
any-allocatables [] a = refl
any-allocatables (c ∷ cs) a = ap (λ t. contains c.allocatable a || t) (any-allocatables cs a)

-- The merged ranges hold exactly the addresses that some candidate hands out.
pub merge_ranges-contain :
    (candidates : List CandidateRange) (a : Addr)
    → ranges_contain (merge_ranges candidates) a ≡ any (λ c. contains c.allocatable a) candidates
unfolding merge_ranges ranges_contain
merge_ranges-contain candidates a =
    let rs = allocatables candidates in
    any-reverse (merge_all [] (sort_by_lo rs)) a
    ∙ merge_all-contains [] (sort_by_lo rs) a (sort-Sorted rs) tt
    ∙ ground (arith, any-sort rs a, any-allocatables candidates a)

-- The last range of the list lies strictly behind the one before it, and so on.
abbrev Apart : List IpRange → Type 0
Apart [] = Unit {0}
Apart (r ∷ []) = Unit {0}
Apart (r ∷ s ∷ rest) = (before s.hi r.lo ≡ true) × Apart (s ∷ rest)

merge_one-Apart : (merged : List IpRange) (r : IpRange) → Apart merged → Apart (merge_one merged r)
unfolding merge_one
merge_one-Apart [] r h = tt
merge_one-Apart (last ∷ []) r h = ground arith
merge_one-Apart (last ∷ s ∷ merged) r h = ground arith

merge_all-Apart : (merged rs : List IpRange) → Apart merged → Apart (merge_all merged rs)
unfolding merge_all
merge_all-Apart merged [] h = h
merge_all-Apart merged (r ∷ rs) h =
    merge_all-Apart (merge_one merged r) rs (merge_one-Apart merged r h)

-- Each range ends strictly before the next one starts.
abbrev pub Ascending : List IpRange → Type 0
Ascending [] = Unit {0}
Ascending (r ∷ []) = Unit {0}
Ascending (r ∷ s ∷ rest) = (before r.hi s.lo ≡ true) × Ascending (s ∷ rest)

Ascending-append :
    (rs : List IpRange) (s r : IpRange)
    → Ascending (rs ++ s ∷ [])
    → before s.hi r.lo ≡ true
    → Ascending (rs ++ s ∷ r ∷ [])
Ascending-append [] s r h e = (e, tt)
Ascending-append (t ∷ []) s r h e = (h.0, (e, tt))
Ascending-append (t ∷ u ∷ rs) s r h e = (h.0, Ascending-append (u ∷ rs) s r h.1 e)

Apart-reverse : (rs : List IpRange) → Apart rs → Ascending (reverse rs)
Apart-reverse [] h = tt
Apart-reverse (r ∷ []) h = tt
Apart-reverse (r ∷ s ∷ rs) h =
    rw (reverse-cons r (s ∷ rs), reverse-cons s rs, append_assoc)
      (Ascending-append (reverse rs) s r (rw (reverse-cons s rs) at (Apart-reverse (s ∷ rs) h.1))
        h.0)

-- Each merged range ends strictly before the next one starts.
pub merge_ranges-Ascending :
    (candidates : List CandidateRange) → Ascending (merge_ranges candidates)
unfolding merge_ranges
merge_ranges-Ascending candidates =
    let rs = sort_by_lo (allocatables candidates) in
    Apart-reverse (merge_all [] rs) (merge_all-Apart [] rs tt)
