-- ===== src/Policy/Expand/Order.antt =====
-- The order in which the evaluator scans a NetworkACL direction.
use juneau.Prelude.{
  ℕ, ◌≤◌, ◌≡◌, refl, inl, inr, List, [], ◌∷◌, All, arith, Bool-cases, ltb, ◌==◌, if◌then◌else◌,
}
use juneau.Policy.{Rule}
use juneau.Policy.Expand.{sort_by_priority, insert_by_priority}

-- Priorities never fall along the list.
abbrev pub Ordered : List Rule → Type 0
Ordered [] = Unit {0}
Ordered (r ∷ rest) = All (λ s. r.priority ≤ s.priority) rest × Ordered rest

-- The rules of one priority, in the order in which they stand.
pub at_priority : ℕ → List Rule → List Rule
at_priority p [] = []
at_priority p (r ∷ rest) = if r.priority == p then r ∷ at_priority p rest else at_priority p rest

All-insert :
    (p : ℕ) (r : Rule) (rs : List Rule)
    → p ≤ r.priority
    → All (λ s. p ≤ s.priority) rs
    → All (λ s. p ≤ s.priority) (insert_by_priority r rs)
unfolding insert_by_priority
All-insert p r [] h a = (h, tt)
All-insert p r (s ∷ rs) h a = ground (arith, All-insert p r rs h a.1)

All-le :
    (p q : ℕ) (rs : List Rule) → p ≤ q → All (λ s. q ≤ s.priority) rs → All (λ s. p ≤ s.priority) rs
All-le p q [] h a = tt
All-le p q (s ∷ rs) h a = (omega arith, All-le p q rs h a.1)

insert-Ordered : (r : Rule) (rs : List Rule) → Ordered rs → Ordered (insert_by_priority r rs)
unfolding insert_by_priority
insert-Ordered r [] h = (tt, tt)
insert-Ordered r (s ∷ rs) h = elim (Bool-cases (ltb s.priority r.priority)) [
  | inl e ↦ rw e (All-insert s.priority r rs (ground arith) h.0, insert-Ordered r rs h.1)
  | inr e ↦
      let l : r.priority ≤ s.priority = ground arith in
      rw e ((l, All-le r.priority s.priority rs l h.0), h)
]

sort-Ordered : (rs : List Rule) → Ordered (sort_by_priority rs)
unfolding sort_by_priority
sort-Ordered [] = tt
sort-Ordered (r ∷ rs) = insert-Ordered r (sort_by_priority rs) (sort-Ordered rs)

at_priority-insert :
    (p : ℕ) (r : Rule) (rs : List Rule)
    → at_priority p (insert_by_priority r rs) ≡ at_priority p (r ∷ rs)
unfolding at_priority insert_by_priority
at_priority-insert p r [] = refl
at_priority-insert p r (s ∷ rs) = ground (arith, at_priority-insert p r rs)

at_priority-sort : (p : ℕ) (rs : List Rule) → at_priority p (sort_by_priority rs) ≡ at_priority p rs
unfolding at_priority sort_by_priority
at_priority-sort p [] = refl
at_priority-sort p (r ∷ rs) =
    ground (arith, at_priority-insert p r (sort_by_priority rs), at_priority-sort p rs)

-- Sorting one direction puts the priorities in ascending order, and keeps the rules of each priority
-- as they were, in their order.
pub sort_by_priority-Ordered :
    (rules : List Rule)
    → Ordered (sort_by_priority rules)
      × ((p : ℕ) → at_priority p (sort_by_priority rules) ≡ at_priority p rules)
sort_by_priority-Ordered rules = (sort-Ordered rules, λ p. at_priority-sort p rules)
