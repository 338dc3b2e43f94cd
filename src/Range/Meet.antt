-- ===== src/Range/Meet.antt =====
-- What two ranges share (`Range.Intersect`), and the order of addresses.
use juneau.Prelude.{◌≡◌, ◌↔◌, false, some, none, arith}
use juneau.Range.{Addr, Range, before, intersect}

-- Both bounds belong to the range.
abbrev pub In : Range → Addr → Type 0
In r a = (before a r.start ≡ false) × (before r.end a ≡ false)

-- If two ranges have an intersection, it holds exactly the addresses that both hold.
pub intersect_iff :
    (r other t : Range) (a : Addr) → intersect r other ≡ some t → In t a ↔ (In r a × In other a)
unfolding intersect
intersect_iff r other t a e = ground arith

-- If two ranges have no intersection, no address lies in both.
pub intersect-none :
    (r other : Range) (a : Addr) → intersect r other ≡ none → ¬ (In r a × In other a)
unfolding intersect
intersect-none r other a e = ground arith
