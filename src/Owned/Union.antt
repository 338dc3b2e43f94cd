-- ===== src/Owned/Union.antt =====
-- Where a claimed prefix is delivered, whatever the order of the claims.
use juneau.Prelude.{
  ◌≡◌, refl, sym, ap, ◌∙◌, Bool, true, false, ◌||◌, Option, none, some, List, [], ◌∷◌, ◌++◌, ite,
  if◌then◌else◌, arith,
}
use juneau.Prelude.Dict.{Dict, lookup, insert, lookup-insert}
use juneau.Owned.{
  Key, key_discrete, Delivery, delivered_here, delivered_elsewhere, Owner, Claim,
  preferred_delivery, merge_claims, union,
}

-- What one more claim of a key changes.
prefer : Key → Option Delivery → Claim → Option Delivery
prefer key current (k, d) = ite (key_discrete k key) (some (preferred_delivery current d)) current

-- The claims of a key, taken one after another.
prefer_all : Key → Option Delivery → List Claim → Option Delivery
prefer_all key current [] = current
prefer_all key current (c ∷ cs) = prefer_all key (prefer key current c) cs

insert-prefer :
    (claimed : Dict Key Delivery) (k key : Key) (d : Delivery)
    → lookup key_discrete key
        (insert key_discrete k (preferred_delivery (lookup key_discrete k claimed) d) claimed)
      ≡ prefer key (lookup key_discrete key claimed) (k, d)
unfolding prefer
insert-prefer claimed k key d = ground (
  arith,
  lookup-insert key_discrete key k (preferred_delivery (lookup key_discrete k claimed) d) claimed,
)

lookup-merge_claims :
    (claimed : Dict Key Delivery) (cs : List Claim) (key : Key)
    → lookup key_discrete key (merge_claims claimed cs)
      ≡ prefer_all key (lookup key_discrete key claimed) cs
unfolding merge_claims prefer_all
lookup-merge_claims claimed [] key = refl
lookup-merge_claims claimed ((k, d) ∷ cs) key =
    lookup-merge_claims
      (insert key_discrete k (preferred_delivery (lookup key_discrete k claimed) d) claimed) cs key
    ∙ ap (λ o. prefer_all key o cs) (insert-prefer claimed k key d)

-- Some claim of the list is for the key, and some claim for the key is delivered here.
unfoldable pub claimed_in : Key → List Claim → Bool
claimed_in key [] = false
claimed_in key ((k, d) ∷ cs) = ite (key_discrete k key) true (claimed_in key cs)

is_here : Delivery → Bool
is_here delivered_here = true
is_here delivered_elsewhere = false

unfoldable pub here_in : Key → List Claim → Bool
unfolding is_here
here_in key [] = false
here_in key ((k, d) ∷ cs) = ite (key_discrete k key) (is_here d || here_in key cs) (here_in key cs)

-- A key is delivered here if one claim says so, elsewhere if all its claims say that, and nowhere if it
-- has no claim.
unfoldable pub wanted : Key → List Claim → Option Delivery
wanted key cs =
    if here_in key cs
    then some delivered_here
    else (if claimed_in key cs then some delivered_elsewhere else none)

-- `wanted` behind what was decided before.
wanted_after : Key → Option Delivery → List Claim → Option Delivery
wanted_after key (some delivered_here) cs = some delivered_here
wanted_after key (some delivered_elsewhere) cs =
    if here_in key cs then some delivered_here else some delivered_elsewhere
wanted_after key none cs = wanted key cs

prefer_all-wanted :
    (key : Key) (current : Option Delivery) (cs : List Claim)
    → prefer_all key current cs ≡ wanted_after key current cs
unfolding prefer_all prefer wanted_after wanted here_in claimed_in preferred_delivery
prefer_all-wanted key none [] = refl
prefer_all-wanted key (some delivered_here) [] = refl
prefer_all-wanted key (some delivered_elsewhere) [] = refl
prefer_all-wanted key none ((k, delivered_here) ∷ cs) =
    ground (arith, prefer_all-wanted key none cs, prefer_all-wanted key (some delivered_here) cs)
prefer_all-wanted key none ((k, delivered_elsewhere) ∷ cs) =
    ground
      (arith, prefer_all-wanted key none cs, prefer_all-wanted key (some delivered_elsewhere) cs)
prefer_all-wanted key (some delivered_here) ((k, delivered_here) ∷ cs) =
    ground (arith, prefer_all-wanted key (some delivered_here) cs)
prefer_all-wanted key (some delivered_here) ((k, delivered_elsewhere) ∷ cs) =
    ground (arith, prefer_all-wanted key (some delivered_here) cs)
prefer_all-wanted key (some delivered_elsewhere) ((k, delivered_here) ∷ cs) = ground (
  arith,
  prefer_all-wanted key (some delivered_here) cs,
  prefer_all-wanted key (some delivered_elsewhere) cs,
)
prefer_all-wanted key (some delivered_elsewhere) ((k, delivered_elsewhere) ∷ cs) =
    ground (arith, prefer_all-wanted key (some delivered_elsewhere) cs)

-- Every claim of every owner.
unfoldable pub all_claims : Dict Owner (Dict Key Delivery) → List Claim
all_claims [] = []
all_claims ((o, claimed) ∷ rest) = claimed ++ all_claims rest

prefer_all-append :
    (key : Key) (current : Option Delivery) (cs ds : List Claim)
    → prefer_all key current (cs ++ ds) ≡ prefer_all key (prefer_all key current cs) ds
unfolding prefer_all
prefer_all-append key current [] ds = refl
prefer_all-append key current (c ∷ cs) ds = prefer_all-append key (prefer key current c) cs ds

lookup-union_from :
    (desired : Dict Key Delivery) (claims : Dict Owner (Dict Key Delivery)) (key : Key)
    → lookup key_discrete key (union desired claims)
      ≡ prefer_all key (lookup key_discrete key desired) (all_claims claims)
unfolding union all_claims prefer_all
lookup-union_from desired [] key = refl
lookup-union_from desired ((o, claimed) ∷ rest) key =
    lookup-union_from (merge_claims desired claimed) rest key
    ∙ ap (λ c. prefer_all key c (all_claims rest)) (lookup-merge_claims desired claimed key)
    ∙ sym (prefer_all-append key (lookup key_discrete key desired) claimed (all_claims rest))

-- The union of the claims delivers each key as its claims want it: here if one of them says so,
-- elsewhere if it has claims and none says here, and not at all if it has no claim.
pub lookup-union :
    (claims : Dict Owner (Dict Key Delivery)) (key : Key)
    → lookup key_discrete key (union [] claims) ≡ wanted key (all_claims claims)
unfolding wanted_after lookup
lookup-union claims key =
    lookup-union_from [] claims key ∙ prefer_all-wanted key none (all_claims claims)
