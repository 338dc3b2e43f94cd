-- ===== src/Alloc/Watches/Cache.antt =====
-- A cache in memory with its two indexes, which answers as `Indexed` says.
use Prim.Native.String.{String}
use text.Mathlib.Text.{◌==◌ as str_eq}
use juneau.Prelude.{
  zero, suc, ◌≡◌, refl, sym, subst, Bool, true, false, List, [], ◌∷◌, any, ok, ok-injective,
  if◌then◌else◌,
}
use juneau.Alloc.{AllocationClaim, AllocationLease}
use juneau.Alloc.Pools.Rivals.{get-any, any-get}
use juneau.Alloc.Watches.{Lists, named_pools, retain_index}
use juneau.Alloc.Watches.Woken.{In, Indexed}

module _ {A : Type 0} (index : A → List String) (key : String) where
  found : List A → List A
  found [] = []
  found (x ∷ xs) =
      let rest = found xs in if any (λ k. str_eq k key) (index x) then x ∷ rest else rest

  found_sound : (xs : List A) (x : A) → In x (found xs) → In x xs × In key (index x)
  unfolding found
  found_sound [] x (i, p) = absurd (cc p)
  found_sound (y ∷ ys) x here =
      kept (any (λ k. str_eq k key) (index y)) refl here (found_sound ys x)
    where
      kept :
          (b : Bool)
          → any (λ k. str_eq k key) (index y) ≡ b
          → In x (if b then y ∷ found ys else found ys)
          → (In x (found ys) → In x ys × In key (index x))
          → In x (y ∷ ys) × In key (index x)
      kept true e (zero, p) rest =
          let same : y ≡ x = cc p in
          ((zero, p), subst (λ (z : A). In key (index z)) same (any-get (index y) key e))
      kept true e (suc i, p) rest = let ((j, q), at) = rest (i, p) in ((suc j, q), at)
      kept false e there rest = let ((j, q), at) = rest there in ((suc j, q), at)

  found_complete : (xs : List A) (x : A) → In x xs → In key (index x) → In x (found xs)
  unfolding found
  found_complete [] x (i, p) at = absurd (cc p)
  found_complete (y ∷ ys) x here at =
      kept (any (λ k. str_eq k key) (index y)) refl here (λ there. found_complete ys x there at)
    where
      kept :
          (b : Bool)
          → any (λ k. str_eq k key) (index y) ≡ b
          → In x (y ∷ ys)
          → (In x ys → In x (found ys))
          → In x (if b then y ∷ found ys else found ys)
      kept true e (zero, p) rest = (zero, p)
      kept true e (suc i, p) rest = let (j, q) = rest (i, p) in (suc j, q)
      kept false e (zero, p) rest =
          let same : y ≡ x = cc p in
          let (j, q) = at in absurd (cc (e, same, get-any (index x) key j q))
      kept false e (suc i, p) rest = rest (i, p)

unfoldable pub cached : List AllocationClaim → List AllocationLease → Lists
unfolding found
cached claims leases = record {
  claims = λ key. ok (found (λ c. named_pools c.pool_refs) key claims);
  leases = λ key. ok (found (λ l. retain_index l.spec.retain_while) key leases);
}

pub cached-Indexed :
    (claims : List AllocationClaim) (leases : List AllocationLease)
    → Indexed (cached claims leases) claims leases
unfolding cached
cached-Indexed claims leases = record {
  claims_found = λ key cs c p.
      let index : AllocationClaim → List String = λ c. named_pools c.pool_refs in
      let e = ok-injective p in
      (
        λ here.
            found_sound index key claims c
              (subst (λ (ds : List AllocationClaim). In c ds) (sym e) here),
        λ (stored, at).
            subst (λ (ds : List AllocationClaim). In c ds) e
              (found_complete index key claims c stored at),
      );
  leases_found = λ key ls l p.
      let index : AllocationLease → List String = λ l. retain_index l.spec.retain_while in
      let e = ok-injective p in
      (
        λ here.
            found_sound index key leases l
              (subst (λ (ds : List AllocationLease). In l ds) (sym e) here),
        λ (stored, at).
            subst (λ (ds : List AllocationLease). In l ds) e
              (found_complete index key leases l stored at),
      );
}
