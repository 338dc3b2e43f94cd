-- ===== src/Alloc/Watches/Woken.antt =====
-- Whom an event wakes.
use Prim.Native.String.{String}
use text.Mathlib.Text.{◌==◌ as str_eq}
use text.Mathlib.TextEquality.{eq_iff}
use juneau.Prelude.{
  ℕ, zero, suc, ◌≡◌, ◌≢◌, refl, sym, ap, ◌∙◌, subst, ◌↔◌, inl, inr, true, false, Option, none, some,
  List, [], ◌∷◌, map, get_elem?, Result, ok, Bool, Bool-cases, if◌then◌else◌,
}
use juneau.Prelude.Text.{str_eq-false}
use juneau.Alloc.{AllocationClaim, AllocationLease, RetainReference}
use juneau.Alloc.Pools.Rivals.{References}
use juneau.Alloc.Used.{ApiError}
use juneau.Alloc.Watches.{
  Lists, Event, create_event, update_event, delete_event, generic_event, retain_reference_key,
  named_pools, retain_index, requests_for, claims_referencing_pool, map_lease_to_claims,
  woken_by_lease, map_retained_object_to_leases,
}
use juneau.Alloc.Watches.Keys.{SlashFree, retain_reference_key-injective}

abbrev pub In : {A : Type 0} → A → List A → Type 0
In x xs = (i : ℕ) × (get_elem? xs i ≡ some x)

-- The documented answer of `r.List` for one value of an index: the objects in the cache whose index
-- has it.
pub record Indexed (lists : Lists) (claims : List AllocationClaim) (leases : List AllocationLease)
    : Type 0 where
  pub claims_found :
      (key : String) (cs : List AllocationClaim) (c : AllocationClaim)
      → lists.claims key ≡ ok cs
      → In c cs ↔ (In c claims × In key (named_pools c.pool_refs))
  pub leases_found :
      (key : String) (ls : List AllocationLease) (l : AllocationLease)
      → lists.leases key ≡ ok ls
      → In l ls ↔ (In l leases × In key (retain_index l.spec.retain_while))

module _ {A : Type 0} (name : A → String) where
  In-map : (xs : List A) (x : A) → In x xs → In (name x) (map name xs)
  In-map [] x (i, p) = absurd (cc p)
  In-map (y ∷ ys) x (zero, p) = (0, ap some (cc p))
  In-map (y ∷ ys) x (suc i, p) = let (j, q) = In-map ys x (i, p) in (suc j, q)

  map-In : (xs : List A) (k : String) → In k (map name xs) → (x : A) × In x xs × (name x ≡ k)
  map-In [] k (i, p) = absurd (cc p)
  map-In (y ∷ ys) k (zero, p) = (y, (0, refl), cc p)
  map-In (y ∷ ys) k (suc i, p) = let (x, (j, q), e) = map-In ys k (i, p) in (x, (suc j, q), e)

  requests_for-In :
      (answer : Result ApiError (List A)) (xs : List A) (k : String)
      → answer ≡ ok xs
      → In k (requests_for name answer) ↔ ((x : A) × In x xs × (name x ≡ k))
  unfolding requests_for
  requests_for-In answer xs k p = rw p (
    map-In xs k,
    λ (x, there, e). subst (λ (j : String). In j (map name xs)) e (In-map xs x there),
  )

-- One reference of the index, given the rest.
module _ (r pool : String) (refs : List String) where
  ref_sound :
      (b : Bool)
      → str_eq r "" ≡ b
      → (In pool (named_pools refs) → (pool ≢ "") × In pool refs)
      → In pool (if b then named_pools refs else r ∷ named_pools refs)
      → (pool ≢ "") × In pool (r ∷ refs)
  ref_sound true e rest found = let (named, (i, p)) = rest found in (named, (suc i, p))
  ref_sound false e rest (zero, p) =
      let same : r ≡ pool = cc p in ((λ q. str_eq-false r "" e (same ∙ q)), (zero, p))
  ref_sound false e rest (suc i, p) = let (named, (j, q)) = rest (i, p) in (named, (suc j, q))

  ref_complete :
      (b : Bool)
      → str_eq r "" ≡ b
      → pool ≢ ""
      → (In pool refs → In pool (named_pools refs))
      → In pool (r ∷ refs)
      → In pool (if b then named_pools refs else r ∷ named_pools refs)
  ref_complete true e named rest (zero, p) =
      let same : r ≡ pool = cc p in absurd (named (sym same ∙ (eq_iff r "").0 e))
  ref_complete false e named rest (zero, p) = (0, p)
  ref_complete true e named rest (suc i, p) = rest (i, p)
  ref_complete false e named rest (suc i, p) = let (j, q) = rest (i, p) in (suc j, q)

named_pools-In :
    (refs : List String) (pool : String) → In pool (named_pools refs) ↔ ((pool ≢ "") × In pool refs)
unfolding named_pools
named_pools-In [] pool = ((λ (i, p). absurd (cc p)), (λ (named, (i, p)). absurd (cc p)))
named_pools-In (r ∷ refs) pool =
    let (to, from) = named_pools-In refs pool in
    (
      ref_sound r pool refs (str_eq r "") refl to,
      λ (named, here).
          ref_complete r pool refs (str_eq r "") refl named (λ later. from (named, later)) here,
    )

retain_index-In :
    (waits : Option RetainReference) (object : RetainReference)
    → SlashFree object
    → ((ref : RetainReference) → waits ≡ some ref → SlashFree ref)
    → In (retain_reference_key object) (retain_index waits) ↔ (waits ≡ some object)
unfolding retain_index
retain_index-In none object free all_free = ((λ (i, p). absurd (cc p)), (λ p. absurd (cc p)))
retain_index-In (some ref) object free all_free = (
  λ (i, p). ap some (retain_reference_key-injective ref object (all_free ref refl) free (only i p)),
  λ p. (0, ap some (ap retain_reference_key (inner p))),
)
  where
    only :
        (i : ℕ)
        → get_elem? (retain_reference_key ref ∷ []) i ≡ some (retain_reference_key object)
        → retain_reference_key ref ≡ retain_reference_key object
    only zero p = cc p
    only (suc i) p = absurd (cc p)

    inner : ◌≡◌ {A = Option RetainReference} (some ref) (some object) → ref ≡ object
    inner p = cc p

module _ (lists : Lists) (claims : List AllocationClaim) (leases : List AllocationLease)
    (index : Indexed lists claims leases) where
  -- The claims among the stored ones that list a pool.
  claims_referencing_pool-In :
      (pool k : String) (cs : List AllocationClaim)
      → lists.claims pool ≡ ok cs
      → In k (claims_referencing_pool lists pool)
        ↔ ((pool ≢ "") × (c : AllocationClaim) × In c claims × (c.name ≡ k) × References c pool)
  unfolding claims_referencing_pool
  claims_referencing_pool-In pool k cs found =
      let (to, from) = requests_for-In (λ c. c.name) (lists.claims pool) cs k found in
      (
        λ there.
            let (c, listed, named) = to there in
            let (stored, at) = (index.claims_found pool cs c found).0 listed in
            let (real, references) = (named_pools-In c.pool_refs pool).0 at in
            (real, c, stored, named, references),
        λ (real, c, stored, named, references). from (
          c,
          (index.claims_found pool cs c found).1
              (stored, (named_pools-In c.pool_refs pool).1 (real, references)),
          named,
        ),
      )

  map_lease_to_claims-In :
      (lease : AllocationLease) (k : String) (cs : List AllocationClaim)
      → lists.claims lease.spec.pool_ref ≡ ok cs
      → In k (map_lease_to_claims lists lease) ↔ (
          (lease.spec.pool_ref ≢ "")
          × (c : AllocationClaim) × In c claims
          × (c.name ≡ k)
          × References c lease.spec.pool_ref)
  unfolding map_lease_to_claims
  map_lease_to_claims-In lease k cs found = elim (Bool-cases (str_eq lease.spec.pool_ref "")) [
    | inl t ↦
        rw t ((λ (i, p). absurd (cc p)), λ x. absurd (x.0 ((eq_iff lease.spec.pool_ref "").0 t)))
    | inr f ↦ rw f (claims_referencing_pool-In lease.spec.pool_ref k cs found)
  ]

  -- An event on a lease wakes the claims that list the pool of the lease, if it is the deletion of a
  -- lease with a pool, and no others; the cache must have been read.
  pub woken_by_lease_iff :
      (event : Event) (lease : AllocationLease) (k : String) (cs : List AllocationClaim)
      → lists.claims lease.spec.pool_ref ≡ ok cs
      → In k (woken_by_lease lists event lease) ↔ (
          (event ≡ delete_event)
          × (lease.spec.pool_ref ≢ "")
          × (c : AllocationClaim) × In c claims
          × (c.name ≡ k)
          × References c lease.spec.pool_ref)
  unfolding woken_by_lease
  woken_by_lease_iff delete_event lease k cs found =
      let (to, from) = map_lease_to_claims-In lease k cs found in
      (
        λ there.
            let (real, c, stored, named, lists_it) = to there in
            (refl, real, c, stored, named, lists_it),
        λ (e, real, c, stored, named, lists_it). from (real, c, stored, named, lists_it),
      )
  woken_by_lease_iff create_event lease k cs found =
      ((λ (i, p). absurd (cc p)), (λ x. absurd (cc x.0)))
  woken_by_lease_iff update_event lease k cs found =
      ((λ (i, p). absurd (cc p)), (λ x. absurd (cc x.0)))
  woken_by_lease_iff generic_event lease k cs found =
      ((λ (i, p). absurd (cc p)), (λ x. absurd (cc x.0)))

  -- An event on an object wakes the leases that wait for it and no others, if the kinds, namespaces
  -- and names of the object and of what the leases wait for have no slash, and the cache was read.
  pub retained_iff :
      (object : RetainReference) (k : String) (ls : List AllocationLease)
      → SlashFree object
      → ((l : AllocationLease) (ref : RetainReference)
          → In l leases
          → l.spec.retain_while ≡ some ref
          → SlashFree ref)
      → lists.leases (retain_reference_key object) ≡ ok ls
      → In k (map_retained_object_to_leases lists object)
        ↔ ((l : AllocationLease) × In l leases × (l.name ≡ k) × (l.spec.retain_while ≡ some object))
  unfolding map_retained_object_to_leases
  retained_iff object k ls free all_free found =
      let (to, from) =
        requests_for-In (λ l. l.name) (lists.leases (retain_reference_key object)) ls k found in
      (
        λ there.
            let (l, listed, named) = to there in
            let (stored, at) =
              (index.leases_found (retain_reference_key object) ls l found).0 listed in
            (
              l,
              stored,
              named,
              (retain_index-In l.spec.retain_while object free (λ ref e. all_free l ref stored e)).0
                  at,
            ),
        λ (l, stored, named, waits). from (
          l,
          (index.leases_found (retain_reference_key object) ls l found).1 (
            stored,
            (retain_index-In l.spec.retain_while object free (λ ref e. all_free l ref stored e)).1
                waits,
          ),
          named,
        ),
      )
