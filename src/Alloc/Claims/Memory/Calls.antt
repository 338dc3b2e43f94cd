-- ===== src/Alloc/Claims/Memory/Calls.antt =====
-- What each call of the API server in memory changes.
use Prim.Native.String.{String}
use juneau.Prelude.{
  ◌≡◌, ◌≢◌, refl, sym, ◌⊎◌, inl, inr, Bool, true, false, Option, none, some, ◌∷◌, ok, err, subst,
  ap, ite,
}
use juneau.Prelude.Text.{string_discrete}
use juneau.Alloc.{AllocationClaim, AllocationLease}
use juneau.Alloc.Used.{ApiError, conflict, other_failure}
use juneau.Alloc.Claims.Exclusive.{Agree, Put}
use juneau.Alloc.Claims.Memory.Find.{find, find-remove, visible-Put}
use juneau.Alloc.Claims.Memory.Server.{
  Cluster, Outcome, claim_at, lease_at, with_claims, with_leases, refused_or, create,
  unless_changed, change_claim,
}

refused_or-ok :
    (k : String) (s t : Cluster)
    → (refused_or k s (ok tt, t)).0 ≡ ok tt
    → (k ≢ "") × ((refused_or k s (ok tt, t)).1 ≡ t)
unfolding refused_or
refused_or-ok k s t p =
    elim (string_discrete k "")
        as (λ d.
          (ite {C = Outcome} d (err other_failure, s) (ok tt, t)).0 ≡ ok tt
          → (k ≢ "") × ((ite {C = Outcome} d (err other_failure, s) (ok tt, t)).1 ≡ t)) [
            | Dec.yes e ↦ λ q. absurd (cc q)
            | Dec.no e ↦ λ q. (e, refl)
          ]
      p

refused_or-err :
    (k : String) (s t : Cluster) (x : ApiError)
    → (refused_or k s (ok tt, t)).0 ≡ err x
    → (refused_or k s (ok tt, t)).1 ≡ s
unfolding refused_or
refused_or-err k s t x p =
    elim (string_discrete k "")
        as (λ d.
          (ite {C = Outcome} d (err other_failure, s) (ok tt, t)).0 ≡ err x
          → (ite {C = Outcome} d (err other_failure, s) (ok tt, t)).1 ≡ s) [
            | Dec.yes e ↦ λ q. refl
            | Dec.no e ↦ λ q. absurd (cc q)
          ]
      p

pub unless_changed-ok :
    {A : Type 0} (dec : Discrete A) (o : Option A) (x : A) (s : Cluster) (r : Outcome)
    → (unless_changed dec o x s r).0 ≡ ok tt
    → (o ≡ some x) × (unless_changed dec o x s r ≡ r)
unfolding unless_changed
unless_changed-ok dec none x s r p = absurd (cc p)
unless_changed-ok dec (some y) x s r p =
    elim (dec y x)
        as (λ d.
          (ite {C = Outcome} d r (err conflict, s)).0 ≡ ok tt
          → (some y ≡ some x) × (ite {C = Outcome} d r (err conflict, s) ≡ r)) [
            | Dec.yes e ↦ λ q. (ap some e, refl)
            | Dec.no e ↦ λ q. absurd (cc q)
          ]
      p

abbrev SameObjects : Cluster → Cluster → Type 0
SameObjects s t = Agree (claim_at s) (claim_at t) × Agree (lease_at s) (lease_at t)

pub unless_changed-same :
    {A : Type 0} (dec : Discrete A) (o : Option A) (x : A) (s : Cluster) (r : Outcome)
    (e : ApiError)
    → (r.0 ≡ err e → SameObjects s r.1)
    → (unless_changed dec o x s r).0 ≡ err e
    → SameObjects s (unless_changed dec o x s r).1
unfolding unless_changed
unless_changed-same dec none x s r e h p = ((λ m. refl), (λ m. refl))
unless_changed-same dec (some y) x s r e h p =
    elim (dec y x)
        as (λ d.
          (ite {C = Outcome} d r (err conflict, s)).0 ≡ err e
          → SameObjects s (ite {C = Outcome} d r (err conflict, s)).1) [
            | Dec.yes q ↦ h
            | Dec.no q ↦ λ q. ((λ m. refl), (λ m. refl))
          ]
      p

pub refused-same :
    (k : String) (s t : Cluster) (x : ApiError)
    → (refused_or k s (ok tt, t)).0 ≡ err x
    → SameObjects s (refused_or k s (ok tt, t)).1
refused-same k s t x p =
    subst (λ (u : Cluster). SameObjects s u) (sym (refused_or-err k s t x p))
      ((λ m. refl), (λ m. refl))

pub lease-put :
    (l : AllocationLease) (s : Cluster)
    → (refused_or l.name s (with_leases s (l ∷ s.leases))).0 ≡ ok tt
    → Agree (claim_at s) (claim_at (refused_or l.name s (with_leases s (l ∷ s.leases))).1)
      × Put l.name
          (some l)
          (lease_at s)
          (lease_at (refused_or l.name s (with_leases s (l ∷ s.leases))).1)
unfolding with_leases claim_at lease_at find
lease-put l s p =
    let t : Cluster = record s { leases = l ∷ s.leases } in
    let (named, eq) = refused_or-ok l.name s t p in
    subst
      (λ (u : Cluster).
        Agree (claim_at s) (claim_at u) × Put l.name (some l) (lease_at s) (lease_at u))
      (sym eq)
      (
        (λ m. refl),
        visible-Put l.name (some l) (find (λ x. x.name) s.leases) (find (λ x. x.name) t.leases)
            (inl named) (λ m. refl),
      )

pub claim-put :
    (c : AllocationClaim) (s : Cluster)
    → (refused_or c.name s (with_claims s (c ∷ s.claims))).0 ≡ ok tt
    → Put c.name
        (some c)
        (claim_at s)
        (claim_at (refused_or c.name s (with_claims s (c ∷ s.claims))).1)
      × Agree (lease_at s) (lease_at (refused_or c.name s (with_claims s (c ∷ s.claims))).1)
unfolding with_claims claim_at lease_at find
claim-put c s p =
    let t : Cluster = record s { claims = c ∷ s.claims } in
    let (named, eq) = refused_or-ok c.name s t p in
    subst
      (λ (u : Cluster).
        Put c.name (some c) (claim_at s) (claim_at u) × Agree (lease_at s) (lease_at u))
      (sym eq)
      (
        visible-Put c.name (some c) (find (λ x. x.name) s.claims) (find (λ x. x.name) t.claims)
            (inl named) (λ m. refl),
        (λ m. refl),
      )

module _ (l : AllocationLease) (s : Cluster) where
  pub create_refused-same :
      (o : Option AllocationLease) (x : ApiError)
      → (create o l s).0 ≡ err x
      → SameObjects s (create o l s).1
  unfolding create with_leases
  create_refused-same (some old) x p = ((λ m. refl), (λ m. refl))
  create_refused-same none x p = refused-same l.name s (record s { leases = l ∷ s.leases }) x p

  pub create-put :
      (o : Option AllocationLease)
      → (create o l s).0 ≡ ok tt
      → Agree (claim_at s) (claim_at (create o l s).1)
        × (uid : String) × Put l.name
            (some (record l { uid = uid }))
            (lease_at s)
            (lease_at (create o l s).1)
  unfolding create
  create-put (some old) p = absurd (cc p)
  create-put none p = let (f, put) = lease-put l s p in (f, l.uid, put)

module _ (c : AllocationClaim) (f : Bool) (s : Cluster) where
  pub change-refused :
      (b : Bool) (x : ApiError)
      → (change_claim b c f s).0 ≡ err x
      → SameObjects s (change_claim b c f s).1
  unfolding change_claim with_claims
  change-refused true x p = absurd (cc p)
  change-refused false x p =
      refused-same c.name s (record s { claims = record c { finalizer = f } ∷ s.claims }) x p

  pub change-put :
      (b : Bool)
      → (change_claim b c f s).0 ≡ ok tt
      → Agree (lease_at s) (lease_at (change_claim b c f s).1)
        × (Put c.name none (claim_at s) (claim_at (change_claim b c f s).1)
            ⊎ Put c.name
                (some (record c { finalizer = f }))
                (claim_at s)
                (claim_at (change_claim b c f s).1))
  unfolding change_claim with_claims lease_at claim_at
  change-put true p = (
    (λ m. refl),
    inl (
        visible-Put c.name none (find (λ x. x.name) s.claims) _ (inr refl)
          (find-remove (λ x. x.name) c.name s.claims)),
  )
  change-put false p = let (put, g) = claim-put (record c { finalizer = f }) s p in (g, inr put)
