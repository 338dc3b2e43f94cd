-- ===== src/Alloc/Claims/Keeps.antt =====
-- The reconciler keeps values exclusive, step by step.
use Prim.Native.String.{String}
use juneau.Prelude.{◌≡◌, ◌≢◌, sym, subst, ◌∙◌, inl, inr, Option, some, [], ◌∷◌, Result, err}
use juneau.Prelude.Text.{string_discrete}
use juneau.Alloc.{AllocationValue, AllocationClaim, AllocationLease, AllocationPool, lease_name_for}
use juneau.Alloc.Used.{ApiError, conflict, Netip, AllocationResult}
use juneau.Alloc.Api.{Api}
use juneau.Alloc.Exec.{Exec}
use juneau.Alloc.Claims.Exclusive.{
  Agree, Put, Same, Exclusive, Live, Exclusive-agree, Exclusive-lease_put, Same-sym, Put-cases,
}
use juneau.Alloc.Claims.Laws.{Served, Runs, last, again}
use juneau.Alloc.Claims.Fit.{Fit}
use juneau.Alloc.Claims.Ensured.{Recorded, Unchanged, Ensured}

some_same : {A : Type 0} {x y : A} → ◌≡◌ {A = Option A} (some x) (some y) → x ≡ y
some_same p = cc p

module _ (n : Netip) {S : Type 0} (api : Api S) (sv : Served api) where
  abbrev pub E : S → Type 0
  E s = Exclusive n (sv.claims s) (sv.leases s)

  -- A retried call keeps what each of its runs keeps, where a run that ends in a conflict can be
  -- made again.
  pub retry-keeps :
      {A : Type 0} (P Q : S → Type 0) (f : Exec S A)
      → ((s : S) → P s → Q (f s).1)
      → ((s : S) → P s → (f s).0 ≡ err conflict → P (f s).1)
      → (s : S) (r : Result ApiError A × S) → P s
      → Runs f s r
      → Q r.1
  retry-keeps P Q f step redo s r p (last e) =
      subst (λ (x : Result ApiError _ × S). Q x.1) e (step s p)
  retry-keeps P Q f step redo s r p (again e rest) =
      retry-keeps P Q f step redo (f s).1 r (redo s p e) rest

  pub E-unchanged : (s t : S) → E s → Unchanged api sv s t → E t
  E-unchanged s t e (f, g) = Exclusive-agree n e f g

  -- What allows the status of the claim to be written.
  pub record Allowed (s : S) (c : AllocationClaim) (v : AllocationValue) : Type 0 where
    pub stored : sv.claims s c.name ≡ some c
    pub own :
        (p k : String) (l : AllocationLease)
        → c.pool_refs ≡ p ∷ []
        → sv.leases s k ≡ some l
        → l.spec.pool_ref ≡ p
        → Same n l.spec.value v
        → k ≡ lease_name_for c
    pub rivals :
        (p a : String) (d : AllocationClaim)
        → c.pool_refs ≡ p ∷ []
        → sv.claims s a ≡ some d
        → lease_name_for d ≢ lease_name_for c
        → Live p d
        → ¬ Same n d.status.value v

  pub Allowed-Unchanged :
      (s t : S) (c : AllocationClaim) (v : AllocationValue)
      → Unchanged api sv s t
      → Allowed s c v
      → Allowed t c v
  Allowed-Unchanged s t c v (f, g) h = record {
    stored = f c.name ∙ h.stored;
    own = λ p k l q r. h.own p k l q (sym (g k) ∙ r);
    rivals = λ p a d q r. h.rivals p a d q (sym (f a) ∙ r);
  }

  module _ (c : AllocationClaim) (pool : AllocationPool) (r : AllocationResult) (s : S) (e : E s)
      (fit : Fit n api sv s c r pool) where
    -- The lease that was written fits.
    put-E :
        (t : S) (l : AllocationLease)
        → Agree (sv.claims s) (sv.claims t)
        → Put (lease_name_for c) (some l) (sv.leases s) (sv.leases t)
        → Recorded c r pool l.spec
        → E t
    put-E t l f put rec =
        Exclusive-lease_put n e (lease_name_for c) l f put
          (λ b m p ne q same.
            fit.apart b m p ne (q ∙ rec.of_pool)
              (subst (λ (v : AllocationValue). Same n m.spec.value v) rec.of_value same))
          (λ a d p live same. elim (string_discrete (lease_name_for d) (lease_name_for c)) [
            | yes q ↦ sym q
            | no q ↦ absurd (
                fit.rivals a d p q (subst (λ (x : String). Live x d) rec.of_pool live) (
                  Same-sym n r.value d.status.value
                    (subst (λ (v : AllocationValue). Same n v d.status.value) rec.of_value same)))
          ])

    rivals-later :
        (t : S)
        → Agree (sv.claims s) (sv.claims t)
        → (p a : String) (d : AllocationClaim) → c.pool_refs ≡ p ∷ []
        → sv.claims t a ≡ some d
        → lease_name_for d ≢ lease_name_for c
        → Live p d
        → ¬ Same n d.status.value r.value
    rivals-later t f p a d q x ne live =
        fit.rivals a d (sym (f a) ∙ x) ne
          (subst (λ (y : String). Live y d) (sym (fit.listed p q)) live)

    put-Allowed :
        (t : S) (l : AllocationLease)
        → Agree (sv.claims s) (sv.claims t)
        → Put (lease_name_for c) (some l) (sv.leases s) (sv.leases t)
        → Recorded c r pool l.spec
        → Allowed t c r.value
    put-Allowed t l f put rec = record {
      stored = f c.name ∙ fit.stored;
      own = λ p k m q x y same.
          elim (Put-cases (lease_name_for c) k (some l) (sv.leases s) (sv.leases t) m put x) [
            | inl (z, w) ↦ z
            | inr (z, w) ↦ absurd (fit.apart k m w z (y ∙ sym (fit.listed p q)) same)
          ];
      rivals = rivals-later t f;
    }

    kept-Allowed : (t : S) → Unchanged api sv s t → Allowed t c r.value
    kept-Allowed t (f, g) = record {
      stored = f c.name ∙ fit.stored;
      own = λ p k m q x y same. elim (string_discrete k (lease_name_for c)) [
        | yes z ↦ z
        | no z ↦ absurd (fit.apart k m (sym (g k) ∙ x) z (y ∙ sym (fit.listed p q)) same)
      ];
      rivals = rivals-later t f;
    }

    pub Ensured-Allowed : (t : S) → Ensured api sv c pool r s t → E t × Allowed t c r.value
    unfolding Ensured
    Ensured-Allowed t (f, inl (l, put, rec)) = (put-E t l f put rec, put-Allowed t l f put rec)
    Ensured-Allowed t (f, inr g) = (E-unchanged s t e (f, g), kept-Allowed t (f, g))
