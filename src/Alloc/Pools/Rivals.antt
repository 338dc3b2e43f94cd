-- ===== src/Alloc/Pools/Rivals.antt =====
-- The other claims and leases of a pool, whose values a claim must not be given.
use Prim.Native.String.{String}
use text.Mathlib.TextEquality.{eq_iff}
use text.Mathlib.Text.{◌==◌ as str_eq}
use juneau.Prelude.{
  ℕ, true, false, any, ◌≡◌, ◌≢◌, refl, ap, inl, inr, Option, some, List, [], ◌∷◌, arith, Bool-cases,
  get_elem?, zero, suc,
}
use juneau.Alloc.{
  AllocationValue, AllocationClaim, AllocationLease, allocated, claim_references_pool, is_allocated,
}
use juneau.Alloc.Used.{counted_claim, counted_lease}

-- Two values stand for one key.
abbrev pub Clash :
    {K : Type 0} → (AllocationValue → Option K) → AllocationValue → AllocationValue → Type 0
Clash {K} key_of v w = (k : K) × (key_of v ≡ some k) × (key_of w ≡ some k)

-- The claim lists the pool among its candidates.
abbrev pub References : AllocationClaim → String → Type 0
References c pool = (i : ℕ) × (get_elem? c.pool_refs i ≡ some pool)

-- Another claim that has been given a value, and that may have it from this pool.
pub record Rival (pool self : String) (c : AllocationClaim) : Type 0 where
  pub other : c.name ≢ self
  pub referenced : References c pool
  pub given : c.status.phase ≡ allocated

-- Another lease of this pool.
pub record Reserved (pool self : String) (l : AllocationLease) : Type 0 where
  pub other : l.name ≢ self
  pub of_pool : l.spec.pool_ref ≡ pool

eq_no : (s t : String) → s ≢ t → str_eq s t ≡ false
eq_no s t n = elim (Bool-cases (str_eq s t)) [ inl e ↦ absurd (n ((eq_iff s t).0 e)) | inr e ↦ e ]

pub get-any :
    (refs : List String) (pool : String) (i : ℕ)
    → get_elem? refs i ≡ some pool
    → any (λ ref. str_eq ref pool) refs ≡ true
get-any [] pool i p = absurd (cc p)
get-any (r ∷ rs) pool zero p = ground (arith, (eq_iff r pool).1 (cc p))
get-any (r ∷ rs) pool (suc i) p = ground (arith, get-any rs pool i p)

pub any-get :
    (refs : List String) (pool : String)
    → any (λ ref. str_eq ref pool) refs ≡ true
    → (i : ℕ) × (get_elem? refs i ≡ some pool)
any-get [] pool p = absurd (cc p)
any-get (r ∷ rs) pool p = elim (Bool-cases (str_eq r pool)) [
  | inl e ↦ (0, ap some ((eq_iff r pool).0 e))
  | inr f ↦ let (i, q) = any-get rs pool (rw f at p) in (suc i, q)
]

pub Rival-counted :
    (pool self : String) (c : AllocationClaim)
    → Rival pool self c
    → counted_claim pool self c ≡ true
unfolding counted_claim claim_references_pool is_allocated
Rival-counted pool self c r =
    rw (eq_no c.name self r.other, get-any c.pool_refs pool r.referenced.0 r.referenced.1, r.given)
      refl

pub Reserved-counted :
    (pool self : String) (l : AllocationLease)
    → Reserved pool self l
    → counted_lease pool self l ≡ true
unfolding counted_lease
Reserved-counted pool self l r =
    rw ((eq_iff l.spec.pool_ref pool).1 r.of_pool, eq_no l.name self r.other) refl
