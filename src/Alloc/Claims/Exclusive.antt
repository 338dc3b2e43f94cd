-- ===== src/Alloc/Claims/Exclusive.antt =====
-- No value is given to two claims: the invariant, and how it passes a change of one object.
use Prim.Native.String.{String}
use juneau.Prelude.{
  ◌≡◌, ◌≢◌, sym, ◌∙◌, ◌⊎◌, inl, inr, Option, none, some, [], ◌∷◌, ite, if_pos, if_neg, subst, ap,
}
use juneau.Prelude.Text.{string_discrete}
use juneau.Alloc.{AllocationValue, AllocationClaim, AllocationLease, allocated, lease_name_for}
use juneau.Alloc.Used.{Netip, number_key, ip_key}
use juneau.Alloc.Pools.Rivals.{Clash}

-- The objects of a kind, by their names.
abbrev pub Objects : Type 0 → Type 0
Objects A = String → Option A

abbrev pub Agree : {A : Type 0} → Objects A → Objects A → Type 0
Agree f g = (m : String) → g m ≡ f m

-- `g` is `f` with `o` under the name `k`.
abbrev pub Put : {A : Type 0} → String → Option A → Objects A → Objects A → Type 0
Put k o f g = (m : String) → g m ≡ ite (string_discrete k m) o (f m)

-- The same number, or the same address; zero and the empty text are no values.
unfoldable pub Same : Netip → AllocationValue → AllocationValue → Type 0
Same n v w = Clash number_key v w ⊎ Clash (ip_key n.parse_addr) v w

-- A claim that has been given a value and lists one pool.
pub record Live (p : String) (c : AllocationClaim) : Type 0 where
  pub given : c.status.phase ≡ allocated
  pub one_pool : c.pool_refs ≡ p ∷ []

pub record Exclusive (n : Netip) (claims : Objects AllocationClaim)
    (leases : Objects AllocationLease) : Type 0 where
  -- Two leases of one pool reserve different values.
  pub leases_apart :
      (a b : String) (l m : AllocationLease)
      → leases a ≡ some l
      → leases b ≡ some m
      → a ≢ b
      → l.spec.pool_ref ≡ m.spec.pool_ref
      → ¬ Same n l.spec.value m.spec.value
  -- Where a claim has the value of a lease of its pool, the lease is the one of its key.
  pub backed :
      (a k p : String) (c : AllocationClaim) (l : AllocationLease)
      → claims a ≡ some c
      → Live p c
      → leases k ≡ some l
      → l.spec.pool_ref ≡ p
      → Same n l.spec.value c.status.value
      → k ≡ lease_name_for c
  -- Two claims of one pool with different keys have different values.
  pub claims_apart :
      (a b p : String) (c d : AllocationClaim)
      → claims a ≡ some c
      → claims b ≡ some d
      → lease_name_for c ≢ lease_name_for d
      → Live p c
      → Live p d
      → ¬ Same n c.status.value d.status.value

pub Same-sym : (n : Netip) (v w : AllocationValue) → Same n v w → Same n w v
unfolding Same
Same-sym n v w (inl (k, p, q)) = inl (k, q, p)
Same-sym n v w (inr (k, p, q)) = inr (k, q, p)

pub Put-cases :
    {A : Type 0} (k m : String) (o : Option A) (f g : Objects A) (x : A)
    → Put k o f g
    → g m ≡ some x
    → ((m ≡ k) × (o ≡ some x)) ⊎ ((m ≢ k) × (f m ≡ some x))
Put-cases k m o f g x put e = elim (string_discrete k m) [
  | yes p ↦ inl (sym p, sym (put m ∙ if_pos (string_discrete k m) p o (f m)) ∙ e)
  | no q ↦ inr ((λ p. q (sym p)), sym (put m ∙ if_neg (string_discrete k m) q o (f m)) ∙ e)
]

some_eq : {A : Type 0} (x y : A) → ◌≡◌ {A = Option A} (some x) (some y) → x ≡ y
some_eq x y p = cc p

module _ (n : Netip) {cl cl' : Objects AllocationClaim} {ls ls' : Objects AllocationLease}
    (e : Exclusive n cl ls) where
  pub Exclusive-agree : Agree cl cl' → Agree ls ls' → Exclusive n cl' ls'
  Exclusive-agree f g = record {
    leases_apart = λ a b l m p q. e.leases_apart a b l m (sym (g a) ∙ p) (sym (g b) ∙ q);
    backed = λ a k p c l q live r. e.backed a k p c l (sym (f a) ∙ q) live (sym (g k) ∙ r);
    claims_apart = λ a b p c d q r. e.claims_apart a b p c d (sym (f a) ∙ q) (sym (f b) ∙ r);
  }

module _ (n : Netip) {cl cl' : Objects AllocationClaim} {ls ls' : Objects AllocationLease}
    (e : Exclusive n cl ls) where
  pub Exclusive-lease_gone : (k : String) → Agree cl cl' → Put k none ls ls' → Exclusive n cl' ls'
  Exclusive-lease_gone k f put =
      let old : (m : String) (l : AllocationLease) → ls' m ≡ some l → ls m ≡ some l = λ m l p.
        elim (Put-cases k m none ls ls' l put p) [ inl (q, r) ↦ absurd (cc r) | inr (q, r) ↦ r ] in
      record {
        leases_apart = λ a b l m p q. e.leases_apart a b l m (old a l p) (old b m q);
        backed = λ a k' p c l q live r. e.backed a k' p c l (sym (f a) ∙ q) live (old k' l r);
        claims_apart = λ a b p c d q r. e.claims_apart a b p c d (sym (f a) ∙ q) (sym (f b) ∙ r);
      }

  pub Exclusive-claim_gone : (k : String) → Put k none cl cl' → Agree ls ls' → Exclusive n cl' ls'
  Exclusive-claim_gone k put g =
      let old : (m : String) (c : AllocationClaim) → cl' m ≡ some c → cl m ≡ some c = λ m c p.
        elim (Put-cases k m none cl cl' c put p) [ inl (q, r) ↦ absurd (cc r) | inr (q, r) ↦ r ] in
      record {
        leases_apart = λ a b l m p q. e.leases_apart a b l m (sym (g a) ∙ p) (sym (g b) ∙ q);
        backed = λ a k' p c l q live r. e.backed a k' p c l (old a c q) live (sym (g k') ∙ r);
        claims_apart = λ a b p c d q r. e.claims_apart a b p c d (old a c q) (old b d r);
      }

  -- A lease is written whose value no other lease of the pool reserves, and no claim has but its own.
  pub Exclusive-lease_put :
      (k : String) (l0 : AllocationLease)
      → Agree cl cl'
      → Put k (some l0) ls ls'
      → ((b : String) (m : AllocationLease)
          → ls b ≡ some m
          → b ≢ k
          → m.spec.pool_ref ≡ l0.spec.pool_ref
          → ¬ Same n m.spec.value l0.spec.value)
      → ((a : String) (c : AllocationClaim)
          → cl a ≡ some c
          → Live l0.spec.pool_ref c
          → Same n l0.spec.value c.status.value
          → k ≡ lease_name_for c)
      → Exclusive n cl' ls'
  Exclusive-lease_put k l0 f put apart own = record {
    leases_apart = λ a b l m p q ne pools same. elim (Put-cases k a (some l0) ls ls' l put p) [
      | inl (x, y) ↦ elim (Put-cases k b (some l0) ls ls' m put q) [
        | inl (z, w) ↦ ne (x ∙ sym z)
        | inr (z, w) ↦
            let eq = some_eq l0 l y in
            apart b m w z (sym pools ∙ sym (ap (λ (t : AllocationLease). t.spec.pool_ref) eq)) (
              Same-sym n l0.spec.value m.spec.value
                (subst (λ (t : AllocationLease). Same n t.spec.value m.spec.value) (sym eq) same))
      ]
      | inr (x, y) ↦ elim (Put-cases k b (some l0) ls ls' m put q) [
        | inl (z, w) ↦
            let eq = some_eq l0 m w in
            apart a l y x (pools ∙ sym (ap (λ (t : AllocationLease). t.spec.pool_ref) eq))
              (subst (λ (t : AllocationLease). Same n l.spec.value t.spec.value) (sym eq) same)
        | inr (z, w) ↦ e.leases_apart a b l m y w ne pools same
      ]
    ];
    backed = λ a k' p c l q live r pool same. elim (Put-cases k k' (some l0) ls ls' l put r) [
      | inl (x, y) ↦
          let eq = some_eq l0 l y in
          x
          ∙ own a c (sym (f a) ∙ q)
              (subst (λ (t : String). Live t c)
                (sym pool ∙ sym (ap (λ (t : AllocationLease). t.spec.pool_ref) eq)) live)
              (subst (λ (t : AllocationLease). Same n t.spec.value c.status.value) (sym eq) same)
      | inr (x, y) ↦ e.backed a k' p c l (sym (f a) ∙ q) live y pool same
    ];
    claims_apart = λ a b p c d q r. e.claims_apart a b p c d (sym (f a) ∙ q) (sym (f b) ∙ r);
  }

  -- A claim is written whose value no lease of its pool has but that of its key, and no claim of
  -- another key.
  pub Exclusive-claim_put :
      (k : String) (c0 : AllocationClaim)
      → Put k (some c0) cl cl'
      → Agree ls ls'
      → ((p k' : String) (l : AllocationLease)
          → Live p c0
          → ls k' ≡ some l
          → l.spec.pool_ref ≡ p
          → Same n l.spec.value c0.status.value
          → k' ≡ lease_name_for c0)
      → ((p b : String) (d : AllocationClaim)
          → Live p c0
          → cl b ≡ some d
          → lease_name_for d ≢ lease_name_for c0
          → Live p d
          → ¬ Same n d.status.value c0.status.value)
      → Exclusive n cl' ls'
  Exclusive-claim_put k c0 put g own apart = record {
    leases_apart = λ a b l m p q. e.leases_apart a b l m (sym (g a) ∙ p) (sym (g b) ∙ q);
    backed = λ a k' p c l q live r pool same. elim (Put-cases k a (some c0) cl cl' c put q) [
      | inl (x, y) ↦
          let eq = some_eq c0 c y in
          own p k' l (subst (λ (t : AllocationClaim). Live p t) (sym eq) live) (sym (g k') ∙ r) pool
            (subst (λ (t : AllocationClaim). Same n l.spec.value t.status.value) (sym eq) same)
          ∙ ap lease_name_for eq
      | inr (x, y) ↦ e.backed a k' p c l y live (sym (g k') ∙ r) pool same
    ];
    claims_apart = λ a b p c d q r keys live live' same.
        elim (Put-cases k a (some c0) cl cl' c put q) [
          | inl (x, y) ↦ elim (Put-cases k b (some c0) cl cl' d put r) [
            | inl (z, w) ↦ keys (ap lease_name_for (sym (some_eq c0 c y) ∙ some_eq c0 d w))
            | inr (z, w) ↦
                let eq = some_eq c0 c y in
                apart p b d (subst (λ (t : AllocationClaim). Live p t) (sym eq) live) w
                  (λ q. keys (sym (ap lease_name_for eq) ∙ sym q)) live'
                  (Same-sym n c0.status.value d.status.value (
                    subst (λ (t : AllocationClaim). Same n t.status.value d.status.value) (sym eq)
                      same))
          ]
          | inr (x, y) ↦ elim (Put-cases k b (some c0) cl cl' d put r) [
            | inl (z, w) ↦
                let eq = some_eq c0 d w in
                apart p a c (subst (λ (t : AllocationClaim). Live p t) (sym eq) live') y
                  (λ q. keys (q ∙ ap lease_name_for eq)) live
                  (subst (λ (t : AllocationClaim). Same n c.status.value t.status.value) (sym eq)
                    same)
            | inr (z, w) ↦ e.claims_apart a b p c d y w keys live live' same
          ]
        ];
  }
