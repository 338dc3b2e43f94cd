-- ===== src/Policy/Rotator/Swap.antt =====
-- What the data plane reads after a rotation, and after one that failed.
use juneau.Prelude.{
  ℕ, ◌≡◌, ◌≢◌, refl, sym, ap, ◌∙◌, subst, Option, none, some, ◌==◌, ok, ℕ_discrete, Result-cases,
  Bool-cases, Option-cases, inl, inr, if_pos, if_neg, arith,
}
use juneau.Prelude.Dict.{lookup, insert, lookup-insert}
use juneau.Policy.Rotator.{
  Kernel, KernelLaws, KernelError, SameView, Rotator, RotatorError, close_quietly, close_old,
  commit, swap, apply,
}

module _ {S V M : Type 0} (k : Kernel S V M) where
  -- The rule that the data plane finds in a slot of an id.
  pub rule_at : S → ℕ → ℕ → Option V
  rule_at s id i = elim (k.inner_of s id) [ none ↦ none | some h ↦ k.slot_of s h i ]

  -- Only the inner map `h` differs between two states.
  pub record OnlyInner (h : ℕ) (s s' : S) : Type 0 where
    pub inner_kept : (id : ℕ) → k.inner_of s' id ≡ k.inner_of s id
    pub slots_kept : (g i : ℕ) → g ≢ h → k.slot_of s' g i ≡ k.slot_of s g i
    pub meta_kept : (id : ℕ) → k.meta_of s' id ≡ k.meta_of s id

  -- Nothing but meta values differs.
  pub record OnlyMeta (s s' : S) : Type 0 where
    pub inner_kept : (id : ℕ) → k.inner_of s' id ≡ k.inner_of s id
    pub slots_kept : (h i : ℕ) → k.slot_of s' h i ≡ k.slot_of s h i

  SameView-refl : (s : S) → SameView k s s
  SameView-refl s = record {
    same_inner = λ id. refl;
    same_slots = λ h i. refl;
    same_meta = λ id. refl;
  }

  rule_at-kept :
      (s s' : S) (id i : ℕ)
      → k.inner_of s' id ≡ k.inner_of s id
      → ((h : ℕ) → k.inner_of s id ≡ some h → k.slot_of s' h i ≡ k.slot_of s h i)
      → rule_at s' id i ≡ rule_at s id i
  unfolding rule_at
  rule_at-kept s s' id i e f = elim (Option-cases (k.inner_of s id)) [
    | inl p ↦ rw (e, p, rule_at)
    | inr (h, p) ↦ rw (e, p, rule_at) (f h p)
  ]

  rule_at-SameView : (s s' : S) (id i : ℕ) → SameView k s s' → rule_at s' id i ≡ rule_at s id i
  rule_at-SameView s s' id i v = rule_at-kept s s' id i (v.same_inner id) (λ h _. v.same_slots h i)

module _ {S V M : Type 0} (k : Kernel S V M) (laws : KernelLaws k) where
  close_quietly-SameView : (h : ℕ) (s : S) → SameView k s (close_quietly k h s)
  unfolding close_quietly
  close_quietly-SameView h s = elim (Result-cases (k.close h s)) [
    | inl (s', e) ↦ rw (e, close_quietly) (laws.close_view s s' h e)
    | inr (x, e) ↦ rw (e, close_quietly) (SameView-refl k s)
  ]

  close_old-SameView : (o : Option ℕ) (s : S) → SameView k s (close_old k o s)
  unfolding close_old
  close_old-SameView none s = SameView-refl k s
  close_old-SameView (some h) s = close_quietly-SameView h s

  swap_failed :
      (r r' : Rotator S) (id inner : ℕ) (write_meta : S → S × Option KernelError)
      (written : S × Option KernelError) (e : RotatorError)
      → swap k r id inner write_meta written ≡ (r', some e)
      → SameView k written.0 r'.kernel × (r'.snapshots ≡ r.snapshots)
  unfolding swap
  swap_failed r r' id inner write_meta (s, some x) e h =
      let q : record r { kernel = close_quietly k inner s } ≡ r' = ap (λ p. p.0) h in
      subst (λ (y : Rotator S). SameView k s y.kernel × (y.snapshots ≡ r.snapshots)) q
        (close_quietly-SameView inner s, refl)
  swap_failed r r' id inner write_meta (s, none) e h = elim (Result-cases (k.install id inner s)) [
    | inl (s', p) ↦ absurd (none_some _ _ e (rw (p, swap) at h))
    | inr (x, p) ↦
        let q : record r { kernel = close_quietly k inner s } ≡ r' =
          ap (λ p. p.0) (rw (p, swap) at h) in
        subst (λ (y : Rotator S). SameView k s y.kernel × (y.snapshots ≡ r.snapshots)) q
          (close_quietly-SameView inner s, refl)
  ]
    where
      none_some :
          (a b : Rotator S) (x : RotatorError)
          → ◌≡◌ {A = Rotator S × Option RotatorError} (a, none) (b, some x)
          → ⊥
      none_some a b x e = cc

  -- What a completed swap leaves behind.
  Swapped :
      Rotator S → ℕ → ℕ → (S → S × Option KernelError) → S × Option KernelError → Rotator S → Type 0
  Swapped r id inner write_meta written r' =
      (s : S) × (written.1 ≡ none)
      × (k.install id inner written.0 ≡ ok s)
      × SameView k (write_meta s).0 r'.kernel
      × (r'.snapshots ≡ insert ℕ_discrete id inner r.snapshots)

  swap_done :
      (r r' : Rotator S) (id inner : ℕ) (write_meta : S → S × Option KernelError)
      (written : S × Option KernelError)
      → swap k r id inner write_meta written ≡ (r', none)
      → Swapped r id inner write_meta written r'
  unfolding swap Swapped commit
  swap_done r r' id inner write_meta (s, some x) h = absurd (cc h)
  swap_done r r' id inner write_meta (s, none) h = elim (Result-cases (k.install id inner s)) [
    | inr (x, p) ↦ absurd (some_none _ _ _ (rw (p, swap) at h))
    | inl (s', p) ↦
        let q : commit k r id inner (write_meta s').0 ≡ r' = ap (λ p. p.0) (rw (p, swap) at h) in
        (
          s',
          refl,
          p,
          subst (λ (y : Rotator S). SameView k (write_meta s').0 y.kernel) q
              (close_old-SameView (lookup ℕ_discrete id r.snapshots) (write_meta s').0),
          sym (ap (λ y. y.snapshots) q),
        )
  ]
    where
      some_none :
          (a b : Rotator S) (x : RotatorError)
          → ◌≡◌ {A = Rotator S × Option RotatorError} (a, some x) (b, none)
          → ⊥
      some_none a b x e = cc

  -- Until the swap, only a map that is installed nowhere has been written.
  rule_at-before_swap :
      (s s₁ s₂ : S) (h id i : ℕ)
      → k.new_map s ≡ ok (h, s₁)
      → OnlyInner k h s₁ s₂
      → rule_at k s₂ id i ≡ rule_at k s id i
  rule_at-before_swap s s₁ s₂ h id i e o =
      rule_at-kept k s s₂ id i (o.inner_kept id ∙ laws.new_map-inner s s₁ h id e) λ g p.
        let n : g ≢ h = λ q. laws.new_map_fresh s s₁ h id e (p ∙ ap some q) in
        o.slots_kept g i n ∙ laws.new_map-slots s s₁ h g i e n

  -- The data plane reads the same rules and meta values, and the same handles are kept.
  abbrev pub Unchanged : Rotator S → Rotator S → Type 0
  Unchanged r r' =
      ((j i : ℕ) → rule_at k r'.kernel j i ≡ rule_at k r.kernel j i)
      × ((j : ℕ) → k.meta_of r'.kernel j ≡ k.meta_of r.kernel j)
      × (r'.snapshots ≡ r.snapshots)

  same_state :
      (r r' : Rotator S) (a b : Option RotatorError)
      → ◌≡◌ {A = Rotator S × Option RotatorError} (r, a) (r', b)
      → Unchanged r r'
  same_state r r' a b h = subst (Unchanged r) (ap (λ p. p.0) h) (λ j i. refl, λ j. refl, refl)

  -- A failed rotation shows the data plane the same rules and the same meta values as before, and keeps
  -- the handles, provided that `writeRules` writes its own inner map only.
  pub apply_failed :
      (r r' : Rotator S) (id : ℕ) (write_rules : ℕ → S → S × Option KernelError)
      (write_meta : S → S × Option KernelError) (e : RotatorError)
      → ((h : ℕ) (s : S) → OnlyInner k h s (write_rules h s).0)
      → apply k r id write_rules write_meta ≡ (r', some e)
      → Unchanged r r'
  unfolding apply
  apply_failed r r' id write_rules write_meta e o h = elim (Bool-cases (id == 0)) [
    | inl z ↦ same_state r r' _ _ (rw z at h)
    | inr n ↦ elim (Result-cases (k.new_map r.kernel)) [
      | inr (x, p) ↦ same_state r r' _ _ (rw (p, apply) at (rw n at h))
      | inl ((inner, s), p) ↦
          let (v, f) =
            swap_failed r r' id inner write_meta (write_rules inner s) e
              (rw (p, apply) at (rw n at h)) in
          let only = o inner s in
          (
            λ j i.
                rule_at-SameView k (write_rules inner s).0 r'.kernel j i v
                ∙ rule_at-before_swap r.kernel s (write_rules inner s).0 inner j i p only,
            λ j. v.same_meta j ∙ only.meta_kept j ∙ laws.new_map-meta r.kernel s inner j p,
            f,
          )
    ]
  ]

  rule_at-OnlyMeta : (s s' : S) (id i : ℕ) → OnlyMeta k s s' → rule_at k s' id i ≡ rule_at k s id i
  rule_at-OnlyMeta s s' id i m =
      rule_at-kept k s s' id i (m.inner_kept id) (λ h _. m.slots_kept h i)

  rule_at-install_self :
      (s s' : S) (id h i : ℕ) → k.install id h s ≡ ok s' → rule_at k s' id i ≡ k.slot_of s h i
  unfolding rule_at
  rule_at-install_self s s' id h i e =
      let p : k.inner_of s' id ≡ some h =
        laws.install-inner s s' id h id e ∙ if_pos (ℕ_discrete id id) refl _ _ in
      rw (p, rule_at) (laws.install-slots s s' id h h i e)

  rule_at-install_ne :
      (s s' : S) (id h j i : ℕ)
      → k.install id h s ≡ ok s'
      → j ≢ id
      → rule_at k s' j i ≡ rule_at k s j i
  rule_at-install_ne s s' id h j i e n =
      rule_at-kept k s s' j i
        (laws.install-inner s s' id h j e ∙ if_neg (ℕ_discrete id j) (λ q. n (sym q)) _ _)
        (λ g _. laws.install-slots s s' id h g i e)

  -- A rotation that succeeds shows the data plane, under its id, the slots of a new map as `writeRules`
  -- filled it, and keeps that map's handle; the rules of every other id are as before. `writeRules` must
  -- write its own inner map only and `writeMeta` only meta values.
  pub apply_done :
      (r r' : Rotator S) (id : ℕ) (write_rules : ℕ → S → S × Option KernelError)
      (write_meta : S → S × Option KernelError)
      → ((h : ℕ) (s : S) → OnlyInner k h s (write_rules h s).0)
      → ((s : S) → OnlyMeta k s (write_meta s).0)
      → apply k r id write_rules write_meta ≡ (r', none)
      → (h : ℕ) × (s : S) × (k.new_map r.kernel ≡ ok (h, s))
        × ((write_rules h s).1 ≡ none)
        × ((i : ℕ) → rule_at k r'.kernel id i ≡ k.slot_of (write_rules h s).0 h i)
        × ((j i : ℕ) → j ≢ id → rule_at k r'.kernel j i ≡ rule_at k r.kernel j i)
        × (lookup ℕ_discrete id r'.snapshots ≡ some h)
  unfolding apply Swapped
  apply_done r r' id write_rules write_meta o m h = elim (Bool-cases (id == 0)) [
    | inl z ↦ ground (arith, rw z at h)
    | inr n ↦ elim (Result-cases (k.new_map r.kernel)) [
      | inr (x, p) ↦ ground (arith, rw (p, apply) at (rw n at h))
      | inl ((inner, s), p) ↦
          let written = write_rules inner s in
          let (t, e, q, v, f) =
            swap_done r r' id inner write_meta written (rw (p, apply) at (rw n at h)) in
          (
            inner,
            s,
            p,
            e,
            λ i.
                rule_at-SameView k (write_meta t).0 r'.kernel id i v
                ∙ rule_at-OnlyMeta t (write_meta t).0 id i (m t)
                ∙ rule_at-install_self written.0 t id inner i q,
            λ j i l.
                rule_at-SameView k (write_meta t).0 r'.kernel j i v
                ∙ rule_at-OnlyMeta t (write_meta t).0 j i (m t)
                ∙ rule_at-install_ne written.0 t id inner j i q l
                ∙ rule_at-before_swap r.kernel s written.0 inner j i p (o inner s),
            rw (f, lookup-insert ℕ_discrete id id inner r.snapshots)
                (if_pos (ℕ_discrete id id) refl _ _),
          )
    ]
  ]
