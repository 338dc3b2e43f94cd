-- ===== src/Policy/InMemory.antt =====
-- A kernel, a counter and a hash table in memory, with the laws that the policy layer relies on.
use juneau.Prelude.{
  ℕ, suc, ◌+◌, ◌<◌, ◌≡◌, refl, Option, none, some, List, [], ◌∷◌, ite, Result, ok, err, ℕ_discrete,
  arith, ok-injective, subst, ap, sym, ◌∙◌,
}
use juneau.Prelude.Dict.{Dict, lookup, insert, erase, lookup-insert, lookup-erase}
use juneau.Policy.Epoch.{Bumper, Counter, CounterLaws}
use juneau.Policy.Membership.{MembershipKey, key_discrete, MembershipTable, TableLaws}
use juneau.Policy.Rotator.{Kernel, KernelError, KernelLaws, SameView}

-- A cell in memory.
abbrev pub memory_counter : Counter ℕ
memory_counter = record { load = λ c. ok c; store = λ v c. ok v; cell = λ c. c }

pub memory_counter-CounterLaws : CounterLaws memory_counter
memory_counter-CounterLaws = record {
  load-cell = λ s v e. ok-injective e;
  store-cell = λ v s s' e. let q : v ≡ s' = ok-injective e in cc;
}

-- A generation that is a number.
abbrev pub memory_bumper : Bumper ℕ
memory_bumper = record { bump = λ n. ok (suc n); generation = λ n. n }

-- A hash table in memory.
abbrev pub memory_table : MembershipTable (Dict MembershipKey (List ℕ))
memory_table = record {
  update = λ k groups s. ok (insert key_discrete k groups s);
  delete = λ k s. ok (erase key_discrete k s);
  get = λ s k. lookup key_discrete k s;
}

pub memory_table-TableLaws : TableLaws memory_table
memory_table-TableLaws = record {
  get-update = λ k j groups s s' e.
      subst
        (λ x.
          lookup key_discrete j x ≡ ite (key_discrete k j) (some groups) (lookup key_discrete j s))
        (ok-injective e) (lookup-insert key_discrete j k groups s);
  get-delete = λ k j s s' e.
      subst (λ x. lookup key_discrete j x ≡ ite (key_discrete k j) none (lookup key_discrete j s))
        (ok-injective e) (lookup-erase key_discrete j k s);
  get_missing = λ k s e. absurd (cc e);
}

-- A handle that no entry of the outer map holds.
pub unused : Dict ℕ ℕ → ℕ
unused [] = 1
unused ((id, h) ∷ m) = suc (h + unused m)

unused_lem : (m : Dict ℕ ℕ) (id h : ℕ) → lookup ℕ_discrete id m ≡ some h → h < unused m
unfolding unused lookup
unused_lem [] id h e = absurd (cc e)
unused_lem ((j, g) ∷ m) id h e = ground (arith, unused_lem m id h)

-- The outer map, the slots of the inner maps, and the meta values.
pub record Memory (V M : Type 0) : Type 0 where
  pub inners : Dict ℕ ℕ
  pub slots : ℕ → ℕ → Option V
  pub metas : ℕ → Option M

module _ {V M : Type 0} where
  abbrev pub with_slot : ℕ → ℕ → V → Memory V M → Memory V M
  with_slot h i v s = record s {
    slots = λ g j. ite (ℕ_discrete h g) (ite (ℕ_discrete i j) (some v) (s.slots g j)) (s.slots g j);
  }

  abbrev pub with_meta : ℕ → Option M → Memory V M → Memory V M
  with_meta id m s = record s { metas = λ j. ite (ℕ_discrete id j) m (s.metas j) }

  abbrev pub memory_kernel : Kernel (Memory V M) V M
  memory_kernel = record {
    new_map = λ s. ok (unused s.inners, s);
    put = λ h i v s. ok (with_slot h i v s);
    install = λ id h s. ok (record s { inners = insert ℕ_discrete id h s.inners });
    uninstall = λ id s. ok (record s { inners = erase ℕ_discrete id s.inners });
    set_meta = λ id m s. ok (with_meta id (some m) s);
    drop_meta = λ id s. ok (with_meta id none s);
    close = λ h s. ok s;
    inner_of = λ s id. lookup ℕ_discrete id s.inners;
    slot_of = λ s. s.slots;
    meta_of = λ s. s.metas;
  }

  -- A call that gives `t` keeps of `s` what `t` keeps.
  kept :
      {A : Type 0} (f : Memory V M → A) (s t u : Memory V M)
      → f t ≡ f s
      → ◌≡◌ {A = Result KernelError (Memory V M)} (ok t) (ok u)
      → f u ≡ f s
  kept f s t u p e = ap f (sym (ok-injective e)) ∙ p

  same_state : (s s' : Memory V M) (h : ℕ) → memory_kernel.new_map s ≡ ok (h, s') → s' ≡ s
  same_state s s' h e = cc

  same_view : (s s' : Memory V M) → s ≡ s' → SameView memory_kernel s s'
  same_view s s' q =
      subst (SameView memory_kernel s) q
        (record { same_inner = λ id. refl; same_slots = λ g i. refl; same_meta = λ id. refl })

  pub memory_kernel-KernelLaws : KernelLaws memory_kernel
  memory_kernel-KernelLaws = record {
    new_map-inner = λ s s' h id e. ap (λ x. lookup ℕ_discrete id x.inners) (same_state s s' h e);
    new_map_fresh = λ s s' h id e p. absurd (
        let q : unused s.inners ≡ h = ap (λ x. x.0) (ok-injective e) in
        omega (arith, unused_lem s.inners id h p));
    new_map-slots = λ s s' h g i e n. ap (λ x. x.slots g i) (same_state s s' h e);
    new_map-meta = λ s s' h id e. ap (λ x. x.metas id) (same_state s s' h e);
    put-inner = λ s s' h i id v e. kept (λ x. lookup ℕ_discrete id x.inners) s _ s' refl e;
    put-slots = λ s s' h i g j v e. ap (λ x. x.slots g j) (sym (ok-injective e));
    put-meta = λ s s' h i id v e. kept (λ x. x.metas id) s _ s' refl e;
    install-inner = λ s s' id h j e.
        ap (λ x. lookup ℕ_discrete j x.inners) (sym (ok-injective e))
        ∙ lookup-insert ℕ_discrete j id h s.inners;
    install-slots = λ s s' id h g i e. kept (λ x. x.slots g i) s _ s' refl e;
    install-meta = λ s s' id h j e. kept (λ x. x.metas j) s _ s' refl e;
    set_meta-inner = λ s s' id j m e. kept (λ x. lookup ℕ_discrete j x.inners) s _ s' refl e;
    set_meta-slots = λ s s' id g i m e. kept (λ x. x.slots g i) s _ s' refl e;
    set_meta-meta = λ s s' id j m e. ap (λ x. x.metas j) (sym (ok-injective e));
    close_view = λ s s' h e. same_view s s' (ok-injective e);
  }

  -- A kernel that creates no inner map.
  abbrev pub full_kernel : Kernel (Memory V M) V M
  full_kernel = record memory_kernel { new_map = λ s. err KernelError.other_error }

  pub full_kernel-KernelLaws : KernelLaws full_kernel
  full_kernel-KernelLaws = record {
    new_map-inner = λ s s' h id e. absurd (cc e);
    new_map_fresh = λ s s' h id e. absurd (cc e);
    new_map-slots = λ s s' h g i e. absurd (cc e);
    new_map-meta = λ s s' h id e. absurd (cc e);
    put-inner = memory_kernel-KernelLaws.put-inner;
    put-slots = memory_kernel-KernelLaws.put-slots;
    put-meta = memory_kernel-KernelLaws.put-meta;
    install-inner = memory_kernel-KernelLaws.install-inner;
    install-slots = memory_kernel-KernelLaws.install-slots;
    install-meta = memory_kernel-KernelLaws.install-meta;
    set_meta-inner = memory_kernel-KernelLaws.set_meta-inner;
    set_meta-slots = memory_kernel-KernelLaws.set_meta-slots;
    set_meta-meta = memory_kernel-KernelLaws.set_meta-meta;
    close_view = λ s s' h e.
        let v = same_view s s' (ok-injective e) in
        record { same_inner = v.same_inner; same_slots = v.same_slots; same_meta = v.same_meta };
  }
