-- ===== src/Policy/Stores/Loaded.antt =====
-- What `SGStore.Apply` and `ACLStore.Apply` show the data plane.
use juneau.Prelude.{
  ℕ, suc, ◌+◌, ◌*◌, ◌^◌, ◌≤◌, ◌≡◌, ◌≢◌, refl, ap, ◌∙◌, subst, Option, none, some, List, [], ◌∷◌,
  get_elem?, ◌==◌, Result-cases, Bool-cases, inl, inr, arith,
}
use juneau.Policy.{Rule, RuleSet, windows}
use juneau.Policy.Capacity.{Layer, Error, fit_rule_set}
use juneau.Policy.Capacity.Fit.{fit_rule_set-Fitted}
use juneau.Policy.Epoch.{IoError, Bumper}
use juneau.Policy.Invalidator.{applied}
use juneau.Policy.Rotator.{Kernel, KernelLaws, Rotator, RotatorError}
use juneau.Policy.Rotator.Swap.{rule_at, OnlyMeta, Unchanged, apply_done, apply_failed}
use juneau.Policy.Stores.{
  Store, StoreError, table_failed, invalidate_failed, capacity_result, write_windows, write_meta,
  write_table, invalidate, apply_layer,
}
use juneau.Policy.Stores.Installed.{windows_only, windows_slots}

module _ {S V M : Type 0} (k : Kernel S V M) (encode : Rule → V) where
  -- The data plane reads the rules in their order, from slot `start` of `id` on.
  unfoldable pub Loaded : S → ℕ → ℕ → List Rule → Type 0
  Loaded s id start [] = Unit
  Loaded s id start (r ∷ rules) =
      (rule_at k s id start ≡ some (encode r)) × Loaded s id (suc start) rules

  each_slot-Loaded :
      (s : S) (id start : ℕ) (rules : List Rule)
      → ((n : ℕ) (r : Rule)
          → get_elem? rules n ≡ some r
          → rule_at k s id (start + n) ≡ some (encode r))
      → Loaded s id start rules
  unfolding Loaded
  each_slot-Loaded s id start [] f = tt
  each_slot-Loaded s id start (r ∷ rules) f =
      let z : start + 0 ≡ start = omega arith in
      (
        subst (λ (j : ℕ). rule_at k s id j ≡ some (encode r)) z (f 0 r refl),
        each_slot-Loaded s id (suc start) rules λ n x e.
            let q : start + suc n ≡ suc start + n = omega arith in
            subst (λ (j : ℕ). rule_at k s id j ≡ some (encode x)) q (f (suc n) x e),
      )

module _ {S V M B : Type 0} (k : Kernel S V M) (laws : KernelLaws k) (b : Bumper B) (layer : Layer)
    (limit : ℕ) (encode : Rule → V) (meta : RuleSet → M) where
  write_meta-OnlyMeta : (id : ℕ) (m : M) (s : S) → OnlyMeta k s (write_meta k id m s).0
  unfolding write_meta
  write_meta-OnlyMeta id m s = elim (Result-cases (k.set_meta id m s)) [
    | inl (t, p) ↦
        rw (p, write_meta)
          (record {
            inner_kept = λ j. laws.set_meta-inner s t id j m p;
            slots_kept = λ g i. laws.set_meta-slots s t id g i m p;
          })
    | inr (e, p) ↦ rw (p, write_meta) (record { inner_kept = λ j. refl; slots_kept = λ g i. refl })
  ]

  invalidate_clean :
      (st st' : Store S B) (installed : RuleSet) (over e : Option Error)
      (x : Rotator S × Option RotatorError)
      → invalidate k b layer limit encode meta st installed over x ≡ (st', capacity_result e)
      → x ≡ (st'.table, none)
  unfolding invalidate capacity_result
  invalidate_clean st st' installed over none (t, some x) h = absurd (cc h)
  invalidate_clean st st' installed over (some e) (t, some x) h = absurd (cc h)
  invalidate_clean st st' installed over e (t, none) h =
      elim (Result-cases (applied b st.invalidation installed.group_id installed)) [
        | inl (i, p) ↦ done t st'.table (ap (λ y. y.0.table) (rw (p, invalidate) at h))
        | inr (x, p) ↦ absurd (failed e _ _ _ (rw (p, invalidate) at h))
      ]
    where
      done :
          (t u : Rotator S) → t ≡ u → ◌≡◌ {A = Rotator S × Option RotatorError} (t, none) (u, none)
      done t u q = cc

      failed :
          (e : Option Error) (a c : Store S B) (x : IoError)
          → ◌≡◌ {A = Store S B × Option StoreError}
              (a, some (invalidate_failed x))
              (c, capacity_result e)
          → ⊥
      failed none a c x q = cc
      failed (some y) a c x q = cc

  -- What the write of the table does, when `Apply` ends with no error or with a capacity error.
  apply_layer_written :
      (st st' : Store S B) (rs : RuleSet) (e : Option Error)
      → apply_layer k b layer limit encode meta st rs ≡ (st', capacity_result e)
      → write_table k b layer limit encode meta st (fit_rule_set layer rs limit).0
        ≡ (st'.table, none)
  unfolding apply_layer capacity_result
  apply_layer_written st st' rs e h = elim (Bool-cases (rs.group_id == 0)) [
    | inl z ↦ ground (arith, rw z at h)
    | inr n ↦
        let installed = (fit_rule_set layer rs limit).0 in
        invalidate_clean st st' installed (fit_rule_set layer rs limit).1 e
          (write_table k b layer limit encode meta st installed) (rw n at h)
  ]

  -- The new inner map, and what the data plane reads after the rotation.
  apply_layer_rotated :
      (st st' : Store S B) (rs : RuleSet) (e : Option Error)
      → apply_layer k b layer limit encode meta st rs ≡ (st', capacity_result e)
      → let installed = (fit_rule_set layer rs limit).0 in
        (g : ℕ) × (s : S) × ((write_windows k encode g (windows installed limit) s).1 ≡ none)
        × ((i : ℕ)
            → rule_at k st'.table.kernel installed.group_id i
              ≡ k.slot_of (write_windows k encode g (windows installed limit) s).0 g i)
        × ((j i : ℕ)
            → j ≢ installed.group_id
            → rule_at k st'.table.kernel j i ≡ rule_at k st.table.kernel j i)
  unfolding write_table
  apply_layer_rotated st st' rs e h =
      let installed = (fit_rule_set layer rs limit).0 in
      let (g, s, p, q, f, o, l) =
        apply_done k laws st.table st'.table installed.group_id
          (λ inner. write_windows k encode inner (windows installed limit))
          (write_meta k installed.group_id (meta installed))
          (λ inner. windows_only k laws encode inner (windows installed limit))
          (write_meta-OnlyMeta installed.group_id (meta installed))
          (apply_layer_written st st' rs e h) in
      (g, s, q, f, o)

  -- `Apply` that ends with no error or with a capacity error alone shows the data plane, under the id
  -- of the rule set, the ingress rules that it installs from slot 0 on and the egress rules from the
  -- slot `limit` on, encoded and in their order. Both windows must fit 32-bit slot numbers.
  pub apply_layer-Loaded :
      (st st' : Store S B) (rs : RuleSet) (e : Option Error)
      → 2 * limit ≤ 2 ^ 32
      → apply_layer k b layer limit encode meta st rs ≡ (st', capacity_result e)
      → let installed = (fit_rule_set layer rs limit).0 in
        Loaded k encode st'.table.kernel rs.group_id 0 installed.ingress
        × Loaded k encode st'.table.kernel rs.group_id limit installed.egress
  apply_layer-Loaded st st' rs e c h =
      let installed = (fit_rule_set layer rs limit).0 in
      let (g, s, q, f, o) = apply_layer_rotated st st' rs e h in
      let (fi, fe, fg, fv) = fit_rule_set-Fitted layer rs limit in
      let (ins, outs) =
        windows_slots k laws encode g installed limit s (ground arith) (ground arith) c q in
      subst
        (λ (id : ℕ).
          Loaded k encode st'.table.kernel id 0 installed.ingress
          × Loaded k encode st'.table.kernel id limit installed.egress)
        fg
        (
          each_slot-Loaded k encode st'.table.kernel installed.group_id 0 installed.ingress λ n r z.
              let m : 0 + n ≡ n = omega arith in
              f (0 + n)
              ∙ ap (k.slot_of (write_windows k encode g (windows installed limit) s).0 g) m
              ∙ ins n r z,
          each_slot-Loaded k encode st'.table.kernel installed.group_id limit installed.egress
              (λ n r z. f (limit + n) ∙ outs n r z),
        )

  -- `Apply` that ends with no error or with a capacity error alone leaves the rules that the data plane
  -- reads under every other id as they were.
  pub apply_layer_other :
      (st st' : Store S B) (rs : RuleSet) (e : Option Error) (id i : ℕ)
      → id ≢ rs.group_id
      → apply_layer k b layer limit encode meta st rs ≡ (st', capacity_result e)
      → rule_at k st'.table.kernel id i ≡ rule_at k st.table.kernel id i
  apply_layer_other st st' rs e id i n h =
      let installed = (fit_rule_set layer rs limit).0 in
      let (g, s, q, f, o) = apply_layer_rotated st st' rs e h in
      let (fi, fe, fg, fv) = fit_rule_set-Fitted layer rs limit in o id i (λ z. n (z ∙ fg))

  invalidate_failed_table :
      (st st' : Store S B) (installed : RuleSet) (over : Option Error) (e : RotatorError)
      (x : Rotator S × Option RotatorError)
      → invalidate k b layer limit encode meta st installed over x ≡ (st', some (table_failed e))
      → x ≡ (st'.table, some e)
  unfolding invalidate capacity_result
  invalidate_failed_table st st' installed over e (t, some x) h =
      let q = ap (λ y. y.0.table) h in
      let r : ◌≡◌ {A = Option StoreError} (some (table_failed x)) (some (table_failed e)) =
        ap (λ y. y.1) h in
      cc
  invalidate_failed_table st st' installed over e (t, none) h =
      elim (Result-cases (applied b st.invalidation installed.group_id installed)) [
        | inl (i, p) ↦ absurd (clean over (ap (λ y. y.1) (rw (p, invalidate) at h)))
        | inr (y, p) ↦ absurd (other y (ap (λ y. y.1) (rw (p, invalidate) at h)))
      ]
    where
      clean : (o : Option Error) → capacity_result o ≡ some (table_failed e) → ⊥
      clean none q = cc
      clean (some z) q = cc

      other :
          (y : IoError)
          → ◌≡◌ {A = Option StoreError} (some (invalidate_failed y)) (some (table_failed e))
          → ⊥
      other y q = cc

  -- `Apply` that could not write its table leaves all rules and meta values that the data plane reads as
  -- they were, and the daemon's handles too.
  pub apply_layer_failed :
      (st st' : Store S B) (rs : RuleSet) (x : RotatorError)
      → apply_layer k b layer limit encode meta st rs ≡ (st', some (table_failed x))
      → Unchanged k laws st.table st'.table
  unfolding apply_layer write_table invalidate capacity_result
  apply_layer_failed st st' rs x h = elim (Bool-cases (rs.group_id == 0)) [
    | inl z ↦ ground (arith, rw z at h)
    | inr n ↦
        let installed = (fit_rule_set layer rs limit).0 in
        let w =
          invalidate_failed_table st st' installed (fit_rule_set layer rs limit).1 x
            (write_table k b layer limit encode meta st installed) (rw n at h) in
        apply_failed k laws st.table st'.table installed.group_id
          (λ inner. write_windows k encode inner (windows installed limit))
          (write_meta k installed.group_id (meta installed)) x
          (λ inner. windows_only k laws encode inner (windows installed limit)) w
  ]
