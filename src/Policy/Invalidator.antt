-- ===== src/Policy/Invalidator.antt =====
-- When a rule change drops the flows that were admitted under the old rules:
-- daemon/internal/daemon/dataplane/policy/invalidator.go.
mod Tests
use juneau.Prelude.{
  ℕ, ◌≡◌, ◌≢◌, ◌⊎◌, inl, inr, Option, none, some, Result, ok, err, ◌>>=◌, ℕ_discrete, ite, ap, refl,
  arith, Option-cases, ok-injective, >>=-eq-ok, subst, if_pos, if_neg,
}
use juneau.Prelude.Dict.{Dict, lookup, insert, erase, lookup-insert, lookup-erase}
use juneau.Policy.{RuleSet, rule_set_discrete}
use juneau.Policy.Epoch.{IoError, Bumper}

pub record Invalidator (B : Type 0) : Type 0 where
  pub bumper : B
  pub installed : Dict ℕ RuleSet

module _ {B : Type 0} (b : Bumper B) where
  bump_and_record : Invalidator B → ℕ → RuleSet → Result IoError (Invalidator B)
  bump_and_record i id rs = do
    bumper ← b.bump i.bumper
    ok (record { bumper = bumper; installed = insert ℕ_discrete id rs i.installed })

  bump_and_record_lem :
      (i i' : Invalidator B) (id : ℕ) (rs : RuleSet)
      → bump_and_record i id rs ≡ ok i'
      → (lookup ℕ_discrete id i'.installed ≡ some rs)
        × ((j : ℕ) → j ≢ id → lookup ℕ_discrete j i'.installed ≡ lookup ℕ_discrete j i.installed)
        × (b.bump i.bumper ≡ ok i'.bumper)
  unfolding bump_and_record
  bump_and_record_lem i i' id rs e =
      let (s, p, q) = >>=-eq-ok (b.bump i.bumper) _ e in
      subst
        (λ (x : Invalidator B).
          (lookup ℕ_discrete id x.installed ≡ some rs)
          × ((j : ℕ) → j ≢ id → lookup ℕ_discrete j x.installed ≡ lookup ℕ_discrete j i.installed)
          × (b.bump i.bumper ≡ ok x.bumper))
        (ok-injective q)
        (
          ground (arith, lookup-insert ℕ_discrete id id rs i.installed),
          λ j n. ground (arith, lookup-insert ℕ_discrete j id rs i.installed),
          p,
        )

  -- A failed bump leaves the invalidator as it was, so the change is tried again.
  unfoldable pub applied : Invalidator B → ℕ → RuleSet → Result IoError (Invalidator B)
  unfolding bump_and_record
  applied i id rs = elim (lookup ℕ_discrete id i.installed) [
    | none ↦ bump_and_record i id rs
    | some previous ↦ ite (rule_set_discrete previous rs) (ok i) (bump_and_record i id rs)
  ]

  unfoldable pub deleted : Invalidator B → ℕ → Result IoError (Invalidator B)
  deleted i id = do
    bumper ← b.bump i.bumper
    ok (record { bumper = bumper; installed = erase ℕ_discrete id i.installed })

  -- The content of `id` is recorded and that of no other id has changed, and the bumper has moved
  -- exactly if the recorded content of `id` was another, or none.
  abbrev pub Applied : Invalidator B → ℕ → RuleSet → Invalidator B → Type 0
  Applied i id rs i' =
      (lookup ℕ_discrete id i'.installed ≡ some rs)
      × ((j : ℕ) → j ≢ id → lookup ℕ_discrete j i'.installed ≡ lookup ℕ_discrete j i.installed)
      × (((lookup ℕ_discrete id i.installed ≡ some rs) × (i'.bumper ≡ i.bumper))
          ⊎ ((lookup ℕ_discrete id i.installed ≢ some rs) × (b.bump i.bumper ≡ ok i'.bumper)))

  -- After `applied` ends with no error, the content of `id` is recorded and that of no other id has
  -- changed, and the bumper has been called exactly if the recorded content of `id` was another, or
  -- none.
  pub applied_lem :
      (i i' : Invalidator B) (id : ℕ) (rs : RuleSet) → applied i id rs ≡ ok i' → Applied i id rs i'
  unfolding applied
  applied_lem i i' id rs e = elim (Option-cases (lookup ℕ_discrete id i.installed)) [
    | inl h ↦
        let (f, g, k) = bump_and_record_lem i i' id rs (rw (h, applied) at e) in
        (f, g, inr (λ q. ground arith, k))
    | inr (previous, h) ↦ elim (rule_set_discrete previous rs) [
      | yes p ↦
          let q : i ≡ i' = ok-injective (rw (if_pos _ p) at (rw (h, applied) at e)) in
          let r : lookup ℕ_discrete id i.installed ≡ some rs = rw h (ap some p) in
          subst (λ x. Applied i id rs x) q (r, λ j n. refl, inl (r, refl))
      | no n ↦
          let (f, g, k) =
            bump_and_record_lem i i' id rs (rw (if_neg _ n) at (rw (h, applied) at e)) in
          (f, g, inr (λ q. n cc, k))
    ]
  ]
