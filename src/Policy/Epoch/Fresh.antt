-- ===== src/Policy/Epoch/Fresh.antt =====
-- Generations are fresh (epoch.go).
use juneau.Prelude.{
  ℕ, zero, suc, ◌+◌, ◌%◌, ◌^◌, ◌<◌, ◌≡◌, ◌≢◌, Result, ok, ◌>>=◌, >>=-eq-ok, ok-injective, arith,
  subst, refl,
}
use juneau.Policy.Epoch.{IoError, Counter, CounterLaws, Epoch, new_epoch, bump, Bumper, BumperLaws}

-- `n` bumps in a row, all of which must succeed.
unfoldable pub bump_times : {C : Type 0} → Counter C → ℕ → Epoch C → Result IoError (Epoch C)
bump_times c zero e = ok e
bump_times c (suc n) e = bump c e >>= bump_times c n

module _ {C : Type 0} (c : Counter C) (laws : CounterLaws c) where
  -- What the data plane reads is what the daemon takes for the current generation.
  pub Published : Epoch C → Type 0
  Published e = (c.cell e.counter ≡ e.current) × (e.current < 2 ^ 32)

  bump-Published :
      (e e' : Epoch C) → bump c e ≡ ok e' → Published e' × (e'.current ≡ (e.current + 1) % 2 ^ 32)
  unfolding bump Published
  bump-Published e e' h =
      let (s, p, q) = >>=-eq-ok (c.store ((e.current + 1) % 2 ^ 32) e.counter) _ h in
      subst (λ (x : Epoch C). Published x × (x.current ≡ (e.current + 1) % 2 ^ 32)) (ok-injective q)
        ((laws.store-cell _ _ s p, omega arith), refl)

  -- A new epoch that is made without an error is published, one generation (modulo 2 ^ 32) after
  -- the one that it found.
  pub new_epoch-Published :
      (s : C) (e : Epoch C)
      → new_epoch c s ≡ ok e
      → Published e × (e.current ≡ (c.cell s + 1) % 2 ^ 32)
  unfolding new_epoch Published
  new_epoch-Published s e h =
      let (v, p, q) = >>=-eq-ok (c.load s) _ h in
      let (s', r, t) = >>=-eq-ok (c.store ((v + 1) % 2 ^ 32) s) _ q in
      subst (λ (x : Epoch C). Published x × (x.current ≡ (c.cell s + 1) % 2 ^ 32)) (ok-injective t)
        ((laws.store-cell _ _ s' r, omega arith), rw (laws.load-cell s v p))

  bump_times-current :
      (n : ℕ) (e e' : Epoch C)
      → Published e
      → bump_times c n e ≡ ok e'
      → Published e' × (e'.current ≡ (e.current + n) % 2 ^ 32)
  unfolding bump_times Published
  bump_times-current zero e e' v h =
      subst (λ (x : Epoch C). Published x × (x.current ≡ (e.current + 0) % 2 ^ 32)) (ok-injective h)
        (v, omega arith)
  bump_times-current (suc n) e e' v h =
      let (m, p, q) = >>=-eq-ok (bump c e) (bump_times c n) h in
      let (w, f) = bump-Published e m p in
      let (w', f') = bump_times-current n m e' w q in (w', omega arith)

  -- If a generation is published, then after at least one and fewer than 2 ^ 32 bumps, all of which
  -- succeed, the data plane enforces a generation other than it.
  pub bump_times_fresh :
      (n : ℕ) (e e' : Epoch C)
      → Published e
      → 0 < n
      → n < 2 ^ 32
      → bump_times c n e ≡ ok e'
      → c.cell e'.counter ≢ c.cell e.counter
  unfolding Published
  bump_times_fresh n e e' v h k r =
      let p = bump_times-current n e e' v r in λ q. absurd (omega arith)

-- `Epoch` is a `Bumper`.
unfoldable pub epoch_bumper : {C : Type 0} → Counter C → Bumper (Epoch C)
epoch_bumper c = record { bump = bump c; generation = λ e. e.current }

-- Every successful bump moves the generation.
pub epoch_bumper-BumperLaws : {C : Type 0} (c : Counter C) → BumperLaws (epoch_bumper c)
unfolding epoch_bumper bump
epoch_bumper-BumperLaws {C} c = record {
  bump_moves = λ e e' h.
      let (s, p, q) = >>=-eq-ok (c.store ((e.current + 1) % 2 ^ 32) e.counter) _ h in
      subst (λ (x : Epoch C). ¬ (x.current ≡ e.current)) (ok-injective q)
        (λ r. absurd (omega arith));
}
