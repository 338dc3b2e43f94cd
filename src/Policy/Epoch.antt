-- ===== src/Policy/Epoch.antt =====
-- The policy generation: daemon/internal/daemon/dataplane/policy/epoch.go. The BPF cell that holds
-- the generation is a parameter. A failed call leaves it as it was.
pub mod Fresh
mod Tests
use juneau.Prelude.{ℕ, ◌+◌, ◌%◌, ◌^◌, ◌≡◌, Option, Result, ok, err, ◌>>=◌}

pub data IoError : Type 0 where
  io_error : IoError

-- The interface `epochCounter`, with the value that the data plane reads.
pub record Counter (C : Type 0) : Type 0 where
  pub load : C → Result IoError ℕ
  pub store : ℕ → C → Result IoError C
  pub cell : C → ℕ

pub record CounterLaws {C : Type 0} (c : Counter C) : Type 0 where
  pub load-cell : (s : C) (v : ℕ) → c.load s ≡ ok v → c.cell s ≡ v
  pub store-cell : (v : ℕ) (s s' : C) → c.store v s ≡ ok s' → c.cell s' ≡ v

pub record Epoch (C : Type 0) : Type 0 where
  pub counter : C
  pub current : ℕ

module _ {C : Type 0} (c : Counter C) where
  pub new_epoch : C → Result IoError (Epoch C)
  new_epoch s = do
    previous ← c.load s
    let current = (previous + 1) % 2 ^ 32
    s' ← c.store current s
    ok (record { counter = s'; current = current })

  pub bump : Epoch C → Result IoError (Epoch C)
  bump e = do
    let next = (e.current + 1) % 2 ^ 32
    s' ← c.store next e.counter
    ok (record { counter = s'; current = next })

-- The interface `Bumper`, with the generation that the data plane enforces.
pub record Bumper (B : Type 0) : Type 0 where
  pub bump : B → Result IoError B
  pub generation : B → ℕ

pub record BumperLaws {B : Type 0} (b : Bumper B) : Type 0 where
  pub bump_moves : (s s' : B) → b.bump s ≡ ok s' → ¬ (b.generation s' ≡ b.generation s)
