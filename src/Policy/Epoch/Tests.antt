-- ===== src/Policy/Epoch/Tests.antt =====
-- Inputs at which the theorems on the generation apply.
use juneau.Prelude.{ℕ, ◌≢◌, refl, arith}
use juneau.Policy.Epoch.{Epoch, new_epoch, bump}
use juneau.Policy.Epoch.Fresh.{bump_times, Published, new_epoch-Published, bump_times_fresh}
use juneau.Policy.InMemory.{memory_counter, memory_counter-CounterLaws}

-- The last generation of 32 bits.
abbrev last : Epoch ℕ
last = record { counter = 0xffffffff; current = 0xffffffff }

-- Two generations later.
abbrev later : Epoch ℕ
later = record { counter = 1; current = 1 }

last-Published : Published memory_counter memory_counter-CounterLaws last
unfolding new_epoch
last-Published =
    (new_epoch-Published memory_counter memory_counter-CounterLaws 0xfffffffe last refl).0

bump_times_fresh_example : ◌≢◌ {A = ℕ} 1 0xffffffff
unfolding bump_times bump
bump_times_fresh_example =
    bump_times_fresh memory_counter memory_counter-CounterLaws 2 last later last-Published
      (omega arith) (omega arith) refl
