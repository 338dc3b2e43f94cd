-- ===== src/Alloc/Exec.antt =====
-- Calls that change a state and may fail, in the order in which they are made: what the reconcilers
-- of allocationclaim_controller.go and allocationlease_controller.go do with the API server.
use juneau.Prelude.{Result, ok, err}
use juneau.Alloc.Used.{ApiError}

abbrev pub Exec : Type 0 → Type 0 → Type 0
Exec S A = S → Result ApiError A × S

module _ {S A : Type 0} where
  abbrev pub done : A → Exec S A
  done a s = (ok a, s)

  abbrev pub fail : ApiError → Exec S A
  fail e s = (err e, s)

  abbrev pub asks : (S → Result ApiError A) → Exec S A
  asks f s = (f s, s)

module _ {S A B : Type 0} where
  unfoldable pub continue : Result ApiError A → (A → Exec S B) → Exec S B
  continue (ok a) f s = f a s
  continue (err e) f s = (err e, s)

  infixl 5 ◌>>=◌
  unfoldable pub ◌>>=◌ : Exec S A → (A → Exec S B) → Exec S B
  unfolding continue
  ◌>>=◌ m f s = continue (m s).0 f (m s).1

abbrev pub Done : Type 0 → Type 0
Done S = Exec S (Unit {0})
