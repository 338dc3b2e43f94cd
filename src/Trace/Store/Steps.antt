-- ===== src/Trace/Store/Steps.antt =====
-- Methods that return at the first error, as those of daemon/internal/daemon/dataplane/trace/store.go.
use juneau.Prelude.{◌≡◌, refl, Option, none, some}
use juneau.Trace.Store.{◌and_then◌}

-- Steps that end without an error have each ended without one.
pub and_then-none :
    {T E : Type 0} (r : T × Option E) (f : T → T × Option E)
    → (r and_then f).1 ≡ none
    → (r.1 ≡ none) × ((r and_then f) ≡ f r.0)
and_then-none (t, none) f p = (refl, refl)
and_then-none (t, some e) f p = absurd (cc p)

-- What every step keeps holds at the end, with an error or without.
pub and_then-keeps :
    {T E : Type 0} (P : T → Type 0) (r : T × Option E) (f : T → T × Option E)
    → P r.0
    → ((t : T) → P t → P (f t).0)
    → P (r and_then f).0
and_then-keeps P (t, none) f p q = q t p
and_then-keeps P (t, some e) f p q = p
