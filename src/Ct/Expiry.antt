-- ===== src/Ct/Expiry.antt =====
-- When the collector drops an entry (ctstate/ttl.go).
use juneau.Prelude.{ℕ, ◌+◌, ◌≤◌, ◌<◌, ◌≡◌, ◌↔◌, ◌⊎◌, true, some, arith}
use juneau.Ct.{should_evict, entry_ttl, elapsed_ns, state_closed}

-- An entry is dropped exactly when it is closed, or when its state and protocol have a timeout and
-- more than that has passed since its last packet.
pub should_evict_iff :
    (state proto last_seen now : ℕ)
    → (should_evict state proto last_seen now ≡ true) ↔ (
        (state ≡ state_closed)
        ⊎ ((ttl : ℕ) × (entry_ttl state proto ≡ some ttl) × (last_seen + ttl < now)))
unfolding should_evict elapsed_ns
should_evict_iff state proto last_seen now = ground arith

-- An entry that is dropped at one time is dropped at every later time, if no packet came.
pub should_evict_mono :
    (state proto last_seen now later : ℕ)
    → now ≤ later
    → should_evict state proto last_seen now ≡ true
    → should_evict state proto last_seen later ≡ true
unfolding should_evict elapsed_ns
should_evict_mono state proto last_seen now later h e = ground arith
