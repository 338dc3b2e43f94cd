-- ===== src/Ct/Walk.antt =====
-- The TCP states that a flow walks through (ctstate/state.go).
use juneau.Prelude.{
  ℕ, suc, ◌≤◌, ◌<◌, ◌≡◌, refl, Bool, false, List, [], ◌∷◌, any, arith, ◌==◌, if◌then◌else◌,
}
use juneau.Ct.{
  has, derive_next_state, flag_rst, flag_fin, flag_ack, state_new, state_established,
  state_fin_wait, state_closed,
}

-- The state after a sequence of packets, each given by its flags.
pub walk : ℕ → List ℕ → ℕ
walk cur [] = cur
walk cur (flags ∷ rest) = walk (derive_next_state cur flags) rest

abbrev pub resets : List ℕ → Bool
resets = any (λ flags. has flags flag_rst)

abbrev pub fins : List ℕ → ℕ
fins [] = 0
fins (flags ∷ rest) = if has flags flag_fin then suc (fins rest) else fins rest

-- Some packet carries an ACK.
abbrev pub acked : List ℕ → Bool
acked = any (λ flags. has flags flag_ack)

-- From a state that is not closed, no packet leads to an earlier state, and every packet leads to
-- one of the four states.
pub derive_next_state_mono :
    (cur flags : ℕ)
    → cur ≤ state_fin_wait
    → (cur ≤ derive_next_state cur flags) × (derive_next_state cur flags ≤ state_closed)
unfolding derive_next_state
derive_next_state_mono cur flags h = ground arith

walk_fin_wait :
    (packets : List ℕ)
    → resets packets ≡ false
    → fins packets ≡ 0
    → walk state_fin_wait packets ≡ state_fin_wait
unfolding walk derive_next_state
walk_fin_wait [] r f = refl
walk_fin_wait (flags ∷ rest) r f = ground (arith, walk_fin_wait rest)

walk_established :
    (packets : List ℕ)
    → resets packets ≡ false
    → fins packets < 2
    → walk state_established packets
      ≡ (if fins packets == 1 then state_fin_wait else state_established)
unfolding walk derive_next_state
walk_established [] r f = refl
walk_established (flags ∷ rest) r f = ground (arith, walk_established rest, walk_fin_wait rest)

-- A new flow that sees no RST and at most one FIN is in FIN_WAIT from the FIN on; with no FIN it is
-- ESTABLISHED if some packet carried an ACK, and NEW if none did.
pub walk_new :
    (packets : List ℕ)
    → resets packets ≡ false
    → fins packets < 2
    → walk state_new packets ≡ (
        if fins packets == 1
        then state_fin_wait
        else (if acked packets then state_established else state_new))
unfolding walk derive_next_state
walk_new [] r f = refl
walk_new (flags ∷ rest) r f =
    ground (arith, walk_new rest, walk_established rest, walk_fin_wait rest)
