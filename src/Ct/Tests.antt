-- ===== src/Ct/Tests.antt =====
-- Inputs at which the theorems on connection tracking apply.
use juneau.Prelude.{◌≡◌, refl, [], ◌∷◌, arith}
use juneau.Ct.{state_new, state_fin_wait, flag_syn, flag_ack, has}
use juneau.Ct.Walk.{walk, walk_new}

walk_new_example : walk state_new (flag_syn ∷ flag_ack ∷ 0x11 ∷ flag_ack ∷ []) ≡ state_fin_wait
unfolding has
walk_new_example = walk_new (flag_syn ∷ flag_ack ∷ 0x11 ∷ flag_ack ∷ []) refl (omega arith)
