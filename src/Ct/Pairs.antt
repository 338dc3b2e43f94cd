-- ===== src/Ct/Pairs.antt =====
-- The two halves of an admission (policyct/policyct.go).
use juneau.Prelude.{◌≡◌, ◌≢◌, ◌⊎◌, arith}
use juneau.Ct.{Key, reverse, hook_pod_egress, hook_pod_ingress}

-- For a key with one of the two hooks, the other half of the other half is the key itself, and the
-- two halves are different keys.
pub reverse-reverse :
    (key : Key)
    → (key.hook ≡ hook_pod_egress) ⊎ (key.hook ≡ hook_pod_ingress)
    → (reverse (reverse key) ≡ key) × ((reverse key).hook ≢ key.hook)
unfolding reverse
reverse-reverse key h = ground arith
