-- ===== src/Sweep/Gateway.antt =====
-- The ageing plan and the entry of the gateway port: daemon/internal/daemon/dataplane/l2/fdb_gc.go.
use juneau.Prelude.{ℕ, ◌≡◌, arith, false, List, ◌==◌, Result, bit_and, some}
use juneau.Sweep.{
  Entry, SweepError, LiveMap, LiveMapLaws, sweep, FdbVal, fdb_flag_gateway, is_aged, plan_fdb_aging,
}
use juneau.Sweep.Kept.{Holds, sweep_keeps}

unfoldable pub IsGateway : FdbVal → Type 0
IsGateway v = (bit_and v.flags fdb_flag_gateway == 0) ≡ false

-- The map holds a gateway entry under the key.
unfoldable pub HasGateway : {K S : Type 0} → LiveMap K FdbVal S → K → S → Type 0
HasGateway m k s = (v : FdbVal) × (m.get s k ≡ some v) × IsGateway v

IsGateway-fresh : (now_ns aging : ℕ) (v : FdbVal) → IsGateway v → is_aged now_ns aging v ≡ false
unfolding IsGateway is_aged
IsGateway-fresh now_ns aging v g = ground (arith, g)

-- If the data plane leaves the gateway flag of an entry alone, the aging sweep does not remove that
-- entry, whatever its stamp is and whatever the calls return.
pub sweep_keeps_gateway :
    {K S : Type 0} (dec : Discrete K) (m : LiveMap K FdbVal S) (laws : LiveMapLaws dec m)
    (now_ns aging : ℕ) (k : K) (snapshot : S → S × Result SweepError (List (Entry K FdbVal)))
    (s : S)
    → ((t : S) → HasGateway m k t → HasGateway m k (m.drift t))
    → ((t : S) → HasGateway m k t → HasGateway m k (snapshot t).0)
    → HasGateway m k s
    → HasGateway m k (sweep m snapshot (λ entries. plan_fdb_aging entries now_ns aging) s).0
unfolding HasGateway plan_fdb_aging Holds
sweep_keeps_gateway dec m laws now_ns aging k snapshot s stays reads h =
    sweep_keeps dec m laws (λ key v. is_aged now_ns aging v) k IsGateway
      (IsGateway-fresh now_ns aging) (λ t v p g. stays t (v, p, g)) snapshot "aged" s reads h
