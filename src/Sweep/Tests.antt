-- ===== src/Sweep/Tests.antt =====
-- Inputs at which the theorems on sweeping apply.
use juneau.Prelude.{
  true, ℕ, zero, suc, ◌≡◌, refl, Option, none, some, List, [], ◌∷◌, Result, ok, err, ℕ_discrete,
}
use juneau.Prelude.Dict.{Dict, lookup, erase, lookup-erase}
use juneau.Sweep.{
  Entry, SweepError, MapError, key_not_exist, LiveMap, LiveMapLaws, sweep, FdbVal, plan_fdb_aging,
}
use juneau.Sweep.Gateway.{HasGateway, IsGateway, sweep_keeps_gateway}
use juneau.Sweep.Read.{Batch}

abbrev found_or_missing : Option FdbVal → Result MapError FdbVal
found_or_missing none = err key_not_exist
found_or_missing (some v) = ok v

-- A table that the data plane leaves alone.
abbrev quiet_map : LiveMap ℕ FdbVal (Dict ℕ FdbVal)
quiet_map = record {
  max_entries = 8;
  drift = λ s. s;
  look_up = λ k s. (found_or_missing (lookup ℕ_discrete k s), s);
  delete = λ k s. (none, erase ℕ_discrete k s);
  get = λ s k. lookup ℕ_discrete k s;
}

found-cases : (o : Option FdbVal) (v : FdbVal) → found_or_missing o ≡ ok v → o ≡ some v
found-cases none v e = absurd (cc e)
found-cases (some w) v e = cc e

missing-cases : (o : Option FdbVal) → found_or_missing o ≡ err key_not_exist → o ≡ none
missing-cases none e = refl
missing-cases (some w) e = absurd (cc e)

quiet_map-LiveMapLaws : LiveMapLaws ℕ_discrete quiet_map
quiet_map-LiveMapLaws = record {
  look_up_state = λ k s. refl;
  look_up_found = λ k s v e. found-cases (lookup ℕ_discrete k s) v e;
  look_up_missing = λ k s e. missing-cases (lookup ℕ_discrete k s) e;
  delete-get = λ k j s e. lookup-erase ℕ_discrete j k s;
  delete_failed = λ k s x e. absurd (cc e);
  delete_missing = λ k s e. absurd (cc e);
}

-- The gateway's entry at 1 and a learned one at 2, both with old stamps.
abbrev table : Dict ℕ FdbVal
table =
    (1, record { flags = 1; last_seen_ns = 0 }) ∷ (2, record { flags = 0; last_seen_ns = 0 }) ∷ []

abbrev snapshot : Dict ℕ FdbVal → Dict ℕ FdbVal × Result SweepError (List (Entry ℕ FdbVal))
snapshot s = (s, ok s)

table-HasGateway : HasGateway quiet_map 1 table
unfolding HasGateway IsGateway lookup ℕ_discrete
table-HasGateway = (record { flags = 1; last_seen_ns = 0 }, refl, refl)

sweep_keeps_gateway_example :
    HasGateway quiet_map 1
      (sweep quiet_map snapshot (λ entries. plan_fdb_aging entries 1000 300) table).0
sweep_keeps_gateway_example =
    sweep_keeps_gateway ℕ_discrete quiet_map quiet_map-LiveMapLaws 1000 300 1 snapshot table
      (λ t h. h) (λ t h. h) table-HasGateway

-- A map of as many empty buckets as the cursor says.
abbrev batch_of : ℕ → ℕ × ℕ × List (Entry ℕ FdbVal) × Option MapError
batch_of zero = (0, 0, [], some key_not_exist)
batch_of (suc n) = (n, 0, [], none)

abbrev empty_buckets : Batch ℕ FdbVal ℕ ℕ
empty_buckets = record { is_hash = true; max_entries = 8; batch = λ size c s. batch_of c }
