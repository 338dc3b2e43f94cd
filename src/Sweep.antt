-- ===== src/Sweep.antt =====
-- Removing entries from a live BPF hash map:
-- daemon/internal/daemon/dataplane/internal/mapsweep/mapsweep.go, and the plan that ages forwarding
-- entries, daemon/internal/daemon/dataplane/l2/fdb_gc.go. The map is a parameter, which the data
-- plane changes before every call.
pub mod Read
pub mod Kept
pub mod Gateway
mod Tests
use Prim.Native.String.{String}
use juneau.Prelude.{
  ℕ, zero, suc, ◌+◌, ◌*◌, ◌-◌, ◌≡◌, ◌<◌, ◌≤◌, min, bit_and, Bool, true, false, not, ◌&&◌, Option,
  none, some, List, [], ◌∷◌, ◌++◌, length, take, ltb, leb, ◌==◌, ite, if◌then◌else◌, Result, ok,
  err,
}
use juneau.Prelude.Dict.{Dict, lookup, insert}
use juneau.Prelude.Text.{string_discrete}

abbrev pub Entry : Type 0 → Type 0 → Type 0
Entry K V = K × V

-- `Current`: `value` is `none` when the key is not present.
pub record Current (K V : Type 0) : Type 0 where
  pub key : K
  pub value : Option V

pub record Group (K : Type 0) : Type 0 where
  pub keys : List K
  pub reason : String

pub record Plan (K V : Type 0) : Type 0 where
  pub groups : List (Group K)
  pub confirm : Group K → List (Current K V) → Bool

pub record Stats : Type 0 where
  pub capacity : ℕ
  pub read : ℕ
  pub removed : Dict String ℕ
  pub kept : ℕ

pub data MapError : Type 0 where
  key_not_exist no_space other_error : MapError

pub data SweepError : Type 0 where
  unsupported_map read_failed bucket_too_large lookup_failed delete_failed : SweepError

-- The calls on the map with the state that each leaves, and what the map holds under a key.
-- `drift` is what the data plane does before a call.
pub record LiveMap (K V S : Type 0) : Type 0 where
  pub max_entries : ℕ
  pub drift : S → S
  pub look_up : K → S → Result MapError V × S
  pub delete : K → S → Option MapError × S
  pub get : S → K → Option V

pub record LiveMapLaws {K V S : Type 0} (dec : Discrete K) (m : LiveMap K V S) : Type 0 where
  pub look_up_state : (k : K) (s : S) → (m.look_up k s).1 ≡ m.drift s
  pub look_up_found :
      (k : K) (s : S) (v : V) → (m.look_up k s).0 ≡ ok v → m.get (m.drift s) k ≡ some v
  pub look_up_missing :
      (k : K) (s : S) → (m.look_up k s).0 ≡ err key_not_exist → m.get (m.drift s) k ≡ none
  pub delete-get :
      (k j : K) (s : S)
      → (m.delete k s).0 ≡ none
      → m.get (m.delete k s).1 j ≡ ite (dec k j) none (m.get (m.drift s) j)
  pub delete_failed :
      (k : K) (s : S) (e : MapError) → (m.delete k s).0 ≡ some e → (m.delete k s).1 ≡ m.drift s
  pub delete_missing :
      (k : K) (s : S) → (m.delete k s).0 ≡ some key_not_exist → m.get (m.drift s) k ≡ none

module _ {K V : Type 0} where
  stale_groups : List (Entry K V) → String → (K → V → Bool) → List (Group K)
  stale_groups [] reason stale = []
  stale_groups ((k, v) ∷ snapshot) reason stale =
      let rest = stale_groups snapshot reason stale in
      if stale k v then record { keys = k ∷ []; reason = reason } ∷ rest else rest

  -- `stale(current[0].Key, current[0].Value)`; a group of this plan has one key, and is asked about
  -- only while that key is there.
  confirm_first : (K → V → Bool) → List (Current K V) → Bool
  confirm_first stale [] = false
  confirm_first stale (c ∷ rest) = elim c.value [ none ↦ false | some v ↦ stale c.key v ]

  unfoldable pub by_entry : List (Entry K V) → String → (K → V → Bool) → Plan K V
  unfolding stale_groups confirm_first
  by_entry snapshot reason stale = record {
    groups = stale_groups snapshot reason stale;
    confirm = λ group current. confirm_first stale current;
  }

  present : List (Current K V) → ℕ
  present [] = 0
  present (c ∷ rest) = elim c.value [ none ↦ present rest | some v ↦ suc (present rest) ]

count : String → Dict String ℕ → Dict String ℕ
count reason removed =
    insert string_discrete reason
      (suc (elim (lookup string_discrete reason removed) [ none ↦ 0 | some n ↦ n ])) removed

module _ {K V S : Type 0} (m : LiveMap K V S) where
  -- The state, what was found so far, and the error.
  unfoldable pub recheck :
      List K → S → List (Current K V) → S × List (Current K V) × Option SweepError
  recheck [] s current = (s, current, none)
  recheck (k ∷ ks) s current =
      let s' = (m.look_up k s).1 in
      elim (m.look_up k s).0 [
        | ok v ↦ recheck ks s' (current ++ record { key = k; value = some v } ∷ [])
        | err key_not_exist ↦ recheck ks s' (current ++ record { key = k; value = none } ∷ [])
        | err no_space ↦ (s', current, some lookup_failed)
        | err other_error ↦ (s', current, some lookup_failed)
      ]

  -- Whether the key was there to delete.
  unfoldable pub remove : K → S → S × Result SweepError Bool
  remove k s = (
    (m.delete k s).1,
    elim (m.delete k s).0 [
      | none ↦ ok true
      | some key_not_exist ↦ ok false
      | some no_space ↦ err delete_failed
      | some other_error ↦ err delete_failed
    ],
  )

  unfoldable pub remove_present :
      String → List (Current K V) → S → Stats → S × Stats × Option SweepError
  unfolding remove count
  remove_present reason [] s stats = (s, stats, none)
  remove_present reason (c ∷ rest) s stats =
      let (s', r) = remove c.key s in
      elim c.value [
        | none ↦ remove_present reason rest s stats
        | some v ↦ elim r [
          | err e ↦ (s', stats, some e)
          | ok true ↦
              remove_present reason rest s' (record stats { removed = count reason stats.removed })
          | ok false ↦ remove_present reason rest s' stats
        ]
      ]

  -- What follows the recheck of a group.
  judge :
      Plan K V
      → Group K
      → Stats
      → S × List (Current K V) × Option SweepError
      → S × Stats × Option SweepError
  unfolding remove_present present
  judge plan group stats (s, current, some failed) = (s, stats, some failed)
  judge plan group stats (s, current, none) =
      if present current == 0
      then (s, stats, none)
      else (if plan.confirm group current
          then remove_present group.reason current s stats
          else (s, record stats { kept = stats.kept + present current }, none))

  -- One planned group.
  unfoldable pub sweep_group : Plan K V → Group K → S → Stats → S × Stats × Option SweepError
  unfolding recheck judge
  sweep_group plan group s stats = judge plan group stats (recheck group.keys s [])

  unfoldable pub sweep_groups :
      Plan K V → List (Group K) → S → Stats → S × Stats × Option SweepError
  unfolding sweep_group
  sweep_groups plan [] s stats = (s, stats, none)
  sweep_groups plan (group ∷ rest) s stats =
      let (s', stats', e) = sweep_group plan group s stats in
      let later = sweep_groups plan rest s' stats' in
      elim e [ some failed ↦ (s', stats', some failed) | none ↦ later ]

  -- The snapshot and the state that it leaves, or its error, come from `Snapshot`.
  unfoldable pub sweep :
      (S → S × Result SweepError (List (Entry K V)))
      → (List (Entry K V) → Plan K V)
      → S
      → S × Stats × Option SweepError
  unfolding sweep_groups
  sweep snapshot planner s =
      let (s', r) = snapshot s in
      let empty : Stats = record { capacity = m.max_entries; read = 0; removed = []; kept = 0 } in
      elim r [
        | err e ↦ (s', empty, some e)
        | ok entries ↦
            let plan = planner entries in
            sweep_groups plan plan.groups s' (record empty { read = length entries })
      ]

-- `bpf.PodEgressL2FdbVal`, as far as the plan reads it.
pub record FdbVal : Type 0 where
  pub flags : ℕ
  pub last_seen_ns : ℕ

abbrev pub fdb_flag_gateway : ℕ
fdb_flag_gateway = 1

-- Unsigned subtraction after the comparison does not wrap.
unfoldable pub is_aged : ℕ → ℕ → FdbVal → Bool
is_aged now_ns aging val =
    if bit_and val.flags fdb_flag_gateway == 0
    then leb val.last_seen_ns now_ns && leb aging (now_ns - val.last_seen_ns)
    else false

unfoldable pub plan_fdb_aging : {K : Type 0} → List (Entry K FdbVal) → ℕ → ℕ → Plan K FdbVal
unfolding is_aged
plan_fdb_aging snapshot now_ns aging = by_entry snapshot "aged" (λ k val. is_aged now_ns aging val)
