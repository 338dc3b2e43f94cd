-- ===== src/Trace/Store.antt =====
-- The trace store: daemon/internal/daemon/dataplane/trace/store.go. Every method holds the lock from
-- start to end, so a method is one function on the store; it returns the new store and its error.
pub mod Deleted
pub mod Applied
pub mod Collected
pub mod Learned
pub mod Learn
mod Dropped
pub mod Programmed
mod Steps
use juneau.Prelude.{
  ℕ, zero, suc, ◌+◌, ◌-◌, ◌%◌, ◌^◌, Bool, true, false, not, ◌&&◌, Option, none, some, List, [], ◌∷◌,
  length, map, ltb, ◌==◌, if◌then◌else◌, Result, ok, err, ℕ_discrete,
}
use juneau.Prelude.Dict.{Dict, lookup, insert, erase}
use juneau.Prelude.Int.{ℤ, pos, negsuc, pos_part, neg_part, ◌+ℤ◌, ◌-ℤ◌}
use juneau.Trace.{Ipv4, TupleKey, TupleVal, Event}
use juneau.Trace.Codec.{Endian, marshal_binary}
use juneau.Trace.Mirror.{reverse_mirror_from_event}
use juneau.Trace.Maps.{Maps, MapError, key_not_exist, key_exist, other_error, ConfigVal}

pub ipv4_discrete : Discrete Ipv4
ipv4_discrete = hlevel ℕ_discrete

pub tuple_key_discrete : Discrete TupleKey
tuple_key_discrete = hlevel (ℕ_discrete, ipv4_discrete)

-- `Tuple`
abbrev pub Tuple : Type 0
Tuple = TupleKey × ℕ

-- `SessionSpec`; the zero time is `none`.
pub record SessionSpec : Type 0 where
  pub trace_id : ℕ
  pub generation : ℤ
  pub expires_at : Option ℤ
  pub capture_flags : ℕ
  pub level : ℕ
  pub mode : ℕ
  pub tuples : List Tuple

-- `sessionState`, without the id, which is its key in the store.
pub record SessionState : Type 0 where
  pub expires_at : Option ℤ
  pub tuples : Dict TupleKey ℕ
  pub generation : ℤ

pub record Store (S : Type 0) : Type 0 where
  pub kernel : S
  pub sessions : Dict ℕ SessionState

pub data StoreError : Type 0 where
  zero_trace_id unknown_trace_id : StoreError
  write_config delete_config iterate_tuples lookup_tuple delete_tuple : StoreError
  write_tuple write_reverse_tuple write_active_count : StoreError

-- The clocks: `monoNowNs()`, and `time.Until` of an instant.
pub record Clock : Type 0 where
  pub mono_now_ns : ℤ
  pub until : ℤ → ℤ

unfoldable pub ltb_ℤ : ℤ → ℤ → Bool
ltb_ℤ a b = ltb (pos_part a + neg_part b) (pos_part b + neg_part a)

-- The conversion of a signed integer to 64 bits.
unfoldable pub to_u64 : ℤ → ℕ
to_u64 (pos n) = n % 2 ^ 64
to_u64 (negsuc n) = 2 ^ 64 - 1 - n % 2 ^ 64

expires_ns : Clock → Option ℤ → ℕ
unfolding ltb_ℤ to_u64
expires_ns clock none = 0
expires_ns clock (some at) =
    let ahead = clock.until at in
    if ltb_ℤ ahead (pos 0)
    then to_u64 (clock.mono_now_ns -ℤ pos 1)
    else to_u64 (clock.mono_now_ns +ℤ ahead)

unfoldable pub store_config_val : Clock → SessionSpec → ConfigVal
unfolding expires_ns
store_config_val clock spec = record {
  expires_ns = expires_ns clock spec.expires_at;
  capture_flags = spec.capture_flags;
  level = spec.level;
  mode = spec.mode;
}

-- The last direction that the list gives a key counts.
unfoldable pub add_tuples : Dict TupleKey ℕ → List Tuple → Dict TupleKey ℕ
add_tuples out [] = out
add_tuples out ((key, dir) ∷ rest) = add_tuples (insert tuple_key_discrete key dir out) rest

unfoldable pub tuple_set : List Tuple → Dict TupleKey ℕ
unfolding add_tuples
tuple_set tuples = add_tuples [] tuples

unfoldable pub active_trace_ids : {S : Type 0} → Store S → List ℕ
active_trace_ids st = map (λ entry. entry.0) st.sessions

-- The next step of a method that returns at the first error.
infixl 5 ◌and_then◌
abbrev pub ◌and_then◌ : {T E : Type 0} → T × Option E → (T → T × Option E) → T × Option E
(t, none) and_then f = f t
(t, some e) and_then f = (t, some e)

-- A method's calls on the kernel alone.
abbrev pub with_kernel :
    {S : Type 0} → Store S → S × Option StoreError → Store S × Option StoreError
with_kernel st (s, e) = (record st { kernel = s }, e)

unfoldable pub is_stale : SessionSpec → Option SessionState → Bool
unfolding ltb_ℤ
is_stale spec none = false
is_stale spec (some prev) = ltb_ℤ spec.generation prev.generation

unfoldable pub prev_tuples : Option SessionState → Dict TupleKey ℕ
prev_tuples none = []
prev_tuples (some prev) = prev.tuples

-- The session of the spec, in the place of the one that had its id.
unfoldable pub sessions_with : SessionSpec → Dict ℕ SessionState → Dict ℕ SessionState
unfolding tuple_set
sessions_with spec sessions =
    insert ℕ_discrete spec.trace_id
      (record {
        expires_at = spec.expires_at;
        tuples = tuple_set spec.tuples;
        generation = spec.generation;
      })
      sessions

unfoldable pub record_session : {S : Type 0} → SessionSpec → Store S → Store S
unfolding sessions_with
record_session spec st = record st { sessions = sessions_with spec st.sessions }

module _ {S : Type 0} (m : Maps S) (endian : Endian) where
  -- A call on a map whose every error is reported as `e`.
  unfoldable pub reported : StoreError → S → Result MapError S → S × Option StoreError
  reported e s (ok s') = (s', none)
  reported e s (err cause) = (s, some e)

  -- A call on a map whose error is reported as `e`, except for a missing key.
  unfoldable pub reported_unless_missing :
      StoreError → S → Result MapError S → S × Option StoreError
  reported_unless_missing e s (ok s') = (s', none)
  reported_unless_missing e s (err key_not_exist) = (s, none)
  reported_unless_missing e s (err key_exist) = (s, some e)
  reported_unless_missing e s (err other_error) = (s, some e)

  unfoldable pub put_tuple : TupleKey → ℕ → ℕ → S → S × Option StoreError
  unfolding reported
  put_tuple k trace_id dir s = reported write_tuple s (
      m.update_tuple (marshal_binary endian k)
        (record { trace_id = trace_id; direction = dir % 256 }) s)

  unfoldable pub delete_tuple_if_owned : TupleKey → ℕ → S → S × Option StoreError
  unfolding reported_unless_missing
  delete_tuple_if_owned k trace_id s = elim (m.lookup_tuple (marshal_binary endian k) s) [
    | err key_not_exist ↦ (s, none)
    | err key_exist ↦ (s, some lookup_tuple)
    | err other_error ↦ (s, some lookup_tuple)
    | ok existing ↦
        if existing.trace_id == trace_id
        then reported_unless_missing delete_tuple s (m.delete_tuple (marshal_binary endian k) s)
        else (s, none)
  ]

  -- The first loop of `Apply`: tuples that left the session.
  unfoldable pub drop_left : ℕ → Dict TupleKey ℕ → Dict TupleKey ℕ → S → S × Option StoreError
  unfolding delete_tuple_if_owned
  drop_left trace_id desired [] s = (s, none)
  drop_left trace_id desired ((k, dir) ∷ rest) s = elim (lookup tuple_key_discrete k desired) [
    | some keep ↦ drop_left trace_id desired rest s
    | none ↦ delete_tuple_if_owned k trace_id s and_then λ s'. drop_left trace_id desired rest s'
  ]

  -- The second loop of `Apply`.
  unfoldable pub put_all : ℕ → Dict TupleKey ℕ → S → S × Option StoreError
  unfolding put_tuple
  put_all trace_id [] s = (s, none)
  put_all trace_id ((k, dir) ∷ rest) s =
      put_tuple k trace_id dir s and_then λ s'. put_all trace_id rest s'

  unfoldable pub refresh_active_count : Store S → Store S × Option StoreError
  unfolding reported
  refresh_active_count st = with_kernel st (
      reported write_active_count st.kernel
        (m.update_active (length st.sessions % 2 ^ 32) st.kernel))

  -- `Apply` once its configuration is written.
  unfoldable pub program : SessionSpec → Store S → Store S × Option StoreError
  unfolding drop_left put_all refresh_active_count prev_tuples record_session
  program spec st =
      let desired = tuple_set spec.tuples in
      let prev = prev_tuples (lookup ℕ_discrete spec.trace_id st.sessions) in
      with_kernel st (drop_left spec.trace_id desired prev st.kernel)
      and_then (λ st'. with_kernel st' (put_all spec.trace_id desired st'.kernel))
      and_then (λ st'. refresh_active_count (record_session spec st'))

  unfoldable pub apply : Clock → SessionSpec → Store S → Store S × Option StoreError
  unfolding is_stale program
  apply clock spec st =
      if spec.trace_id == 0
      then (st, some zero_trace_id)
      else (if is_stale spec (lookup ℕ_discrete spec.trace_id st.sessions)
          then (st, none)
          else elim (m.update_config spec.trace_id (store_config_val clock spec) st.kernel) [
            | err cause ↦ (st, some write_config)
            | ok s ↦ program spec (record st { kernel = s })
          ])

  -- The keys of the entries whose value has the id.
  unfoldable pub victims : ℕ → List (List ℕ × TupleVal) → List (List ℕ)
  victims trace_id [] = []
  victims trace_id ((k, val) ∷ rest) =
      let others = victims trace_id rest in if val.trace_id == trace_id then k ∷ others else others

  unfoldable pub delete_each : List (List ℕ) → S → S × Option StoreError
  unfolding reported_unless_missing
  delete_each [] s = (s, none)
  delete_each (k ∷ ks) s =
      reported_unless_missing delete_tuple s (m.delete_tuple k s) and_then λ s'. delete_each ks s'

  unfoldable pub delete_tuples_owned_by : ℕ → S → S × Option StoreError
  unfolding victims delete_each
  delete_tuples_owned_by trace_id s = elim (m.iterate s) [
    | err cause ↦ (s, some iterate_tuples)
    | ok entries ↦ delete_each (victims trace_id entries) s
  ]

  -- `deleteLocked` of a session that is known, once it is forgotten.
  unfoldable pub tear_down : ℕ → Store S → Store S × Option StoreError
  unfolding delete_tuples_owned_by reported_unless_missing refresh_active_count
  tear_down trace_id st =
      with_kernel st (delete_tuples_owned_by trace_id st.kernel)
      and_then (λ st'.
          with_kernel st' (
            reported_unless_missing delete_config st'.kernel (m.delete_config trace_id st'.kernel)))
      and_then refresh_active_count

  -- `Delete` and `deleteLocked`
  unfoldable pub delete : ℕ → Store S → Store S × Option StoreError
  unfolding tear_down
  delete trace_id st = elim (lookup ℕ_discrete trace_id st.sessions) [
    | none ↦ (st, none)
    | some session ↦
        tear_down trace_id (record st { sessions = erase ℕ_discrete trace_id st.sessions })
  ]
