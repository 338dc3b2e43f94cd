-- ===== src/Trace/Store/Learn.antt =====
-- Tuples learned from events and from kubectl, and the sweep of expired sessions:
-- daemon/internal/daemon/dataplane/trace/store.go.
use juneau.Prelude.{
  ℕ, ◌%◌, Bool, false, Option, none, some, List, [], ◌∷◌, ◌==◌, if◌then◌else◌, ok, err, ℕ_discrete,
}
use juneau.Prelude.Dict.{Dict, lookup, insert}
use juneau.Prelude.Int.{ℤ}
use juneau.Trace.{Ipv4, TupleKey, TupleVal, Event}
use juneau.Trace.Codec.{Endian, marshal_binary}
use juneau.Trace.Mirror.{reverse_mirror_from_event}
use juneau.Trace.Maps.{Maps, key_not_exist, key_exist, other_error}
use juneau.Trace.Store.{
  Store, SessionState, ◌and_then◌, with_kernel, StoreError, unknown_trace_id, write_reverse_tuple,
  put_tuple, delete, ltb_ℤ, tuple_key_discrete,
}

module _ {S : Type 0} (m : Maps S) (endian : Endian) where
  -- `existing == dir` for a key that the session has.
  has_tuple : SessionState → TupleKey → ℕ → Bool
  has_tuple session key dir = elim (lookup tuple_key_discrete key session.tuples) [
    | none ↦ false
    | some existing ↦ existing == dir
  ]

  remember : ℕ → SessionState → TupleKey → ℕ → Store S → Store S
  remember trace_id session key dir st = record st {
    sessions =
        insert ℕ_discrete trace_id
          (record session { tuples = insert tuple_key_discrete key dir session.tuples })
          st.sessions;
  }

  unfoldable pub learn_tuple : ℕ → TupleKey → ℕ → Store S → Store S × Option StoreError
  unfolding has_tuple remember
  learn_tuple trace_id key dir st = elim (lookup ℕ_discrete trace_id st.sessions) [
    | none ↦ (st, some unknown_trace_id)
    | some session ↦
        if has_tuple session key dir
        then (st, none)
        else with_kernel st (put_tuple m endian key trace_id dir st.kernel) and_then λ st'.
            (remember trace_id session key dir st', none)
  ]

  unfoldable pub learn_reverse_mirror : ℕ → TupleKey → ℕ → Store S → Store S × Option StoreError
  learn_reverse_mirror trace_id key dir st =
      if trace_id == 0 then (st, none) else elim (lookup ℕ_discrete trace_id st.sessions) [
        | none ↦ (st, none)
        | some session ↦
            let val : TupleVal = record { trace_id = trace_id; direction = dir % 256 } in
            elim (m.add_tuple (marshal_binary endian key) val st.kernel) [
              | ok s ↦ (record st { kernel = s }, none)
              | err key_exist ↦ (st, none)
              | err key_not_exist ↦ (st, some write_reverse_tuple)
              | err other_error ↦ (st, some write_reverse_tuple)
            ]
      ]

  unfoldable pub learn_reverse_from_event :
      (List ℕ → Option Ipv4) → Event → Store S → Store S × Option StoreError
  unfolding learn_reverse_mirror
  learn_reverse_from_event to4 ev st = elim (reverse_mirror_from_event to4 ev) [
    | none ↦ (st, none)
    | some (key, dir) ↦ learn_reverse_mirror ev.trace_id key dir st
  ]

  -- `!st.expiresAt.IsZero() && now.After(st.expiresAt)`
  unfoldable pub has_expired : ℤ → SessionState → Bool
  has_expired now session = elim session.expires_at [ none ↦ false | some at ↦ ltb_ℤ at now ]

  -- The loop of `GC` over the sessions that there are at its start.
  unfoldable pub sweep : ℤ → Dict ℕ SessionState → Store S → Store S × Option StoreError
  unfolding has_expired
  sweep now [] st = (st, none)
  sweep now ((id, session) ∷ rest) st =
      (if has_expired now session then delete m endian id st else (st, none)) and_then λ st'.
      sweep now rest st'

  unfoldable pub gc : ℤ → Store S → Store S × Option StoreError
  unfolding sweep
  gc now st = sweep now st.sessions st
