-- ===== src/Trace/Store/Programmed.antt =====
-- The maps after an apply: daemon/internal/daemon/dataplane/trace/store.go.
use juneau.Prelude.{
  ℕ, ◌%◌, ◌^◌, ◌≡◌, ◌≢◌, refl, ap, subst, ◌∙◌, inl, inr, false, Bool-cases, Option, none, some,
  List, length, All, ◌==◌, Result-cases, ℕ_discrete,
}
use juneau.Prelude.Dict.{lookup}
use juneau.Trace.{TupleKey, TupleVal}
use juneau.Trace.Codec.{Endian, marshal_binary}
use juneau.Trace.Codec.Keys.{Fits}
use juneau.Trace.Maps.{Maps, MapsLaws}
use juneau.Trace.Store.{
  Store, Clock, SessionSpec, StoreError, Tuple, tuple_set, tuple_key_discrete, put_all, drop_left,
  ◌and_then◌, with_kernel, refresh_active_count, prev_tuples, record_session, sessions_with,
  program, apply, is_stale, store_config_val,
}
use juneau.Trace.Store.Steps.{and_then-none, and_then-keeps}
use juneau.Trace.Store.Deleted.{refresh_active_count_lem, refresh-tuples}
use juneau.Trace.Store.Applied.{
  AllFits, tuple_set-Once, tuple_set-All, put_all-here, put_all-elsewhere,
}
use juneau.Trace.Store.Dropped.{drop_left-others}

module _ {S : Type 0} (m : Maps S) (laws : MapsLaws m) (endian : Endian) where
  dropped : SessionSpec → Store S → Store S × Option StoreError
  dropped spec st = with_kernel st (
      drop_left m endian spec.trace_id (tuple_set spec.tuples)
        (prev_tuples (lookup ℕ_discrete spec.trace_id st.sessions)) st.kernel)

  put : SessionSpec → Store S → Store S × Option StoreError
  put spec st = with_kernel st (put_all m endian spec.trace_id (tuple_set spec.tuples) st.kernel)

  recorded : SessionSpec → Store S → Store S × Option StoreError
  recorded spec st = refresh_active_count m endian (record_session spec st)

  Programmed : SessionSpec → Store S → Store S → TupleKey → ℕ → Type 0
  Programmed spec st st' k dir =
      (m.tuple_of st'.kernel (marshal_binary endian k)
        ≡ some (record { trace_id = spec.trace_id; direction = dir % 256 }))
      × (m.active_of st'.kernel ≡ length (sessions_with spec st.sessions) % 2 ^ 32)
      × (st'.sessions ≡ sessions_with spec st.sessions)

  program-Programmed :
      (spec : SessionSpec) (st : Store S) (k : TupleKey) (dir : ℕ)
      → Fits k
      → AllFits spec.tuples
      → lookup tuple_key_discrete k (tuple_set spec.tuples) ≡ some dir
      → (program m endian spec st).1 ≡ none
      → Programmed spec st (program m endian spec st).0 k dir
  unfolding program Programmed dropped put recorded sessions_with record_session
  program-Programmed spec st k dir f fs p q =
      let r1 = dropped spec st in
      let (q2, e2) = and_then-none (r1 and_then put spec) (recorded spec) q in
      let (q1, e1) = and_then-none r1 (put spec) q2 in
      let e = e2 ∙ ap (λ (t : Store S × Option StoreError). recorded spec t.0) e1 in
      let r2 = put spec r1.0 in
      let b = marshal_binary endian k in
      let (tuples, active, sessions) =
        refresh_active_count_lem m laws endian (record_session spec r2.0) b
          (subst (λ (t : Store S × Option StoreError). t.1 ≡ none) e q) in
      (
        ap (λ (t : Store S × Option StoreError). m.tuple_of t.0.kernel b) e
            ∙ tuples
            ∙ put_all-here m laws endian spec.trace_id k dir (tuple_set spec.tuples) r1.0.kernel f
                (tuple_set-All Fits spec.tuples fs) (tuple_set-Once spec.tuples) p
                (subst (λ (t : Store S × Option StoreError). t.1 ≡ none) e1 q2),
        ap (λ (t : Store S × Option StoreError). m.active_of t.0.kernel) e ∙ active,
        ap (λ (t : Store S × Option StoreError). t.0.sessions) e ∙ sessions,
      )

  -- What an apply of a spec that is not stale does, if it ends without an error.
  apply-program :
      (clock : Clock) (spec : SessionSpec) (st : Store S)
      → is_stale spec (lookup ℕ_discrete spec.trace_id st.sessions) ≡ false
      → (apply m endian clock spec st).1 ≡ none
      → (s : S) × (apply m endian clock spec st ≡ program m endian spec (record st { kernel = s }))
  unfolding apply
  apply-program clock spec st fresh p = elim (Bool-cases (spec.trace_id == 0)) [
    | inl z ↦ absurd (cc (rw z at p))
    | inr z ↦
        elim (Result-cases
          (m.update_config spec.trace_id (store_config_val clock spec) st.kernel)) [
            | inl (s, q) ↦ (s, rw (z, fresh, q) refl)
            | inr (e, q) ↦ absurd (cc (rw (z, fresh, q) at p))
          ]
  ]

  -- An apply of a spec that is not older than its session and whose keys have their widths, if it
  -- ends without an error, tags each tuple of the spec with the session's id and the last leg that
  -- the spec gives it, records the session, and writes the number of sessions modulo 2 ^ 32.
  pub apply-programs :
      (clock : Clock) (spec : SessionSpec) (st : Store S) (k : TupleKey) (dir : ℕ)
      → Fits k
      → AllFits spec.tuples
      → lookup tuple_key_discrete k (tuple_set spec.tuples) ≡ some dir
      → is_stale spec (lookup ℕ_discrete spec.trace_id st.sessions) ≡ false
      → (apply m endian clock spec st).1 ≡ none
      → (m.tuple_of (apply m endian clock spec st).0.kernel (marshal_binary endian k)
          ≡ some (record { trace_id = spec.trace_id; direction = dir % 256 }))
        × (m.active_of (apply m endian clock spec st).0.kernel
            ≡ length (sessions_with spec st.sessions) % 2 ^ 32)
        × ((apply m endian clock spec st).0.sessions ≡ sessions_with spec st.sessions)
  unfolding Programmed
  apply-programs clock spec st k dir f fs p fresh q =
      let (s, e) = apply-program clock spec st fresh q in
      rw e (program-Programmed spec (record st { kernel = s }) k dir f fs p (rw e at q))

  program-others :
      (spec : SessionSpec) (st : Store S) (b : List ℕ) (v : TupleVal)
      → v.trace_id ≢ spec.trace_id
      → All (λ (t : Tuple). marshal_binary endian t.0 ≢ b) spec.tuples
      → m.tuple_of st.kernel b ≡ some v
      → m.tuple_of (program m endian spec st).0.kernel b ≡ some v
  unfolding program put dropped recorded
  program-others spec st b v n other p =
      let Has = λ (t : Store S). m.tuple_of t.kernel b ≡ some v in
      and_then-keeps Has (dropped spec st and_then put spec) (recorded spec)
        (and_then-keeps Has (dropped spec st) (put spec)
          (drop_left-others m laws endian spec.trace_id (tuple_set spec.tuples)
            (prev_tuples (lookup ℕ_discrete spec.trace_id st.sessions)) st.kernel b v n p)
          (λ t e.
            put_all-elsewhere m laws endian spec.trace_id (tuple_set spec.tuples) b t.kernel
              (tuple_set-All (λ (k : TupleKey). marshal_binary endian k ≢ b) spec.tuples other)
            ∙ e))
        (λ t e. refreshed t e)
    where
      refreshed :
          (t : Store S)
          → m.tuple_of t.kernel b ≡ some v
          → m.tuple_of (recorded spec t).0.kernel b ≡ some v
      refreshed t e = refresh-tuples m laws endian (record_session spec t) b ∙ e

  -- An apply, with an error or without, leaves the tuples of other sessions as they are, if the spec
  -- does not list them.
  pub apply_others :
      (clock : Clock) (spec : SessionSpec) (st : Store S) (b : List ℕ) (v : TupleVal)
      → v.trace_id ≢ spec.trace_id
      → All (λ (t : Tuple). marshal_binary endian t.0 ≢ b) spec.tuples
      → m.tuple_of st.kernel b ≡ some v
      → m.tuple_of (apply m endian clock spec st).0.kernel b ≡ some v
  unfolding apply
  apply_others clock spec st b v n other p = elim (Bool-cases (spec.trace_id == 0)) [
    | inl z ↦ rw z p
    | inr z ↦ elim (Bool-cases (is_stale spec (lookup ℕ_discrete spec.trace_id st.sessions))) [
      | inl old ↦ rw (z, old) p
      | inr fresh ↦
          elim (Result-cases
            (m.update_config spec.trace_id (store_config_val clock spec) st.kernel)) [
              | inl (s, q) ↦
                  rw (z, fresh, q)
                    (program-others spec (record st { kernel = s }) b v n other
                      (laws.update_config-tuples st.kernel s spec.trace_id
                          (store_config_val clock spec) b q
                        ∙ p))
              | inr (e, q) ↦ rw (z, fresh, q) p
            ]
    ]
  ]
