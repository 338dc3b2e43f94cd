-- ===== src/Trace/Store/Learned.antt =====
-- Learned tuples and repeated deletions: daemon/internal/daemon/dataplane/trace/store.go.
use juneau.Prelude.{
  ℕ, ◌%◌, ◌≡◌, refl, ◌∙◌, inl, inr, if_pos, if_neg, Bool-cases, Option, none, some, Option-cases,
  List, ◌==◌, Result-cases, ok, ℕ_discrete,
}
use juneau.Prelude.Dict.{lookup, erase, lookup-erase}
use juneau.Trace.{Ipv4, TupleKey, TupleVal, Event}
use juneau.Trace.Codec.{Endian, marshal_binary}
use juneau.Trace.Mirror.{reverse_mirror_from_event}
use juneau.Trace.Maps.{Maps, MapsLaws, key_not_exist, key_exist, other_error, bytes_discrete}
use juneau.Trace.Store.{
  Store, ◌and_then◌, with_kernel, delete, tear_down, delete_tuples_owned_by,
  reported_unless_missing, delete_config, refresh_active_count,
}
use juneau.Trace.Store.Learn.{learn_reverse_mirror, learn_reverse_from_event}
use juneau.Trace.Store.Steps.{and_then-keeps}

module _ {S : Type 0} (m : Maps S) (endian : Endian) where
  pub tear_down-sessions :
      (id : ℕ) (st : Store S) → (tear_down m endian id st).0.sessions ≡ st.sessions
  unfolding tear_down refresh_active_count
  tear_down-sessions id st =
      let Same = λ (t : Store S). t.sessions ≡ st.sessions in
      let r1 = with_kernel st (delete_tuples_owned_by m endian id st.kernel) in
      let config = λ (t : Store S).
        with_kernel t
          (reported_unless_missing m endian delete_config t.kernel (m.delete_config id t.kernel)) in
      and_then-keeps Same (r1 and_then config) (refresh_active_count m endian)
        (and_then-keeps Same r1 config refl (λ t e. e)) (λ t e. e)

  delete_unknown :
      (id : ℕ) (st : Store S)
      → lookup ℕ_discrete id st.sessions ≡ none
      → delete m endian id st ≡ (st, none)
  unfolding delete
  delete_unknown id st p = rw (p, delete) refl

  pub delete-forgets :
      (id : ℕ) (st : Store S) → lookup ℕ_discrete id (delete m endian id st).0.sessions ≡ none
  unfolding delete
  delete-forgets id st = elim (Option-cases (lookup ℕ_discrete id st.sessions)) [
    | inl p ↦ rw (p, delete) p
    | inr (session, p) ↦
        rw
          (
            p,
            delete,
            tear_down-sessions id (record st { sessions = erase ℕ_discrete id st.sessions }),
          )
          (lookup-erase ℕ_discrete id id st.sessions ∙ if_pos (ℕ_discrete id id) refl _ _)
  ]

  -- A deletion whose session is not known changes nothing, and a session is not known after its
  -- deletion, whether that ended with an error or not: a second deletion does nothing and reports no
  -- error, so what a failed one left in the kernel stays there.
  pub delete_twice :
      (id : ℕ) (st : Store S)
      → delete m endian id (delete m endian id st).0 ≡ ((delete m endian id st).0, none)
  delete_twice id st = delete_unknown id (delete m endian id st).0 (delete-forgets id st)

module _ {S : Type 0} (m : Maps S) (laws : MapsLaws m) (endian : Endian) where
  -- An update with NOEXIST succeeds only where there is nothing.
  added :
      (key : TupleKey) (val : TupleVal) (s s' : S) (b : List ℕ) (v : TupleVal)
      → m.tuple_of s b ≡ some v
      → m.add_tuple (marshal_binary endian key) val s ≡ ok s'
      → m.tuple_of s' b ≡ some v
  added key val s s' b v p e =
      let a = marshal_binary endian key in
      laws.add_tuple-tuples s s' a val b e
      ∙ if_neg (bytes_discrete a b) (λ q. cc (laws.add_tuple_fresh s s' a val e, p, q)) (some val)
          (m.tuple_of s b)
      ∙ p

  learn_reverse_mirror_keeps :
      (id : ℕ) (key : TupleKey) (dir : ℕ) (st : Store S) (b : List ℕ) (v : TupleVal)
      → m.tuple_of st.kernel b ≡ some v
      → m.tuple_of (learn_reverse_mirror m endian id key dir st).0.kernel b ≡ some v
  unfolding learn_reverse_mirror
  learn_reverse_mirror_keeps id key dir st b v p =
      let val : TupleVal = record { trace_id = id; direction = dir % 256 } in
      elim (Bool-cases (id == 0)) [
        | inl z ↦ rw z p
        | inr z ↦ elim (Option-cases (lookup ℕ_discrete id st.sessions)) [
          | inl q ↦ rw (z, q) p
          | inr (session, q) ↦
              elim (Result-cases (m.add_tuple (marshal_binary endian key) val st.kernel)) [
                | inl (s, e) ↦ rw (z, q, e) (added key val st.kernel s b v p e)
                | inr (key_exist, e) ↦ rw (z, q, e) p
                | inr (key_not_exist, e) ↦ rw (z, q, e) p
                | inr (other_error, e) ↦ rw (z, q, e) p
              ]
        ]
      ]

  -- The mirror of an event never replaces a tuple that is there, whatever the kernel answers.
  pub learn_reverse_from_event_keeps :
      (to4 : List ℕ → Option Ipv4) (ev : Event) (st : Store S) (b : List ℕ) (v : TupleVal)
      → m.tuple_of st.kernel b ≡ some v
      → m.tuple_of (learn_reverse_from_event m endian to4 ev st).0.kernel b ≡ some v
  unfolding learn_reverse_from_event
  learn_reverse_from_event_keeps to4 ev st b v p =
      elim (Option-cases (reverse_mirror_from_event to4 ev)) [
        | inl q ↦ rw (q, learn_reverse_from_event) p
        | inr ((key, dir), q) ↦
            rw (q, learn_reverse_from_event)
              (learn_reverse_mirror_keeps ev.trace_id key dir st b v p)
      ]
