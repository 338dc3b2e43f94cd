-- ===== src/Trace/Store/Dropped.antt =====
-- The first loop of an apply: daemon/internal/daemon/dataplane/trace/store.go.
use juneau.Prelude.{
  ℕ, ◌≡◌, ◌≢◌, ◌∙◌, inl, inr, Bool-cases, some, Option-cases, List, [], ◌∷◌, ◌==◌, ==_iff,
  Result-cases, ok,
}
use juneau.Prelude.Dict.{Dict, lookup}
use juneau.Trace.{TupleKey, TupleVal}
use juneau.Trace.Codec.{Endian, marshal_binary}
use juneau.Trace.Maps.{Maps, MapsLaws, key_not_exist, key_exist, other_error}
use juneau.Trace.Store.{tuple_key_discrete, drop_left, delete_tuple_if_owned, delete_tuple}
use juneau.Trace.Store.Steps.{and_then-keeps}
use juneau.Trace.Store.Deleted.{delete_one-elsewhere}

module _ {S : Type 0} (m : Maps S) (laws : MapsLaws m) (endian : Endian) where
  other_owner :
      (k : TupleKey) (id : ℕ) (s : S) (b : List ℕ) (v w : TupleVal)
      → v.trace_id ≢ id
      → m.tuple_of s b ≡ some v
      → m.lookup_tuple (marshal_binary endian k) s ≡ ok w
      → w.trace_id ≡ id
      → marshal_binary endian k ≢ b
  other_owner k id s b v w n p q same e =
      let found = laws.lookup_tuple_found s (marshal_binary endian k) w q in
      n (cc (found, p, same, e))

  -- A tuple that another session owns is not dropped.
  drop_one-others :
      (k : TupleKey) (id : ℕ) (s : S) (b : List ℕ) (v : TupleVal)
      → v.trace_id ≢ id
      → m.tuple_of s b ≡ some v
      → m.tuple_of (delete_tuple_if_owned m endian k id s).0 b ≡ some v
  unfolding delete_tuple_if_owned
  drop_one-others k id s b v n p =
      elim (Result-cases (m.lookup_tuple (marshal_binary endian k) s)) [
        | inr (key_not_exist, q) ↦ rw (q, delete_tuple_if_owned) p
        | inr (key_exist, q) ↦ rw (q, delete_tuple_if_owned) p
        | inr (other_error, q) ↦ rw (q, delete_tuple_if_owned) p
        | inl (w, q) ↦ elim (Bool-cases (w.trace_id == id)) [
          | inr f ↦ rw (q, delete_tuple_if_owned, f) p
          | inl f ↦
              rw (q, delete_tuple_if_owned, f)
                (delete_one-elsewhere m laws endian delete_tuple (marshal_binary endian k) b s
                    (λ e. other_owner k id s b v w n p q ((==_iff w.trace_id id).0 f) e)
                  ∙ p)
        ]
      ]

  pub drop_left-others :
      (id : ℕ) (desired prev : Dict TupleKey ℕ) (s : S) (b : List ℕ) (v : TupleVal)
      → v.trace_id ≢ id
      → m.tuple_of s b ≡ some v
      → m.tuple_of (drop_left m endian id desired prev s).0 b ≡ some v
  unfolding drop_left
  drop_left-others id desired [] s b v n p = p
  drop_left-others id desired ((k, dir) ∷ rest) s b v n p =
      elim (Option-cases (lookup tuple_key_discrete k desired)) [
        | inr (d, q) ↦ rw (q, drop_left) (drop_left-others id desired rest s b v n p)
        | inl q ↦
            rw (q, drop_left)
              (and_then-keeps (λ (t : S). m.tuple_of t b ≡ some v)
                (delete_tuple_if_owned m endian k id s) (λ t. drop_left m endian id desired rest t)
                (drop_one-others k id s b v n p)
                (λ t e. drop_left-others id desired rest t b v n e))
      ]
