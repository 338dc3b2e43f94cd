-- ===== src/Trace/Store/Applied.antt =====
-- The second loop of an apply: daemon/internal/daemon/dataplane/trace/store.go.
use juneau.Prelude.{
  ℕ, ◌%◌, ◌≡◌, ◌≢◌, refl, sym, ap, subst, ◌∙◌, inl, inr, if_pos, if_neg, Option, none, some, List,
  [], ◌∷◌, All, Result-cases,
}
use juneau.Prelude.Dict.{Dict, lookup, insert}
use juneau.Prelude.Once.{Once, insert-Once, insert-All}
use juneau.Trace.{TupleKey, TupleVal}
use juneau.Trace.Codec.{Endian, marshal_binary}
use juneau.Trace.Codec.Keys.{Fits, marshal_binary-injective}
use juneau.Trace.Maps.{Maps, MapsLaws, bytes_discrete}
use juneau.Trace.Store.{
  StoreError, Tuple, tuple_set, add_tuples, tuple_key_discrete, put_tuple, put_all, reported,
}
use juneau.Trace.Store.Steps.{and_then-none, and_then-keeps}

abbrev pub AllFits : List Tuple → Type 0
AllFits tuples = All (λ (t : Tuple). Fits t.0) tuples

add_tuples-Once :
    (out : Dict TupleKey ℕ) (tuples : List Tuple)
    → Once tuple_key_discrete out
    → Once tuple_key_discrete (add_tuples out tuples)
unfolding add_tuples
add_tuples-Once out [] h = h
add_tuples-Once out ((k, d) ∷ rest) h =
    add_tuples-Once (insert tuple_key_discrete k d out) rest
      (insert-Once tuple_key_discrete k d out h)

pub tuple_set-Once : (tuples : List Tuple) → Once tuple_key_discrete (tuple_set tuples)
unfolding tuple_set Once
tuple_set-Once tuples = add_tuples-Once [] tuples tt

module _ (P : TupleKey → Type 0) where
  add_tuples-All :
      (out : Dict TupleKey ℕ) (tuples : List Tuple)
      → All (λ (t : Tuple). P t.0) out
      → All (λ (t : Tuple). P t.0) tuples
      → All (λ (t : Tuple). P t.0) (add_tuples out tuples)
  unfolding add_tuples
  add_tuples-All out [] h q = h
  add_tuples-All out ((k, d) ∷ rest) h (q, qs) =
      add_tuples-All (insert tuple_key_discrete k d out) rest
        (insert-All tuple_key_discrete P k d out q h) qs

  -- What holds of the keys of the list holds of those of the set.
  pub tuple_set-All :
      (tuples : List Tuple)
      → All (λ (t : Tuple). P t.0) tuples
      → All (λ (t : Tuple). P t.0) (tuple_set tuples)
  unfolding tuple_set
  tuple_set-All tuples q = add_tuples-All [] tuples tt q

some_same : (a b : ℕ) → ◌≡◌ {A = Option ℕ} (some a) (some b) → a ≡ b
some_same a b p = cc p

module _ {S : Type 0} (m : Maps S) (laws : MapsLaws m) (endian : Endian) where
  put_tuple-here :
      (k : TupleKey) (id dir : ℕ) (s : S)
      → (put_tuple m endian k id dir s).1 ≡ none
      → m.tuple_of (put_tuple m endian k id dir s).0 (marshal_binary endian k)
        ≡ some (record { trace_id = id; direction = dir % 256 })
  unfolding put_tuple reported
  put_tuple-here k id dir s p =
      let v : TupleVal = record { trace_id = id; direction = dir % 256 } in
      elim (Result-cases (m.update_tuple (marshal_binary endian k) v s)) [
        | inl (s', q) ↦ rw q (
            laws.update_tuple-tuples s s' (marshal_binary endian k) v (marshal_binary endian k) q
            ∙ if_pos (bytes_discrete _ _) refl _ _)
        | inr (e, q) ↦ absurd (cc (rw q at p))
      ]

  -- A failed call writes nothing.
  put_tuple-elsewhere :
      (k : TupleKey) (id dir : ℕ) (b : List ℕ) (s : S)
      → marshal_binary endian k ≢ b
      → m.tuple_of (put_tuple m endian k id dir s).0 b ≡ m.tuple_of s b
  unfolding put_tuple reported
  put_tuple-elsewhere k id dir b s n =
      let v : TupleVal = record { trace_id = id; direction = dir % 256 } in
      elim (Result-cases (m.update_tuple (marshal_binary endian k) v s)) [
        | inl (s', q) ↦ rw q (
            laws.update_tuple-tuples s s' (marshal_binary endian k) v b q
            ∙ if_neg (bytes_discrete _ _) n _ _)
        | inr (e, q) ↦ rw q refl
      ]

  pub put_all-elsewhere :
      (id : ℕ) (desired : Dict TupleKey ℕ) (b : List ℕ) (s : S)
      → All (λ (t : Tuple). marshal_binary endian t.0 ≢ b) desired
      → m.tuple_of (put_all m endian id desired s).0 b ≡ m.tuple_of s b
  unfolding put_all
  put_all-elsewhere id [] b s h = refl
  put_all-elsewhere id ((k, dir) ∷ rest) b s (h, hs) =
      and_then-keeps (λ (t : S). m.tuple_of t b ≡ m.tuple_of s b) (put_tuple m endian k id dir s)
        (λ t. put_all m endian id rest t) (put_tuple-elsewhere k id dir b s h)
        (λ t e. put_all-elsewhere id rest b t hs ∙ e)

  -- Keys that are not in the set have other bytes than the keys in it.
  missing-elsewhere :
      (k : TupleKey) (desired : Dict TupleKey ℕ)
      → Fits k
      → AllFits desired
      → lookup tuple_key_discrete k desired ≡ none
      → All (λ (t : Tuple). marshal_binary endian t.0 ≢ marshal_binary endian k) desired
  unfolding lookup
  missing-elsewhere k [] f fs p = tt
  missing-elsewhere k ((j, dir) ∷ rest) f (g, gs) p = elim (tuple_key_discrete j k) [
    | Dec.yes q ↦ absurd (
        cc (
          sym (if_pos (tuple_key_discrete j k) q (some dir) (lookup tuple_key_discrete k rest)),
          p,
        ))
    | Dec.no n ↦ (
      λ e. n (marshal_binary-injective endian j k g f e),
      missing-elsewhere k rest f gs (
          sym (if_neg (tuple_key_discrete j k) n (some dir) (lookup tuple_key_discrete k rest))
          ∙ p),
    )
  ]

  -- The rest of the set does not overwrite the first tuple.
  put_first :
      (id : ℕ) (k : TupleKey) (dir : ℕ) (rest : Dict TupleKey ℕ) (s : S)
      → Fits k
      → AllFits rest
      → lookup tuple_key_discrete k rest ≡ none
      → (put_tuple m endian k id dir s).1 ≡ none
      → m.tuple_of
          (put_all m endian id rest (put_tuple m endian k id dir s).0).0
          (marshal_binary endian k)
        ≡ some (record { trace_id = id; direction = dir % 256 })
  put_first id k dir rest s f fs fresh p =
      put_all-elsewhere id rest (marshal_binary endian k) (put_tuple m endian k id dir s).0
        (missing-elsewhere k rest f fs fresh)
      ∙ put_tuple-here k id dir s p

  pub put_all-here :
      (id : ℕ) (k : TupleKey) (dir : ℕ) (desired : Dict TupleKey ℕ) (s : S)
      → Fits k
      → AllFits desired
      → Once tuple_key_discrete desired
      → lookup tuple_key_discrete k desired ≡ some dir
      → (put_all m endian id desired s).1 ≡ none
      → m.tuple_of (put_all m endian id desired s).0 (marshal_binary endian k)
        ≡ some (record { trace_id = id; direction = dir % 256 })
  unfolding put_all lookup Once
  put_all-here id k dir [] s f fs once p q = absurd (cc p)
  put_all-here id k dir ((j, d) ∷ rest) s f (g, gs) (fresh, once) p q =
      let first = put_tuple m endian j id d s in
      let (q1, e) = and_then-none first (λ t. put_all m endian id rest t) q in
      let q2 = subst (λ (t : S × Option StoreError). t.1 ≡ none) e q in
      ap (λ (t : S × Option StoreError). m.tuple_of t.0 (marshal_binary endian k)) e
      ∙ elim (tuple_key_discrete j k) [
        | Dec.yes same ↦
            let found : ◌≡◌ {A = Option ℕ} (some d) (some dir) =
              sym (if_pos (tuple_key_discrete j k) same (some d) (lookup tuple_key_discrete k rest))
              ∙ p in
            rw (sym same, sym (some_same d dir found)) (put_first id j d rest s g gs fresh q1)
        | Dec.no n ↦
            put_all-here id k dir rest first.0 f gs once
              (sym (if_neg (tuple_key_discrete j k) n (some d) (lookup tuple_key_discrete k rest))
                ∙ p)
              q2
      ]
