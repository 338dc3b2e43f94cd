-- ===== src/Trace/Store/Deleted.antt =====
-- The maps after a deletion: daemon/internal/daemon/dataplane/trace/store.go.
use juneau.Prelude.{
  ℕ, zero, suc, ◌%◌, ◌^◌, ◌≡◌, ◌≢◌, refl, sym, ap, subst, ◌∙◌, ◌⊎◌, inl, inr, ite, if_pos, if_neg,
  arith, Bool, true, false, Bool-cases, Option, none, some, Option-cases, List, [], ◌∷◌, any,
  length, get_elem?, ◌==◌, ==_iff, if◌then◌else◌, Result-cases, ok, ℕ_discrete,
}
use juneau.Prelude.Dict.{lookup, erase}
use juneau.Trace.{TupleVal}
use juneau.Trace.Codec.{Endian}
use juneau.Trace.Maps.{Maps, MapsLaws, key_not_exist, key_exist, other_error, bytes_discrete}
use juneau.Trace.Store.Steps.{and_then-none}
use juneau.Trace.Store.{
  Store, SessionState, StoreError, ◌and_then◌, with_kernel, reported, reported_unless_missing,
  delete_tuple, delete_config, victims, delete_each, delete_tuples_owned_by, refresh_active_count,
  tear_down, delete,
}

-- A tuple of the session goes, another stays.
unfoldable pub unless_owned : ℕ → Option TupleVal → Option TupleVal
unless_owned id none = none
unless_owned id (some v) = if v.trace_id == id then none else some v

listed : List ℕ → List (List ℕ) → Bool
listed b ks = any (λ k. ite (bytes_discrete k b) true false) ks

listed-cons :
    (k b : List ℕ) (ks : List (List ℕ)) (o : Option TupleVal)
    → (if listed b ks then none else ite (bytes_discrete k b) none o)
      ≡ (if listed b (k ∷ ks) then none else o)
unfolding listed
listed-cons k b ks o = ground arith

module _ {S : Type 0} (m : Maps S) (laws : MapsLaws m) (endian : Endian) where
  absent_stays :
      (k b : List ℕ) (s : S)
      → m.tuple_of s k ≡ none
      → m.tuple_of s b ≡ ite (bytes_discrete k b) none (m.tuple_of s b)
  absent_stays k b s p = elim (bytes_discrete k b) [
    | Dec.yes q ↦
        subst (λ (c : List ℕ). m.tuple_of s c ≡ none) q p ∙ sym (if_pos (bytes_discrete k b) q _ _)
    | Dec.no n ↦ sym (if_neg (bytes_discrete k b) n _ _)
  ]

  pub delete_one-removes :
      (e : StoreError) (k b : List ℕ) (s : S)
      → (reported_unless_missing m endian e s (m.delete_tuple k s)).1 ≡ none
      → m.tuple_of (reported_unless_missing m endian e s (m.delete_tuple k s)).0 b
        ≡ ite (bytes_discrete k b) none (m.tuple_of s b)
  unfolding reported_unless_missing
  delete_one-removes e k b s p = elim (Result-cases (m.delete_tuple k s)) [
    | inl (s', q) ↦ rw q (laws.delete_tuple-tuples s s' k b q)
    | inr (key_not_exist, q) ↦ rw q (absent_stays k b s (laws.delete_tuple_missing s k q))
    | inr (key_exist, q) ↦ absurd (cc (rw q at p))
    | inr (other_error, q) ↦ absurd (cc (rw q at p))
  ]

  -- A call that fails removes nothing.
  pub delete_one-elsewhere :
      (e : StoreError) (k b : List ℕ) (s : S)
      → k ≢ b
      → m.tuple_of (reported_unless_missing m endian e s (m.delete_tuple k s)).0 b ≡ m.tuple_of s b
  unfolding reported_unless_missing
  delete_one-elsewhere e k b s n = elim (Result-cases (m.delete_tuple k s)) [
    | inl (s', q) ↦ rw q (laws.delete_tuple-tuples s s' k b q ∙ if_neg (bytes_discrete k b) n _ _)
    | inr (key_not_exist, q) ↦ rw q refl
    | inr (key_exist, q) ↦ rw q refl
    | inr (other_error, q) ↦ rw q refl
  ]

  delete_each-removes :
      (ks : List (List ℕ)) (b : List ℕ) (s : S)
      → (delete_each m endian ks s).1 ≡ none
      → m.tuple_of (delete_each m endian ks s).0 b ≡ (if listed b ks then none else m.tuple_of s b)
  unfolding delete_each listed
  delete_each-removes [] b s p = refl
  delete_each-removes (k ∷ ks) b s p =
      let r = reported_unless_missing m endian delete_tuple s (m.delete_tuple k s) in
      let (q, e) = and_then-none r (λ s'. delete_each m endian ks s') p in
      let here = delete_one-removes delete_tuple k b s q in
      let rest =
        delete_each-removes ks b r.0 (subst (λ (t : S × Option StoreError). t.1 ≡ none) e p) in
      ap (λ (t : S × Option StoreError). m.tuple_of t.0 b) e
      ∙ rest
      ∙ ap (λ (o : Option TupleVal). if listed b ks then none else o) here
      ∙ listed-cons k b ks (m.tuple_of s b)

  victims-cons :
      (id : ℕ) (k b : List ℕ) (v : TupleVal) (rest : List (List ℕ × TupleVal))
      → listed b (victims m endian id ((k, v) ∷ rest)) ≡ true
      → ((k ≡ b) × (v.trace_id ≡ id)) ⊎ (listed b (victims m endian id rest) ≡ true)
  unfolding victims listed
  victims-cons id k b v rest p = ground (arith, p)

  -- The list of victims has the keys of the entries that have the id, and no other.
  victims-listed :
      (id : ℕ) (entries : List (List ℕ × TupleVal)) (b : List ℕ)
      → listed b (victims m endian id entries) ≡ true
      → (i : ℕ) × (v : TupleVal) × (get_elem? entries i ≡ some (b, v)) × (v.trace_id ≡ id)
  unfolding victims listed
  victims-listed id [] b p = absurd (cc p)
  victims-listed id ((k, v) ∷ rest) b p = elim (victims-cons id k b v rest p) [
    | inl (here, same) ↦ (0, v, ap (λ (c : List ℕ). some (c, v)) here, same)
    | inr later ↦
        let (i, w, found, same) = victims-listed id rest b later in (suc i, w, found, same)
  ]

  listed-victims :
      (id : ℕ) (entries : List (List ℕ × TupleVal)) (b : List ℕ) (i : ℕ) (v : TupleVal)
      → get_elem? entries i ≡ some (b, v)
      → v.trace_id ≡ id
      → listed b (victims m endian id entries) ≡ true
  unfolding victims listed
  listed-victims id [] b i v p q = absurd (cc p)
  listed-victims id ((k, w) ∷ rest) b zero v p q = ground (arith, p, q)
  listed-victims id ((k, w) ∷ rest) b (suc i) v p q =
      ground (arith, listed-victims id rest b i v p q)

  -- The scan finds exactly the tuples whose value has the id.
  scan-owned :
      (id : ℕ) (entries : List (List ℕ × TupleVal)) (b : List ℕ) (s : S)
      → m.iterate s ≡ ok entries
      → (if listed b (victims m endian id entries) then none else m.tuple_of s b)
        ≡ unless_owned id (m.tuple_of s b)
  unfolding unless_owned
  scan-owned id entries b s p = elim (Bool-cases (listed b (victims m endian id entries))) [
    | inl q ↦
        let (i, v, found, same) = victims-listed id entries b q in
        rw (q, laws.iterate_sound s entries i b v p found, (==_iff v.trace_id id).1 same) refl
    | inr q ↦ elim (Option-cases (m.tuple_of s b)) [
      | inl e ↦ rw (q, e) refl
      | inr (v, e) ↦ elim (Bool-cases (v.trace_id == id)) [
        | inl f ↦
            let (i, found) = laws.iterate_complete s entries b v p e in
            absurd (cc (listed-victims id entries b i v found ((==_iff v.trace_id id).0 f), q))
        | inr f ↦ rw (q, e, f) refl
      ]
    ]
  ]

  delete_tuples_owned_by_lem :
      (id : ℕ) (b : List ℕ) (s : S)
      → (delete_tuples_owned_by m endian id s).1 ≡ none
      → m.tuple_of (delete_tuples_owned_by m endian id s).0 b ≡ unless_owned id (m.tuple_of s b)
  unfolding delete_tuples_owned_by
  delete_tuples_owned_by_lem id b s p = elim (Result-cases (m.iterate s)) [
    | inl (entries, q) ↦
        rw (q, delete_tuples_owned_by)
          (delete_each-removes (victims m endian id entries) b s
              (rw (q, delete_tuples_owned_by) at p)
            ∙ scan-owned id entries b s q)
    | inr (e, q) ↦ absurd (cc (rw (q, delete_tuples_owned_by) at p))
  ]

  delete_config-tuples :
      (id : ℕ) (b : List ℕ) (s : S)
      → m.tuple_of (reported_unless_missing m endian delete_config s (m.delete_config id s)).0 b
        ≡ m.tuple_of s b
  unfolding reported_unless_missing
  delete_config-tuples id b s = elim (Result-cases (m.delete_config id s)) [
    | inl (s', q) ↦ rw q (laws.delete_config-tuples s s' id b q)
    | inr (key_not_exist, q) ↦ rw q refl
    | inr (key_exist, q) ↦ rw q refl
    | inr (other_error, q) ↦ rw q refl
  ]

  -- The count that the data plane reads is that of the sessions.
  pub refresh_active_count_lem :
      (st : Store S) (b : List ℕ)
      → (refresh_active_count m endian st).1 ≡ none
      → (m.tuple_of (refresh_active_count m endian st).0.kernel b ≡ m.tuple_of st.kernel b)
        × (m.active_of (refresh_active_count m endian st).0.kernel ≡ length st.sessions % 2 ^ 32)
        × ((refresh_active_count m endian st).0.sessions ≡ st.sessions)
  unfolding refresh_active_count reported
  refresh_active_count_lem st b p =
      elim (Result-cases (m.update_active (length st.sessions % 2 ^ 32) st.kernel)) [
        | inl (s', q) ↦ rw q (
          laws.active-tuples st.kernel s' (length st.sessions % 2 ^ 32) b q,
          laws.active-active st.kernel s' (length st.sessions % 2 ^ 32) q,
          refl,
        )
        | inr (e, q) ↦ absurd (cc (rw q at p))
      ]

  pub refresh-tuples :
      (st : Store S) (b : List ℕ)
      → m.tuple_of (refresh_active_count m endian st).0.kernel b ≡ m.tuple_of st.kernel b
  unfolding refresh_active_count reported
  refresh-tuples st b =
      let n = length st.sessions % 2 ^ 32 in
      elim (Result-cases (m.update_active n st.kernel)) [
        | inl (s', q) ↦ rw q (laws.active-tuples st.kernel s' n b q)
        | inr (e, q) ↦ rw q refl
      ]

  -- The store forgets the session; the tuple map loses its tuples and keeps the others; and the
  -- count is that of the sessions that are left.
  Torn : ℕ → Store S → Store S → List ℕ → Type 0
  Torn id st st' b =
      (m.tuple_of st'.kernel b ≡ unless_owned id (m.tuple_of st.kernel b))
      × (m.active_of st'.kernel ≡ length st.sessions % 2 ^ 32)
      × (st'.sessions ≡ st.sessions)

  tear_down-Torn :
      (id : ℕ) (st : Store S) (b : List ℕ)
      → (tear_down m endian id st).1 ≡ none
      → Torn id st (tear_down m endian id st).0 b
  unfolding tear_down Torn
  tear_down-Torn id st b p =
      let r1 = with_kernel st (delete_tuples_owned_by m endian id st.kernel) in
      let config = λ (t : Store S).
        with_kernel t
          (reported_unless_missing m endian delete_config t.kernel (m.delete_config id t.kernel)) in
      let (p2, e2) = and_then-none (r1 and_then config) (refresh_active_count m endian) p in
      let (p1, e1) = and_then-none r1 config p2 in
      let t2 = config r1.0 in
      let e = e2 ∙ ap (λ (t : Store S × Option StoreError). refresh_active_count m endian t.0) e1 in
      let (tuples, active, sessions) =
        refresh_active_count_lem t2.0 b
          (subst (λ (t : Store S × Option StoreError). t.1 ≡ none) e p) in
      (
        ap (λ (t : Store S × Option StoreError). m.tuple_of t.0.kernel b) e
            ∙ tuples
            ∙ delete_config-tuples id b r1.0.kernel
            ∙ delete_tuples_owned_by_lem id b st.kernel p1,
        ap (λ (t : Store S × Option StoreError). m.active_of t.0.kernel) e ∙ active,
        ap (λ (t : Store S × Option StoreError). t.0.sessions) e ∙ sessions,
      )

  -- A deletion of a known session that ends without an error removes from the tuple map the tuples
  -- that carry its id, learned ones too, and no other; it forgets the session, and writes the number
  -- of the sessions that are left, modulo 2 ^ 32.
  pub delete-clears :
      (id : ℕ) (st : Store S) (session : SessionState) (b : List ℕ)
      → lookup ℕ_discrete id st.sessions ≡ some session
      → (delete m endian id st).1 ≡ none
      → (m.tuple_of (delete m endian id st).0.kernel b ≡ unless_owned id (m.tuple_of st.kernel b))
        × (m.active_of (delete m endian id st).0.kernel
            ≡ length (erase ℕ_discrete id st.sessions) % 2 ^ 32)
        × ((delete m endian id st).0.sessions ≡ erase ℕ_discrete id st.sessions)
  unfolding delete Torn
  delete-clears id st session b known p =
      rw (known, delete)
        (tear_down-Torn id (record st { sessions = erase ℕ_discrete id st.sessions }) b
          (rw (known, delete) at p))
