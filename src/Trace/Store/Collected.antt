-- ===== src/Trace/Store/Collected.antt =====
-- The sweep of expired sessions: daemon/internal/daemon/dataplane/trace/store.go.
use juneau.Prelude.{
  ℕ, zero, suc, ◌≡◌, sym, subst, ◌∙◌, inl, inr, arith, true, Bool-cases, Option, none, some,
  Option-cases, [], ◌∷◌, get_elem?, if◌then◌else◌, ℕ_discrete,
}
use juneau.Prelude.Dict.{Dict, lookup, erase, lookup-erase}
use juneau.Prelude.Once.{get-lookup}
use juneau.Prelude.Int.{ℤ}
use juneau.Trace.Codec.{Endian}
use juneau.Trace.Maps.{Maps}
use juneau.Trace.Store.{Store, SessionState, StoreError, delete}
use juneau.Trace.Store.Learn.{has_expired, sweep, gc}
use juneau.Trace.Store.Learned.{delete-forgets, tear_down-sessions}
use juneau.Trace.Store.Steps.{and_then-none, and_then-keeps}

module _ {S : Type 0} (m : Maps S) (endian : Endian) where
  Unknown : ℕ → Store S → Type 0
  Unknown id st = lookup ℕ_discrete id st.sessions ≡ none

  delete-Unknown : (j id : ℕ) (st : Store S) → Unknown id st → Unknown id (delete m endian j st).0
  unfolding delete Unknown
  delete-Unknown j id st p = elim (Option-cases (lookup ℕ_discrete j st.sessions)) [
    | inl q ↦ rw (delete, q) p
    | inr (session, q) ↦
        rw
          (
            delete,
            q,
            tear_down-sessions m endian j (record st { sessions = erase ℕ_discrete j st.sessions }),
          )
          (lookup-erase ℕ_discrete id j st.sessions ∙ ground (arith, p))
  ]

  -- One round of the loop.
  collect_one : ℤ → ℕ → SessionState → Store S → Store S × Option StoreError
  collect_one now id session st =
      if has_expired m endian now session then delete m endian id st else (st, none)

  collect_one-Unknown :
      (now : ℤ) (j id : ℕ) (session : SessionState) (st : Store S)
      → Unknown id st
      → Unknown id (collect_one now j session st).0
  unfolding collect_one
  collect_one-Unknown now j id session st p = elim (Bool-cases (has_expired m endian now session)) [
    | inl e ↦ rw (collect_one, e) (delete-Unknown j id st p)
    | inr e ↦ rw (collect_one, e) p
  ]

  sweep-Unknown :
      (now : ℤ) (left : Dict ℕ SessionState) (id : ℕ) (st : Store S)
      → Unknown id st
      → Unknown id (sweep m endian now left st).0
  unfolding sweep collect_one
  sweep-Unknown now [] id st p = p
  sweep-Unknown now ((j, session) ∷ left) id st p =
      and_then-keeps (Unknown id) (collect_one now j session st) (λ t. sweep m endian now left t)
        (collect_one-Unknown now j id session st p) (λ t q. sweep-Unknown now left id t q)

  -- A round that does not end the loop.
  round :
      (now : ℤ) (left : Dict ℕ SessionState) (j : ℕ) (s : SessionState) (st : Store S)
      → (sweep m endian now ((j, s) ∷ left) st).1 ≡ none
      → ((sweep m endian now left (collect_one now j s st).0).1 ≡ none)
        × (sweep m endian now ((j, s) ∷ left) st
            ≡ sweep m endian now left (collect_one now j s st).0)
  unfolding sweep collect_one
  round now left j s st q =
      let (q1, same) = and_then-none (collect_one now j s st) (λ t. sweep m endian now left t) q in
      (subst (λ (r : Store S × Option StoreError). r.1 ≡ none) same q, same)

  collect_one-collects :
      (now : ℤ) (j : ℕ) (s : SessionState) (st : Store S)
      → has_expired m endian now s ≡ true
      → Unknown j (collect_one now j s st).0
  unfolding collect_one Unknown
  collect_one-collects now j s st e = rw (collect_one, e) (delete-forgets m endian j st)

  entry-same :
      (j id : ℕ) (s session : SessionState)
      → ◌≡◌ {A = Option (ℕ × SessionState)} (some (j, s)) (some (id, session))
      → (j ≡ id) × (s ≡ session)
  entry-same j id s session p = (cc p, cc p)

  sweep-collects :
      (now : ℤ) (left : Dict ℕ SessionState) (i id : ℕ) (session : SessionState) (st : Store S)
      → get_elem? left i ≡ some (id, session)
      → has_expired m endian now session ≡ true
      → (sweep m endian now left st).1 ≡ none
      → Unknown id (sweep m endian now left st).0
  sweep-collects now [] i id session st p e q = absurd (cc p)
  sweep-collects now ((j, s) ∷ left) zero id session st p e q =
      let (same_id, same_session) = entry-same j id s session p in
      let (later, same) = round now left j s st q in
      let expired =
        subst (λ (x : SessionState). has_expired m endian now x ≡ true) (sym same_session) e in
      let gone =
        subst (λ (x : ℕ). Unknown x (collect_one now j s st).0) same_id
          (collect_one-collects now j s st expired) in
      subst (λ (r : Store S × Option StoreError). Unknown id r.0) (sym same)
        (sweep-Unknown now left id (collect_one now j s st).0 gone)
  sweep-collects now ((j, s) ∷ left) (suc i) id session st p e q =
      let (later, same) = round now left j s st q in
      subst (λ (r : Store S × Option StoreError). Unknown id r.0) (sym same)
        (sweep-collects now left i id session (collect_one now j s st).0 p e later)

  -- A collection that ends without an error forgets every session that has expired by the time at
  -- which it runs.
  pub gc-collects :
      (now : ℤ) (st : Store S) (id : ℕ) (session : SessionState)
      → lookup ℕ_discrete id st.sessions ≡ some session
      → has_expired m endian now session ≡ true
      → (gc m endian now st).1 ≡ none
      → lookup ℕ_discrete id (gc m endian now st).0.sessions ≡ none
  unfolding gc Unknown
  gc-collects now st id session p e q =
      let (i, found) = get-lookup ℕ_discrete st.sessions id session p in
      sweep-collects now st.sessions i id session st found e q
