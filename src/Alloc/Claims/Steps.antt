-- ===== src/Alloc/Claims/Steps.antt =====
-- Each run of `allocateClaim` and `updateStatus` keeps values exclusive.
use juneau.Prelude.{
  ◌≡◌, refl, sym, ap, subst, ◌∙◌, ◌⊎◌, inl, inr, Bool, true, not, ◌&&◌, Option, some, ok, err,
  Bool-cases, Result-cases, ite,
}
use juneau.Alloc.{
  AllocationValue, AllocationClaim, ClaimPhase, pending, allocated, ClaimStatus,
  claim_status_discrete, lease_name_for, is_allocated, allocation_claim_ready,
}
use juneau.Alloc.Used.{conflict, Netip}
use juneau.Alloc.Claims.{write_status, update_status_once, update_status}
use juneau.Alloc.Api.{Api, next_status}
use juneau.Alloc.Exec.{done, ◌>>=◌, continue}
use juneau.Alloc.Claims.Exclusive.{Agree, Put, Exclusive-claim_put}
use juneau.Alloc.Claims.Laws.{Served}
use juneau.Alloc.Claims.Ensured.{Unchanged}
use juneau.Alloc.Claims.Keeps.{E, E-unchanged, Allowed, Allowed-Unchanged, retry-keeps}

some_same : {A : Type 0} {x y : A} → ◌≡◌ {A = Option A} (some x) (some y) → x ≡ y
some_same p = cc p

module _ (n : Netip) {S : Type 0} (api : Api S) (sv : Served api) where
  -- The two outcomes of a write of a status.
  write_status-cases :
      (fresh : AllocationClaim) (st : ClaimStatus) (s : S)
      → Unchanged api sv s (write_status api fresh st s).1
        ⊎ (((write_status api fresh st s).0 ≡ ok tt)
            × (sv.claims s fresh.name ≡ some fresh)
            × Put fresh.name
                (some (record fresh { status = st }))
                (sv.claims s)
                (sv.claims (write_status api fresh st s).1)
            × Agree (sv.leases s) (sv.leases (write_status api fresh st s).1))
  unfolding write_status
  write_status-cases fresh st s =
      elim (claim_status_discrete st fresh.status)
        as (λ d.
          Unchanged api sv s (ite d (done {S = S} tt) (api.update_claim_status fresh st) s).1
          ⊎ (((ite d (done {S = S} tt) (api.update_claim_status fresh st) s).0 ≡ ok tt)
              × (sv.claims s fresh.name ≡ some fresh)
              × Put fresh.name (some (record fresh { status = st })) (sv.claims s)
                  (sv.claims (ite d (done {S = S} tt) (api.update_claim_status fresh st) s).1)
              × Agree (sv.leases s)
                  (sv.leases (ite d (done {S = S} tt) (api.update_claim_status fresh st) s).1))) [
                    | Dec.yes e ↦ inl ((λ m. refl), (λ m. refl))
                    | Dec.no e ↦ elim (Result-cases (api.update_claim_status fresh st s).0) [
                      | inl (u, q) ↦
                          let (stored, put, g) = sv.status_updated fresh st s q in
                          inr (q, stored, put, g)
                      | inr (x, q) ↦ inl (sv.status_refused fresh st s x q)
                    ]
                  ]

  -- A status that allows no claim to be given a value, or the one that is allowed, is written.
  AllowedStatus : S → AllocationClaim → ClaimStatus → Type 0
  AllowedStatus s c st = (st.phase ≡ pending) ⊎ Allowed n api sv s c st.value

  status_put-E :
      (c : AllocationClaim) (st : ClaimStatus) (s t : S)
      → E n api sv s
      → AllowedStatus s c st
      → Put c.name (some (record c { status = st })) (sv.claims s) (sv.claims t)
      → Agree (sv.leases s) (sv.leases t)
      → E n api sv t
  unfolding AllowedStatus lease_name_for
  status_put-E c st s t e (inl p) put g =
      Exclusive-claim_put n e c.name (record c { status = st }) put g
        (λ q k l live. absurd (cc (p, live.given))) (λ q b d live. absurd (cc (p, live.given)))
  status_put-E c st s t e (inr h) put g =
      Exclusive-claim_put n e c.name (record c { status = st }) put g
        (λ q k l live x y same. h.own q k l live.one_pool x y same)
        (λ q b d live x ne. h.rivals q b d live.one_pool x ne)

  -- One run of the update of a status.
  update_once-E :
      (c : AllocationClaim) (phase : ClaimPhase) (v : AllocationValue) (ready : Bool) (s : S)
      → E n api sv s
      → ((fresh : AllocationClaim)
          → sv.claims s c.name ≡ some fresh
          → AllowedStatus s fresh (next_status phase v ready fresh))
      → E n api sv (update_status_once api c.name phase v ready s).1
        × ((update_status_once api c.name phase v ready s).0 ≡ err conflict
            → Unchanged api sv s (update_status_once api c.name phase v ready s).1)
  unfolding update_status_once ◌>>=◌ continue
  update_once-E c phase v ready s e h = elim (Result-cases (api.cached_claim c.name s)) [
    | inr (x, q) ↦ rw q (e, (λ y. ((λ m. refl), (λ m. refl))))
    | inl (fresh, q) ↦
        let named = sv.claim_cached c.name s fresh q in
        let st = next_status phase v ready fresh in
        elim (Bool-cases (allocation_claim_ready fresh && not (is_allocated phase))) [
          | inl t ↦ rw (q, t) (e, (λ y. ((λ m. refl), (λ m. refl))))
          | inr f ↦
              rw (q, f)
                (elim (write_status-cases fresh st s) [
                  | inl same ↦ (E-unchanged n api sv s _ e same, (λ y. same))
                  | inr (done_it, here, put, g) ↦ (
                    status_put-E fresh st s _ e (h fresh (ap (sv.claims s) (sym named) ∙ here)) put
                        g,
                    (λ y. absurd (cc (y, done_it))),
                  )
                ])
        ]
  ]

  -- A claim whose new status is allowed; a conflict leaves it so.
  pub update_allocated-E :
      (c : AllocationClaim) (v : AllocationValue) (s : S)
      → E n api sv s
      → Allowed n api sv s c v
      → E n api sv (update_status api c.name allocated v true s).1
  unfolding update_status AllowedStatus next_status is_allocated
  update_allocated-E c v s e h =
      retry-keeps n api sv (λ t. E n api sv t × Allowed n api sv t c v) (E n api sv)
        (update_status_once api c.name allocated v true)
        (λ t (et, ht). (update_once-E c allocated v true t et (allowed t ht)).0)
        (λ t (et, ht) q.
          let (e', same) = update_once-E c allocated v true t et (allowed t ht) in
          (e', Allowed-Unchanged n api sv t _ c v (same q) ht))
        s _ (e, h) (sv.retried (Unit {0}) (update_status_once api c.name allocated v true) s)
    where
      allowed :
          (t : S)
          → Allowed n api sv t c v
          → (fresh : AllocationClaim) → sv.claims t c.name ≡ some fresh
          → AllowedStatus t fresh (next_status allocated v true fresh)
      allowed t ht fresh q = inr (
          subst (λ (x : AllocationClaim). Allowed n api sv t x v) (some_same (sym ht.stored ∙ q))
            ht)

  pub update_pending-E :
      (c : AllocationClaim) (v : AllocationValue) (ready : Bool) (s : S)
      → E n api sv s
      → E n api sv (update_status api c.name pending v ready s).1
  unfolding update_status AllowedStatus next_status
  update_pending-E c v ready s e =
      retry-keeps n api sv (E n api sv) (E n api sv) (update_status_once api c.name pending v ready)
        (λ t et. (update_once-E c pending v ready t et (λ fresh q. inl refl)).0)
        (λ t et q. (update_once-E c pending v ready t et (λ fresh q. inl refl)).0) s _ e
        (sv.retried (Unit {0}) (update_status_once api c.name pending v ready) s)
