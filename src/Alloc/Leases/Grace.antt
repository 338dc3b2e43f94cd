-- ===== src/Alloc/Leases/Grace.antt =====
-- When a lease is given up.
use Prim.Native.String.{String}
use juneau.Prelude.{
  if◌then◌else◌, ap, sym, subst, ◌∙◌, ℕ, ◌+◌, ◌-◌, ◌≤◌, ◌<◌, ◌≡◌, ◌≢◌, inl, inr, refl, Bool, true,
  false, Option, none, some, List, [], ◌∷◌, arith, Result, ok, err, Bool-cases, ltb,
}
use juneau.Alloc.{LeaseSpec, RetainReference}
use juneau.Alloc.Used.{ApiError}
use juneau.Alloc.Leases.{
  LeasePhase, LeaseStatus, Answer, ReadError, missing, no_match, not_registered, unreadable, Pass,
  write, report, expire, count_down, grace, or_now, pass_retained, pass_released,
  retained_object_exists, ObservedLease, pass, pass_live, released_requeue_after, second, LeaseApi,
  update_lease_status, perform, quit_or, reconcile,
}

some_same : {A : Type 0} {x y : A} → ◌≡◌ {A = Option A} (some x) (some y) → x ≡ y
some_same p = cc p

-- The object is known to be gone: it is not there, or the cluster has no objects of its kind.
pub data Gone : Answer → Type 0 where
  not_there : Gone (err missing)
  no_kind : Gone (err no_match)
  no_such_type : Gone (err not_registered)

-- A pass at a time, with the answer that it gets about the object.
pub record Look : Type 0 where
  pub at : ℕ
  pub answer : Answer

-- What a time becomes where a status keeps it: metav1.Time is stored in whole seconds.
pub record Stamps : Type 0 where
  pub stored : ℕ → ℕ
  pub not_later : (t : ℕ) → stored t ≤ t
  pub within : (t : ℕ) → t < stored t + second
  pub again : (t : ℕ) → stored (stored t) ≡ stored t

stamped : (ℕ → ℕ) → Option ℕ → Option ℕ
stamped stored none = none
stamped stored (some t) = some (stored t)

-- In the passes of a history, the latest first, the object was gone at the time `start`, and was not
-- found from then on.
pub data Since : List Look → ℕ → Type 0 where
  begun : {x : Look} {h : List Look} → Gone x.answer → Since (x ∷ h) x.at
  kept :
      {x : Look} {h : List Look} {start : ℕ}
      → x.answer ≢ ok tt
      → Since h start
      → Since (x ∷ h) start

unfoldable pub status_of : Pass → LeaseStatus → LeaseStatus
status_of Pass.idle old = old
status_of (write st requeue) old = st
status_of (report st) old = st
status_of (expire st) old = st

-- The status as the next pass reads it.
unfoldable pub read_back : (ℕ → ℕ) → LeaseStatus → LeaseStatus
unfolding stamped
read_back stored st = record st {
  expires_at = stamped stored st.expires_at;
  retain_released_at = stamped stored st.retain_released_at;
}

-- The status of a lease after a history of passes, each of which wrote its status.
unfoldable pub watched : (ℕ → ℕ) → ObservedLease → List Look → LeaseStatus
unfolding status_of pass read_back
watched stored l [] = l.status
watched stored l (x ∷ h) =
    let before = watched stored l h in
    read_back stored (status_of (pass (λ ref. x.answer) x.at (record l { status = before })) before)

Gone-exists : (a : Answer) → retained_object_exists a ≡ ok false → Gone a
unfolding retained_object_exists
Gone-exists (ok u) p = absurd (cc p)
Gone-exists (err missing) p = not_there
Gone-exists (err no_match) p = no_kind
Gone-exists (err not_registered) p = no_such_type
Gone-exists (err unreadable) p = absurd (cc p)

found-exists : (a : Answer) → a ≡ ok tt → retained_object_exists a ≡ ok true
unfolding retained_object_exists
found-exists a p = rw p

count_down-since :
    (now : ℕ) (spec : LeaseSpec) (start : ℕ) (since : Option ℕ) (st : LeaseStatus)
    → (status_of (count_down now spec start since) st).retain_released_at ≡ since
unfolding count_down status_of
count_down-since now spec start since st =
    elim (Bool-cases (ltb now (start + grace spec.ttl_seconds))) [ inl t ↦ rw t | inr f ↦ rw f ]

count_down-expire :
    (now : ℕ) (spec : LeaseSpec) (start : ℕ) (since : Option ℕ) (st : LeaseStatus)
    → count_down now spec start since ≡ expire st
    → start + grace spec.ttl_seconds ≤ now
unfolding count_down
count_down-expire now spec start since st p =
    elim (Bool-cases (ltb now (start + grace spec.ttl_seconds))) [
      | inl t ↦ absurd (cc (rw t at p))
      | inr f ↦ ground arith
    ]

-- The recorded time is the start of such a period, as it is stored.
Recorded : (ℕ → ℕ) → List Look → Option ℕ → Type 0
Recorded stored h none = Unit {0}
Recorded stored h (some t) = (start : ℕ) × Since h start × (t ≡ stored start)

not_found : {a : Answer} → Gone a → a ≢ ok tt
not_found not_there q = absurd (cc q)
not_found no_kind q = absurd (cc q)
not_found no_such_type q = absurd (cc q)

module _ (stamps : Stamps) (spec : LeaseSpec) (x : Look) (h : List Look) where
  Recorded-kept :
      (r : Option ℕ)
      → x.answer ≢ ok tt
      → Recorded stamps.stored h r
      → Recorded stamps.stored (x ∷ h) (stamped stamps.stored r)
  unfolding Recorded stamped
  Recorded-kept none g old = tt
  Recorded-kept (some t) g (start, since, e) =
      (start, kept g since, ap stamps.stored e ∙ stamps.again start)

  -- Where the object is gone, the count starts now, or where it was started.
  Gone-Recorded :
      (r : Option ℕ)
      → Gone x.answer
      → Recorded stamps.stored h r
      → Recorded stamps.stored (x ∷ h) (some (stamps.stored (or_now r x.at)))
  unfolding Recorded or_now stamped
  Gone-Recorded none g old = (x.at, begun g, refl)
  Gone-Recorded (some t) g old = Recorded-kept (some t) (not_found g) old

  look-Recorded :
      (st : LeaseStatus) (r : Result ReadError Bool)
      → Recorded stamps.stored h st.retain_released_at
      → retained_object_exists x.answer ≡ r
      → Recorded stamps.stored
          (x ∷ h)
          (stamped stamps.stored (status_of (pass_retained x.at spec st r) st).retain_released_at)
  unfolding pass_retained status_of Recorded stamped
  look-Recorded st (ok true) old e = tt
  look-Recorded st (ok false) old e =
      let since = or_now st.retain_released_at x.at in
      subst (λ (o : Option ℕ). Recorded stamps.stored (x ∷ h) (stamped stamps.stored o))
        (sym (count_down-since x.at spec since (some since) st))
        (Gone-Recorded st.retain_released_at (Gone-exists x.answer e) old)
  look-Recorded st (err u) old e =
      Recorded-kept st.retain_released_at (λ q. absurd (cc (e, found-exists x.answer q))) old

  -- A count that has run from the recorded time has run from the start, but for less than a second.
  ran-Since :
      (r : Option ℕ)
      → Gone x.answer
      → Recorded stamps.stored h r
      → or_now r x.at + grace spec.ttl_seconds ≤ x.at
      → (start : ℕ) × Since (x ∷ h) start × (start + grace spec.ttl_seconds < x.at + second)
  unfolding or_now Recorded
  ran-Since none g old le = (x.at, begun g, omega (arith, le))
  ran-Since (some t) g (start, since, e) le =
      (start, kept (not_found g) since, omega (arith, le, e, stamps.within start))

  retained_expire-Since :
      (st : LeaseStatus) (r : Result ReadError Bool) (after : LeaseStatus)
      → Recorded stamps.stored h st.retain_released_at
      → retained_object_exists x.answer ≡ r
      → pass_retained x.at spec st r ≡ expire after
      → (start : ℕ) × Since (x ∷ h) start × (start + grace spec.ttl_seconds < x.at + second)
  unfolding pass_retained
  retained_expire-Since st (ok true) after old e p = absurd (cc p)
  retained_expire-Since st (ok false) after old e p =
      let start = or_now st.retain_released_at x.at in
      ran-Since st.retain_released_at (Gone-exists x.answer e) old
        (count_down-expire x.at spec start (some start) after p)
  retained_expire-Since st (err u) after old e p = absurd (cc p)

-- A pass over a lease whose claim has been deleted.
pass-released :
    (read : RetainReference → Answer) (now deleted_at : ℕ) (l : ObservedLease) (st : LeaseStatus)
    → l.deleting ≡ false
    → l.lease.spec.owner_deletion_timestamp ≡ some deleted_at
    → pass read now (record l { status = st })
      ≡ pass_released read now l.lease.spec st deleted_at l.lease.spec.retain_while
unfolding pass pass_live
pass-released read now deleted_at l st live deleted =
    ap
      (λ (b : Bool).
        if b
        then Pass.idle
        else pass_live read now l.lease.spec st l.lease.spec.owner_deletion_timestamp)
      live
    ∙ ap (pass_live read now l.lease.spec st) deleted

pass-counted :
    (read : RetainReference → Answer) (now deleted_at : ℕ) (l : ObservedLease) (st : LeaseStatus)
    → l.deleting ≡ false
    → l.lease.spec.owner_deletion_timestamp ≡ some deleted_at
    → l.lease.spec.retain_while ≡ none
    → pass read now (record l { status = st }) ≡ count_down now l.lease.spec deleted_at none
unfolding pass_released
pass-counted read now deleted_at l st live deleted waits =
    pass-released read now deleted_at l st live deleted
    ∙ ap (pass_released read now l.lease.spec st deleted_at) waits

module _ (l : ObservedLease) (deleted_at : ℕ) (ref : RetainReference) (live : l.deleting ≡ false)
    (deleted : l.lease.spec.owner_deletion_timestamp ≡ some deleted_at)
    (retaining : l.lease.spec.retain_while ≡ some ref)
    (fresh : l.status.retain_released_at ≡ none) where
  pass-retained :
      (x : Look) (st : LeaseStatus)
      → pass (λ ref. x.answer) x.at (record l { status = st })
        ≡ pass_retained x.at l.lease.spec st (retained_object_exists x.answer)
  unfolding pass_released
  pass-retained x st =
      pass-released (λ ref. x.answer) x.at deleted_at l st live deleted
      ∙ ap (pass_released (λ ref. x.answer) x.at l.lease.spec st deleted_at) retaining

  module _ (stamps : Stamps) where
    watched-Recorded :
        (h : List Look) → Recorded stamps.stored h (watched stamps.stored l h).retain_released_at
    unfolding watched read_back Recorded
    watched-Recorded [] = subst (λ (o : Option ℕ). Recorded stamps.stored [] o) (sym fresh) tt
    watched-Recorded (x ∷ h) =
        let before = watched stamps.stored l h in
        subst
          (λ (q : Pass).
            Recorded stamps.stored (x ∷ h)
              (stamped stamps.stored (status_of q before).retain_released_at))
          (sym (pass-retained x before))
          (look-Recorded stamps l.lease.spec x h before (retained_object_exists x.answer)
            (watched-Recorded h) refl)

    -- A lease that is not being deleted, whose claim has been deleted, which is kept while an object
    -- is there and has at first not seen it gone, expires in a pass only if some pass found the
    -- object gone, no pass since then found it there, and the grace period has run since then but
    -- for less than a second: the time of that pass is stored in whole seconds. Each pass before must
    -- have written its status, and the next one have read it.
    pub expire-Since :
        (h : List Look) (x : Look) (after : LeaseStatus)
        → pass (λ ref. x.answer) x.at (record l { status = watched stamps.stored l h })
          ≡ expire after
        → (start : ℕ) × Since (x ∷ h) start
          × (start + grace l.lease.spec.ttl_seconds < x.at + second)
    expire-Since h x after p =
        let before = watched stamps.stored l h in
        retained_expire-Since stamps l.lease.spec x h before (retained_object_exists x.answer) after
          (watched-Recorded h) refl (sym (pass-retained x before) ∙ p)

count_down-late :
    (now : ℕ) (spec : LeaseSpec) (start : ℕ)
    → start + grace spec.ttl_seconds ≤ now
    → (after : LeaseStatus) × (count_down now spec start none ≡ expire after)
      × (after.phase ≡ LeasePhase.expired)
unfolding count_down
count_down-late now spec start h =
    let f : ltb now (start + grace spec.ttl_seconds) ≡ false = ground arith in
    (
      record {
        phase = LeasePhase.expired;
        expires_at = some (start + grace spec.ttl_seconds);
        retain_released_at = none;
        ready = false;
      },
      rw f,
      refl,
    )

count_down-requeue :
    (now : ℕ) (spec : LeaseSpec) (start q : ℕ) (st : LeaseStatus)
    → spec.retain_while ≡ none
    → count_down now spec start none ≡ write st (some q)
    → start + grace spec.ttl_seconds ≤ now + q
unfolding count_down released_requeue_after
count_down-requeue now spec start q st e p =
    elim (Bool-cases (ltb now (start + grace spec.ttl_seconds))) [
      | inr f ↦ absurd (cc (rw f at p))
      | inl t ↦
          let r : start + grace spec.ttl_seconds - now + second ≡ q = requeue_eq (rw (t, e) at p) in
          omega arith
    ]
  where
    requeue_eq : {a b : LeaseStatus} {x y : ℕ} → write a (some x) ≡ write b (some y) → x ≡ y
    requeue_eq p = cc p

-- The pass at a time that decides to give the lease up deletes it, by its name and uid.
reconcile-expire :
    {S : Type 0} (api : LeaseApi S) (t : ℕ) (name : String) (s : S) (l : ObservedLease)
    (after : LeaseStatus)
    → api.get name s ≡ ok l
    → pass (λ ref. api.read_retained ref s) t l ≡ expire after
    → (reconcile api t name s).1
      ≡ (api.delete l.lease.name l.lease.uid (update_lease_status api l.lease.name after s).1).1
unfolding reconcile quit_or perform
reconcile-expire api t name s l after got p =
    ap (λ (r : Result ApiError ObservedLease). (quit_or api t r s).1) got
    ∙ ap (λ (q : Pass). (perform api l q s).1) p

-- Once the claim of a lease that waits for no object has been deleted, and a pass over the lease has
-- written a status and asked for another pass after `q`: every pass at that time or later that
-- reads the lease with an unchanged spec, not being deleted and under any status, tries to write the
-- status Expired, and then calls the API server's deletion of the lease with its name and uid.
pub requeued_expires :
    {S : Type 0} (api : LeaseApi S) (read : RetainReference → Answer) (now q deleted_at t : ℕ)
    (name : String) (l : ObservedLease) (st seen : LeaseStatus) (s : S)
    → l.deleting ≡ false
    → l.lease.spec.owner_deletion_timestamp ≡ some deleted_at
    → l.lease.spec.retain_while ≡ none
    → pass read now l ≡ write st (some q)
    → now + q ≤ t
    → api.get name s ≡ ok (record l { status = seen })
    → (after : LeaseStatus) × (after.phase ≡ LeasePhase.expired)
      × ((reconcile api t name s).1
          ≡ (api.delete l.lease.name l.lease.uid
              (update_lease_status api l.lease.name after s).1).1)
requeued_expires api read now q deleted_at t name l st seen s live deleted waits p le got =
    let spec = l.lease.spec in
    let counted = sym (pass-counted read now deleted_at l l.status live deleted waits) ∙ p in
    let due = count_down-requeue now spec deleted_at q st waits counted in
    let (after, e, gone) = count_down-late t spec deleted_at (omega (arith, due, le)) in
    (
      after,
      gone,
      reconcile-expire api t name s (record l { status = seen }) after got
          (pass-counted (λ ref. api.read_retained ref s) t deleted_at l seen live deleted waits
            ∙ e),
    )
