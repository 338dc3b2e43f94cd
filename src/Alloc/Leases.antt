-- ===== src/Alloc/Leases.antt =====
-- `AllocationLeaseReconciler` of controller/internal/controller/allocationlease_controller.go. One
-- pass is split into what it decides (`pass`) and what it then does (`perform`); a status is kept
-- without its generation, reason and message. The answer to the read of the retained object, and
-- the API server, are parameters.
pub mod Grace
use Prim.Native.String.{String}
use juneau.Prelude.{
  ℕ, ◌+◌, ◌-◌, ◌*◌, ◌^◌, Bool, true, false, not, ◌&&◌, Option, none, some, ite, ltb, if◌then◌else◌,
  Result, ok, err, ℕ_discrete,
}
use juneau.Prelude.Int.{ℤ, pos, negsuc}
use juneau.Alloc.{AllocationLease, LeaseSpec, RetainReference, option_discrete, bool_discrete}
use juneau.Alloc.Used.{ApiError, not_found, conflict, other_failure}
use juneau.Alloc.Exec.{Exec, Done, done, fail, asks, ◌>>=◌}

pub data LeasePhase : Type 0 where
  unset active retained released expired : LeasePhase

phase_discrete : Discrete LeasePhase
phase_discrete = hlevel

-- `AllocationLeaseStatus`, with whether the Ready condition is True. Times are in nanoseconds, as a
-- pass makes them; Grace says what becomes of them where the API server stores a status.
pub record LeaseStatus : Type 0 where
  pub phase : LeasePhase
  pub expires_at : Option ℕ
  pub retain_released_at : Option ℕ
  pub ready : Bool

pub lease_status_discrete : Discrete LeaseStatus
unfolding option_discrete bool_discrete phase_discrete
lease_status_discrete = hlevel (phase_discrete, option_discrete ℕ_discrete, bool_discrete)

pub record ObservedLease : Type 0 where
  pub lease : AllocationLease
  pub deleting : Bool
  pub status : LeaseStatus

-- The errors of a read that `retainedObjectExists` tells apart.
pub data ReadError : Type 0 where
  missing no_match not_registered unreadable : ReadError

abbrev pub Answer : Type 0
Answer = Result ReadError (Unit {0})

unfoldable pub retained_object_exists : Answer → Result ReadError Bool
retained_object_exists (ok u) = ok true
retained_object_exists (err missing) = ok false
retained_object_exists (err no_match) = ok false
retained_object_exists (err not_registered) = ok false
retained_object_exists (err unreadable) = err unreadable

abbrev pub second : ℕ
second = 10 ^ 9

-- `allocationLeaseRetainResyncInterval`
abbrev pub resync_interval : ℕ
resync_interval = 300 * 10 ^ 9

unfoldable pub grace : Option ℤ → ℕ
grace (some (pos n)) = n * second
grace _ = 0

is_set : Option RetainReference → Bool
is_set none = false
is_set (some ref) = true

unfoldable pub released_requeue_after : Option RetainReference → ℕ → ℕ → ℕ
unfolding is_set
released_requeue_after retain now expires =
    let until = expires - now + second in
    if is_set retain && ltb resync_interval until then resync_interval else until

-- What a pass decides: nothing; a status and when to look again; a status and an error; or a status
-- and the deletion of the lease.
pub data Pass : Type 0 where
  idle : Pass
  write : LeaseStatus → Option ℕ → Pass
  report : LeaseStatus → Pass
  expire : LeaseStatus → Pass

-- The grace period runs from `start` on.
unfoldable pub count_down : ℕ → LeaseSpec → ℕ → Option ℕ → Pass
unfolding released_requeue_after
count_down now spec start since =
    let expires = start + grace spec.ttl_seconds in
    if not (ltb now expires)
    then expire (record {
      phase = expired;
      expires_at = some expires;
      retain_released_at = since;
      ready = false;
    })
    else write
        (record {
          phase = released;
          expires_at = some expires;
          retain_released_at = since;
          ready = false;
        })
        (some (released_requeue_after spec.retain_while now expires))

unfoldable pub or_now : Option ℕ → ℕ → ℕ
or_now none now = now
or_now (some t) now = t

unfoldable pub pass_retained : ℕ → LeaseSpec → LeaseStatus → Result ReadError Bool → Pass
unfolding count_down or_now
pass_retained now spec status (ok true) =
    write (record { phase = retained; expires_at = none; retain_released_at = none; ready = false })
      (some resync_interval)
pass_retained now spec status (ok false) =
    let since = or_now status.retain_released_at now in count_down now spec since (some since)
pass_retained now spec status (err e) = report (record {
  phase = retained;
  expires_at = status.expires_at;
  retain_released_at = status.retain_released_at;
  ready = false;
})

unfoldable pub pass_released :
    (RetainReference → Answer) → ℕ → LeaseSpec → LeaseStatus → ℕ → Option RetainReference → Pass
unfolding count_down pass_retained retained_object_exists
pass_released read now spec status deleted_at none = count_down now spec deleted_at none
pass_released read now spec status deleted_at (some ref) =
    pass_retained now spec status (retained_object_exists (read ref))

unfoldable pub pass_live :
    (RetainReference → Answer) → ℕ → LeaseSpec → LeaseStatus → Option ℕ → Pass
unfolding pass_released
pass_live read now spec status none =
    write (record { phase = active; expires_at = none; retain_released_at = none; ready = true })
      none
pass_live read now spec status (some deleted_at) =
    pass_released read now spec status deleted_at spec.retain_while

unfoldable pub pass : (RetainReference → Answer) → ℕ → ObservedLease → Pass
unfolding pass_live
pass read now l =
    if l.deleting
    then idle
    else pass_live read now l.lease.spec l.status l.lease.spec.owner_deletion_timestamp

pub record LeaseApi (S : Type 0) : Type 1 where
  pub get : String → S → Result ApiError ObservedLease
  pub read_retained : RetainReference → S → Answer
  pub set_status : ObservedLease → LeaseStatus → Done S
  -- The deletion of the object with this name and uid.
  pub delete : String → String → Done S
  pub retry_on_conflict : (A : Type 0) → Exec S A → Exec S A

module _ {S : Type 0} (api : LeaseApi S) where
  unfoldable pub update_lease_status : String → LeaseStatus → Done S
  update_lease_status name desired = api.retry_on_conflict (Unit {0}) (
      asks (api.get name) >>= λ fresh.
      ite (lease_status_discrete fresh.status desired) (done tt) (api.set_status fresh desired))

  gone_or_changed : Result ApiError (Unit {0}) → Result ApiError (Option ℕ)
  gone_or_changed (ok u) = ok none
  gone_or_changed (err not_found) = ok none
  gone_or_changed (err conflict) = ok none
  gone_or_changed (err e) = err e

  -- The result is when the lease is to be looked at again.
  unfoldable pub perform : ObservedLease → Pass → Exec S (Option ℕ)
  unfolding update_lease_status gone_or_changed
  perform l idle s = (ok none, s)
  perform l (write status requeue) s =
      (update_lease_status l.lease.name status >>= λ _. done requeue) s
  perform l (report status) s = (err other_failure, (update_lease_status l.lease.name status s).1)
  perform l (expire status) s =
      let t = (update_lease_status l.lease.name status s).1 in
      let (r, u) = api.delete l.lease.name l.lease.uid t in (gone_or_changed r, u)

  unfoldable pub quit_or : ℕ → Result ApiError ObservedLease → Exec S (Option ℕ)
  unfolding pass perform
  quit_or now (ok l) = λ s. perform l (pass (λ ref. api.read_retained ref s) now l) s
  quit_or now (err not_found) = done none
  quit_or now (err e) = fail e

  unfoldable pub reconcile : ℕ → String → Exec S (Option ℕ)
  unfolding quit_or
  reconcile now name s = quit_or now (api.get name s) s
