-- ===== src/Alloc/Tests.antt =====
-- Inputs at which the theorems on the allocation apply.
use Prim.Native.String.{String}
use juneau.Prelude.{
  ℕ, List, ◌+◌, ◌-◌, ◌%◌, ◌^◌, ◌<◌, ◌≡◌, refl, true, false, Option, Result, none, some, [], ◌∷◌,
  arith, ok, err, ℕ_discrete, ite,
}
use juneau.Prelude.Int.{pos}
use juneau.Prelude.Dict.{lookup, insert}
use juneau.Prelude.Text.{string_discrete}
use juneau.Range.{Addr}
use juneau.Alloc.{
  AllocationClaim, AllocationLease, AllocationPool, NumberSpec, ClaimPhase, number_pool,
  lease_name_for, claim_references_pool, is_allocated, RetainReference,
}
use juneau.Alloc.Pools.{allocate, number_in, number_scan}
use juneau.Alloc.Used.{
  Netip, Reader, not_found, collect_used, ApiError, number_key, leases_used, claims_used,
}
use juneau.Alloc.Pools.Given.{allocate-Given}
use juneau.Alloc.Pools.Granted.{Given}
use juneau.Alloc.Pools.Lowest.{Answered, number_in-Placed}
use juneau.Alloc.Claims.{reconcile}
use juneau.Alloc.Claims.Exclusive.{Exclusive}
use juneau.Alloc.Claims.Exclusion.{reconcile-Exclusive}
use juneau.Alloc.Claims.Memory.{memory_served, starting-Exclusive}
use juneau.Alloc.Claims.Memory.Server.{Cluster, memory}
use juneau.Alloc.Leases
use juneau.Alloc.Leases.{
  LeasePhase, LeaseStatus, ObservedLease, missing, pass, grace, count_down, second, LeaseApi,
  update_lease_status,
}
use juneau.Alloc.Leases.Grace.{
  Since, Look, Stamps, watched, read_back, expire-Since, requeued_expires,
}

-- No text is an address.
abbrev no_addresses : Netip
no_addresses = record { parse_prefix = λ t. none; parse_addr = λ t. none; text = λ a. "" }

no_address_reparsed : (a b : Addr) → no_addresses.parse_addr (no_addresses.text a) ≡ some b → a ≡ b
no_address_reparsed a b p = absurd (cc p)

abbrev claim : String → ClaimPhase → ℕ → AllocationClaim
claim name phase number = record {
  name = name;
  uid = "u";
  generation = 1;
  deleting = false;
  finalizer = true;
  pool_refs = "vni" ∷ [];
  requested_number = none;
  requested_ip = none;
  filter = [];
  release_after = none;
  reuse_key = "";
  retain_while = none;
  network_interface = none;
  status = record {
    observed_generation = 0;
    phase = phase;
    value = record { number = number; ip = "" };
    ready = none;
  };
}

abbrev pool : AllocationPool
pool = record {
  name = "vni";
  type = number_pool;
  number = some (record { min = 1; max = 9 });
  ip = none;
  allocation_version = 0;
  last_allocated_number = 0;
  last_allocated_ip = "";
}

-- One claim has the number 1.
abbrev reader : Reader
reader = record {
  lease = λ k. err not_found;
  pool = λ k. ite (string_discrete k "vni") (ok pool) (err not_found);
  claims = ok (claim "a" ClaimPhase.allocated 1 ∷ []);
  leases = ok [];
}

allocate-Given_example :
    Given no_addresses reader
      (claim "b" ClaimPhase.unset 0)
      (record { pool_name = "vni"; value = record { number = 2; ip = "" } })
      pool
unfolding allocate lease_name_for number_scan string_discrete lookup insert claim_references_pool
    collect_used leases_used claims_used is_allocated number_key ℕ_discrete
allocate-Given_example =
    allocate-Given no_addresses no_address_reparsed reader (claim "b" ClaimPhase.unset 0)
      (record { pool_name = "vni"; value = record { number = 2; ip = "" } }) pool refl

-- The number 1 is reserved by a lease of "a", which has been deleted.
abbrev kept_lease : AllocationLease
kept_lease = record {
  name = "vm";
  uid = "l";
  spec = record {
    pool_ref = "vni";
    value = record { number = 1; ip = "" };
    claim_ref = record { name = "a"; uid = "u" };
    owner_deletion_timestamp = some 100;
    ttl_seconds = some (pos 60);
    retain_while = none;
    network_interface = none;
  };
}

abbrev range : NumberSpec
range = record { min = 1; max = 9 }

number_in-Placed_example :
    Answered range ((1, "a") ∷ (3, "c") ∷ []) none (number_in range ((1, "a") ∷ (3, "c") ∷ []) none)
number_in-Placed_example = number_in-Placed range ((1, "a") ∷ (3, "c") ∷ []) none (omega arith)

-- Two claims wait for a number.
abbrev waiting : Cluster
waiting = record {
  claims = claim "a" ClaimPhase.unset 0 ∷ claim "b" ClaimPhase.pending 0 ∷ [];
  leases = [];
  pools = pool ∷ [];
}

-- The first of them has been served.
abbrev one_served : Cluster
one_served = (reconcile memory no_addresses (λ t. pos 0) 5 "b" waiting).1

reconcile-Exclusive_example :
    Exclusive no_addresses
      (memory_served.claims (reconcile memory no_addresses (λ t. pos 0) 6 "a" one_served).1)
      (memory_served.leases (reconcile memory no_addresses (λ t. pos 0) 6 "a" one_served).1)
reconcile-Exclusive_example =
    reconcile-Exclusive no_addresses memory memory_served no_address_reparsed (λ t. pos 0) 6 "a"
      one_served
      (reconcile-Exclusive no_addresses memory memory_served no_address_reparsed (λ t. pos 0) 5 "b"
        waiting (starting-Exclusive no_addresses waiting refl ((λ p. cc p), ((λ p. cc p), tt))))

-- The second of two passes finds the object gone for 60 seconds.
abbrev machine : RetainReference
machine = record {
  api_version = "kubevirt.io/v1";
  kind = "VirtualMachine";
  namespace = "a";
  name = "vm";
}

abbrev retained_lease : ObservedLease
retained_lease = record {
  lease = record kept_lease { spec = record kept_lease.spec { retain_while = some machine } };
  deleting = false;
  status = record {
    phase = LeasePhase.retained;
    expires_at = none;
    retain_released_at = none;
    ready = false;
  };
}

abbrev gone_at : ℕ → Look
gone_at t = record { at = t; answer = err missing }

-- Times are stored in whole seconds.
abbrev whole_seconds : Stamps
whole_seconds = record {
  stored = λ t. t - t % 10 ^ 9;
  not_later = λ t. omega arith;
  within = λ t. omega arith;
  again = λ t. omega arith;
}

expire-Since_example :
    (start : ℕ) × Since (gone_at 60000000003 ∷ gone_at 7 ∷ []) start
    × (start + grace (some (pos 60)) < 60000000003 + second)
unfolding watched read_back count_down grace
expire-Since_example =
    expire-Since retained_lease 100 machine refl refl refl refl whole_seconds (gone_at 7 ∷ [])
      (gone_at 60000000003)
      (record {
        phase = LeasePhase.expired;
        expires_at = some 60000000000;
        retain_released_at = some 0;
        ready = false;
      })
      refl

abbrev released_lease : ObservedLease
released_lease = record {
  lease = kept_lease;
  deleting = false;
  status = record {
    phase = LeasePhase.active;
    expires_at = none;
    retain_released_at = none;
    ready = true;
  };
}

abbrev counting : LeaseStatus
counting = record {
  phase = LeasePhase.released;
  expires_at = some 60000000100;
  retain_released_at = none;
  ready = false;
}

found : Option ObservedLease → Result ApiError ObservedLease
found none = err not_found
found (some l) = ok l

-- One lease, or none after its deletion.
abbrev one_lease : LeaseApi (Option ObservedLease)
one_lease = record {
  get = λ name s. found s;
  read_retained = λ ref s. err missing;
  set_status = λ l st s. (ok tt, some (record l { status = st }));
  delete = λ name uid s. (ok tt, none);
  retry_on_conflict = λ A f. f;
}

requeued_expires_example :
    (after : LeaseStatus) × (after.phase ≡ LeasePhase.expired)
    × ((Leases.reconcile one_lease 70000000000 "l"
          (some (record released_lease { status = counting }))).1
        ≡ (one_lease.delete kept_lease.name kept_lease.uid
            (update_lease_status one_lease kept_lease.name after
              (some (record released_lease { status = counting }))).1).1)
unfolding count_down grace pass found
requeued_expires_example =
    requeued_expires one_lease (λ ref. err missing) 200 60999999900 100 70000000000 "l"
      released_lease counting counting (some (record released_lease { status = counting })) refl
      refl refl refl (omega arith) refl

abbrev both_served : Cluster
both_served = (reconcile memory no_addresses (λ t. pos 0) 6 "a" one_served).1

numbers_of : List AllocationClaim → List ℕ
numbers_of [] = []
numbers_of (c ∷ cs) = c.status.value.number ∷ numbers_of cs

-- The two claims get different numbers; the list has older versions of them behind.
both_served_run : numbers_of both_served.claims ≡ 2 ∷ 1 ∷ 0 ∷ 0 ∷ []
unfolding reconcile memory numbers_of juneau.Alloc.Claims.Memory.Find.visible string_discrete
    juneau.Alloc.Claims.Memory.Find.find juneau.Alloc.allocation_claim_ready juneau.Alloc.Exec.◌>>=◌
    allocate lease_name_for collect_used number_scan lookup leases_used claims_used
    claim_references_pool juneau.Alloc.Api.new_lease juneau.Alloc.claim_status_discrete ℕ_discrete
    juneau.Alloc.Api.next_status is_allocated juneau.Alloc.claim_discrete juneau.Alloc.list_discrete
    juneau.Alloc.Api.counted_pool number_key insert
both_served_run = refl
