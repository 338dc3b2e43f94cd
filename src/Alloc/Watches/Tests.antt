-- ===== src/Alloc/Watches/Tests.antt =====
-- Events at which the theorems on wake-ups apply.
use Prim.Native.String.{String}
use juneau.Prelude.{
  zero, suc, ◌≡◌, ◌≢◌, ◌↔◌, refl, ap, ◌∙◌, subst, true, false, Option, none, some, [], ◌∷◌,
}
use juneau.Prelude.Int.{pos}
use juneau.Alloc.{AllocationClaim, AllocationLease, ClaimPhase, RetainReference}
use juneau.Alloc.Pools.Rivals.{References}
use juneau.Alloc.Watches.{
  delete_event, retain_reference_key, retain_index, named_pools, woken_by_lease,
  map_retained_object_to_leases,
}
use juneau.Alloc.Watches.Keys.{SlashFree, has_slash}
use juneau.Alloc.Watches.Woken.{In, woken_by_lease_iff, retained_iff}
use juneau.Alloc.Watches.Cache.{cached, cached-Indexed}

abbrev machine : RetainReference
machine = record { api_version = "kubevirt.io/v1"; kind = "VM"; namespace = "a"; name = "vm" }

-- A claim that waits for a number of the pool "vni".
abbrev waiting : AllocationClaim
waiting = record {
  name = "b";
  uid = "u";
  generation = 1;
  deleting = false;
  finalizer = true;
  pool_refs = "vni" ∷ [];
  requested_number = none;
  requested_ip = none;
  filter = [];
  release_after = none;
  reuse_key = "";
  retain_while = none;
  network_interface = none;
  status = record {
    observed_generation = 0;
    phase = ClaimPhase.pending;
    value = record { number = 0; ip = "" };
    ready = none;
  };
}

-- A lease of that pool, which waits for a machine.
abbrev held : AllocationLease
held = record {
  name = "vm";
  uid = "l";
  spec = record {
    pool_ref = "vni";
    value = record { number = 1; ip = "" };
    claim_ref = record { name = "a"; uid = "u" };
    owner_deletion_timestamp = some 100;
    ttl_seconds = some (pos 60);
    retain_while = some machine;
    network_interface = none;
  };
}

woken_by_lease_iff_example :
    In "b" (woken_by_lease (cached (waiting ∷ []) (held ∷ [])) delete_event held) ↔ (
      (delete_event ≡ delete_event)
      × (◌≢◌ {A = String} "vni" "")
      × (c : AllocationClaim) × In c (waiting ∷ [])
      × (c.name ≡ "b")
      × References c "vni")
unfolding cached named_pools
woken_by_lease_iff_example =
    woken_by_lease_iff (cached (waiting ∷ []) (held ∷ [])) (waiting ∷ []) (held ∷ [])
      (cached-Indexed (waiting ∷ []) (held ∷ [])) delete_event held "b" (waiting ∷ []) refl

machine-SlashFree : SlashFree machine
unfolding has_slash
machine-SlashFree = record { kind = refl; namespace = refl; name = refl }

only_machine :
    (l : AllocationLease) (ref : RetainReference)
    → In l (held ∷ [])
    → l.spec.retain_while ≡ some ref
    → SlashFree ref
only_machine l ref (zero, p) q =
    let same : held ≡ l = cc p in
    let waits : ◌≡◌ {A = Option RetainReference} (some machine) (some ref) =
      ap (λ (m : AllocationLease). m.spec.retain_while) same ∙ q in
    let object : machine ≡ ref = cc waits in subst SlashFree object machine-SlashFree
only_machine l ref (suc i, p) q = absurd (cc p)

retained_iff_example : In "vm" (map_retained_object_to_leases (cached [] (held ∷ [])) machine) ↔ (
    (l : AllocationLease) × In l (held ∷ [])
    × (l.name ≡ "vm")
    × (l.spec.retain_while ≡ some machine))
unfolding cached retain_index retain_reference_key
retained_iff_example =
    retained_iff (cached [] (held ∷ [])) [] (held ∷ []) (cached-Indexed [] (held ∷ [])) machine "vm"
      (held ∷ []) machine-SlashFree only_machine refl
