-- ===== src/Service/Tests.antt =====
-- Inputs at which the theorems on Services apply.
use Prim.Native.String.{String}
use juneau.Prelude.{◌≡◌, ◌⊎◌, ◌↔◌, true, false, some, List, [], ◌∷◌}
use juneau.Prelude.Int.{pos}
use juneau.Service.{
  Service, CallerVpc, annotation_vpc, annotation_shared, resolvable_from, owning_vpc, is_shared,
  allowed_consumer_vpcs,
}
use juneau.Service.Reach.{OneOf, resolvable_from_iff}

abbrev shared : Service
shared = record {
  annotations = (annotation_vpc, "blue") ∷ (annotation_shared, "true") ∷ [];
  internal_local = false;
  client_ip_affinity = true;
  timeout_seconds = some (pos 0);
}

abbrev green : CallerVpc
green = record { name = "green"; service_enabled = true; consume = true }

-- A list with one entry.
abbrev whole : String → List String
whole text = text ∷ []

resolvable_from_iff_example : (resolvable_from whole (λ t. t) (some shared) green ≡ true) ↔ (
    (true ≡ true)
    × ((owning_vpc (some shared) ≡ "green")
        ⊎ ((true ≡ true)
            × (is_shared (some shared) ≡ true)
            × ((allowed_consumer_vpcs whole (λ t. t) (some shared) ≡ [])
                ⊎ OneOf "green" (allowed_consumer_vpcs whole (λ t. t) (some shared))))))
resolvable_from_iff_example = resolvable_from_iff whole (λ t. t) shared green
