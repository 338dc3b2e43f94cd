-- ===== src/Service.antt =====
-- Which VPC may reach a Service, and how its backends are chosen:
-- daemon/internal/daemon/svcpolicy/policy.go and selection.go. What `strings.Split` at commas and
-- `strings.TrimSpace` make of a text is a parameter; a nil Service is the absence of one.
pub mod Reach
mod Tests
use Prim.Native.String.{String}
use text.Mathlib.Text.{◌==◌ as str_eq}
use juneau.Prelude.{
  ℕ, ◌*◌, Bool, true, false, not, ◌&&◌, Option, none, some, List, [], ◌∷◌, length, any, ltb, ◌==◌,
  if◌then◌else◌,
}
use juneau.Prelude.Dict.{Dict, lookup}
use juneau.Prelude.Int.{ℤ, pos, negsuc}
use juneau.Prelude.Text.{string_discrete}

-- The part of a Kubernetes Service that the policy reads: its annotations, whether its internal
-- traffic policy is Local and its session affinity ClientIP, and the affinity's timeout in seconds.
pub record Service : Type 0 where
  pub annotations : Dict String String
  pub internal_local : Bool
  pub client_ip_affinity : Bool
  pub timeout_seconds : Option ℤ

abbrev pub annotation_vpc : String
annotation_vpc = "juneau.loutres.me/vpc"

abbrev pub annotation_shared : String
annotation_shared = "juneau.loutres.me/shared-service"

abbrev pub annotation_allowed_consumer_vpcs : String
annotation_allowed_consumer_vpcs = "juneau.loutres.me/shared-service-allowed-consumer-vpcs"

abbrev pub default_vpc : String
default_vpc = "default"

annotation : Service → String → Option String
annotation svc name = lookup string_discrete name svc.annotations

-- A missing annotation and an empty one name the default VPC.
vpc_or_default : Option String → String
vpc_or_default none = default_vpc
vpc_or_default (some v) = if not (str_eq v "") then v else default_vpc

pub owning_vpc : Option Service → String
unfolding annotation vpc_or_default
owning_vpc none = default_vpc
owning_vpc (some svc) = vpc_or_default (annotation svc annotation_vpc)

is_true : Option String → Bool
is_true none = false
is_true (some value) = str_eq value "true"

pub is_shared : Option Service → Bool
unfolding annotation is_true
is_shared none = false
is_shared (some svc) = is_true (annotation svc annotation_shared)

pub record CallerVpc : Type 0 where
  pub name : String
  pub service_enabled : Bool
  pub consume : Bool

module _ (split : String → List String) (trim_space : String → String) where
  -- The entries of the list, trimmed, without the empty ones.
  entries : List String → List String
  entries [] = []
  entries (p ∷ parts) =
      let rest = entries parts in if str_eq (trim_space p) "" then rest else trim_space p ∷ rest

  listed_vpcs : Option String → List String
  unfolding entries
  listed_vpcs none = []
  listed_vpcs (some raw) = entries (split raw)

  pub allowed_consumer_vpcs : Option Service → List String
  unfolding annotation listed_vpcs
  allowed_consumer_vpcs none = []
  allowed_consumer_vpcs (some svc) = listed_vpcs (annotation svc annotation_allowed_consumer_vpcs)

  pub has_consumer_acl : Option Service → Bool
  has_consumer_acl svc = ltb 0 (length (allowed_consumer_vpcs svc))

  pub is_allowed_consumer : Option Service → String → Bool
  is_allowed_consumer svc caller_vpc =
      let allowed = allowed_consumer_vpcs svc in
      if length allowed == 0 then true else any (λ v. str_eq v caller_vpc) allowed

  pub resolvable_from : Option Service → CallerVpc → Bool
  resolvable_from none caller = false
  resolvable_from (some svc) caller =
      if not caller.service_enabled
      then false
      else (if str_eq (owning_vpc (some svc)) caller.name
          then true
          else (if not caller.consume
              then false
              else (if not (is_shared (some svc))
                  then false
                  else is_allowed_consumer (some svc) caller.name)))

-- `time.Second` in nanoseconds.
abbrev second : ℕ
second = 1_000_000_000

abbrev pub default_client_ip_affinity_timeout : ℕ
default_client_ip_affinity_timeout = 3 * 3600 * second

pub data AffinityMode : Type 0 where
  affinity_none affinity_client_ip : AffinityMode

pub record AffinityPolicy : Type 0 where
  pub mode : AffinityMode
  pub timeout : ℕ

pub record BackendSelectionPolicy : Type 0 where
  pub internal_local : Bool
  pub affinity : AffinityPolicy

pub is_cluster_internal : BackendSelectionPolicy → Bool
is_cluster_internal p = not p.internal_local

-- A timeout that is not positive leaves the default.
timeout_of : Option ℤ → ℕ
timeout_of none = default_client_ip_affinity_timeout
timeout_of (some (pos t)) = if ltb 0 t then t * second else default_client_ip_affinity_timeout
timeout_of (some (negsuc t)) = default_client_ip_affinity_timeout

pub affinity_policy_of : Service → AffinityPolicy
unfolding timeout_of
affinity_policy_of svc =
    if not svc.client_ip_affinity
    then record { mode = affinity_none; timeout = 0 }
    else record { mode = affinity_client_ip; timeout = timeout_of svc.timeout_seconds }

pub selection_policy_of : Option Service → BackendSelectionPolicy
selection_policy_of none = record {
  internal_local = false;
  affinity = record { mode = affinity_none; timeout = 0 };
}
selection_policy_of (some svc) = record {
  internal_local = svc.internal_local;
  affinity = affinity_policy_of svc;
}
