-- ===== src/Policy/Stores.antt =====
-- The stores of the two policy layers: daemon/internal/daemon/dataplane/policy/sgstore.go and
-- aclstore.go.
pub mod Installed
pub mod Loaded
mod Tests
use juneau.Prelude.{
  ℕ, zero, suc, ◌+◌, ◌%◌, ◌^◌, Bool, true, false, Option, none, some, List, [], ◌∷◌, length, ◌==◌,
  if◌then◌else◌, Result, ok, err,
}
use juneau.Policy.{Direction, PeerKind, Verdict, Rule, RuleSet, RuleWindow, windows}
use juneau.Policy.Capacity.{Layer, Error, fit_rule_set}
use juneau.Policy.Epoch.{IoError, Bumper}
use juneau.Policy.Invalidator.{Invalidator, applied, deleted}
use juneau.Policy.Rotator.{Kernel, KernelError, Rotator, RotatorError}
use juneau.Policy.Rotator
use juneau.Policy.Contract.{
  network_acl_max_entries_per_direction, security_group_max_entries_per_direction,
}

-- `bpf.PodEgressSgRule`
pub record SgRule : Type 0 where
  pub direction : Direction
  pub proto : ℕ
  pub port_lo : ℕ
  pub port_hi : ℕ
  pub peer_kind : PeerKind
  pub peer_prefixlen : ℕ
  pub peer_v4 : ℕ
  pub verdict : Verdict

-- `bpf.PodEgressAclRule`
pub record AclRule : Type 0 where
  pub direction : Direction
  pub proto : ℕ
  pub port_lo : ℕ
  pub port_hi : ℕ
  pub prefixlen : ℕ
  pub verdict : Verdict
  pub priority : ℕ
  pub peer_v4 : ℕ

-- `bpf.PodEgressSgMetaVal`
pub record SgMeta : Type 0 where
  pub ingress_count : ℕ
  pub egress_count : ℕ
  pub has_egress_rules : Bool
  pub ruleset_version : ℕ

-- `bpf.PodEgressAclMetaVal`
pub record AclMeta : Type 0 where
  pub ingress_count : ℕ
  pub egress_count : ℕ
  pub has_ingress_rules : Bool
  pub has_egress_rules : Bool
  pub ruleset_version : ℕ

pub sg_rule : Rule → SgRule
sg_rule r = record {
  direction = r.direction;
  proto = r.proto;
  port_lo = r.port_lo;
  port_hi = r.port_hi;
  peer_kind = r.peer_kind;
  peer_prefixlen = r.peer_prefixlen;
  peer_v4 = r.peer_v4;
  verdict = r.verdict;
}

pub acl_rule : Rule → AclRule
acl_rule r = record {
  direction = r.direction;
  proto = r.proto;
  port_lo = r.port_lo;
  port_hi = r.port_hi;
  prefixlen = r.peer_prefixlen;
  verdict = r.verdict;
  priority = r.priority;
  peer_v4 = r.peer_v4;
}

pub sg_meta : RuleSet → SgMeta
sg_meta installed = record {
  ingress_count = length installed.ingress % 2 ^ 32;
  egress_count = length installed.egress % 2 ^ 32;
  has_egress_rules = installed.has_egress_rules;
  ruleset_version = installed.ruleset_version % 2 ^ 32;
}

pub acl_meta : RuleSet → AclMeta
acl_meta installed = record {
  ingress_count = length installed.ingress % 2 ^ 32;
  egress_count = length installed.egress % 2 ^ 32;
  has_ingress_rules = installed.has_ingress_rules;
  has_egress_rules = installed.has_egress_rules;
  ruleset_version = installed.ruleset_version;
}

pub data StoreError : Type 0 where
  zero_group : StoreError
  table_failed : RotatorError → StoreError
  invalidate_failed : IoError → StoreError
  over_capacity : Error → StoreError

pub record Store (S B : Type 0) : Type 0 where
  pub table : Rotator S
  pub invalidation : Invalidator B

module _ {S V M : Type 0} (k : Kernel S V M) (encode : Rule → V) where
  -- The inner loop of `writeRules`: the rules of one window from slot base + i on.
  pub write_window : ℕ → ℕ → ℕ → List Rule → S → S × Option KernelError
  write_window inner base i [] s = (s, none)
  write_window inner base i (r ∷ rules) s = elim (k.put inner ((base + i) % 2 ^ 32) (encode r) s) [
    | err e ↦ (s, some e)
    | ok s' ↦ write_window inner base (suc i) rules s'
  ]

  pub next_window : (S → S × Option KernelError) → S × Option KernelError → S × Option KernelError
  next_window rest (s, some e) = (s, some e)
  next_window rest (s, none) = rest s

  pub write_windows : ℕ → List RuleWindow → S → S × Option KernelError
  unfolding next_window
  write_windows inner [] s = (s, none)
  write_windows inner (w ∷ ws) s =
      next_window (write_windows inner ws) (write_window inner w.base 0 w.rules s)

pub write_meta : {S V M : Type 0} → Kernel S V M → ℕ → M → S → S × Option KernelError
write_meta k id m s = elim (k.set_meta id m s) [ ok s' ↦ (s', none) | err e ↦ (s, some e) ]

close_result : Option RotatorError → Option StoreError
close_result none = none
close_result (some e) = some (table_failed e)

pub capacity_result : Option Error → Option StoreError
capacity_result none = none
capacity_result (some e) = some (over_capacity e)

-- `Apply` and `Delete`, for a layer with its encodings and its limit.
module _ {S V M B : Type 0} (k : Kernel S V M) (b : Bumper B) (layer : Layer) (limit : ℕ)
    (encode : Rule → V) (meta : RuleSet → M) where
  pub write_table : Store S B → RuleSet → Rotator S × Option RotatorError
  write_table st installed =
      Rotator.apply k st.table installed.group_id
        (λ inner. write_windows k encode inner (windows installed limit))
        (write_meta k installed.group_id (meta installed))

  pub invalidate :
      Store S B
      → RuleSet
      → Option Error
      → Rotator S × Option RotatorError
      → Store S B × Option StoreError
  unfolding capacity_result
  invalidate st installed capacity_err (table, some e) =
      (record st { table = table }, some (table_failed e))
  invalidate st installed capacity_err (table, none) =
      elim (applied b st.invalidation installed.group_id installed) [
        | err e ↦ (record st { table = table }, some (invalidate_failed e))
        | ok invalidation ↦
            (record { table = table; invalidation = invalidation }, capacity_result capacity_err)
      ]

  pub apply_layer : Store S B → RuleSet → Store S B × Option StoreError
  unfolding write_table invalidate
  apply_layer st rs =
      if rs.group_id == 0
      then (st, some zero_group)
      else (let (installed, capacity_err) = fit_rule_set layer rs limit in
          invalidate st installed capacity_err (write_table st installed))

  forget : Store S B → ℕ → Rotator S × Option RotatorError → Store S B × Option StoreError
  forget st id (table, some e) = (record st { table = table }, some (table_failed e))
  forget st id (table, none) = elim (deleted b st.invalidation id) [
    | err e ↦ (record st { table = table }, some (invalidate_failed e))
    | ok invalidation ↦ (record { table = table; invalidation = invalidation }, none)
  ]

  pub delete_layer : Store S B → ℕ → Store S B × Option StoreError
  unfolding forget
  delete_layer st id = forget st id (Rotator.delete k st.table id)

-- `CloseAll` of both stores.
pub close_layer : {S V M B : Type 0} → Kernel S V M → Store S B → Store S B × Option StoreError
unfolding close_result
close_layer k st =
    let closed = Rotator.close_all k st.table in
    (record st { table = closed.0 }, close_result closed.1)

module _ {S B : Type 0} (b : Bumper B) where
  -- `SGStore.Apply`
  pub sg_apply : Kernel S SgRule SgMeta → Store S B → RuleSet → Store S B × Option StoreError
  unfolding apply_layer
  sg_apply k =
      apply_layer k b Layer.security_group security_group_max_entries_per_direction sg_rule sg_meta

  -- `ACLStore.Apply`
  pub acl_apply : Kernel S AclRule AclMeta → Store S B → RuleSet → Store S B × Option StoreError
  unfolding apply_layer
  acl_apply k =
      apply_layer k b Layer.network_acl network_acl_max_entries_per_direction acl_rule acl_meta
