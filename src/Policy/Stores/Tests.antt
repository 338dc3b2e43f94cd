-- ===== src/Policy/Stores/Tests.antt =====
-- Inputs at which the theorems on the stores and on the capacity of a window apply.
use juneau.Prelude.{ℕ, ◌≡◌, refl, true, false, Option, none, [], ◌∷◌, ℕ_discrete, arith}
use juneau.Prelude.Dict.{lookup, insert}
use juneau.Policy.{Direction, PeerKind, Verdict, Rule, RuleSet, windows}
use juneau.Policy.Capacity.{Layer, fit_rule_set, join}
use juneau.Policy.Rotator.{Kernel, KernelLaws, Rotator, zero_id, create_failed, KernelError}
use juneau.Policy.Invalidator.{applied}
use juneau.Policy.Rotator
use juneau.Policy.Rotator.Swap.{rule_at, Unchanged}
use juneau.Policy.Stores.{
  Store, StoreError, SgRule, SgMeta, sg_rule, sg_meta, apply_layer, write_windows, write_window,
}
use juneau.Policy.Stores.Loaded.{Loaded, apply_layer-Loaded, apply_layer_other, apply_layer_failed}
use juneau.Policy.InMemory.{
  Memory, memory_kernel, memory_kernel-KernelLaws, memory_bumper, full_kernel,
  full_kernel-KernelLaws,
}

abbrev allow_tcp : Direction → ℕ → Rule
allow_tcp direction port = record {
  direction = direction;
  proto = 6;
  port_lo = port;
  port_hi = port;
  peer_kind = PeerKind.cidr;
  peer_v4 = 10;
  peer_prefixlen = 8;
  verdict = Verdict.allow;
  priority = 0;
}

-- Two ingress rules and one egress rule.
abbrev rules : RuleSet
rules = record {
  group_id = 7;
  ingress = allow_tcp Direction.ingress 80 ∷ allow_tcp Direction.ingress 443 ∷ [];
  egress = allow_tcp Direction.egress 53 ∷ [];
  has_ingress_rules = false;
  has_egress_rules = true;
  ruleset_version = 1;
}

abbrev empty_store : Store (Memory SgRule SgMeta) ℕ
empty_store = record {
  table = record {
    kernel = record { inners = []; slots = λ h i. none; metas = λ id. none };
    snapshots = [];
  };
  invalidation = record { bumper = 3; installed = [] };
}

abbrev run :
    Kernel (Memory SgRule SgMeta) SgRule SgMeta
    → ℕ
    → Store (Memory SgRule SgMeta) ℕ × Option StoreError
run k limit =
    apply_layer k memory_bumper Layer.security_group limit sg_rule sg_meta empty_store rules

apply_layer-Loaded_example :
    Loaded memory_kernel sg_rule (run memory_kernel 2).0.table.kernel 7 0 rules.ingress
    × Loaded memory_kernel sg_rule (run memory_kernel 2).0.table.kernel 7 2 rules.egress
unfolding apply_layer Rotator.apply fit_rule_set write_windows windows write_window applied lookup
    insert sg_meta sg_rule ℕ_discrete join
apply_layer-Loaded_example =
    apply_layer-Loaded memory_kernel memory_kernel-KernelLaws memory_bumper Layer.security_group 2
      sg_rule sg_meta empty_store (run memory_kernel 2).0 rules none (omega arith) refl

apply_layer_other_example :
    rule_at memory_kernel (run memory_kernel 2).0.table.kernel 8 0
    ≡ rule_at memory_kernel empty_store.table.kernel 8 0
unfolding apply_layer Rotator.apply fit_rule_set write_windows windows write_window applied lookup
    insert sg_meta sg_rule ℕ_discrete join
apply_layer_other_example =
    apply_layer_other memory_kernel memory_kernel-KernelLaws memory_bumper Layer.security_group 2
      sg_rule sg_meta empty_store (run memory_kernel 2).0 rules none 8 0 (λ p. absurd (omega arith))
      refl

apply_layer_failed_example :
    Unchanged full_kernel full_kernel-KernelLaws empty_store.table (run full_kernel 2).0.table
unfolding apply_layer Rotator.apply fit_rule_set
apply_layer_failed_example =
    apply_layer_failed full_kernel full_kernel-KernelLaws memory_bumper Layer.security_group 2
      sg_rule sg_meta empty_store (run full_kernel 2).0 rules create_failed refl
