-- ===== src/Policy.antt =====
-- The policy layer of the daemon: daemon/internal/daemon/dataplane/policy/rule.go. A nil slice and
-- an empty one are the same list; an expansion never builds the empty one that is not nil.
pub mod Protocol
pub mod Capacity
pub mod Resources
pub mod Expand
pub mod Contract
pub mod Fits
pub mod Epoch
pub mod Invalidator
pub mod Membership
pub mod Rotator
pub mod Stores
mod InMemory
use juneau.Prelude.{ℕ, ◌^◌, ◌%◌, Bool, List, [], ◌∷◌, ℕ_discrete}

pub data Direction : Type 0 where
  ingress egress : Direction

pub data PeerKind : Type 0 where
  cidr security_group : PeerKind

pub data Verdict : Type 0 where
  deny allow : Verdict

abbrev pub port_any_lo : ℕ
port_any_lo = 0

abbrev pub port_any_hi : ℕ
port_any_hi = 0xffff

-- One rule is one slot of the BPF array.
pub record Rule : Type 0 where
  pub direction : Direction
  pub proto : ℕ
  pub port_lo : ℕ
  pub port_hi : ℕ
  pub peer_kind : PeerKind
  pub peer_v4 : ℕ
  pub peer_prefixlen : ℕ
  pub verdict : Verdict
  pub priority : ℕ

pub record RuleSet : Type 0 where
  pub group_id : ℕ
  pub ingress : List Rule
  pub egress : List Rule
  pub has_ingress_rules : Bool
  pub has_egress_rules : Bool
  pub ruleset_version : ℕ

-- `reflect.DeepEqual` on rule sets.
pub rule_set_discrete : Discrete RuleSet
rule_set_discrete = hlevel ℕ_discrete

pub record RuleWindow : Type 0 where
  pub direction : Direction
  pub base : ℕ
  pub rules : List Rule

-- Ingress owns the slots below `per_direction`, egress the slots from there on.
unfoldable pub windows : RuleSet → ℕ → List RuleWindow
windows rs per_direction =
    record { direction = Direction.ingress; base = 0; rules = rs.ingress }
    ∷ record { direction = Direction.egress; base = per_direction % 2 ^ 32; rules = rs.egress }
    ∷ []
