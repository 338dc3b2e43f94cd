-- ===== src/Policy/Resources.antt =====
-- The rules of a SecurityGroup and of a NetworkACL as users write them:
-- controller/api/v1alpha1/securitygroup_types.go and networkacl_types.go. Names and descriptions are
-- left out.
use Prim.Native.String.{String}
use juneau.Prelude.{ℕ, Option, List}
use juneau.Prelude.Int.{ℤ}
use juneau.Policy.Protocol.{IntOrString}

-- The types `SecurityGroupPort` and `NetworkACLPort`, with `int32` numbers.
pub record PolicyPort : Type 0 where
  pub port : Option ℤ
  pub port_range : Option (ℤ × ℤ)

pub record SecurityGroupPeer : Type 0 where
  pub cidr : String
  pub security_group_ref : Option String

-- A rule of either direction: `From` or `To`, protocol and ports.
pub record SecurityGroupRule : Type 0 where
  pub peers : List SecurityGroupPeer
  pub protocol : Option IntOrString
  pub ports : List PolicyPort

pub record SecurityGroup : Type 0 where
  pub group_id : ℕ
  pub ruleset_version : ℕ
  pub ingress : List SecurityGroupRule
  pub egress : Option (List SecurityGroupRule)

pub data Action : Type 0 where
  action_allow action_deny : Action

pub record NetworkAclRule : Type 0 where
  pub priority : ℤ
  pub action : Action
  pub cidr : String
  pub protocol : Option IntOrString
  pub ports : List PolicyPort

pub record NetworkAcl : Type 0 where
  pub acl_id : ℕ
  pub ruleset_version : ℕ
  pub ingress : Option (List NetworkAclRule)
  pub egress : Option (List NetworkAclRule)
