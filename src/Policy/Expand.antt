-- ===== src/Policy/Expand.antt =====
-- The expansion of a SecurityGroup and of a NetworkACL into rules:
-- daemon/internal/daemon/dataplane/policy/expand.go. The texts of errors are left out; what `netip.ParsePrefix` makes of a text is a parameter.
pub mod Budget
pub mod Order
mod Tests
use Prim.Native.String.{String}
use text.Mathlib.Text.{◌==◌ as str_eq}
use juneau.Prelude.{
  ℕ, ◌+◌, ◌-◌, ◌*◌, ◌/◌, ◌%◌, ◌^◌, Bool, true, false, not, ◌||◌, Option, none, some, List, [], ◌∷◌,
  ◌++◌, length, ltb, ◌==◌, if◌then◌else◌, Result, ok, err, ◌>>=◌,
}
use juneau.Prelude.Int.{ℤ, pos, negsuc}
use juneau.Range.{Prefix, is4, masked}
use juneau.Policy.{Direction, PeerKind, Verdict, Rule, RuleSet, port_any_lo, port_any_hi}
use juneau.Policy.Resources.{
  PolicyPort, SecurityGroupPeer, SecurityGroupRule, SecurityGroup, Action, action_allow,
  action_deny, NetworkAclRule, NetworkAcl,
}
use juneau.Policy.Protocol.{IntOrString, ProtocolError, resolve_ip_protocol}

pub record PortRange : Type 0 where
  pub lo : ℕ
  pub hi : ℕ

-- `uint16(p)` of an `int32`
pub to_uint16 : ℤ → ℕ
to_uint16 (pos n) = n % 2 ^ 16
to_uint16 (negsuc n) = 2 ^ 16 - 1 - n % 2 ^ 16

range_of : Option ℤ → Option (ℤ × ℤ) → List PortRange
range_of (some p) r = record { lo = to_uint16 p; hi = to_uint16 p } ∷ []
range_of none (some (from, to)) = record { lo = to_uint16 from; hi = to_uint16 to } ∷ []
range_of none none = []

each_range : List PolicyPort → List PortRange
unfolding range_of
each_range [] = []
each_range (p ∷ ports) = range_of p.port p.port_range ++ each_range ports

-- `portsToRanges` and `networkACLPortsToRanges`
pub ports_to_ranges : List PolicyPort → List PortRange
unfolding each_range
ports_to_ranges [] = record { lo = port_any_lo; hi = port_any_hi } ∷ []
ports_to_ranges (p ∷ ports) = each_range (p ∷ ports)

-- `binary.LittleEndian.Uint32` of the four bytes of an IPv4 address in network order.
pub little_endian : ℕ → ℕ
little_endian v =
    v / 2 ^ 24 % 256 + v / 2 ^ 16 % 256 * 2 ^ 8 + v / 2 ^ 8 % 256 * 2 ^ 16 + v % 256 * 2 ^ 24

pub data ExpandError : Type 0 where
  no_id invalid_cidr not_ipv4 : ExpandError
  bad_protocol : ProtocolError → ExpandError

-- A resolved peer: the kind, the number and the prefix length.
pub record Peer : Type 0 where
  pub kind : PeerKind
  pub v4 : ℕ
  pub prefixlen : ℕ

-- `MapPeerResolver.ResolveSG`: a name with no group or group 0 does not resolve.
pub resolve_sg : List (String × ℕ) → String → Option ℕ
resolve_sg [] name = none
resolve_sg ((n, gid) ∷ m) name =
    if str_eq n name then (if gid == 0 then none else some gid) else resolve_sg m name

cidr_peer : Option Prefix → Option Peer
cidr_peer none = none
cidr_peer (some p) =
    if not (is4 p.addr)
    then none
    else some (record {
      kind = PeerKind.cidr;
      v4 = little_endian (masked p).addr.value;
      prefixlen = p.bits;
    })

group_peer : Option ℕ → Option Peer
group_peer none = none
group_peer (some gid) = some (record { kind = PeerKind.security_group; v4 = gid; prefixlen = 0 })

referred_peer : (String → Option ℕ) → Option String → Option Peer
unfolding group_peer
referred_peer resolver none = none
referred_peer resolver (some name) = group_peer (resolver name)

resolved : {A : Type 0} → Result ProtocolError A → Result ExpandError A
resolved (ok a) = ok a
resolved (err e) = err (bad_protocol e)

rule_at : Direction → ℕ → Verdict → ℕ → Peer → PortRange → Rule
rule_at direction proto verdict priority peer r = record {
  direction = direction;
  proto = proto;
  port_lo = r.lo;
  port_hi = r.hi;
  peer_kind = peer.kind;
  peer_v4 = peer.v4;
  peer_prefixlen = peer.prefixlen;
  verdict = verdict;
  priority = priority;
}

-- The rules of one peer: one for each port range, in order.
each_port : Direction → ℕ → Verdict → ℕ → Peer → List PortRange → List Rule
unfolding rule_at
each_port direction proto verdict priority peer [] = []
each_port direction proto verdict priority peer (r ∷ ranges) =
    rule_at direction proto verdict priority peer r
    ∷ each_port direction proto verdict priority peer ranges

peer_rules : Direction → ℕ → List PortRange → Option Peer → List Rule
unfolding each_port
peer_rules direction proto ranges none = []
peer_rules direction proto ranges (some peer) =
    each_port direction proto Verdict.allow 0 peer ranges

module _ (parse_prefix : String → Option Prefix) where
  pub build_peer : (String → Option ℕ) → SecurityGroupPeer → Option Peer
  unfolding cidr_peer referred_peer
  build_peer resolver peer =
      if not (str_eq peer.cidr "")
      then cidr_peer (parse_prefix peer.cidr)
      else referred_peer resolver peer.security_group_ref

  -- Peers cycle outermost and ports innermost; a peer that does not resolve is left out.
  pub each_peer :
      (String → Option ℕ) → Direction → ℕ → List PortRange → List SecurityGroupPeer → List Rule
  unfolding peer_rules
  each_peer resolver direction proto ranges [] = []
  each_peer resolver direction proto ranges (peer ∷ peers) =
      peer_rules direction proto ranges (build_peer resolver peer)
      ++ each_peer resolver direction proto ranges peers

  pub expand_rule :
      (String → Option ℕ) → Direction → SecurityGroupRule → Result ExpandError (List Rule)
  unfolding resolved
  expand_rule resolver direction rule = do
    proto ← resolved (resolve_ip_protocol rule.protocol)
    ok (each_peer resolver direction proto (ports_to_ranges rule.ports) rule.peers)

  pub expand_rules :
      (String → Option ℕ) → Direction → List SecurityGroupRule → Result ExpandError (List Rule)
  expand_rules resolver direction [] = ok []
  expand_rules resolver direction (rule ∷ rules) = do
    expanded ← expand_rule resolver direction rule
    rest ← expand_rules resolver direction rules
    ok (expanded ++ rest)

abbrev pub declared : {A : Type 0} → Option (List A) → Bool
declared none = false
declared (some rules) = true

abbrev pub listed : {A : Type 0} → Option (List A) → List A
listed none = []
listed (some rules) = rules

networkacl_action_to_verdict : Action → Verdict
networkacl_action_to_verdict action_deny = Verdict.deny
networkacl_action_to_verdict action_allow = Verdict.allow

acl_prefix : Option Prefix → Result ExpandError Peer
acl_prefix none = err invalid_cidr
acl_prefix (some p) =
    if not (is4 p.addr)
    then err not_ipv4
    else ok (record {
      kind = PeerKind.cidr;
      v4 = little_endian (masked p).addr.value;
      prefixlen = p.bits;
    })

-- The stable sort of one direction.
insert_by_priority : Rule → List Rule → List Rule
insert_by_priority r [] = r ∷ []
insert_by_priority r (s ∷ rest) =
    if ltb s.priority r.priority then s ∷ insert_by_priority r rest else r ∷ s ∷ rest

pub sort_by_priority : List Rule → List Rule
unfolding insert_by_priority
sort_by_priority [] = []
sort_by_priority (r ∷ rest) = insert_by_priority r (sort_by_priority rest)

module _ (parse_prefix : String → Option Prefix) where
  pub expand_security_group : (String → Option ℕ) → SecurityGroup → Result ExpandError RuleSet
  expand_security_group resolver sg = if sg.group_id == 0 then err no_id else (do
    ins ← expand_rules parse_prefix resolver Direction.ingress sg.ingress
    outs ← expand_rules parse_prefix resolver Direction.egress (listed sg.egress)
    ok (record {
      group_id = sg.group_id;
      ingress = ins;
      egress = outs;
      has_ingress_rules = false;
      has_egress_rules = declared sg.egress;
      ruleset_version = sg.ruleset_version;
    }))

  pub expand_acl_rule : Direction → NetworkAclRule → Result ExpandError (List Rule)
  unfolding acl_prefix resolved networkacl_action_to_verdict each_port
  expand_acl_rule direction rule = do
    peer ← acl_prefix (parse_prefix rule.cidr)
    proto ← resolved (resolve_ip_protocol rule.protocol)
    ok (
        each_port direction proto (networkacl_action_to_verdict rule.action)
          (to_uint16 rule.priority) peer (ports_to_ranges rule.ports))

  pub expand_acl_rules : Direction → List NetworkAclRule → Result ExpandError (List Rule)
  expand_acl_rules direction [] = ok []
  expand_acl_rules direction (rule ∷ rules) = do
    expanded ← expand_acl_rule direction rule
    rest ← expand_acl_rules direction rules
    ok (expanded ++ rest)

  pub expand_network_acl : NetworkAcl → Result ExpandError RuleSet
  expand_network_acl acl = if acl.acl_id == 0 then err no_id else (do
    ins ← expand_acl_rules Direction.ingress (listed acl.ingress)
    outs ← expand_acl_rules Direction.egress (listed acl.egress)
    ok (record {
      group_id = acl.acl_id;
      ingress = sort_by_priority ins;
      egress = sort_by_priority outs;
      has_ingress_rules = declared acl.ingress;
      has_egress_rules = declared acl.egress;
      ruleset_version = acl.ruleset_version;
    }))
