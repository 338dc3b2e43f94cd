-- ===== src/Policy/Expand/Budget.antt =====
-- A specification that the API contract admits always fits its window.
use Prim.Native.String.{String}
use juneau.Prelude.{
  ℕ, ◌+◌, ◌*◌, ◌≤◌, ◌≡◌, refl, inl, inr, Option, none, some, List, [], ◌∷◌, length, length-append,
  arith, ok, ok-injective, >>=-eq-ok, subst, Bool-cases, ◌==◌,
}
use native.Mathlib.Nat.{mul-le-mul_left, mul-le-mul_right}
use juneau.Range.{Prefix}
use juneau.Policy.Protocol.{resolve_ip_protocol}
use juneau.Policy.{Direction, Verdict, Rule, RuleSet}
use juneau.Policy.Expand.{
  PortRange, Peer, each_range, ports_to_ranges, each_port, peer_rules, build_peer, each_peer,
  expand_rule, expand_rules, expand_acl_rule, expand_acl_rules, expand_network_acl,
  expand_security_group, sort_by_priority, insert_by_priority, listed, resolved, acl_prefix,
  networkacl_action_to_verdict, to_uint16,
}
use juneau.Policy.Resources.{
  PolicyPort, SecurityGroupRule, SecurityGroupPeer, SecurityGroup, NetworkAclRule, NetworkAcl,
}
use juneau.Policy.Contract.{
  at_least_one, network_acl_rule_entry_count, security_group_rule_entry_count, sum_entry_count,
}

each_range-le : (ports : List PolicyPort) → length (each_range ports) ≤ length ports
unfolding each_range
each_range-le [] = omega arith
each_range-le (p ∷ ports) = ground (arith, each_range-le ports)

ports_to_ranges-le :
    (ports : List PolicyPort) → length (ports_to_ranges ports) ≤ at_least_one (length ports)
unfolding ports_to_ranges
ports_to_ranges-le [] = omega arith
ports_to_ranges-le (p ∷ ports) = ground (arith, each_range-le (p ∷ ports))

length-each_port :
    (direction : Direction) (proto : ℕ) (verdict : Verdict) (priority : ℕ) (peer : Peer)
    (ranges : List PortRange)
    → length (each_port direction proto verdict priority peer ranges) ≡ length ranges
unfolding each_port
length-each_port direction proto verdict priority peer [] = refl
length-each_port direction proto verdict priority peer (r ∷ ranges) =
    omega (arith, length-each_port direction proto verdict priority peer ranges)

peer_rules-le :
    (direction : Direction) (proto : ℕ) (ranges : List PortRange) (peer : Option Peer)
    → length (peer_rules direction proto ranges peer) ≤ length ranges
unfolding peer_rules
peer_rules-le direction proto ranges none = omega arith
peer_rules-le direction proto ranges (some peer) =
    omega (arith, length-each_port direction proto Verdict.allow 0 peer ranges)

mul_mono : (a b c d : ℕ) → a ≤ c → b ≤ d → a * b ≤ c * d
mul_mono a b c d h k =
    let l : a * b ≤ c * b = mul-le-mul_right b h in
    let r : c * b ≤ c * d = mul-le-mul_left c k in omega arith

le-at_least_one : (n : ℕ) → n ≤ at_least_one n
le-at_least_one n = ground arith

module _ (parse_prefix : String → Option Prefix) (resolver : String → Option ℕ) where
  each_peer-le :
      (direction : Direction) (proto : ℕ) (ranges : List PortRange) (peers : List SecurityGroupPeer)
      → length (each_peer parse_prefix resolver direction proto ranges peers)
        ≤ length peers * length ranges
  unfolding each_peer
  each_peer-le direction proto ranges [] = omega arith
  each_peer-le direction proto ranges (peer ∷ peers) =
      let here = peer_rules direction proto ranges (build_peer parse_prefix resolver peer) in
      let rest = each_peer parse_prefix resolver direction proto ranges peers in
      omega (
        arith,
        length-append here rest,
        peer_rules-le direction proto ranges (build_peer parse_prefix resolver peer),
        each_peer-le direction proto ranges peers,
      )

  expand_rule-le :
      (direction : Direction) (rule : SecurityGroupRule) {rules : List Rule}
      → expand_rule parse_prefix resolver direction rule ≡ ok rules
      → length rules ≤ security_group_rule_entry_count rule
  unfolding expand_rule security_group_rule_entry_count
  expand_rule-le direction rule {rules} e =
      let (proto, p, q) = >>=-eq-ok (resolved (resolve_ip_protocol rule.protocol)) _ e in
      let ranges = ports_to_ranges rule.ports in
      subst (λ (rs : List Rule). length rs ≤ security_group_rule_entry_count rule) (ok-injective q)
        (omega (
          arith,
          each_peer-le direction proto ranges rule.peers,
          mul_mono (length rule.peers) (length ranges) (at_least_one (length rule.peers))
              (at_least_one (length rule.ports)) (le-at_least_one (length rule.peers))
              (ports_to_ranges-le rule.ports),
        ))

  expand_rules-le :
      (direction : Direction) (rules : List SecurityGroupRule) {out : List Rule}
      → expand_rules parse_prefix resolver direction rules ≡ ok out
      → length out ≤ sum_entry_count rules security_group_rule_entry_count
  unfolding expand_rules sum_entry_count
  expand_rules-le direction [] {out} e =
      subst (λ (rs : List Rule). length rs ≤ 0) (ok-injective e) (omega arith)
  expand_rules-le direction (rule ∷ rules) {out} e =
      let (expanded, p, q) = >>=-eq-ok (expand_rule parse_prefix resolver direction rule) _ e in
      let (rest, r, t) = >>=-eq-ok (expand_rules parse_prefix resolver direction rules) _ q in
      subst
        (λ (rs : List Rule).
          length rs
          ≤ security_group_rule_entry_count rule
            + sum_entry_count rules security_group_rule_entry_count)
        (ok-injective t)
        (omega (
          arith,
          length-append expanded rest,
          expand_rule-le direction rule p,
          expand_rules-le direction rules r,
        ))

length-insert : (r : Rule) (rs : List Rule) → length (insert_by_priority r rs) ≡ length rs + 1
unfolding insert_by_priority
length-insert r [] = omega arith
length-insert r (s ∷ rs) = ground (arith, length-insert r rs)

length-sort : (rs : List Rule) → length (sort_by_priority rs) ≡ length rs
unfolding sort_by_priority
length-sort [] = refl
length-sort (r ∷ rs) = omega (arith, length-insert r (sort_by_priority rs), length-sort rs)

module _ (parse_prefix : String → Option Prefix) where
  expand_acl_rule-le :
      (direction : Direction) (rule : NetworkAclRule) {rules : List Rule}
      → expand_acl_rule parse_prefix direction rule ≡ ok rules
      → length rules ≤ network_acl_rule_entry_count rule
  unfolding expand_acl_rule network_acl_rule_entry_count
  expand_acl_rule-le direction rule {rules} e =
      let (peer, p, q) = >>=-eq-ok (acl_prefix (parse_prefix rule.cidr)) _ e in
      let (proto, r, t) = >>=-eq-ok (resolved (resolve_ip_protocol rule.protocol)) _ q in
      subst (λ (rs : List Rule). length rs ≤ network_acl_rule_entry_count rule) (ok-injective t)
        (omega (
          arith,
          length-each_port direction proto (networkacl_action_to_verdict rule.action)
              (to_uint16 rule.priority) peer (ports_to_ranges rule.ports),
          ports_to_ranges-le rule.ports,
        ))

  expand_acl_rules-le :
      (direction : Direction) (rules : List NetworkAclRule) {out : List Rule}
      → expand_acl_rules parse_prefix direction rules ≡ ok out
      → length out ≤ sum_entry_count rules network_acl_rule_entry_count
  unfolding expand_acl_rules sum_entry_count
  expand_acl_rules-le direction [] {out} e =
      subst (λ (rs : List Rule). length rs ≤ 0) (ok-injective e) (omega arith)
  expand_acl_rules-le direction (rule ∷ rules) {out} e =
      let (expanded, p, q) = >>=-eq-ok (expand_acl_rule parse_prefix direction rule) _ e in
      let (rest, r, t) = >>=-eq-ok (expand_acl_rules parse_prefix direction rules) _ q in
      subst
        (λ (rs : List Rule).
          length rs
          ≤ network_acl_rule_entry_count rule + sum_entry_count rules network_acl_rule_entry_count)
        (ok-injective t)
        (omega (
          arith,
          length-append expanded rest,
          expand_acl_rule-le direction rule p,
          expand_acl_rules-le direction rules r,
        ))

  -- Each direction of an expanded NetworkACL holds at most as many rules as the API contract counts
  -- for it, so the window that the contract promises is enough.
  pub expand_network_acl-le :
      (acl : NetworkAcl) (rs : RuleSet)
      → expand_network_acl parse_prefix acl ≡ ok rs
      → (length rs.ingress ≤ sum_entry_count (listed acl.ingress) network_acl_rule_entry_count)
        × (length rs.egress ≤ sum_entry_count (listed acl.egress) network_acl_rule_entry_count)
  unfolding expand_network_acl
  expand_network_acl-le acl rs e = elim (Bool-cases (acl.acl_id == 0)) [
    | inl z ↦ cc (rw z at e)
    | inr n ↦
        let (ins, p, q) =
          >>=-eq-ok (expand_acl_rules parse_prefix Direction.ingress (listed acl.ingress)) _
            (rw n at e) in
        let (outs, r, t) =
          >>=-eq-ok (expand_acl_rules parse_prefix Direction.egress (listed acl.egress)) _ q in
        subst
          (λ (x : RuleSet).
            (length x.ingress ≤ sum_entry_count (listed acl.ingress) network_acl_rule_entry_count)
            × (length x.egress ≤ sum_entry_count (listed acl.egress) network_acl_rule_entry_count))
          (ok-injective t)
          (
            omega (
              arith,
              length-sort ins,
              expand_acl_rules-le Direction.ingress (listed acl.ingress) p,
            ),
            omega (
              arith,
              length-sort outs,
              expand_acl_rules-le Direction.egress (listed acl.egress) r,
            ),
          )
  ]

  -- The same for a SecurityGroup, whose rules multiply peers by ports.
  pub expand_security_group-le :
      (resolver : String → Option ℕ) (sg : SecurityGroup) (rs : RuleSet)
      → expand_security_group parse_prefix resolver sg ≡ ok rs
      → (length rs.ingress ≤ sum_entry_count sg.ingress security_group_rule_entry_count)
        × (length rs.egress ≤ sum_entry_count (listed sg.egress) security_group_rule_entry_count)
  unfolding expand_security_group
  expand_security_group-le resolver sg rs e = elim (Bool-cases (sg.group_id == 0)) [
    | inl z ↦ cc (rw z at e)
    | inr n ↦
        let (ins, p, q) =
          >>=-eq-ok (expand_rules parse_prefix resolver Direction.ingress sg.ingress) _
            (rw n at e) in
        let (outs, r, t) =
          >>=-eq-ok (expand_rules parse_prefix resolver Direction.egress (listed sg.egress)) _ q in
        subst
          (λ (x : RuleSet).
            (length x.ingress ≤ sum_entry_count sg.ingress security_group_rule_entry_count)
            × (length x.egress
                ≤ sum_entry_count (listed sg.egress) security_group_rule_entry_count))
          (ok-injective t)
          (
            expand_rules-le parse_prefix resolver Direction.ingress sg.ingress p,
            expand_rules-le parse_prefix resolver Direction.egress (listed sg.egress) r,
          )
  ]
