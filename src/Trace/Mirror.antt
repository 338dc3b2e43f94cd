-- ===== src/Trace/Mirror.antt =====
-- The reply mirrors that events seed: daemon/internal/daemon/dataplane/trace/types.go.
use juneau.Prelude.{
  ℕ, Bool, ◌&&◌, Option, none, some, List, leb, ◌==◌, if◌then◌else◌, ◌≡◌, ◌⊎◌, arith,
}
use juneau.Trace.{
  Ipv4, TupleKey, Event, dir_unspecified, dir_request, dir_reply, reason_enter_pod_egress,
  reason_enter_node_ingress,
}

unfoldable pub flip_direction : ℕ → ℕ
flip_direction d =
    if d == dir_request
    then dir_reply
    else (if d == dir_reply then dir_request else dir_unspecified)

unfoldable pub is_enter_reason : ℕ → Bool
is_enter_reason r = leb reason_enter_pod_egress r && leb r reason_enter_node_ingress

-- `net.IP.To4`, of package net, is a parameter.
module _ (to4 : List ℕ → Option Ipv4) where
  ip4 : List ℕ → Option Ipv4
  ip4 ip = elim (to4 ip) [ none ↦ none | some v4 ↦ some v4 ]

  -- The addresses and the leg of the mirror, before the leg is checked.
  candidate : Event → Option (List ℕ × List ℕ × ℕ)
  unfolding flip_direction is_enter_reason
  candidate ev =
      if ev.has_aux
      then some (ev.aux_dst, ev.aux_src, flip_direction ev.direction)
      else (if is_enter_reason ev.reason && ev.direction == dir_request
          then some (ev.dst_ip, ev.src_ip, dir_reply)
          else none)

  mirror_key : Event → Ipv4 → Ipv4 → TupleKey
  mirror_key ev sk dk = record {
    scope = ev.scope;
    protocol = ev.protocol;
    vpc_id = ev.vpc_id;
    src_ip = sk;
    dst_ip = dk;
    src_port = 0;
    dst_port = 0;
  }

  mirror_of : Event → List ℕ → List ℕ → ℕ → Option (TupleKey × ℕ)
  unfolding ip4 mirror_key
  mirror_of ev src dst dir = if dir == dir_unspecified then none else elim (ip4 src) [
    | none ↦ none
    | some sk ↦ elim (ip4 dst) [ none ↦ none | some dk ↦ some (mirror_key ev sk dk, dir) ]
  ]

  unfoldable pub reverse_mirror_from_event : Event → Option (TupleKey × ℕ)
  unfolding candidate mirror_of
  reverse_mirror_from_event ev = elim (candidate ev) [
    | none ↦ none
    | some (src, dst, dir) ↦ mirror_of ev src dst dir
  ]

-- A mirror has the scope, the protocol and the VPC of the event that seeds it, no ports, and the leg
-- that is opposite to the event's, which is a request or a reply.
reverse_mirror-Opposite :
    (to4 : List ℕ → Option Ipv4) (ev : Event) (key : TupleKey) (dir : ℕ)
    → reverse_mirror_from_event to4 ev ≡ some (key, dir)
    → (key.src_port ≡ 0)
      × (key.dst_port ≡ 0)
      × (key.scope ≡ ev.scope)
      × (key.protocol ≡ ev.protocol)
      × (key.vpc_id ≡ ev.vpc_id)
      × (dir ≡ flip_direction ev.direction)
      × (ev.direction ≡ flip_direction dir)
      × ((dir ≡ dir_request) ⊎ (dir ≡ dir_reply))
unfolding reverse_mirror_from_event
reverse_mirror-Opposite to4 ev key dir h = ground (arith, h)
