-- ===== src/Ct.antt =====
-- Connection tracking as user space reads it: daemon/internal/daemon/dataplane/ctstate (the TCP
-- states and the idle timeouts) and daemon/internal/daemon/dataplane/policyct (how the two halves
-- of an admission pair up). States, flags and protocols are `uint8` values, times are nanoseconds.
pub mod Walk
pub mod Expiry
pub mod Pairs
mod Tests
use juneau.Prelude.{
  ℕ, ◌-◌, ◌*◌, bit_and, Bool, true, false, not, ◌&&◌, Option, none, some, ltb, leb, ◌==◌,
  if◌then◌else◌,
}

abbrev pub state_new : ℕ
state_new = 0

abbrev pub state_established : ℕ
state_established = 1

abbrev pub state_fin_wait : ℕ
state_fin_wait = 2

abbrev pub state_closed : ℕ
state_closed = 3

abbrev pub flag_fin : ℕ
flag_fin = 0x01

abbrev pub flag_syn : ℕ
flag_syn = 0x02

abbrev pub flag_rst : ℕ
flag_rst = 0x04

abbrev pub flag_ack : ℕ
flag_ack = 0x10

-- `flags&flag != 0`
pub has : ℕ → ℕ → Bool
has flags flag = not (bit_and flags flag == 0)

pub derive_next_state : ℕ → ℕ → ℕ
derive_next_state cur flags =
    if has flags flag_rst
    then state_closed
    else (if has flags flag_fin
        then (if cur == state_fin_wait then state_closed else state_fin_wait)
        else (if cur == state_new && has flags flag_ack then state_established else cur))

pub initial_state_for_syn : ℕ → ℕ
initial_state_for_syn flags = if has flags flag_syn then state_new else state_established

abbrev pub proto_icmp : ℕ
proto_icmp = 1

abbrev pub proto_tcp : ℕ
proto_tcp = 6

abbrev pub proto_udp : ℕ
proto_udp = 17

-- `time.Second` in nanoseconds.
abbrev second : ℕ
second = 1_000_000_000

abbrev pub ttl_new : ℕ
ttl_new = 120 * second

abbrev pub ttl_established : ℕ
ttl_established = 3600 * second

abbrev pub ttl_fin_wait : ℕ
ttl_fin_wait = 60 * second

abbrev pub ttl_udp : ℕ
ttl_udp = 60 * second

abbrev pub ttl_icmp : ℕ
ttl_icmp = 30 * second

abbrev pub ttl_other : ℕ
ttl_other = 120 * second

-- The map `protoTTLs`.
proto_ttls : ℕ → Option ℕ
proto_ttls proto =
    if proto == proto_udp
    then some ttl_udp
    else (if proto == proto_icmp then some ttl_icmp else none)

or_other : Option ℕ → Option ℕ
or_other (some ttl) = some ttl
or_other none = some ttl_other

pub entry_ttl : ℕ → ℕ → Option ℕ
unfolding proto_ttls or_other
entry_ttl state proto =
    if not (proto == proto_tcp)
    then or_other (proto_ttls proto)
    else (if state == state_new
        then some ttl_new
        else (if state == state_established
            then some ttl_established
            else (if state == state_fin_wait then some ttl_fin_wait else none)))

pub elapsed_ns : ℕ → ℕ → ℕ
elapsed_ns last_seen_ns now_ns = if leb now_ns last_seen_ns then 0 else now_ns - last_seen_ns

outlived : Option ℕ → ℕ → Bool
outlived none elapsed = false
outlived (some ttl) elapsed = ltb ttl elapsed

pub should_evict : ℕ → ℕ → ℕ → ℕ → Bool
unfolding outlived
should_evict state proto last_seen_ns now_ns =
    if state == state_closed
    then true
    else outlived (entry_ttl state proto) (elapsed_ns last_seen_ns now_ns)

-- A key of policy_ct_map.
pub record Key : Type 0 where
  pub epoch : ℕ
  pub scope : ℕ
  pub saddr : ℕ
  pub daddr : ℕ
  pub sport : ℕ
  pub dport : ℕ
  pub proto : ℕ
  pub hook : ℕ

abbrev pub hook_pod_egress : ℕ
hook_pod_egress = 1

abbrev pub hook_pod_ingress : ℕ
hook_pod_ingress = 2

peer_hook : ℕ → ℕ
peer_hook hook = if hook == hook_pod_egress then hook_pod_ingress else hook_pod_egress

pub reverse : Key → Key
unfolding peer_hook
reverse key = record {
  epoch = key.epoch;
  scope = key.scope;
  saddr = key.daddr;
  daddr = key.saddr;
  sport = key.dport;
  dport = key.sport;
  proto = key.proto;
  hook = peer_hook key.hook;
}
