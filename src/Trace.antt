-- ===== src/Trace.antt =====
-- Packet tracing: daemon/internal/daemon/dataplane/trace. This file has the types and constants of
-- types.go that the children share. A word of w bits is a number below 2 ^ w, a byte one below 256.
pub mod Bus
pub mod Codec
mod Memory
pub mod Mirror
pub mod Maps
pub mod Store
mod Tests
use juneau.Prelude.{ℕ, ◌+◌, ◌*◌, Bool, List}
use juneau.Prelude.Int.{ℤ}

-- `EventBytes`
abbrev pub event_bytes : ℕ
event_bytes = 4 * 6 + 8 + 4 + 4 + 2 + 2 + 1 + 1 + 1 + 1 + 4 + 4 + 2 + 2 + 4 + 4

-- `TupleKeyBytes`
abbrev pub tuple_key_bytes : ℕ
tuple_key_bytes = 1 + 1 + 2 + 4 + 4 + 4 + 2 + 2

-- The entry reasons of `Reason`, which is an open enumeration of 32 bits.
abbrev pub reason_enter_pod_egress : ℕ
reason_enter_pod_egress = 100

abbrev pub reason_enter_node_ingress : ℕ
reason_enter_node_ingress = 103

-- `Direction`, an open enumeration of 8 bits.
abbrev pub dir_unspecified : ℕ
dir_unspecified = 0

abbrev pub dir_request : ℕ
dir_request = 1

abbrev pub dir_reply : ℕ
dir_reply = 2

-- `[4]byte`
pub record Ipv4 : Type 0 where
  pub b0 : ℕ
  pub b1 : ℕ
  pub b2 : ℕ
  pub b3 : ℕ

-- `TupleKey`
pub record TupleKey : Type 0 where
  pub scope : ℕ
  pub protocol : ℕ
  pub vpc_id : ℕ
  pub src_ip : Ipv4
  pub dst_ip : Ipv4
  pub src_port : ℕ
  pub dst_port : ℕ

-- `TupleVal`, without its padding.
pub record TupleVal : Type 0 where
  pub trace_id : ℕ
  pub direction : ℕ

-- `Event`: an IP is the slice of its bytes, and `received_at` a reading of the clock.
pub record Event : Type 0 where
  pub trace_id : ℕ
  pub reason : ℕ
  pub hook : ℕ
  pub ifindex : ℕ
  pub vpc_id : ℕ
  pub subnet_id : ℕ
  pub at : ℤ
  pub protocol : ℕ
  pub verdict : ℕ
  pub scope : ℕ
  pub direction : ℕ
  pub src_ip : List ℕ
  pub dst_ip : List ℕ
  pub src_port : ℕ
  pub dst_port : ℕ
  pub has_aux : Bool
  pub aux_src : List ℕ
  pub aux_dst : List ℕ
  pub aux_srcp : ℕ
  pub aux_dstp : ℕ
  pub aux1 : ℕ
  pub aux2 : ℕ
  pub received_at : ℤ
