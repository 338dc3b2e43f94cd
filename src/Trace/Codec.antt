-- ===== src/Trace/Codec.antt =====
-- The byte layouts of daemon/internal/daemon/dataplane/trace/types.go: the key of the tuple map, and
-- a record of the ring buffer; with the parts of encoding/binary that they use.
pub mod Keys
pub mod Layout
use juneau.Prelude.{
  ℕ, zero, suc, ◌+◌, ◌*◌, ◌/◌, ◌%◌, ◌^◌, ◌-◌, Bool, true, false, not, ◌||◌, Option, none, some,
  List, [], ◌∷◌, ◌++◌, length, get_elem?, ltb, ◌==◌, if◌then◌else◌, Result, ok, err, ◌>>=◌,
}
use juneau.Prelude.Int.{ℤ, pos, negsuc}
use juneau.Trace.{event_bytes, tuple_key_bytes, Ipv4, TupleKey, Event}

-- `binary.NativeEndian` is one of the two orders.
pub data Endian : Type 0 where
  little big : Endian

byte_at : ℕ → ℕ → ℕ
byte_at n shift = n / 2 ^ shift % 256

unfoldable pub put_u16_be : ℕ → List ℕ
unfolding byte_at
put_u16_be n = byte_at n 8 ∷ byte_at n 0 ∷ []

unfoldable pub put_u32_be : ℕ → List ℕ
unfolding byte_at
put_u32_be n = byte_at n 24 ∷ byte_at n 16 ∷ byte_at n 8 ∷ byte_at n 0 ∷ []

unfoldable pub put_u32 : Endian → ℕ → List ℕ
unfolding byte_at put_u32_be
put_u32 big n = put_u32_be n
put_u32 little n = byte_at n 0 ∷ byte_at n 8 ∷ byte_at n 16 ∷ byte_at n 24 ∷ []

-- `copy(buf[off:], bytes)` for bytes that fit; those that do not fit are not copied.
write_at : ℕ → List ℕ → List ℕ → List ℕ
write_at off bytes [] = []
write_at zero [] (x ∷ buf) = x ∷ buf
write_at zero (b ∷ bytes) (x ∷ buf) = b ∷ write_at zero bytes buf
write_at (suc off) bytes (x ∷ buf) = x ∷ write_at off bytes buf

zeros : ℕ → List ℕ
zeros zero = []
zeros (suc n) = 0 ∷ zeros n

bytes_of : Ipv4 → List ℕ
bytes_of ip = ip.b0 ∷ ip.b1 ∷ ip.b2 ∷ ip.b3 ∷ []

-- The fields are written one after another into a zeroed buffer.
unfoldable pub marshal_binary : Endian → TupleKey → List ℕ
unfolding write_at zeros bytes_of
marshal_binary e k =
    let b0 = write_at 0 (k.scope % 256 ∷ []) (zeros tuple_key_bytes) in
    let b1 = write_at 1 (k.protocol ∷ []) b0 in
    let b4 = write_at 4 (put_u32 e k.vpc_id) b1 in
    let b8 = write_at 8 (bytes_of k.src_ip) b4 in
    let b12 = write_at 12 (bytes_of k.dst_ip) b8 in
    let b16 = write_at 16 (put_u16_be k.src_port) b12 in write_at 18 (put_u16_be k.dst_port) b16

pub data DecodeError : Type 0 where
  short_read out_of_range : DecodeError

-- The byte at an offset; an offset out of range is a panic.
u8 : List ℕ → ℕ → Result DecodeError (ℕ × ℕ)
u8 b off = elim (get_elem? b off) [ none ↦ err out_of_range | some x ↦ ok (x, suc off) ]

be16 : List ℕ → ℕ → Result DecodeError (ℕ × ℕ)
unfolding u8
be16 b off = u8 b off >>= λ (x0, o1). u8 b o1 >>= λ (x1, o2). ok (x0 * 2 ^ 8 + x1, o2)

be32 : List ℕ → ℕ → Result DecodeError (ℕ × ℕ)
unfolding be16
be32 b off = be16 b off >>= λ (x0, o1). be16 b o1 >>= λ (x1, o2). ok (x0 * 2 ^ 16 + x1, o2)

le16 : List ℕ → ℕ → Result DecodeError (ℕ × ℕ)
unfolding u8
le16 b off = u8 b off >>= λ (x0, o1). u8 b o1 >>= λ (x1, o2). ok (x0 + x1 * 2 ^ 8, o2)

le32 : List ℕ → ℕ → Result DecodeError (ℕ × ℕ)
unfolding le16
le32 b off = le16 b off >>= λ (x0, o1). le16 b o1 >>= λ (x1, o2). ok (x0 + x1 * 2 ^ 16, o2)

u32 : Endian → List ℕ → ℕ → Result DecodeError (ℕ × ℕ)
unfolding le32 be32
u32 little b off = le32 b off
u32 big b off = be32 b off

u64 : Endian → List ℕ → ℕ → Result DecodeError (ℕ × ℕ)
unfolding u32
u64 little b off =
    u32 little b off >>= λ (x0, o1). u32 little b o1 >>= λ (x1, o2). ok (x0 + x1 * 2 ^ 32, o2)
u64 big b off = u32 big b off >>= λ (x0, o1). u32 big b o1 >>= λ (x1, o2). ok (x0 * 2 ^ 32 + x1, o2)

unfoldable pub ip_from_be : ℕ → List ℕ
ip_from_be n = put_u32_be n

-- `time.Duration(v)` of a 64-bit word.
unfoldable pub duration : ℕ → ℤ
duration n = if ltb n (2 ^ 63) then pos n else negsuc (2 ^ 64 - 1 - n)

-- The addresses and ports of the second tuple, absent when all four are zero.
second_tuple : ℕ → ℕ → ℕ → ℕ → Event → Event
unfolding ip_from_be
second_tuple src dst sport dport ev =
    if not (src == 0) || not (dst == 0) || not (sport == 0) || not (dport == 0)
    then record ev {
      has_aux = true;
      aux_src = ip_from_be src;
      aux_dst = ip_from_be dst;
      aux_srcp = sport;
      aux_dstp = dport;
    }
    else ev

-- `now` is the reading of the clock.
unfoldable pub decode_event : Endian → ℤ → List ℕ → Result DecodeError Event
unfolding u8 be16 be32 u32 u64 second_tuple ip_from_be duration
decode_event e now b =
    if ltb (length b) event_bytes
    then err short_read
    else u32 e b 0 >>= λ (trace_id, o1). u32 e b o1 >>= λ (reason, o2). u32 e b o2 >>= λ (hook, o3).
        u32 e b o3 >>= λ (ifindex, o4). u32 e b o4 >>= λ (vpc_id, o5).
        u32 e b o5 >>= λ (subnet_id, o6). u64 e b o6 >>= λ (at, o7). be32 b o7 >>= λ (src, o8).
        be32 b o8 >>= λ (dst, o9). be16 b o9 >>= λ (sport, o10). be16 b o10 >>= λ (dport, o11).
        u8 b o11 >>= λ (protocol, o12). u8 b o12 >>= λ (verdict, o13). u8 b o13 >>= λ (scope, o14).
        u8 b o14 >>= λ (direction, o15). be32 b o15 >>= λ (src2, o16). be32 b o16 >>= λ (dst2, o17).
        be16 b o17 >>= λ (sport2, o18). be16 b o18 >>= λ (dport2, o19).
        u32 e b o19 >>= λ (aux1, o20). u32 e b o20 >>= λ (aux2, o21). ok (
          second_tuple src2 dst2 sport2 dport2 (record {
            trace_id = trace_id;
            reason = reason;
            hook = hook;
            ifindex = ifindex;
            vpc_id = vpc_id;
            subnet_id = subnet_id;
            at = duration at;
            protocol = protocol;
            verdict = verdict;
            scope = scope;
            direction = direction;
            src_ip = ip_from_be src;
            dst_ip = ip_from_be dst;
            src_port = sport;
            dst_port = dport;
            has_aux = false;
            aux_src = [];
            aux_dst = [];
            aux_srcp = 0;
            aux_dstp = 0;
            aux1 = aux1;
            aux2 = aux2;
            received_at = now;
          }))
