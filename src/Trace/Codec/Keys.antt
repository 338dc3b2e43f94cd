-- ===== src/Trace/Codec/Keys.antt =====
-- The bytes of tuple keys: daemon/internal/daemon/dataplane/trace/types.go.
use juneau.Prelude.{ℕ, ◌/◌, ◌%◌, ◌^◌, ◌<◌, ◌≡◌, ap, List, arith, get_elem?, some, none}
use juneau.Trace.{TupleKey}
use juneau.Trace.Codec.{Endian, little, big, marshal_binary, put_u32, put_u16_be}

-- The widths of the fields.
pub record Fits (k : TupleKey) : Type 0 where
  pub scope_fits : k.scope < 256
  pub vpc_id_fits : k.vpc_id < 2 ^ 32
  pub src_port_fits : k.src_port < 2 ^ 16
  pub dst_port_fits : k.dst_port < 2 ^ 16

u16_lem :
    (n m : ℕ)
    → n < 2 ^ 16
    → m < 2 ^ 16
    → n / 2 ^ 8 % 256 ≡ m / 2 ^ 8 % 256
    → n / 2 ^ 0 % 256 ≡ m / 2 ^ 0 % 256
    → n ≡ m
u16_lem n m p q h l = omega arith

u32_lem :
    (n m : ℕ)
    → n < 2 ^ 32
    → m < 2 ^ 32
    → n / 2 ^ 24 % 256 ≡ m / 2 ^ 24 % 256
    → n / 2 ^ 16 % 256 ≡ m / 2 ^ 16 % 256
    → n / 2 ^ 8 % 256 ≡ m / 2 ^ 8 % 256
    → n / 2 ^ 0 % 256 ≡ m / 2 ^ 0 % 256
    → n ≡ m
u32_lem n m p q a b c d = omega arith

byte : List ℕ → ℕ → ℕ
byte b i = elim (get_elem? b i) [ none ↦ 0 | some x ↦ x ]

-- The bytes at the same offset are the same.
bytes-agree :
    (e : Endian) (j k : TupleKey) (i : ℕ)
    → marshal_binary e j ≡ marshal_binary e k
    → byte (marshal_binary e j) i ≡ byte (marshal_binary e k) i
bytes-agree e j k i h = ap (λ b. byte b i) h

scalars-agree :
    (e : Endian) (j k : TupleKey)
    → Fits j
    → Fits k
    → marshal_binary e j ≡ marshal_binary e k
    → (j.scope ≡ k.scope)
      × (j.vpc_id ≡ k.vpc_id)
      × (j.src_port ≡ k.src_port)
      × (j.dst_port ≡ k.dst_port)
unfolding byte marshal_binary put_u32 put_u16_be
scalars-agree little j k f g h =
    let at = λ (i : ℕ). bytes-agree little j k i h in
    (
      omega (arith, at 0, f.scope_fits, g.scope_fits),
      u32_lem j.vpc_id k.vpc_id f.vpc_id_fits g.vpc_id_fits (at 7) (at 6) (at 5) (at 4),
      u16_lem j.src_port k.src_port f.src_port_fits g.src_port_fits (at 16) (at 17),
      u16_lem j.dst_port k.dst_port f.dst_port_fits g.dst_port_fits (at 18) (at 19),
    )
scalars-agree big j k f g h =
    let at = λ (i : ℕ). bytes-agree big j k i h in
    (
      omega (arith, at 0, f.scope_fits, g.scope_fits),
      u32_lem j.vpc_id k.vpc_id f.vpc_id_fits g.vpc_id_fits (at 4) (at 5) (at 6) (at 7),
      u16_lem j.src_port k.src_port f.src_port_fits g.src_port_fits (at 16) (at 17),
      u16_lem j.dst_port k.dst_port f.dst_port_fits g.dst_port_fits (at 18) (at 19),
    )

addresses-agree :
    (e : Endian) (j k : TupleKey)
    → marshal_binary e j ≡ marshal_binary e k
    → (j.protocol ≡ k.protocol) × (j.src_ip ≡ k.src_ip) × (j.dst_ip ≡ k.dst_ip)
unfolding byte marshal_binary put_u32
addresses-agree little j k h =
    let at = λ (i : ℕ). bytes-agree little j k i h in
    (at 1, cc (at 8, at 9, at 10, at 11), cc (at 12, at 13, at 14, at 15))
addresses-agree big j k h =
    let at = λ (i : ℕ). bytes-agree big j k i h in
    (at 1, cc (at 8, at 9, at 10, at 11), cc (at 12, at 13, at 14, at 15))

-- Two tuple keys whose fields have their widths and that are marshalled to the same bytes are the
-- same key.
pub marshal_binary-injective :
    (e : Endian) (j k : TupleKey)
    → Fits j
    → Fits k
    → marshal_binary e j ≡ marshal_binary e k
    → j ≡ k
marshal_binary-injective e j k f g h =
    let (scope, vpc_id, src_port, dst_port) = scalars-agree e j k f g h in
    let (protocol, src_ip, dst_ip) = addresses-agree e j k h in
    cc (scope, vpc_id, src_port, dst_port, protocol, src_ip, dst_ip)
