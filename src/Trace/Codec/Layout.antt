-- ===== src/Trace/Codec/Layout.antt =====
-- The records of the ring buffer by their offsets: daemon/internal/daemon/dataplane/trace/types.go.
use juneau.Prelude.{
  ℕ, zero, suc, ◌+◌, ◌*◌, ◌^◌, ◌<◌, ◌≤◌, ◌≡◌, refl, List, [], ◌∷◌, arith, get_elem?, some, length,
  ok, err, Result, ite, if_pos, if_neg, ◌∙◌, sym, dec_lt, false, true, ltb,
}
use juneau.Prelude.Int.{ℤ}
use juneau.Trace.{Event, event_bytes}
use juneau.Trace.Codec.{
  Endian, little, big, DecodeError, short_read, u8, be16, be32, le16, le32, u32, u64, decode_event,
  second_tuple, duration, ip_from_be,
}

-- The byte at an offset, 0 out of range.
unfoldable pub byte : List ℕ → ℕ → ℕ
byte [] i = 0
byte (x ∷ b) zero = x
byte (x ∷ b) (suc i) = byte b i

-- The word of n bytes at an offset.
unfoldable pub word : Endian → List ℕ → ℕ → ℕ → ℕ
unfolding byte
word e b off zero = 0
word little b off (suc n) = byte b off + 256 * word little b (off + 1) n
word big b off (suc n) = byte b off * 256 ^ n + word big b (off + 1) n

get_elem?-lt : (b : List ℕ) (i : ℕ) → i < length b → get_elem? b i ≡ some (byte b i)
unfolding byte
get_elem?-lt [] i h = ground (arith, h)
get_elem?-lt (x ∷ b) zero h = refl
get_elem?-lt (x ∷ b) (suc i) h = get_elem?-lt b i (omega (arith, h))

read-ok :
    (x y o p : ℕ) → x ≡ y → o ≡ p → ◌≡◌ {A = Result DecodeError (ℕ × ℕ)} (ok (x, o)) (ok (y, p))
read-ok x y o p h k = cc

u8_lem : (b : List ℕ) (off : ℕ) → off < length b → u8 b off ≡ ok (byte b off, off + 1)
unfolding u8
u8_lem b off h = rw (get_elem?-lt b off h, u8) (read-ok _ _ _ _ refl (omega arith))

be16_lem : (b : List ℕ) (off : ℕ) → off + 2 ≤ length b → be16 b off ≡ ok (word big b off 2, off + 2)
unfolding be16 word
be16_lem b off h =
    rw (u8_lem b off (omega (arith, h)), u8_lem b (off + 1) (omega (arith, h)))
      (read-ok _ _ _ _ (omega arith) (omega arith))

le16_lem :
    (b : List ℕ) (off : ℕ) → off + 2 ≤ length b → le16 b off ≡ ok (word little b off 2, off + 2)
unfolding le16 word
le16_lem b off h =
    rw (u8_lem b off (omega (arith, h)), u8_lem b (off + 1) (omega (arith, h)))
      (read-ok _ _ _ _ (omega arith) (omega arith))

be32_lem : (b : List ℕ) (off : ℕ) → off + 4 ≤ length b → be32 b off ≡ ok (word big b off 4, off + 4)
unfolding be32 word
be32_lem b off h =
    rw (be16_lem b off (omega (arith, h)), be16_lem b (off + 2) (omega (arith, h)))
      (read-ok _ _ _ _ (grind arith) (omega arith))

le32_lem :
    (b : List ℕ) (off : ℕ) → off + 4 ≤ length b → le32 b off ≡ ok (word little b off 4, off + 4)
unfolding le32 word
le32_lem b off h =
    rw (le16_lem b off (omega (arith, h)), le16_lem b (off + 2) (omega (arith, h)))
      (read-ok _ _ _ _ (grind arith) (omega arith))

u32_lem :
    (e : Endian) (b : List ℕ) (off : ℕ)
    → off + 4 ≤ length b
    → u32 e b off ≡ ok (word e b off 4, off + 4)
unfolding u32
u32_lem little b off h = le32_lem b off h
u32_lem big b off h = be32_lem b off h

u64_lem :
    (e : Endian) (b : List ℕ) (off : ℕ)
    → off + 8 ≤ length b
    → u64 e b off ≡ ok (word e b off 8, off + 8)
unfolding u64 word
u64_lem little b off h =
    rw (u32_lem little b off (omega (arith, h)), u32_lem little b (off + 4) (omega (arith, h)))
      (read-ok _ _ _ _ (grind arith) (omega arith))
u64_lem big b off h =
    rw (u32_lem big b off (omega (arith, h)), u32_lem big b (off + 4) (omega (arith, h)))
      (read-ok _ _ _ _ (grind arith) (omega arith))

-- The event that the record at the start of the bytes holds.
unfoldable pub event_in : Endian → ℤ → List ℕ → Event
unfolding word byte duration ip_from_be second_tuple
event_in e now b =
    second_tuple (word big b 48 4) (word big b 52 4) (word big b 56 2) (word big b 58 2) (record {
      trace_id = word e b 0 4;
      reason = word e b 4 4;
      hook = word e b 8 4;
      ifindex = word e b 12 4;
      vpc_id = word e b 16 4;
      subnet_id = word e b 20 4;
      at = duration (word e b 24 8);
      src_ip = ip_from_be (word big b 32 4);
      dst_ip = ip_from_be (word big b 36 4);
      src_port = word big b 40 2;
      dst_port = word big b 42 2;
      protocol = byte b 44;
      verdict = byte b 45;
      scope = byte b 46;
      direction = byte b 47;
      has_aux = false;
      aux_src = [];
      aux_dst = [];
      aux_srcp = 0;
      aux_dstp = 0;
      aux1 = word e b 60 4;
      aux2 = word e b 64 4;
      received_at = now;
    })

if_long : (b : List ℕ) → event_bytes ≤ length b → ltb (length b) event_bytes ≡ false
if_long b h = ground (arith, h)

if_short : (b : List ℕ) → length b < event_bytes → ltb (length b) event_bytes ≡ true
if_short b h = ground (arith, h)

decode_long :
    (e : Endian) (now : ℤ) (b : List ℕ)
    → event_bytes ≤ length b
    → decode_event e now b ≡ ok (event_in e now b)
unfolding decode_event event_in
decode_long e now b h =
    rw
      (
        if_long b h,
        u32_lem e b 0 (omega (arith, h)),
        u32_lem e b 4 (omega (arith, h)),
        u32_lem e b 8 (omega (arith, h)),
        u32_lem e b 12 (omega (arith, h)),
        u32_lem e b 16 (omega (arith, h)),
        u32_lem e b 20 (omega (arith, h)),
        u64_lem e b 24 (omega (arith, h)),
        be32_lem b 32 (omega (arith, h)),
        be32_lem b 36 (omega (arith, h)),
        be16_lem b 40 (omega (arith, h)),
        be16_lem b 42 (omega (arith, h)),
        u8_lem b 44 (omega (arith, h)),
        u8_lem b 45 (omega (arith, h)),
        u8_lem b 46 (omega (arith, h)),
        u8_lem b 47 (omega (arith, h)),
        be32_lem b 48 (omega (arith, h)),
        be32_lem b 52 (omega (arith, h)),
        be16_lem b 56 (omega (arith, h)),
        be16_lem b 58 (omega (arith, h)),
        u32_lem e b 60 (omega (arith, h)),
        u32_lem e b 64 (omega (arith, h)),
      )
      refl

decode_short :
    (e : Endian) (now : ℤ) (b : List ℕ)
    → length b < event_bytes
    → decode_event e now b ≡ err short_read
unfolding decode_event
decode_short e now b h = rw (if_short b h) refl

-- Bytes decode to the event whose fields stand at the offsets of the record's layout, without a read
-- out of range, if they are as many as a record has, and are refused as short if they are fewer.
pub decode_event-layout :
    (e : Endian) (now : ℤ) (b : List ℕ)
    → decode_event e now b
      ≡ ite (dec_lt (length b) event_bytes) (err short_read) (ok (event_in e now b))
decode_event-layout e now b = elim (dec_lt (length b) event_bytes) [
  | Dec.yes p ↦ decode_short e now b p ∙ sym (if_pos (dec_lt (length b) event_bytes) p _ _)
  | Dec.no n ↦
      decode_long e now b (omega (arith, n)) ∙ sym (if_neg (dec_lt (length b) event_bytes) n _ _)
]
