-- ===== src/Range.antt =====
-- IP addresses, prefixes and ranges: controller/internal/addressrange, over the part of Go's
-- net/netip that the program uses. An address is its number and the bit length of its family (0 for
-- the invalid zero address, 32, 128); IPv6 zones are left out.
mod Fill
pub mod Last
pub mod Meet
pub mod Parse
pub mod Candidates
mod Tests
use juneau.Prelude.{
  ℕ, zero, suc, ◌+◌, ◌-◌, ◌*◌, ◌/◌, ◌%◌, ◌^◌, ◌≤◌, ◌<◌, bit_or, min, ◌≡◌, Bool, true, false, not,
  ◌&&◌, ◌||◌, Option, none, some, ◌⊎◌, ℕ_discrete, List, [], ◌∷◌, take, ltb, leb, ◌==◌,
  if◌then◌else◌,
}

pub record Addr : Type 0 where
  pub bit_len : ℕ
  pub value : ℕ

pub addr_discrete : Discrete Addr
addr_discrete = hlevel ℕ_discrete

-- `netip.Addr{}`
abbrev pub no_addr : Addr
no_addr = record { bit_len = 0; value = 0 }

abbrev pub is_valid : Addr → Bool
is_valid a = not (a.bit_len == 0)

abbrev pub is4 : Addr → Bool
is4 a = a.bit_len == 32

-- `a.Compare(b) < 0`: by family, then by number.
abbrev pub before : Addr → Addr → Bool
before a b = ltb a.bit_len b.bit_len || a.bit_len == b.bit_len && ltb a.value b.value

-- `a == b`
unfoldable pub same : Addr → Addr → Bool
same a b = a.bit_len == b.bit_len && a.value == b.value

-- `a.Next()` and `a.Prev()`: the invalid address past the end of the family.
pub next : Addr → Addr
next a = if a.value + 1 == 2 ^ a.bit_len then no_addr else record a { value = a.value + 1 }

pub prev : Addr → Addr
prev a = if a.value == 0 then no_addr else record a { value = a.value - 1 }

-- `a.Unmap()`: the IPv4 address inside ::ffff:0:0/96.
unfoldable pub unmap : Addr → Addr
unmap a =
    if a.bit_len == 128 && a.value / 2 ^ 32 == 0xffff
    then record { bit_len = 32; value = a.value % 2 ^ 32 }
    else a

pub record Prefix : Type 0 where
  pub addr : Addr
  pub bits : ℕ

-- The bits of the host part.
abbrev pub host_bits : Prefix → ℕ
host_bits p = p.addr.bit_len - p.bits

-- `p.Masked()`
unfoldable pub masked : Prefix → Prefix
masked p = record p {
  addr = record {
    bit_len = p.addr.bit_len;
    value = p.addr.value / 2 ^ host_bits p * 2 ^ host_bits p;
  };
}

-- `p.Contains(a)`
pub prefix_contains : Prefix → Addr → Bool
prefix_contains p a =
    is_valid a
    && a.bit_len == p.addr.bit_len
    && a.value / 2 ^ host_bits p == p.addr.value / 2 ^ host_bits p

-- What `netip.ParsePrefix` returns: an IPv4 or IPv6 address, and no more bits than it has.
pub record IsPrefix (p : Prefix) : Type 0 where
  pub family : (p.addr.bit_len ≡ 32) ⊎ (p.addr.bit_len ≡ 128)
  pub bounded : p.addr.value < 2 ^ p.addr.bit_len
  pub fits : p.bits ≤ p.addr.bit_len

-- The sixteen bytes of `As16`, the last one first.
unfoldable pub bytes : ℕ → ℕ → List ℕ
bytes zero n = []
bytes (suc k) n = n % 256 ∷ bytes k (n / 256)

unfoldable pub from_bytes : List ℕ → ℕ
from_bytes [] = 0
from_bytes (b ∷ bs) = b + 256 * from_bytes bs

as16 : Addr → List ℕ
unfolding bytes
as16 a = bytes 16 (if is4 a then 0xffff * 2 ^ 32 + a.value else a.value)

-- The loop of `LastAddr`, from the last byte on: each round sets at most eight host bits.
unfoldable pub fill : ℕ → List ℕ → List ℕ
fill host [] = []
fill host (b ∷ bs) =
    let rest = fill (host - min host 8) bs in
    if host == 0 then b ∷ bs else bit_or b (2 ^ min host 8 - 1) ∷ rest

pub last_addr : Prefix → Addr
last_addr p =
    let addr = (masked p).addr in
    let bs = fill (addr.bit_len - p.bits) (as16 addr) in
    if is4 addr
    then record { bit_len = 32; value = from_bytes (take 4 bs) }
    else record { bit_len = 128; value = from_bytes bs }

-- The first address after the network address, if the prefix has one.
pub first_addr : Prefix → Option Addr
first_addr p =
    let m = masked p in
    let addr = next m.addr in
    if not (is_valid addr) || not (prefix_contains m addr) then none else some addr

-- The type `Range`: both bounds belong to it.
pub record Range : Type 0 where
  pub start : Addr
  pub end : Addr

pub prefix_range : Prefix → Range
prefix_range p = let m = masked p in record { start = m.addr; end = last_addr m }

later : Addr → Addr → Addr
later a b = if before a b then b else a

earlier : Addr → Addr → Addr
earlier a b = if before b a then b else a

pub intersect : Range → Range → Option Range
unfolding later earlier
intersect r other =
    let start = later r.start other.start in
    let end = earlier r.end other.end in
    if before end start then none else some (record { start = start; end = end })
