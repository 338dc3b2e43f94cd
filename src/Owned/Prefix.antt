-- ===== src/Owned/Prefix.antt =====
-- Keys of external_address_pools: `ParsePrefix` of
-- daemon/internal/daemon/dataplane/reconciler/ownedaddr/key.go, with
-- daemon/internal/daemon/dataplane/internal/convert/convert.go and the part of Go's package net that
-- they use. A `net.IP` is the number of its bits and its number, and nil is `no_addr`. What
-- strings.TrimSpace, strings.Contains, net.ParseIP and net.ParseCIDR make of a text is a parameter.
pub mod Spelling
mod Tests
use Prim.Native.String.{String}
use text.Mathlib.Text.{◌==◌ as str_eq}
use juneau.Prelude.{
  ℕ, ◌+◌, ◌*◌, ◌/◌, ◌%◌, ◌^◌, Bool, not, ◌&&◌, Option, none, some, List, [], ◌∷◌, length, ◌==◌,
  if◌then◌else◌, Result, ok, err, ◌>>=◌,
}
use juneau.Range.{Addr, Prefix, no_addr, is4, unmap, masked}
use juneau.Owned.{Key}

-- A `net.IPMask` of leading ones: their number and the length in bits.
pub record Mask : Type 0 where
  pub ones : ℕ
  pub bits : ℕ

pub record Net : Type 0 where
  pub trim_space : String → String
  pub has_slash : String → Bool
  -- The number of the sixteen bytes.
  pub parse_ip : String → Option ℕ
  pub parse_cidr : String → Option (ℕ × Mask)

pub data PrefixError : Type 0 where
  empty_address malformed invalid_address not_ipv4 bad_length : PrefixError

abbrev pub ip16 : ℕ → Addr
ip16 n = record { bit_len = 128; value = n }

-- `ip.To4()`
unfoldable pub to4 : Addr → Addr
to4 ip = if is4 (unmap ip) then unmap ip else no_addr

-- `ip.Mask(mask)`, for sixteen bytes.
unfoldable pub mask_ip : ℕ → Mask → Addr
mask_ip n mask =
    let ip = if mask.bits == 32 && is4 (unmap (ip16 n)) then unmap (ip16 n) else ip16 n in
    if ip.bit_len == mask.bits
    then (masked (record { addr = ip; bits = mask.ones })).addr
    else no_addr

-- `binary.LittleEndian.Uint32` of the four bytes of an address, most significant first, and
-- `binary.LittleEndian.PutUint32`.
unfoldable pub reverse_bytes : ℕ → ℕ
reverse_bytes n =
    n / 2 ^ 24 % 256 + n / 2 ^ 16 % 256 * 2 ^ 8 + n / 2 ^ 8 % 256 * 2 ^ 16 + n % 256 * 2 ^ 24

four_bytes : Addr → Result PrefixError ℕ
four_bytes ip = if is4 ip then ok ip.value else err not_ipv4

unfoldable pub ipv4_to_bpf_network_order : Addr → Result PrefixError ℕ
unfolding four_bytes to4 reverse_bytes
ipv4_to_bpf_network_order ip = four_bytes (to4 ip) >>= λ n. ok (reverse_bytes n)

unfoldable pub bpf_network_order_to_ipv4 : ℕ → Addr
unfolding reverse_bytes
bpf_network_order_to_ipv4 value = record { bit_len = 32; value = reverse_bytes value }

-- The end of `ParsePrefix`.
unfoldable pub key_of : Addr → ℕ → Result PrefixError Key
unfolding to4 ipv4_to_bpf_network_order
key_of ip ones =
    if not (is4 (to4 ip))
    then err not_ipv4
    else (ipv4_to_bpf_network_order (to4 ip) >>= λ addr.
        ok (record { prefixlen = ones % 2 ^ 32; addr = addr }))

module _ (net : Net) where
  unfoldable pub parse_cidr_text : String → Result PrefixError Key
  unfolding mask_ip key_of
  parse_cidr_text raw = elim (net.parse_cidr raw) [
    | none ↦ err malformed
    | some (n, mask) ↦ key_of (mask_ip n mask) mask.ones
  ]

  unfoldable pub parse_bare : String → Result PrefixError Key
  unfolding key_of
  parse_bare raw = elim (net.parse_ip raw) [
    | none ↦ err invalid_address
    | some n ↦ key_of (ip16 n) 32
  ]

  unfoldable pub parse_prefix : String → Result PrefixError Key
  unfolding parse_cidr_text parse_bare
  parse_prefix text =
      let raw = net.trim_space text in
      if str_eq raw ""
      then err empty_address
      else (if net.has_slash raw then parse_cidr_text raw else parse_bare raw)
