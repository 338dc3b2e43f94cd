-- ===== src/Owned/Prefix/Spelling.antt =====
-- Every spelling of one prefix has one key.
use Prim.Native.String.{String}
use text.Mathlib.Text.{◌==◌ as str_eq}
use juneau.Prelude.{
  ℕ, ◌^◌, ◌≤◌, ◌<◌, ◌≡◌, refl, sym, ap, ◌∙◌, ◌↔◌, ◌⊎◌, inl, inr, true, false, some, Result, ok,
  ok-injective, arith,
}
use juneau.Range.{Addr, Prefix, masked, unmap}
use juneau.Owned.{Key}
use juneau.Owned.Prefix.{
  Net, PrefixError, ip16, to4, mask_ip, reverse_bytes, key_of, parse_cidr_text, parse_bare,
  parse_prefix, bpf_network_order_to_ipv4, ipv4_to_bpf_network_order,
}

pub reverse_bytes_twice : (n : ℕ) → n < 2 ^ 32 → reverse_bytes (reverse_bytes n) ≡ n
unfolding reverse_bytes
reverse_bytes_twice n h = omega arith

-- The text is an IPv4 address, which is a prefix of 32 bits, or an IPv4 CIDR.
pub record Spells (net : Net) (text : String) (p : Prefix) : Type 0 where
  pub not_empty : str_eq (net.trim_space text) "" ≡ false
  pub family : p.addr.bit_len ≡ 32
  pub bounded : p.addr.value < 2 ^ 32
  pub fits : p.bits ≤ 32
  pub read :
      ((n : ℕ) × (net.has_slash (net.trim_space text) ≡ false)
        × (net.parse_ip (net.trim_space text) ≡ some n)
        × (unmap (ip16 n) ≡ p.addr)
        × (p.bits ≡ 32))
      ⊎ ((n : ℕ) × (net.has_slash (net.trim_space text) ≡ true)
          × (net.parse_cidr (net.trim_space text) ≡ some (n, record { ones = p.bits; bits = 32 }))
          × (unmap (ip16 n) ≡ p.addr))

-- The key of a prefix.
abbrev pub key_for : Prefix → Key
key_for p = record { prefixlen = p.bits; addr = reverse_bytes (masked p).addr.value }

four :
    (ip q : Addr) (ones : ℕ)
    → unmap ip ≡ q
    → q.bit_len ≡ 32
    → ones ≤ 32
    → key_of ip ones ≡ ok (record { prefixlen = ones; addr = reverse_bytes q.value })
unfolding key_of to4 unmap ipv4_to_bpf_network_order
four ip q ones e f h = ground arith

-- A mask of 32 ones changes nothing.
masked-full :
    (p : Prefix) → p.addr.bit_len ≡ 32 → p.bits ≡ 32 → (masked p).addr.value ≡ p.addr.value
unfolding masked
masked-full p f b = rw (f, b) (omega arith)

mask_ip-masked :
    (n : ℕ) (p : Prefix)
    → unmap (ip16 n) ≡ p.addr
    → p.addr.bit_len ≡ 32
    → mask_ip n (record { ones = p.bits; bits = 32 }) ≡ (masked p).addr
unfolding mask_ip
mask_ip-masked n p e f = rw (e, f) refl

four-unmap : (q : Addr) → q.bit_len ≡ 32 → unmap q ≡ q
unfolding unmap
four-unmap q f = ground arith

whole :
    (p : Prefix) (v : ℕ)
    → v ≡ p.addr.value
    → p.bits ≡ 32
    → ◌≡◌ {A = Result PrefixError Key}
        (ok (record { prefixlen = p.bits; addr = reverse_bytes v }))
        (ok (record { prefixlen = 32; addr = reverse_bytes p.addr.value }))
whole p v e b = rw (e, b) refl

-- A text that spells a prefix has the key of its network.
parse_prefix_spelled :
    (net : Net) (text : String) (p : Prefix)
    → Spells net text p
    → parse_prefix net text ≡ ok (key_for p)
unfolding parse_prefix parse_cidr_text parse_bare masked
parse_prefix_spelled net text p s = elim s.read [
  | inl (n, slash, parsed, addr, bits) ↦
      rw (s.not_empty, slash, parsed, parse_bare)
        (four (ip16 n) p.addr 32 addr s.family (omega arith)
          ∙ sym (whole p (masked p).addr.value (masked-full p s.family bits) bits))
  | inr (n, slash, parsed, addr) ↦
      rw (s.not_empty, slash, parsed, parse_cidr_text, mask_ip-masked n p addr s.family)
        (four (masked p).addr (masked p).addr p.bits (four-unmap (masked p).addr s.family) s.family
          s.fits)
]

masked-lt : (p : Prefix) → p.addr.value < 2 ^ 32 → (masked p).addr.value < 2 ^ 32
unfolding masked
masked-lt p h = omega arith

key_for-injective :
    (p q : Prefix)
    → p.addr.bit_len ≡ 32
    → q.addr.bit_len ≡ 32
    → p.addr.value < 2 ^ 32
    → q.addr.value < 2 ^ 32
    → key_for p ≡ key_for q
    → masked p ≡ masked q
unfolding masked
key_for-injective p q f g h k e =
    let b : p.bits ≡ q.bits = ap (λ (x : Key). x.prefixlen) e in
    let r : reverse_bytes (masked p).addr.value ≡ reverse_bytes (masked q).addr.value =
      ap (λ (x : Key). x.addr) e in
    let v : (masked p).addr.value ≡ (masked q).addr.value =
      sym (reverse_bytes_twice (masked p).addr.value (masked-lt p h))
      ∙ ap reverse_bytes r
      ∙ reverse_bytes_twice (masked q).addr.value (masked-lt q k) in
    cc (f, g, b, v)

-- The text is given a key with the prefix's number of bits, whose address reads back as the network
-- address.
abbrev pub Keyed : Net → String → Prefix → Type 0
Keyed net text p =
    (k : Key) × (parse_prefix net text ≡ ok k)
    × (k.prefixlen ≡ p.bits)
    × (bpf_network_order_to_ipv4 k.addr ≡ (masked p).addr)

parse_prefix-Keyed : (net : Net) (text : String) (p : Prefix) → Spells net text p → Keyed net text p
unfolding bpf_network_order_to_ipv4 masked
parse_prefix-Keyed net text p s = (
  key_for p,
  parse_prefix_spelled net text p s,
  refl,
  cc (s.family, reverse_bytes_twice (masked p).addr.value (masked-lt p s.bounded)),
)

-- A text that is an IPv4 address or an IPv4 CIDR is given the key of its network: the number of bits,
-- and the network address in the byte order of the map. Two such texts are given one key exactly if
-- their prefixes are one network.
pub parse_prefix_lem :
    (net : Net) (a b : String) (p q : Prefix)
    → Spells net a p
    → Spells net b q
    → Keyed net a p × ((parse_prefix net a ≡ parse_prefix net b) ↔ (masked p ≡ masked q))
unfolding masked
parse_prefix_lem net a b p q s t =
    let keys = parse_prefix_spelled net a p s in
    let keys' = parse_prefix_spelled net b q t in
    (
      parse_prefix-Keyed net a p s,
      (
        λ e.
            key_for-injective p q s.family t.family s.bounded t.bounded
              (ok-injective (sym keys ∙ e ∙ keys')),
        λ e.
            keys
            ∙ ap
                (λ (m : Prefix).
                  ok (record { prefixlen = m.bits; addr = reverse_bytes m.addr.value }))
                e
            ∙ sym keys',
      ),
    )
