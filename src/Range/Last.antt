-- ===== src/Range/Last.antt =====
-- The last address of a prefix, and what lies between the two ends.
use native.Mathlib.Nat.{
  mul-le-mul_left, mul-le-mul_right, add-zero, add-suc, pow-suc, lt-div-mul-add, div-eq_of_lt-le,
  mul-div_cancel,
}
use juneau.Prelude.{
  ℕ, zero, suc, ◌+◌, ◌-◌, ◌*◌, ◌/◌, ◌^◌, ◌≤◌, ◌<◌, ◌≡◌, refl, sym, ap, ◌∙◌, ◌↔◌, true, List, [],
  ◌∷◌, take, length, arith, dec_lt,
}
use juneau.Range.Fill.{IsBytes, take-fill, from_bytes-fill, pow2_pos}
use juneau.Range.{
  Addr, Prefix, IsPrefix, masked, host_bits, last_addr, bytes, from_bytes, fill, as16,
  prefix_contains, prefix_range,
}

bytes-IsBytes : (k n : ℕ) → IsBytes (bytes k n)
unfolding bytes
bytes-IsBytes zero n = tt
bytes-IsBytes (suc k) n = (omega arith, bytes-IsBytes k (n / 256))

length-bytes : (k n : ℕ) → length (bytes k n) ≡ k
unfolding bytes
length-bytes zero n = refl
length-bytes (suc k) n = omega (arith, length-bytes k (n / 256))

from_bytes-bytes : (k n : ℕ) → n < 256 ^ k → from_bytes (bytes k n) ≡ n
unfolding bytes from_bytes
from_bytes-bytes zero n h = omega arith
from_bytes-bytes (suc k) n h =
    let p = pow-suc 256 k in omega (arith, p, from_bytes-bytes k (n / 256) (omega (arith, p)))

take-IsBytes : (k : ℕ) (bs : List ℕ) → IsBytes bs → IsBytes (take k bs)
take-IsBytes zero bs v = tt
take-IsBytes (suc k) [] v = tt
take-IsBytes (suc k) (b ∷ bs) v = (v.0, take-IsBytes k bs v.1)

from_bytes-take4 : (n : ℕ) → n < 2 ^ 32 → from_bytes (take 4 (bytes 16 (0xffff * 2 ^ 32 + n))) ≡ n
unfolding bytes from_bytes
from_bytes-take4 n h = omega arith

masked_le : (p : Prefix) → (masked p).addr.value ≤ p.addr.value
unfolding masked
masked_le p = omega arith

length-take4 : (n : ℕ) → length (take 4 (bytes 16 n)) ≡ 4
unfolding bytes
length-take4 n = refl

last4 :
    (h m q : ℕ)
    → h ≤ 32
    → m < 2 ^ 32
    → m ≡ q * 2 ^ h
    → from_bytes (take 4 (fill h (bytes 16 (0xffff * 2 ^ 32 + m)))) + 1 ≡ m + 2 ^ h
last4 h m q hh hm e =
    let n = 0xffff * 2 ^ 32 + m in
    let c : from_bytes (take 4 (bytes 16 n)) ≡ m = from_bytes-take4 m hm in
    rw (take-fill 4 h (bytes 16 n)) (
      from_bytes-fill h q (take 4 (bytes 16 n)) (take-IsBytes 4 (bytes 16 n) (bytes-IsBytes 16 n))
        (omega (arith, length-take4 n)) (c ∙ e)
      ∙ ap (λ (t : ℕ). t + 2 ^ h) c)

last16 :
    (h m q : ℕ)
    → h ≤ 128
    → m < 2 ^ 128
    → m ≡ q * 2 ^ h
    → from_bytes (fill h (bytes 16 m)) + 1 ≡ m + 2 ^ h
last16 h m q hh hm e =
    let c : from_bytes (bytes 16 m) ≡ m = from_bytes-bytes 16 m hm in
    from_bytes-fill h q (bytes 16 m) (bytes-IsBytes 16 m) (omega (arith, length-bytes 16 m)) (c ∙ e)
    ∙ ap (λ (t : ℕ). t + 2 ^ h) c

-- The last address of a prefix that parses has its family, and is its network address plus 2 ^ host
-- bits - 1.
pub last_addr_lem :
    (p : Prefix)
    → IsPrefix p
    → (last_addr p).bit_len ≡ p.addr.bit_len
      × ((last_addr p).value + 1 ≡ (masked p).addr.value + 2 ^ host_bits p)
unfolding last_addr as16 masked
last_addr_lem p v =
    let h = host_bits p in
    let q = p.addr.value / 2 ^ h in
    ground (arith, masked_le p, last4 h (q * 2 ^ h) q, last16 h (q * 2 ^ h) q)

block : (d a n : ℕ) → 0 < d → (a / d ≡ n / d) ↔ ((n / d * d ≤ a) × (a + 1 ≤ n / d * d + d))
block d a n h = (
  λ e. rw (← e) (omega (arith, lt-div-mul-add {a = a} {b = d} h)),
  λ e. div-eq_of_lt-le d e.0 (omega arith),
)

-- Masking twice is masking once.
pub masked-masked : (p : Prefix) → masked (masked p) ≡ masked p
unfolding masked
masked-masked p = rw (mul-div_cancel (p.addr.value / 2 ^ host_bits p) (pow2_pos (host_bits p)))

pub masked-IsPrefix : (p : Prefix) → IsPrefix p → IsPrefix (masked p)
unfolding masked
masked-IsPrefix p v = record { family = v.family; bounded = omega arith; fits = v.fits }

pub bits-masked : (p : Prefix) → (masked p).bits ≡ p.bits
unfolding masked
bits-masked p = refl

pub bit_len-masked : (p : Prefix) → (masked p).addr.bit_len ≡ p.addr.bit_len
unfolding masked
bit_len-masked p = refl

pub last_addr-masked : (p : Prefix) → last_addr (masked p) ≡ last_addr p
unfolding last_addr
last_addr-masked p = rw (masked-masked p, bits-masked p)

-- A prefix that parses contains an address of its family exactly if the address lies between the
-- two ends of its range.
pub prefix_range_iff :
    (p : Prefix) (a : Addr)
    → IsPrefix p
    → a.bit_len ≡ p.addr.bit_len
    → (prefix_contains p a ≡ true)
      ↔ (((prefix_range p).start.value ≤ a.value) × (a.value ≤ (prefix_range p).end.value))
unfolding prefix_contains prefix_range masked
prefix_range_iff p a v f = ground (
  arith,
  last_addr-masked p,
  last_addr_lem p v,
  block (2 ^ host_bits p) a.value p.addr.value (pow2_pos (host_bits p)),
)

pow_add : (h k : ℕ) → 2 ^ (h + k) ≡ 2 ^ h * 2 ^ k
pow_add h zero = rw add-zero (omega arith)
pow_add h (suc k) = rw (add-suc, pow-suc 2 (h + k), pow-suc 2 k, pow_add h k) (omega arith)

mul_gap : (q d m : ℕ) → q * d < d * m → q * d + d ≤ d * m
mul_gap q d m b = elim (dec_lt q m) [
  | yes l ↦ let e : suc q * d ≤ m * d = mul-le-mul_right d l in omega arith
  | no n ↦ let e : m * d ≤ q * d = mul-le-mul_right d (omega arith) in absurd (omega arith)
]

block_bound : (q h k n : ℕ) → h + k ≡ n → q * 2 ^ h < 2 ^ n → q * 2 ^ h + 2 ^ h ≤ 2 ^ n
block_bound q h k n e b =
    let e' : 2 ^ n ≡ 2 ^ h * 2 ^ k = ap (λ (t : ℕ). 2 ^ t) (sym e) ∙ pow_add h k in
    rw e' (mul_gap q (2 ^ h) (2 ^ k) (rw (← e') b))

pub masked_bound :
    (p : Prefix) → IsPrefix p → (masked p).addr.value + 2 ^ host_bits p ≤ 2 ^ p.addr.bit_len
unfolding masked
masked_bound p v =
    let h = host_bits p in
    block_bound (p.addr.value / 2 ^ h) h p.bits p.addr.bit_len (omega (arith, v.fits))
      (omega (arith, masked_le p, v.bounded))

pub pow2_mono : (k n : ℕ) → k ≤ n → 2 ^ k ≤ 2 ^ n
pow2_mono k n h =
    let e : k + (n - k) ≡ n = omega arith in
    let e' : 2 ^ n ≡ 2 ^ k * 2 ^ (n - k) = ap (λ (t : ℕ). 2 ^ t) (sym e) ∙ pow_add k (n - k) in
    rw e' (
      let m : 2 ^ k * 1 ≤ 2 ^ k * 2 ^ (n - k) = mul-le-mul_left (2 ^ k) (pow2_pos (n - k)) in
      omega arith)
