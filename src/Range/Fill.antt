-- ===== src/Range/Fill.antt =====
-- The loop of `LastAddr`, which sets the host bits byte by byte, against numbers.
use native.Mathlib.Numerals.{towards_suc}
use native.Mathlib.Nat.{pow-suc}
use juneau.Prelude.{
  ℕ, zero, suc, ◌+◌, ◌-◌, ◌*◌, ◌%◌, ◌^◌, ◌≤◌, ◌<◌, bit_or, min, ◌≡◌, refl, Bool, true, not, ◌&&◌,
  ◌||◌, List, [], ◌∷◌, take, All, length, ◌==◌, arith, dec_lt,
}
use juneau.Range.{from_bytes, fill}

-- Every value below a bound passes a test.
every : ℕ → (ℕ → Bool) → Bool
every zero test = true
every (suc bound) test = every bound test && test bound

every_lem :
    (bound : ℕ) (test : ℕ → Bool) (k : ℕ) → every bound test ≡ true → k < bound → test k ≡ true
unfolding every
every_lem (suc bound) test k e l = ground (arith, every_lem bound test k)
every_lem zero test k e l = absurd (omega arith)

mask_table :
    every 9 (λ f. every 256 (λ b. not (b % 2 ^ f == 0) || bit_or b (2 ^ f - 1) == b + (2 ^ f - 1)))
    ≡ true
unfolding every
mask_table = refl

-- Setting the low `f` bits of a byte in which they are clear adds 2 ^ f - 1.
bit_or_mask : (f b : ℕ) → f < 9 → b < 256 → b % 2 ^ f ≡ 0 → bit_or b (2 ^ f - 1) ≡ b + (2 ^ f - 1)
bit_or_mask f b hf hb h = ground (
  arith,
  every_lem 256 (λ b. not (b % 2 ^ f == 0) || bit_or b (2 ^ f - 1) == b + (2 ^ f - 1)) b
      (every_lem 9
        (λ f. every 256 (λ b. not (b % 2 ^ f == 0) || bit_or b (2 ^ f - 1) == b + (2 ^ f - 1))) f
        mask_table hf)
      hb,
)

pub take-fill : (k host : ℕ) (bs : List ℕ) → take k (fill host bs) ≡ fill host (take k bs)
unfolding fill
take-fill zero host [] = refl
take-fill zero host (b ∷ bs) = refl
take-fill (suc k) host [] = refl
take-fill (suc k) host (b ∷ bs) = ground (arith, take-fill k (host - min host 8) bs)

abbrev pub IsBytes : List ℕ → Type 0
IsBytes = All (λ b. b < 256)

-- 2 ^ host out of the first byte.
pow_split : (k : ℕ) → 2 ^ (k + 8) ≡ 256 * 2 ^ k
pow_split k = simp towards_suc (omega arith)

low_clear : (f b v q : ℕ) → f < 9 → b + 256 * v ≡ q * 2 ^ f → b % 2 ^ f ≡ 0
low_clear zero b v q h e = omega arith
low_clear (suc zero) b v q h e = omega arith
low_clear (suc (suc zero)) b v q h e = omega arith
low_clear (suc (suc (suc zero))) b v q h e = omega arith
low_clear (suc (suc (suc (suc zero)))) b v q h e = omega arith
low_clear (suc (suc (suc (suc (suc zero))))) b v q h e = omega arith
low_clear (suc (suc (suc (suc (suc (suc zero)))))) b v q h e = omega arith
low_clear (suc (suc (suc (suc (suc (suc (suc zero))))))) b v q h e = omega arith
low_clear (suc (suc (suc (suc (suc (suc (suc (suc zero)))))))) b v q h e = omega arith
low_clear (suc (suc (suc (suc (suc (suc (suc (suc (suc f))))))))) b v q h e = absurd (omega arith)

fill-zero : (bs : List ℕ) → fill 0 bs ≡ bs
unfolding fill
fill-zero [] = refl
fill-zero (b ∷ bs) = refl

fill_last :
    (host b : ℕ) (bs : List ℕ)
    → 0 < host
    → host < 9
    → fill host (b ∷ bs) ≡ bit_or b (2 ^ host - 1) ∷ bs
unfolding fill
fill_last host b bs h k =
    let e : min host 8 ≡ host = omega arith in
    let z : host - host ≡ 0 = omega arith in rw (e, z, fill-zero bs) (ground arith)

fill_more : (k b : ℕ) (bs : List ℕ) → fill (k + 8) (b ∷ bs) ≡ bit_or b 255 ∷ fill k bs
unfolding fill
fill_more k b bs =
    let e : min (k + 8) 8 ≡ 8 = omega arith in
    let z : k + 8 - 8 ≡ k = omega arith in rw (e, z) (ground arith)

pub pow2_pos : (n : ℕ) → 0 < 2 ^ n
pow2_pos zero = omega arith
pow2_pos (suc n) = omega (arith, pow2_pos n, pow-suc 2 n)

-- A round that sets a whole byte, from what the rounds after it do.
fill_round :
    (k q b : ℕ) (bs : List ℕ)
    → b < 256
    → b + 256 * from_bytes bs ≡ q * 2 ^ (k + 8)
    → (from_bytes bs ≡ q * 2 ^ k → from_bytes (fill k bs) + 1 ≡ from_bytes bs + 2 ^ k)
    → from_bytes (fill (k + 8) (b ∷ bs)) + 1 ≡ from_bytes (b ∷ bs) + 2 ^ (k + 8)
unfolding from_bytes
fill_round k q b bs h e rest =
    let e' : b + 256 * from_bytes bs ≡ q * (256 * 2 ^ k) = rw (← pow_split k) e in
    let z : b ≡ 0 = omega arith in
    let r : from_bytes (fill k bs) + 1 ≡ from_bytes bs + 2 ^ k = rest (omega arith) in
    rw (fill_more k b bs, pow_split k, z) (omega arith)

-- The loop adds 2 ^ host - 1 to a number whose low `host` bits are clear.
pub from_bytes-fill :
    (host q : ℕ) (bs : List ℕ)
    → IsBytes bs
    → host ≤ 8 * length bs
    → from_bytes bs ≡ q * 2 ^ host
    → from_bytes (fill host bs) + 1 ≡ from_bytes bs + 2 ^ host
unfolding from_bytes
from_bytes-fill zero q bs v h e = rw (fill-zero bs) (omega arith)
from_bytes-fill (suc n) q [] v h e = absurd (omega arith)
from_bytes-fill (suc n) q (b ∷ bs) v h e = elim (dec_lt (suc n) 9) [
  | yes p ↦ rw (fill_last (suc n) b bs (omega arith) p) (
      rw (bit_or_mask (suc n) b p v.0 (low_clear (suc n) b (from_bytes bs) q p e))
        (omega (arith, pow2_pos (suc n))))
  | no p ↦
      let k = n - 7 in
      let s : suc n ≡ k + 8 = omega arith in
      let r = from_bytes-fill k q bs v.1 (omega arith) in
      rw s (fill_round k q b bs v.0 (rw (← s) e) r)
]
