-- ===== src/Range/Parse.antt =====
-- Ranges that users write as "<start>-<end>": controller/internal/addressrange/parse.go. What
-- `strings.Split` at the separator, `strings.TrimSpace` and `netip.ParseAddr` make of a text are
-- parameters.
use Prim.Native.String.{String}
use juneau.Prelude.{
  ◌≤◌, ◌≡◌, not, Option, none, some, List, [], ◌∷◌, if◌then◌else◌, Result, ok, err, ◌>>=◌,
  >>=-eq-ok, arith,
}
use juneau.Range.{Addr, before, is4, unmap}

pub data ParseError : Type 0 where
  malformed not_ipv4 reversed : ParseError

only_ipv4 : Addr → Result ParseError Addr
only_ipv4 addr = if not (is4 addr) then err not_ipv4 else ok addr

in_order : Addr → Addr → Result ParseError (Addr × Addr)
in_order start end = if before end start then err reversed else ok (start, end)

module _ (split : String → List String) (trim_space : String → String)
    (parse_addr : String → Option Addr) where
  unmapped : Option Addr → Result ParseError Addr
  unfolding only_ipv4
  unmapped none = err not_ipv4
  unmapped (some addr) = only_ipv4 (unmap addr)

  unfoldable pub parse_ipv4 : String → Result ParseError Addr
  unfolding unmapped
  parse_ipv4 raw = unmapped (parse_addr (trim_space raw))

  bounds : List String → Result ParseError (Addr × Addr)
  unfolding in_order
  bounds (first ∷ second ∷ []) = do
    start ← parse_ipv4 first
    end ← parse_ipv4 second
    in_order start end
  bounds [] = err malformed
  bounds (first ∷ []) = err malformed
  bounds (first ∷ second ∷ third ∷ rest) = err malformed

  unfoldable pub parse_ipv4_range : String → Result ParseError (Addr × Addr)
  unfolding bounds
  parse_ipv4_range raw = bounds (split raw)

  parse_ipv4-is4 : (raw : String) (addr : Addr) → parse_ipv4 raw ≡ ok addr → addr.bit_len ≡ 32
  unfolding parse_ipv4 only_ipv4
  parse_ipv4-is4 raw addr e = ground arith

  in_order_lem :
      (start end a b : Addr)
      → start.bit_len ≡ 32
      → end.bit_len ≡ 32
      → in_order start end ≡ ok (a, b)
      → (a.bit_len ≡ 32) × (b.bit_len ≡ 32) × (a.value ≤ b.value)
  unfolding in_order
  in_order_lem start end a b p q e = ground arith

  bounds_lem :
      (parts : List String) (start end : Addr)
      → bounds parts ≡ ok (start, end)
      → (start.bit_len ≡ 32) × (end.bit_len ≡ 32) × (start.value ≤ end.value)
  unfolding bounds
  bounds_lem [] start end e = absurd (cc e)
  bounds_lem (a ∷ []) start end e = absurd (cc e)
  bounds_lem (a ∷ b ∷ c ∷ parts) start end e = absurd (cc e)
  bounds_lem (a ∷ b ∷ []) start end e =
      let (x, p, q) = >>=-eq-ok (parse_ipv4 a) (λ x. parse_ipv4 b >>= λ y. in_order x y) e in
      let (y, r, t) = >>=-eq-ok (parse_ipv4 b) (λ y. in_order x y) q in
      in_order_lem x y start end (parse_ipv4-is4 a x p) (parse_ipv4-is4 b y r) t

  -- A text that parses as a range gives two IPv4 addresses in order.
  pub parse_ipv4_range_lem :
      (raw : String) (start end : Addr)
      → parse_ipv4_range raw ≡ ok (start, end)
      → (start.bit_len ≡ 32) × (end.bit_len ≡ 32) × (start.value ≤ end.value)
  unfolding parse_ipv4_range
  parse_ipv4_range_lem raw start end e = bounds_lem (split raw) start end e
