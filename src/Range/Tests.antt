-- ===== src/Range/Tests.antt =====
-- The addresses of a prefix that is not a whole number of bytes long.
use juneau.Prelude.{ℕ, ◌≡◌, refl}
use juneau.Range.{Addr, Prefix, prefix_range, last_addr, first_addr, masked, from_bytes, fill, as16}

abbrev v4 : ℕ → Addr
v4 n = record { bit_len = 32; value = n }

-- 10.0.0.5/30
abbrev subnet : Prefix
subnet = record { addr = v4 0x0a000005; bits = 30 }

prefix_range_run : prefix_range subnet ≡ record { start = v4 0x0a000004; end = v4 0x0a000007 }
unfolding prefix_range last_addr first_addr masked from_bytes fill as16
prefix_range_run = refl
