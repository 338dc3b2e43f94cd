-- ===== src/Owned/Prefix/Tests.antt =====
-- Texts at which the theorems on prefixes apply, and a CIDR that is not one of IPv4.
use text.Mathlib.Text.{◌==◌ as str_eq}
use juneau.Prelude.{ℕ, ◌+◌, ◌*◌, ◌^◌, ◌≡◌, ◌↔◌, refl, inr, not, some, ok, arith, if◌then◌else◌}
use juneau.Range.{Prefix, masked, unmap}
use juneau.Owned.Prefix.{
  Net, parse_prefix, parse_cidr_text, mask_ip, key_of, to4, ipv4_to_bpf_network_order,
  reverse_bytes,
}
use juneau.Owned.Prefix.Spelling.{Spells, Keyed, parse_prefix_lem}

-- The texts 10.0.0.5, 10.0.0.7/24 and 10.0.0.9/24; an address has sixteen bytes.
abbrev some_texts : Net
some_texts = record {
  trim_space = λ s. s;
  has_slash = λ s. not (str_eq s "10.0.0.5");
  parse_ip = λ s. some (0xffff * 2 ^ 32 + 0x0a000005);
  parse_cidr = λ s. some (
    0xffff * 2 ^ 32 + (if str_eq s "10.0.0.7/24" then 0x0a000007 else 0x0a000009),
    record { ones = 24; bits = 32 },
  );
}

abbrev slash24 : ℕ → Prefix
slash24 n = record { addr = record { bit_len = 32; value = n }; bits = 24 }

seven-Spells : Spells some_texts "10.0.0.7/24" (slash24 0x0a000007)
unfolding unmap
seven-Spells = record {
  not_empty = refl;
  family = refl;
  bounded = omega arith;
  fits = omega arith;
  read = inr (0xffff0a000007, refl, refl, refl);
}

nine-Spells : Spells some_texts "10.0.0.9/24" (slash24 0x0a000009)
unfolding unmap
nine-Spells = record {
  not_empty = refl;
  family = refl;
  bounded = omega arith;
  fits = omega arith;
  read = inr (0xffff0a000009, refl, refl, refl);
}

parse_prefix_lem_example :
    Keyed some_texts "10.0.0.7/24" (slash24 0x0a000007)
    × ((parse_prefix some_texts "10.0.0.7/24" ≡ parse_prefix some_texts "10.0.0.9/24")
        ↔ (masked (slash24 0x0a000007) ≡ masked (slash24 0x0a000009)))
parse_prefix_lem_example =
    parse_prefix_lem some_texts "10.0.0.7/24" "10.0.0.9/24" (slash24 0x0a000007)
      (slash24 0x0a000009) seven-Spells nine-Spells

-- ::ffff:10.0.0.0/104 has a mask of 128 bits.
abbrev mapped_text : Net
mapped_text = record some_texts {
  parse_cidr = λ s. some (0xffff0a000000, record { ones = 104; bits = 128 });
}

mapped_run :
    parse_prefix mapped_text "::ffff:10.0.0.0/104" ≡ ok (record { prefixlen = 104; addr = 10 })
unfolding parse_prefix parse_cidr_text mask_ip key_of to4 unmap masked ipv4_to_bpf_network_order
    reverse_bytes
mapped_run = refl
