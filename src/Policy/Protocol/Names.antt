-- ===== src/Policy/Protocol/Names.antt =====
-- Protocols by keyword and by number.
use Prim.Native.String.{String}
use text.Mathlib.Text.{◌==◌ as str_eq}
use text.Mathlib.TextPositions.{eq_refl}
use juneau.Prelude.{
  ℕ, sym, ap, subst, Bool-cases, ◌≤◌, ◌≡◌, ◌⊎◌, inl, inr, refl, false, Option, none, some, List, [],
  ◌∷◌, ◌==◌, ok, arith,
}
use juneau.Prelude.Int.{pos, negsuc}
use juneau.Policy.Protocol.{
  ip_protocol_any, IntOrString, int, str, unsupported, resolve_ip_protocol, resolve_number,
  or_not_keyword, by_keyword, by_number, format_ip_protocol, or_decimal, ip_protocol_keywords,
}

-- A protocol that resolves is at most 255 or the wildcard 0xffff.
pub resolve_ip_protocol-bound :
    (protocol : Option IntOrString) (proto : ℕ)
    → resolve_ip_protocol protocol ≡ ok proto
    → (proto ≤ 255) ⊎ (proto ≡ ip_protocol_any)
unfolding resolve_ip_protocol resolve_number or_not_keyword by_keyword
resolve_ip_protocol-bound none proto e = absurd (cc e)
resolve_ip_protocol-bound (some (int (pos n))) proto e = ground arith
resolve_ip_protocol-bound (some (int (negsuc n))) proto e = absurd (cc e)
resolve_ip_protocol-bound (some (str name)) proto e = ground arith
resolve_ip_protocol-bound (some unsupported) proto e = absurd (cc e)

-- A keyword that does not stand in the table.
Absent : String → List (String × ℕ) → Type 0
Absent name [] = Unit
Absent name ((keyword, number) ∷ rest) = (str_eq name keyword ≡ false) × Absent name rest

-- Every keyword of the table stands in it once.
Distinct : List (String × ℕ) → Type 0
Distinct [] = Unit
Distinct ((keyword, number) ∷ rest) = Absent keyword rest × Distinct rest

Absent-other :
    (table : List (String × ℕ)) (proto : ℕ) (keyword name : String)
    → Absent keyword table
    → by_number proto table ≡ some name
    → str_eq keyword name ≡ false
unfolding Absent by_number
Absent-other [] proto keyword name a e = absurd (cc e)
Absent-other ((k, number) ∷ rest) proto keyword name a e = elim (Bool-cases (number == proto)) [
  | inl p ↦
      let q : k ≡ name = ground (arith, rw p at e) in subst (λ x. str_eq keyword x ≡ false) q a.0
  | inr n ↦ Absent-other rest proto keyword name a.1 (rw n at e)
]

by_keyword-by_number :
    (table : List (String × ℕ)) (proto : ℕ) (name : String)
    → Distinct table
    → by_number proto table ≡ some name
    → by_keyword name table ≡ some proto
unfolding Distinct by_keyword by_number
by_keyword-by_number [] proto name d e = absurd (cc e)
by_keyword-by_number ((keyword, number) ∷ rest) proto name d e =
    elim (Bool-cases (number == proto)) [
      | inl p ↦
          let q : keyword ≡ name = ground (arith, rw p at e) in
          let r : number ≡ proto = ground arith in rw (sym q, eq_refl keyword) (ap some r)
      | inr n ↦
          let f : by_number proto rest ≡ some name = rw n at e in
          rw (Absent-other rest proto keyword name d.0 f)
            (by_keyword-by_number rest proto name d.1 f)
    ]

distinct : Distinct ip_protocol_keywords
unfolding Distinct Absent
distinct = ground arith

-- A protocol that has a keyword is formatted as that keyword, and the keyword resolves to the
-- protocol again.
pub resolve_ip_protocol-format :
    (decimal : ℕ → String) (proto : ℕ) (name : String)
    → by_number proto ip_protocol_keywords ≡ some name
    → (format_ip_protocol decimal proto ≡ name)
      × (resolve_ip_protocol (some (str (format_ip_protocol decimal proto))) ≡ ok proto)
unfolding resolve_ip_protocol or_not_keyword by_keyword by_number format_ip_protocol or_decimal
resolve_ip_protocol-format decimal proto name e =
    let p = by_keyword-by_number ip_protocol_keywords proto name distinct e in
    (rw e refl, rw (e, p) refl)
