-- ===== src/Policy/Protocol.antt =====
-- IP protocols as users write them: controller/api/v1alpha1/protocol.go.
pub mod Names
mod Tests
use Prim.Native.String.{String}
use text.Mathlib.Text.{◌==◌ as str_eq}
use juneau.Prelude.{
  ℕ, Bool, true, false, ◌||◌, Option, none, some, List, [], ◌∷◌, ltb, ◌==◌, if◌then◌else◌, Result,
  ok, err,
}
use juneau.Prelude.Int.{ℤ, pos, negsuc}

abbrev pub ip_protocol_any : ℕ
ip_protocol_any = 0xffff

abbrev pub ip_protocol_max_number : ℕ
ip_protocol_max_number = 255

-- `intstr.IntOrString`; `unsupported` is any other value of its type field.
pub data IntOrString : Type 0 where
  int : ℤ → IntOrString
  str : String → IntOrString
  unsupported : IntOrString

pub data ProtocolError : Type 0 where
  not_set out_of_range not_keyword unsupported_type : ProtocolError

abbrev pub ip_protocol_keywords : List (String × ℕ)
ip_protocol_keywords =
    ("icmp", 1)
    ∷ ("tcp", 6)
    ∷ ("udp", 17)
    ∷ ("gre", 47)
    ∷ ("esp", 50)
    ∷ ("ah", 51)
    ∷ ("sctp", 132)
    ∷ ("all", ip_protocol_any)
    ∷ []

-- The lookups in `ipProtocolByKeyword` and `ipProtocolNames`; no keyword stands twice in the table.
pub by_keyword : String → List (String × ℕ) → Option ℕ
by_keyword name [] = none
by_keyword name ((keyword, proto) ∷ rest) =
    if str_eq keyword name then some proto else by_keyword name rest

pub by_number : ℕ → List (String × ℕ) → Option String
by_number proto [] = none
by_number proto ((keyword, number) ∷ rest) =
    if number == proto then some keyword else by_number proto rest

or_not_keyword : Option ℕ → Result ProtocolError ℕ
or_not_keyword (some proto) = ok proto
or_not_keyword none = err not_keyword

resolve_number : ℤ → Result ProtocolError ℕ
resolve_number (pos number) =
    if ltb ip_protocol_max_number number then err out_of_range else ok number
resolve_number (negsuc n) = err out_of_range

unfoldable pub resolve_ip_protocol : Option IntOrString → Result ProtocolError ℕ
unfolding or_not_keyword resolve_number
resolve_ip_protocol none = err not_set
resolve_ip_protocol (some (int number)) = resolve_number number
resolve_ip_protocol (some (str name)) = or_not_keyword (by_keyword name ip_protocol_keywords)
resolve_ip_protocol (some unsupported) = err unsupported_type

pub ip_protocol_has_ports : ℕ → Bool
ip_protocol_has_ports proto = proto == 6 || proto == 17

or_decimal : (ℕ → String) → ℕ → Option String → String
or_decimal decimal proto (some name) = name
or_decimal decimal proto none = decimal proto

-- `decimal` is `strconv.FormatUint` at base 10.
pub format_ip_protocol : (ℕ → String) → ℕ → String
unfolding or_decimal
format_ip_protocol decimal proto = or_decimal decimal proto (by_number proto ip_protocol_keywords)
