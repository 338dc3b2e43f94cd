-- ===== src/Policy/Protocol/Tests.antt =====
-- Inputs at which the theorems on protocols apply.
use juneau.Prelude.{◌≡◌, refl, some, ok}
use juneau.Policy.Protocol.{str, resolve_ip_protocol, by_number, format_ip_protocol}
use juneau.Policy.Protocol.Names.{resolve_ip_protocol-format}

resolve_ip_protocol-format_example :
    (format_ip_protocol (λ n. "") 17 ≡ "udp")
    × (resolve_ip_protocol (some (str (format_ip_protocol (λ n. "") 17))) ≡ ok 17)
unfolding by_number
resolve_ip_protocol-format_example = resolve_ip_protocol-format (λ n. "") 17 "udp" refl
