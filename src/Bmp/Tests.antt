-- ===== src/Bmp/Tests.antt =====
-- An input at which the theorem on the tracker applies.
use juneau.Prelude.{◌≡◌, some, List, [], ◌∷◌}
use juneau.Prelude.Dict.{lookup}
use juneau.Prelude.Text.{string_discrete}
use juneau.Prelude.Int.{pos}
use juneau.Bmp.{peer_up, peer_down, PeerHeader}
use juneau.Bmp.Reasons.{Codes}
use juneau.Bmp.Latest.{Event, connecting, handling, after, latest, lookup-after}

-- Codes of RFC 7854 and RFC 4271.
abbrev codes : Codes
codes = record {
  local_bgp_notification = 1;
  local_no_notification = 2;
  remote_bgp_notification = 3;
  remote_no_notification = 4;
  peer_de_configured = 5;
  message_header_error = 1;
  open_message_error = 2;
  update_message_error = 3;
  hold_timer_expired = 4;
  fsm_error = 5;
  cease = 6;
  route_refresh_message_error = 7;
  sub_maximum_number_of_prefixes_reached = 1;
  sub_administrative_shutdown = 2;
  sub_peer_deconfigured = 3;
  sub_administrative_reset = 4;
  sub_connection_rejected = 5;
  sub_other_configuration_change = 6;
  sub_connection_collision_resolution = 7;
  sub_out_of_resources = 8;
  sub_hard_reset = 9;
  decimal = λ n. "n";
}

abbrev peer : PeerHeader
peer = record { peer_address = "10.0.0.1"; peer_as = 65001 }

-- The peer came up and then went down with a notification of the other side.
abbrev history : List Event
history =
    handling (pos 2) (some (peer_down peer (record { reason = 3; notification = some (6, 2) })))
    ∷ handling (pos 1) (some (peer_up peer))
    ∷ connecting
    ∷ []

lookup-after_example :
    lookup string_discrete "10.0.0.1" (after codes history).sessions
    ≡ latest codes "10.0.0.1" history
lookup-after_example = lookup-after codes "10.0.0.1" history
