-- ===== src/Bmp/Reasons.antt =====
-- The texts for a peer that went down: bgp-speaker/internal/bmp/tracker.go.
use Prim.Native.String.{String, ◌++◌ as str_append}
use juneau.Prelude.{ℕ, Option, none, some, ◌==◌, if◌then◌else◌}

-- GoBGP's constants, and `fmt.Sprintf("%d", n)`.
pub record Codes : Type 0 where
  pub local_bgp_notification : ℕ
  pub local_no_notification : ℕ
  pub remote_bgp_notification : ℕ
  pub remote_no_notification : ℕ
  pub peer_de_configured : ℕ
  pub message_header_error : ℕ
  pub open_message_error : ℕ
  pub update_message_error : ℕ
  pub hold_timer_expired : ℕ
  pub fsm_error : ℕ
  pub cease : ℕ
  pub route_refresh_message_error : ℕ
  pub sub_maximum_number_of_prefixes_reached : ℕ
  pub sub_administrative_shutdown : ℕ
  pub sub_peer_deconfigured : ℕ
  pub sub_administrative_reset : ℕ
  pub sub_connection_rejected : ℕ
  pub sub_other_configuration_change : ℕ
  pub sub_connection_collision_resolution : ℕ
  pub sub_out_of_resources : ℕ
  pub sub_hard_reset : ℕ
  pub decimal : ℕ → String

-- `gobmp.BMPPeerDownNotification`: `notification` is `none` when there is no BGP message or its body
-- is no notification, and otherwise the code and the subcode.
pub record PeerDown : Type 0 where
  pub reason : ℕ
  pub notification : Option (ℕ × ℕ)

unfoldable pub bmp_reason_text : Codes → ℕ → String
bmp_reason_text c reason =
    if reason == c.local_bgp_notification
    then "local-system-notification"
    else (if reason == c.local_no_notification
        then "local-system-no-notification"
        else (if reason == c.remote_bgp_notification
            then "remote-system-notification"
            else (if reason == c.remote_no_notification
                then "remote-system-no-notification"
                else (if reason == c.peer_de_configured
                    then "peer-deconfigured"
                    else str_append "reason-" (c.decimal reason)))))

unfoldable pub bgp_error_code_text : Codes → ℕ → String
bgp_error_code_text c code =
    if code == c.message_header_error
    then "message-header-error"
    else (if code == c.open_message_error
        then "open-message-error"
        else (if code == c.update_message_error
            then "update-message-error"
            else (if code == c.hold_timer_expired
                then "hold-timer-expired"
                else (if code == c.fsm_error
                    then "fsm-error"
                    else (if code == c.cease
                        then "cease"
                        else (if code == c.route_refresh_message_error
                            then "route-refresh-message-error"
                            else str_append "code-" (c.decimal code)))))))

cease_subcode_text : Codes → ℕ → String
cease_subcode_text c sub =
    if sub == c.sub_maximum_number_of_prefixes_reached
    then "max-prefixes-reached"
    else (if sub == c.sub_administrative_shutdown
        then "administrative-shutdown"
        else (if sub == c.sub_peer_deconfigured
            then "peer-deconfigured"
            else (if sub == c.sub_administrative_reset
                then "administrative-reset"
                else (if sub == c.sub_connection_rejected
                    then "connection-rejected"
                    else (if sub == c.sub_other_configuration_change
                        then "other-configuration-change"
                        else (if sub == c.sub_connection_collision_resolution
                            then "connection-collision-resolution"
                            else (if sub == c.sub_out_of_resources
                                then "out-of-resources"
                                else (if sub == c.sub_hard_reset
                                    then "hard-reset"
                                    else str_append "cease-subcode-" (c.decimal sub)))))))))

unfoldable pub bgp_error_subcode_text : Codes → ℕ → ℕ → String
unfolding cease_subcode_text
bgp_error_subcode_text c code sub =
    if code == c.cease then cease_subcode_text c sub else str_append "subcode-" (c.decimal sub)

unfoldable pub format_peer_down : Codes → PeerDown → String
unfolding bmp_reason_text bgp_error_code_text bgp_error_subcode_text
format_peer_down c body =
    let reason = bmp_reason_text c body.reason in
    elim body.notification [
      | none ↦ reason
      | some (code, sub) ↦ str_append reason (
          str_append ": " (
            str_append (bgp_error_code_text c code)
              (str_append "/" (bgp_error_subcode_text c code sub))))
    ]
