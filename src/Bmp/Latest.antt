-- ===== src/Bmp/Latest.antt =====
-- Histories of the tracker: bgp-speaker/internal/bmp/tracker.go.
use Prim.Native.String.{String}
use juneau.Prelude.{◌≡◌, refl, ap, ◌∙◌, ite, Option, none, some, List, [], ◌∷◌}
use juneau.Prelude.Dict.{lookup, lookup-insert}
use juneau.Prelude.Text.{string_discrete}
use juneau.Prelude.Int.{ℤ}
use juneau.Bmp.{
  Tracker, SessionState, up, down, Message, peer_up, peer_down, other_message, new_tracker,
  handle_message, on_connect, on_disconnect, on_peer_up, on_peer_down,
}
use juneau.Bmp.Reasons.{Codes, format_peer_down}

-- A call on the tracker, a message with the time at which it is handled.
pub data Event : Type 0 where
  connecting disconnecting : Event
  handling : ℤ → Option Message → Event

unfoldable pub handle : Codes → Event → Tracker → Tracker
handle codes connecting t = on_connect t
handle codes disconnecting t = on_disconnect t
handle codes (handling now msg) t = handle_message codes now msg t

-- The tracker after a history, whose last event stands first.
unfoldable pub after : Codes → List Event → Tracker
unfolding handle
after codes [] = new_tracker
after codes (ev ∷ older) = handle codes ev (after codes older)

-- The last that the history says of a peer since the connection came up.
unfoldable pub latest : Codes → String → List Event → Option SessionState
latest codes addr [] = none
latest codes addr (disconnecting ∷ older) = none
latest codes addr (connecting ∷ older) = latest codes addr older
latest codes addr (handling now none ∷ older) = latest codes addr older
latest codes addr (handling now (some (other_message ph)) ∷ older) = latest codes addr older
latest codes addr (handling now (some (peer_up ph)) ∷ older) =
    ite (string_discrete ph.peer_address addr)
      (some (record {
        peer_address = ph.peer_address;
        peer_as = ph.peer_as;
        state = up;
        up_since = some now;
        last_error = "";
      }))
      (latest codes addr older)
latest codes addr (handling now (some (peer_down ph body)) ∷ older) =
    ite (string_discrete ph.peer_address addr)
      (some (record {
        peer_address = ph.peer_address;
        peer_as = ph.peer_as;
        state = down;
        up_since = none;
        last_error = format_peer_down codes body;
      }))
      (latest codes addr older)

-- After any sequence of calls, the tracker holds of each peer what its last up or down message since
-- the last disconnection said, and nothing of a peer that sent none; what came before, an earlier
-- error included, does not count.
pub lookup-after :
    (codes : Codes) (addr : String) (evs : List Event)
    → lookup string_discrete addr (after codes evs).sessions ≡ latest codes addr evs
unfolding after latest handle handle_message on_connect on_disconnect new_tracker on_peer_up
    on_peer_down lookup
lookup-after codes addr [] = refl
lookup-after codes addr (disconnecting ∷ older) = refl
lookup-after codes addr (connecting ∷ older) = lookup-after codes addr older
lookup-after codes addr (handling now none ∷ older) = lookup-after codes addr older
lookup-after codes addr (handling now (some (other_message ph)) ∷ older) =
    lookup-after codes addr older
lookup-after codes addr (handling now (some (peer_up ph)) ∷ older) =
    lookup-insert string_discrete addr ph.peer_address _ (after codes older).sessions
    ∙ ap (ite (string_discrete ph.peer_address addr) _) (lookup-after codes addr older)
lookup-after codes addr (handling now (some (peer_down ph body)) ∷ older) =
    lookup-insert string_discrete addr ph.peer_address _ (after codes older).sessions
    ∙ ap (ite (string_discrete ph.peer_address addr) _) (lookup-after codes addr older)
