-- ===== src/Bmp.antt =====
-- The BMP session tracker of the BGP speaker: bgp-speaker/internal/bmp/tracker.go and types.go. The
-- messages are GoBGP's, and so are the codes in them. A method holds the lock from start to end.
pub mod Reasons
pub mod Latest
mod Tests
use Prim.Native.String.{String, compare}
use Prim.Native.Nat.{Ordering}
use juneau.Prelude.{ℕ, Bool, true, false, Option, none, some, List, [], ◌∷◌, map, if◌then◌else◌}
use juneau.Prelude.Dict.{Dict, lookup, insert}
use juneau.Prelude.Text.{string_discrete}
use juneau.Prelude.Int.{ℤ}
use juneau.Bmp.Reasons.{Codes, PeerDown, format_peer_down}

pub data State : Type 0 where
  unknown up down : State

-- `SessionState`: the zero time is `none`.
pub record SessionState : Type 0 where
  pub peer_address : String
  pub peer_as : ℕ
  pub state : State
  pub up_since : Option ℤ
  pub last_error : String

pub record Tracker : Type 0 where
  pub sessions : Dict String SessionState
  pub connected : Bool

-- `gobmp.BMPPeerHeader`, with its address as a text.
pub record PeerHeader : Type 0 where
  pub peer_address : String
  pub peer_as : ℕ

-- `gobmp.BMPMessage`: the two bodies that the tracker reads, and any other.
pub data Message : Type 0 where
  peer_up : PeerHeader → Message
  peer_down : PeerHeader → PeerDown → Message
  other_message : PeerHeader → Message

unfoldable pub new_tracker : Tracker
new_tracker = record { sessions = []; connected = false }

up_state : ℤ → PeerHeader → SessionState
up_state now ph = record {
  peer_address = ph.peer_address;
  peer_as = ph.peer_as;
  state = up;
  up_since = some now;
  last_error = "";
}

on_peer_up : ℤ → PeerHeader → Tracker → Tracker
unfolding up_state
on_peer_up now ph t = record t {
  sessions = insert string_discrete ph.peer_address (up_state now ph) t.sessions;
}

-- A missing key gives the zero value.
prev_state : Option SessionState → SessionState
prev_state none = record {
  peer_address = "";
  peer_as = 0;
  state = unknown;
  up_since = none;
  last_error = "";
}
prev_state (some s) = s

on_peer_down : Codes → PeerHeader → PeerDown → Tracker → Tracker
unfolding prev_state
on_peer_down codes ph body t =
    let prev = prev_state (lookup string_discrete ph.peer_address t.sessions) in
    record t {
      sessions =
          insert string_discrete ph.peer_address
            (record prev {
              peer_address = ph.peer_address;
              peer_as = ph.peer_as;
              state = down;
              up_since = none;
              last_error = format_peer_down codes body;
            })
            t.sessions;
    }

-- `nil` is `none`; `now` is the reading of the clock.
unfoldable pub handle_message : Codes → ℤ → Option Message → Tracker → Tracker
unfolding on_peer_up on_peer_down
handle_message codes now none t = t
handle_message codes now (some (peer_up ph)) t = on_peer_up now ph t
handle_message codes now (some (peer_down ph body)) t = on_peer_down codes ph body t
handle_message codes now (some (other_message ph)) t = t

unfoldable pub on_connect : Tracker → Tracker
on_connect t = record t { connected = true }

unfoldable pub on_disconnect : Tracker → Tracker
on_disconnect t = record { sessions = []; connected = false }

is_connected : Tracker → Bool
is_connected t = t.connected

-- `sort.Slice` by the address.
insert_sorted : SessionState → List SessionState → List SessionState
insert_sorted s [] = s ∷ []
insert_sorted s (t ∷ rest) = elim (compare t.peer_address s.peer_address) [
  | Ordering.lt ↦ t ∷ insert_sorted s rest
  | _ ↦ s ∷ t ∷ rest
]

sort_sessions : List SessionState → List SessionState
unfolding insert_sorted
sort_sessions [] = []
sort_sessions (s ∷ rest) = insert_sorted s (sort_sessions rest)

unfoldable pub snapshot : Tracker → List SessionState
unfolding sort_sessions
snapshot t = sort_sessions (map (λ entry. entry.1) t.sessions)
