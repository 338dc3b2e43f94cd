-- ===== src/Trace/Tests.antt =====
-- Inputs at which the theorems on tracing apply.
use juneau.Prelude.{
  ℕ, zero, suc, ◌<◌, ap, if_pos, ite, dec_lt, All, false, ◌≡◌, ◌≢◌, ◌%◌, ◌^◌, refl, arith, true,
  false, none, some, List, [], ◌∷◌, length, get_elem?, ℕ_discrete, ok, err,
}
use juneau.Prelude.Dict.{lookup, insert, erase}
use juneau.Prelude.Once.{tidy}
use juneau.Prelude.Int.{pos}
use juneau.Trace.{event_bytes, Ipv4, TupleKey, Event, dir_request}
use juneau.Trace.Codec.Layout.{event_in, decode_event-layout}
use juneau.Trace.Codec.{short_read, little, marshal_binary, decode_event}
use juneau.Trace.Codec.Keys.{Fits, marshal_binary-injective}
use juneau.Trace.Bus.{Subscription, new_bus, new_subscription}
use juneau.Trace.Bus.Run.{Action, subscribing, publishing, run, publish, close, is_unlocked}
use juneau.Trace.Bus.Deliver.{delivered, publish_delivers, close_closes}
use juneau.Trace.Bus.Safe.{run-Safe, new_bus-Safe, run_safe}
use juneau.Trace.Bus.Sound.{Sound}
use juneau.Trace.Maps.{bytes_discrete}
use juneau.Trace.Memory.{Memory, memory_maps, memory_maps-MapsLaws}
use juneau.Trace.Store.{
  ltb_ℤ, Store, SessionSpec, Clock, apply, delete, sessions_with, tuple_set, tuple_key_discrete,
}
use juneau.Trace.Store.Deleted.{unless_owned, delete-clears}
use juneau.Trace.Store.Learn.{gc, has_expired}
use juneau.Trace.Store.Collected.{gc-collects}
use juneau.Trace.Store.Learned.{delete_twice}
use juneau.Trace.Store.Programmed.{apply-programs, apply_others}

abbrev ip : ℕ → Ipv4
ip host = record { b0 = 10; b1 = 0; b2 = 0; b3 = host }

abbrev key : ℕ → TupleKey
key port = record {
  scope = 1;
  protocol = 6;
  vpc_id = 7;
  src_ip = ip 1;
  dst_ip = ip 2;
  src_port = port;
  dst_port = 80;
}

key-Fits : (port : ℕ) → port < 65536 → Fits (key port)
key-Fits port h = record {
  scope_fits = omega arith;
  vpc_id_fits = omega arith;
  src_port_fits = omega (arith, h);
  dst_port_fits = omega arith;
}

-- A translated request: the pair after the translation is 10.0.0.3 to 10.0.0.2.
abbrev nat_event : Event
nat_event = record {
  trace_id = 9;
  reason = 403;
  hook = 1;
  ifindex = 2;
  vpc_id = 7;
  subnet_id = 0;
  at = pos 1;
  protocol = 6;
  verdict = 0;
  scope = 1;
  direction = dir_request;
  src_ip = 10 ∷ 0 ∷ 0 ∷ 1 ∷ [];
  dst_ip = 10 ∷ 0 ∷ 0 ∷ 2 ∷ [];
  src_port = 5;
  dst_port = 80;
  has_aux = true;
  aux_src = 10 ∷ 0 ∷ 0 ∷ 3 ∷ [];
  aux_dst = 10 ∷ 0 ∷ 0 ∷ 2 ∷ [];
  aux_srcp = 6;
  aux_dstp = 80;
  aux1 = 0;
  aux2 = 0;
  received_at = pos 1;
}

-- One subscriber of the trace 9 with room for one event, and one of all traces.
abbrev two_subscribers : List Action
two_subscribers = subscribing (9 ∷ []) (pos 1) ∷ subscribing [] (pos 0) ∷ []

run_safe_example :
    ((run (publishing nat_event ∷ two_subscribers) new_bus).panicked ≡ false)
    × All Sound (run (publishing nat_event ∷ two_subscribers) new_bus).subscribers
run_safe_example = run_safe (publishing nat_event ∷ two_subscribers)

publish_delivers_example :
    get_elem? (publish nat_event (run two_subscribers new_bus)).subscribers 0
    ≡ some (delivered nat_event (new_subscription (9 ∷ []) (pos 1)))
unfolding run new_bus is_unlocked new_subscription
publish_delivers_example =
    publish_delivers nat_event (run two_subscribers new_bus) 0 (new_subscription (9 ∷ []) (pos 1))
      (run-Safe two_subscribers new_bus new_bus-Safe) refl refl

close_closes_example :
    ((t : Subscription) × (get_elem? (close 1 (run two_subscribers new_bus)).subscribers 1 ≡ some t)
      × (t.ch.is_closed ≡ true)
      × (t.attached ≡ false))
    × (close 1 (close 1 (run two_subscribers new_bus)) ≡ close 1 (run two_subscribers new_bus))
unfolding run new_bus is_unlocked new_subscription
close_closes_example =
    close_closes 1 (run two_subscribers new_bus) (new_subscription [] (pos 0))
      (run-Safe two_subscribers new_bus new_bus-Safe) refl refl refl

abbrev spec : ℕ → SessionSpec
spec id = record {
  trace_id = id;
  generation = pos 1;
  expires_at = none;
  capture_flags = 1;
  level = 0;
  mode = 0;
  tuples = (key 5, dir_request) ∷ [];
}

abbrev clock : Clock
clock = record { mono_now_ns = pos 100; until = λ at. pos 0 }

-- The session 3 owns another tuple.
abbrev busy : Store Memory
busy = record {
  kernel = record {
    active = 1;
    config = [];
    tuples = (marshal_binary little (key 6), record { trace_id = 3; direction = 1 }) ∷ [];
  };
  sessions = (3, record { expires_at = none; tuples = (key 6, 1) ∷ []; generation = pos 1 }) ∷ [];
}

busy_has :
    memory_maps.tuple_of busy.kernel (marshal_binary little (key 6))
    ≡ some (record { trace_id = 3; direction = 1 })
unfolding lookup
busy_has = if_pos (bytes_discrete (marshal_binary little (key 6)) _) refl _ _

spec_has : lookup tuple_key_discrete (key 5) (tuple_set (spec 9).tuples) ≡ some dir_request
unfolding lookup tuple_set insert
spec_has = if_pos (tuple_key_discrete (key 5) (key 5)) refl _ _

apply-programs_example :
    (memory_maps.tuple_of
        (apply memory_maps little clock (spec 9) busy).0.kernel
        (marshal_binary little (key 5))
      ≡ some (record { trace_id = 9; direction = 1 }))
    × (memory_maps.active_of (apply memory_maps little clock (spec 9) busy).0.kernel
        ≡ length (sessions_with (spec 9) busy.sessions) % 2 ^ 32)
    × ((apply memory_maps little clock (spec 9) busy).0.sessions
        ≡ sessions_with (spec 9) busy.sessions)
unfolding apply lookup insert ℕ_discrete
apply-programs_example =
    apply-programs memory_maps memory_maps-MapsLaws little clock (spec 9) busy (key 5) dir_request
      (key-Fits 5 (omega arith)) (key-Fits 5 (omega arith), tt) spec_has refl refl

other_key : marshal_binary little (key 5) ≢ marshal_binary little (key 6)
other_key p = omega (
  arith,
  ap (λ (k : TupleKey). k.src_port)
      (marshal_binary-injective little (key 5) (key 6) (key-Fits 5 (omega arith))
        (key-Fits 6 (omega arith)) p),
)

apply_others_example :
    memory_maps.tuple_of
      (apply memory_maps little clock (spec 9) busy).0.kernel
      (marshal_binary little (key 6))
    ≡ some (record { trace_id = 3; direction = 1 })
apply_others_example =
    apply_others memory_maps memory_maps-MapsLaws little clock (spec 9) busy
      (marshal_binary little (key 6)) (record { trace_id = 3; direction = 1 }) (omega arith)
      (other_key, tt) busy_has

delete-clears_example :
    (memory_maps.tuple_of
        (delete memory_maps little 3 busy).0.kernel
        (marshal_binary little (key 6))
      ≡ unless_owned 3 (memory_maps.tuple_of busy.kernel (marshal_binary little (key 6))))
    × (memory_maps.active_of (delete memory_maps little 3 busy).0.kernel
        ≡ length (erase ℕ_discrete 3 busy.sessions) % 2 ^ 32)
    × ((delete memory_maps little 3 busy).0.sessions ≡ erase ℕ_discrete 3 busy.sessions)
unfolding delete lookup ℕ_discrete tidy insert
delete-clears_example =
    delete-clears memory_maps memory_maps-MapsLaws little 3 busy
      (record { expires_at = none; tuples = (key 6, 1) ∷ []; generation = pos 1 })
      (marshal_binary little (key 6)) refl refl

delete_twice_example :
    delete memory_maps little 3 (delete memory_maps little 3 busy).0
    ≡ ((delete memory_maps little 3 busy).0, none)
delete_twice_example = delete_twice memory_maps little 3 busy

-- The session 3 again, with an expiry.
abbrev expiring : Store Memory
expiring = record {
  kernel = busy.kernel;
  sessions =
      (3, record { expires_at = some (pos 50); tuples = (key 6, 1) ∷ []; generation = pos 1 }) ∷ [];
}

gc-collects_example :
    lookup ℕ_discrete 3 (gc memory_maps little (pos 60) expiring).0.sessions ≡ none
unfolding gc has_expired lookup ℕ_discrete delete tidy insert ltb_ℤ
gc-collects_example =
    gc-collects memory_maps little (pos 60) expiring 3
      (record { expires_at = some (pos 50); tuples = (key 6, 1) ∷ []; generation = pos 1 }) refl
      refl refl

-- A record of 68 bytes: the trace 9, a request, a port 80, and the rest zero.
abbrev zeros_before : ℕ → List ℕ → List ℕ
zeros_before zero bytes = bytes
zeros_before (suc n) bytes = 0 ∷ zeros_before n bytes

abbrev record_bytes : List ℕ
record_bytes = 9 ∷ zeros_before 42 (80 ∷ zeros_before 3 (1 ∷ zeros_before 20 []))

decode_event-layout_example :
    decode_event little (pos 0) record_bytes
    ≡ ite
        (dec_lt (length record_bytes) event_bytes)
        (err short_read)
        (ok (event_in little (pos 0) record_bytes))
decode_event-layout_example = decode_event-layout little (pos 0) record_bytes
