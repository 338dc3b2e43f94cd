-- ===== src/Trace/Bus.antt =====
-- The event bus: daemon/internal/daemon/dataplane/trace/bus.go. Its goroutines interleave in atomic
-- steps: a publisher counts the event and takes the read lock, serves its subscribers one by one in
-- any order, and gives the lock back with the last; a closer swaps the flag, detaches under the
-- write lock, and then closes the channel.
pub mod Deliver
mod Nth
pub mod Run
pub mod Safe
pub mod Sound
use juneau.Prelude.{
  ℕ, zero, suc, ◌+◌, ◌-◌, ◌%◌, ◌^◌, Bool, true, false, not, ◌||◌, ◌&&◌, Option, none, some, List,
  [], ◌∷◌, ◌++◌, any, length, get_elem?, map, ltb, leb, ◌==◌, if◌then◌else◌,
}
use juneau.Prelude.Int.{ℤ, pos, negsuc}
use juneau.Trace.{Event}

-- A Go channel with its buffer, and what the receiver has taken from it, the last at the end.
pub record Channel : Type 0 where
  pub capacity : ℕ
  pub buffer : List Event
  pub is_closed : Bool
  pub taken : List Event

-- `subscription` as an object: the empty list of ids is the nil map. `attached` says that it is a
-- key of the bus's `subscribers`; `serving` has the events that publishers under the read lock
-- have yet to bring to it, and the two counts are of the goroutines that are inside `Close`, before
-- the detaching and before the closing of the channel.
pub record Subscription : Type 0 where
  pub trace_ids : List ℕ
  pub ch : Channel
  pub closed : Bool
  pub attached : Bool
  pub serving : List Event
  pub detaching : ℕ
  pub shutting : ℕ

-- `Bus`, with the objects that `Subscribe` made, and whether a goroutine has panicked.
pub record Bus : Type 0 where
  pub subscribers : List Subscription
  pub published_cnt : ℕ
  pub drop_cnt : ℕ
  pub panicked : Bool

unfoldable pub new_bus : Bus
new_bus = record { subscribers = []; published_cnt = 0; drop_cnt = 0; panicked = false }

-- The events published and the drops.
stats : Bus → ℕ × ℕ
stats b = (b.published_cnt, b.drop_cnt)

unfoldable pub buffer_size : ℤ → ℕ
buffer_size (negsuc n) = 256
buffer_size (pos zero) = 256
buffer_size (pos (suc n)) = suc n

unfoldable pub id_set : List ℕ → List ℕ
id_set [] = []
id_set (id ∷ ids) = if any (λ other. id == other) ids then id_set ids else id ∷ id_set ids

unfoldable pub new_subscription : List ℕ → ℤ → Subscription
unfolding id_set buffer_size
new_subscription ids size = record {
  trace_ids = id_set ids;
  ch = record { capacity = buffer_size size; buffer = []; is_closed = false; taken = [] };
  closed = false;
  attached = true;
  serving = [];
  detaching = 0;
  shutting = 0;
}

-- What one step does to the bus's counters.
pub data Outcome : Type 0 where
  quiet dropped panic : Outcome

-- `len(sub.traceIDs) > 0` and the id is missing: the event is passed over.
unfoldable pub wants : List ℕ → Event → Bool
wants [] ev = true
wants (id ∷ ids) ev = any (λ other. other == ev.trace_id) (id ∷ ids)

-- The select with the send and the default. A send on a closed channel panics.
unfoldable pub offer : Event → Channel → Channel × Outcome
offer ev c =
    if c.is_closed
    then (c, panic)
    else (if ltb (length c.buffer) c.capacity
        then (record c { buffer = c.buffer ++ ev ∷ [] }, quiet)
        else (c, dropped))

unfoldable pub serve : Event → Subscription → Subscription × Outcome
unfolding wants offer
serve ev s =
    let (ch, out) = offer ev s.ch in
    if wants s.trace_ids ev then (record s { ch = ch }, out) else (s, quiet)

-- The i-th event of a list, and the list without it.
unfoldable pub pick : ℕ → List Event → Option (Event × List Event)
pick i [] = none
pick zero (ev ∷ rest) = some (ev, rest)
pick (suc i) (ev ∷ rest) = elim (pick i rest) [
  | none ↦ none
  | some (found, others) ↦ some (found, ev ∷ others)
]

-- The loop of `Publish` reaches this subscription with one of the events that wait for it.
unfoldable pub serve_nth : ℕ → Subscription → Subscription × Outcome
unfolding serve pick
serve_nth i s = elim (pick i s.serving) [
  | none ↦ (s, quiet)
  | some (ev, rest) ↦ serve ev (record s { serving = rest })
]

-- A publisher that has the read lock finds the subscription among the subscribers.
unfoldable pub announce : Event → Subscription → Subscription
announce ev s = if s.attached then record s { serving = s.serving ++ ev ∷ [] } else s

unfoldable pub receive : Subscription → Subscription
receive s = elim s.ch.buffer [
  | [] ↦ s
  | ev ∷ rest ↦
      let ch = s.ch in record s { ch = record ch { buffer = rest; taken = ch.taken ++ ev ∷ [] } }
]

-- `s.sub.closed.Swap(true)`
unfoldable pub close_swap : Subscription → Subscription
close_swap s = if s.closed then s else record s { closed = true; detaching = suc s.detaching }

unfoldable pub detach : Subscription → Subscription
detach s = elim s.detaching [
  | zero ↦ s
  | suc n ↦ record s { attached = false; detaching = n; shutting = suc s.shutting }
]

-- `close(s.sub.ch)`: closing a closed channel panics.
unfoldable pub shut : Subscription → Subscription × Outcome
shut s = elim s.shutting [
  | zero ↦ (s, quiet)
  | suc n ↦
      let ch = s.ch in
      if ch.is_closed
      then (record s { shutting = n }, panic)
      else (record s { shutting = n; ch = record ch { is_closed = true } }, quiet)
]
