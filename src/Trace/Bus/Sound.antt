-- ===== src/Trace/Bus/Sound.antt =====
-- The stages and the events of one subscription: daemon/internal/daemon/dataplane/trace/bus.go.
use juneau.Prelude.{
  ℕ, ◌+◌, ◌≤◌, ◌≡◌, ◌≢◌, ◌⊎◌, inl, inr, refl, arith, Bool, true, false, some, Option-cases, List,
  [], ◌∷◌, ◌++◌, length, All, All-append, length-append,
}
use juneau.Prelude.Int.{ℤ}
use juneau.Trace.{Event}
use juneau.Trace.Bus.{
  Subscription, Channel, quiet, panic, new_subscription, wants, pick, serve, offer, serve_nth,
  announce, receive, close_swap, detach, shut,
}

unfoldable pub bit : Bool → ℕ
bit true = 1
bit false = 0

-- A subscription passes once through the stages of `Close`: attached, between detaching and closing
-- its channel, closed. Events wait only for a subscription that is attached.
pub record Staged (s : Subscription) : Type 0 where
  pub fits : length s.ch.buffer ≤ s.ch.capacity
  pub one_closer : s.detaching + s.shutting + bit s.ch.is_closed ≡ bit s.closed
  pub one_stage : bit s.attached + s.shutting + bit s.ch.is_closed ≡ 1
  pub served : (s.serving ≡ []) ⊎ (s.attached ≡ true)

-- The subscriber asked for every event that it has taken or will take.
pub record Wanted (s : Subscription) : Type 0 where
  pub buffered : All (λ ev. wants s.trace_ids ev ≡ true) s.ch.buffer
  pub taken : All (λ ev. wants s.trace_ids ev ≡ true) s.ch.taken

unfoldable pub Sound : Subscription → Type 0
Sound s = Staged s × Wanted s

-- The step leaves the ids and the events of the channel alone.
SameEvents : Subscription → Subscription → Type 0
SameEvents s s' =
    (s'.trace_ids ≡ s.trace_ids) × (s'.ch.buffer ≡ s.ch.buffer) × (s'.ch.taken ≡ s.ch.taken)

List-cases :
    (evs : List Event) → (evs ≡ []) ⊎ ((ev : Event) × (rest : List Event) × (evs ≡ ev ∷ rest))
List-cases [] = inl refl
List-cases (ev ∷ rest) = inr (ev, rest, refl)

SameEvents-Wanted : (s s' : Subscription) → SameEvents s s' → Wanted s → Wanted s'
unfolding SameEvents
SameEvents-Wanted s s' (p, q, r) w = record {
  buffered = rw (p, q) w.buffered;
  taken = rw (p, r) w.taken;
}

new_subscription-Staged : (ids : List ℕ) (size : ℤ) → Staged (new_subscription ids size)
unfolding new_subscription bit
new_subscription-Staged ids size = ground arith

announce-Staged : (ev : Event) (s : Subscription) → Staged s → Staged (announce ev s)
unfolding announce bit
announce-Staged ev s h = ground (arith, h)

close_swap-Staged : (s : Subscription) → Staged s → Staged (close_swap s)
unfolding close_swap bit
close_swap-Staged s h = ground (arith, h)

detach-Staged : (s : Subscription) → Staged s → s.serving ≡ [] → Staged (detach s)
unfolding detach bit
detach-Staged s h p = ground (arith, h)

shut-Staged : (s : Subscription) → Staged s → Staged (shut s).0 × ((shut s).1 ≢ panic)
unfolding shut bit
shut-Staged s h = ground (arith, h)

receive-Staged : (s : Subscription) → Staged s → Staged (receive s)
unfolding receive bit
receive-Staged s h = ground (arith, h)

pick-some : (i : ℕ) (evs rest : List Event) (ev : Event) → pick i evs ≡ some (ev, rest) → evs ≢ []
unfolding pick
pick-some i evs rest ev p = ground arith

offer_lem :
    (ev : Event) (c : Channel)
    → length c.buffer ≤ c.capacity
    → c.is_closed ≡ false
    → ((offer ev c).1 ≢ panic)
      × ((offer ev c).0.is_closed ≡ false)
      × (length (offer ev c).0.buffer ≤ (offer ev c).0.capacity)
unfolding offer
offer_lem ev c h p = ground (arith, h, length-append c.buffer (ev ∷ []))

serve-Staged :
    (ev : Event) (s : Subscription)
    → Staged s
    → s.attached ≡ true
    → Staged (serve ev s).0 × ((serve ev s).1 ≢ panic)
unfolding serve bit
serve-Staged ev s h p = ground (arith, h, p, offer_lem ev s.ch)

-- A publisher reaches a subscription, or has no event for it.
serve_nth-cases :
    (i : ℕ) (s : Subscription)
    → (serve_nth i s ≡ (s, quiet))
      ⊎ ((ev : Event) × (rest : List Event) × (s.serving ≢ [])
          × (serve_nth i s ≡ serve ev (record s { serving = rest })))
unfolding serve_nth
serve_nth-cases i s = elim (Option-cases (pick i s.serving)) [
  | inl p ↦ inl (rw (p, serve_nth) refl)
  | inr ((ev, rest), p) ↦ inr (ev, rest, pick-some i s.serving rest ev p, rw (p, serve_nth) refl)
]

serving-Staged :
    (s : Subscription) (rest : List Event)
    → Staged s
    → s.serving ≢ []
    → Staged (record s { serving = rest }) × (s.attached ≡ true)
serving-Staged s rest h p = ground (arith, h, p)

serve_nth-Staged :
    (i : ℕ) (s : Subscription) → Staged s → Staged (serve_nth i s).0 × ((serve_nth i s).1 ≢ panic)
serve_nth-Staged i s h = elim (serve_nth-cases i s) [
  | inl p ↦ rw p (h, λ q. cc q)
  | inr (ev, rest, p, q) ↦
      let (h', attached) = serving-Staged s rest h p in
      rw q (serve-Staged ev (record s { serving = rest }) h' attached)
]

announce_same : (ev : Event) (s : Subscription) → SameEvents s (announce ev s)
unfolding announce SameEvents
announce_same ev s = ground arith

close_swap_same : (s : Subscription) → SameEvents s (close_swap s)
unfolding close_swap SameEvents
close_swap_same s = ground arith

detach_same : (s : Subscription) → SameEvents s (detach s)
unfolding detach SameEvents
detach_same s = ground arith

shut_same : (s : Subscription) → SameEvents s (shut s).0
unfolding shut SameEvents
shut_same s = ground arith

-- The first event waits in the buffer, and receiving moves it.
receive-moves :
    (s : Subscription) (ev : Event) (rest : List Event)
    → s.ch.buffer ≡ ev ∷ rest
    → ((receive s).trace_ids ≡ s.trace_ids)
      × ((receive s).ch.buffer ≡ rest)
      × ((receive s).ch.taken ≡ s.ch.taken ++ ev ∷ [])
unfolding receive
receive-moves s ev rest p = ground (arith, p)

receive_empty : (s : Subscription) → s.ch.buffer ≡ [] → receive s ≡ s
unfolding receive
receive_empty s p = ground (arith, p)

receive-Wanted : (s : Subscription) → Wanted s → Wanted (receive s)
receive-Wanted s w = elim (List-cases s.ch.buffer) [
  | inl p ↦ rw (receive_empty s p) w
  | inr (ev, rest, p) ↦
      let (same, buffer, taken) = receive-moves s ev rest p in
      let both = rw p at w.buffered in
      record {
        buffered = rw (same, buffer) both.1;
        taken = rw (same, taken) (All-append _ s.ch.taken (ev ∷ []) w.taken (both.0, tt));
      }
]

-- Serving adds an event that is wanted to the buffer, or leaves the events alone.
serve-cases :
    (ev : Event) (s : Subscription)
    → SameEvents s (serve ev s).0
      ⊎ ((wants s.trace_ids ev ≡ true)
          × ((serve ev s).0.trace_ids ≡ s.trace_ids)
          × ((serve ev s).0.ch.buffer ≡ s.ch.buffer ++ ev ∷ [])
          × ((serve ev s).0.ch.taken ≡ s.ch.taken))
unfolding serve offer SameEvents
serve-cases ev s = ground arith

serve-Wanted : (ev : Event) (s : Subscription) → Wanted s → Wanted (serve ev s).0
serve-Wanted ev s w = elim (serve-cases ev s) [
  | inl same ↦ SameEvents-Wanted s (serve ev s).0 same w
  | inr (wanted, same, buffer, taken) ↦ record {
    buffered = rw (same, buffer) (All-append _ s.ch.buffer (ev ∷ []) w.buffered (wanted, tt));
    taken = rw (same, taken) w.taken;
  }
]

serve_nth-Wanted : (i : ℕ) (s : Subscription) → Wanted s → Wanted (serve_nth i s).0
serve_nth-Wanted i s w = elim (serve_nth-cases i s) [
  | inl p ↦ rw p w
  | inr (ev, rest, p, q) ↦ rw q (
      serve-Wanted ev (record s { serving = rest })
        (record { buffered = w.buffered; taken = w.taken }))
]

pub new_subscription-Sound : (ids : List ℕ) (size : ℤ) → Sound (new_subscription ids size)
unfolding Sound new_subscription
new_subscription-Sound ids size =
    (new_subscription-Staged ids size, record { buffered = tt; taken = tt })

pub announce-Sound : (ev : Event) (s : Subscription) → Sound s → Sound (announce ev s)
unfolding Sound
announce-Sound ev s (h, w) = (announce-Staged ev s h, SameEvents-Wanted s _ (announce_same ev s) w)

pub close_swap-Sound : (s : Subscription) → Sound s → Sound (close_swap s)
unfolding Sound
close_swap-Sound s (h, w) = (close_swap-Staged s h, SameEvents-Wanted s _ (close_swap_same s) w)

pub detach-Sound : (s : Subscription) → Sound s → s.serving ≡ [] → Sound (detach s)
unfolding Sound
detach-Sound s (h, w) p = (detach-Staged s h p, SameEvents-Wanted s _ (detach_same s) w)

pub receive-Sound : (s : Subscription) → Sound s → Sound (receive s)
unfolding Sound
receive-Sound s (h, w) = (receive-Staged s h, receive-Wanted s w)

pub shut-Sound : (s : Subscription) → Sound s → Sound (shut s).0 × ((shut s).1 ≢ panic)
unfolding Sound
shut-Sound s (h, w) =
    let (h', calm) = shut-Staged s h in ((h', SameEvents-Wanted s _ (shut_same s) w), calm)

pub serve_nth-Sound :
    (i : ℕ) (s : Subscription) → Sound s → Sound (serve_nth i s).0 × ((serve_nth i s).1 ≢ panic)
unfolding Sound
serve_nth-Sound i s (h, w) =
    let (h', calm) = serve_nth-Staged i s h in ((h', serve_nth-Wanted i s w), calm)
