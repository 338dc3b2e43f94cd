-- ===== src/Trace/Bus/Safe.antt =====
-- Runs of the bus from its start: daemon/internal/daemon/dataplane/trace/bus.go.
use juneau.Prelude.{
  ℕ, zero, suc, ◌≡◌, ◌≢◌, refl, arith, true, false, List, [], ◌∷◌, All, All-append, map, inl, inr,
  Bool-cases,
}
use juneau.Trace.{Event}
use juneau.Trace.Bus.{
  Bus, Subscription, Outcome, quiet, dropped, panic, new_subscription, new_bus, serve_nth, announce,
  receive, close_swap, detach, shut,
}
use juneau.Trace.Bus.Run.{
  Action, subscribing, publishing, serving, receiving, swapping, detaching, shutting, step, run,
  update_nth, is_unlocked, silently, on_nth, count_outcome,
}
use juneau.Trace.Bus.Sound.{
  Sound, new_subscription-Sound, announce-Sound, close_swap-Sound, detach-Sound, receive-Sound,
  shut-Sound, serve_nth-Sound,
}

Unserved : Subscription → Type 0
Unserved s = Sound s × (s.serving ≡ [])

Unserved-Sound : (s : Subscription) → Unserved s → Sound s
unfolding Unserved
Unserved-Sound s q = q.0

detach-Unserved : (s : Subscription) → Unserved s → Sound (detach s)
unfolding Unserved
detach-Unserved s (h, p) = detach-Sound s h p

-- No goroutine has panicked, and every subscription is sound.
pub record Safe (b : Bus) : Type 0 where
  pub calm : b.panicked ≡ false
  pub sound : All Sound b.subscribers

Keeps : (Subscription → Type 0) → (Subscription → Subscription × Outcome) → Type 0
Keeps Q f = (s : Subscription) → Q s → Sound (f s).0 × ((f s).1 ≢ panic)

count_outcome-Safe : (out : Outcome) (b : Bus) → out ≢ panic → Safe b → Safe (count_outcome out b)
unfolding count_outcome
count_outcome-Safe quiet b n h = h
count_outcome-Safe dropped b n h = record { calm = h.calm; sound = h.sound }
count_outcome-Safe panic b n h = absurd (n refl)

module _ (Q : Subscription → Type 0) (weaken : (s : Subscription) → Q s → Sound s) where
  All-weaken : (subs : List Subscription) → All Q subs → All Sound subs
  All-weaken [] q = tt
  All-weaken (s ∷ subs) (q, qs) = (weaken s q, All-weaken subs qs)

  update_nth-Sound :
      (h : ℕ) (f : Subscription → Subscription × Outcome) (subs : List Subscription)
      → Keeps Q f
      → All Q subs
      → All Sound (update_nth h f subs).0 × ((update_nth h f subs).1 ≢ panic)
  unfolding update_nth Keeps
  update_nth-Sound h f [] k q = (tt, λ p. cc p)
  update_nth-Sound zero f (s ∷ subs) k (q, qs) = (((k s q).0, All-weaken subs qs), (k s q).1)
  update_nth-Sound (suc h) f (s ∷ subs) k (q, qs) =
      let (rest, calm) = update_nth-Sound h f subs k qs in ((weaken s q, rest), calm)

  on_nth-Safe :
      (h : ℕ) (f : Subscription → Subscription × Outcome) (b : Bus)
      → Keeps Q f
      → b.panicked ≡ false
      → All Q b.subscribers
      → Safe (on_nth h f b)
  unfolding on_nth
  on_nth-Safe h f b k calm qs =
      let (sound, no_panic) = update_nth-Sound h f b.subscribers k qs in
      let subs = (update_nth h f b.subscribers).0 in
      count_outcome-Safe (update_nth h f b.subscribers).1 (record b { subscribers = subs }) no_panic
        (record { calm = calm; sound = sound })

none_served :
    (s : Subscription) (subs : List Subscription)
    → is_unlocked (s ∷ subs) ≡ true
    → (s.serving ≡ []) × (is_unlocked subs ≡ true)
unfolding is_unlocked
none_served s subs u = ground (arith, u)

-- The write lock is free only when no event waits for a subscription.
is_unlocked-Unserved :
    (subs : List Subscription) → is_unlocked subs ≡ true → All Sound subs → All Unserved subs
unfolding is_unlocked Unserved
is_unlocked-Unserved [] u h = tt
is_unlocked-Unserved (s ∷ subs) u (h, hs) =
    let (p, q) = none_served s subs u in ((h, p), is_unlocked-Unserved subs q hs)

map-Sound :
    (ev : Event) (subs : List Subscription) → All Sound subs → All Sound (map (announce ev) subs)
map-Sound ev [] h = tt
map-Sound ev (s ∷ subs) (h, hs) = (announce-Sound ev s h, map-Sound ev subs hs)

silently-Keeps :
    (Q : Subscription → Type 0) (f : Subscription → Subscription)
    → ((s : Subscription) → Q s → Sound (f s))
    → Keeps Q (silently f)
unfolding Keeps silently
silently-Keeps Q f k s q = (k s q, λ p. cc p)

step-Safe : (a : Action) (b : Bus) → Safe b → Safe (step a b)
unfolding step Keeps
step-Safe (subscribing ids size) b h = elim (Bool-cases (is_unlocked b.subscribers)) [
  | inl u ↦ rw u (record {
    calm = h.calm;
    sound =
        All-append Sound b.subscribers (new_subscription ids size ∷ []) h.sound
          (new_subscription-Sound ids size, tt);
  })
  | inr u ↦ rw u h
]
step-Safe (publishing ev) b h = record { calm = h.calm; sound = map-Sound ev b.subscribers h.sound }
step-Safe (serving g i) b h =
    on_nth-Safe Sound (λ s q. q) g (serve_nth i) b (serve_nth-Sound i) h.calm h.sound
step-Safe (receiving g) b h =
    on_nth-Safe Sound (λ s q. q) g (silently receive) b (silently-Keeps Sound receive receive-Sound)
      h.calm h.sound
step-Safe (swapping g) b h =
    on_nth-Safe Sound (λ s q. q) g (silently close_swap) b
      (silently-Keeps Sound close_swap close_swap-Sound) h.calm h.sound
step-Safe (detaching g) b h = elim (Bool-cases (is_unlocked b.subscribers)) [
  | inl u ↦ rw u (
      on_nth-Safe Unserved (λ s q. Unserved-Sound s q) g (silently detach) b
        (silently-Keeps Unserved detach detach-Unserved) h.calm
        (is_unlocked-Unserved b.subscribers u h.sound))
  | inr u ↦ rw u h
]
step-Safe (shutting g) b h = on_nth-Safe Sound (λ s q. q) g shut b shut-Sound h.calm h.sound

pub run-Safe : (acts : List Action) (b : Bus) → Safe b → Safe (run acts b)
unfolding run
run-Safe [] b h = h
run-Safe (a ∷ acts) b h = run-Safe acts (step a b) (step-Safe a b h)

pub new_bus-Safe : Safe new_bus
unfolding new_bus
new_bus-Safe = record { calm = refl; sound = tt }

-- Whatever the interleaving of subscribers, publishers, receivers and closers, no goroutine sends on
-- a closed channel or closes one twice, no channel holds more than its capacity, and a subscriber
-- gets no event that it did not ask for.
pub run_safe :
    (acts : List Action)
    → ((run acts new_bus).panicked ≡ false) × All Sound (run acts new_bus).subscribers
run_safe acts = let safe = run-Safe acts new_bus new_bus-Safe in (safe.calm, safe.sound)
