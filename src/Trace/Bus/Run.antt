-- ===== src/Trace/Bus/Run.antt =====
-- The steps of the bus as a whole, and runs of them: daemon/internal/daemon/dataplane/trace/bus.go.
use juneau.Prelude.{
  ℕ, zero, suc, ◌%◌, ◌^◌, Bool, true, false, not, List, [], ◌∷◌, ◌++◌, map, any, length, get_elem?,
  Option, none, some, if◌then◌else◌,
}
use juneau.Prelude.Int.{ℤ}
use juneau.Trace.{Event}
use juneau.Trace.Bus.{
  Bus, Subscription, Outcome, quiet, dropped, panic, new_subscription, serve_nth, announce, receive,
  close_swap, detach, shut,
}

-- What a goroutine does next; a subscription is named by its place among those made.
pub data Action : Type 0 where
  subscribing : List ℕ → ℤ → Action
  publishing : Event → Action
  serving : ℕ → ℕ → Action
  receiving swapping detaching shutting : ℕ → Action

unfoldable pub silently : (Subscription → Subscription) → Subscription → Subscription × Outcome
silently f s = (f s, quiet)

unfoldable pub update_nth :
    ℕ → (Subscription → Subscription × Outcome) → List Subscription → List Subscription × Outcome
update_nth h f [] = ([], quiet)
update_nth zero f (s ∷ subs) = ((f s).0 ∷ subs, (f s).1)
update_nth (suc h) f (s ∷ subs) = let (subs', out) = update_nth h f subs in (s ∷ subs', out)

-- No publisher is under the read lock, so that the write lock can be had.
unfoldable pub is_unlocked : List Subscription → Bool
is_unlocked subs = not (any (λ s. elim s.serving [ [] ↦ false | _ ∷ _ ↦ true ]) subs)

unfoldable pub count_outcome : Outcome → Bus → Bus
count_outcome quiet b = b
count_outcome dropped b = record b { drop_cnt = suc b.drop_cnt % 2 ^ 64 }
count_outcome panic b = record b { panicked = true }

unfoldable pub on_nth : ℕ → (Subscription → Subscription × Outcome) → Bus → Bus
unfolding update_nth count_outcome
on_nth h f b =
    let (subs, out) = update_nth h f b.subscribers in
    count_outcome out (record b { subscribers = subs })

-- A goroutine that cannot go on stays where it is.
unfoldable pub step : Action → Bus → Bus
unfolding silently on_nth is_unlocked
step (subscribing ids size) b =
    if is_unlocked b.subscribers
    then record b { subscribers = b.subscribers ++ new_subscription ids size ∷ [] }
    else b
step (publishing ev) b = record b {
  published_cnt = suc b.published_cnt % 2 ^ 64;
  subscribers = map (announce ev) b.subscribers;
}
step (serving h i) b = on_nth h (serve_nth i) b
step (receiving h) b = on_nth h (silently receive) b
step (swapping h) b = on_nth h (silently close_swap) b
step (detaching h) b = if is_unlocked b.subscribers then on_nth h (silently detach) b else b
step (shutting h) b = on_nth h shut b

unfoldable pub run : List Action → Bus → Bus
unfolding step
run [] b = b
run (a ∷ acts) b = run acts (step a b)

-- `Publish` called while no other goroutine runs: it serves the subscriptions in their order.
unfoldable pub serve_all : ℕ → ℕ → List Action
serve_all zero h = []
serve_all (suc n) h = serving h 0 ∷ serve_all n (suc h)

unfoldable pub publish : Event → Bus → Bus
unfolding serve_all run
publish ev b = run (publishing ev ∷ serve_all (length b.subscribers) 0) b

-- What the `Swap` of `Subscription.Close` finds.
unfoldable pub found_closed : Option Subscription → Bool
found_closed none = false
found_closed (some s) = s.closed

-- `Subscription.Close` called while no other goroutine runs: it returns at once if an earlier call
-- has set `closed`, whether that call has ended or stands between its steps.
unfoldable pub close : ℕ → Bus → Bus
unfolding run found_closed
close h b =
    if found_closed (get_elem? b.subscribers h)
    then b
    else run (swapping h ∷ detaching h ∷ shutting h ∷ []) b
