-- ===== src/Trace/Bus/Nth.antt =====
-- The steps of the bus at one subscription: daemon/internal/daemon/dataplane/trace/bus.go.
use juneau.Prelude.{
  ℕ, zero, suc, ◌<◌, ◌≡◌, ◌≢◌, refl, arith, true, List, [], ◌∷◌, All, map, Option, some, none,
  length, get_elem?, subst,
}
use juneau.Trace.Bus.{Bus, Subscription, Outcome, quiet, dropped, panic, close_swap}
use juneau.Trace.Bus.Run.{update_nth, is_unlocked, silently, on_nth, count_outcome}

update_nth-same :
    (h : ℕ) (f : Subscription → Subscription × Outcome) (subs : List Subscription)
    (s : Subscription)
    → get_elem? subs h ≡ some s
    → get_elem? (update_nth h f subs).0 h ≡ some (f s).0
unfolding update_nth
update_nth-same h f [] s p = cc
update_nth-same zero f (t ∷ subs) s p = cc
update_nth-same (suc h) f (t ∷ subs) s p = update_nth-same h f subs s p

update_nth-other :
    (h g : ℕ) (f : Subscription → Subscription × Outcome) (subs : List Subscription)
    → h ≢ g
    → get_elem? (update_nth h f subs).0 g ≡ get_elem? subs g
unfolding update_nth
update_nth-other h g f [] n = refl
update_nth-other zero zero f (t ∷ subs) n = absurd (n refl)
update_nth-other zero (suc g) f (t ∷ subs) n = refl
update_nth-other (suc h) zero f (t ∷ subs) n = refl
update_nth-other (suc h) (suc g) f (t ∷ subs) n = update_nth-other h g f subs (omega (arith, n))

count_outcome_same : (out : Outcome) (b : Bus) → (count_outcome out b).subscribers ≡ b.subscribers
unfolding count_outcome
count_outcome_same quiet b = refl
count_outcome_same dropped b = refl
count_outcome_same panic b = refl

pub on_nth-same :
    (h : ℕ) (f : Subscription → Subscription × Outcome) (b : Bus) (s : Subscription)
    → get_elem? b.subscribers h ≡ some s
    → get_elem? (on_nth h f b).subscribers h ≡ some (f s).0
unfolding on_nth
on_nth-same h f b s p =
    rw
      (count_outcome_same (update_nth h f b.subscribers).1
        (record b { subscribers = (update_nth h f b.subscribers).0 }))
      (update_nth-same h f b.subscribers s p)

pub on_nth-other :
    (h g : ℕ) (f : Subscription → Subscription × Outcome) (b : Bus)
    → h ≢ g
    → get_elem? (on_nth h f b).subscribers g ≡ get_elem? b.subscribers g
unfolding on_nth
on_nth-other h g f b n =
    rw
      (count_outcome_same (update_nth h f b.subscribers).1
        (record b { subscribers = (update_nth h f b.subscribers).0 }))
      (update_nth-other h g f b.subscribers n)

pub map-get :
    (f : Subscription → Subscription) (subs : List Subscription) (h : ℕ) (s : Subscription)
    → get_elem? subs h ≡ some s
    → get_elem? (map f subs) h ≡ some (f s)
map-get f [] h s p = cc
map-get f (t ∷ subs) zero s p = cc
map-get f (t ∷ subs) (suc h) s p = map-get f subs h s p

pub get_elem?-bound :
    (subs : List Subscription) (h : ℕ) (s : Subscription)
    → get_elem? subs h ≡ some s
    → h < length subs
get_elem?-bound [] h s p = absurd (cc p)
get_elem?-bound (t ∷ subs) zero s p = omega arith
get_elem?-bound (t ∷ subs) (suc h) s p = omega (arith, get_elem?-bound subs h s p)

pub All-get :
    (P : Subscription → Type 0) (subs : List Subscription) (h : ℕ) (s : Subscription)
    → All P subs
    → get_elem? subs h ≡ some s
    → P s
All-get P [] h s q p = absurd (cc p)
All-get P (t ∷ subs) zero s (q, qs) p =
    subst (λ (o : Option Subscription). elim o [ none ↦ P t | some u ↦ P u ]) p q
All-get P (t ∷ subs) (suc h) s (q, qs) p = All-get P subs h s qs p

pub unlocked-get :
    (subs : List Subscription) (h : ℕ) (s : Subscription)
    → is_unlocked subs ≡ true
    → get_elem? subs h ≡ some s
    → s.serving ≡ []
unfolding is_unlocked
unlocked-get [] h s u p = absurd (cc p)
unlocked-get (t ∷ subs) zero s u p = ground (arith, u, p)
unlocked-get (t ∷ subs) (suc h) s u p = unlocked-get subs h s (ground (arith, u)) p

swap-unlocked :
    (h : ℕ) (subs : List Subscription)
    → is_unlocked (update_nth h (silently close_swap) subs).0 ≡ is_unlocked subs
unfolding is_unlocked update_nth silently close_swap
swap-unlocked h [] = refl
swap-unlocked zero (s ∷ subs) = ground arith
swap-unlocked (suc h) (s ∷ subs) = ground (arith, swap-unlocked h subs)

pub on_nth-unlocked :
    (h : ℕ) (b : Bus)
    → is_unlocked (on_nth h (silently close_swap) b).subscribers ≡ is_unlocked b.subscribers
unfolding on_nth
on_nth-unlocked h b =
    rw
      (count_outcome_same (update_nth h (silently close_swap) b.subscribers).1
        (record b { subscribers = (update_nth h (silently close_swap) b.subscribers).0 }))
      (swap-unlocked h b.subscribers)
