-- ===== src/Trace/Bus/Deliver.antt =====
-- Uninterrupted calls of `Publish` and `Close`: daemon/internal/daemon/dataplane/trace/bus.go.
use juneau.Prelude.{
  ℕ, zero, suc, ◌+◌, ◌<◌, ◌≤◌, ◌≡◌, refl, arith, true, false, ◌&&◌, [], ◌∷◌, ◌++◌, some, ltb,
  if◌then◌else◌, length, get_elem?, ℕ_discrete, subst, sym, ◌∙◌, ap,
}
use juneau.Trace.{Event}
use juneau.Trace.Bus.{
  Bus, Subscription, wants, offer, pick, serve, serve_nth, announce, close_swap, detach, shut,
}
use juneau.Trace.Bus.Run.{
  publishing, serving, step, run, is_unlocked, silently, on_nth, serve_all, publish, close,
  found_closed,
}
use juneau.Trace.Bus.Sound.{Sound, Staged, bit}
use juneau.Trace.Bus.Nth.{
  on_nth-same, on_nth-other, map-get, get_elem?-bound, All-get, unlocked-get, on_nth-unlocked,
}
use juneau.Trace.Bus.Safe.{Safe}

serve_all-before :
    (n k h : ℕ) (b : Bus)
    → h < k
    → get_elem? (run (serve_all n k) b).subscribers h ≡ get_elem? b.subscribers h
unfolding run serve_all step
serve_all-before zero k h b p = refl
serve_all-before (suc n) k h b p =
    serve_all-before n (suc k) h (step (serving k 0) b) (omega (arith, p))
    ∙ on_nth-other k h (serve_nth 0) b (omega (arith, p))

serve_all-within :
    (n k h : ℕ) (b : Bus) (s : Subscription)
    → k ≤ h
    → h < k + n
    → get_elem? b.subscribers h ≡ some s
    → get_elem? (run (serve_all n k) b).subscribers h ≡ some (serve_nth 0 s).0
unfolding run serve_all step
serve_all-within zero k h b s p q e = absurd (omega (arith, p, q))
serve_all-within (suc n) k h b s p q e = elim (ℕ_discrete k h) [
  | Dec.yes same ↦
      serve_all-before n (suc k) h (step (serving k 0) b) (omega (arith, same))
      ∙ subst
          (λ (g : ℕ). get_elem? (on_nth g (serve_nth 0) b).subscribers h ≡ some (serve_nth 0 s).0)
          (sym same) (on_nth-same h (serve_nth 0) b s e)
  | Dec.no other ↦
      serve_all-within n (suc k) h (step (serving k 0) b) s (omega (arith, other, p))
        (omega (arith, q)) (on_nth-other k h (serve_nth 0) b other ∙ e)
]

-- The event is in the buffer if the subscription is attached and wants it and there is room.
unfoldable pub delivered : Event → Subscription → Subscription
delivered ev s =
    let ch = s.ch in
    if s.attached && wants s.trace_ids ev && ltb (length ch.buffer) ch.capacity
    then record s { ch = record ch { buffer = ch.buffer ++ ev ∷ [] } }
    else s

serve_announced :
    (ev : Event) (s : Subscription)
    → Staged s
    → s.serving ≡ []
    → (serve_nth 0 (announce ev s)).0 ≡ delivered ev s
unfolding serve_nth announce delivered serve offer pick bit
serve_announced ev s h p = ground (arith, h, p)

-- If no other publisher is under way, an event that is published reaches every subscription that is
-- attached, wants it and has room, once and at the end of its buffer, and changes no other.
pub publish_delivers :
    (ev : Event) (b : Bus) (h : ℕ) (s : Subscription)
    → Safe b
    → is_unlocked b.subscribers ≡ true
    → get_elem? b.subscribers h ≡ some s
    → get_elem? (publish ev b).subscribers h ≡ some (delivered ev s)
unfolding publish run step Sound
publish_delivers ev b h s safe u p =
    let (staged, wanted) = All-get Sound b.subscribers h s safe.sound p in
    serve_all-within (length b.subscribers) 0 h (step (publishing ev) b) (announce ev s)
      (omega arith) (omega (arith, get_elem?-bound b.subscribers h s p))
      (map-get (announce ev) b.subscribers h s p)
    ∙ ap some (serve_announced ev s staged (unlocked-get b.subscribers h s u p))

closing_closes :
    (s t : Subscription)
    → Staged s
    → s.closed ≡ false
    → t ≡ (shut (detach (close_swap s))).0
    → (t.ch.is_closed ≡ true) × (t.attached ≡ false) × (t.closed ≡ true)
unfolding shut detach close_swap bit
closing_closes s t h unclosed p = ground (arith, h, unclosed, p)

close-steps :
    (h : ℕ) (b : Bus) (s : Subscription)
    → is_unlocked b.subscribers ≡ true
    → get_elem? b.subscribers h ≡ some s
    → s.closed ≡ false
    → get_elem? (close h b).subscribers h ≡ some (shut (detach (close_swap s))).0
unfolding close run step silently found_closed
close-steps h b s u p unclosed =
    let swapped = on_nth h (silently close_swap) b in
    let first : found_closed (get_elem? b.subscribers h) ≡ false = ap found_closed p ∙ unclosed in
    rw (first, on_nth-unlocked h b ∙ u)
      (on_nth-same h shut (on_nth h (silently detach) swapped) (detach (close_swap s)) (
        on_nth-same h (silently detach) swapped (close_swap s)
          (on_nth-same h (silently close_swap) b s p)))

close-closed :
    (h : ℕ) (b : Bus) (s : Subscription)
    → get_elem? b.subscribers h ≡ some s
    → s.closed ≡ true
    → close h b ≡ b
unfolding close found_closed
close-closed h b s p shut_before =
    let first : found_closed (get_elem? b.subscribers h) ≡ true = ap found_closed p ∙ shut_before in
    rw first

-- If no publisher is under way and no `Close` of the subscription has been called before, a `Close`
-- that runs to its end leaves it detached and its channel closed, and a second `Close` after it
-- changes nothing.
pub close_closes :
    (h : ℕ) (b : Bus) (s : Subscription)
    → Safe b
    → is_unlocked b.subscribers ≡ true
    → get_elem? b.subscribers h ≡ some s
    → s.closed ≡ false
    → ((t : Subscription) × (get_elem? (close h b).subscribers h ≡ some t)
        × (t.ch.is_closed ≡ true)
        × (t.attached ≡ false))
      × (close h (close h b) ≡ close h b)
unfolding Sound
close_closes h b s safe u p unclosed =
    let (staged, wanted) = All-get Sound b.subscribers h s safe.sound p in
    let t = (shut (detach (close_swap s))).0 in
    let (is_shut, detached, closed) = closing_closes s t staged unclosed refl in
    let there = close-steps h b s u p unclosed in
    ((t, there, is_shut, detached), close-closed h (close h b) t there closed)
