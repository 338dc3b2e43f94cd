-- ===== src/Policy/Stores/Installed.antt =====
-- The slots that the data plane reads after a store has applied a rule set.
use juneau.Prelude.{
  ℕ, zero, suc, ◌+◌, ◌*◌, ◌%◌, ◌^◌, ◌≤◌, ◌<◌, ◌≡◌, ◌⊎◌, refl, sym, ap, ◌∙◌, subst, Option, none,
  some, List, [], ◌∷◌, length, get_elem?, ite, ok, ℕ_discrete, Result-cases, inl, inr, if_pos,
  if_neg, arith,
}
use juneau.Policy.{Direction, Rule, RuleSet, RuleWindow, windows}
use juneau.Policy.Rotator.{Kernel, KernelLaws, KernelError}
use juneau.Policy.Rotator.Swap.{OnlyInner}
use juneau.Policy.Stores.{write_window, next_window, write_windows}

module _ {S V M : Type 0} (k : Kernel S V M) (laws : KernelLaws k) where
  only_refl : (h : ℕ) (s : S) → OnlyInner k h s s
  only_refl h s = record {
    inner_kept = λ id. refl;
    slots_kept = λ g i n. refl;
    meta_kept = λ id. refl;
  }

  only_trans : (h : ℕ) (s t u : S) → OnlyInner k h s t → OnlyInner k h t u → OnlyInner k h s u
  only_trans h s t u p q = record {
    inner_kept = λ id. q.inner_kept id ∙ p.inner_kept id;
    slots_kept = λ g i n. q.slots_kept g i n ∙ p.slots_kept g i n;
    meta_kept = λ id. q.meta_kept id ∙ p.meta_kept id;
  }

  put_only : (s s' : S) (h i : ℕ) (v : V) → k.put h i v s ≡ ok s' → OnlyInner k h s s'
  put_only s s' h i v e = record {
    inner_kept = λ id. laws.put-inner s s' h i id v e;
    slots_kept =
        λ g j n. laws.put-slots s s' h i g j v e ∙ if_neg (ℕ_discrete h g) (λ q. n (sym q)) _ _;
    meta_kept = λ id. laws.put-meta s s' h i id v e;
  }

  put_self :
      (s s' : S) (h i j : ℕ) (v : V)
      → k.put h i v s ≡ ok s'
      → k.slot_of s' h j ≡ ite (ℕ_discrete i j) (some v) (k.slot_of s h j)
  put_self s s' h i j v e = laws.put-slots s s' h i h j v e ∙ if_pos (ℕ_discrete h h) refl _ _

  module _ (encode : Rule → V) (h : ℕ) where
    window_only :
        (base i : ℕ) (rules : List Rule) (s : S)
        → OnlyInner k h s (write_window k encode h base i rules s).0
    unfolding write_window
    window_only base i [] s = only_refl h s
    window_only base i (r ∷ rules) s =
        elim (Result-cases (k.put h ((base + i) % 2 ^ 32) (encode r) s)) [
          | inr (e, p) ↦ rw (p, write_window) (only_refl h s)
          | inl (t, p) ↦
              rw (p, write_window)
                (only_trans h s t _ (put_only s t h _ (encode r) p)
                  (window_only base (suc i) rules t))
        ]

    pub windows_only :
        (ws : List RuleWindow) (s : S) → OnlyInner k h s (write_windows k encode h ws s).0
    unfolding write_windows
    windows_only [] s = only_refl h s
    windows_only (w ∷ ws) s =
        go (write_window k encode h w.base 0 w.rules s) (window_only w.base 0 w.rules s)
          (windows_only ws)
      where
        go :
            (x : S × Option KernelError)
            → OnlyInner k h s x.0
            → ((t : S) → OnlyInner k h t (write_windows k encode h ws t).0)
            → OnlyInner k h s (next_window k encode (write_windows k encode h ws) x).0
        go (t, some e) o ih = o
        go (t, none) o ih = only_trans h s t _ o (ih t)

    get_elem?-some :
        (rules : List Rule) (n : ℕ) (r : Rule)
        → get_elem? rules n ≡ some r
        → (limit : ℕ) → length rules ≤ limit
        → n < limit
    get_elem?-some [] n r e limit a = absurd (cc e)
    get_elem?-some (x ∷ rules) zero r e limit a = omega arith
    get_elem?-some (x ∷ rules) (suc n) r e limit a =
        let p = get_elem?-some rules n r e (length rules) (omega arith) in omega arith

    -- What a complete write of a window leaves in its slots and in the others.
    abbrev Window : S → ℕ → List Rule → S → Type 0
    Window s start rules s' =
        ((n : ℕ) (r : Rule)
          → get_elem? rules n ≡ some r
          → k.slot_of s' h (start + n) ≡ some (encode r))
        × ((j : ℕ) → (j < start) ⊎ (start + length rules ≤ j) → k.slot_of s' h j ≡ k.slot_of s h j)

    Window-step :
        (base i : ℕ) (r : Rule) (rules : List Rule) (s t u : S)
        → base + i < 2 ^ 32
        → k.put h ((base + i) % 2 ^ 32) (encode r) s ≡ ok t
        → Window t (base + suc i) rules u
        → Window s (base + i) (r ∷ rules) u
    Window-step base i r rules s t u b p w = (
      here,
      λ j q.
          w.1 j (omega arith)
          ∙ put_self s t h _ j (encode r) p
          ∙ if_neg (ℕ_discrete _ j) (λ z. absurd (omega arith)) _ _,
    )
      where
        here :
            (n : ℕ) (x : Rule)
            → get_elem? (r ∷ rules) n ≡ some x
            → k.slot_of u h (base + i + n) ≡ some (encode x)
        here zero x q =
            let e : r ≡ x = cc in
            w.1 (base + i + 0) (inl (omega arith))
            ∙ put_self s t h _ (base + i + 0) (encode r) p
            ∙ if_pos (ℕ_discrete _ (base + i + 0)) (omega arith) _ _
            ∙ ap (λ y. some (encode y)) e
        here (suc n) x q =
            let e : base + suc i + n ≡ base + i + suc n = omega arith in
            subst (λ (j : ℕ). k.slot_of u h j ≡ some (encode x)) e (w.0 n x q)

    Window-slots :
        (base i : ℕ) (rules : List Rule) (s : S)
        → base + i + length rules ≤ 2 ^ 32
        → (write_window k encode h base i rules s).1 ≡ none
        → Window s (base + i) rules (write_window k encode h base i rules s).0
    unfolding write_window
    Window-slots base i [] s b e = (λ n r q. cc, λ j q. refl)
    Window-slots base i (r ∷ rules) s b e =
        elim (Result-cases (k.put h ((base + i) % 2 ^ 32) (encode r) s)) [
          | inr (x, p) ↦ cc (rw (p, write_window) at e)
          | inl (t, p) ↦
              rw (p, write_window)
                (Window-step base i r rules s t _ (omega arith) p
                  (Window-slots base (suc i) rules t (omega arith) (rw (p, write_window) at e)))
        ]

    abbrev egress_window : RuleSet → ℕ → List RuleWindow
    egress_window rs limit =
        record { direction = Direction.egress; base = limit % 2 ^ 32; rules = rs.egress } ∷ []

    -- The slots of both windows, the ingress rules from slot 0 on and the egress rules from `limit` on.
    abbrev pub Both : S → RuleSet → ℕ → S → Type 0
    Both s rs limit s' =
        ((n : ℕ) (r : Rule) → get_elem? rs.ingress n ≡ some r → k.slot_of s' h n ≡ some (encode r))
        × ((n : ℕ) (r : Rule)
            → get_elem? rs.egress n ≡ some r
            → k.slot_of s' h (limit + n) ≡ some (encode r))

    last_window :
        (x : S × Option KernelError)
        → let y = next_window k encode (write_windows k encode h []) x in
          y.1 ≡ none → (x.1 ≡ none) × (y.0 ≡ x.0)
    unfolding write_windows
    last_window (t, some e) p = absurd (cc p)
    last_window (t, none) p = (refl, refl)

    Both-windows :
        (rs : RuleSet) (limit : ℕ) (s t u : S)
        → length rs.ingress ≤ limit
        → Window s 0 rs.ingress t
        → Window t limit rs.egress u
        → Both s rs limit u
    Both-windows rs limit s t u a v w = (
      λ n r e.
          let z : 0 + n ≡ n = omega arith in
          w.1 n (inl (get_elem?-some rs.ingress n r e limit a))
          ∙ subst (λ (j : ℕ). k.slot_of t h j ≡ some (encode r)) z (v.0 n r e),
      λ n r e. w.0 n r e,
    )

    second-Window :
        (rs : RuleSet) (limit : ℕ) (s : S) (x : S × Option KernelError)
        → length rs.ingress ≤ limit
        → length rs.egress ≤ limit
        → 2 * limit ≤ 2 ^ 32
        → (x.1 ≡ none → Window s 0 rs.ingress x.0)
        → let y = next_window k encode (write_windows k encode h (egress_window rs limit)) x in
          y.1 ≡ none → Both s rs limit y.0
    unfolding write_windows
    second-Window rs limit s (t, some e) a b c w p = absurd (cc p)
    second-Window rs limit s (t, none) a b c w p =
        let m : limit % 2 ^ 32 + 0 ≡ limit = omega arith in
        let x = write_window k encode h (limit % 2 ^ 32) 0 rs.egress t in
        let (q, e) = last_window x p in
        let v = Window-slots (limit % 2 ^ 32) 0 rs.egress t (omega arith) q in
        subst (Both s rs limit) (sym e) (
          Both-windows rs limit s t x.0 a (w refl)
            (subst (λ (j : ℕ). Window t j rs.egress x.0) m v))

    -- Both windows of a rule set that fits them.
    pub windows_slots :
        (rs : RuleSet) (limit : ℕ) (s : S)
        → length rs.ingress ≤ limit
        → length rs.egress ≤ limit
        → 2 * limit ≤ 2 ^ 32
        → (write_windows k encode h (windows rs limit) s).1 ≡ none
        → Both s rs limit (write_windows k encode h (windows rs limit) s).0
    unfolding write_windows windows
    windows_slots rs limit s a b c e =
        second-Window rs limit s (write_window k encode h 0 0 rs.ingress s) a b c
          (Window-slots 0 0 rs.ingress s (omega arith)) e
