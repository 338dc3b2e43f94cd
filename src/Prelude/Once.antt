-- ===== src/Prelude/Once.antt =====
-- Association lists in which a key stands once, which is what `insert` builds.
use Prim.Native.Nat.{ℕ, zero, suc}
use mathlib.Core.Path.{◌≡◌, refl, sym, ap, subst, ◌∙◌}
use mathlib.Core.Logic.{ite, if_pos, if_neg}
use mathlib.Core.Option.{Option, none, some}
use mathlib.Core.List.{[], ◌∷◌}
use juneau.Prelude.Lists.{All, get_elem?}
use juneau.Prelude.Dict.{Dict, lookup, insert, lookup-insert}

pair-same :
    {K V : Type 0} (j k : K) (w v : V)
    → ◌≡◌ {A = Option (K × V)} (some (j, w)) (some (k, v))
    → (j ≡ k) × (w ≡ v)
pair-same j k w v p = (cc p, cc p)

first :
    {K V : Type 0} (j k : K) (w v : V)
    → j ≡ k
    → ◌≡◌ {A = Option V} (some w) (some v)
    → ◌≡◌ {A = Option (K × V)} (some (j, w)) (some (k, v))
first j k w v p q = cc (p, q)

module _ {K V : Type 0} (dec : Discrete K) where
  unfoldable pub Once : Dict K V → Type 0
  Once [] = Unit
  Once ((k, v) ∷ m) = (lookup dec k m ≡ none) × Once m

  pub insert-Once : (k : K) (v : V) (m : Dict K V) → Once m → Once (insert dec k v m)
  unfolding Once insert lookup
  insert-Once k v [] h = (refl, tt)
  insert-Once k v ((j, w) ∷ m) (h, hs) =
      elim (dec j k) as (λ d. Once (ite d ((k, v) ∷ m) ((j, w) ∷ insert dec k v m))) [
        | Dec.yes p ↦ (subst (λ (i : K). lookup dec i m ≡ none) p h, hs)
        | Dec.no n ↦ (
          lookup-insert dec j k v m ∙ if_neg (dec k j) (λ q. n (sym q)) _ _ ∙ h,
          insert-Once k v m hs,
        )
      ]

  -- What holds of every key stays so when a key of which it holds is inserted.
  pub insert-All :
      (P : K → Type 0) (k : K) (v : V) (m : Dict K V)
      → P k
      → All (λ (e : K × V). P e.0) m
      → All (λ (e : K × V). P e.0) (insert dec k v m)
  unfolding insert
  insert-All P k v [] p h = (p, tt)
  insert-All P k v ((j, w) ∷ m) p (h, hs) =
      elim (dec j k)
        as (λ d. All (λ (e : K × V). P e.0) (ite d ((k, v) ∷ m) ((j, w) ∷ insert dec k v m))) [
          | Dec.yes q ↦ (p, hs)
          | Dec.no n ↦ (h, insert-All P k v m p hs)
        ]

  -- Where a key stands, its lookup finds its value.
  pub lookup-get :
      (m : Dict K V) (i : ℕ) (k : K) (v : V)
      → Once m
      → get_elem? m i ≡ some (k, v)
      → lookup dec k m ≡ some v
  unfolding Once lookup
  lookup-get [] i k v h p = absurd (cc p)
  lookup-get ((j, w) ∷ m) zero k v h p =
      let (q, r) = pair-same j k w v p in if_pos (dec j k) q (some w) (lookup dec k m) ∙ ap some r
  lookup-get ((j, w) ∷ m) (suc i) k v (h, hs) p =
      let found = lookup-get m i k v hs p in
      if_neg (dec j k) (λ q. cc (h, found, q)) (some w) (lookup dec k m) ∙ found

  -- What a lookup finds stands somewhere.
  pub get-lookup :
      (m : Dict K V) (k : K) (v : V)
      → lookup dec k m ≡ some v
      → (i : ℕ) × (get_elem? m i ≡ some (k, v))
  unfolding lookup
  get-lookup [] k v p = absurd (cc p)
  get-lookup ((j, w) ∷ m) k v p = elim (dec j k) [
    | Dec.yes q ↦ (0, first j k w v q (sym (if_pos (dec j k) q (some w) (lookup dec k m)) ∙ p))
    | Dec.no n ↦
        let (i, found) =
          get-lookup m k v (sym (if_neg (dec j k) n (some w) (lookup dec k m)) ∙ p) in
        (suc i, found)
  ]

  -- A list without the entries that an earlier one hides.
  unfoldable pub tidy : Dict K V → Dict K V
  tidy [] = []
  tidy ((k, v) ∷ m) = insert dec k v (tidy m)

  pub tidy-Once : (m : Dict K V) → Once (tidy m)
  unfolding tidy Once
  tidy-Once [] = tt
  tidy-Once ((k, v) ∷ m) = insert-Once k v (tidy m) (tidy-Once m)

  pub lookup-tidy : (k : K) (m : Dict K V) → lookup dec k (tidy m) ≡ lookup dec k m
  unfolding tidy lookup
  lookup-tidy k [] = refl
  lookup-tidy k ((j, v) ∷ m) =
      lookup-insert dec k j v (tidy m)
      ∙ ap (λ (o : Option V). ite (dec j k) (some v) o) (lookup-tidy k m)
