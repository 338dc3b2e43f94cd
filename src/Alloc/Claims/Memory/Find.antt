-- ===== src/Alloc/Claims/Memory/Find.antt =====
-- The objects of an API server in memory: lists, found by name.
use Prim.Native.String.{String}
use juneau.Prelude.{
  ℕ, suc, ◌≡◌, ◌≢◌, refl, sym, ap, ◌∙◌, ◌⊎◌, inl, inr, Option, none, some, List, [], ◌∷◌, Result,
  ok, err, ite, if_pos, if_neg, get_elem?, arith,
}
use juneau.Prelude.Text.{string_discrete}
use juneau.Alloc.Used.{ApiError, not_found}
use juneau.Alloc.Claims.Exclusive.{Objects, Put}

-- Objects of one kind in a list.
module _ {A : Type 0} (name : A → String) where
  unfoldable pub find : List A → Objects A
  find [] k = none
  find (x ∷ xs) k = ite (string_discrete (name x) k) (some x) (find xs k)

  unfoldable pub remove : String → List A → List A
  remove k [] = []
  remove k (x ∷ xs) = ite (string_discrete (name x) k) (remove k xs) (x ∷ remove k xs)

  pub find_named : (xs : List A) (k : String) (x : A) → find xs k ≡ some x → name x ≡ k
  unfolding find
  find_named [] k x p = absurd (cc p)
  find_named (y ∷ ys) k x p = elim (string_discrete (name y) k) [
    | yes e ↦
        ap name (same y x (sym (if_pos (string_discrete (name y) k) e (some y) (find ys k)) ∙ p))
        ∙ e
    | no e ↦
        find_named ys k x (sym (if_neg (string_discrete (name y) k) e (some y) (find ys k)) ∙ p)
  ]
    where
      same : (y x : A) → ◌≡◌ {A = Option A} (some y) (some x) → x ≡ y
      same y x p = cc p

  pub find_listed :
      (xs : List A) (k : String) (x : A) → find xs k ≡ some x → (i : ℕ) × (get_elem? xs i ≡ some x)
  unfolding find
  find_listed [] k x p = absurd (cc p)
  find_listed (y ∷ ys) k x p = elim (string_discrete (name y) k) [
    | yes e ↦ (0, sym (if_pos (string_discrete (name y) k) e (some y) (find ys k)) ∙ p)
    | no e ↦
        let (i, q) =
          find_listed ys k x
            (sym (if_neg (string_discrete (name y) k) e (some y) (find ys k)) ∙ p) in
        (suc i, q)
  ]

  pub find-remove : (k : String) (xs : List A) → Put k none (find xs) (find (remove k xs))
  unfolding find remove
  find-remove k [] m = ground arith
  find-remove k (x ∷ xs) m = ground (arith, find-remove k xs m)

-- Whether an answer is there.
unfoldable pub answered : {A : Type 0} → Option A → Result ApiError A
answered none = err not_found
answered (some a) = ok a

pub answered-ok : {A : Type 0} (o : Option A) (a : A) → answered o ≡ ok a → o ≡ some a
unfolding answered
answered-ok none a p = absurd (cc p)
answered-ok (some b) a p = cc p

pub answered-none : {A : Type 0} (o : Option A) → answered o ≡ err not_found → o ≡ none
unfolding answered
answered-none none p = refl
answered-none (some b) p = absurd (cc p)

-- No object has the empty name.
unfoldable pub visible : {A : Type 0} → Objects A → Objects A
visible f k = ite (string_discrete k "") none (f k)

pub visible-some :
    {A : Type 0} (f : Objects A) (k : String) (x : A) → visible f k ≡ some x → f k ≡ some x
unfolding visible
visible-some f k x p = ground arith

pub visible-nameless : {A : Type 0} (f : Objects A) → visible f "" ≡ none
unfolding visible
visible-nameless f = ground arith

pub visible-Put :
    {A : Type 0} (k : String) (o : Option A) (f g : Objects A)
    → (k ≢ "") ⊎ (o ≡ none)
    → Put k o f g
    → Put k o (visible f) (visible g)
unfolding visible
visible-Put k o f g (inl q) put m = ground (arith, put m)
visible-Put k o f g (inr q) put m = ground (arith, put m)
