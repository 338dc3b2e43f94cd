-- ===== src/Owned/Applied.antt =====
-- What the data plane finds after the store has applied its claims.
use juneau.Prelude.{
  ◌⊎◌, ◌≡◌, refl, ◌∙◌, Bool, true, false, none, some, List, [], ◌∷◌, ite, arith, Result-cases,
  Option-cases, Bool-cases, inl, inr,
}
use juneau.Prelude.Dict.{Dict, lookup, lookup-insert, lookup-erase}
use juneau.Owned.{
  Key, key_discrete, Delivery, delivered_here, delivered_elsewhere, key_not_exist, other_error,
  AddressMap, MapLaws, Store, union, sorted_keys, insert_key, drop_one, drop_all, install_one,
  is_installed, put_one, put_all, apply,
}
use juneau.Owned.Union.{wanted, all_claims, lookup-union}

-- The key is one of the list.
listed : Key → List Key → Bool
listed key [] = false
listed key (k ∷ ks) = ite (key_discrete k key) true (listed key ks)

listed-insert : (key k : Key) (ks : List Key) → listed key (insert_key k ks) ≡ listed key (k ∷ ks)
unfolding listed insert_key
listed-insert key k [] = refl
listed-insert key k (j ∷ ks) = ground (arith, listed-insert key k ks)

sorted_keys-some :
    (dict : Dict Key Delivery) (key : Key)
    → listed key (sorted_keys dict) ≡ false
    → lookup key_discrete key dict ≡ none
unfolding sorted_keys lookup listed
sorted_keys-some [] key e = refl
sorted_keys-some ((k, d) ∷ dict) key e =
    ground (arith, listed-insert key k (sorted_keys dict), sorted_keys-some dict key)

module _ {T : Type 0} (m : AddressMap T) (laws : MapLaws m) where
  -- The store's record of the map is what the data plane finds.
  unfoldable pub Mirrors : Store T → Type 0
  Mirrors s = (key : Key) → m.get s.kernel key ≡ lookup key_discrete key s.installed

  -- Every round of both loops keeps the record true, also one that fails.
  drop_one-Mirrors :
      (desired : Dict Key Delivery) (s : Store T) (k : Key)
      → Mirrors s
      → Mirrors (drop_one m desired s k).0
  unfolding drop_one Mirrors
  drop_one-Mirrors desired s k v = elim (Option-cases (lookup key_discrete k desired)) [
    | inr (d, p) ↦ rw (p, drop_one) v
    | inl p ↦ elim (Result-cases (m.delete k s.kernel)) [
      | inl (t, q) ↦
          rw (p, q, drop_one)
            λ key. ground (
              arith,
              v key,
              laws.get-delete k key s.kernel t q,
              lookup-erase key_discrete key k s.installed,
            )
      | inr (key_not_exist, q) ↦
          rw (p, q, drop_one)
            λ key. ground (
              arith,
              v key,
              laws.get_missing k s.kernel q,
              lookup-erase key_discrete key k s.installed,
            )
      | inr (other_error, q) ↦ rw (p, q, drop_one) v
    ]
  ]

  put_one-Mirrors :
      (desired : Dict Key Delivery) (s : Store T) (k : Key)
      → Mirrors s
      → Mirrors (put_one m desired s k).0
  unfolding put_one install_one Mirrors
  put_one-Mirrors desired s k v = elim (Option-cases (lookup key_discrete k desired)) [
    | inl p ↦ rw (p, put_one) v
    | inr (d, p) ↦ elim (Bool-cases (is_installed m (lookup key_discrete k s.installed) d)) [
      | inl f ↦ rw (p, f, put_one) v
      | inr f ↦ elim (Result-cases (m.update k d s.kernel)) [
        | inl (t, q) ↦
            rw (p, f, q, put_one, install_one)
              λ key. ground (
                arith,
                v key,
                laws.get-update k key d s.kernel t q,
                lookup-insert key_discrete key k d s.installed,
              )
        | inr (x, q) ↦ rw (p, f, q, put_one, install_one) v
      ]
    ]
  ]

  drop_all-Mirrors :
      (desired : Dict Key Delivery) (ks : List Key) (s : Store T)
      → Mirrors s
      → Mirrors (drop_all m desired ks s).0
  unfolding drop_all
  drop_all-Mirrors desired [] s v = v
  drop_all-Mirrors desired (k ∷ ks) s v =
      drop_all-Mirrors desired ks (drop_one m desired s k).0 (drop_one-Mirrors desired s k v)

  put_all-Mirrors :
      (desired : Dict Key Delivery) (ks : List Key) (s : Store T)
      → Mirrors s
      → Mirrors (put_all m desired ks s).0
  unfolding put_all
  put_all-Mirrors desired [] s v = v
  put_all-Mirrors desired (k ∷ ks) s v =
      put_all-Mirrors desired ks (put_one m desired s k).0 (put_one-Mirrors desired s k v)

  -- A round without an error leaves nothing under its key, if that is unwanted.
  drop_one_unwanted :
      (desired : Dict Key Delivery) (s : Store T) (k key : Key)
      → lookup key_discrete key desired ≡ none
      → (drop_one m desired s k).1 ≡ true
      → lookup key_discrete key (drop_one m desired s k).0.installed
        ≡ ite (key_discrete k key) none (lookup key_discrete key s.installed)
  unfolding drop_one
  drop_one_unwanted desired s k key u e =
      ground (arith, lookup-erase key_discrete key k s.installed)

  drop_all_unwanted :
      (desired : Dict Key Delivery) (ks : List Key) (s : Store T) (key : Key)
      → lookup key_discrete key desired ≡ none
      → (drop_all m desired ks s).1 ≡ true
      → (listed key ks ≡ true) ⊎ (lookup key_discrete key s.installed ≡ none)
      → lookup key_discrete key (drop_all m desired ks s).0.installed ≡ none
  unfolding drop_all listed
  drop_all_unwanted desired [] s key u e h = ground arith
  drop_all_unwanted desired (k ∷ ks) s key u e h =
      let t = (drop_one m desired s k).0 in
      ground (arith, drop_one_unwanted desired s k key u, drop_all_unwanted desired ks t key u)

  -- A round without an error leaves under its key what is wanted there.
  put_one_lem :
      (desired : Dict Key Delivery) (s : Store T) (k key : Key)
      → (put_one m desired s k).1 ≡ true
      → lookup key_discrete key (put_one m desired s k).0.installed
        ≡ ite
            (key_discrete k key)
            (elim (lookup key_discrete key desired) [
              | some d ↦ some d
              | none ↦ lookup key_discrete key s.installed
            ])
            (lookup key_discrete key s.installed)
  unfolding put_one install_one is_installed
  put_one_lem desired s k key e = elim (Option-cases (lookup key_discrete k desired)) [
    | inl p ↦ ground arith
    | inr (d, p) ↦ ground (arith, lookup-insert key_discrete key k d s.installed)
  ]

  put_all_unwanted :
      (desired : Dict Key Delivery) (ks : List Key) (s : Store T) (key : Key)
      → lookup key_discrete key desired ≡ none
      → (put_all m desired ks s).1 ≡ true
      → lookup key_discrete key (put_all m desired ks s).0.installed
        ≡ lookup key_discrete key s.installed
  unfolding put_all
  put_all_unwanted desired [] s key u e = refl
  put_all_unwanted desired (k ∷ ks) s key u e =
      let t = (put_one m desired s k).0 in
      ground (arith, put_one_lem desired s k key, put_all_unwanted desired ks t key u)

  put_all_wanted :
      (desired : Dict Key Delivery) (ks : List Key) (s : Store T) (key : Key) (d : Delivery)
      → lookup key_discrete key desired ≡ some d
      → (put_all m desired ks s).1 ≡ true
      → (listed key ks ≡ true) ⊎ (lookup key_discrete key s.installed ≡ some d)
      → lookup key_discrete key (put_all m desired ks s).0.installed ≡ some d
  unfolding put_all listed
  put_all_wanted desired [] s key d u e h = ground arith
  put_all_wanted desired (k ∷ ks) s key d u e h =
      let t = (put_one m desired s k).0 in
      ground (arith, put_one_lem desired s k key, put_all_wanted desired ks t key d u)

  -- If the store's record of the map is true, `apply` keeps it true, also when it ends with an
  -- error.
  pub apply-Mirrors : (s : Store T) → Mirrors s → Mirrors (apply m s).0
  unfolding apply
  apply-Mirrors s v =
      let desired = union [] s.claims in
      let dropped = (drop_all m desired (sorted_keys s.installed) s).0 in
      put_all-Mirrors desired (sorted_keys desired) dropped
        (drop_all-Mirrors desired (sorted_keys s.installed) s v)

  apply-installed :
      (s : Store T) (key : Key)
      → (apply m s).1 ≡ true
      → lookup key_discrete key (apply m s).0.installed
        ≡ lookup key_discrete key (union [] s.claims)
  unfolding apply
  apply-installed s key e =
      let desired = union [] s.claims in
      let dropped = (drop_all m desired (sorted_keys s.installed) s).0 in
      ground (
        arith,
        Bool-cases (listed key (sorted_keys s.installed)),
        Bool-cases (listed key (sorted_keys desired)),
        sorted_keys-some s.installed key,
        sorted_keys-some desired key,
        drop_all_unwanted desired (sorted_keys s.installed) s key,
        put_all_unwanted desired (sorted_keys desired) dropped key,
        put_all_wanted desired (sorted_keys desired) dropped key delivered_here,
        put_all_wanted desired (sorted_keys desired) dropped key delivered_elsewhere,
      )

  -- If the store's record of the map is true and `apply` ends without an error, the data plane finds
  -- every key as the claims want it: delivered here if some owner says so, elsewhere if it is claimed
  -- and no owner says here, and not at all if no owner claims it.
  pub apply-wanted :
      (s : Store T) (key : Key)
      → Mirrors s
      → (apply m s).1 ≡ true
      → m.get (apply m s).0.kernel key ≡ wanted key (all_claims s.claims)
  unfolding Mirrors
  apply-wanted s key v e =
      apply-Mirrors s v key ∙ apply-installed s key e ∙ lookup-union s.claims key
