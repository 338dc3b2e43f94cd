-- ===== src/Owned.antt =====
-- The addresses that owners claim: daemon/internal/daemon/dataplane/reconciler/ownedaddr/store.go.
-- The BPF map external_address_pools is a parameter; a failed call leaves it as it was. A
-- method returns the new store and whether it ends with no error.
pub mod Union
pub mod Applied
pub mod Shared
pub mod Prefix
mod Tests
use Prim.Native.String.{String}
use text.Mathlib.Text.{◌==◌ as str_eq}
use juneau.Prelude.{
  ◌&&◌, ◌||◌, ltb, ◌==◌, ℕ, Bool, true, false, Option, none, some, List, [], ◌∷◌, ◌≡◌, ite,
  if◌then◌else◌, Result, ok, err, ℕ_discrete,
}
use juneau.Prelude.Dict.{Dict, lookup, insert, erase}
use juneau.Prelude.Text.{string_discrete}

-- The key of external_address_pools: a prefix length and an address.
pub record Key : Type 0 where
  pub prefixlen : ℕ
  pub addr : ℕ

pub key_discrete : Discrete Key
key_discrete = hlevel ℕ_discrete

-- `delivered_here` is 1 and `delivered_elsewhere` 2 in the map.
pub data Delivery : Type 0 where
  delivered_here delivered_elsewhere : Delivery

pub delivery_discrete : Discrete Delivery
delivery_discrete delivered_here delivered_here = yes (λ i. delivered_here)
delivery_discrete delivered_elsewhere delivered_elsewhere = yes (λ i. delivered_elsewhere)
delivery_discrete delivered_here delivered_elsewhere = no (λ p. cc p)
delivery_discrete delivered_elsewhere delivered_here = no (λ p. cc p)

pub record Owner : Type 0 where
  pub scope : String
  pub name : String

pub owner_discrete : Discrete Owner
owner_discrete = hlevel string_discrete

abbrev pub Claim : Type 0
Claim = Key × Delivery

-- The errors of the map that the code tells apart.
pub data MapError : Type 0 where
  key_not_exist other_error : MapError

-- The interface `Map`, with what the data plane finds under a key.
pub record AddressMap (T : Type 0) : Type 0 where
  pub update : Key → Delivery → T → Result MapError T
  pub delete : Key → T → Result MapError T
  pub get : T → Key → Option Delivery

-- What a map of the kernel does, and that a delete fails with "no such key" only for a key that is
-- not there.
pub record MapLaws {T : Type 0} (m : AddressMap T) : Type 0 where
  pub get-update :
      (k j : Key) (d : Delivery) (s s' : T)
      → m.update k d s ≡ ok s'
      → m.get s' j ≡ ite (key_discrete k j) (some d) (m.get s j)
  pub get-delete :
      (k j : Key) (s s' : T)
      → m.delete k s ≡ ok s'
      → m.get s' j ≡ ite (key_discrete k j) none (m.get s j)
  pub get_missing : (k : Key) (s : T) → m.delete k s ≡ err key_not_exist → m.get s k ≡ none

pub record Store (T : Type 0) : Type 0 where
  pub kernel : T
  pub claims : Dict Owner (Dict Key Delivery)
  pub installed : Dict Key Delivery

-- `none` is the delivery 0 of a prefix that nobody has claimed yet.
pub preferred_delivery : Option Delivery → Delivery → Delivery
preferred_delivery (some delivered_here) next = delivered_here
preferred_delivery (some delivered_elsewhere) next = next
preferred_delivery none next = next

-- Claims added to what has been claimed so far.
pub merge_claims : Dict Key Delivery → List Claim → Dict Key Delivery
merge_claims claimed [] = claimed
merge_claims claimed ((key, delivery) ∷ rest) =
    merge_claims
      (insert key_discrete key (preferred_delivery (lookup key_discrete key claimed) delivery)
        claimed)
      rest

-- The union of every claim.
pub union : Dict Key Delivery → Dict Owner (Dict Key Delivery) → Dict Key Delivery
union desired [] = desired
union desired ((owner, claimed) ∷ rest) = union (merge_claims desired claimed) rest

key_before : Key → Key → Bool
key_before a b = ltb a.prefixlen b.prefixlen || a.prefixlen == b.prefixlen && ltb a.addr b.addr

insert_key : Key → List Key → List Key
insert_key k [] = k ∷ []
insert_key k (j ∷ rest) = if key_before j k then j ∷ insert_key k rest else k ∷ j ∷ rest

pub sorted_keys : Dict Key Delivery → List Key
unfolding insert_key
sorted_keys [] = []
sorted_keys ((k, d) ∷ rest) = insert_key k (sorted_keys rest)

module _ {T : Type 0} (m : AddressMap T) where
  -- One round of the first loop of `apply`.
  drop_one : Dict Key Delivery → Store T → Key → Store T × Bool
  drop_one desired s key = elim (lookup key_discrete key desired) [
    | some delivery ↦ (s, true)
    | none ↦ elim (m.delete key s.kernel) [
      | ok kernel' ↦
          (record s { kernel = kernel'; installed = erase key_discrete key s.installed }, true)
      | err key_not_exist ↦ (record s { installed = erase key_discrete key s.installed }, true)
      | err other_error ↦ (s, false)
    ]
  ]

  pub drop_all : Dict Key Delivery → List Key → Store T → Store T × Bool
  unfolding drop_one
  drop_all desired [] s = (s, true)
  drop_all desired (k ∷ ks) s =
      let first = drop_one desired s k in
      let rest = drop_all desired ks first.0 in (rest.0, first.1 && rest.1)

  install_one : Store T → Key → Delivery → Store T × Bool
  install_one s key delivery = elim (m.update key delivery s.kernel) [
    | ok kernel' ↦ (
      record s { kernel = kernel'; installed = insert key_discrete key delivery s.installed },
      true,
    )
    | err e ↦ (s, false)
  ]

  is_installed : Option Delivery → Delivery → Bool
  is_installed none delivery = false
  is_installed (some installed) delivery = ite (delivery_discrete installed delivery) true false

  -- One round of the second loop.
  put_one : Dict Key Delivery → Store T → Key → Store T × Bool
  unfolding install_one is_installed
  put_one desired s key = elim (lookup key_discrete key desired) [
    | none ↦ (s, true)
    | some delivery ↦
        if is_installed (lookup key_discrete key s.installed) delivery
        then (s, true)
        else install_one s key delivery
  ]

  pub put_all : Dict Key Delivery → List Key → Store T → Store T × Bool
  unfolding put_one
  put_all desired [] s = (s, true)
  put_all desired (k ∷ ks) s =
      let first = put_one desired s k in
      let rest = put_all desired ks first.0 in (rest.0, first.1 && rest.1)

  pub apply : Store T → Store T × Bool
  apply s =
      let desired = union [] s.claims in
      let dropped = drop_all desired (sorted_keys s.installed) s in
      let done = put_all desired (sorted_keys desired) dropped.0 in (done.0, dropped.1 && done.1)

  pub set : Store T → Owner → List Claim → Store T × Bool
  set s o [] = apply (record s { claims = erase owner_discrete o s.claims })
  set s o (c ∷ cs) =
      apply (record s { claims = insert owner_discrete o (merge_claims [] (c ∷ cs)) s.claims })

  pub without_scope : String → Dict Owner (Dict Key Delivery) → Dict Owner (Dict Key Delivery)
  without_scope scope [] = []
  without_scope scope ((o, claimed) ∷ rest) =
      let kept = without_scope scope rest in
      if str_eq o.scope scope then kept else (o, claimed) ∷ kept

  pub release_scope : Store T → String → Store T × Bool
  release_scope s scope = apply (record s { claims = without_scope scope s.claims })

  -- The methods of `Scope`, with the name of the scope first.
  pub scope_set_claims : String → Store T → String → List Claim → Store T × Bool
  scope_set_claims scope s name claims = set s (record { scope = scope; name = name }) claims

  here : List Key → List Claim
  here [] = []
  here (k ∷ ks) = (k, delivered_here) ∷ here ks

  pub scope_set : String → Store T → String → List Key → Store T × Bool
  scope_set scope s name keys = scope_set_claims scope s name (here keys)

  pub scope_release : String → Store T → String → Store T × Bool
  scope_release scope s name = scope_set_claims scope s name []

  pub scope_release_all : String → Store T → Store T × Bool
  scope_release_all scope s = release_scope s scope
