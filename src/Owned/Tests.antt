-- ===== src/Owned/Tests.antt =====
-- Inputs at which the theorems on claimed addresses apply.
use juneau.Prelude.{
  ℕ, ◌≡◌, ◌≢◌, refl, ap, subst, none, some, [], ◌∷◌, ite, ok, ok-injective, ℕ_discrete,
}
use juneau.Prelude.Text.{string_discrete, str_eq-false}
use juneau.Prelude.Dict.{Dict, lookup, insert, erase, lookup-insert, lookup-erase}
use juneau.Owned.{
  Key, key_discrete, Delivery, delivered_here, delivered_elsewhere, Owner, owner_discrete,
  AddressMap, MapLaws, Store, union, apply, set, drop_all, put_all, sorted_keys, merge_claims,
}
use juneau.Owned.Union.{wanted, all_claims, claimed_in}
use juneau.Owned.Applied.{Mirrors, apply-Mirrors, apply-wanted}
use juneau.Owned.Shared.{set_keeps}

-- A map in memory.
abbrev memory_map : AddressMap (Dict Key Delivery)
memory_map = record {
  update = λ k d s. ok (insert key_discrete k d s);
  delete = λ k s. ok (erase key_discrete k s);
  get = λ s k. lookup key_discrete k s;
}

memory_map-MapLaws : MapLaws memory_map
memory_map-MapLaws = record {
  get-update = λ k j d s s' e.
      subst
        (λ x. lookup key_discrete j x ≡ ite (key_discrete k j) (some d) (lookup key_discrete j s))
        (ok-injective e) (lookup-insert key_discrete j k d s);
  get-delete = λ k j s s' e.
      subst (λ x. lookup key_discrete j x ≡ ite (key_discrete k j) none (lookup key_discrete j s))
        (ok-injective e) (lookup-erase key_discrete j k s);
  get_missing = λ k s e. absurd (cc e);
}

abbrev key : ℕ → Key
key addr = record { prefixlen = 32; addr = addr }

abbrev napt : Owner
napt = record { scope = "napt"; name = "a" }

abbrev arp : Owner
arp = record { scope = "arp"; name = "a" }

-- Two owners claim the key 1; the key 2 is installed and claimed by nobody.
abbrev claimed : Store (Dict Key Delivery)
claimed = record {
  kernel = (key 2, delivered_here) ∷ [];
  claims = (napt, (key 1, delivered_elsewhere) ∷ []) ∷ (arp, (key 1, delivered_here) ∷ []) ∷ [];
  installed = (key 2, delivered_here) ∷ [];
}

apply-Mirrors_example : Mirrors memory_map memory_map-MapLaws (apply memory_map claimed).0
unfolding Mirrors
apply-Mirrors_example = apply-Mirrors memory_map memory_map-MapLaws claimed (λ k. refl)

apply-wanted_example :
    memory_map.get (apply memory_map claimed).0.kernel (key 1)
    ≡ wanted (key 1) (all_claims claimed.claims)
unfolding Mirrors apply drop_all sorted_keys lookup union merge_claims insert key_discrete
    ℕ_discrete put_all erase
apply-wanted_example = apply-wanted memory_map memory_map-MapLaws claimed (key 1) (λ k. refl) refl

set_keeps_example : memory_map.get (set memory_map claimed arp []).0.kernel (key 1) ≢ none
unfolding Mirrors apply set drop_all sorted_keys lookup union merge_claims insert key_discrete
    ℕ_discrete put_all erase owner_discrete string_discrete claimed_in
set_keeps_example =
    set_keeps memory_map memory_map-MapLaws claimed arp napt [] ((key 1, delivered_elsewhere) ∷ [])
      (key 1) (λ k. refl) (λ p. str_eq-false "napt" "arp" refl (ap (λ o. o.scope) p)) refl refl refl
