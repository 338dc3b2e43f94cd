-- ===== src/Owned/Shared.antt =====
-- A prefix that several owners claim.
use juneau.Prelude.{
  ◌≡◌, ◌≢◌, refl, sym, ◌∙◌, true, ◌||◌, none, some, List, [], ◌∷◌, ◌++◌, arith, if_neg,
}
use juneau.Prelude.Dict.{Dict, lookup, insert, erase, lookup-insert, lookup-erase}
use juneau.Owned.{
  Key, Delivery, Owner, owner_discrete, Claim, AddressMap, MapLaws, Store, merge_claims, set, apply,
}
use juneau.Owned.Union.{wanted, all_claims, claimed_in}
use juneau.Owned.Applied.{Mirrors, apply-wanted}

claimed_in-append :
    (key : Key) (cs ds : List Claim)
    → claimed_in key (cs ++ ds) ≡ (claimed_in key cs || claimed_in key ds)
unfolding claimed_in
claimed_in-append key [] ds = refl
claimed_in-append key ((k, d) ∷ cs) ds = ground (arith, claimed_in-append key cs ds)

claimed_in-all_claims :
    (claims : Dict Owner (Dict Key Delivery)) (owner : Owner) (claimed : Dict Key Delivery)
    (key : Key)
    → lookup owner_discrete owner claims ≡ some claimed
    → claimed_in key claimed ≡ true
    → claimed_in key (all_claims claims) ≡ true
unfolding all_claims lookup
claimed_in-all_claims [] owner claimed key e h = absurd (cc e)
claimed_in-all_claims ((o, c) ∷ claims) owner claimed key e h = ground (
  arith,
  claimed_in-append key c (all_claims claims),
  claimed_in-all_claims claims owner claimed key,
)

wanted-none : (key : Key) (cs : List Claim) → claimed_in key cs ≡ true → wanted key cs ≢ none
unfolding wanted
wanted-none key cs h e = ground arith

module _ {T : Type 0} (m : AddressMap T) (laws : MapLaws m) where
  apply_keeps :
      (s : Store T) (owner : Owner) (claimed : Dict Key Delivery) (key : Key)
      → Mirrors m laws s
      → lookup owner_discrete owner s.claims ≡ some claimed
      → claimed_in key claimed ≡ true
      → (apply m s).1 ≡ true
      → m.get (apply m s).0.kernel key ≢ none
  apply_keeps s owner claimed key v e h a p =
      wanted-none key (all_claims s.claims) (claimed_in-all_claims s.claims owner claimed key e h)
        (sym (apply-wanted m laws s key v a) ∙ p)

  -- If the store's record of the map is true and one owner's claims are replaced, or released, without
  -- an error, the data plane still finds every key that another owner claims.
  pub set_keeps :
      (s : Store T) (o other : Owner) (claims : List Claim) (claimed : Dict Key Delivery)
      (key : Key)
      → Mirrors m laws s
      → other ≢ o
      → lookup owner_discrete other s.claims ≡ some claimed
      → claimed_in key claimed ≡ true
      → (set m s o claims).1 ≡ true
      → m.get (set m s o claims).0.kernel key ≢ none
  unfolding set Mirrors
  set_keeps s o other [] claimed key v n e h a =
      apply_keeps (record s { claims = erase owner_discrete o s.claims }) other claimed key v
        (lookup-erase owner_discrete other o s.claims
          ∙ if_neg (owner_discrete o other) (λ p. n (sym p)) _ _
          ∙ e)
        h a
  set_keeps s o other (c ∷ cs) claimed key v n e h a =
      apply_keeps
        (record s { claims = insert owner_discrete o (merge_claims [] (c ∷ cs)) s.claims }) other
        claimed key v
        (lookup-insert owner_discrete other o (merge_claims [] (c ∷ cs)) s.claims
          ∙ if_neg (owner_discrete o other) (λ p. n (sym p)) _ _
          ∙ e)
        h a
