-- ===== src/Prefixes/Sources.antt =====
-- The resources that a merged prefix is traced to:
-- bgp-speaker/internal/prefixsource/aggregator.go.
use Prim.Native.String.{String}
use juneau.Prelude.{
  ◌≡◌, refl, sym, ap, ◌∙◌, inl, inr, arith, Bool, true, false, ◌&&◌, ◌||◌, Bool-cases, Option, none,
  some, List, [], ◌∷◌, ◌++◌, any, ite, if_pos, if_neg, Result, ok, err, >>=-eq-ok, ok-injective,
}
use juneau.Prelude.Dict.{Dict, lookup, lookup-insert}
use juneau.Prelude.Text.{string_discrete}
use juneau.Prefixes.{
  Ref, same_ref, SourceAdvertisement, SourceResult, Source, PrefixRecord, PrefixSet, Aggregated,
  Gathered, ref_of, sources_by_cidr, add_source, found_or_new, add, add_prefixes, add_all, collect,
  gather, finish, aggregate,
}

lists : Ref → List Ref → Bool
lists ref sources = any (λ existing. same_ref existing ref) sources

-- The refs of a text in a map from texts to refs.
unfoldable pub traced : String → Ref → Dict String (List Ref) → Bool
unfolding lists
traced c ref m = elim (lookup string_discrete c m) [ none ↦ false | some refs ↦ lists ref refs ]

shown : {N : Type 0} → Ref → Option (PrefixRecord N) → Bool
shown ref none = false
shown ref (some rec) = lists ref rec.sources

has_ref : {N : Type 0} → String → Ref → PrefixSet N → Bool
unfolding shown
has_ref c ref s = shown ref (lookup string_discrete c s)

or_false : (b : Bool) → b ≡ b || false
or_false b = ground arith

or_assoc : (a b c : Bool) → (a || b) || c ≡ a || (b || c)
or_assoc a b c = ground arith

same_ref_trans : (e a b : Ref) → same_ref e a ≡ true → same_ref a b ≡ true → same_ref e b ≡ true
unfolding same_ref
same_ref_trans e a b p q = ground (arith, p, q)

lists_trans :
    (a b : Ref) (xs : List Ref) → lists a xs ≡ true → same_ref a b ≡ true → lists b xs ≡ true
unfolding lists
lists_trans a b [] p q = absurd (cc p)
lists_trans a b (x ∷ xs) p q = elim (Bool-cases (same_ref x a)) [
  | inl e ↦ rw (same_ref_trans x a b e q) refl
  | inr e ↦ ground (arith, lists_trans a b xs (rw e at p) q)
]

lists-append : (b : Ref) (xs ys : List Ref) → lists b (xs ++ ys) ≡ lists b xs || lists b ys
unfolding lists
lists-append b [] ys = refl
lists-append b (x ∷ xs) ys = ground (arith, lists-append b xs ys)

lists-single : (b a : Ref) → lists b (a ∷ []) ≡ same_ref a b
unfolding lists
lists-single b a = ground arith

lists-add_source :
    (a b : Ref) (xs : List Ref) → lists b (add_source a xs) ≡ lists b xs || same_ref a b
unfolding add_source lists
lists-add_source a b xs = elim (Bool-cases (lists a xs)) [
  | inr e ↦
      rw (add_source, lists, e)
        (lists-append b xs (a ∷ []) ∙ ap (λ (x : Bool). lists b xs || x) (lists-single b a))
  | inl e ↦ elim (Bool-cases (same_ref a b)) [
    | inl f ↦ rw (add_source, lists, e, f, lists_trans a b xs e f) refl
    | inr f ↦ rw (add_source, lists, e, f) (ground arith)
  ]
]

is_text : String → String → Bool
is_text key c = ite (string_discrete key c) true false

module _ {N : Type 0} (canonical_cidr : N → N) (text : N → String) where
  -- The network is the one of the text, and the resource the one that is asked for.
  unfoldable pub names : String → Ref → N → Ref → Bool
  unfolding is_text same_ref
  names c r p ref = is_text (text (canonical_cidr p)) c && same_ref ref r

  any_prefix : String → Ref → Ref → List (Option N) → Bool
  unfolding names
  any_prefix c r ref [] = false
  any_prefix c r ref (none ∷ ps) = any_prefix c r ref ps
  any_prefix c r ref (some p ∷ ps) = names c r p ref || any_prefix c r ref ps

  any_ad : String → Ref → List (SourceAdvertisement N) → Bool
  unfolding any_prefix ref_of
  any_ad c r [] = false
  any_ad c r (ad ∷ ads) = any_prefix c r (ref_of ad) ad.prefixes || any_ad c r ads

  any_build : String → Ref → Result String (SourceResult N) → Bool
  any_build c r (err e) = false
  any_build c r (ok res) = any_ad c r res.advertisements

  -- Some advertisement of some source, made by the resource, has_ref a prefix of that network.
  unfoldable pub announced : String → Ref → List (Source N) → Bool
  unfolding any_ad any_build
  announced c r [] = false
  announced c r (s ∷ sources) = any_build c r s.build || announced c r sources

  has_ref-found :
      (r a : Ref) (canonical : N) (o : Option (PrefixRecord N))
      → lists r (add_source a (found_or_new canonical o).sources) ≡ shown r o || same_ref a r
  unfolding found_or_new shown lists same_ref
  has_ref-found r a canonical none = lists-add_source a r []
  has_ref-found r a canonical (some rec) = lists-add_source a r rec.sources

  names-same :
      (c : String) (r a : Ref) (p : N) → text (canonical_cidr p) ≡ c → names c r p a ≡ same_ref a r
  unfolding names is_text
  names-same c r a p e =
      ap (λ (x : Bool). x && same_ref a r)
        (if_pos (string_discrete (text (canonical_cidr p)) c) e true false)

  names-other :
      (c : String) (r a : Ref) (p : N) → (text (canonical_cidr p) ≡ c → ⊥) → names c r p a ≡ false
  unfolding names is_text
  names-other c r a p n =
      ap (λ (x : Bool). x && same_ref a r)
        (if_neg (string_discrete (text (canonical_cidr p)) c) n true false)

  has_ref-add :
      (c : String) (r a : Ref) (p : N) (s : PrefixSet N)
      → has_ref c r (add canonical_cidr text p a s) ≡ has_ref c r s || names c r p a
  unfolding add has_ref shown
  has_ref-add c r a p s =
      let key = text (canonical_cidr p) in
      let old = found_or_new (canonical_cidr p) (lookup string_discrete key s) in
      let rec : PrefixRecord N = record old { sources = add_source a old.sources } in
      ap (shown r) (lookup-insert string_discrete c key rec s) ∙ elim (string_discrete key c) [
        | Dec.yes e ↦
            ap (shown r) (if_pos (string_discrete key c) e (some rec) (lookup string_discrete c s))
            ∙ has_ref-found r a (canonical_cidr p) (lookup string_discrete key s)
            ∙ ap (λ (k : String). shown r (lookup string_discrete k s) || same_ref a r) e
            ∙ ap (λ (x : Bool). shown r (lookup string_discrete c s) || x)
                (sym (names-same c r a p e))
        | Dec.no n ↦
            ap (shown r) (if_neg (string_discrete key c) n (some rec) (lookup string_discrete c s))
            ∙ or_false (shown r (lookup string_discrete c s))
            ∙ ap (λ (x : Bool). shown r (lookup string_discrete c s) || x)
                (sym (names-other c r a p n))
      ]

  has_ref-add_prefixes :
      (c : String) (r a : Ref) (ps : List (Option N)) (s : PrefixSet N)
      → has_ref c r (add_prefixes canonical_cidr text a ps s) ≡ has_ref c r s || any_prefix c r a ps
  unfolding add_prefixes any_prefix
  has_ref-add_prefixes c r a [] s = or_false (has_ref c r s)
  has_ref-add_prefixes c r a (none ∷ ps) s = has_ref-add_prefixes c r a ps s
  has_ref-add_prefixes c r a (some p ∷ ps) s =
      has_ref-add_prefixes c r a ps (add canonical_cidr text p a s)
      ∙ ap (λ (x : Bool). x || any_prefix c r a ps) (has_ref-add c r a p s)
      ∙ or_assoc (has_ref c r s) (names c r p a) (any_prefix c r a ps)

  has_ref-add_all :
      (c : String) (r : Ref) (ads : List (SourceAdvertisement N)) (s : PrefixSet N)
      → has_ref c r (add_all canonical_cidr text ads s) ≡ has_ref c r s || any_ad c r ads
  unfolding add_all any_ad
  has_ref-add_all c r [] s = or_false (has_ref c r s)
  has_ref-add_all c r (ad ∷ ads) s =
      has_ref-add_all c r ads (add_prefixes canonical_cidr text (ref_of ad) ad.prefixes s)
      ∙ ap (λ (x : Bool). x || any_ad c r ads) (has_ref-add_prefixes c r (ref_of ad) ad.prefixes s)
      ∙ or_assoc (has_ref c r s) (any_prefix c r (ref_of ad) ad.prefixes) (any_ad c r ads)

  has_ref-gather :
      (c : String) (r : Ref) (sources : List (Source N)) (g out : Gathered N)
      → gather canonical_cidr text sources g ≡ ok out
      → has_ref c r out.merged ≡ has_ref c r g.merged || announced c r sources
  unfolding gather announced any_build collect
  has_ref-gather c r [] g out e =
      ap (λ (x : Gathered N). has_ref c r x.merged) (sym (ok-injective e))
      ∙ or_false (has_ref c r g.merged)
  has_ref-gather c r (s ∷ sources) g out e =
      let (res, built, rest) = >>=-eq-ok s.build _ e in
      has_ref-gather c r sources (collect canonical_cidr text s.name res g) out rest
      ∙ ap (λ (x : Bool). x || announced c r sources)
          (has_ref-add_all c r res.advertisements g.merged)
      ∙ or_assoc (has_ref c r g.merged) (any_ad c r res.advertisements) (announced c r sources)
      ∙ ap
          (λ (x : Result String (SourceResult N)).
            has_ref c r g.merged || (any_build c r x || announced c r sources))
          (sym built)

  traced-shown :
      (c : String) (r : Ref) (s : PrefixSet N) → traced c r (sources_by_cidr s) ≡ has_ref c r s
  unfolding traced has_ref shown sources_by_cidr lookup
  traced-shown c r [] = refl
  traced-shown c r ((k, rec) ∷ s) = ground (arith, traced-shown c r s)

  -- If no source fails, the refs of a network in the result are exactly the resources of which some
  -- source has_ref an advertisement with a prefix of that network, whatever address of the network the
  -- prefix was written with.
  pub aggregate-traced :
      (c : String) (r : Ref) (sources : List (Source N)) (out : Aggregated N)
      → aggregate canonical_cidr text sources ≡ ok out
      → traced c r out.prefix_sources ≡ announced c r sources
  unfolding aggregate finish has_ref shown lookup
  aggregate-traced c r sources out e =
      let (g, gathered, finished) = >>=-eq-ok (gather canonical_cidr text sources _) _ e in
      ap (λ (x : Aggregated N). traced c r x.prefix_sources) (sym (ok-injective finished))
      ∙ traced-shown c r g.merged
      ∙ has_ref-gather c r sources _ g gathered
