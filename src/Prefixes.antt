-- ===== src/Prefixes.antt =====
-- The merging of the prefixes that the BGP speaker announces:
-- bgp-speaker/internal/prefixsource/aggregator.go and source.go. A source's `Build` is the result that
-- it returns for the input; the network-address form and the text of a network, of Go's net, are
-- parameters.
pub mod Sources
mod Tests
use Prim.Native.String.{String, compare}
use Prim.Native.Nat.{Ordering}
use juneau.Prelude.{
  Bool, true, false, Option, none, some, List, [], ◌∷◌, ◌++◌, any, map, ite, if◌then◌else◌, Result,
  ok, err, ◌>>=◌,
}
use juneau.Prelude.Dict.{Dict, lookup, insert}
use juneau.Prelude.Text.{string_discrete}

pub record Ref : Type 0 where
  pub kind : String
  pub namespace : String
  pub name : String

pub ref_discrete : Discrete Ref
ref_discrete = hlevel string_discrete

-- `existing == ref`
unfoldable pub same_ref : Ref → Ref → Bool
same_ref existing ref = ite (ref_discrete existing ref) true false

-- `SourceAdvertisement`; a nil prefix is `none`.
pub record SourceAdvertisement (N : Type 0) : Type 0 where
  pub source_kind : String
  pub source_namespace : String
  pub source_name : String
  pub address_pool : String
  pub prefixes : List (Option N)

-- `Result` of a source, its errors as texts.
pub record SourceResult (N : Type 0) : Type 0 where
  pub advertisements : List (SourceAdvertisement N)
  pub errors : List String

pub record Source (N : Type 0) : Type 0 where
  pub name : String
  pub build : Result String (SourceResult N)

pub record PrefixRecord (N : Type 0) : Type 0 where
  pub prefix : N
  pub sources : List Ref

abbrev pub PrefixSet : Type 0 → Type 0
PrefixSet N = Dict String (PrefixRecord N)

pub record Aggregated (N : Type 0) : Type 0 where
  pub merged_prefixes : List N
  pub advertisements : List (SourceAdvertisement N)
  pub by_source : Dict String (List (SourceAdvertisement N))
  pub prefix_sources : Dict String (List Ref)
  pub records : List (PrefixRecord N)
  pub errors : List String

-- What the loop of `Aggregate` has collected.
pub record Gathered (N : Type 0) : Type 0 where
  pub advertisements : List (SourceAdvertisement N)
  pub by_source : Dict String (List (SourceAdvertisement N))
  pub errors : List String
  pub merged : PrefixSet N

unfoldable pub ref_of : {N : Type 0} → SourceAdvertisement N → Ref
ref_of ad = record { kind = ad.source_kind; namespace = ad.source_namespace; name = ad.source_name }

insert_text : String → List String → List String
insert_text k [] = k ∷ []
insert_text k (j ∷ rest) = elim (compare j k) [
  | Ordering.lt ↦ j ∷ insert_text k rest
  | _ ↦ k ∷ j ∷ rest
]

-- `sort.Strings` of the keys.
sorted_texts : {V : Type 0} → Dict String V → List String
unfolding insert_text
sorted_texts [] = []
sorted_texts ((k, v) ∷ rest) = insert_text k (sorted_texts rest)

unfoldable pub add_source : Ref → List Ref → List Ref
unfolding same_ref
add_source ref sources =
    if any (λ existing. same_ref existing ref) sources then sources else sources ++ ref ∷ []

module _ {N : Type 0} where
  unfoldable pub found_or_new : N → Option (PrefixRecord N) → PrefixRecord N
  found_or_new canonical none = record { prefix = canonical; sources = [] }
  found_or_new canonical (some rec) = rec

  -- The records of keys that are there.
  found_records : PrefixSet N → List String → List (PrefixRecord N)
  found_records s [] = []
  found_records s (k ∷ ks) = elim (lookup string_discrete k s) [
    | none ↦ found_records s ks
    | some rec ↦ rec ∷ found_records s ks
  ]

  records : PrefixSet N → List (PrefixRecord N)
  unfolding found_records sorted_texts
  records s = found_records s (sorted_texts s)

  sorted_prefixes : PrefixSet N → List N
  unfolding records
  sorted_prefixes s = map (λ rec. rec.prefix) (records s)

  unfoldable pub sources_by_cidr : PrefixSet N → Dict String (List Ref)
  sources_by_cidr [] = []
  sources_by_cidr ((k, rec) ∷ rest) = (k, rec.sources) ∷ sources_by_cidr rest

module _ {N : Type 0} (canonical_cidr : N → N) (text : N → String) where
  unfoldable pub add : N → Ref → PrefixSet N → PrefixSet N
  unfolding found_or_new add_source
  add p ref s =
      let canonical = canonical_cidr p in
      let key = text canonical in
      let rec = found_or_new canonical (lookup string_discrete key s) in
      insert string_discrete key (record rec { sources = add_source ref rec.sources }) s

  unfoldable pub add_prefixes : Ref → List (Option N) → PrefixSet N → PrefixSet N
  unfolding add
  add_prefixes ref [] s = s
  add_prefixes ref (none ∷ ps) s = add_prefixes ref ps s
  add_prefixes ref (some p ∷ ps) s = add_prefixes ref ps (add p ref s)

  unfoldable pub add_all : List (SourceAdvertisement N) → PrefixSet N → PrefixSet N
  unfolding add_prefixes ref_of
  add_all [] s = s
  add_all (ad ∷ ads) s = add_all ads (add_prefixes (ref_of ad) ad.prefixes s)

  or_empty : Option (List (SourceAdvertisement N)) → List (SourceAdvertisement N)
  or_empty none = []
  or_empty (some ads) = ads

  unfoldable pub collect : String → SourceResult N → Gathered N → Gathered N
  unfolding add_all or_empty
  collect name r g = record {
    advertisements = g.advertisements ++ r.advertisements;
    by_source =
        insert string_discrete name
          (or_empty (lookup string_discrete name g.by_source) ++ r.advertisements) g.by_source;
    errors = g.errors ++ r.errors;
    merged = add_all r.advertisements g.merged;
  }

  unfoldable pub gather : List (Source N) → Gathered N → Result String (Gathered N)
  unfolding collect
  gather [] g = ok g
  gather (s ∷ sources) g = s.build >>= λ r. gather sources (collect s.name r g)

  finish : Gathered N → Aggregated N
  unfolding sorted_prefixes sources_by_cidr records
  finish g = record {
    merged_prefixes = sorted_prefixes g.merged;
    advertisements = g.advertisements;
    by_source = g.by_source;
    prefix_sources = sources_by_cidr g.merged;
    records = records g.merged;
    errors = g.errors;
  }

  unfoldable pub aggregate : List (Source N) → Result String (Aggregated N)
  unfolding gather finish
  aggregate sources =
      gather sources (record { advertisements = []; by_source = []; errors = []; merged = [] })
      >>= λ g. ok (finish g)
