-- ===== src/Prefixes/Tests.antt =====
-- An input at which the theorem on the aggregation applies.
use Prim.Native.String.{String}
use juneau.Prelude.{◌≡◌, refl, none, some, [], ◌∷◌, ok}
use juneau.Prelude.Dict.{insert, lookup}
use juneau.Prelude.Text.{string_discrete}
use juneau.Prefixes.{Ref, Source, aggregate, Aggregated}
use juneau.Prefixes.Sources.{traced, announced, aggregate-traced}

abbrev ref : Ref
ref = record { kind = "BGPAdvertisement"; namespace = "a"; name = "pool" }

-- Networks as texts that are in their form already.
abbrev pool : Source String
pool = record {
  name = "pools";
  build = ok (record {
    advertisements =
        record {
          source_kind = "BGPAdvertisement";
          source_namespace = "a";
          source_name = "pool";
          address_pool = "pool";
          prefixes = some "203.0.113.0/24" ∷ none ∷ [];
        }
        ∷ [];
    errors = [];
  });
}

abbrev result : Aggregated String
result = record {
  merged_prefixes = "203.0.113.0/24" ∷ [];
  advertisements =
      record {
        source_kind = "BGPAdvertisement";
        source_namespace = "a";
        source_name = "pool";
        address_pool = "pool";
        prefixes = some "203.0.113.0/24" ∷ none ∷ [];
      }
      ∷ [];
  by_source =
      (
        "pools",
        record {
          source_kind = "BGPAdvertisement";
          source_namespace = "a";
          source_name = "pool";
          address_pool = "pool";
          prefixes = some "203.0.113.0/24" ∷ none ∷ [];
        }
            ∷ [],
      )
      ∷ [];
  prefix_sources = ("203.0.113.0/24", ref ∷ []) ∷ [];
  records = record { prefix = "203.0.113.0/24"; sources = ref ∷ [] } ∷ [];
  errors = [];
}

aggregate-traced_example :
    traced "203.0.113.0/24" ref result.prefix_sources
    ≡ announced (λ n. n) (λ n. n) "203.0.113.0/24" ref (pool ∷ [])
unfolding aggregate insert lookup string_discrete
aggregate-traced_example =
    aggregate-traced (λ n. n) (λ n. n) "203.0.113.0/24" ref (pool ∷ []) result refl
