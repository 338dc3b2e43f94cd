-- ===== src/Sweep/Read.antt =====
-- The snapshot of a map by batches: daemon/internal/daemon/dataplane/internal/mapsweep/mapsweep.go.
use juneau.Prelude.{
  ℕ, zero, suc, ◌*◌, ◌≡◌, ◌<◌, min, Bool, Option, none, some, List, [], ◌++◌, leb, if◌then◌else◌,
  Result, ok, err,
}
use juneau.Sweep.{
  Entry, MapError, key_not_exist, no_space, other_error, SweepError, unsupported_map, read_failed,
  bucket_too_large,
}

abbrev pub default_chunk : ℕ
default_chunk = 4096

-- `BatchLookup` with a buffer of a size, from a cursor: the new cursor and the new state of the map,
-- the entries, and the error. `is_hash` says that the map is a HASH or an LRU_HASH.
pub record Batch (K V C S : Type 0) : Type 0 where
  pub is_hash : Bool
  pub max_entries : ℕ
  pub batch : ℕ → C → S → C × S × List (Entry K V) × Option MapError

-- The cursor is a bucket: a batch without an error goes on to later buckets, and one that does not
-- fit stays where it is. `left` counts the buckets from the cursor on.
pub record BatchLaws {K V C S : Type 0} (m : Batch K V C S) (left : C → ℕ) : Type 0 where
  pub advances :
      (size : ℕ) (c : C) (s : S) → (m.batch size c s).3 ≡ none → left (m.batch size c s).0 < left c
  pub stays :
      (size : ℕ) (c : C) (s : S)
      → (m.batch size c s).3 ≡ some no_space
      → left (m.batch size c s).0 ≡ left c

module _ {K V C S : Type 0} (m : Batch K V C S) where
  -- The loop of `snapshot` on fuel; `none` when the fuel is used up.
  unfoldable pub read_on :
      ℕ → ℕ → C → List (Entry K V) → S → Option (S × Result SweepError (List (Entry K V)))
  read_on zero size c out s = none
  read_on (suc fuel) size c out s =
      let r = m.batch size c s in
      let read = out ++ r.2 in
      let next = read_on fuel size r.0 read r.1 in
      let larger = read_on fuel (min (2 * size) m.max_entries) r.0 read r.1 in
      elim r.3 [
        | none ↦ next
        | some key_not_exist ↦ some (r.1, ok read)
        | some no_space ↦
            if leb m.max_entries size then some (r.1, err bucket_too_large) else larger
        | some other_error ↦ some (r.1, err read_failed)
      ]

  unfoldable pub read_all : ℕ → C → S → Option (S × Result SweepError (List (Entry K V)))
  unfolding read_on
  read_all fuel start s =
      if m.is_hash
      then read_on fuel (min default_chunk m.max_entries) start [] s
      else some (s, err unsupported_map)
