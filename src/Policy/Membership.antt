-- ===== src/Policy/Membership.antt =====
-- The security groups of each address: daemon/internal/daemon/dataplane/policy/membership.go. The
-- BPF table sg_membership_map is a parameter; a failed call leaves it as it was. Calls
-- are taken one after another: the source holds the store's lock from the read of the snapshots on,
-- but writes the table before that, so that it can interleave two calls there.
pub mod Writes
pub mod Shared
mod Tests
use Prim.Native.String.{String}
use juneau.Prelude.{
  ℕ, Bool, true, false, ◌||◌, Option, none, some, List, [], ◌∷◌, take, length, ◌≡◌, ite, ◌==◌,
  if◌then◌else◌, Result, ok, err, ℕ_discrete,
}
use juneau.Prelude.Dict.{Dict, lookup, insert, erase}
use juneau.Policy.Epoch.{IoError, Bumper}

pub record MembershipKey : Type 0 where
  pub vpc_id : ℕ
  pub ipv4 : ℕ

pub key_discrete : Discrete MembershipKey
key_discrete = hlevel ℕ_discrete

-- The errors of an `ebpf.Map` that the code tells apart.
pub data MapError : Type 0 where
  key_not_exist other_error : MapError

-- The interface `membershipTable`, with what the data plane finds under a key.
pub record MembershipTable (T : Type 0) : Type 0 where
  pub update : MembershipKey → List ℕ → T → Result MapError T
  pub delete : MembershipKey → T → Result MapError T
  pub get : T → MembershipKey → Option (List ℕ)

-- What a hash map of the kernel does, and that a delete fails with "no such key" only for one that
-- is not there.
pub record TableLaws {T : Type 0} (t : MembershipTable T) : Type 0 where
  pub get-update :
      (k j : MembershipKey) (groups : List ℕ) (s s' : T)
      → t.update k groups s ≡ ok s'
      → t.get s' j ≡ ite (key_discrete k j) (some groups) (t.get s j)
  pub get-delete :
      (k j : MembershipKey) (s s' : T)
      → t.delete k s ≡ ok s'
      → t.get s' j ≡ ite (key_discrete k j) none (t.get s j)
  pub get_missing :
      (k : MembershipKey) (s : T) → t.delete k s ≡ err key_not_exist → t.get s k ≡ none

pub record MembershipEntry : Type 0 where
  pub key : MembershipKey
  pub group_ids : List ℕ

pub entry_discrete : Discrete MembershipEntry
entry_discrete = hlevel ℕ_discrete

pub record MembershipStore (T B : Type 0) : Type 0 where
  pub table : T
  pub bumper : B
  pub snapshots : Dict String MembershipEntry

pub data MembershipError : Type 0 where
  invalid_key write_failed delete_failed invalidate_failed : MembershipError

abbrev pub max_sgs_per_nic : ℕ
max_sgs_per_nic = 2

-- `string_discrete` is Go's equality of strings.
module _ (string_discrete : Discrete String) {T B : Type 0} (t : MembershipTable T)
    (b : Bumper B) where
  -- `deleteKey`: an entry that is not there is no error.
  unfoldable pub delete_key : MembershipKey → T → Result MapError T
  delete_key k s = elim (t.delete k s) [
    | ok s' ↦ ok s'
    | err key_not_exist ↦ ok s
    | err other_error ↦ err other_error
  ]

  finish_delete : MembershipStore T B → String → MembershipStore T B × Option MembershipError
  finish_delete s owner = elim (b.bump s.bumper) [
    | err e ↦ (s, some invalidate_failed)
    | ok bumper' ↦
        (record s { bumper = bumper'; snapshots = erase string_discrete owner s.snapshots }, none)
  ]

  -- The state after the call, and its error.
  unfoldable pub delete :
      MembershipStore T B → String → MembershipStore T B × Option MembershipError
  unfolding finish_delete
  delete s owner = elim (lookup string_discrete owner s.snapshots) [
    | none ↦ (s, none)
    | some previous ↦ elim (delete_key previous.key s.table) [
      | err e ↦ (s, some delete_failed)
      | ok table' ↦ finish_delete (record s { table = table' }) owner
    ]
  ]

  -- A stale entry that cannot be deleted is only logged.
  pub delete_stale : MembershipKey → T → T
  delete_stale k s = elim (delete_key k s) [ ok s' ↦ s' | err e ↦ s ]

  pub bump_and_record :
      MembershipStore T B → String → MembershipEntry → MembershipStore T B × Option MembershipError
  bump_and_record s owner entry = elim (b.bump s.bumper) [
    | err e ↦ (s, some invalidate_failed)
    | ok bumper' ↦ (
      record s { bumper = bumper'; snapshots = insert string_discrete owner entry s.snapshots },
      none,
    )
  ]

  -- The part of `Apply` behind the table write.
  pub settle :
      MembershipStore T B
      → String
      → MembershipEntry
      → Option MembershipEntry
      → MembershipStore T B × Option MembershipError
  unfolding delete_stale bump_and_record
  settle s owner entry none = bump_and_record s owner entry
  settle s owner entry (some previous) =
      let s' : MembershipStore T B =
        ite (key_discrete previous.key entry.key) s
          (record s { table = delete_stale previous.key s.table }) in
      ite (entry_discrete previous entry) (s', none) (bump_and_record s' owner entry)

  pub write :
      MembershipStore T B
      → String
      → MembershipKey
      → List ℕ
      → MembershipStore T B × Option MembershipError
  unfolding settle
  write s owner key group_ids = elim (t.update key group_ids s.table) [
    | err e ↦ (s, some write_failed)
    | ok table' ↦
        settle (record s { table = table' }) owner (record { key = key; group_ids = group_ids })
          (lookup string_discrete owner s.snapshots)
  ]

  unfoldable pub apply :
      MembershipStore T B
      → String
      → MembershipKey
      → List ℕ
      → MembershipStore T B × Option MembershipError
  unfolding write
  apply s owner key val =
      if key.vpc_id == 0 || key.ipv4 == 0
      then (s, some invalid_key)
      else (let group_ids = take max_sgs_per_nic val in
          if length group_ids == 0 then delete s owner else write s owner key group_ids)
