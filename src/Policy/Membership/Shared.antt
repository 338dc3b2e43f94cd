-- ===== src/Policy/Membership/Shared.antt =====
-- Two owners of one address. `Apply` deletes the previous key of an owner without asking whether
-- another owner has claimed it since.
use Prim.Native.String.{String}
use juneau.Prelude.{
  ℕ, ◌≡◌, ◌≢◌, refl, none, some, List, ◌∷◌, take, length, ◌==◌, ◌||◌, false, Bool-cases, err,
  Result-cases, inl, inr, if_pos, arith, ◌∙◌, sym,
}
use juneau.Prelude.Dict.{lookup, lookup-insert}
use juneau.Policy.Epoch.{Bumper}
use juneau.Policy.Membership.{
  MembershipKey, key_discrete, other_error, MembershipTable, TableLaws, MembershipEntry,
  MembershipStore, max_sgs_per_nic, delete_key, delete_stale, bump_and_record, settle, write, apply,
}
use juneau.Policy.Membership.Writes.{delete_key_lem, record_lem}

module _ (string_discrete : Discrete String) {T B : Type 0} (t : MembershipTable T) (b : Bumper B)
    (laws : TableLaws t) where
  -- The table never refuses to delete this key.
  abbrev pub Deletable : MembershipKey → Type 0
  Deletable k = (s : T) → t.delete k s ≢ err other_error

  delete_stale_gone :
      (k : MembershipKey) (s : T)
      → Deletable k
      → t.get (delete_stale string_discrete t b k s) k ≡ none
  unfolding delete_stale delete_key
  delete_stale_gone k s d = elim (Result-cases (delete_key string_discrete t b k s)) [
    | inl (s', e) ↦
        rw (e, delete_stale)
          (delete_key_lem string_discrete t b laws k k s s' e ∙ if_pos (key_discrete k k) refl _ _)
    | inr (x, e) ↦ absurd (ground (arith, d s))
  ]

  bump_others :
      (s s' : MembershipStore T B) (owner other : String) (entry : MembershipEntry)
      → other ≢ owner
      → bump_and_record string_discrete t b s owner entry ≡ (s', none)
      → lookup string_discrete other s'.snapshots ≡ lookup string_discrete other s.snapshots
  unfolding bump_and_record
  bump_others s s' owner other entry n e =
      ground (arith, lookup-insert string_discrete other owner entry s.snapshots)

  settle_drops :
      (s s' : MembershipStore T B) (owner other : String) (entry previous : MembershipEntry)
      → other ≢ owner
      → previous.key ≢ entry.key
      → Deletable previous.key
      → settle string_discrete t b s owner entry (some previous) ≡ (s', none)
      → (t.get s'.table previous.key ≡ none)
        × (lookup string_discrete other s'.snapshots ≡ lookup string_discrete other s.snapshots)
  unfolding settle
  settle_drops s s' owner other entry previous n m d e =
      let moved : MembershipStore T B = record s {
        table = delete_stale string_discrete t b previous.key s.table;
      } in
      ground (
        arith,
        record_lem string_discrete t b laws moved s' owner entry,
        bump_others moved s' owner other entry n,
        delete_stale_gone previous.key s.table d,
      )

  -- If two owners are recorded under one key, which the table never refuses to delete, and one of
  -- them moves to another key with no error, then the data plane finds nothing under the old key
  -- any more, although the other owner is still recorded there with its groups.
  pub apply_drops_shared :
      (s s' : MembershipStore T B) (owner other : String) (old key : MembershipKey) (group : ℕ)
      (groups owner_groups other_groups : List ℕ)
      → other ≢ owner
      → key ≢ old
      → Deletable old
      → lookup string_discrete owner s.snapshots
        ≡ some (record { key = old; group_ids = owner_groups })
      → lookup string_discrete other s.snapshots
        ≡ some (record { key = old; group_ids = other_groups })
      → apply string_discrete t b s owner key (group ∷ groups) ≡ (s', none)
      → (t.get s'.table old ≡ none)
        × (lookup string_discrete other s'.snapshots
            ≡ some (record { key = old; group_ids = other_groups }))
  unfolding apply write
  apply_drops_shared s s' owner other old key group groups owner_groups other_groups n m d h k e =
      let group_ids = take max_sgs_per_nic (group ∷ groups) in
      let entry : MembershipEntry = record { key = key; group_ids = group_ids } in
      let f : (length group_ids == 0) ≡ false = ground arith in
      elim (Bool-cases (key.vpc_id == 0 || key.ipv4 == 0)) [
        | inl z ↦ ground arith
        | inr z ↦ elim (Result-cases (t.update key group_ids s.table)) [
          | inr (x, u) ↦ let w = rw f at (rw z at e) in ground (arith, w)
          | inl (table', u) ↦
              let w = rw h at (rw (u, write) at (rw f at (rw z at e))) in
              let (p, q) =
                settle_drops (record s { table = table' }) s' owner other entry
                  (record { key = old; group_ids = owner_groups }) n (λ r. m (sym r)) d w in
              (p, q ∙ k)
        ]
      ]
