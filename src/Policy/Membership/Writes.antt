-- ===== src/Policy/Membership/Writes.antt =====
-- What a successful `Apply` or `Delete` of a membership leaves behind.
use Prim.Native.String.{String}
use juneau.Prelude.{
  ℕ, ◌≡◌, ◌≢◌, ◌⊎◌, inl, inr, refl, false, ◌||◌, none, some, List, ◌∷◌, take, length, ite, ◌==◌, ok,
  Result-cases, Option-cases, Bool-cases, if_pos, if_neg, ap, ◌∙◌, arith,
}
use juneau.Prelude.Dict.{lookup, lookup-insert}
use juneau.Policy.Epoch.{Bumper}
use juneau.Policy.Membership.{
  MembershipKey, key_discrete, MembershipTable, TableLaws, MembershipEntry, MembershipStore,
  max_sgs_per_nic, delete_key, delete_stale, bump_and_record, settle, write, apply,
}

module _ (string_discrete : Discrete String) {T B : Type 0} (t : MembershipTable T) (b : Bumper B)
    (laws : TableLaws t) where
  -- Deleting a key leaves nothing under it and every other key as it was.
  pub delete_key_lem :
      (k j : MembershipKey) (s s' : T)
      → delete_key string_discrete t b k s ≡ ok s'
      → t.get s' j ≡ ite (key_discrete k j) none (t.get s j)
  unfolding delete_key
  delete_key_lem k j s s' e = ground (arith, laws.get-delete k j s s', laws.get_missing k s)

  delete_stale_lem :
      (k j : MembershipKey) (s : T)
      → k ≢ j
      → t.get (delete_stale string_discrete t b k s) j ≡ t.get s j
  unfolding delete_stale
  delete_stale_lem k j s n = elim (Result-cases (delete_key string_discrete t b k s)) [
    | inl (s', e) ↦
        rw (e, delete_stale) (delete_key_lem k j s s' e ∙ if_neg (key_discrete k j) n _ _)
    | inr (x, e) ↦ rw (e, delete_stale)
  ]

  -- What recording an entry does, from the state behind the table write.
  abbrev pub Settled : MembershipStore T B → String → MembershipEntry → MembershipStore T B → Type 0
  Settled s owner entry s' =
      (t.get s'.table entry.key ≡ t.get s.table entry.key)
      × (lookup string_discrete owner s'.snapshots ≡ some entry)
      × (((lookup string_discrete owner s.snapshots ≡ some entry) × (s'.bumper ≡ s.bumper))
          ⊎ ((lookup string_discrete owner s.snapshots ≢ some entry)
              × (b.bump s.bumper ≡ ok s'.bumper)))

  pub record_lem :
      (s s' : MembershipStore T B) (owner : String) (entry : MembershipEntry)
      → bump_and_record string_discrete t b s owner entry ≡ (s', none)
      → (s'.table ≡ s.table)
        × (lookup string_discrete owner s'.snapshots ≡ some entry)
        × (b.bump s.bumper ≡ ok s'.bumper)
  unfolding bump_and_record
  record_lem s s' owner entry e =
      ground (arith, lookup-insert string_discrete owner owner entry s.snapshots)

  settle-none :
      (s s' : MembershipStore T B) (owner : String) (entry : MembershipEntry)
      → lookup string_discrete owner s.snapshots ≡ none
      → settle string_discrete t b s owner entry none ≡ (s', none)
      → Settled s owner entry s'
  unfolding settle
  settle-none s s' owner entry h e =
      let (p, q, r) = record_lem s s' owner entry e in
      (ap (λ x. t.get x entry.key) p, q, inr (λ z. ground arith, r))

  settle-some :
      (s s' : MembershipStore T B) (owner : String) (entry previous : MembershipEntry)
      → lookup string_discrete owner s.snapshots ≡ some previous
      → settle string_discrete t b s owner entry (some previous) ≡ (s', none)
      → Settled s owner entry s'
  unfolding settle
  settle-some s s' owner entry previous h e = ground (
    arith,
    record_lem s s' owner entry,
    record_lem (record s { table = delete_stale string_discrete t b previous.key s.table }) s' owner
        entry,
    delete_stale_lem previous.key entry.key s.table,
  )

  -- What a write of an entry leaves behind.
  abbrev pub Written : MembershipStore T B → String → MembershipEntry → MembershipStore T B → Type 0
  Written s owner entry s' =
      (t.get s'.table entry.key ≡ some entry.group_ids)
      × (lookup string_discrete owner s'.snapshots ≡ some entry)
      × (((lookup string_discrete owner s.snapshots ≡ some entry) × (s'.bumper ≡ s.bumper))
          ⊎ ((lookup string_discrete owner s.snapshots ≢ some entry)
              × (b.bump s.bumper ≡ ok s'.bumper)))

  settle_lem :
      (s s' : MembershipStore T B) (owner : String) (entry : MembershipEntry)
      → settle string_discrete t b s owner entry (lookup string_discrete owner s.snapshots)
        ≡ (s', none)
      → Settled s owner entry s'
  settle_lem s s' owner entry e = elim (Option-cases (lookup string_discrete owner s.snapshots)) [
    | inl h ↦ settle-none s s' owner entry h (rw h at e)
    | inr (previous, h) ↦ settle-some s s' owner entry previous h (rw h at e)
  ]

  write_lem :
      (s s' : MembershipStore T B) (owner : String) (key : MembershipKey) (group_ids : List ℕ)
      → write string_discrete t b s owner key group_ids ≡ (s', none)
      → Written s owner (record { key = key; group_ids = group_ids }) s'
  unfolding write
  write_lem s s' owner key group_ids e = elim (Result-cases (t.update key group_ids s.table)) [
    | inr (x, h) ↦ ground arith
    | inl (table', h) ↦
        let entry : MembershipEntry = record { key = key; group_ids = group_ids } in
        let (p, q, r) =
          settle_lem (record s { table = table' }) s' owner entry (rw (h, write) at e) in
        let k = laws.get-update key key group_ids s.table table' h in
        (p ∙ k ∙ if_pos (key_discrete key key) refl _ _, q, r)
  ]

  -- After an `Apply` with at least one group that ends with no error, the data plane finds the
  -- first two groups under the key, the snapshot of the owner says so, and the generation was
  -- bumped exactly if the snapshot said something else before, or nothing.
  pub apply-Settled :
      (s s' : MembershipStore T B) (owner : String) (key : MembershipKey) (group : ℕ)
      (groups : List ℕ)
      → apply string_discrete t b s owner key (group ∷ groups) ≡ (s', none)
      → Written s owner (record { key = key; group_ids = take max_sgs_per_nic (group ∷ groups) }) s'
  unfolding apply
  apply-Settled s s' owner key group groups e =
      let group_ids = take max_sgs_per_nic (group ∷ groups) in
      let entry : MembershipEntry = record { key = key; group_ids = group_ids } in
      elim (Bool-cases (key.vpc_id == 0 || key.ipv4 == 0)) [
        | inl z ↦ ground arith
        | inr n ↦
            let f : (length group_ids == 0) ≡ false = ground arith in
            write_lem s s' owner key group_ids (rw f at (rw n at e))
      ]
