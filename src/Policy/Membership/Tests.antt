-- ===== src/Policy/Membership/Tests.antt =====
-- Inputs at which the theorems on memberships apply.
use juneau.Prelude.{ℕ, ◌≡◌, refl, ap, none, some, List, [], ◌∷◌, ℕ_discrete, arith}
use juneau.Prelude.Text.{string_discrete, str_eq-false}
use juneau.Prelude.Dict.{Dict, lookup, insert, erase}
use juneau.Policy.Membership.{
  MembershipKey, key_discrete, MembershipStore, MembershipEntry, entry_discrete, apply, write,
  settle, bump_and_record, delete_stale, delete_key,
}
use juneau.Policy.Membership.Writes.{Written, apply-Settled}
use juneau.Policy.Membership.Shared.{apply_drops_shared}
use juneau.Policy.InMemory.{memory_table, memory_table-TableLaws, memory_bumper}

abbrev key : ℕ → MembershipKey
key ipv4 = record { vpc_id = 5; ipv4 = ipv4 }

abbrev entry : ℕ → List ℕ → MembershipEntry
entry ipv4 groups = record { key = key ipv4; group_ids = groups }

-- Two owners are recorded under one key.
abbrev shared : MembershipStore (Dict MembershipKey (List ℕ)) ℕ
shared = record {
  table = (key 10, 1 ∷ []) ∷ [];
  bumper = 3;
  snapshots = ("nic-a", entry 10 (1 ∷ [])) ∷ ("nic-b", entry 10 (1 ∷ [])) ∷ [];
}

abbrev moved : MembershipStore (Dict MembershipKey (List ℕ)) ℕ
moved =
    (apply string_discrete memory_table memory_bumper shared "nic-a" (key 11) (1 ∷ 2 ∷ 3 ∷ [])).0

apply-Settled_example :
    Written string_discrete memory_table memory_bumper memory_table-TableLaws shared "nic-a"
      (entry 11 (1 ∷ 2 ∷ []))
      moved
unfolding apply write settle bump_and_record delete_stale delete_key lookup insert erase
    string_discrete key_discrete entry_discrete ℕ_discrete
apply-Settled_example =
    apply-Settled string_discrete memory_table memory_bumper memory_table-TableLaws shared moved
      "nic-a" (key 11) 1 (2 ∷ 3 ∷ []) refl

apply_drops_shared_example :
    (memory_table.get moved.table (key 10) ≡ none)
    × (lookup string_discrete "nic-b" moved.snapshots ≡ some (entry 10 (1 ∷ [])))
unfolding apply write settle bump_and_record delete_stale delete_key lookup insert erase
    string_discrete key_discrete entry_discrete ℕ_discrete
apply_drops_shared_example =
    apply_drops_shared string_discrete memory_table memory_bumper memory_table-TableLaws shared
      moved "nic-a" "nic-b" (key 10) (key 11) 1 (2 ∷ 3 ∷ []) (1 ∷ []) (1 ∷ [])
      (str_eq-false "nic-b" "nic-a" refl)
      (λ p. let q : ◌≡◌ {A = ℕ} 11 10 = ap (λ k. k.ipv4) p in absurd (omega arith)) (λ s e. cc e)
      refl refl refl
