-- ===== src/L2/Tests.antt =====
-- Inputs at which the theorems on the tables apply.
use juneau.Prelude.{
  ℕ, suc, ◌≡◌, ◌≢◌, ◌⊎◌, inl, inr, refl, sym, ap, subst, ◌∙◌, Option, none, some, [], ◌∷◌, if_neg,
  Result, ok, err, ok-injective, ℕ_discrete,
}
use juneau.Prelude.Dict.{Dict, lookup, insert, erase, lookup-insert, lookup-erase}
use juneau.L2.{Kernel, KernelLaws, MapError, key_not_exist, key_exist, other_error, Table}
use juneau.L2.Installed.{Installed}
use juneau.L2.Handles.{ensuring, deleting, offering, perform_all, perform_all-Installed}

record Place : Type 0 where
  map : ℕ
  key : ℕ

place_discrete : Discrete Place
place_discrete = hlevel ℕ_discrete

-- The kernel in memory, which refuses every deletion from the outer map.
record Memory : Type 0 where
  next : ℕ
  outer : Dict ℕ ℕ
  entries : Dict Place ℕ

abbrev at : ℕ → ℕ → Place
at h key = record { map = h; key = key }

abbrev found_or_missing : Option ℕ → Result MapError ℕ
found_or_missing none = err key_not_exist
found_or_missing (some v) = ok v

abbrev added_or_kept : Option ℕ → Memory → Result MapError Memory
added_or_kept none s = ok s
added_or_kept (some v) s = err key_exist

abbrev with_outer : Dict ℕ ℕ → Memory → Memory
with_outer outer s = record s { outer = outer }

abbrev with_entries : Dict Place ℕ → Memory → Memory
with_entries entries s = record s { entries = entries }

abbrev memory : Kernel ℕ ℕ Memory
memory = record {
  new_map = λ s. ok (s.next, record s { next = suc s.next });
  install = λ vni h s. ok (with_outer (insert ℕ_discrete vni h s.outer) s);
  uninstall = λ vni s. err other_error;
  close = λ h s. ok s;
  update = λ h key v s. ok (with_entries (insert place_discrete (at h key) v s.entries) s);
  add = λ h key v s.
      added_or_kept (lookup place_discrete (at h key) s.entries)
        (with_entries (insert place_discrete (at h key) v s.entries) s);
  look_up = λ h key s. found_or_missing (lookup place_discrete (at h key) s.entries);
  remove_key = λ h key s. ok (with_entries (erase place_discrete (at h key) s.entries) s);
  outer_of = λ s vni. lookup ℕ_discrete vni s.outer;
  entry_of = λ s h key. lookup place_discrete (at h key) s.entries;
}

same_outer :
    (s t : Memory) (vni : ℕ)
    → ◌≡◌ {A = Result MapError Memory} (ok s) (ok t)
    → lookup ℕ_discrete vni t.outer ≡ lookup ℕ_discrete vni s.outer
same_outer s t vni e = ap (λ (u : Memory). lookup ℕ_discrete vni u.outer) (sym (ok-injective e))

same_entries :
    (s t : Memory) (p : Place)
    → ◌≡◌ {A = Result MapError Memory} (ok s) (ok t)
    → lookup place_discrete p t.entries ≡ lookup place_discrete p s.entries
same_entries s t p e = ap (λ (u : Memory). lookup place_discrete p u.entries) (sym (ok-injective e))

new-state :
    (s t : Memory) (h : ℕ) → memory.new_map s ≡ ok (h, t) → record s { next = suc s.next } ≡ t
new-state s t h e = ap (λ (r : ℕ × Memory). r.1) (ok-injective e)

added-cases : (o : Option ℕ) (s t : Memory) → added_or_kept o s ≡ ok t → (o ≡ none) × (s ≡ t)
added-cases none s t e = (refl, ok-injective e)
added-cases (some v) s t e = absurd (cc e)

found-cases : (o : Option ℕ) (v : ℕ) → found_or_missing o ≡ ok v → o ≡ some v
found-cases none v e = absurd (cc e)
found-cases (some w) v e = cc e

added-entries :
    (s s' : Memory) (h g key j v w : ℕ)
    → memory.add h key v s ≡ ok s'
    → memory.entry_of s g j ≡ some w
    → memory.entry_of s' g j ≡ some w
added-entries s s' h g key j v w e p =
    let (fresh, same) = added-cases (lookup place_discrete (at h key) s.entries) _ s' e in
    subst (λ (t : Memory). lookup place_discrete (at g j) t.entries ≡ some w) same
      (lookup-insert place_discrete (at g j) (at h key) v s.entries
        ∙ if_neg (place_discrete (at h key) (at g j)) (λ q. cc (fresh, p, q)) (some v) _
        ∙ p)

apart : (h g key j : ℕ) → (h ≢ g) ⊎ (key ≢ j) → at h key ≢ at g j
apart h g key j (inl n) p = n (ap (λ (q : Place). q.map) p)
apart h g key j (inr n) p = n (ap (λ (q : Place). q.key) p)

memory-KernelLaws : KernelLaws memory
memory-KernelLaws = record {
  new_map-outer =
      λ s s' h vni e. ap (λ (t : Memory). lookup ℕ_discrete vni t.outer) (sym (new-state s s' h e));
  new_map-entries = λ s s' h g key v e p.
      subst (λ (t : Memory). lookup place_discrete (at g key) t.entries ≡ some v)
        (new-state s s' h e) p;
  install-outer = λ s s' vni h w e.
      same_outer (with_outer (insert ℕ_discrete vni h s.outer) s) s' w e
      ∙ lookup-insert ℕ_discrete w vni h s.outer;
  install-entries = λ s s' vni h g key e.
      same_entries (with_outer (insert ℕ_discrete vni h s.outer) s) s' (at g key) e;
  uninstall-outer = λ s s' vni w e. absurd (cc e);
  uninstall_missing = λ s vni e. absurd (cc e);
  close-outer = λ s s' h vni e. same_outer s s' vni e;
  close-entries = λ s s' h g key e. same_entries s s' (at g key) e;
  update-outer = λ s s' h vni key v e.
      same_outer (with_entries (insert place_discrete (at h key) v s.entries) s) s' vni e;
  add-outer = λ s s' h vni key v e.
      ap (λ (t : Memory). lookup ℕ_discrete vni t.outer)
        (sym
          (added-cases (lookup place_discrete (at h key) s.entries)
            (with_entries (insert place_discrete (at h key) v s.entries) s) s' e).1);
  add-entries = λ s s' h g key j v w e p. added-entries s s' h g key j v w e p;
  look_up_found = λ s h key v e. found-cases (lookup place_discrete (at h key) s.entries) v e;
  remove_key-other = λ s s' h g key j n e.
      same_entries (with_entries (erase place_discrete (at h key) s.entries) s) s' (at g j) e
      ∙ lookup-erase place_discrete (at g j) (at h key) s.entries
      ∙ if_neg (place_discrete (at h key) (at g j)) (apart h g key j n) none _;
  remove_key-outer = λ s s' h vni key e.
      same_outer (with_entries (erase place_discrete (at h key) s.entries) s) s' vni e;
}

-- The network 5 has the map 1, which the data plane filled at the key 7.
abbrev learned : Table Memory
learned = record {
  kernel = record { next = 2; outer = (5, 1) ∷ []; entries = (at 1 7, 40) ∷ [] };
  inners = (5, 1) ∷ [];
}

perform_all-Installed_example : Installed memory memory-KernelLaws (
    perform_all memory ℕ_discrete
      (ensuring 5 ∷ offering 6 7 41 ∷ deleting 5 ∷ [])
      (record { kernel = learned.kernel; inners = [] }))
perform_all-Installed_example =
    perform_all-Installed memory memory-KernelLaws ℕ_discrete
      (ensuring 5 ∷ offering 6 7 41 ∷ deleting 5 ∷ []) learned.kernel
