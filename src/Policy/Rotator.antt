-- ===== src/Policy/Rotator.antt =====
-- The rotate-and-swap of a rule table: daemon/internal/daemon/dataplane/policy/rotator.go. The BPF
-- maps of the kernel are a parameter: inner maps are named by handles, a call that fails leaves the
-- kernel as it was, and a map stays readable through the outer map after its handle is closed.
-- Calls are taken one after another: the source holds its lock only while it reads and replaces a
-- handle, so that two calls for one id can interleave there.
pub mod Swap
use juneau.Prelude.{
  ℕ, Bool, true, false, ◌||◌, Option, none, some, List, [], ◌∷◌, ◌≡◌, ◌≢◌, ◌⊎◌, ite, ◌==◌,
  if◌then◌else◌, Result, ok, err, ℕ_discrete,
}
use juneau.Prelude.Dict.{Dict, lookup, insert, erase}

pub data KernelError : Type 0 where
  key_not_exist other_error : KernelError

-- The calls on the outer map, the inner maps and the meta map of one layer, and what the data plane
-- reads: the inner map installed for an id, a slot of an inner map, and the meta value of an id.
pub record Kernel (S V M : Type 0) : Type 0 where
  pub new_map : S → Result KernelError (ℕ × S)
  pub put : ℕ → ℕ → V → S → Result KernelError S
  pub install : ℕ → ℕ → S → Result KernelError S
  pub uninstall : ℕ → S → Result KernelError S
  pub set_meta : ℕ → M → S → Result KernelError S
  pub drop_meta : ℕ → S → Result KernelError S
  pub close : ℕ → S → Result KernelError S
  pub inner_of : S → ℕ → Option ℕ
  pub slot_of : S → ℕ → ℕ → Option V
  pub meta_of : S → ℕ → Option M

-- Two states show the data plane the same tables.
pub record SameView {S V M : Type 0} (k : Kernel S V M) (s s' : S) : Type 0 where
  pub same_inner : (id : ℕ) → k.inner_of s' id ≡ k.inner_of s id
  pub same_slots : (h i : ℕ) → k.slot_of s' h i ≡ k.slot_of s h i
  pub same_meta : (id : ℕ) → k.meta_of s' id ≡ k.meta_of s id

-- What the calls do to that view. A new map is not installed anywhere.
pub record KernelLaws {S V M : Type 0} (k : Kernel S V M) : Type 0 where
  pub new_map-inner :
      (s s' : S) (h id : ℕ) → k.new_map s ≡ ok (h, s') → k.inner_of s' id ≡ k.inner_of s id
  pub new_map_fresh : (s s' : S) (h id : ℕ) → k.new_map s ≡ ok (h, s') → k.inner_of s id ≢ some h
  pub new_map-slots :
      (s s' : S) (h g i : ℕ) → k.new_map s ≡ ok (h, s') → g ≢ h → k.slot_of s' g i ≡ k.slot_of s g i
  pub new_map-meta :
      (s s' : S) (h id : ℕ) → k.new_map s ≡ ok (h, s') → k.meta_of s' id ≡ k.meta_of s id
  pub put-inner :
      (s s' : S) (h i id : ℕ) (v : V) → k.put h i v s ≡ ok s' → k.inner_of s' id ≡ k.inner_of s id
  pub put-slots :
      (s s' : S) (h i g j : ℕ) (v : V)
      → k.put h i v s ≡ ok s'
      → k.slot_of s' g j
        ≡ ite (ℕ_discrete h g) (ite (ℕ_discrete i j) (some v) (k.slot_of s g j)) (k.slot_of s g j)
  pub put-meta :
      (s s' : S) (h i id : ℕ) (v : V) → k.put h i v s ≡ ok s' → k.meta_of s' id ≡ k.meta_of s id
  pub install-inner :
      (s s' : S) (id h j : ℕ)
      → k.install id h s ≡ ok s'
      → k.inner_of s' j ≡ ite (ℕ_discrete id j) (some h) (k.inner_of s j)
  pub install-slots :
      (s s' : S) (id h g i : ℕ) → k.install id h s ≡ ok s' → k.slot_of s' g i ≡ k.slot_of s g i
  pub install-meta :
      (s s' : S) (id h j : ℕ) → k.install id h s ≡ ok s' → k.meta_of s' j ≡ k.meta_of s j
  pub set_meta-inner :
      (s s' : S) (id j : ℕ) (m : M) → k.set_meta id m s ≡ ok s' → k.inner_of s' j ≡ k.inner_of s j
  pub set_meta-slots :
      (s s' : S) (id g i : ℕ) (m : M)
      → k.set_meta id m s ≡ ok s'
      → k.slot_of s' g i ≡ k.slot_of s g i
  pub set_meta-meta :
      (s s' : S) (id j : ℕ) (m : M)
      → k.set_meta id m s ≡ ok s'
      → k.meta_of s' j ≡ ite (ℕ_discrete id j) (some m) (k.meta_of s j)
  pub close_view : (s s' : S) (h : ℕ) → k.close h s ≡ ok s' → SameView k s s'

pub data RotatorError : Type 0 where
  zero_id create_failed write_rules_failed install_failed : RotatorError
  delete_rules_failed delete_meta_failed close_failed : RotatorError

-- The handles that the daemon keeps open, by id.
pub record Rotator (S : Type 0) : Type 0 where
  pub kernel : S
  pub snapshots : Dict ℕ ℕ

module _ {S V M : Type 0} (k : Kernel S V M) where
  -- `_ = m.Close()`, or a close whose error is only logged.
  unfoldable pub close_quietly : ℕ → S → S
  close_quietly h s = elim (k.close h s) [ ok s' ↦ s' | err e ↦ s ]

  close_old : Option ℕ → S → S
  unfolding close_quietly
  close_old none s = s
  close_old (some h) s = close_quietly h s

  -- The swap is done: keep the new handle and close the one that it replaces.
  commit : Rotator S → ℕ → ℕ → S → Rotator S
  unfolding close_old
  commit r id inner s = record {
    kernel = close_old (lookup ℕ_discrete id r.snapshots) s;
    snapshots = insert ℕ_discrete id inner r.snapshots;
  }

  swap :
      Rotator S
      → ℕ
      → ℕ
      → (S → S × Option KernelError)
      → S × Option KernelError
      → Rotator S × Option RotatorError
  unfolding close_quietly commit
  swap r id inner write_meta (s, some e) =
      (record r { kernel = close_quietly inner s }, some write_rules_failed)
  swap r id inner write_meta (s, none) = elim (k.install id inner s) [
    | err e ↦ (record r { kernel = close_quietly inner s }, some install_failed)
    | ok s' ↦ (commit r id inner (write_meta s').0, none)
  ]

  -- `writeRules` and `writeMeta` return the kernel that they leave and their error; the error of
  -- `writeMeta` is only logged.
  unfoldable pub apply :
      Rotator S
      → ℕ
      → (ℕ → S → S × Option KernelError)
      → (S → S × Option KernelError)
      → Rotator S × Option RotatorError
  unfolding swap
  apply r id write_rules write_meta =
      if id == 0 then (r, some zero_id) else elim (k.new_map r.kernel) [
        | err e ↦ (r, some create_failed)
        | ok (inner, s) ↦ swap r id inner write_meta (write_rules inner s)
      ]

  -- A missing key is no error.
  missing_ok : S → Result KernelError S → Result KernelError S
  missing_ok s (ok s') = ok s'
  missing_ok s (err key_not_exist) = ok s
  missing_ok s (err other_error) = err other_error

  unfoldable pub delete : Rotator S → ℕ → Rotator S × Option RotatorError
  unfolding missing_ok close_old
  delete r id =
      if id == 0 then (r, none) else elim (missing_ok r.kernel (k.uninstall id r.kernel)) [
        | err e ↦ (r, some delete_rules_failed)
        | ok s ↦ elim (missing_ok s (k.drop_meta id s)) [
          | err e ↦ (record r { kernel = s }, some delete_meta_failed)
          | ok s' ↦ (
            record {
              kernel = close_old (lookup ℕ_discrete id r.snapshots) s';
              snapshots = erase ℕ_discrete id r.snapshots;
            },
            none,
          )
        ]
      ]

  -- The handles are closed one after another; one that fails does not stop the rest.
  close_each : Dict ℕ ℕ → S → S × Bool
  close_each [] s = (s, true)
  close_each ((id, h) ∷ rest) s = elim (k.close h s) [
    | ok s' ↦ close_each rest s'
    | err e ↦ ((close_each rest s).0, false)
  ]

  unfoldable pub close_all : Rotator S → Rotator S × Option RotatorError
  unfolding close_each
  close_all r =
      let (s, done) = close_each r.snapshots r.kernel in
      (record { kernel = s; snapshots = [] }, if done then none else some close_failed)
