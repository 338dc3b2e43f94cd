-- ===== src/L2.antt =====
-- The per-network tables of the layer 2 data plane: daemon/internal/daemon/dataplane/l2/table.go.
-- The BPF maps are a parameter: inner maps are named by handles, a call that fails leaves the kernel
-- as it was. A method holds the lock from start to end.
pub mod Entries
pub mod Handles
mod Installed
mod Tests
use juneau.Prelude.{
  ℕ, Bool, true, false, ◌≡◌, ◌≢◌, Option, none, some, List, [], ◌∷◌, leb, ◌==◌, ite, if◌then◌else◌,
  Result, ok, err, ℕ_discrete, ◌⊎◌,
}
use juneau.Prelude.Dict.{Dict, lookup, insert, erase}

pub data MapError : Type 0 where
  key_not_exist key_exist other_error : MapError

-- The calls, and what the data plane reads: the inner map of a network, and an entry of an inner map.
pub record Kernel (K V S : Type 0) : Type 0 where
  pub new_map : S → Result MapError (ℕ × S)
  pub install : ℕ → ℕ → S → Result MapError S
  pub uninstall : ℕ → S → Result MapError S
  pub close : ℕ → S → Result MapError S
  pub update : ℕ → K → V → S → Result MapError S
  pub add : ℕ → K → V → S → Result MapError S
  pub look_up : ℕ → K → S → Result MapError V
  pub remove_key : ℕ → K → S → Result MapError S
  pub outer_of : S → ℕ → Option ℕ
  pub entry_of : S → ℕ → K → Option V

-- A new map is a fresh handle; a closed map is still what the data plane reads.
pub record KernelLaws {K V S : Type 0} (k : Kernel K V S) : Type 0 where
  pub new_map-outer :
      (s s' : S) (h vni : ℕ) → k.new_map s ≡ ok (h, s') → k.outer_of s' vni ≡ k.outer_of s vni
  pub new_map-entries :
      (s s' : S) (h g : ℕ) (key : K) (v : V)
      → k.new_map s ≡ ok (h, s')
      → k.entry_of s g key ≡ some v
      → k.entry_of s' g key ≡ some v
  pub install-outer :
      (s s' : S) (vni h w : ℕ)
      → k.install vni h s ≡ ok s'
      → k.outer_of s' w ≡ ite (ℕ_discrete vni w) (some h) (k.outer_of s w)
  pub install-entries :
      (s s' : S) (vni h g : ℕ) (key : K)
      → k.install vni h s ≡ ok s'
      → k.entry_of s' g key ≡ k.entry_of s g key
  pub uninstall-outer :
      (s s' : S) (vni w : ℕ)
      → k.uninstall vni s ≡ ok s'
      → k.outer_of s' w ≡ ite (ℕ_discrete vni w) none (k.outer_of s w)
  pub uninstall_missing :
      (s : S) (vni : ℕ) → k.uninstall vni s ≡ err key_not_exist → k.outer_of s vni ≡ none
  pub close-outer :
      (s s' : S) (h vni : ℕ) → k.close h s ≡ ok s' → k.outer_of s' vni ≡ k.outer_of s vni
  pub close-entries :
      (s s' : S) (h g : ℕ) (key : K)
      → k.close h s ≡ ok s'
      → k.entry_of s' g key ≡ k.entry_of s g key
  pub update-outer :
      (s s' : S) (h vni : ℕ) (key : K) (v : V)
      → k.update h key v s ≡ ok s'
      → k.outer_of s' vni ≡ k.outer_of s vni
  pub add-outer :
      (s s' : S) (h vni : ℕ) (key : K) (v : V)
      → k.add h key v s ≡ ok s'
      → k.outer_of s' vni ≡ k.outer_of s vni
  -- An update with BPF_NOEXIST changes no entry that is there.
  pub add-entries :
      (s s' : S) (h g : ℕ) (key j : K) (v w : V)
      → k.add h key v s ≡ ok s'
      → k.entry_of s g j ≡ some w
      → k.entry_of s' g j ≡ some w
  pub look_up_found :
      (s : S) (h : ℕ) (key : K) (v : V) → k.look_up h key s ≡ ok v → k.entry_of s h key ≡ some v
  pub remove_key-other :
      (s s' : S) (h g : ℕ) (key j : K)
      → (h ≢ g) ⊎ (key ≢ j)
      → k.remove_key h key s ≡ ok s'
      → k.entry_of s' g j ≡ k.entry_of s g j
  pub remove_key-outer :
      (s s' : S) (h vni : ℕ) (key : K)
      → k.remove_key h key s ≡ ok s'
      → k.outer_of s' vni ≡ k.outer_of s vni

pub data TableError : Type 0 where
  zero_vni create_failed install_failed write_failed read_failed remove_failed : TableError
  remove_inner_failed close_failed : TableError

pub record Table (S : Type 0) : Type 0 where
  pub kernel : S
  pub inners : Dict ℕ ℕ

module _ {K V S : Type 0} (k : Kernel K V S) where
  -- A close whose error is ignored or only logged.
  unfoldable pub close_quietly : ℕ → S → S
  close_quietly h s = elim (k.close h s) [ ok s' ↦ s' | err e ↦ s ]

  -- A new inner map, installed or closed again.
  unfoldable pub mint : ℕ → Table S → ℕ → S → Table S × Result TableError ℕ
  unfolding close_quietly
  mint vni t h s = elim (k.install vni h s) [
    | err e ↦ (record t { kernel = close_quietly h s }, err install_failed)
    | ok s' ↦ (record { kernel = s'; inners = insert ℕ_discrete vni h t.inners }, ok h)
  ]

  -- `ensureLocked`
  unfoldable pub ensure_locked : ℕ → Table S → Table S × Result TableError ℕ
  unfolding mint
  ensure_locked vni t =
      if vni == 0 then (t, err zero_vni) else elim (lookup ℕ_discrete vni t.inners) [
        | some h ↦ (t, ok h)
        | none ↦ elim (k.new_map t.kernel) [
          | err e ↦ (t, err create_failed)
          | ok (h, s) ↦ mint vni t h s
        ]
      ]

  error_of : Result TableError ℕ → Option TableError
  error_of (ok h) = none
  error_of (err e) = some e

  unfoldable pub ensure : ℕ → Table S → Table S × Option TableError
  unfolding ensure_locked error_of
  ensure vni t = let (t', r) = ensure_locked vni t in (t', error_of r)

  -- The last call of a write.
  unfoldable pub written : Table S → Result MapError S → Table S × Option TableError
  written t (ok s) = (record t { kernel = s }, none)
  written t (err e) = (t, some write_failed)

  unfoldable pub put : ℕ → K → V → Table S → Table S × Option TableError
  unfolding ensure_locked written
  put vni key value t =
      let (t', r) = ensure_locked vni t in
      elim r [ err e ↦ (t', some e) | ok h ↦ written t' (k.update h key value t'.kernel) ]

  unfoldable pub written_if_absent : Table S → Result MapError S → Table S × Option TableError
  written_if_absent t (ok s) = (record t { kernel = s }, none)
  written_if_absent t (err key_exist) = (t, none)
  written_if_absent t (err key_not_exist) = (t, some write_failed)
  written_if_absent t (err other_error) = (t, some write_failed)

  unfoldable pub put_if_absent : ℕ → K → V → Table S → Table S × Option TableError
  unfolding ensure_locked written_if_absent
  put_if_absent vni key value t =
      let (t', r) = ensure_locked vni t in
      elim r [ err e ↦ (t', some e) | ok h ↦ written_if_absent t' (k.add h key value t'.kernel) ]

  unfoldable pub removed : Table S → Result MapError S → Table S × Option TableError
  removed t (ok s) = (record t { kernel = s }, none)
  removed t (err key_not_exist) = (t, none)
  removed t (err key_exist) = (t, some remove_failed)
  removed t (err other_error) = (t, some remove_failed)

  -- `reflect.DeepEqual` is a decision on the values.
  unfoldable pub remove_if_equal : Discrete V → ℕ → K → V → Table S → Table S × Option TableError
  unfolding removed
  remove_if_equal same vni key value t = elim (lookup ℕ_discrete vni t.inners) [
    | none ↦ (t, none)
    | some h ↦ elim (k.look_up h key t.kernel) [
      | err key_not_exist ↦ (t, none)
      | err key_exist ↦ (t, some read_failed)
      | err other_error ↦ (t, some read_failed)
      | ok current ↦ ite (same current value) (removed t (k.remove_key h key t.kernel)) (t, none)
    ]
  ]

  unfoldable pub remove : ℕ → K → Table S → Table S × Option TableError
  unfolding removed
  remove vni key t = elim (lookup ℕ_discrete vni t.inners) [
    | none ↦ (t, none)
    | some h ↦ removed t (k.remove_key h key t.kernel)
  ]

  close_had : Option ℕ → S → S
  unfolding close_quietly
  close_had none s = s
  close_had (some h) s = close_quietly h s

  -- `Delete` of a network that is not 0, once its handle is taken out of `inners`.
  uninstall_inner : ℕ → Option ℕ → Table S → Table S × Option TableError
  unfolding close_had
  uninstall_inner vni had t = elim (k.uninstall vni t.kernel) [
    | ok s ↦ (record t { kernel = close_had had s }, none)
    | err key_not_exist ↦ (record t { kernel = close_had had t.kernel }, none)
    | err key_exist ↦ (t, some remove_inner_failed)
    | err other_error ↦ (t, some remove_inner_failed)
  ]

  unfoldable pub delete : ℕ → Table S → Table S × Option TableError
  unfolding uninstall_inner
  delete vni t =
      if vni == 0
      then (t, none)
      else uninstall_inner vni (lookup ℕ_discrete vni t.inners)
          (record t { inners = erase ℕ_discrete vni t.inners })

  -- Every handle is closed, also after one that fails.
  close_each : Dict ℕ ℕ → S → S × Bool
  close_each [] s = (s, true)
  close_each ((vni, h) ∷ rest) s = elim (k.close h s) [
    | ok s' ↦ close_each rest s'
    | err e ↦ ((close_each rest s).0, false)
  ]

  unfoldable pub close_all : Table S → Table S × Option TableError
  unfolding close_each
  close_all t =
      let (s, done) = close_each t.inners t.kernel in
      (record { kernel = s; inners = [] }, if done then none else some close_failed)

  insert_vni : ℕ → List ℕ → List ℕ
  insert_vni vni [] = vni ∷ []
  insert_vni vni (w ∷ rest) = if leb vni w then vni ∷ w ∷ rest else w ∷ insert_vni vni rest

  sorted_vnis : Dict ℕ ℕ → List ℕ
  unfolding insert_vni
  sorted_vnis [] = []
  sorted_vnis ((vni, h) ∷ rest) = insert_vni vni (sorted_vnis rest)

  visit : (ℕ → ℕ → S → S) → Dict ℕ ℕ → List ℕ → S → S
  visit fn inners [] s = s
  visit fn inners (vni ∷ rest) s =
      visit fn inners rest (elim (lookup ℕ_discrete vni inners) [ none ↦ s | some h ↦ fn vni h s ])

  -- `fn` works on the kernel.
  unfoldable pub for_each_inner : (ℕ → ℕ → S → S) → Table S → Table S
  unfolding sorted_vnis visit
  for_each_inner fn t = record t { kernel = visit fn t.inners (sorted_vnis t.inners) t.kernel }

abbrev pub port_flag_present : ℕ
port_flag_present = 1

-- The flood list: its keys are ports and its values flags.
module _ {S : Type 0} (k : Kernel ℕ ℕ S) where
  unfoldable pub add_member : ℕ → ℕ → Table S → Table S × Option TableError
  add_member vni member t = put k vni member port_flag_present t

  unfoldable pub remove_member : ℕ → ℕ → Table S → Table S × Option TableError
  remove_member vni member t = remove k vni member t
