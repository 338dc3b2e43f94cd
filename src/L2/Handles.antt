-- ===== src/L2/Handles.antt =====
-- Sequences of calls on a table and its handles: daemon/internal/daemon/dataplane/l2/table.go.
use juneau.Prelude.{
  ℕ, ◌≡◌, refl, ◌∙◌, inl, inr, if_pos, Bool-cases, none, some, List, [], ◌∷◌, ◌==◌, Result-cases,
  ℕ_discrete,
}
use juneau.Prelude.Dict.{lookup, lookup-erase}
use juneau.L2.{
  Kernel, KernelLaws, key_not_exist, key_exist, other_error, TableError, Table, ensure, put,
  put_if_absent, remove, remove_if_equal, uninstall_inner, delete, close_all,
}
use juneau.L2.Installed.{
  Installed, ensure-Installed, put-Installed, offer-Installed, remove-Installed,
  take_back-Installed, delete-Installed,
}

-- A call on a table, whose error its caller may ignore.
pub data Op (K V : Type 0) : Type 0 where
  ensuring deleting : ℕ → Op K V
  putting offering taking_back : ℕ → K → V → Op K V
  removing : ℕ → K → Op K V
  closing : Op K V

module _ {K V S : Type 0} (k : Kernel K V S) (same : Discrete V) where
  unfoldable pub perform : Op K V → Table S → Table S
  perform (ensuring vni) t = (ensure k vni t).0
  perform (deleting vni) t = (delete k vni t).0
  perform (putting vni key v) t = (put k vni key v t).0
  perform (offering vni key v) t = (put_if_absent k vni key v t).0
  perform (taking_back vni key v) t = (remove_if_equal k same vni key v t).0
  perform (removing vni key) t = (remove k vni key t).0
  perform closing t = (close_all k t).0

  unfoldable pub perform_all : List (Op K V) → Table S → Table S
  unfolding perform
  perform_all [] t = t
  perform_all (op ∷ ops) t = perform_all ops (perform op t)

module _ {K V S : Type 0} (k : Kernel K V S) (laws : KernelLaws k) where
  none_kept : (s : S) → Installed k laws (record { kernel = s; inners = [] })
  unfolding Installed lookup
  none_kept s w = inl refl

  closed-Installed : (t : Table S) → Installed k laws (close_all k t).0
  unfolding close_all
  closed-Installed t = none_kept (close_all k t).0.kernel

  perform-Installed :
      (same : Discrete V) (op : Op K V) (t : Table S)
      → Installed k laws t
      → Installed k laws (perform k same op t)
  unfolding perform
  perform-Installed same (ensuring vni) t i = ensure-Installed k laws vni t i
  perform-Installed same (deleting vni) t i = delete-Installed k laws vni t i
  perform-Installed same (putting vni key v) t i = put-Installed k laws vni key v t i
  perform-Installed same (offering vni key v) t i = offer-Installed k laws vni key v t i
  perform-Installed same (taking_back vni key v) t i = take_back-Installed k laws same vni key v t i
  perform-Installed same (removing vni key) t i = remove-Installed k laws vni key t i
  perform-Installed same closing t i = closed-Installed t

  perform_all-keeps :
      (same : Discrete V) (ops : List (Op K V)) (t : Table S)
      → Installed k laws t
      → Installed k laws (perform_all k same ops t)
  unfolding perform_all
  perform_all-keeps same [] t i = i
  perform_all-keeps same (op ∷ ops) t i =
      perform_all-keeps same ops (perform k same op t) (perform-Installed same op t i)

  -- Whatever calls are made on a table that starts without handles, and whatever they return, a handle
  -- that the daemon keeps for a network is of the map that the data plane uses for that network.
  pub perform_all-Installed :
      (same : Discrete V) (ops : List (Op K V)) (s : S)
      → Installed k laws (perform_all k same ops (record { kernel = s; inners = [] }))
  perform_all-Installed same ops s =
      perform_all-keeps same ops (record { kernel = s; inners = [] }) (none_kept s)

  -- A deletion of a network that fails leaves the kernel as it is but forgets the handle: the data
  -- plane goes on with a map that the daemon no longer reaches or closes.
  delete_failed :
      (vni : ℕ) (t : Table S) (e : TableError)
      → (delete k vni t).1 ≡ some e
      → ((delete k vni t).0.kernel ≡ t.kernel)
        × (lookup ℕ_discrete vni (delete k vni t).0.inners ≡ none)
  unfolding delete uninstall_inner
  delete_failed vni t e p =
      let gone =
        lookup-erase ℕ_discrete vni vni t.inners
        ∙ if_pos (ℕ_discrete vni vni) refl none (lookup ℕ_discrete vni t.inners) in
      elim (Bool-cases (vni == 0)) [
        | inl z ↦ absurd (cc (rw (delete, z) at p))
        | inr z ↦ elim (Result-cases (k.uninstall vni t.kernel)) [
          | inl (s, q) ↦ absurd (cc (rw (delete, z, uninstall_inner, q) at p))
          | inr (key_not_exist, q) ↦ absurd (cc (rw (delete, z, uninstall_inner, q) at p))
          | inr (key_exist, q) ↦ rw (delete, z, uninstall_inner, q) (refl, gone)
          | inr (other_error, q) ↦ rw (delete, z, uninstall_inner, q) (refl, gone)
        ]
      ]
