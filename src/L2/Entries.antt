-- ===== src/L2/Entries.antt =====
-- The entries that user space offers and takes back: daemon/internal/daemon/dataplane/l2/table.go.
use juneau.Prelude.{
  ℕ, ◌≡◌, ◌≢◌, refl, sym, ◌∙◌, ◌⊎◌, inl, inr, if_pos, if_neg, Bool-cases, none, some, Option-cases,
  ◌==◌, Result-cases, ℕ_discrete,
}
use juneau.Prelude.Dict.{lookup}
use juneau.L2.{
  Kernel, KernelLaws, key_not_exist, key_exist, other_error, Table, close_quietly, mint,
  ensure_locked, written_if_absent, put_if_absent, removed, remove_if_equal,
}

module _ {K V S : Type 0} (k : Kernel K V S) (laws : KernelLaws k) where
  Has : S → ℕ → K → V → Type 0
  Has s g j w = k.entry_of s g j ≡ some w

  close_quietly-Has :
      (h g : ℕ) (j : K) (w : V) (s : S) → Has s g j w → Has (close_quietly k h s) g j w
  unfolding close_quietly Has
  close_quietly-Has h g j w s p = elim (Result-cases (k.close h s)) [
    | inl (s', q) ↦ rw (close_quietly, q) (laws.close-entries s s' h g j q ∙ p)
    | inr (e, q) ↦ rw (close_quietly, q) p
  ]

  mint-Has :
      (vni : ℕ) (t : Table S) (h : ℕ) (s : S) (g : ℕ) (j : K) (w : V)
      → Has s g j w
      → Has (mint k vni t h s).0.kernel g j w
  unfolding mint Has
  mint-Has vni t h s g j w p = elim (Result-cases (k.install vni h s)) [
    | inl (s', q) ↦ rw (mint, q) (laws.install-entries s s' vni h g j q ∙ p)
    | inr (e, q) ↦ rw (mint, q) (close_quietly-Has h g j w s p)
  ]

  ensure_locked-Has :
      (vni : ℕ) (t : Table S) (g : ℕ) (j : K) (w : V)
      → Has t.kernel g j w
      → Has (ensure_locked k vni t).0.kernel g j w
  unfolding ensure_locked Has
  ensure_locked-Has vni t g j w p = elim (Bool-cases (vni == 0)) [
    | inl z ↦ rw (ensure_locked, z) p
    | inr z ↦ elim (Option-cases (lookup ℕ_discrete vni t.inners)) [
      | inr (h, q) ↦ rw (ensure_locked, z, q) p
      | inl q ↦ elim (Result-cases (k.new_map t.kernel)) [
        | inr (e, r) ↦ rw (ensure_locked, z, q, r) p
        | inl ((h, s), r) ↦
            rw (ensure_locked, z, q, r)
              (mint-Has vni t h s g j w (laws.new_map-entries t.kernel s h g j w r p))
      ]
    ]
  ]

  written_if_absent-Has :
      (t : Table S) (h : ℕ) (key : K) (v : V) (g : ℕ) (j : K) (w : V)
      → Has t.kernel g j w
      → Has (written_if_absent k t (k.add h key v t.kernel)).0.kernel g j w
  unfolding written_if_absent Has
  written_if_absent-Has t h key v g j w p = elim (Result-cases (k.add h key v t.kernel)) [
    | inl (s, q) ↦ rw q (laws.add-entries t.kernel s h g key j v w q p)
    | inr (key_exist, q) ↦ rw q p
    | inr (key_not_exist, q) ↦ rw q p
    | inr (other_error, q) ↦ rw q p
  ]

  -- An entry that is in a table stays as it is when user space offers another under its key, whatever
  -- the calls return.
  pub put_if_absent_keeps :
      (vni : ℕ) (key : K) (v : V) (t : Table S) (g : ℕ) (j : K) (w : V)
      → k.entry_of t.kernel g j ≡ some w
      → k.entry_of (put_if_absent k vni key v t).0.kernel g j ≡ some w
  unfolding put_if_absent Has
  put_if_absent_keeps vni key v t g j w p = elim (Result-cases (ensure_locked k vni t).1) [
    | inr (e, q) ↦ rw (put_if_absent, q) (ensure_locked-Has vni t g j w p)
    | inl (h, q) ↦
        rw (put_if_absent, q)
          (written_if_absent-Has (ensure_locked k vni t).0 h key v g j w
            (ensure_locked-Has vni t g j w p))
  ]

  removed-other :
      (t : Table S) (h : ℕ) (key : K) (g : ℕ) (j : K)
      → (h ≢ g) ⊎ (key ≢ j)
      → k.entry_of (removed k t (k.remove_key h key t.kernel)).0.kernel g j
        ≡ k.entry_of t.kernel g j
  unfolding removed
  removed-other t h key g j n = elim (Result-cases (k.remove_key h key t.kernel)) [
    | inl (s, q) ↦ rw q (laws.remove_key-other t.kernel s h g key j n q)
    | inr (key_not_exist, q) ↦ rw q refl
    | inr (key_exist, q) ↦ rw q refl
    | inr (other_error, q) ↦ rw q refl
  ]

  elsewhere :
      (s : S) (h g : ℕ) (key j : K) (current w : V)
      → k.entry_of s h key ≡ some current
      → k.entry_of s g j ≡ some w
      → current ≢ w
      → (h ≢ g) ⊎ (key ≢ j)
  elsewhere s h g key j current w p q n = elim (ℕ_discrete h g) [
    | Dec.yes same ↦ inr (λ e. n (cc (p, q, same, e)))
    | Dec.no other ↦ inl other
  ]

  -- A removal takes back only the value that its caller names: an entry with another value stays as it
  -- is, whatever the calls return.
  pub remove_if_equal_keeps :
      (same : Discrete V) (vni : ℕ) (key : K) (v : V) (t : Table S) (g : ℕ) (j : K) (w : V)
      → w ≢ v
      → k.entry_of t.kernel g j ≡ some w
      → k.entry_of (remove_if_equal k same vni key v t).0.kernel g j ≡ some w
  unfolding remove_if_equal
  remove_if_equal_keeps same vni key v t g j w n p =
      elim (Option-cases (lookup ℕ_discrete vni t.inners)) [
        | inl q ↦ rw (remove_if_equal, q) p
        | inr (h, q) ↦ elim (Result-cases (k.look_up h key t.kernel)) [
          | inr (key_not_exist, r) ↦ rw (remove_if_equal, q, r) p
          | inr (key_exist, r) ↦ rw (remove_if_equal, q, r) p
          | inr (other_error, r) ↦ rw (remove_if_equal, q, r) p
          | inl (current, r) ↦ elim (same current v) [
            | Dec.no other ↦
                rw
                  (
                    remove_if_equal,
                    q,
                    r,
                    if_neg (same current v) other (removed k t (k.remove_key h key t.kernel))
                        (t, none),
                  )
                  p
            | Dec.yes e ↦
                let found = laws.look_up_found t.kernel h key current r in
                rw
                  (
                    remove_if_equal,
                    q,
                    r,
                    if_pos (same current v) e (removed k t (k.remove_key h key t.kernel)) (t, none),
                  )
                  (removed-other t h key g j
                      (elsewhere t.kernel h g key j current w found p (λ x. n (sym x ∙ e)))
                    ∙ p)
          ]
        ]
      ]
