-- ===== src/L2/Installed.antt =====
-- The calls on a table, its handles and the outer map: daemon/internal/daemon/dataplane/l2/table.go.
use juneau.Prelude.{
  ℕ, ◌≡◌, ◌≢◌, refl, sym, ◌∙◌, ◌⊎◌, inl, inr, if_pos, if_neg, Bool-cases, Option, none, some,
  Option-cases, ◌==◌, Result-cases, ok, ℕ_discrete,
}
use juneau.Prelude.Dict.{lookup, erase, lookup-insert, lookup-erase}
use juneau.L2.{
  Kernel, KernelLaws, key_not_exist, key_exist, other_error, Table, close_quietly, mint,
  ensure_locked, ensure, written, put, written_if_absent, put_if_absent, removed, remove,
  remove_if_equal, close_had, uninstall_inner, delete,
}

module _ {K V S : Type 0} (k : Kernel K V S) (laws : KernelLaws k) where
  -- A handle that the daemon keeps for a network is of the map that the data plane uses for it.
  unfoldable pub Installed : Table S → Type 0
  Installed t =
      (vni : ℕ)
      → (lookup ℕ_discrete vni t.inners ≡ none)
        ⊎ (k.outer_of t.kernel vni ≡ lookup ℕ_discrete vni t.inners)

  -- The outer map does not change.
  SameOuter : S → S → Type 0
  SameOuter s s' = (vni : ℕ) → k.outer_of s' vni ≡ k.outer_of s vni

  SameOuter-Installed :
      (t : Table S) (s : S)
      → SameOuter t.kernel s
      → Installed t
      → Installed (record t { kernel = s })
  unfolding Installed SameOuter
  SameOuter-Installed t s same i vni = elim (i vni) [ inl p ↦ inl p | inr p ↦ inr (same vni ∙ p) ]

  close_quietly-same : (h : ℕ) (s : S) → SameOuter s (close_quietly k h s)
  unfolding close_quietly SameOuter
  close_quietly-same h s vni = elim (Result-cases (k.close h s)) [
    | inl (s', q) ↦ rw (close_quietly, q) (laws.close-outer s s' h vni q)
    | inr (e, q) ↦ rw (close_quietly, q) refl
  ]

  mint-Installed :
      (vni : ℕ) (t : Table S) (h : ℕ) (s : S)
      → SameOuter t.kernel s
      → Installed t
      → Installed (mint k vni t h s).0
  unfolding mint Installed SameOuter
  mint-Installed vni t h s same i w = elim (Result-cases (k.install vni h s)) [
    | inr (e, q) ↦
        rw (mint, q)
          (SameOuter-Installed t (close_quietly k h s) (λ x. close_quietly-same h s x ∙ same x) i w)
    | inl (s', q) ↦
        rw (mint, q)
          (elim (ℕ_discrete vni w) [
            | Dec.yes e ↦ inr (
                laws.install-outer s s' vni h w q
                ∙ if_pos (ℕ_discrete vni w) e (some h) (k.outer_of s w)
                ∙ sym (
                    lookup-insert ℕ_discrete w vni h t.inners
                    ∙ if_pos (ℕ_discrete vni w) e (some h) (lookup ℕ_discrete w t.inners)))
            | Dec.no n ↦
                let outer =
                  laws.install-outer s s' vni h w q
                  ∙ if_neg (ℕ_discrete vni w) n (some h) (k.outer_of s w)
                  ∙ same w in
                let inner =
                  lookup-insert ℕ_discrete w vni h t.inners
                  ∙ if_neg (ℕ_discrete vni w) n (some h) (lookup ℕ_discrete w t.inners) in
                elim (i w) [ inl p ↦ inl (inner ∙ p) | inr p ↦ inr (outer ∙ p ∙ sym inner) ]
          ])
  ]

  new_same : (s s' : S) (h : ℕ) → k.new_map s ≡ ok (h, s') → SameOuter s s'
  unfolding SameOuter
  new_same s s' h r w = laws.new_map-outer s s' h w r

  ensure_locked-Installed :
      (vni : ℕ) (t : Table S) → Installed t → Installed (ensure_locked k vni t).0
  unfolding ensure_locked
  ensure_locked-Installed vni t i = elim (Bool-cases (vni == 0)) [
    | inl z ↦ rw (ensure_locked, z) i
    | inr z ↦ elim (Option-cases (lookup ℕ_discrete vni t.inners)) [
      | inr (h, q) ↦ rw (ensure_locked, z, q) i
      | inl q ↦ elim (Result-cases (k.new_map t.kernel)) [
        | inr (e, r) ↦ rw (ensure_locked, z, q, r) i
        | inl ((h, s), r) ↦
            rw (ensure_locked, z, q, r) (mint-Installed vni t h s (new_same t.kernel s h r) i)
      ]
    ]
  ]

  written-Installed :
      (t : Table S) (h : ℕ) (key : K) (v : V)
      → Installed t
      → Installed (written k t (k.update h key v t.kernel)).0
  unfolding written SameOuter
  written-Installed t h key v i = elim (Result-cases (k.update h key v t.kernel)) [
    | inl (s, q) ↦ rw q (SameOuter-Installed t s (λ w. laws.update-outer t.kernel s h w key v q) i)
    | inr (e, q) ↦ rw q i
  ]

  pub put-Installed :
      (vni : ℕ) (key : K) (v : V) (t : Table S) → Installed t → Installed (put k vni key v t).0
  unfolding put
  put-Installed vni key v t i = elim (Result-cases (ensure_locked k vni t).1) [
    | inr (e, q) ↦ rw (put, q) (ensure_locked-Installed vni t i)
    | inl (h, q) ↦
        rw (put, q)
          (written-Installed (ensure_locked k vni t).0 h key v (ensure_locked-Installed vni t i))
  ]

  offered-Installed :
      (t : Table S) (h : ℕ) (key : K) (v : V)
      → Installed t
      → Installed (written_if_absent k t (k.add h key v t.kernel)).0
  unfolding written_if_absent SameOuter
  offered-Installed t h key v i = elim (Result-cases (k.add h key v t.kernel)) [
    | inl (s, q) ↦ rw q (SameOuter-Installed t s (λ w. laws.add-outer t.kernel s h w key v q) i)
    | inr (key_exist, q) ↦ rw q i
    | inr (key_not_exist, q) ↦ rw q i
    | inr (other_error, q) ↦ rw q i
  ]

  pub offer-Installed :
      (vni : ℕ) (key : K) (v : V) (t : Table S)
      → Installed t
      → Installed (put_if_absent k vni key v t).0
  unfolding put_if_absent
  offer-Installed vni key v t i = elim (Result-cases (ensure_locked k vni t).1) [
    | inr (e, q) ↦ rw (put_if_absent, q) (ensure_locked-Installed vni t i)
    | inl (h, q) ↦
        rw (put_if_absent, q)
          (offered-Installed (ensure_locked k vni t).0 h key v (ensure_locked-Installed vni t i))
  ]

  removed-Installed :
      (t : Table S) (h : ℕ) (key : K)
      → Installed t
      → Installed (removed k t (k.remove_key h key t.kernel)).0
  unfolding removed SameOuter
  removed-Installed t h key i = elim (Result-cases (k.remove_key h key t.kernel)) [
    | inl (s, q) ↦
        rw q (SameOuter-Installed t s (λ w. laws.remove_key-outer t.kernel s h w key q) i)
    | inr (key_exist, q) ↦ rw q i
    | inr (key_not_exist, q) ↦ rw q i
    | inr (other_error, q) ↦ rw q i
  ]

  pub remove-Installed :
      (vni : ℕ) (key : K) (t : Table S) → Installed t → Installed (remove k vni key t).0
  unfolding remove
  remove-Installed vni key t i = elim (Option-cases (lookup ℕ_discrete vni t.inners)) [
    | inl q ↦ rw (remove, q) i
    | inr (h, q) ↦ rw (remove, q) (removed-Installed t h key i)
  ]

  pub take_back-Installed :
      (same : Discrete V) (vni : ℕ) (key : K) (v : V) (t : Table S)
      → Installed t
      → Installed (remove_if_equal k same vni key v t).0
  unfolding remove_if_equal
  take_back-Installed same vni key v t i = elim (Option-cases (lookup ℕ_discrete vni t.inners)) [
    | inl q ↦ rw (remove_if_equal, q) i
    | inr (h, q) ↦ elim (Result-cases (k.look_up h key t.kernel)) [
      | inr (key_not_exist, r) ↦ rw (remove_if_equal, q, r) i
      | inr (key_exist, r) ↦ rw (remove_if_equal, q, r) i
      | inr (other_error, r) ↦ rw (remove_if_equal, q, r) i
      | inl (current, r) ↦ elim (same current v) [
        | Dec.no n ↦
            rw
              (
                remove_if_equal,
                q,
                r,
                if_neg (same current v) n (removed k t (k.remove_key h key t.kernel)) (t, none),
              )
              i
        | Dec.yes e ↦
            rw
              (
                remove_if_equal,
                q,
                r,
                if_pos (same current v) e (removed k t (k.remove_key h key t.kernel)) (t, none),
              )
              (removed-Installed t h key i)
      ]
    ]
  ]

  close_had-same : (had : Option ℕ) (s : S) → SameOuter s (close_had k had s)
  unfolding close_had SameOuter
  close_had-same none s w = refl
  close_had-same (some h) s w = close_quietly-same h s w

  -- The handle of the network is gone, and the data plane uses what it used for the others.
  erased-Installed :
      (vni : ℕ) (t : Table S) (s : S)
      → ((w : ℕ) → vni ≢ w → k.outer_of s w ≡ k.outer_of t.kernel w)
      → Installed t
      → Installed (record { kernel = s; inners = erase ℕ_discrete vni t.inners })
  unfolding Installed
  erased-Installed vni t s same i w = elim (ℕ_discrete vni w) [
    | Dec.yes e ↦ inl (
        lookup-erase ℕ_discrete w vni t.inners
        ∙ if_pos (ℕ_discrete vni w) e none (lookup ℕ_discrete w t.inners))
    | Dec.no n ↦
        let inner =
          lookup-erase ℕ_discrete w vni t.inners
          ∙ if_neg (ℕ_discrete vni w) n none (lookup ℕ_discrete w t.inners) in
        elim (i w) [ inl p ↦ inl (inner ∙ p) | inr p ↦ inr (same w n ∙ p ∙ sym inner) ]
  ]

  pub delete-Installed : (vni : ℕ) (t : Table S) → Installed t → Installed (delete k vni t).0
  unfolding delete uninstall_inner SameOuter
  delete-Installed vni t i =
      let had = lookup ℕ_discrete vni t.inners in
      elim (Bool-cases (vni == 0)) [
        | inl z ↦ rw (delete, z) i
        | inr z ↦ elim (Result-cases (k.uninstall vni t.kernel)) [
          | inl (s, q) ↦
              rw (delete, z, uninstall_inner, q)
                (erased-Installed vni t (close_had k had s)
                  (λ w n.
                    close_had-same had s w
                    ∙ laws.uninstall-outer t.kernel s vni w q
                    ∙ if_neg (ℕ_discrete vni w) n none (k.outer_of t.kernel w))
                  i)
          | inr (key_not_exist, q) ↦
              rw (delete, z, uninstall_inner, q)
                (erased-Installed vni t (close_had k had t.kernel)
                  (λ w n. close_had-same had t.kernel w) i)
          | inr (key_exist, q) ↦
              rw (delete, z, uninstall_inner, q) (erased-Installed vni t t.kernel (λ w n. refl) i)
          | inr (other_error, q) ↦
              rw (delete, z, uninstall_inner, q) (erased-Installed vni t t.kernel (λ w n. refl) i)
        ]
      ]

  pub ensure-Installed : (vni : ℕ) (t : Table S) → Installed t → Installed (ensure k vni t).0
  unfolding ensure
  ensure-Installed vni t i = ensure_locked-Installed vni t i
