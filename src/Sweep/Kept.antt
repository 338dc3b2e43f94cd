-- ===== src/Sweep/Kept.antt =====
-- Entries that the data plane refreshes during a sweep:
-- daemon/internal/daemon/dataplane/internal/mapsweep/mapsweep.go.
use Prim.Native.String.{String}
use juneau.Prelude.{
  ◌≡◌, ◌≢◌, refl, sym, ap, subst, ◌∙◌, ◌⊎◌, inl, inr, if_neg, Bool, true, false, Bool-cases, Option,
  none, some, Option-cases, List, [], ◌∷◌, Result, Result-cases, ok, err,
}
use juneau.Sweep.{
  Entry, Current, Group, Plan, Stats, key_not_exist, no_space, other_error, SweepError, LiveMap,
  LiveMapLaws, stale_groups, confirm_first, by_entry, present, recheck, remove, remove_present,
  judge, sweep_group, sweep_groups, sweep,
}

module _ {K V S : Type 0} (dec : Discrete K) (m : LiveMap K V S) (laws : LiveMapLaws dec m)
    (stale : K → V → Bool) where
  recheck-found :
      (key : K) (s : S) (v : V)
      → (m.look_up key s).0 ≡ ok v
      → recheck m (key ∷ []) s [] ≡ (m.drift s, record { key = key; value = some v } ∷ [], none)
  unfolding recheck
  recheck-found key s v q = rw (recheck, q, laws.look_up_state key s) refl

  recheck-missing :
      (key : K) (s : S)
      → (m.look_up key s).0 ≡ err key_not_exist
      → recheck m (key ∷ []) s [] ≡ (m.drift s, record { key = key; value = none } ∷ [], none)
  unfolding recheck
  recheck-missing key s q = rw (recheck, q, laws.look_up_state key s) refl

  remove_present-one :
      (reason : String) (key : K) (v : V) (s : S) (stats : Stats)
      → (remove_present m reason (record { key = key; value = some v } ∷ []) s stats).0
        ≡ (m.delete key s).1
  unfolding remove_present remove
  remove_present-one reason key v s stats = elim (Result-cases (remove m key s).1) [
    | inl (true, p) ↦ rw (remove_present, p) refl
    | inl (false, p) ↦ rw (remove_present, p) refl
    | inr (e, p) ↦ rw (remove_present, p) refl
  ]

  -- What a group of one key does to the map: nothing, or a deletion of an entry that is stale now.
  single-cases :
      (p : Plan K V) (key : K) (reason : String) (s : S) (stats : Stats)
      → p.confirm ≡ (λ group current. confirm_first stale current)
      → ((sweep_group m p (record { keys = key ∷ []; reason = reason }) s stats).0 ≡ m.drift s)
        ⊎ ((v : V) × (m.get (m.drift s) key ≡ some v)
            × (stale key v ≡ true)
            × ((sweep_group m p (record { keys = key ∷ []; reason = reason }) s stats).0
                ≡ (m.delete key (m.drift s)).1))
  unfolding sweep_group present confirm_first judge
  single-cases p key reason s stats c =
      let group : Group K = record { keys = key ∷ []; reason = reason } in
      elim (Result-cases (m.look_up key s).0) [
        | inr (key_not_exist, q) ↦ inl (
            ap (λ (r : S × List (Current K V) × Option SweepError). (judge m p group stats r).0)
              (recheck-missing key s q))
        | inr (no_space, q) ↦ inl (rw (sweep_group, recheck, q) (laws.look_up_state key s))
        | inr (other_error, q) ↦ inl (rw (sweep_group, recheck, q) (laws.look_up_state key s))
        | inl (v, q) ↦
            let same =
              ap (λ (r : S × List (Current K V) × Option SweepError). (judge m p group stats r).0)
                (recheck-found key s v q) in
            elim (Bool-cases (stale key v)) [
              | inr f ↦ inl (same ∙ rw (c, f) refl)
              | inl f ↦ inr (
                v,
                laws.look_up_found key s v q,
                f,
                same ∙ rw (c, f) (remove_present-one reason key v (m.drift s) stats),
              )
            ]
      ]

  -- A deletion leaves the other keys to the data plane.
  delete-other : (key k : K) (s : S) → key ≢ k → m.get (m.delete key s).1 k ≡ m.get (m.drift s) k
  delete-other key k s n = elim (Option-cases (m.delete key s).0) [
    | inl p ↦ laws.delete-get key k s p ∙ if_neg (dec key k) n _ _
    | inr (e, p) ↦ ap (λ (t : S). m.get t k) (laws.delete_failed key s e p)
  ]

  module _ (k : K) (Good : V → Type 0) (fresh : (v : V) → Good v → stale k v ≡ false)
      (stays : (s : S) (v : V)
        → m.get s k ≡ some v
        → Good v
        → (w : V) × (m.get (m.drift s) k ≡ some w) × Good w) where
    unfoldable pub Holds : S → Type 0
    Holds s = (v : V) × (m.get s k ≡ some v) × Good v

    drift-Holds : (s : S) → Holds s → Holds (m.drift s)
    unfolding Holds
    drift-Holds s (v, p, g) = stays s v p g

    delete-Holds : (key : K) (s : S) → key ≢ k → Holds s → Holds (m.delete key s).1
    unfolding Holds
    delete-Holds key s n h = let (v, p, g) = drift-Holds s h in (v, delete-other key k s n ∙ p, g)

    group-Holds :
        (p : Plan K V) (key : K) (reason : String) (s : S) (stats : Stats)
        → p.confirm ≡ (λ group current. confirm_first stale current)
        → Holds s
        → Holds (sweep_group m p (record { keys = key ∷ []; reason = reason }) s stats).0
    unfolding Holds
    group-Holds p key reason s stats c h = elim (single-cases p key reason s stats c) [
      | inl e ↦ subst Holds (sym e) (drift-Holds s h)
      | inr (v, found, old, e) ↦
          let (w, held, g) = drift-Holds s h in
          let n : key ≢ k = λ q. cc (fresh w g, old, held, found, q) in
          subst Holds (sym e) (delete-Holds key (m.drift s) n (drift-Holds s h))
    ]

    -- The groups after the first are swept only if it ends without an error.
    first-then :
        (p : Plan K V) (group : Group K) (rest : List (Group K)) (s : S) (stats : Stats)
        → Holds (sweep_group m p group s stats).0
        → ((t : S) (later : Stats) → Holds t → Holds (sweep_groups m p rest t later).0)
        → Holds (sweep_groups m p (group ∷ rest) s stats).0
    unfolding sweep_groups
    first-then p group rest s stats h then_rest =
        elim (Option-cases (sweep_group m p group s stats).2) [
          | inl e ↦
              rw (sweep_groups, e)
                (then_rest (sweep_group m p group s stats).0 (sweep_group m p group s stats).1 h)
          | inr (failed, e) ↦ rw (sweep_groups, e) h
        ]

    groups-Holds :
        (p : Plan K V) (snapshot : List (Entry K V)) (reason : String) (s : S) (stats : Stats)
        → p.confirm ≡ (λ group current. confirm_first stale current)
        → Holds s
        → Holds (sweep_groups m p (stale_groups snapshot reason stale) s stats).0
    unfolding sweep_groups stale_groups
    groups-Holds p [] reason s stats c h = h
    groups-Holds p ((key, v) ∷ rest) reason s stats c h = elim (Bool-cases (stale key v)) [
      | inr f ↦ rw (stale_groups, f) (groups-Holds p rest reason s stats c h)
      | inl f ↦
          let group : Group K = record { keys = key ∷ []; reason = reason } in
          rw (stale_groups, f)
            (first-then p group (stale_groups rest reason stale) s stats
              (group-Holds p key reason s stats c h)
              (λ t later h'. groups-Holds p rest reason t later c h'))
    ]

    -- If the data plane, between the calls, keeps the key in the map with values that are not
    -- stale, then so does a sweep that plans by entry, even if what it read was stale and
    -- whether it ends with an error or not.
    pub sweep_keeps :
        (snapshot : S → S × Result SweepError (List (Entry K V))) (reason : String) (s : S)
        → ((t : S) → Holds t → Holds (snapshot t).0)
        → Holds s
        → Holds (sweep m snapshot (λ entries. by_entry entries reason stale) s).0
    unfolding sweep by_entry
    sweep_keeps snapshot reason s reads h = elim (Result-cases (snapshot s).1) [
      | inr (e, q) ↦ rw (sweep, q) (reads s h)
      | inl (entries, q) ↦
          rw (sweep, q)
            (groups-Holds (by_entry entries reason stale) entries reason (snapshot s).0 _ refl
              (reads s h))
    ]
