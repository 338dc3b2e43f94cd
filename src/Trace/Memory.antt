-- ===== src/Trace/Memory.antt =====
-- The trace maps in memory, for daemon/internal/daemon/dataplane/trace/store.go.
use juneau.Prelude.{
  ℕ, ◌≡◌, refl, sym, ap, subst, ◌∙◌, Option, none, some, List, get_elem?, Result, ok, err,
  ok-injective, ℕ_discrete,
}
use juneau.Prelude.Dict.{Dict, lookup, insert, erase, lookup-insert, lookup-erase}
use juneau.Prelude.Once.{tidy, tidy-Once, lookup-tidy, lookup-get, get-lookup}
use juneau.Trace.{TupleVal}
use juneau.Trace.Maps.{
  Maps, MapsLaws, MapError, key_not_exist, key_exist, ConfigVal, bytes_discrete,
}

pub record Memory : Type 0 where
  pub active : ℕ
  pub config : Dict ℕ ConfigVal
  pub tuples : Dict (List ℕ) TupleVal

abbrev found_or_missing : Option TupleVal → Result MapError TupleVal
found_or_missing none = err key_not_exist
found_or_missing (some v) = ok v

abbrev added_or_kept : Option TupleVal → Memory → Result MapError Memory
added_or_kept none s = ok s
added_or_kept (some v) s = err key_exist

abbrev with_tuple : List ℕ → TupleVal → Memory → Memory
with_tuple b v s = record s { tuples = insert bytes_discrete b v s.tuples }

abbrev without_tuple : List ℕ → Memory → Memory
without_tuple b s = record s { tuples = erase bytes_discrete b s.tuples }

abbrev pub memory_maps : Maps Memory
memory_maps = record {
  update_active = λ n s. ok (record s { active = n });
  update_config = λ id v s. ok (record s { config = insert ℕ_discrete id v s.config });
  delete_config = λ id s. ok (record s { config = erase ℕ_discrete id s.config });
  update_tuple = λ b v s. ok (with_tuple b v s);
  add_tuple = λ b v s. added_or_kept (lookup bytes_discrete b s.tuples) (with_tuple b v s);
  delete_tuple = λ b s. ok (without_tuple b s);
  lookup_tuple = λ b s. found_or_missing (lookup bytes_discrete b s.tuples);
  iterate = λ s. ok (tidy bytes_discrete s.tuples);
  tuple_of = λ s b. lookup bytes_discrete b s.tuples;
  config_of = λ s id. lookup ℕ_discrete id s.config;
  active_of = λ s. s.active;
}

kept_same :
    (s s' : Memory) (b : List ℕ)
    → s.tuples ≡ s'.tuples
    → lookup bytes_discrete b s'.tuples ≡ lookup bytes_discrete b s.tuples
kept_same s s' b p = ap (λ (d : Dict (List ℕ) TupleVal). lookup bytes_discrete b d) (sym p)

same_tuples : {s t : Memory} → ◌≡◌ {A = Result MapError Memory} (ok s) (ok t) → s.tuples ≡ t.tuples
same_tuples e = ap (λ (t : Memory). t.tuples) (ok-injective e)

added-cases : (o : Option TupleVal) (s t : Memory) → added_or_kept o s ≡ ok t → (o ≡ none) × (s ≡ t)
added-cases none s t e = (refl, ok-injective e)
added-cases (some v) s t e = absurd (cc e)

found-cases : (o : Option TupleVal) (v : TupleVal) → found_or_missing o ≡ ok v → o ≡ some v
found-cases none v e = absurd (cc e)
found-cases (some w) v e = cc e

missing-cases : (o : Option TupleVal) → found_or_missing o ≡ err key_not_exist → o ≡ none
missing-cases none e = refl
missing-cases (some w) e = absurd (cc e)

pub memory_maps-MapsLaws : MapsLaws memory_maps
memory_maps-MapsLaws = record {
  active-tuples = λ s s' n b e. kept_same s s' b (same_tuples e);
  active-active = λ s s' n e. sym (ap (λ (t : Memory). t.active) (ok-injective e));
  update_config-tuples = λ s s' id v b e. kept_same s s' b (same_tuples e);
  delete_config-tuples = λ s s' id b e. kept_same s s' b (same_tuples e);
  update_tuple-tuples = λ s s' a v b e.
      kept_same (with_tuple a v s) s' b (same_tuples e)
      ∙ lookup-insert bytes_discrete b a v s.tuples;
  add_tuple-tuples = λ s s' a v b e.
      let (fresh, same) = added-cases (lookup bytes_discrete a s.tuples) (with_tuple a v s) s' e in
      kept_same (with_tuple a v s) s' b (ap (λ (t : Memory). t.tuples) same)
      ∙ lookup-insert bytes_discrete b a v s.tuples;
  add_tuple_fresh =
      λ s s' a v e. (added-cases (lookup bytes_discrete a s.tuples) (with_tuple a v s) s' e).0;
  delete_tuple-tuples = λ s s' a b e.
      kept_same (without_tuple a s) s' b (same_tuples e) ∙ lookup-erase bytes_discrete b a s.tuples;
  delete_tuple_missing = λ s a e. absurd (cc e);
  lookup_tuple_found = λ s a v e. found-cases (lookup bytes_discrete a s.tuples) v e;
  lookup_tuple_missing = λ s a e. missing-cases (lookup bytes_discrete a s.tuples) e;
  iterate_sound = λ s entries i a v e p.
      sym (lookup-tidy bytes_discrete a s.tuples)
      ∙ lookup-get bytes_discrete (tidy bytes_discrete s.tuples) i a v
          (tidy-Once bytes_discrete s.tuples)
          (subst (λ (d : List (List ℕ × TupleVal)). get_elem? d i ≡ some (a, v))
            (sym (ok-injective e)) p);
  iterate_complete = λ s entries a v e p.
      subst (λ (d : List (List ℕ × TupleVal)). (i : ℕ) × (get_elem? d i ≡ some (a, v)))
        (ok-injective e)
        (get-lookup bytes_discrete (tidy bytes_discrete s.tuples) a v
          (lookup-tidy bytes_discrete a s.tuples ∙ p));
}
