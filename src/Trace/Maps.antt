-- ===== src/Trace/Maps.antt =====
-- The BPF maps trace_active, trace_config_map and trace_tuple_map, which
-- daemon/internal/daemon/dataplane/trace/store.go writes. They are a parameter; a call that fails
-- leaves them as they were. The tuple map's keys are bytes.
use juneau.Prelude.{ℕ, Option, some, none, List, get_elem?, ◌≡◌, ite, Result, ok, err, ℕ_discrete}
use mathlib.Core.List.{List-discrete}
use juneau.Trace.{TupleVal}

pub bytes_discrete : Discrete (List ℕ)
bytes_discrete = List-discrete ℕ_discrete

-- The errors of the maps that the code tells apart.
pub data MapError : Type 0 where
  key_not_exist key_exist other_error : MapError

-- `configVal`, without its padding.
pub record ConfigVal : Type 0 where
  pub expires_ns : ℕ
  pub capture_flags : ℕ
  pub level : ℕ
  pub mode : ℕ

-- The calls, and what the data plane reads: a tuple, a session's configuration and the count.
pub record Maps (S : Type 0) : Type 0 where
  pub update_active : ℕ → S → Result MapError S
  pub update_config : ℕ → ConfigVal → S → Result MapError S
  pub delete_config : ℕ → S → Result MapError S
  pub update_tuple : List ℕ → TupleVal → S → Result MapError S
  pub add_tuple : List ℕ → TupleVal → S → Result MapError S
  pub delete_tuple : List ℕ → S → Result MapError S
  pub lookup_tuple : List ℕ → S → Result MapError TupleVal
  pub iterate : S → Result MapError (List (List ℕ × TupleVal))
  pub tuple_of : S → List ℕ → Option TupleVal
  pub config_of : S → ℕ → Option ConfigVal
  pub active_of : S → ℕ

-- Two states show the data plane the same tuples.
pub SameTuples : {S : Type 0} → Maps S → S → S → Type 0
SameTuples m s s' = (b : List ℕ) → m.tuple_of s' b ≡ m.tuple_of s b

-- What the calls do to that view. `add_tuple` is an update with BPF_NOEXIST.
pub record MapsLaws {S : Type 0} (m : Maps S) : Type 0 where
  pub active-tuples :
      (s s' : S) (n : ℕ) (b : List ℕ)
      → m.update_active n s ≡ ok s'
      → m.tuple_of s' b ≡ m.tuple_of s b
  pub active-active : (s s' : S) (n : ℕ) → m.update_active n s ≡ ok s' → m.active_of s' ≡ n
  pub update_config-tuples :
      (s s' : S) (id : ℕ) (v : ConfigVal) (b : List ℕ)
      → m.update_config id v s ≡ ok s'
      → m.tuple_of s' b ≡ m.tuple_of s b
  pub delete_config-tuples :
      (s s' : S) (id : ℕ) (b : List ℕ)
      → m.delete_config id s ≡ ok s'
      → m.tuple_of s' b ≡ m.tuple_of s b
  pub update_tuple-tuples :
      (s s' : S) (a : List ℕ) (v : TupleVal) (b : List ℕ)
      → m.update_tuple a v s ≡ ok s'
      → m.tuple_of s' b ≡ ite (bytes_discrete a b) (some v) (m.tuple_of s b)
  pub add_tuple-tuples :
      (s s' : S) (a : List ℕ) (v : TupleVal) (b : List ℕ)
      → m.add_tuple a v s ≡ ok s'
      → m.tuple_of s' b ≡ ite (bytes_discrete a b) (some v) (m.tuple_of s b)
  pub add_tuple_fresh :
      (s s' : S) (a : List ℕ) (v : TupleVal) → m.add_tuple a v s ≡ ok s' → m.tuple_of s a ≡ none
  pub delete_tuple-tuples :
      (s s' : S) (a b : List ℕ)
      → m.delete_tuple a s ≡ ok s'
      → m.tuple_of s' b ≡ ite (bytes_discrete a b) none (m.tuple_of s b)
  pub delete_tuple_missing :
      (s : S) (a : List ℕ) → m.delete_tuple a s ≡ err key_not_exist → m.tuple_of s a ≡ none
  pub lookup_tuple_found :
      (s : S) (a : List ℕ) (v : TupleVal) → m.lookup_tuple a s ≡ ok v → m.tuple_of s a ≡ some v
  pub lookup_tuple_missing :
      (s : S) (a : List ℕ) → m.lookup_tuple a s ≡ err key_not_exist → m.tuple_of s a ≡ none
  pub iterate_sound :
      (s : S) (entries : List (List ℕ × TupleVal)) (i : ℕ) (a : List ℕ) (v : TupleVal)
      → m.iterate s ≡ ok entries
      → get_elem? entries i ≡ some (a, v)
      → m.tuple_of s a ≡ some v
  pub iterate_complete :
      (s : S) (entries : List (List ℕ × TupleVal)) (a : List ℕ) (v : TupleVal)
      → m.iterate s ≡ ok entries
      → m.tuple_of s a ≡ some v
      → (i : ℕ) × (get_elem? entries i ≡ some (a, v))
