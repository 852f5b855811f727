-- ===== src/Locks.antt =====
-- app/core/lock_manager.py: the lock of each field of each trace, and tasks that take it in any
-- interleaving of what happens between two awaits.
pub mod Exclusion
mod Tests
use Prim.Native.String as Text
use cortex_cognitive_runtime.Prelude.{
  ℕ, ◌≡◌, Bool, true, false, ◌||◌, Option, none, some, List, [], ◌∷◌, ◌++◌, suc, select, ite,
  if◌then◌else◌, String, String_discrete, ℕ_discrete,
}
use cortex_cognitive_runtime.OrderedDict.{OrderedDict, get, set, delete}
use cortex_cognitive_runtime.Float.{Float64, ratio}

pub data LockType : Type 0 where
  read field_update chromadb_write : LockType

pub record LockState (F : Type 0) : Type 0 where
  pub lock_type : LockType
  pub trace_id : String
  pub acquired_at : F

-- `locks` gives for each key its asyncio.Lock object, by the number under which it was made.
pub record LockManager (F : Type 0) : Type 0 where
  pub locks : OrderedDict String ℕ
  pub states : OrderedDict String (LockState F)
  pub force_pushed : List String

-- `LOCK_TIMEOUTS`
unfoldable pub lock_timeout : {F : Type 0} ⦃fl : Float64 F⦄ → LockType → F
lock_timeout read = ratio 1 1
lock_timeout field_update = ratio 1 1
lock_timeout chromadb_write = ratio 3 1

-- The f-string of the key
unfoldable pub lock_key : String → String → String
lock_key trace_id field_name = Text.◌++◌ trace_id (Text.◌++◌ ":" field_name)

abbrev pub is_in : String → List String → Bool
is_in x [] = false
is_in x (y ∷ ys) = ite (String_discrete x y) true (is_in x ys)

module _ {F : Type 0} where
  unfoldable pub mark_force_pushed : String → LockManager F → LockManager F
  mark_force_pushed trace_id m = record m {
    force_pushed =
        if is_in trace_id m.force_pushed then m.force_pushed else trace_id ∷ m.force_pushed;
  }

  unfoldable pub clear_force_push : String → LockManager F → LockManager F
  clear_force_push trace_id m = record m {
    force_pushed = select (λ t. ite (String_discrete t trace_id) false true) m.force_pushed;
  }

  unfoldable pub is_force_pushed : String → LockManager F → Bool
  is_force_pushed trace_id m = is_in trace_id m.force_pushed

  -- `_get_or_create_lock`: the object of the key. `fresh` is the object that `asyncio.Lock()` makes
  -- where the key has none.
  unfoldable pub get_or_create_lock : String → ℕ → LockManager F → ℕ × LockManager F
  get_or_create_lock key fresh m = elim (get String_discrete key m.locks) [
    | some object ↦ (object, m)
    | none ↦ (fresh, record m { locks = set String_discrete key fresh m.locks })
  ]

  -- `acquire` up to its await, with the object to wait on: none where it raises CancelledError at
  -- once.
  unfoldable pub start_acquire : String → String → ℕ → LockManager F → Option (ℕ × LockManager F)
  unfolding is_force_pushed get_or_create_lock lock_key
  start_acquire trace_id field_name fresh m =
      if is_force_pushed trace_id m
      then none
      else some (get_or_create_lock (lock_key trace_id field_name) fresh m)

  -- The await is over and the lock is had: the state of the lock is written.
  unfoldable pub take_lock : String → LockType → String → F → LockManager F → LockManager F
  take_lock key lock_type trace_id now m = record m {
    states =
        set String_discrete key
          (record { lock_type = lock_type; trace_id = trace_id; acquired_at = now }) m.states;
  }

  -- What the `finally` clause does to the manager
  unfoldable pub release_lock : String → LockManager F → LockManager F
  release_lock key m = record m { states = delete String_discrete key m.states }

-- An asyncio.Lock, as its documentation describes it: at most one task owns it, and the tasks that
-- wait for it get it in the order in which they began to wait.
pub record AsyncLock : Type 0 where
  pub owner : Option ℕ
  pub waiters : List ℕ

abbrev pub unlocked : AsyncLock
unlocked = record { owner = none; waiters = [] }

-- Where a task stands in `acquire`: not in it, at its await of an object, or in the body, with the
-- object that it will release.
pub data Pc : Type 0 where
  outside : Pc
  waiting holding : (key : String) (lock_type : LockType) (trace_id : String) (object : ℕ) → Pc

-- `made` is the number for the next object.
pub record System (F : Type 0) : Type 0 where
  pub manager : LockManager F
  pub made : ℕ
  pub objects : ℕ → AsyncLock
  pub pc : ℕ → Pc

abbrev pub update : {A : Type 0} → (ℕ → A) → ℕ → A → ℕ → A
update f i p j = ite (ℕ_discrete i j) p (f j)

abbrev pub without : ℕ → List ℕ → List ℕ
without i is = select (λ j. ite (ℕ_discrete j i) false true) is

module _ {F : Type 0} where
  -- What may happen between two awaits, in any interleaving of tasks. A waiter may give up by its
  -- time-out or by being cancelled at any time.
  pub data Step (s : System F) : System F → Type 0 where
    refuse :
        (i : ℕ) (trace_id field_name : String)
        → s.pc i ≡ outside
        → start_acquire trace_id field_name s.made s.manager ≡ none
        → Step s s
    request :
        (i : ℕ) (trace_id field_name : String) (lock_type : LockType) (object : ℕ)
        (m : LockManager F)
        → s.pc i ≡ outside
        → start_acquire trace_id field_name s.made s.manager ≡ some (object, m)
        → Step s (record {
          manager = m;
          made = suc s.made;
          objects =
              update s.objects object
                (record (s.objects object) { waiters = (s.objects object).waiters ++ i ∷ [] });
          pc = update s.pc i (waiting (lock_key trace_id field_name) lock_type trace_id object);
        })
    grant :
        (i : ℕ) (key : String) (lock_type : LockType) (trace_id : String) (object : ℕ) (now : F)
        (others : List ℕ)
        → s.pc i ≡ waiting key lock_type trace_id object
        → s.objects object ≡ record { owner = none; waiters = i ∷ others }
        → Step s (record {
          manager = take_lock key lock_type trace_id now s.manager;
          made = s.made;
          objects = update s.objects object (record { owner = some i; waiters = others });
          pc = update s.pc i (holding key lock_type trace_id object);
        })
    give_up :
        (i : ℕ) (key : String) (lock_type : LockType) (trace_id : String) (object : ℕ)
        → s.pc i ≡ waiting key lock_type trace_id object
        → Step s (record {
          manager = s.manager;
          made = s.made;
          objects =
              update s.objects object
                (record (s.objects object) { waiters = without i (s.objects object).waiters });
          pc = update s.pc i outside;
        })
    leave :
        (i : ℕ) (key : String) (lock_type : LockType) (trace_id : String) (object : ℕ)
        → s.pc i ≡ holding key lock_type trace_id object
        → Step s (record {
          manager = release_lock key s.manager;
          made = s.made;
          objects = update s.objects object (record (s.objects object) { owner = none });
          pc = update s.pc i outside;
        })
    mark :
        (trace_id : String) → Step s (record s { manager = mark_force_pushed trace_id s.manager })
    clear :
        (trace_id : String) → Step s (record s { manager = clear_force_push trace_id s.manager })

  abbrev pub empty_manager : LockManager F
  empty_manager = record { locks = []; states = []; force_pushed = [] }

  abbrev pub initial : System F
  initial = record { manager = empty_manager; made = 0; objects = λ o. unlocked; pc = λ i. outside }

  pub data Reach : System F → Type 0 where
    start : Reach initial
    later : {s t : System F} → Reach s → Step s t → Reach t
