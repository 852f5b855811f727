-- ===== src/Locks/Tests.antt =====
-- Two tasks that want one lock, and the instances of the theorems.
use cortex_cognitive_runtime.Prelude.{
  ℕ, ◌≡◌, refl, [], ◌∷◌, false, none, some, String, String_discrete, ℕ_discrete, dec_of_iff,
}
use cortex_cognitive_runtime.Int.{ℤ, pos}
use cortex_cognitive_runtime.OrderedDict.{get, set, delete}
use cortex_cognitive_runtime.Locks.{
  LockManager, Reach, System, clear_force_push, empty_manager, field_update, get_or_create_lock,
  grant, take_lock, holding, is_force_pushed, later, lock_key, mark_force_pushed, outside,
  release_lock, request, start, start_acquire, unlocked, update, waiting,
}
use cortex_cognitive_runtime.Locks.Exclusion.{mutual_exclusion}

-- All that a run computes with.
lock_program : Unit {0}
unfolding String_discrete ℕ_discrete dec_of_iff get set delete clear_force_push get_or_create_lock
    take_lock is_force_pushed lock_key mark_force_pushed release_lock start_acquire
lock_program = tt

pushed_refused : start_acquire "t" "f" 0 (mark_force_pushed "t" (empty_manager {F = ℤ})) ≡ none
unfolding lock_program
pushed_refused = refl

cleared_again :
    is_force_pushed "t" (clear_force_push "t" (mark_force_pushed "t" (empty_manager {F = ℤ})))
    ≡ false
unfolding lock_program
cleared_again = refl

abbrev key_of_t : String
key_of_t = lock_key "t" "f"

abbrev created : LockManager ℤ
created = record { locks = (key_of_t, 0) ∷ []; states = []; force_pushed = [] }

abbrev two_ask : System ℤ
two_ask = record {
  manager = created;
  made = 2;
  objects =
      update (update (λ o. unlocked) 0 (record { owner = none; waiters = 0 ∷ [] })) 0
        (record { owner = none; waiters = 0 ∷ 1 ∷ [] });
  pc =
      update (update (λ i. outside) 0 (waiting key_of_t field_update "t" 0)) 1
        (waiting key_of_t field_update "t" 0);
}

abbrev one_has : System ℤ
one_has = record {
  manager = take_lock key_of_t field_update "t" (pos 5) created;
  made = 2;
  objects = update two_ask.objects 0 (record { owner = some 0; waiters = 1 ∷ [] });
  pc = update two_ask.pc 0 (holding key_of_t field_update "t" 0);
}

one_has-Reach : Reach one_has
unfolding lock_program
one_has-Reach =
    later
      (later (later start (request 0 "t" "f" field_update 0 created refl refl))
        (request 1 "t" "f" field_update 0 created refl refl))
      (grant 0 key_of_t field_update "t" 0 (pos 5) (1 ∷ []) refl refl)

first_holds : one_has.pc 0 ≡ holding key_of_t field_update "t" 0
unfolding lock_program
first_holds = refl

mutual_exclusion_example :
    let same : Type 0 = ◌≡◌ {A = ℕ} 0 0 in
    same × same × (get String_discrete key_of_t one_has.manager.locks ≡ some 0)
mutual_exclusion_example =
    mutual_exclusion 0 0 key_of_t field_update field_update "t" "t" 0 0 one_has-Reach first_holds
      first_holds
