-- ===== src/Memory/GoalStack/Updating.antt =====
-- A change of a goal in its place: the operations `update`, `touch` and `remove` keep a valid stack
-- valid.
use cortex_cognitive_runtime.Prelude.{
  ◌≤◌, ◌≡◌, refl, sym, ◌∙◌, some, [], ◌∷◌, arith, length, String, String_discrete,
}
use cortex_cognitive_runtime.OrderedDict.{OrderedDict, get, set, delete}
use cortex_cognitive_runtime.OrderedDict.Laws.{set-IsDistinct, delete-IsDistinct, length-set_old}
use cortex_cognitive_runtime.Memory.Goal.{Goal, GoalStatus}
use cortex_cognitive_runtime.Memory.GoalStack.{GoalStack, ok, update_status, touch, remove}
use cortex_cognitive_runtime.Memory.GoalStack.Eviction.{
  IsKeyed, IsValid, set-IsKeyed, delete-IsKeyed,
}

module _ {F : Type 0} where
  abbrev pub replaced : String → Goal F → GoalStack F → GoalStack F
  replaced k g s = record s { goals = set String_discrete k g s.goals }

  pub get-IsKeyed :
      (k : String) (d : OrderedDict String (Goal F)) {g : Goal F}
      → IsKeyed d
      → get String_discrete k d ≡ some g
      → k ≡ g.goal_id
  unfolding get
  get-IsKeyed k [] h e = cc
  get-IsKeyed k (x ∷ d) {g = g} h e = ground (arith, get-IsKeyed k d {g = g} h.1)

  pub replaced-IsValid :
      (k : String) (old g : Goal F) (s : GoalStack F)
      → IsValid s
      → get String_discrete k s.goals ≡ some old
      → g.goal_id ≡ old.goal_id
      → IsValid (replaced k g s)
  replaced-IsValid k old g s v e same = record {
    room = v.room;
    bounded = ground (arith, length-set_old String_discrete k g old s.goals e, v.bounded);
    distinct = set-IsDistinct String_discrete k g s.goals v.distinct;
    keyed = set-IsKeyed k g s.goals (get-IsKeyed k s.goals {g = old} v.keyed e ∙ sym same) v.keyed;
  }

  pub update_status-found :
      (k : String) (status : GoalStatus) (now : F) (s : GoalStack F) {old : Goal F}
      → get String_discrete k s.goals ≡ some old
      → update_status k status now s
        ≡ ok (replaced k (record old { status = status; updated_at = now }) s)
  unfolding update_status
  update_status-found k status now s e = rw (e, update_status) refl

  pub touch-found :
      (k : String) (now : F) (s : GoalStack F) {old : Goal F}
      → get String_discrete k s.goals ≡ some old
      → touch k now s ≡ ok (replaced k (record old { last_used_at = now; updated_at = now }) s)
  unfolding touch
  touch-found k now s e = rw (e, touch) refl

  length-delete_le :
      (k : String) (d : OrderedDict String (Goal F))
      → length (delete String_discrete k d) ≤ length d
  unfolding delete
  length-delete_le k [] = omega arith
  length-delete_le k (e ∷ d) = ground (arith, length-delete_le k d)

  pub remove-IsValid : (k : String) (s : GoalStack F) → IsValid s → IsValid (remove k s).1
  unfolding remove
  remove-IsValid k s v = record {
    room = v.room;
    bounded = ground (arith, length-delete_le k s.goals, v.bounded);
    distinct = delete-IsDistinct String_discrete k s.goals v.distinct;
    keyed = delete-IsKeyed k s.goals v.keyed;
  }
