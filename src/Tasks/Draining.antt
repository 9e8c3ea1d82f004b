-- ===== src/Tasks/Draining.antt =====
-- The results that wait for the next turn of the user.
use mathlib.Core.List.{Perm, perm_middle}
use mathlib.Core.List.Perm
use kaggen.Base.{
  ◌≡◌, inl, inr, Bool, true, ◌&&◌, none, some, List, [], ◌∷◌, ◌++◌, arith, if◌then◌else◌,
  Bool-cases, All, Text, ◌is◌, text_key, nat_key, Map, Unique, values_where, del_where,
  get-del_where-some, values_where-del_where,
}
use kaggen.Tasks.{
  TaskState, Store, find_task, is_queued_result, queued_results, list_tasks, trigger_queue, is_done,
}

abbrev all_values : Map Text TaskState → List TaskState
all_values = values_where (λ t. true)

split_values :
    (p : TaskState → Bool) (m : Map Text TaskState)
    → Perm (all_values m) (values_where p m ++ all_values (del_where p m))
unfolding del_where
split_values p [] = Perm.nil
split_values p ((k, t) ∷ m) = elim (Bool-cases (p t)) [
  | inl e ↦ rw (e, values_where, del_where) (Perm.cons t (split_values p m))
  | inr e ↦
      rw (e, values_where, del_where)
        (Perm.trans (Perm.cons t (split_values p m)) (Perm.symm (perm_middle (values_where p m) _)))
]

-- Draining splits the tasks in two, and loses and repeats none: what it returns and what stays are
-- together the tasks that were listed before.
pub queued_results-perm :
    (s : Store)
    → Perm (list_tasks none s) ((queued_results s).1 ++ list_tasks none (queued_results s).0)
unfolding queued_results list_tasks
queued_results-perm s = split_values is_queued_result s.tasks

values_where-All :
    (p : TaskState → Bool) (m : Map Text TaskState) → All (λ t. p t ≡ true) (values_where p m)
values_where-All p [] = tt
values_where-All p ((k, t) ∷ m) = elim (Bool-cases (p t)) [
  | inl e ↦ rw (e, values_where) (e, values_where-All p m)
  | inr e ↦ rw (e, values_where) (values_where-All p m)
]

-- Each result is handed out once: all that is returned is done and queued, and a second call right
-- after returns nothing.
pub queued_results_once :
    (s : Store)
    → All (λ t. ((t.policy is trigger_queue) && is_done t.status) ≡ true) (queued_results s).1
      × ((queued_results (queued_results s).0).1 ≡ [])
unfolding queued_results
queued_results_once s =
    (values_where-All is_queued_result s.tasks, values_where-del_where is_queued_result s.tasks)

-- What is not a finished task of the queue policy stays, unchanged.
pub find_task-queued_results :
    (s : Store) (k : Text) (t : TaskState)
    → Unique s.tasks
    → find_task k s ≡ some t
    → find_task k (queued_results s).0 ≡ (if is_queued_result t then none else some t)
unfolding queued_results find_task
find_task-queued_results s k t u h =
    ground (arith, get-del_where-some k is_queued_result s.tasks t u h)
