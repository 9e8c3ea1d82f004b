-- ===== src/Tasks/Expiry.antt =====
-- The reaper of external tasks and approvals.
use mathlib.Core.Option
use kaggen.Base.{
  ℕ, ◌≤◌, ◌≡◌, refl, some, [], ◌∷◌, arith, if◌then◌else◌, length, All, Text, text_key, nat_key, Map,
  values_where, map_values, get-map_values,
}
use kaggen.Tasks.{TaskState, failed, Store, find_task}
use kaggen.Tasks.External.{is_expired, timed_out, reap_task, expired_tasks, reap_expired_external}

-- One pass of the reaper fails exactly the tasks that are external, open and past their time, and
-- leaves every other task as it was.
pub reap_lem :
    (now : ℕ) (s : Store) (k : Text)
    → find_task k (reap_expired_external now s).0
      ≡ Option.map (λ t. if is_expired now t then timed_out now t else t) (find_task k s)
unfolding reap_expired_external find_task
reap_lem now s k = get-map_values k (reap_task now) s.tasks

expired_tasks-map_values :
    (now later : ℕ) (m : Map Text TaskState)
    → later ≤ now
    → expired_tasks later (map_values (reap_task now) m) ≡ []
unfolding expired_tasks map_values
expired_tasks-map_values now later [] h = refl
expired_tasks-map_values now later ((k, t) ∷ m) h =
    ground (arith, expired_tasks-map_values now later m h)

-- A task is reported to the timeout callback once: a second pass at the same time, or at an earlier
-- one, reports nothing.
pub reap-reap :
    (now later : ℕ) (s : Store)
    → later ≤ now
    → (reap_expired_external later (reap_expired_external now s).0).1 ≡ []
unfolding reap_expired_external
reap-reap now later s h = expired_tasks-map_values now later s.tasks h

expired_tasks-length :
    (now : ℕ) (m : Map Text TaskState)
    → length (expired_tasks now m) ≡ length (values_where (is_expired now) m)
unfolding expired_tasks
expired_tasks-length now [] = refl
expired_tasks-length now ((k, t) ∷ m) = ground (arith, expired_tasks-length now m)

expired_tasks-failed :
    (now : ℕ) (m : Map Text TaskState)
    → All (λ t. (t.status ≡ failed) × (t.done_at ≡ some now)) (expired_tasks now m)
unfolding expired_tasks
expired_tasks-failed now [] = tt
expired_tasks-failed now ((k, t) ∷ m) = ground (arith, expired_tasks-failed now m)

-- The callback is made once for each expired task, and each reported task has failed by then.
pub reap_reports :
    (now : ℕ) (s : Store)
    → (length (reap_expired_external now s).1 ≡ length (values_where (is_expired now) s.tasks))
      × All (λ t. (t.status ≡ failed) × (t.done_at ≡ some now)) (reap_expired_external now s).1
unfolding reap_expired_external
reap_reports now s = (expired_tasks-length now s.tasks, expired_tasks-failed now s.tasks)
