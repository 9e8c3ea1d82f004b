-- ===== src/Tasks/Cancellation.antt =====
-- Cancelling a task, and what later calls make of a cancelled one.
use kaggen.Base.{
  ℕ, ◌≡◌, refl, ◌⊎◌, inl, inr, ite, true, false, Option, none, some, arith, Bool-cases,
  Option-cases, Text, codes, text_discrete, text_key, nat_key, get, put, get-put, get-map_values,
}
use kaggen.Tasks.{
  TaskState, running, Store, cancel, cancelled_task, find_task, status_is, cancelled, complete,
  fail, update_tasks, completed, completed_task,
}
use kaggen.Tasks.External.{reap_expired_external, reap_task}

-- Whether a cancellation takes effect: the task is there and runs.
abbrev pub IsCancellable : Option TaskState → Type 0
IsCancellable none = ⊥
IsCancellable (some t) = t.status ≡ running

-- `Cancel` answers true exactly for a task that runs. Then it ends the task's own context, sets its
-- status to cancelled, its error to "cancelled by user" and its end time to the current one, and changes
-- nothing else of it and no other task. Otherwise it changes nothing at all.
pub cancel_lem :
    (id : Text) (now : ℕ) (s : Store)
    → ((t : TaskState) × (find_task id s ≡ some t)
        × (t.status ≡ running)
        × ((cancel id now s).1 ≡ true)
        × ((cancel id now s).2 ≡ t.cancel_fn)
        × ((k : Text)
            → find_task k (cancel id now s).0
              ≡ ite
                  (text_discrete id k)
                  (some (record t {
                    status = cancelled;
                    error = codes "cancelled by user";
                    done_at = some now;
                  }))
                  (find_task k s)))
      ⊎ (¬ IsCancellable (find_task id s) × (cancel id now s ≡ (s, false, none)))
unfolding cancel find_task
cancel_lem id now s = elim (Option-cases (get id s.tasks)) [
  | inl e ↦ inr (ground (arith, e), ground (arith, e))
  | inr (t, e) ↦ elim (Bool-cases (status_is t.status running)) [
    | inl r ↦ inl (
      t,
      e,
      ground (arith, r),
      ground (arith, e, r),
      ground (arith, e, r),
      λ k. ground (arith, e, r, get-put id k (cancelled_task now t) s.tasks),
    )
    | inr r ↦ inr (ground (arith, e, r), ground (arith, e, r))
  ]
]

abbrev CancelledAt : Option TaskState → Type 0
CancelledAt none = ⊥
CancelledAt (some t) = t.status ≡ cancelled

-- A second `Cancel` answers false and changes nothing, whenever it comes.
pub cancel-cancel :
    (id : Text) (now later : ℕ) (s : Store)
    → (cancel id now s).1 ≡ true
    → cancel id later (cancel id now s).0 ≡ ((cancel id now s).0, false, none)
unfolding cancel
cancel-cancel id now later s h = elim (Option-cases (get id s.tasks)) [
  | inl e ↦ absurd (ground (arith, e))
  | inr (t, e) ↦ ground (arith, e, get-put id id (cancelled_task now t) s.tasks)
]

-- After `Cancel` answered true for a task, a failure that is reported for it changes no task.
pub fail-cancel :
    (id message : Text) (now later : ℕ) (s : Store)
    → (cancel id now s).1 ≡ true
    → (k : Text)
    → find_task k (fail id message later (cancel id now s).0) ≡ find_task k (cancel id now s).0
unfolding cancel fail find_task update_tasks
fail-cancel id message now later s h k = elim (Option-cases (get id s.tasks)) [
  | inl e ↦ absurd (ground (arith, e))
  | inr (t, e) ↦
      let after = put id (cancelled_task now t) s.tasks in
      ground (
        arith,
        e,
        get-put id id (cancelled_task now t) s.tasks,
        get-put id k (cancelled_task now t) s.tasks,
        get-put id k (cancelled_task now t) after,
      )
]

-- The reaper leaves a cancelled task as it is.
pub reap-cancel :
    (id : Text) (now later : ℕ) (s : Store)
    → (cancel id now s).1 ≡ true
    → find_task id (reap_expired_external later (cancel id now s).0).0
      ≡ find_task id (cancel id now s).0
unfolding cancel find_task reap_expired_external
reap-cancel id now later s h = elim (Option-cases (get id s.tasks)) [
  | inl e ↦ absurd (ground (arith, e))
  | inr (t, e) ↦
      let after = put id (cancelled_task now t) s.tasks in
      ground (
        arith,
        e,
        get-put id id (cancelled_task now t) s.tasks,
        get-map_values id (reap_task later) after,
      )
]

-- A completion is not held back: a task whose cancellation was acknowledged ends as completed, with
-- the result, while its error text still says that it was cancelled.
pub complete-cancel :
    (id result : Text) (now later : ℕ) (s : Store)
    → (cancel id now s).1 ≡ true
    → (t : TaskState) × (find_task id (complete id result later (cancel id now s).0) ≡ some t)
      × (t.status ≡ completed)
      × (t.result ≡ result)
      × (t.error ≡ codes "cancelled by user")
unfolding cancel complete find_task update_tasks
complete-cancel id result now later s h = elim (Option-cases (get id s.tasks)) [
  | inl e ↦ absurd (ground (arith, e))
  | inr (t, e) ↦
      let after = put id (cancelled_task now t) s.tasks in
      (
        completed_task result later (cancelled_task now t),
        ground (
          arith,
          e,
          get-put id id (cancelled_task now t) s.tasks,
          get-put id id (completed_task result later (cancelled_task now t)) after,
        ),
        refl,
        refl,
        refl,
      )
]
