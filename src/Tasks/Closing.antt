-- ===== src/Tasks/Closing.antt =====
-- internal/agent/async.go: a task that has ended stays so until its id is registered again.
use kaggen.Tasks.{
  queued_results, TaskState, complete, fail, is_done, Store, failed_task, find_task, register,
  update_tasks, update_description, completed_task, set_event_callback, add_token_usage,
  set_cancel_func, add_event, cancel, append_event, cancelled_task, is_queued_result,
}
use kaggen.Tasks.Lifecycle.{
  Call, registers, run, step, asks, IsValid, get-update_tasks, outsources, step-IsValid, completes,
  fails, describes, records, charges, sets_cancel, cancels, listens, reaps, drains,
}
use kaggen.Tasks.Approval.{EmailArgs}
use kaggen.Tasks.External.{reap_task, register_approval, register_external, reap_expired_external}
use kaggen.Base.{
  ℕ, ◌≡◌, refl, ◌≢◌, inl, inr, Bool, true, Option, none, some, List, [], ◌∷◌, arith, Bool-cases,
  Option-cases, All, Text, text_discrete, text_key, nat_key, Map, get, put, Unique, get-put,
  del_where, map_values, get-map_values, get-del_where-none, get-del_where-some,
}

-- The task is gone or done.
abbrev pub is_closed : Option TaskState → Bool
is_closed none = true
is_closed (some t) = is_done t.status

-- The id is not registered again.
abbrev pub Spares : Text → ℕ × Call → Type 0
Spares id (now, registers j agent task policy sid uid pipeline stage) = j ≢ id
Spares id (now, asks j skill tool args description sid uid timeout) = j ≢ id
Spares id (now, outsources j name secret policy sid uid timeout) = j ≢ id
Spares id (now, c) = Unit

update_tasks-is_closed :
    (id k : Text) (f : TaskState → TaskState) (m : Map Text TaskState)
    → ((t : TaskState) → is_done t.status ≡ true → is_done (f t).status ≡ true)
    → is_closed (get id m) ≡ true
    → is_closed (get id (update_tasks k f m)) ≡ true
update_tasks-is_closed id k f m keeps h = elim (text_discrete k id) [
  | yes same ↦ elim (Option-cases (get id m)) [
    | inl e ↦ ground (arith, same, e, get-update_tasks id k f m)
    | inr (t, e) ↦ ground (arith, same, e, h, keeps t, get-update_tasks id k f m)
  ]
  | no apart ↦ ground (arith, apart, h, get-update_tasks id k f m)
]

put-is_closed :
    (id k : Text) (t : TaskState) (m : Map Text TaskState)
    → k ≢ id
    → is_closed (get id m) ≡ true
    → is_closed (get id (put k t m)) ≡ true
put-is_closed id k t m apart h = ground (arith, apart, h, get-put k id t m)

failed_task-is_done :
    (message : Text) (now : ℕ) (t : TaskState) → is_done (failed_task message now t).status ≡ true
failed_task-is_done message now t = ground arith

reap_task-is_done :
    (now : ℕ) (t : TaskState) → is_done t.status ≡ true → is_done (reap_task now t).status ≡ true
reap_task-is_done now t h = ground arith

map_values-is_closed :
    (id : Text) (f : TaskState → TaskState) (m : Map Text TaskState)
    → ((t : TaskState) → is_done t.status ≡ true → is_done (f t).status ≡ true)
    → is_closed (get id m) ≡ true
    → is_closed (get id (map_values f m)) ≡ true
map_values-is_closed id f m keeps h = elim (Option-cases (get id m)) [
  | inl e ↦ ground (arith, e, get-map_values id f m)
  | inr (t, e) ↦ ground (arith, e, h, keeps t, get-map_values id f m)
]

del_where-is_closed :
    (id : Text) (p : TaskState → Bool) (m : Map Text TaskState)
    → Unique m
    → is_closed (get id m) ≡ true
    → is_closed (get id (del_where p m)) ≡ true
del_where-is_closed id p m u h = elim (Option-cases (get id m)) [
  | inl e ↦ ground (arith, e, get-del_where-none id p m e)
  | inr (t, e) ↦ elim (Bool-cases (p t)) [
    | inl q ↦ ground (arith, e, q, get-del_where-some id p m t u e)
    | inr q ↦ ground (arith, e, q, h, get-del_where-some id p m t u e)
  ]
]

module _ (unmarshal : Text → Option EmailArgs) where
  step-is_closed :
      (id : Text) (s : Store) (c : ℕ × Call)
      → IsValid s
      → Spares id c
      → is_closed (find_task id s) ≡ true
      → is_closed (find_task id (step unmarshal s c)) ≡ true
  unfolding step register update_description set_event_callback add_token_usage complete fail
      set_cancel_func register_approval register_external add_event cancel reap_expired_external
      queued_results find_task append_event
  step-is_closed id s (now, registers k agent task policy sid uid pipeline stage) v apart h =
      put-is_closed id k _ s.tasks apart h
  step-is_closed id s (now, describes k task) v apart h =
      update_tasks-is_closed id k _ s.tasks (λ t d. d) h
  step-is_closed id s (now, records k evt) v apart h = elim (Option-cases (get k s.tasks)) [
    | inl e ↦ ground (arith, e, h)
    | inr (t, e) ↦
        let put' = get-put k id (append_event evt t) s.tasks in
        elim (text_discrete k id) [
          | yes same ↦ ground (arith, e, h, same, put')
          | no apart ↦ ground (arith, e, h, apart, put')
        ]
  ]
  step-is_closed id s (now, charges k input output total) v apart h =
      update_tasks-is_closed id k _ s.tasks (λ t d. d) h
  step-is_closed id s (now, completes k result) v apart h =
      update_tasks-is_closed id k _ s.tasks (λ t d. refl) h
  step-is_closed id s (now, fails k message) v apart h =
      update_tasks-is_closed id k _ s.tasks (λ t d. failed_task-is_done message now t) h
  step-is_closed id s (now, sets_cancel k context) v apart h =
      update_tasks-is_closed id k _ s.tasks (λ t d. d) h
  step-is_closed id s (now, cancels k) v apart h = elim (Option-cases (get k s.tasks)) [
    | inl e ↦ ground (arith, e, h)
    | inr (t, e) ↦
        let put' = get-put k id (cancelled_task now t) s.tasks in
        elim (text_discrete k id) [
          | yes same ↦ ground (arith, e, h, same, put')
          | no apart ↦ ground (arith, e, h, apart, put')
        ]
  ]
  step-is_closed id s (now, asks k skill tool args description sid uid timeout) v apart h =
      put-is_closed id k _ s.tasks apart h
  step-is_closed id s (now, outsources k name secret policy sid uid timeout) v apart h =
      put-is_closed id k _ s.tasks apart h
  step-is_closed id s (now, reaps) v apart h =
      map_values-is_closed id (reap_task now) s.tasks (λ t d. reap_task-is_done now t d) h
  step-is_closed id s (now, drains) v apart h =
      del_where-is_closed id is_queued_result s.tasks v.unique h
  step-is_closed id s (now, listens given) v apart h = h

  -- A task that is gone or done is so after any calls that do not register its id.
  pub run-is_closed :
      (id : Text) (s : Store) (cs : List (ℕ × Call))
      → IsValid s
      → All (Spares id) cs
      → is_closed (find_task id s) ≡ true
      → is_closed (find_task id (run unmarshal s cs)) ≡ true
  unfolding run
  run-is_closed id s [] v spare h = h
  run-is_closed id s (c ∷ cs) v spare h =
      run-is_closed id (step unmarshal s c) cs (step-IsValid unmarshal s c v) spare.1
        (step-is_closed id s c v spare.0 h)

  pub complete-closes :
      (id result : Text) (now : ℕ) (s : Store)
      → IsValid s
      → (is_closed (find_task id (complete id result now s)) ≡ true)
        × IsValid (complete id result now s)
  unfolding complete find_task step
  complete-closes id result now s v = (
    elim (Option-cases (get id s.tasks)) [
      | inl e ↦ ground (arith, e, get-update_tasks id id (completed_task result now) s.tasks)
      | inr (t, e) ↦ ground (arith, e, get-update_tasks id id (completed_task result now) s.tasks)
    ],
    step-IsValid unmarshal s (now, completes id result) v,
  )

  pub fail-closes :
      (id message : Text) (now : ℕ) (s : Store)
      → IsValid s
      → (is_closed (find_task id (fail id message now s)) ≡ true) × IsValid (fail id message now s)
  unfolding fail find_task step
  fail-closes id message now s v = (
    elim (Option-cases (get id s.tasks)) [
      | inl e ↦ ground (arith, e, get-update_tasks id id (failed_task message now) s.tasks)
      | inr (t, e) ↦ ground (
        arith,
        e,
        failed_task-is_done message now t,
        get-update_tasks id id (failed_task message now) s.tasks,
      )
    ],
    step-IsValid unmarshal s (now, fails id message) v,
  )
