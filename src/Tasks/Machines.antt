-- ===== src/Tasks/Machines.antt =====
-- internal/agent/async.go and approval.go: the store against an abstract machine for one task, which
-- knows its status, whether its result is queued, and when the reaper takes it.
use mathlib.Core.Option
use kaggen.Base.{
  ℕ, ◌+◌, ◌≡◌, refl, inl, inr, ite, Bool, true, false, ◌&&◌, not, Option, none, some, List, [], ◌∷◌,
  arith, ltb, ◌==◌, if◌then◌else◌, Option-cases, Text, text_discrete, ◌is◌, text_key, nat_key, Map,
  get, put, Unique, get-put, get-map_values, get-del_where-none, get-del_where-some,
}
use kaggen.Tasks.{
  running, EmailArgs, Store, TaskState, TaskStatus, add_event, cancel, is_done, pending_approval,
  queued_results, status_is, append_event, cancelled, cancelled_task, failed, is_queued_result,
  new_store, register, trigger_auto, trigger_queue, update_tasks, TaskEvent, completed, complete,
  fail, update_description, add_token_usage, set_cancel_func, set_event_callback, completed_task,
  failed_task,
}
use kaggen.Tasks.External.{
  is_open, reap_expired_external, reap_task, register_approval, register_external,
}
use kaggen.Tasks.Lifecycle.{
  Call, registers, describes, records, charges, completes, fails, sets_cancel, cancels, asks,
  outsources, reaps, drains, listens, step, run, get-update_tasks, IsValid, run-new_store-IsValid,
  step-IsValid,
}

-- What the machine knows of a task.
pub record Phase : Type 0 where
  pub status : TaskStatus
  pub queued : Bool
  pub external : Bool
  pub timeout_at : ℕ

abbrev pub phase : TaskState → Phase
phase t = record {
  status = t.status;
  queued = t.policy is trigger_queue;
  external = t.external;
  timeout_at = t.timeout_at;
}

abbrev started : TaskStatus → Text → Bool → ℕ → Phase
started status policy external timeout_at = record {
  status = status;
  queued = policy is trigger_queue;
  external = external;
  timeout_at = timeout_at;
}

abbrev completing : Phase → Phase
completing p = record p { status = completed }

abbrev failing : Phase → Phase
failing p = elim p.status [ cancelled ↦ p | _ ↦ record p { status = failed } ]

abbrev cancelling : Phase → Phase
cancelling p = if status_is p.status running then record p { status = cancelled } else p

abbrev expiring : ℕ → Phase → Phase
expiring now p =
    if p.external && is_open p.status && not (p.timeout_at == 0) && ltb p.timeout_at now
    then record p { status = failed }
    else p

abbrev drained : Option Phase → Option Phase
drained none = none
drained (some p) = if p.queued && is_done p.status then none else some p

-- One call, as the machine of the task `id` sees it: calls for other tasks are ignored.
unfoldable pub advance : Text → Option Phase → ℕ × Call → Option Phase
advance id p (now, registers j agent task policy sid uid pipeline stage) =
    ite (text_discrete j id) (some (started running policy false 0)) p
advance id p (now, asks j skill tool args description sid uid timeout) =
    ite (text_discrete j id) (some (started pending_approval trigger_auto true (now + timeout))) p
advance id p (now, outsources j name secret policy sid uid timeout) =
    ite (text_discrete j id) (some (started running policy true (now + timeout))) p
advance id p (now, completes j result) = ite (text_discrete j id) (Option.map completing p) p
advance id p (now, fails j message) = ite (text_discrete j id) (Option.map failing p) p
advance id p (now, cancels j) = ite (text_discrete j id) (Option.map cancelling p) p
advance id p (now, reaps) = Option.map (expiring now) p
advance id p (now, drains) = drained p
advance id p (now, describes j task) = p
advance id p (now, records j evt) = p
advance id p (now, charges j input output total) = p
advance id p (now, sets_cancel j context) = p
advance id p (now, listens given) = p

unfoldable pub replay : Text → Option Phase → List (ℕ × Call) → Option Phase
replay id p [] = p
replay id p (c ∷ cs) = replay id (advance id p c) cs

abbrev pub seen : Text → Store → Option Phase
seen id s = Option.map phase (get id s.tasks)

seen-put :
    (id k : Text) (t : TaskState) (m : Map Text TaskState)
    → Option.map phase (get id (put k t m))
      ≡ ite (text_discrete k id) (some (phase t)) (Option.map phase (get id m))
seen-put id k t m = ground (arith, get-put k id t m)

seen-update_tasks :
    (id k : Text) (f : TaskState → TaskState) (m : Map Text TaskState)
    → Option.map phase (get id (update_tasks k f m))
      ≡ ite
          (text_discrete k id)
          (Option.map (λ t. phase (f t)) (get id m))
          (Option.map phase (get id m))
seen-update_tasks id k f m = elim (text_discrete k id) [
  | yes e ↦ elim (Option-cases (get id m)) [
    | inl miss ↦ ground (arith, e, miss, get-update_tasks id k f m)
    | inr (t, hit) ↦ ground (arith, e, hit, get-update_tasks id k f m)
  ]
  | no n ↦ ground (arith, n, get-update_tasks id k f m)
]

seen-same :
    (id k : Text) (f : TaskState → TaskState) (m : Map Text TaskState)
    → ((t : TaskState) → phase (f t) ≡ phase t)
    → Option.map phase (get id (update_tasks k f m)) ≡ Option.map phase (get id m)
seen-same id k f m same = elim (Option-cases (get id m)) [
  | inl miss ↦ ground (arith, miss, seen-update_tasks id k f m)
  | inr (t, hit) ↦ ground (arith, hit, same t, seen-update_tasks id k f m)
]

seen-completed :
    (id k result : Text) (now : ℕ) (s : Store)
    → Option.map phase (get id (update_tasks k (completed_task result now) s.tasks))
      ≡ ite (text_discrete k id) (Option.map completing (seen id s)) (seen id s)
seen-completed id k result now s = elim (Option-cases (get id s.tasks)) [
  | inl miss ↦ ground (arith, miss, seen-update_tasks id k (completed_task result now) s.tasks)
  | inr (t, hit) ↦ ground (arith, hit, seen-update_tasks id k (completed_task result now) s.tasks)
]

seen-failed :
    (id k message : Text) (now : ℕ) (s : Store)
    → Option.map phase (get id (update_tasks k (failed_task message now) s.tasks))
      ≡ ite (text_discrete k id) (Option.map failing (seen id s)) (seen id s)
seen-failed id k message now s = elim (Option-cases (get id s.tasks)) [
  | inl miss ↦ ground (arith, miss, seen-update_tasks id k (failed_task message now) s.tasks)
  | inr (t, hit) ↦ ground (arith, hit, seen-update_tasks id k (failed_task message now) s.tasks)
]

seen-add_event :
    (id k : Text) (evt : TaskEvent) (s : Store) → seen id (add_event k evt s).0 ≡ seen id s
unfolding add_event append_event
seen-add_event id k evt s = elim (Option-cases (get k s.tasks)) [
  | inl miss ↦ ground (arith, miss)
  | inr (t, hit) ↦ ground (arith, hit, seen-put id k (append_event evt t) s.tasks)
]

seen-cancel :
    (id k : Text) (now : ℕ) (s : Store)
    → seen id (cancel k now s).0
      ≡ ite (text_discrete k id) (Option.map cancelling (seen id s)) (seen id s)
unfolding cancel
seen-cancel id k now s = elim (Option-cases (get k s.tasks)) [
  | inl miss ↦ ground (arith, miss)
  | inr (t, hit) ↦ ground (arith, hit, seen-put id k (cancelled_task now t) s.tasks)
]

seen-reap :
    (id : Text) (now : ℕ) (s : Store)
    → seen id (reap_expired_external now s).0 ≡ Option.map (expiring now) (seen id s)
unfolding reap_expired_external
seen-reap id now s = elim (Option-cases (get id s.tasks)) [
  | inl miss ↦ ground (arith, miss, get-map_values id (reap_task now) s.tasks)
  | inr (t, hit) ↦ ground (arith, hit, get-map_values id (reap_task now) s.tasks)
]

seen-queued_results :
    (id : Text) (s : Store) → Unique s.tasks → seen id (queued_results s).0 ≡ drained (seen id s)
unfolding queued_results
seen-queued_results id s u = elim (Option-cases (get id s.tasks)) [
  | inl miss ↦ ground (arith, miss, get-del_where-none id is_queued_result s.tasks miss)
  | inr (t, hit) ↦ ground (arith, hit, get-del_where-some id is_queued_result s.tasks t u hit)
]

module _ (unmarshal : Text → Option EmailArgs) where
  seen-step :
      (id : Text) (s : Store) (c : ℕ × Call)
      → Unique s.tasks
      → seen id (step unmarshal s c) ≡ advance id (seen id s) c
  unfolding step advance register register_approval register_external complete fail
      update_description add_token_usage set_cancel_func set_event_callback
  seen-step id s (now, registers j agent task policy sid uid pipeline stage) u =
      seen-put id j _ s.tasks
  seen-step id s (now, asks j skill tool args description sid uid timeout) u =
      seen-put id j _ s.tasks
  seen-step id s (now, outsources j name secret policy sid uid timeout) u = seen-put id j _ s.tasks
  seen-step id s (now, completes j result) u = seen-completed id j result now s
  seen-step id s (now, fails j message) u = seen-failed id j message now s
  seen-step id s (now, cancels j) u = seen-cancel id j now s
  seen-step id s (now, reaps) u = seen-reap id now s
  seen-step id s (now, drains) u = seen-queued_results id s u
  seen-step id s (now, describes j task) u = seen-same id j _ s.tasks (λ t. refl)
  seen-step id s (now, records j evt) u = seen-add_event id j evt s
  seen-step id s (now, charges j input output total) u = seen-same id j _ s.tasks (λ t. refl)
  seen-step id s (now, sets_cancel j context) u = seen-same id j _ s.tasks (λ t. refl)
  seen-step id s (now, listens given) u = refl

  -- The last task of a store with no id twice.
  replay-run :
      (id : Text) (s : Store) (cs : List (ℕ × Call))
      → IsValid s
      → seen id (run unmarshal s cs) ≡ replay id (seen id s) cs
  unfolding run replay
  replay-run id s [] v = refl
  replay-run id s (c ∷ cs) v =
      rw⁻¹ (seen-step id s c v.unique)
        (replay-run id (step unmarshal s c) cs (step-IsValid unmarshal s c v))

  -- After any sequence of calls on a new store, what the store holds of a task, its status, whether its
  -- result is queued, and when the reaper takes it, is what the machine of that task alone computes
  -- from the calls.
  pub seen-run :
      (id : Text) (cs : List (ℕ × Call)) → seen id (run unmarshal new_store cs) ≡ replay id none cs
  unfolding new_store get run
  seen-run id cs = replay-run id new_store cs (run-new_store-IsValid unmarshal [])
