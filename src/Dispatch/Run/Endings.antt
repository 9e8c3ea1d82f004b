-- ===== src/Dispatch/Run/Endings.antt =====
-- What a run leaves of its task.
use kaggen.Base.{
  ℕ, ◌+◌, ◌≡◌, refl, ◌∙◌, ◌⊎◌, inl, inr, Bool, true, false, Option, none, some, List, [], ◌∷◌,
  arith, leb, Bool-cases, Text, text_key, nat_key, get-put,
}
use kaggen.Pipeline.{PipelineAgent}
use kaggen.Progress.{record_pipeline_stage}
use kaggen.Tasks.{
  Store, TaskEvent, TaskState, find_task, fail, complete, failed_task, completed_task, update_tasks,
  TokenUsage, completed, status_is, cancelled, failed,
}
use kaggen.Dispatch.Run.{
  Next, goes_on, stops, record_stage, log_events, Outcome, Verdict, aborts, reported, finish,
  run_task, Abort, Run, RunEvent, completes, handle_body, handle_error, handle_event, run_events,
  Dispatcher, TokenUsage, follow, handle_choice, handle_response, status_is, Choice, cancelled,
  correct, error_event, responds, abort, after_choice, is_call_limit_error, next_turn, out_of_time,
  choice_events, is_token_overflow_error, max_consecutive_errors, carry_on, nil_event,
  was_cancelled, silent,
}
use kaggen.Tasks.{cancel, cancelled_task, running}
use kaggen.Dispatch.Run.{cancel_call, run_agent, start_abort}
use kaggen.Dispatch.{Dispatcher, Request, gated_stage}
use kaggen.Dispatch.Run.Steps.{log_events-Logged}

find_task-fail :
    (id message : Text) (now : ℕ) (s : Store) (t : TaskState)
    → find_task id s ≡ some t
    → find_task id (fail id message now s) ≡ some (failed_task message now t)
unfolding find_task fail update_tasks
find_task-fail id message now s t h =
    ground (arith, get-put id id (failed_task message now t) s.tasks)

find_task-complete :
    (id result : Text) (now : ℕ) (s : Store) (t : TaskState)
    → find_task id s ≡ some t
    → find_task id (complete id result now s) ≡ some (completed_task result now t)
unfolding find_task complete update_tasks
find_task-complete id result now s t h =
    ground (arith, get-put id id (completed_task result now t) s.tasks)

find_task-record_stage :
    (id session : Text) (place : Option PipelineAgent) (s : Store)
    → find_task id (record_stage session place s) ≡ find_task id s
unfolding find_task record_stage record_pipeline_stage
find_task-record_stage id session none s = refl
find_task-record_stage id session (some pa) s = refl

-- Whether the store has the task.
abbrev pub Known : Text → Store → Type 0
Known id s = (t : TaskState) × (find_task id s ≡ some t)

abbrev next_store : {V : Type 0} → Next V → Store
next_store (goes_on r) = r.store
next_store (stops r why) = r.store

log_events-Known :
    (id : Text) (es : List TaskEvent) (s : Store) → Known id s → Known id (log_events id es s)
log_events-Known id es s (t, h) = let (u, at_end, _) = log_events-Logged id es s t h in (u, at_end)

cancel-Known : (id : Text) (now : ℕ) (s : Store) → Known id s → Known id (cancel id now s).0
unfolding cancel find_task
cancel-Known id now s (t, h) = elim (Bool-cases (status_is t.status running)) [
  | inl e ↦
      (cancelled_task now t, ground (arith, h, e, get-put id id (cancelled_task now t) s.tasks))
  | inr e ↦ (t, ground (arith, h, e))
]

module _ {V : Type 0} (evaluate : V → TaskEvent → V × Verdict) where
  follow-Known :
      (id : Text) (r : Run V) (v : V × Verdict)
      → Known id r.store
      → Known id (next_store (follow r v))
  follow-Known id r (v, carry_on) k = k
  follow-Known id r (v, correct reason) k = k
  follow-Known id r (v, abort reason) k = k

  handle_error-Known :
      (id : Text) (now : ℕ) (message : Text) (tokens : Option TokenUsage) (r : Run V)
      → Known id r.store
      → Known id (next_store (handle_error evaluate id now message tokens r))
  unfolding handle_error log_events
  handle_error-Known id now message tokens r k =
      let logged = log_events-Known id (error_event now r.turns message tokens ∷ []) r.store k in
      elim (Bool-cases (is_call_limit_error message)) [
        | inl e ↦ rw e k
        | inr e ↦ elim (Bool-cases (is_token_overflow_error message)) [
          | inl o ↦ rw (e, o) k
          | inr o ↦ elim (Bool-cases (leb max_consecutive_errors (r.errors + 1))) [
            | inl m ↦ rw (e, o, m) logged
            | inr m ↦ rw (e, o, m) logged
          ]
        ]
      ]

  handle_body-Known :
      (id : Text) (now : ℕ) (error : Option Text) (choices : List Choice)
      (tokens : Option TokenUsage) (r : Run V)
      → Known id r.store
      → Known id (next_store (handle_body evaluate id now error choices tokens r))
  unfolding handle_body handle_choice
  handle_body-Known id now (some message) choices tokens r k =
      handle_error-Known id now message tokens r k
  handle_body-Known id now none [] tokens r k = k
  handle_body-Known id now none (c ∷ cs) tokens r k =
      follow-Known id (after_choice id now c tokens r) _
        (log_events-Known id (choice_events now r.turns c tokens) r.store k)

  handle_event-Known :
      (max_turns : ℕ) (id : Text) (now : ℕ) (e : RunEvent) (r : Run V)
      → Known id r.store
      → Known id (next_store (handle_event evaluate max_turns id now e r))
  unfolding handle_event handle_response
  handle_event-Known max_turns id now nil_event r k = k
  handle_event-Known max_turns id now silent r k = k
  handle_event-Known max_turns id now cancel_call r k = cancel-Known id now r.store k
  handle_event-Known max_turns id now (responds p) r k =
      elim (Bool-cases (leb max_turns (r.turns + 1))) [
        | inl e ↦ rw e k
        | inr e ↦ rw e (handle_body-Known id now p.error p.choices p.usage (next_turn r) k)
      ]

  Known-next :
      (max_turns : ℕ) (id : Text) (es : List (ℕ × RunEvent)) (x : Next V)
      → Known id (next_store x)
      → ((r : Run V)
          → Known id r.store
          → Known id (next_store (run_events evaluate max_turns id es r)))
      → Known id (
          next_store (elim x [
            | goes_on r' ↦ run_events evaluate max_turns id es r'
            | stops r' why ↦ stops r' why
          ]))
  Known-next max_turns id es (goes_on r) k f = f r k
  Known-next max_turns id es (stops r why) k f = k

  run_events-Known :
      (max_turns : ℕ) (id : Text) (es : List (ℕ × RunEvent)) (r : Run V)
      → Known id r.store
      → Known id (next_store (run_events evaluate max_turns id es r))
  unfolding run_events
  run_events-Known max_turns id [] r k = k
  run_events-Known max_turns id ((now, e) ∷ es) r k =
      Known-next max_turns id es (handle_event evaluate max_turns id now e r)
        (handle_event-Known max_turns id now e r k) (run_events-Known max_turns id es)

-- How the task stands for each outcome.
abbrev pub Settled : (Abort → Text) → (ℕ → Text) → Outcome → TaskState → Type 0
Settled render count_text (completes result) t = (t.status ≡ completed) × (t.result ≡ result)
Settled render count_text (aborts message) t =
    (why : Abort) × (message ≡ reported render count_text why)
    × (((t.status ≡ failed) × (t.error ≡ render why)) ⊎ (t.status ≡ cancelled))
Settled render count_text was_cancelled t = t.status ≡ cancelled

failed_task-ends :
    (message : Text) (now : ℕ) (t : TaskState)
    → (((failed_task message now t).status ≡ failed)
        × ((failed_task message now t).error ≡ message))
      ⊎ ((failed_task message now t).status ≡ cancelled)
failed_task-ends message now t = ground arith

failed_task-Settled :
    (render : Abort → Text) (count_text : ℕ → Text) (why : Abort) (now : ℕ) (t : TaskState)
    → Settled render count_text
        (aborts (reported render count_text why))
        (failed_task (render why) now t)
failed_task-Settled render count_text why now t = (why, refl, failed_task-ends (render why) now t)

finish-Settled :
    {V : Type 0} (render : Abort → Text) (count_text : ℕ → Text) (session id : Text)
    (place : Option PipelineAgent) (ended : Bool) (now : ℕ) (x : Next V)
    → Known id (next_store x)
    → (t : TaskState) × (find_task id (finish render count_text session id place ended now x).0
        ≡ some t)
      × Settled render count_text (finish render count_text session id place ended now x).1 t
unfolding finish
finish-Settled render count_text session id place ended now (stops r why) (t, h) = (
  failed_task (render why) now t,
  find_task-fail id (render why) now r.store t h,
  failed_task-Settled render count_text why now t,
)
finish-Settled render count_text session id place false now (goes_on r) (t, h) = (
  completed_task r.result now t,
  find_task-record_stage id session place (complete id r.result now r.store)
      ∙ find_task-complete id r.result now r.store t h,
  (refl, refl),
)
finish-Settled render count_text session id place true now (goes_on r) (t, h) =
    elim (Bool-cases (status_is t.status cancelled)) [
      | inl c ↦ rw (h, c) (t, h, ground (arith, c))
      | inr c ↦
          rw (h, c)
            (
              failed_task (render (out_of_time r.turns)) now t,
              find_task-fail id (render (out_of_time r.turns)) now r.store t h,
              failed_task-Settled render count_text (out_of_time r.turns) now t,
            )
    ]

-- What is reported of a task that could not be started is what is stored.
start_reported :
    (render : Abort → Text) (count_text : ℕ → Text) (message : Text)
    → render (start_abort message) ≡ reported render count_text (start_abort message)
start_reported render count_text message = ground arith

run_task-Settled :
    {V : Type 0} (evaluate : V → TaskEvent → V × Verdict) (render : Abort → Text)
    (count_text : ℕ → Text) (d : Dispatcher) (req : Request) (session id : Text) (v : V)
    (events : List (ℕ × RunEvent)) (ended : Bool) (now : ℕ) (s : Store)
    → Known id s
    → (t : TaskState) × (find_task id
          (run_task evaluate render count_text d req session id v events ended now s).0
        ≡ some t)
      × Settled render count_text
          (run_task evaluate render count_text d req session id v events ended now s).1
          t
unfolding run_task
run_task-Settled evaluate render count_text d req session id v events ended now s k =
    finish-Settled render count_text session id (gated_stage d req) ended now _ (
      run_events-Known evaluate d.max_turns id events
        (record { store = s; turns = 0; errors = 0; result = []; supervisor = v }) k)

-- The goroutine of a task that the store knows always settles it, whatever the sub-agent sends, and
-- whenever a user cancels the task in between: with the outcome "completed" the task is completed with
-- that result. With an abort it had been cancelled or has failed with the text of the abort, which is
-- also the text that is reported, except that after too many errors only their number is reported. It is
-- reported as cancelled only if it is.
pub run_agent-Settled :
    {V : Type 0} (evaluate : V → TaskEvent → V × Verdict) (render : Abort → Text)
    (count_text : ℕ → Text) (d : Dispatcher) (req : Request) (session id : Text) (v : V)
    (start : Option Text) (events : List (ℕ × RunEvent)) (ended : Bool) (now : ℕ) (s : Store)
    → Known id s
    → (t : TaskState) × (find_task id
          (run_agent evaluate render count_text d req session id v start events ended now s).0
        ≡ some t)
      × Settled render count_text
          (run_agent evaluate render count_text d req session id v start events ended now s).1
          t
unfolding run_agent
run_agent-Settled evaluate render count_text d req session id v (some message) events ended now s
      (t, h) =
    (
      failed_task (render (start_abort message)) now t,
      find_task-fail id (render (start_abort message)) now s t h,
      (
        start_abort message,
        start_reported render count_text message,
        failed_task-ends (render (start_abort message)) now t,
      ),
    )
run_agent-Settled evaluate render count_text d req session id v none events ended now s k =
    run_task-Settled evaluate render count_text d req session id v events ended now s k
