-- ===== src/Dispatch/Run.antt =====
-- internal/agent/async.go, the goroutine of `dispatch`: the loop over the events of the sub-agent,
-- its circuit breakers, and what it does with the task at the end. The texts that `fmt` formats are
-- the parameter `render`, the supervisor is its state and `evaluate` (a nil supervisor always
-- continues), and each event comes with the time at which it is handled. The linked backlog item is in
-- Backlog/Links.antt; the context manager that the loop informs is left out.
pub mod Steps
pub mod Endings
use kaggen.Base.{
  ℕ, zero, suc, ◌+◌, ◌-◌, ◌*◌, ◌/◌, ◌%◌, ◌≤◌, ◌<◌, ◌≡◌, refl, sym, ap, ◌∙◌, ◌≢◌, ◌↔◌, ◌⊎◌, inl, inr,
  ite, Bool, true, false, ◌&&◌, ◌||◌, not, Option, none, some, List, [], ◌∷◌, ◌++◌, map, arith,
  dec_lt, ℕ_discrete, ltb, leb, ◌==◌, if◌then◌else◌, Bool-cases, Option-cases, found, length, take,
  drop, get_elem?, select, last_n, All, length-append, length-take, length-drop, take-append-drop,
  length-select-le, select-append, select_idem, Text, codes, text_discrete, ◌is◌, starts_with, Key,
  text_key, nat_key, Map, keep_if, get, put, del, Unique, get-put, get-del, put-Unique, del-Unique,
  values_where, del_where, map_values, get-map_values, get-del_where-none, get-del_where-some,
  del_where-Unique, map_values-Unique, values_where-del_where, contains, lower_code, to_lower,
  contains-append, contains_later, contains_earlier, join, decimal, last_n-append, length-last_n,
  last_n-last_n, ends_with, trim_prefix, trim_suffix, is_refl,
}
use kaggen.Pipeline.{PipelineAgent}
use kaggen.Progress.{record_pipeline_stage}
use kaggen.Tasks.{
  Store, TaskStatus, running, TaskEvent, TaskState, TokenUsage, cancelled, status_is, add_event,
  fail, complete, find_task, truncate, cancel,
}
use kaggen.Dispatch.{Request, Dispatcher, gated_stage}

-- The first choice of a response: the names of its tool calls and its text.
pub record Choice : Type 0 where
  pub tool_calls : List Text
  pub content : Text

pub record Response : Type 0 where
  pub usage : Option TokenUsage
  pub error : Option Text
  pub choices : List Choice

-- What the loop meets: a nil event, an event with no response, one with a response, and between two
-- events a call of `Cancel` for the task from another goroutine.
pub data RunEvent : Type 0 where
  nil_event silent cancel_call : RunEvent
  responds : Response → RunEvent

pub data Verdict : Type 0 where
  carry_on : Verdict
  correct abort : Text → Verdict

pub data Abort : Type 0 where
  turn_limit : ℕ → Abort
  call_limit : Text → Abort
  overflow : Text → Abort
  error_limit : ℕ → Text → Abort
  start_error : Text → Abort
  supervisor_abort : Text → Abort
  out_of_time : ℕ → Abort

abbrev pub max_consecutive_errors : ℕ
max_consecutive_errors = 3

-- `isCallLimitError` and `IsTokenOverflowError`, on the text of the error.
unfoldable pub is_call_limit_error : Text → Bool
is_call_limit_error message =
    contains message (codes "max LLM calls") || contains message (codes "max tool iterations")

unfoldable pub is_token_overflow_error : Text → Bool
is_token_overflow_error message =
    contains lower (codes "token count exceeds")
    || contains lower (codes "maximum number of tokens")
    || contains lower (codes "context_length_exceeded")
    || contains lower (codes "too many tokens")
  where
    lower : Text
    lower = to_lower message

abbrev pub preview_limit : ℕ
preview_limit = 200

abbrev pub error_event : ℕ → ℕ → Text → Option TokenUsage → TaskEvent
error_event now turn message tokens = record {
  timestamp = now;
  kind = codes "error";
  turn = turn;
  tools = [];
  content = message;
  tokens = tokens;
}

abbrev pub tool_event : ℕ → ℕ → List Text → Option TokenUsage → TaskEvent
tool_event now turn tools tokens = record {
  timestamp = now;
  kind = codes "tool_call";
  turn = turn;
  tools = tools;
  content = [];
  tokens = tokens;
}

abbrev pub response_event : ℕ → ℕ → Text → Option TokenUsage → TaskEvent
response_event now turn content tokens = record {
  timestamp = now;
  kind = codes "response";
  turn = turn;
  tools = [];
  content = truncate content preview_limit;
  tokens = tokens;
}

-- What a choice adds to the log of the task: an event for its tool calls, and one for its text.
pub choice_events : ℕ → ℕ → Choice → Option TokenUsage → List TaskEvent
choice_events now turn c tokens =
    let rest : List TaskEvent =
      if c.content is [] then [] else response_event now turn c.content tokens ∷ [] in
    elim c.tool_calls [ [] ↦ rest | x ∷ xs ↦ tool_event now turn (x ∷ xs) tokens ∷ rest ]

pub log_events : Text → List TaskEvent → Store → Store
log_events id [] s = s
log_events id (e ∷ es) s = log_events id es (add_event id e s).0

-- The event that the supervisor is shown.
abbrev pub supervisor_event : ℕ → Choice → TaskEvent
supervisor_event turn c = record {
  timestamp = 0;
  kind = elim c.tool_calls [ [] ↦ codes "response" | x ∷ xs ↦ codes "tool_call" ];
  turn = turn;
  tools = c.tool_calls;
  content = c.content;
  tokens = none;
}

-- The variables of the loop, `V` the state of the supervisor.
pub record Run (V : Type 0) : Type 0 where
  pub store : Store
  pub turns : ℕ
  pub errors : ℕ
  pub result : Text
  pub supervisor : V

-- How one event leaves the loop: it goes on, or it ends and the task is failed.
pub data Next (V : Type 0) : Type 0 where
  goes_on : Run V → Next V
  stops : Run V → Abort → Next V

pub data Outcome : Type 0 where
  completes : Text → Outcome
  aborts : Text → Outcome
  was_cancelled : Outcome

abbrev pub next_turn : {V : Type 0} → Run V → Run V
next_turn r = record r { turns = r.turns + 1 }

-- The loop's variables after the first choice of a response.
abbrev pub after_choice : {V : Type 0} → Text → ℕ → Choice → Option TokenUsage → Run V → Run V
after_choice id now c tokens r = record r {
  store = log_events id (choice_events now r.turns c tokens) r.store;
  errors = 0;
  result = if c.content is [] then r.result else c.content;
}

abbrev pub follow : {V : Type 0} → Run V → V × Verdict → Next V
follow r (v, carry_on) = goes_on (record r { supervisor = v })
follow r (v, correct reason) = goes_on (record r { supervisor = v })
follow r (v, abort reason) = stops (record r { supervisor = v }) (supervisor_abort reason)

module _ {V : Type 0} (evaluate : V → TaskEvent → V × Verdict) where
  -- An error response: the fatal errors, then the count of consecutive ones.
  unfoldable pub handle_error : Text → ℕ → Text → Option TokenUsage → Run V → Next V
  handle_error id now message tokens r =
      let logged = add_event id (error_event now r.turns message tokens) r.store in
      let r' : Run V = record r { store = logged.0; errors = r.errors + 1 } in
      if is_call_limit_error message
      then stops r (call_limit message)
      else if is_token_overflow_error message
      then stops r (overflow message)
      else if leb max_consecutive_errors r'.errors
      then stops r' (error_limit r'.errors message)
      else goes_on r'

  unfoldable pub handle_choice : Text → ℕ → Choice → Option TokenUsage → Run V → Next V
  handle_choice id now c tokens r =
      follow (after_choice id now c tokens r) (evaluate r.supervisor (supervisor_event r.turns c))

  -- A response within the turn limit, by its error and its choices.
  unfoldable pub handle_body :
      Text → ℕ → Option Text → List Choice → Option TokenUsage → Run V → Next V
  unfolding handle_error handle_choice
  handle_body id now (some message) choices tokens r = handle_error id now message tokens r
  handle_body id now none [] tokens r = goes_on r
  handle_body id now none (c ∷ cs) tokens r = handle_choice id now c tokens r

  unfoldable pub handle_response : ℕ → Text → ℕ → Response → Run V → Next V
  unfolding handle_body
  handle_response max_turns id now p r =
      if leb max_turns (r.turns + 1)
      then stops (next_turn r) (turn_limit max_turns)
      else handle_body id now p.error p.choices p.usage (next_turn r)

  unfoldable pub handle_event : ℕ → Text → ℕ → RunEvent → Run V → Next V
  unfolding handle_response
  handle_event max_turns id now nil_event r = goes_on r
  handle_event max_turns id now silent r = goes_on r
  handle_event max_turns id now cancel_call r =
      goes_on (record r { store = (cancel id now r.store).0 })
  handle_event max_turns id now (responds p) r = handle_response max_turns id now p r

  -- The loop over the channel of events.
  unfoldable pub run_events : ℕ → Text → List (ℕ × RunEvent) → Run V → Next V
  unfolding handle_event
  run_events max_turns id [] r = goes_on r
  run_events max_turns id ((now, e) ∷ es) r = elim (handle_event max_turns id now e r) [
    | goes_on r' ↦ run_events max_turns id es r'
    | stops r' why ↦ stops r' why
  ]

abbrev pub status_of : Option TaskState → TaskStatus
status_of none = running
status_of (some t) = t.status

-- The stage of the request is recorded once its task has completed.
pub record_stage : Text → Option PipelineAgent → Store → Store
record_stage session none s = s
record_stage session (some pa) s = record_pipeline_stage session pa.pipeline pa.stage s

-- The text that is reported for an abort: the stored one, but after too many errors only their number.
abbrev pub reported : (Abort → Text) → (ℕ → Text) → Abort → Text
reported render count_text (error_limit n message) = count_text n
reported render count_text why = render why

-- What follows the loop. `ended` says whether the context was cancelled or ran out of time.
pub finish :
    {V : Type 0}
    → (Abort → Text)
    → (ℕ → Text)
    → Text
    → Text
    → Option PipelineAgent
    → Bool
    → ℕ
    → Next V
    → Store × Outcome
finish render count_text session id place ended now (stops r why) =
    (fail id (render why) now r.store, aborts (reported render count_text why))
finish render count_text session id place ended now (goes_on r) =
    if ended
    then if status_is (status_of (find_task id r.store)) cancelled
      then (r.store, was_cancelled)
      else (
        fail id (render (out_of_time r.turns)) now r.store,
        aborts (render (out_of_time r.turns)),
      )
    else (record_stage session place (complete id r.result now r.store), completes r.result)

-- The goroutine of a task whose sub-agent could be started.
pub run_task :
    {V : Type 0}
    → (V → TaskEvent → V × Verdict)
    → (Abort → Text)
    → (ℕ → Text)
    → Dispatcher
    → Request
    → Text
    → Text
    → V
    → List (ℕ × RunEvent)
    → Bool
    → ℕ
    → Store
    → Store × Outcome
unfolding run_events finish
run_task evaluate render count_text d req session id v events ended now s =
    finish render count_text session id (gated_stage d req) ended now (
      run_events evaluate d.max_turns id events
        (record { store = s; turns = 0; errors = 0; result = []; supervisor = v }))

-- The error of a sub-agent that could not be started.
abbrev pub start_abort : Text → Abort
start_abort message =
    if is_call_limit_error message then call_limit message else start_error message

-- The whole goroutine, by the error that starting the sub-agent gives, if it gives one.
pub run_agent :
    {V : Type 0}
    → (V → TaskEvent → V × Verdict)
    → (Abort → Text)
    → (ℕ → Text)
    → Dispatcher
    → Request
    → Text
    → Text
    → V
    → Option Text
    → List (ℕ × RunEvent)
    → Bool
    → ℕ
    → Store
    → Store × Outcome
unfolding run_task
run_agent evaluate render count_text d req session id v (some message) events ended now s =
    (fail id (render (start_abort message)) now s, aborts (render (start_abort message)))
run_agent evaluate render count_text d req session id v none events ended now s =
    run_task evaluate render count_text d req session id v events ended now s
