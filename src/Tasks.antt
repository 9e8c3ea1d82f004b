-- ===== src/Tasks.antt =====
-- internal/agent/async.go, the in-flight store: the state of each asynchronous task and the
-- methods of `InFlightStore`. A method returns the new store beside its result; the clock is an
-- argument, a time is a number of nanoseconds, and 0 is Go's zero time. The mutex makes each method
-- one step. Approvals, external tasks and the reaper are in Tasks/External.antt, pipeline progress in
-- Progress.antt.
pub mod Approval
pub mod External
pub mod Lifecycle
pub mod Closing
pub mod Machines
pub mod Cancellation
pub mod Expiry
pub mod Draining
pub mod Accounting
pub use Approval.{EmailPreview, EmailArgs, email_preview_limit}
unfoldable pub use Approval.{extract_email_preview, truncate}
use kaggen.Base.{
  ℕ, zero, suc, ◌+◌, ◌-◌, ◌*◌, ◌/◌, ◌%◌, ◌≤◌, ◌<◌, ◌≡◌, refl, sym, ap, ◌∙◌, ◌≢◌, ◌↔◌, ◌⊎◌, inl, inr,
  ite, Bool, true, false, ◌&&◌, ◌||◌, not, Option, none, some, List, [], ◌∷◌, ◌++◌, map, arith,
  dec_lt, ℕ_discrete, ltb, leb, ◌==◌, if◌then◌else◌, Bool-cases, Option-cases, found, length, take,
  drop, get_elem?, select, last_n, All, length-append, length-take, length-drop, take-append-drop,
  length-select-le, select-append, select_idem, Text, codes, text_discrete, ◌is◌, starts_with, Key,
  text_key, nat_key, Map, keep_if, get, put, del, Unique, get-put, get-del, put-Unique, del-Unique,
  values_where, del_where, map_values, get-map_values, get-del_where-none, get-del_where-some,
  del_where-Unique, map_values-Unique, values_where-del_where, contains, lower_code, to_lower,
  contains-append, contains_later, contains_earlier, join, decimal, last_n-append, length-last_n,
  last_n-last_n, ends_with, trim_prefix, trim_suffix, is_refl,
}

-- `TriggerPolicy` is a string type: a caller may pass any text.
abbrev pub trigger_auto : Text
trigger_auto = codes "auto"

abbrev pub trigger_queue : Text
trigger_queue = codes "queue"

pub data TaskStatus : Type 0 where
  running completed failed cancelled pending_approval : TaskStatus

pub record TokenUsage : Type 0 where
  pub input : ℕ
  pub output : ℕ
  pub total : ℕ

pub record TaskEvent : Type 0 where
  pub timestamp : ℕ
  pub kind : Text
  pub turn : ℕ
  pub tools : List Text
  pub content : Text
  pub tokens : Option TokenUsage

pub record ApprovalRequest : Type 0 where
  pub tool_name : Text
  pub arguments : Text
  pub skill_name : Text
  pub description : Text
  pub requested_at : ℕ
  pub email_preview : Option EmailPreview

-- `cancel_fn` holds the number of the context that the cancel function ends.
pub record TaskState : Type 0 where
  pub id : Text
  pub agent_name : Text
  pub task : Text
  pub status : TaskStatus
  pub result : Text
  pub error : Text
  pub policy : Text
  pub session_id : Text
  pub user_id : Text
  pub started_at : ℕ
  pub done_at : Option ℕ
  pub events : List TaskEvent
  pub turn_count : ℕ
  pub total_tokens : Option TokenUsage
  pub external : Bool
  pub callback_secret : Text
  pub timeout_at : ℕ
  pub approval_request : Option ApprovalRequest
  pub cancel_fn : Option ℕ
  pub pipeline_name : Text
  pub pipeline_stage : ℕ

-- The three maps of pipelines are keyed by session and then by pipeline; `on_event` says whether
-- an event callback is set. The map of world models is in WorldModel/Sessions.antt.
pub record Store : Type 0 where
  pub tasks : Map Text TaskState
  pub on_event : Bool
  pub pipeline_progress : Map Text (Map Text (Map ℕ Bool))
  pub pipeline_start_times : Map Text (Map Text ℕ)
  pub pipeline_descriptions : Map Text (Map Text Text)

abbrev pub empty_text : Text
empty_text = []

unfoldable pub new_store : Store
new_store = record {
  tasks = [];
  on_event = false;
  pipeline_progress = [];
  pipeline_start_times = [];
  pipeline_descriptions = [];
}

-- What `Register` leaves at its zero value is written out.
abbrev pub fresh_task : Text → Text → Text → Text → Text → Text → ℕ → TaskState
fresh_task id agent_name task policy session_id user_id now = record {
  id = id;
  agent_name = agent_name;
  task = task;
  status = running;
  result = empty_text;
  error = empty_text;
  policy = policy;
  session_id = session_id;
  user_id = user_id;
  started_at = now;
  done_at = none;
  events = [];
  turn_count = 0;
  total_tokens = none;
  external = false;
  callback_secret = empty_text;
  timeout_at = 0;
  approval_request = none;
  cancel_fn = none;
  pipeline_name = empty_text;
  pipeline_stage = 0;
}

pub set_event_callback : Bool → Store → Store
set_event_callback given s = record s { on_event = given }

-- The tasks of the map after `if t, ok := s.tasks[id]; ok { … }`.
unfoldable pub update_tasks :
    Text → (TaskState → TaskState) → Map Text TaskState → Map Text TaskState
update_tasks id change m = elim (get id m) [ none ↦ m | some t ↦ put id (change t) m ]

abbrev pub update_task : Text → (TaskState → TaskState) → Store → Store
update_task id change s = record s { tasks = update_tasks id change s.tasks }

unfoldable pub register : Text → Text → Text → Text → Text → Text → Text → ℕ → ℕ → Store → Store
register id agent_name task policy session_id user_id pipeline_name pipeline_stage now s =
    record s { tasks = put id state s.tasks }
  where
    fresh : TaskState
    fresh = fresh_task id agent_name task policy session_id user_id now

    state : TaskState
    state = record fresh { pipeline_name = pipeline_name; pipeline_stage = pipeline_stage }

pub update_description : Text → Text → Store → Store
update_description id task = update_task id (λ t. record t { task = task })

-- Adds up what one event or one synchronous call used; a missing total starts at zero.
pub add_usage : Option TokenUsage → ℕ → ℕ → ℕ → Option TokenUsage
add_usage none input output total = some (record { input = input; output = output; total = total })
add_usage (some u) input output total =
    some (record { input = u.input + input; output = u.output + output; total = u.total + total })

pub add_event_usage : Option TokenUsage → Option TokenUsage → Option TokenUsage
unfolding add_usage
add_event_usage sum none = sum
add_event_usage sum (some u) = add_usage sum u.input u.output u.total

pub append_event : TaskEvent → TaskState → TaskState
append_event evt t = record t {
  events = t.events ++ (evt ∷ []);
  turn_count = evt.turn;
  total_tokens = add_event_usage t.total_tokens evt.tokens;
}

-- The new store, and the calls of the event callback that follow.
pub add_event : Text → TaskEvent → Store → Store × List (Text × TaskEvent)
add_event id evt s = elim (get id s.tasks) [
  | none ↦ (s, [])
  | some t ↦ (
    record s { tasks = put id (append_event evt t) s.tasks },
    if s.on_event then (id, evt) ∷ [] else [],
  )
]

pub add_token_usage : Text → ℕ → ℕ → ℕ → Store → Store
add_token_usage id input output total =
    update_task id λ t. record t { total_tokens = add_usage t.total_tokens input output total }

abbrev pub completed_task : Text → ℕ → TaskState → TaskState
completed_task result now t = record t { status = completed; result = result; done_at = some now }

unfoldable pub complete : Text → Text → ℕ → Store → Store
complete id result now = update_task id (completed_task result now)

-- A cancellation is not overwritten.
abbrev pub failed_task : Text → ℕ → TaskState → TaskState
failed_task message now t = elim t.status [
  | cancelled ↦ t
  | _ ↦ record t { status = failed; error = message; done_at = some now }
]

unfoldable pub fail : Text → Text → ℕ → Store → Store
fail id message now = update_task id (failed_task message now)

unfoldable pub find_task : Text → Store → Option TaskState
find_task id s = get id s.tasks

abbrev pub status_is : TaskStatus → TaskStatus → Bool
status_is running running = true
status_is completed completed = true
status_is failed failed = true
status_is cancelled cancelled = true
status_is pending_approval pending_approval = true
status_is _ _ = false

-- `List("")` is `none`.
unfoldable pub list_tasks : Option TaskStatus → Store → List TaskState
list_tasks none s = values_where (λ t. true) s.tasks
list_tasks (some wanted) s = values_where (λ t. status_is t.status wanted) s.tasks

abbrev pub is_done : TaskStatus → Bool
is_done completed = true
is_done failed = true
is_done cancelled = true
is_done _ = false

abbrev pub is_queued_result : TaskState → Bool
is_queued_result t = t.policy is trigger_queue && is_done t.status

pub queued_results : Store → Store × List TaskState
queued_results s =
    (record s { tasks = del_where is_queued_result s.tasks }, values_where is_queued_result s.tasks)

unfoldable pub set_cancel_func : Text → ℕ → Store → Store
set_cancel_func id context = update_task id λ t. record t { cancel_fn = some context }

abbrev pub cancelled_task : ℕ → TaskState → TaskState
cancelled_task now t = record t {
  status = cancelled;
  error = codes "cancelled by user";
  done_at = some now;
}

-- The new store, the answer, and the context whose cancel function was called.
unfoldable pub cancel : Text → ℕ → Store → Store × Bool × Option ℕ
cancel id now s = elim (get id s.tasks) [
  | none ↦ (s, false, none)
  | some t ↦
      if status_is t.status running
      then (record s { tasks = put id (cancelled_task now t) s.tasks }, true, t.cancel_fn)
      else (s, false, none)
]
