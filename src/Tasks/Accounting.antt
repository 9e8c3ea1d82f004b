-- ===== src/Tasks/Accounting.antt =====
-- The event log of a task and the tokens that it adds up.
use mathlib.Core.List.{append-nil, append_assoc}
use kaggen.Base.{
  ◌+◌, ◌≡◌, refl, sym, ap, ◌∙◌, Option, none, some, List, [], ◌∷◌, ◌++◌, map, arith, if◌then◌else◌,
  Text, text_key, nat_key, put, get-put,
}
use kaggen.Tasks.{
  TaskEvent, TokenUsage, Store, add_event, TaskState, add_event_usage, add_usage, add_token_usage,
  append_event, find_task, update_tasks,
}

abbrev no_usage : TokenUsage
no_usage = record { input = 0; output = 0; total = 0 }

abbrev pub usage_or_zero : Option TokenUsage → TokenUsage
usage_or_zero none = no_usage
usage_or_zero (some u) = u

abbrev pub plus_usage : TokenUsage → TokenUsage → TokenUsage
plus_usage u v = record {
  input = u.input + v.input;
  output = u.output + v.output;
  total = u.total + v.total;
}

-- What a list of events reports, summed.
unfoldable pub sum_usage : List TaskEvent → TokenUsage
sum_usage [] = no_usage
sum_usage (e ∷ es) = plus_usage (usage_or_zero e.tokens) (sum_usage es)

-- The loop of a caller that adds events one by one, with all the callbacks that are made.
unfoldable pub add_events : Text → List TaskEvent → Store → Store × List (Text × TaskEvent)
unfolding add_event
add_events id [] s = (s, [])
add_events id (e ∷ es) s =
    let (s', calls) = add_event id e s in
    let (s'', more) = add_events id es s' in (s'', calls ++ more)

usage_or_zero-add_event_usage :
    (sum used : Option TokenUsage)
    → usage_or_zero (add_event_usage sum used) ≡ plus_usage (usage_or_zero sum) (usage_or_zero used)
unfolding add_event_usage add_usage
usage_or_zero-add_event_usage none none = refl
usage_or_zero-add_event_usage none (some v) = ground arith
usage_or_zero-add_event_usage (some u) none = ground arith
usage_or_zero-add_event_usage (some u) (some v) = refl

plus_usage_assoc :
    (u v w : TokenUsage) → plus_usage (plus_usage u v) w ≡ plus_usage u (plus_usage v w)
plus_usage_assoc u v w = ground arith

find_task-put :
    (id : Text) (t : TaskState) (s : Store)
    → find_task id (record s { tasks = put id t s.tasks }) ≡ some t
unfolding find_task
find_task-put id t s = ground (arith, get-put id id t s.tasks)

add_event-known :
    (id : Text) (e : TaskEvent) (s : Store) (t : TaskState)
    → find_task id s ≡ some t
    → add_event id e s ≡ (
      record s { tasks = put id (append_event e t) s.tasks },
      if s.on_event then (id, e) ∷ [] else [],
    )
unfolding add_event find_task
add_event-known id e s t h = ground arith

pub record Logged (t u : TaskState) (es : List TaskEvent) : Type 0 where
  pub log : u.events ≡ t.events ++ es
  pub tokens :
      usage_or_zero u.total_tokens ≡ plus_usage (usage_or_zero t.total_tokens) (sum_usage es)
  pub status : u.status ≡ t.status
  pub task : u.task ≡ t.task

append_event-Logged :
    (t u : TaskState) (e : TaskEvent) (es : List TaskEvent)
    → Logged (append_event e t) u es
    → Logged t u (e ∷ es)
unfolding append_event sum_usage
append_event-Logged t u e es l = record {
  log = l.log ∙ append_assoc t.events (e ∷ []) es;
  tokens =
      l.tokens
      ∙ ap (λ v. plus_usage v (sum_usage es))
          (usage_or_zero-add_event_usage t.total_tokens e.tokens)
      ∙ plus_usage_assoc _ _ _;
  status = l.status;
  task = l.task;
}

-- Adding the events of a known task one by one extends its log by them in order, and its total by
-- the sum of what they report; its status and text stay. The callback, if one is set, is made once
-- for each event, in order.
pub add_events-Logged :
    (id : Text) (es : List TaskEvent) (s : Store) (t : TaskState)
    → find_task id s ≡ some t
    → (u : TaskState) × (find_task id (add_events id es s).0 ≡ some u)
      × Logged t u es
      × ((add_events id es s).1 ≡ (if s.on_event then map (λ e. (id, e)) es else []))
unfolding add_events sum_usage
add_events-Logged id [] s t h = (
  t,
  h,
  record { log = sym (append-nil t.events); tokens = ground arith; status = refl; task = refl },
  ground arith,
)
add_events-Logged id (e ∷ es) s t h =
    let s' : Store = record s { tasks = put id (append_event e t) s.tasks } in
    let next : find_task id s' ≡ some (append_event e t) = find_task-put id (append_event e t) s in
    let (u, at_end, l, calls) = add_events-Logged id es s' (append_event e t) next in
    let added = add_event-known id e s t h in
    (u, rw added at_end, append_event-Logged t u e es l, rw (added, calls) (ground arith))

-- An event of an unknown task changes nothing and reaches no callback.
pub add_event-unknown :
    (id : Text) (e : TaskEvent) (s : Store) → find_task id s ≡ none → add_event id e s ≡ (s, [])
unfolding add_event find_task
add_event-unknown id e s h = ground arith

usage_or_zero-add_usage :
    (sum : Option TokenUsage) (u : TokenUsage)
    → usage_or_zero (add_usage sum u.input u.output u.total) ≡ plus_usage (usage_or_zero sum) u
unfolding add_usage
usage_or_zero-add_usage none u = ground arith
usage_or_zero-add_usage (some v) u = refl

-- A synchronous call's usage goes into the same total as the events', with no event logged.
pub add_token_usage_lem :
    (id : Text) (used : TokenUsage) (s : Store) (t : TaskState)
    → find_task id s ≡ some t
    → (u : TaskState) × (find_task id (add_token_usage id used.input used.output used.total s)
        ≡ some u)
      × (usage_or_zero u.total_tokens ≡ plus_usage (usage_or_zero t.total_tokens) used)
      × (u.events ≡ t.events)
unfolding add_token_usage update_tasks find_task
add_token_usage_lem id used s t h =
    let total = add_usage t.total_tokens used.input used.output used.total in
    let u : TaskState = record t { total_tokens = total } in
    (u, ground (arith, get-put id id u s.tasks), usage_or_zero-add_usage t.total_tokens used, refl)
