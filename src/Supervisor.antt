-- ===== src/Supervisor.antt =====
-- internal/agent/supervisor.go: what the supervisor keeps of each task, and its verdict on an event.
-- The answer of the language model at a checkpoint, lower-cased and trimmed, is the parameter `ask`; it
-- is `none` where the request fails. The order in which Go's map of counts is walked only matters where
-- two tools are repeated equally often; here it is the order of first use.
pub mod Memory
pub mod Verdicts
use kaggen.Base.{
  ℕ, zero, suc, ◌+◌, ◌-◌, ◌*◌, ◌/◌, ◌%◌, ◌≤◌, ◌<◌, ◌≡◌, refl, sym, ap, ◌∙◌, ◌≢◌, ◌↔◌, ◌⊎◌, inl, inr,
  ite, Bool, true, false, ◌&&◌, ◌||◌, not, Option, none, some, List, [], ◌∷◌, ◌++◌, map, arith,
  dec_lt, ℕ_discrete, ltb, leb, ◌==◌, if◌then◌else◌, Bool-cases, Option-cases, found, length, take,
  drop, get_elem?, select, last_n, All, length-append, length-take, length-drop, take-append-drop,
  length-select-le, select-append, select_idem, Text, codes, text_discrete, ◌is◌, starts_with, Key,
  text_key, nat_key, Map, keep_if, get, put, del, Unique, get-put, get-del, put-Unique, del-Unique,
  values_where, del_where, map_values, get-map_values, get-del_where-none, get-del_where-some,
  del_where-Unique, map_values-Unique, values_where-del_where, contains, lower_code, to_lower,
  contains-append, contains_later, contains_earlier, join, decimal, last_n-append, length-last_n,
  last_n-last_n, ends_with, trim_prefix, trim_suffix, is_refl,
}
use kaggen.Tasks.{TaskEvent}

-- `max_corrections`, `check_interval` and `stall_timeout` (in nanoseconds) are positive: the
-- constructor replaces values that are not.
pub record Config : Type 0 where
  pub check_interval : ℕ
  pub max_corrections : ℕ
  pub stall_timeout : ℕ

pub record MonitorState : Type 0 where
  pub task : Text
  pub corrections : ℕ
  pub recent_tools : List Text
  pub consecutive_errs : ℕ
  pub last_activity : ℕ
  pub turn_count : ℕ

pub record Supervisor : Type 0 where
  pub config : Config
  pub tasks : Map Text MonitorState

pub data Reason : Type 0 where
  error_loop : ℕ → Reason
  repetition : Text → ℕ → Reason
  stalled apology spinning stuck off_topic : Reason

-- The three actions of a verdict.
pub data Judgement : Type 0 where
  continue : Judgement
  correct abort : Reason → Judgement

abbrev pub new_monitor : Text → ℕ → MonitorState
new_monitor task now = record {
  task = task;
  corrections = 0;
  recent_tools = [];
  consecutive_errs = 0;
  last_activity = now;
  turn_count = 0;
}

pub start_task : Text → Text → ℕ → Supervisor → Supervisor
start_task id task now s = record s { tasks = put id (new_monitor task now) s.tasks }

unfoldable pub end_task : Text → Supervisor → Supervisor
end_task id s = record s { tasks = del id s.tasks }

-- False where the task is not known, or its limit is passed.
unfoldable pub increment_corrections : Text → Supervisor → Supervisor × Bool
increment_corrections id s = elim (get id s.tasks) [
  | none ↦ (s, false)
  | some st ↦ (
    record s { tasks = put id (record st { corrections = st.corrections + 1 }) s.tasks },
    leb (st.corrections + 1) s.config.max_corrections,
  )
]

abbrev pub tools_kept : ℕ
tools_kept = 20

-- The state of a task after an event.
pub note_event : TaskEvent → ℕ → MonitorState → MonitorState
note_event e now st = record st {
  last_activity = now;
  turn_count = st.turn_count + 1;
  consecutive_errs = if e.kind is codes "error" then st.consecutive_errs + 1 else 0;
  recent_tools =
      if (e.kind is codes "tool_call") && ltb 0 (length e.tools)
      then last_n tools_kept (st.recent_tools ++ e.tools)
      else st.recent_tools;
}

abbrev pub or_zero : Option ℕ → ℕ
or_zero none = 0
or_zero (some n) = n

pub count_tools : List Text → Map Text ℕ → Map Text ℕ
count_tools [] m = m
count_tools (t ∷ ts) m = count_tools ts (put t (or_zero (get t m) + 1) m)

pub most_repeated : Map Text ℕ → Text × ℕ → Text × ℕ
most_repeated [] best = best
most_repeated ((t, c) ∷ m) best = most_repeated m (if ltb best.1 c then (t, c) else best)

-- An empty name with 0 where no tool is used often enough.
pub detect_repetition : List Text → ℕ → Text × ℕ
unfolding count_tools most_repeated
detect_repetition tools threshold =
    if ltb (length tools) threshold
    then ([], 0)
    else (let best = most_repeated (count_tools tools []) ([], 0) in
        if leb threshold best.1 then best else ([], 0))

abbrev pub apologizes : Text → Bool
apologizes content =
    contains (to_lower content) (codes "i apologize")
    || contains (to_lower content) (codes "i'm sorry")
    || contains (to_lower content) (codes "let me try again")
    || contains (to_lower content) (codes "let me start over")

-- `later` is the time of the test.
pub evaluate_heuristics : Config → ℕ → MonitorState → TaskEvent → Judgement
unfolding detect_repetition
evaluate_heuristics cfg later st e =
    let rep = detect_repetition st.recent_tools 3 in
    if leb 3 st.consecutive_errs
    then correct (error_loop st.consecutive_errs)
    else if not (rep.0 is [])
    then correct (repetition rep.0 rep.1)
    else if ltb cfg.stall_timeout (later - st.last_activity)
    then correct stalled
    else if apologizes e.content
    then correct apology
    else continue

pub judge_classification : Option Text → Judgement
judge_classification none = continue
judge_classification (some c) =
    if contains c (codes "on_track")
    then continue
    else if contains c (codes "spinning")
    then correct spinning
    else if contains c (codes "stuck")
    then correct stuck
    else if contains c (codes "off_topic")
    then correct off_topic
    else continue

abbrev pub at_checkpoint : Config → MonitorState → Bool
at_checkpoint cfg st = ltb 0 st.turn_count && ((st.turn_count % cfg.check_interval) == 0)

abbrev pub or_judgement : Judgement → Judgement → Judgement
or_judgement continue j = j
or_judgement (correct r) j = correct r
or_judgement (abort r) j = abort r

abbrev pub monitor_of : Text → Text → ℕ → Supervisor → MonitorState
monitor_of id task now s = elim (get id s.tasks) [ none ↦ new_monitor task now | some st ↦ st ]

module _ (ask : Text → List Text → ℕ → Option Text) where
  -- The state of the task is noted first, and judged after; `later` is the time of the judgement.
  pub evaluate : Text → Text → ℕ → ℕ → Supervisor → TaskEvent → Supervisor × Judgement
  unfolding note_event evaluate_heuristics judge_classification
  evaluate id task now later s e =
      let st = note_event e now (monitor_of id task now s) in
      (
        record s { tasks = put id st s.tasks },
        or_judgement (evaluate_heuristics s.config later st e) (
            if at_checkpoint s.config st
            then judge_classification (ask st.task st.recent_tools st.turn_count)
            else continue),
      )
