-- ===== src/WorldModel.antt =====
-- internal/agent/worldmodel.go: the execution state of a session, and the advice that it gives. The
-- clock is an argument, times are numbers of nanoseconds. A rate is kept as its two counts.
pub mod Streaks
pub mod Sessions
use kaggen.Base.{
  ℕ, zero, suc, ◌+◌, ◌-◌, ◌*◌, ◌/◌, ◌%◌, ◌≤◌, ◌<◌, ◌≡◌, refl, sym, ap, ◌∙◌, ◌≢◌, ◌↔◌, ◌⊎◌, inl, inr,
  ite, Bool, true, false, ◌&&◌, ◌||◌, not, Option, none, some, List, [], ◌∷◌, ◌++◌, map, arith,
  dec_lt, ℕ_discrete, ltb, leb, ◌==◌, if◌then◌else◌, Bool-cases, Option-cases, found, length, take,
  drop, get_elem?, select, last_n, All, length-append, length-take, length-drop, take-append-drop,
  length-select-le, select-append, select_idem, Text, codes, text_discrete, ◌is◌, starts_with, Key,
  text_key, nat_key, Map, keep_if, get, put, del, Unique, get-put, get-del, put-Unique, del-Unique,
  values_where, del_where, map_values, get-map_values, get-del_where-none, get-del_where-some,
  del_where-Unique, map_values-Unique, values_where-del_where, contains, lower_code, to_lower,
}
use kaggen.Tasks.{TaskStatus, running, completed, failed, cancelled, pending_approval, status_is}

pub record ToolCallRecord : Type 0 where
  pub timestamp : ℕ
  pub tool : Text
  pub success : Bool
  pub duration : ℕ
  pub error_msg : Text
  pub result_size : ℕ

pub record ErrorRecord : Type 0 where
  pub timestamp : ℕ
  pub tool : Text
  pub message : Text

pub record StateTransition : Type 0 where
  pub timestamp : ℕ
  pub from : Text
  pub to : Text
  pub trigger : Text

pub record WorldModel : Type 0 where
  pub session_id : Text
  pub started_at : ℕ
  pub files_modified : Map Text ℕ
  pub tool_calls : List ToolCallRecord
  pub task_status : Map Text TaskStatus
  pub error_streak : ℕ
  pub last_error : Option ErrorRecord
  pub last_error_tool : Text
  pub state_changes : List StateTransition
  pub test_status : Text
  pub last_test_run : ℕ
  pub build_status : Text
  pub last_build_run : ℕ
  pub pending_calls : Map Text ℕ

abbrev pub no_text : Text
no_text = []

-- `TestStatus` is a string type.
abbrev pub test_status_unknown : Text
test_status_unknown = codes "unknown"

pub new_world_model : Text → ℕ → WorldModel
new_world_model session_id now = record {
  session_id = session_id;
  started_at = now;
  files_modified = [];
  tool_calls = [];
  task_status = [];
  error_streak = 0;
  last_error = none;
  last_error_tool = no_text;
  state_changes = [];
  test_status = test_status_unknown;
  last_test_run = 0;
  build_status = test_status_unknown;
  last_build_run = 0;
  pending_calls = [];
}

abbrev any_prefix : Text → List Text → Bool
any_prefix s [] = false
any_prefix s (p ∷ ps) = starts_with s p || any_prefix s ps

unfoldable pub categorize_tool_name : Text → Text
categorize_tool_name tool =
    if any_prefix (to_lower tool) (codes "bash" ∷ codes "exec" ∷ [])
    then codes "execution"
    else if any_prefix (to_lower tool) (codes "read" ∷ codes "glob" ∷ codes "grep" ∷ [])
    then codes "filesystem_read"
    else if any_prefix (to_lower tool) (codes "write" ∷ codes "edit" ∷ [])
    then codes "filesystem_write"
    else if any_prefix (to_lower tool) (codes "browser" ∷ codes "web" ∷ [])
    then codes "web"
    else if any_prefix (to_lower tool) (codes "dispatch" ∷ codes "backlog" ∷ [])
    then codes "orchestration"
    else tool

unfoldable pub record_tool_call_start : Text → ℕ → WorldModel → WorldModel
record_tool_call_start call_id now w = record w { pending_calls = put call_id now w.pending_calls }

abbrev pub since : Option ℕ → ℕ → ℕ
since none now = 0
since (some start) now = now - start

-- The streak, the category that it is counted for, and the last error.
abbrev pub count_error : Text → Bool → Text → ℕ → WorldModel → WorldModel
count_error tool true message now w = record w { error_streak = 0 }
count_error tool false message now w = record w {
  error_streak = if w.last_error_tool is categorize_tool_name tool then w.error_streak + 1 else 1;
  last_error_tool = categorize_tool_name tool;
  last_error = some (record { timestamp = now; tool = tool; message = message });
}

pub record_tool_call_end : Text → Text → Bool → Text → ℕ → ℕ → WorldModel → WorldModel
record_tool_call_end call_id tool success message size now w =
    let call : ToolCallRecord = record {
      timestamp = now;
      tool = tool;
      success = success;
      duration = since (get call_id w.pending_calls) now;
      error_msg = message;
      result_size = size;
    } in
    count_error tool success message now (record w {
      pending_calls = del call_id w.pending_calls;
      tool_calls = w.tool_calls ++ (call ∷ []);
    })

unfoldable pub record_file_modified : Text → ℕ → WorldModel → WorldModel
record_file_modified path now w = record w { files_modified = put path now w.files_modified }

-- The changes after one more status, which counts if it differs from the old one.
abbrev pub note_change : Text → Text → Text → ℕ → List StateTransition → List StateTransition
note_change from to trigger now changes =
    if from is to
    then changes
    else changes ++ (record { timestamp = now; from = from; to = to; trigger = trigger } ∷ [])

unfoldable pub update_test_status : Text → ℕ → WorldModel → WorldModel
update_test_status status now w = record w {
  test_status = status;
  last_test_run = now;
  state_changes = note_change w.test_status status (codes "test_run") now w.state_changes;
}

unfoldable pub update_build_status : Text → ℕ → WorldModel → WorldModel
update_build_status status now w = record w {
  build_status = status;
  last_build_run = now;
  state_changes = note_change w.build_status status (codes "build_run") now w.state_changes;
}

-- The texts of `TaskStatus`; a task that is not known has the empty one.
abbrev pub status_text : Option TaskStatus → Text
status_text none = []
status_text (some running) = codes "running"
status_text (some completed) = codes "completed"
status_text (some failed) = codes "failed"
status_text (some cancelled) = codes "cancelled"
status_text (some pending_approval) = codes "pending_approval"

unfoldable pub record_task_status : Text → TaskStatus → ℕ → WorldModel → WorldModel
record_task_status task_id status now w = record w {
  task_status = put task_id status w.task_status;
  state_changes =
      note_change (status_text (get task_id w.task_status)) (status_text (some status))
        (codes "task:" ++ task_id) now w.state_changes;
}

abbrev pub has_failed : ToolCallRecord → Bool
has_failed c = not c.success

abbrev pub failures : List ToolCallRecord → ℕ
failures cs = length (select has_failed cs)

pub data Pivot : Type 0 where
  same_approach : ℕ → Text → Pivot
  recent_failures : Pivot

pub should_pivot : WorldModel → Option Pivot
should_pivot w =
    if leb 3 w.error_streak
    then some (same_approach w.error_streak w.last_error_tool)
    else if leb 5 (length w.tool_calls) && leb 4 (failures (last_n 5 w.tool_calls))
    then some recent_failures
    else none

pub data Escalation : Type 0 where
  minimal_progress : ℕ → Escalation
  failing : ℕ → Escalation

-- Ten minutes, in nanoseconds.
abbrev pub progress_time : ℕ
progress_time = 600000000000

unfoldable pub should_escalate : ℕ → WorldModel → Option Escalation
should_escalate now w =
    if ltb progress_time (now - w.started_at) && ltb (length w.state_changes) 2
    then some (minimal_progress (now - w.started_at))
    else if leb 10 (length w.tool_calls) && leb 6 (failures (last_n 10 w.tool_calls))
    then some (failing (failures (last_n 10 w.tool_calls)))
    else none

abbrev pub recent_tool_calls : ℕ → WorldModel → List ToolCallRecord
recent_tool_calls n w = if leb (length w.tool_calls) n then w.tool_calls else last_n n w.tool_calls

abbrev pub successes : List ToolCallRecord → ℕ
successes cs = length (select (λ c. c.success) cs)

pub is_progressing_well : WorldModel → Bool
is_progressing_well w =
    if ltb (length w.tool_calls) 5 then true else leb 3 (successes (recent_tool_calls 5 w))
