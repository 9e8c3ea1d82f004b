-- ===== src/Tests/Monitors.antt =====
-- internal/agent/supervisor.go at concrete values: two tool calls and an apology.
use kaggen.Base.{ℕ, Option, none, List, [], ◌∷◌, Text, codes, text_key, nat_key}
use kaggen.Tasks.{TaskEvent}
use kaggen.Tests.Tasks.{t1, sid, one_task}
use kaggen.Dispatch.Run.{Run, responds, run_events, Response}
use kaggen.Supervisor.{Config, Supervisor, Reason}
use kaggen.Supervisor.Verdicts.{supervise, IsNotAborted, run_events-IsNotAborted}

abbrev config : Config
config = record { check_interval = 10; max_corrections = 2; stall_timeout = 300 }

abbrev watcher : Supervisor
watcher = record { config = config; tasks = [] }

abbrev calls : List Text → TaskEvent
calls tools = record {
  timestamp = 0;
  kind = codes "tool_call";
  turn = 1;
  tools = tools;
  content = [];
  tokens = none;
}

abbrev silent_model : Text → List Text → ℕ → Option Text
silent_model task tools turns = none

abbrev history : List (ℕ × ℕ × TaskEvent)
history = (1, 1, calls (t1 ∷ sid ∷ [])) ∷ (2, 3, calls (sid ∷ [])) ∷ []

abbrev words : Reason → Text
words r = sid

abbrev clock : Supervisor → TaskEvent → ℕ × ℕ
clock s e = (5, 6)

abbrev idle : Run Supervisor
idle = record { store = one_task; turns = 0; errors = 0; result = []; supervisor = watcher }

abbrev apology : Response
apology = record {
  error = none;
  choices = record { tool_calls = []; content = codes "I apologize" } ∷ [];
  usage = none;
}

run_events-IsNotAborted_example :
    IsNotAborted (
      run_events (supervise silent_model words clock t1 sid) 9 t1 ((6, responds apology) ∷ []) idle)
run_events-IsNotAborted_example =
    run_events-IsNotAborted silent_model words clock sid 9 t1 ((6, responds apology) ∷ []) idle
