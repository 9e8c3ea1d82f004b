-- ===== src/Tests/Checks.antt =====
-- internal/eval/assert, internal/model, internal/proactive and the tools of internal/agent that watch
-- tasks, at concrete values.
use kaggen.Base.{
  ℕ, ◌≤◌, ◌≡◌, refl, true, false, Option, none, some, List, [], ◌∷◌, map, arith, ◌==◌,
  if◌then◌else◌, get_elem?, Text, codes, text_discrete, text_key, nat_key, get,
}
use kaggen.Tests.Tasks.{t1, t2, sid, one_task}
use kaggen.Assertions.Tools.{evaluate_sequence, call_name}
use kaggen.Proactive.{Attempt, Engine, Job, execute_with_retry}
use kaggen.Proactive.Retries.{SucceedsAt, execute_with_retry-success}
use kaggen.Usage.{Usage}
use kaggen.Usage.Slots.{
  Semaphore, holders, new_semaphore, calling, queued, Reaches-holders, Reaches, after, here,
  arrives, acquires,
}
use kaggen.Watchdog.Alerts.{times_over, times_over-sweep}
use kaggen.Assertions.Sequences.{is_subsequence, evaluate_sequence-is_subsequence}
use kaggen.Assertions.Results.{type_name-from_config}
use kaggen.Proactive.Retries.{counts}
use kaggen.Tasks.{Store, find_task}
use kaggen.Pipeline.{Pipeline}
use kaggen.Watchdog.Status.{stage_shown, session_info, session_info-is_pipeline_stage_completed}
use kaggen.Progress.{is_pipeline_stage_completed}
use kaggen.Assertions.{
  Config, Context, Matcher, RecordedToolCall, Assertion, from_config, registry, new_not_contains,
  type_name,
}

abbrev no_regex : Text → Option Matcher
no_regex s = none

abbrev call : Text → RecordedToolCall
call name = record { name = name; args = [] }

abbrev ctx : Context
ctx = record {
  instruction = [];
  response = sid;
  tool_calls = call t1 ∷ call sid ∷ call t2 ∷ [];
  skills_dispatched = [];
  clarifications = [];
}

evaluate_sequence-is_subsequence_example :
    (evaluate_sequence (t1 ∷ t2 ∷ []) ctx).passed
    ≡ is_subsequence (t1 ∷ t2 ∷ []) (map call_name ctx.tool_calls)
evaluate_sequence-is_subsequence_example = evaluate_sequence-is_subsequence (t1 ∷ t2 ∷ []) ctx

abbrev needs_text : Config
needs_text = record {
  kind = codes "not-contains";
  value = sid;
  tool = [];
  skill = [];
  params = [];
  rubric = [];
  min_score = (0, 1);
  sequence = [];
  count = none;
  min_count = none;
  max_count = none;
  required = none;
  forbidden = none;
  optional = none;
  about = [];
}

type_name-from_config_example : type_name (Assertion.has_no_text sid) ≡ codes "not-contains"
unfolding from_config registry get text_discrete new_not_contains
type_name-from_config_example =
    type_name-from_config no_regex needs_text (Assertion.has_no_text sid) refl

-- The first attempt fails, the later ones succeed.
abbrev attempts : ℕ → Attempt
attempts n = record {
  responses = [];
  error = if n == 0 then some sid else none;
  deadline = false;
  started_at = n;
  duration = 1;
  recorded = true;
  stopped_waiting = false;
  stopped = false;
}

abbrev job : Job
job = record { name = sid; job_type = sid; channel = sid; heartbeat = false; max_retries = 2 }

abbrev idle : Engine
idle = record {
  channels = sid ∷ [];
  history = some [];
  jobs_executed = 0;
  jobs_failed = 0;
  jobs_retried = 0;
  jobs_timed_out = 0;
  sent = [];
}

second_succeeds : SucceedsAt attempts 1
second_succeeds = record {
  fails = λ i h. (let z : i ≡ 0 = omega arith in rw z refl);
  goes_on = λ i h. refl;
  waits = λ i h. refl;
  succeeds = refl;
}

execute_with_retry-success_example : counts (execute_with_retry attempts job idle) ≡ (1, 1, 1)
unfolding text_discrete
execute_with_retry-success_example =
    execute_with_retry-success attempts job 1 idle (omega arith) refl second_succeeds

abbrev reported : Usage
reported = record { prompt_tokens = 3; completion_tokens = 4; total_tokens = 7 }

abbrev one_call : Semaphore
one_call = record { taken = 0; calls = queued ∷ [] }

abbrev one_calls : Semaphore
one_calls = record { taken = 1; calls = calling ∷ [] }

one_reached : Reaches 1 new_semaphore one_calls
unfolding new_semaphore
one_reached =
    after new_semaphore one_call one_calls
      (after new_semaphore new_semaphore one_call (here new_semaphore) (arrives new_semaphore))
      (acquires one_call 0 refl (omega arith))

Reaches-holders_example :
    (one_calls.taken ≡ holders one_calls.calls) × (holders one_calls.calls ≤ 1)
Reaches-holders_example = Reaches-holders 1 one_calls one_reached

abbrev two_ticks : List (ℕ × Store)
two_ticks = (99, one_task) ∷ (200, record one_task { on_event = true }) ∷ []

times_over-sweep_example : times_over t1 10 two_ticks [] ≤ 1
unfolding find_task get text_discrete
times_over-sweep_example = times_over-sweep t1 10 two_ticks [] (refl, (refl, tt))

abbrev review : Pipeline
review = record {
  name = sid;
  description = [];
  trigger = [];
  stages = record { agent = t1; description = []; on_fail = []; max_retries = 0 } ∷ [];
}

abbrev under_review : Store
under_review = record one_task { pipeline_progress = (t2, (sid, (1, true) ∷ []) ∷ []) ∷ [] }

session_info-is_pipeline_stage_completed_example :
    stage_shown (get_elem? (session_info review t2 ((1, true) ∷ []) under_review).stages 0)
    ≡ is_pipeline_stage_completed t2 sid 1 under_review
unfolding get text_discrete
session_info-is_pipeline_stage_completed_example =
    session_info-is_pipeline_stage_completed review t2 ((1, true) ∷ []) under_review 0 refl
      (omega arith)
