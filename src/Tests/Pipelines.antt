-- ===== src/Tests/Pipelines.antt =====
-- internal/pipeline/pipeline.go and the dispatch of internal/agent/async.go at concrete values.
use kaggen.Base.{
  ℕ, ◌+◌, ◌≡◌, refl, true, none, some, List, [], ◌∷◌, arith, Text, text_discrete, text_key, nat_key,
  get,
}
use kaggen.Tasks.{Store, TaskState, TaskEvent, find_task}
use kaggen.Tests.Tasks.{t1, t2, sid, working, one_task, used}
use kaggen.Pipeline.{Stage, Pipeline, PipelineAgent, agent_set}
use kaggen.Pipeline.Stages.{first_stage, get-agent_set}
use kaggen.Progress.{is_pipeline_stage_completed, pipeline_elapsed}
use kaggen.Dispatch.{Request, Dispatcher, dispatch, gated_stage, admit, first_missing, start_clock}
use kaggen.Dispatch.Gate.{dispatch_stages_done}
use kaggen.Dispatch.Run.{Verdict, carry_on, Abort, Choice, Response, responds, Run, run_events}
use kaggen.Dispatch.Run.Steps.{Stops, run_events-Stops, run_events-three_errors}
use kaggen.Dispatch.Run.{run_agent, cancel_call}
use kaggen.Dispatch.Run.Endings.{run_agent-Settled, Settled}

abbrev coder : Text
coder = 99 ∷ []

abbrev tester : Text
tester = 116 ∷ []

abbrev build : Text
build = 98 ∷ []

abbrev code_stage : Stage
code_stage = record { agent = coder; description = []; on_fail = []; max_retries = 0 }

abbrev test_stage : Stage
test_stage = record { agent = tester; description = []; on_fail = []; max_retries = 2 }

abbrev build_pipeline : Pipeline
build_pipeline = record {
  name = build;
  description = [];
  trigger = [];
  stages = code_stage ∷ test_stage ∷ [];
}

abbrev pipelines : List Pipeline
pipelines = build_pipeline ∷ []

abbrev tester_place : PipelineAgent
tester_place = record { pipeline = build; stage = 2 }

abbrev coder_place : PipelineAgent
coder_place = record { pipeline = build; stage = 1 }

abbrev dispatcher : Dispatcher
dispatcher = record {
  agents = (coder, tt) ∷ (tester, tt) ∷ [];
  pipelines = pipelines;
  pipeline_agents = (coder, coder_place) ∷ (tester, tester_place) ∷ [];
  max_turns = 5;
}

abbrev request : Text → Request
request pipeline = record {
  agent_name = tester;
  task = sid;
  policy = [];
  pipeline = pipeline;
  backlog_item_id = [];
}

abbrev coded : Store
coded = record one_task { pipeline_progress = (sid, (build, (1, true) ∷ []) ∷ []) ∷ [] }

get-agent_set_example : get tester (agent_set pipelines) ≡ first_stage tester pipelines
get-agent_set_example = get-agent_set tester pipelines

dispatch_stages_done_example : is_pipeline_stage_completed sid build 1 coded ≡ true
unfolding dispatch admit gated_stage first_missing start_clock get text_discrete
    is_pipeline_stage_completed pipeline_elapsed
dispatch_stages_done_example =
    dispatch_stages_done dispatcher (request build) sid sid t2 20 coded tester_place 1 (λ e. cc)
      refl refl (omega arith) (omega arith) refl

abbrev speaks : Choice
speaks = record { tool_calls = sid ∷ []; content = sid }

abbrev answers : Response
answers = record { error = none; choices = speaks ∷ []; usage = some used }

abbrev fails : Text → Response
fails message = record { error = some message; choices = []; usage = none }

abbrev trusting : ℕ → TaskEvent → ℕ × Verdict
trusting n e = (n + 1, carry_on)

abbrev plain : Abort → Text
plain why = sid

abbrev counts : ℕ → Text
counts n = t1

abbrev idle : Run ℕ
idle = record { store = one_task; turns = 0; errors = 0; result = []; supervisor = 0 }

run_agent-Settled_example :
    (t : TaskState) × (find_task t1
        (run_agent trusting plain counts dispatcher
          (request build)
          sid
          t1
          0
          none
          ((6, responds answers) ∷ (7, cancel_call) ∷ [])
          true
          9
          one_task).0
      ≡ some t)
    × Settled plain counts
        (run_agent trusting plain counts dispatcher
          (request build)
          sid
          t1
          0
          none
          ((6, responds answers) ∷ (7, cancel_call) ∷ [])
          true
          9
          one_task).1
        t
unfolding get text_discrete find_task
run_agent-Settled_example =
    run_agent-Settled trusting plain counts dispatcher (request build) sid t1 0 none
      ((6, responds answers) ∷ (7, cancel_call) ∷ []) true 9 one_task (working, refl)

run_events-three_errors_example : Stops (
    run_events trusting 9 t1
      ((6, responds (fails sid))
        ∷ (7, responds (fails t1))
        ∷ (8, responds (fails t2))
        ∷ (9, responds answers)
        ∷ [])
      idle)
run_events-three_errors_example =
    run_events-three_errors trusting 9 t1 6 7 8 (fails sid) (fails t1) (fails t2) sid t1 t2
      ((9, responds answers) ∷ []) idle refl refl refl

run_events-Stops_example :
    Stops (run_events trusting 2 t1 ((6, responds answers) ∷ (7, responds answers) ∷ []) idle)
run_events-Stops_example =
    run_events-Stops trusting 2 t1 ((6, responds answers) ∷ (7, responds answers) ∷ []) idle
      (omega arith) (omega arith)
