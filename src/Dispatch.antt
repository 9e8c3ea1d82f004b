-- ===== src/Dispatch.antt =====
-- internal/agent/async.go, `dispatch`: the checks before a task is started, and its registration.
-- The generated task id, the session of the caller and the clock are arguments.
pub mod Gate
pub mod Run
use kaggen.Base.{
  ℕ, zero, suc, ◌+◌, ◌-◌, ◌*◌, ◌/◌, ◌%◌, ◌≤◌, ◌<◌, ◌≡◌, refl, sym, ap, ◌∙◌, ◌≢◌, ◌↔◌, ◌⊎◌, inl, inr,
  ite, Bool, true, false, ◌&&◌, ◌||◌, not, Option, none, some, List, [], ◌∷◌, ◌++◌, map, arith,
  dec_lt, ℕ_discrete, ltb, leb, ◌==◌, if◌then◌else◌, Bool-cases, Option-cases, found, length, take,
  drop, get_elem?, select, last_n, All, length-append, length-take, length-drop, take-append-drop,
  length-select-le, select-append, select_idem, Text, codes, text_discrete, ◌is◌, starts_with, Key,
  text_key, nat_key, Map, keep_if, get, put, del, Unique, get-put, get-del, put-Unique, del-Unique,
  values_where, del_where, map_values, get-map_values, get-del_where-none, get-del_where-some,
  del_where-Unique, map_values-Unique, values_where-del_where,
}
use kaggen.Pipeline.{Pipeline, PipelineAgent, find_agent_at_stage}
use kaggen.Progress.{is_pipeline_stage_completed, record_pipeline_start, pipeline_elapsed}
use kaggen.Tasks.{Store, register, trigger_auto}

pub record Request : Type 0 where
  pub agent_name : Text
  pub task : Text
  pub policy : Text
  pub pipeline : Text
  pub backlog_item_id : Text

-- `agents` lists the names of the sub-agents.
pub record Dispatcher : Type 0 where
  pub agents : Map Text (Unit {0})
  pub pipelines : List Pipeline
  pub pipeline_agents : Map Text PipelineAgent
  pub max_turns : ℕ

pub data Refusal : Type 0 where
  unknown_agent : Text → Refusal
  stage_required : Text → ℕ → Text → Refusal
  pipeline_timeout : Text → ℕ → Refusal

pub data Answer : Type 0 where
  accepted : Text → Answer
  refused : Refusal → Answer

-- Two hours, in nanoseconds.
abbrev pub max_pipeline_duration : ℕ
max_pipeline_duration = 7200000000000

-- The agent's place in the pipeline of the request, if the request is for the pipeline that the
-- table has for it.
unfoldable pub gated_stage : Dispatcher → Request → Option PipelineAgent
gated_stage d req =
    if req.pipeline is [] then none else (elim (get req.agent_name d.pipeline_agents) [
      | none ↦ none
      | some pa ↦ if pa.pipeline is req.pipeline then some pa else none
    ])

-- The loop of the stage gate: the first stage from `stage` on, of `left`, that is not completed.
unfoldable pub first_missing : Text → Text → ℕ → ℕ → Store → Option ℕ
first_missing session name zero stage s = none
first_missing session name (suc left) stage s =
    let rest = first_missing session name left (stage + 1) s in
    if is_pipeline_stage_completed session name stage s then rest else some stage

-- The stage gate of an agent in its pipeline.
abbrev pub missing_stage : Text → Option PipelineAgent → Store → Option ℕ
missing_stage session none s = none
missing_stage session (some pa) s = first_missing session pa.pipeline (pa.stage - 1) 1 s

-- The clock of the pipeline, started by its first stage.
unfoldable pub start_clock : Text → Text → Option PipelineAgent → ℕ → Store → Store
start_clock session task none now s = s
start_clock session task (some pa) now s =
    if pa.stage == 1 then record_pipeline_start session pa.pipeline task now s else s

abbrev pub is_overdue : Text → Option PipelineAgent → ℕ → Store → Bool
is_overdue session none now s = false
is_overdue session (some pa) now s =
    ltb max_pipeline_duration (pipeline_elapsed session pa.pipeline now s)

abbrev pub stage_name : Option PipelineAgent → Text
stage_name none = []
stage_name (some pa) = pa.pipeline

abbrev pub stage_number : Option PipelineAgent → ℕ
stage_number none = 0
stage_number (some pa) = pa.stage

abbrev pub policy_or_auto : Text → Text
policy_or_auto policy = if policy is [] then trigger_auto else policy

-- After the stage gate: the clock, the limit, and the registration.
unfoldable pub admit : Dispatcher → Request → Text → Text → Text → ℕ → Store → Store × Answer
admit d req session user task_id now s =
    let place = gated_stage d req in
    let s' = start_clock session req.task place now s in
    if is_overdue session place now s'
    then (
      s',
      refused (
          pipeline_timeout (stage_name place) (pipeline_elapsed session (stage_name place) now s')),
    )
    else (
      register task_id req.agent_name req.task (policy_or_auto req.policy) session user
          (stage_name place) (stage_number place) now s',
      accepted task_id,
    )

-- The store after the call, and the answer.
unfoldable pub dispatch : Dispatcher → Request → Text → Text → Text → ℕ → Store → Store × Answer
dispatch d req session user task_id now s =
    if not (found (get req.agent_name d.agents))
    then (s, refused (unknown_agent req.agent_name))
    else (elim (missing_stage session (gated_stage d req) s) [
      | some stage ↦ (
        s,
        refused (
            stage_required req.agent_name stage
              (find_agent_at_stage d.pipelines (stage_name (gated_stage d req)) stage)),
      )
      | none ↦ admit d req session user task_id now s
    ])
