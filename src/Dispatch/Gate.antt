-- ===== src/Dispatch/Gate.antt =====
-- What it takes for a dispatch to be accepted.
use kaggen.Base.{
  ℕ, zero, suc, ◌+◌, ◌-◌, ◌≤◌, ◌<◌, ◌≡◌, refl, ◌≢◌, inl, inr, true, false, none, some, [], arith,
  ℕ_discrete, Bool-cases, Option-cases, found, Text, ◌is◌, text_key, nat_key, get, get-put,
}
use kaggen.Pipeline.{PipelineAgent}
use kaggen.Progress.{is_pipeline_stage_completed}
use kaggen.Tasks.{Store, TaskState, running, find_task, register, fresh_task}
use kaggen.Dispatch.{
  Request, Dispatcher, accepted, refused, stage_required, gated_stage, first_missing, missing_stage,
  start_clock, admit, dispatch, policy_or_auto, stage_name, stage_number,
}

first_missing-none :
    (session name : Text) (left stage : ℕ) (s : Store) (k : ℕ)
    → first_missing session name left stage s ≡ none
    → stage ≤ k
    → k < stage + left
    → is_pipeline_stage_completed session name k s ≡ true
unfolding first_missing
first_missing-none session name zero stage s k e low high = absurd (omega arith)
first_missing-none session name (suc left) stage s k e low high =
    elim (Bool-cases (is_pipeline_stage_completed session name stage s)) [
      | inl done ↦ elim (ℕ_discrete stage k) [
        | yes p ↦ rw (← p) done
        | no p ↦
            first_missing-none session name left (stage + 1) s k (ground (arith, done))
              (omega arith) (omega arith)
      ]
      | inr missing ↦ absurd (ground (arith, missing))
    ]

first_missing-some :
    (session name : Text) (left stage : ℕ) (s : Store) (k : ℕ)
    → first_missing session name left stage s ≡ some k
    → (stage ≤ k) × (k < stage + left) × (is_pipeline_stage_completed session name k s ≡ false)
unfolding first_missing
first_missing-some session name zero stage s k e = absurd (cc)
first_missing-some session name (suc left) stage s k e =
    elim (Bool-cases (is_pipeline_stage_completed session name stage s)) [
      | inl done ↦
          let (low, high, missing) =
            first_missing-some session name left (stage + 1) s k (ground (arith, done)) in
          (omega arith, omega arith, missing)
      | inr missing ↦
          let here : stage ≡ k = ground (arith, missing) in
          (omega arith, omega arith, rw (← here) missing)
    ]

accepted-missing :
    (d : Dispatcher) (req : Request) (session user task_id : Text) (now : ℕ) (s : Store)
    → (dispatch d req session user task_id now s).1 ≡ accepted task_id
    → (found (get req.agent_name d.agents) ≡ true)
      × (missing_stage session (gated_stage d req) s ≡ none)
      × (dispatch d req session user task_id now s ≡ admit d req session user task_id now s)
unfolding dispatch
accepted-missing d req session user task_id now s h =
    elim (Option-cases (missing_stage session (gated_stage d req) s)) [
      | inl e ↦ (ground (arith, e), e, ground (arith, e))
      | inr (k, e) ↦ absurd (ground (arith, e))
    ]

-- If the table of pipeline agents, which has one place for each agent, has an agent at a stage of the
-- pipeline that a request names, a dispatch of the agent that is accepted had every earlier stage of
-- that pipeline completed in the session of the caller. For an agent that the table has in another
-- pipeline nothing is said.
pub dispatch_stages_done :
    (d : Dispatcher) (req : Request) (session user task_id : Text) (now : ℕ) (s : Store)
    (pa : PipelineAgent) (k : ℕ)
    → req.pipeline ≢ []
    → get req.agent_name d.pipeline_agents ≡ some pa
    → pa.pipeline ≡ req.pipeline
    → 1 ≤ k
    → k < pa.stage
    → (dispatch d req session user task_id now s).1 ≡ accepted task_id
    → is_pipeline_stage_completed session req.pipeline k s ≡ true
unfolding gated_stage
dispatch_stages_done d req session user task_id now s pa k named has same low high h =
    let at : gated_stage d req ≡ some pa = ground (arith, named, has, same) in
    let (known, missing, _) = accepted-missing d req session user task_id now s h in
    rw (← same) (
      first_missing-none session pa.pipeline (pa.stage - 1) 1 s k (rw at at missing) low
        (omega arith))

-- A stage refusal names the agent and its first missing stage, and changes nothing.
pub dispatch_stage_required :
    (d : Dispatcher) (req : Request) (session user task_id : Text) (now : ℕ) (s : Store)
    (pa : PipelineAgent) (agent prior : Text) (k : ℕ)
    → gated_stage d req ≡ some pa
    → (dispatch d req session user task_id now s).1 ≡ refused (stage_required agent k prior)
    → (agent ≡ req.agent_name)
      × (1 ≤ k)
      × (k < pa.stage)
      × (is_pipeline_stage_completed session pa.pipeline k s ≡ false)
      × ((dispatch d req session user task_id now s).0 ≡ s)
unfolding dispatch admit
dispatch_stage_required d req session user task_id now s pa agent prior k at h =
    elim (Option-cases (missing_stage session (gated_stage d req) s)) [
      | inl e ↦ absurd (ground (arith, e))
      | inr (j, e) ↦
          let same : j ≡ k = ground (arith, e) in
          let (low, high, open_stage) =
            first_missing-some session pa.pipeline (pa.stage - 1) 1 s j (rw at at e) in
          (ground (arith, e), omega arith, omega arith, rw (← same) open_stage, ground (arith, e))
    ]

-- An accepted dispatch registers the task as running, for the agent, the text, the session, the user
-- and the policy of the request (automatic if it names none), with its place in the pipeline.
pub dispatch_registers :
    (d : Dispatcher) (req : Request) (session user task_id : Text) (now : ℕ) (s : Store)
    → (dispatch d req session user task_id now s).1 ≡ accepted task_id
    → (t : TaskState) × (find_task task_id (dispatch d req session user task_id now s).0 ≡ some t)
      × (t.status ≡ running)
      × (t.agent_name ≡ req.agent_name)
      × (t.task ≡ req.task)
      × (t.user_id ≡ user)
      × (t.session_id ≡ session)
      × (t.policy ≡ policy_or_auto req.policy)
      × (t.pipeline_name ≡ stage_name (gated_stage d req))
      × (t.pipeline_stage ≡ stage_number (gated_stage d req))
unfolding admit register find_task
dispatch_registers d req session user task_id now s h =
    let (known, missing, same) = accepted-missing d req session user task_id now s h in
    let t : TaskState =
      record (fresh_task task_id req.agent_name req.task (policy_or_auto req.policy) session user
        now) {
          pipeline_name = stage_name (gated_stage d req);
          pipeline_stage = stage_number (gated_stage d req);
        } in
    let s' = start_clock session req.task (gated_stage d req) now s in
    (
      t,
      rw same (ground (arith, get-put task_id task_id t s'.tasks, rw same at h)),
      refl,
      refl,
      refl,
      refl,
      refl,
      refl,
      refl,
      refl,
    )

-- A known agent whose place in the table is in another pipeline passes the gate of the pipeline that the
-- request names, whatever stages of that pipeline are missing.
pub dispatch_other_pipeline :
    (d : Dispatcher) (req : Request) (session user task_id : Text) (now : ℕ) (s : Store)
    (pa : PipelineAgent)
    → found (get req.agent_name d.agents) ≡ true
    → get req.agent_name d.pipeline_agents ≡ some pa
    → pa.pipeline ≢ req.pipeline
    → (dispatch d req session user task_id now s).1 ≡ accepted task_id
unfolding dispatch admit gated_stage start_clock
dispatch_other_pipeline d req session user task_id now s pa known at other =
    elim (Bool-cases (req.pipeline is [])) [ inl e ↦ ground (arith, e) | inr e ↦ ground (arith, e) ]
