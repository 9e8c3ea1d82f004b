-- ===== src/Watchdog/Status.antt =====
-- internal/agent/async_status.go, cancel_task.go and pipeline_status.go: the tools that show the in-flight
-- store to the coordinator. Texts of messages are left out.
use kaggen.Base.{
  ℕ, zero, suc, ◌+◌, ◌<◌, ◌≡◌, refl, sym, ◌∙◌, inl, inr, Bool, true, false, ◌&&◌, ◌||◌, not, Option,
  none, some, List, [], ◌∷◌, ◌++◌, arith, if◌then◌else◌, Bool-cases, length, get_elem?, Text, codes,
  ◌is◌, text_key, nat_key, Map, get,
}
use kaggen.Pipeline.{Pipeline, Stage}
use kaggen.Progress.{pipeline_description, is_pipeline_stage_completed, inner}
use kaggen.Tasks.{
  running, Store, TaskState, TaskStatus, cancel, completed, list_tasks, failed, find_task,
  cancelled, pending_approval,
}

-- A status text that names no status lists no task.
abbrev pub status_named : Text → Option TaskStatus
status_named s =
    if s is codes "running"
    then some running
    else if s is codes "completed"
    then some completed
    else if s is codes "failed"
    then some failed
    else if s is codes "cancelled"
    then some cancelled
    else if s is codes "pending_approval"
    then some pending_approval
    else none

abbrev pub one_task : Option TaskState → List TaskState
one_task none = []
one_task (some t) = t ∷ []

abbrev pub tasks_named : Option TaskStatus → Store → List TaskState
tasks_named none s = []
tasks_named (some status) s = list_tasks (some status) s

unfoldable pub check : Text → Text → Store → List TaskState
check [] [] s = list_tasks none s
check [] (c ∷ status) s = tasks_named (status_named (c ∷ status)) s
check (c ∷ id) status s = one_task (find_task (c ∷ id) s)

pub data CancelReply : Type 0 where
  id_required not_found : CancelReply
  has_cancelled : Option Text → CancelReply
  is_already : TaskStatus → CancelReply

abbrev agent_of : Option TaskState → Option Text
agent_of none = none
agent_of (some t) = some t.agent_name

abbrev reply_of : Option TaskState → CancelReply
reply_of none = not_found
reply_of (some t) = is_already t.status

-- The store, the reply, and the context whose cancel function was called.
unfoldable pub cancel_task : Text → ℕ → Store → Store × CancelReply × Option ℕ
cancel_task [] now s = (s, id_required, none)
cancel_task (c ∷ id) now s =
    let (s', done, context) = cancel (c ∷ id) now s in
    (
      s',
      if done
          then has_cancelled (agent_of (find_task (c ∷ id) s'))
          else reply_of (find_task (c ∷ id) s'),
      context,
    )

pub data StageStatus : Type 0 where
  pending is_running is_completed : StageStatus

pub record StageInfo : Type 0 where
  pub stage : ℕ
  pub agent : Text
  pub description : Text
  pub status : StageStatus

pub record PipelineInfo : Type 0 where
  pub name : Text
  pub description : Text
  pub task_description : Text
  pub session_id : Text
  pub stages : List StageInfo

-- Whether a task of the agent runs, in the session where one is given.
abbrev pub runs_agent : Text → Text → List TaskState → Bool
runs_agent session agent [] = false
runs_agent session agent (t ∷ ts) =
    t.agent_name is agent && (session is [] || t.session_id is session)
    || runs_agent session agent ts

abbrev pub is_true : Option Bool → Bool
is_true none = false
is_true (some b) = b

abbrev pub stage_status : Text → Map ℕ Bool → List TaskState → ℕ → Stage → StageStatus
stage_status session done tasks number st =
    if is_true (get number done)
    then is_completed
    else if runs_agent session st.agent tasks
    then is_running
    else pending

unfoldable pub build_stages : Text → Map ℕ Bool → List TaskState → ℕ → List Stage → List StageInfo
build_stages session done tasks number [] = []
build_stages session done tasks number (st ∷ sts) =
    record {
      stage = number;
      agent = st.agent;
      description = st.description;
      status = stage_status session done tasks number st;
    }
    ∷ build_stages session done tasks (number + 1) sts

unfoldable pub session_info : Pipeline → Text → Map ℕ Bool → Store → PipelineInfo
session_info p session done s = record {
  name = p.name;
  description = p.description;
  task_description = pipeline_description session p.name s;
  session_id = session;
  stages = build_stages session done (list_tasks (some running) s) 1 p.stages;
}

unfoldable pub sessions_of : Pipeline → Map Text (Map Text (Map ℕ Bool)) → Store → List PipelineInfo
sessions_of p [] s = []
sessions_of p ((session, progress) ∷ m) s =
    let rest = sessions_of p m s in
    elim (get p.name progress) [ none ↦ rest | some done ↦ session_info p session done s ∷ rest ]

-- A pipeline that no session has started is shown once, without a session.
abbrev pub or_idle : Pipeline → Store → List PipelineInfo → List PipelineInfo
or_idle p s [] =
    record {
      name = p.name;
      description = p.description;
      task_description = [];
      session_id = [];
      stages = build_stages [] [] (list_tasks (some running) s) 1 p.stages;
    }
    ∷ []
or_idle p s (i ∷ is') = i ∷ is'

unfoldable pub check_pipelines : Text → List Pipeline → Store → List PipelineInfo
check_pipelines wanted [] s = []
check_pipelines wanted (p ∷ ps) s =
    let rest = check_pipelines wanted ps s in
    if not (wanted is []) && not (p.name is wanted)
    then rest
    else or_idle p s (sessions_of p s.pipeline_progress s) ++ rest

-- Whether a stage is shown as completed.
abbrev pub stage_shown : Option StageInfo → Bool
stage_shown none = false
stage_shown (some i) = elim i.status [ is_completed ↦ true | _ ↦ false ]

build_stages-get :
    (session : Text) (done : Map ℕ Bool) (tasks : List TaskState) (n i : ℕ) (sts : List Stage)
    → i < length sts
    → stage_shown (get_elem? (build_stages session done tasks n sts) i) ≡ is_true (get (n + i) done)
unfolding build_stages
build_stages-get session done tasks n i [] h = absurd (omega arith)
build_stages-get session done tasks n zero (st ∷ sts) h =
    let e : n + 0 ≡ n = omega arith in
    elim (Bool-cases (is_true (get n done))) [
      | inl on ↦ rw (e, on) refl
      | inr off ↦ elim (Bool-cases (runs_agent session st.agent tasks)) [
        | inl busy ↦ rw (e, off, busy) refl
        | inr idle ↦ rw (e, off, idle) refl
      ]
    ]
build_stages-get session done tasks n (suc i) (st ∷ sts) h =
    let e : n + 1 + i ≡ n + suc i = omega arith in
    rw⁻¹ e (build_stages-get session done tasks (n + 1) i sts (omega arith))

-- What the tool shows of a session's pipeline is what the dispatch gate reads: a stage is shown as
-- completed exactly if the store has it as completed.
pub session_info-is_pipeline_stage_completed :
    (p : Pipeline) (session : Text) (done : Map ℕ Bool) (s : Store) (i : ℕ)
    → get p.name (inner session s.pipeline_progress) ≡ some done
    → i < length p.stages
    → stage_shown (get_elem? (session_info p session done s).stages i)
      ≡ is_pipeline_stage_completed session p.name (1 + i) s
unfolding session_info is_pipeline_stage_completed
session_info-is_pipeline_stage_completed p session done s i at short =
    let shown = build_stages-get session done (list_tasks (some running) s) 1 i p.stages short in
    let flags : is_pipeline_stage_completed session p.name (1 + i) s ≡ is_true (get (1 + i) done) =
      ground (arith, at) in
    shown ∙ sym flags
