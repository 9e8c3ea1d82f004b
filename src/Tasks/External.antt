-- ===== src/Tasks/External.antt =====
-- internal/agent/async.go, the tasks that wait for someone outside: approvals, external tasks, and the
-- reaper that times them out.
use kaggen.Base.{
  ℕ, ◌+◌, Bool, true, false, ◌&&◌, not, Option, none, some, List, [], ◌∷◌, ltb, ◌==◌, if◌then◌else◌,
  Text, codes, ◌is◌, text_key, nat_key, Map, put, map_values,
}
use kaggen.Tasks.{
  EmailArgs, extract_email_preview, TaskStatus, running, failed, pending_approval, ApprovalRequest,
  TaskState, Store, fresh_task, trigger_auto,
}

module _ (unmarshal : Text → Option EmailArgs) where
  unfoldable pub register_approval :
      Text → Text → Text → Text → Text → Text → Text → ℕ → ℕ → Store → Store
  register_approval id skill_name tool_name args description session_id user_id timeout now s =
      record s { tasks = put id state s.tasks }
    where
      fresh : TaskState
      fresh = fresh_task id skill_name description trigger_auto session_id user_id now

      request : ApprovalRequest
      request = record {
        tool_name = tool_name;
        arguments = args;
        skill_name = skill_name;
        description = description;
        requested_at = now;
        email_preview =
            if tool_name is codes "email"
            then extract_email_preview unmarshal tool_name args
            else none;
      }

      state : TaskState
      state = record fresh {
        status = pending_approval;
        external = true;
        timeout_at = now + timeout;
        approval_request = some request;
      }

unfoldable pub register_external : Text → Text → Text → Text → Text → Text → ℕ → ℕ → Store → Store
register_external id name secret policy session_id user_id timeout now s = record s {
  tasks = put id state s.tasks;
}
  where
    fresh : TaskState
    fresh = fresh_task id (codes "external") name policy session_id user_id now

    state : TaskState
    state = record fresh { external = true; callback_secret = secret; timeout_at = now + timeout }

-- The condition of the reaper's loop.
abbrev pub is_open : TaskStatus → Bool
is_open running = true
is_open pending_approval = true
is_open _ = false

abbrev pub is_expired : ℕ → TaskState → Bool
is_expired now t = t.external && is_open t.status && not (t.timeout_at == 0) && ltb t.timeout_at now

abbrev pub timed_out : ℕ → TaskState → TaskState
timed_out now t = record t {
  status = failed;
  error = codes "timed out waiting for callback";
  done_at = some now;
}

abbrev pub reap_task : ℕ → TaskState → TaskState
reap_task now t = if is_expired now t then timed_out now t else t

-- The new store, and the tasks, as the loop leaves them, that the timeout callback is called with.
unfoldable pub expired_tasks : ℕ → Map Text TaskState → List TaskState
expired_tasks now [] = []
expired_tasks now ((id, t) ∷ m) =
    if is_expired now t then timed_out now t ∷ expired_tasks now m else expired_tasks now m

unfoldable pub reap_expired_external : ℕ → Store → Store × List TaskState
reap_expired_external now s =
    (record s { tasks = map_values (reap_task now) s.tasks }, expired_tasks now s.tasks)
