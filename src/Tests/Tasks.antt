-- ===== src/Tests/Tasks.antt =====
-- internal/agent/async.go at concrete values: a store with one task that runs.
use kaggen.Base.{
  ◌≡◌, refl, ◌⊎◌, ite, true, false, Option, none, some, [], ◌∷◌, Text, codes, text_discrete,
  text_key, nat_key, get,
}
use kaggen.Tasks.{
  Store, TaskState, TaskEvent, TokenUsage, trigger_queue, trigger_auto, fresh_task, completed_task,
  running, new_store, cancel, fail, find_task, EmailArgs, cancelled,
}
use kaggen.Tasks.Lifecycle.{IsValid, registers, cancels, reaps, asks, run, run-new_store-IsValid}
use kaggen.Tasks.Cancellation.{cancel_lem, IsCancellable, fail-cancel}
use kaggen.Tasks.Approval.{EmailArgs}

abbrev pub t1 : Text
t1 = 49 ∷ []

abbrev pub t2 : Text
t2 = 50 ∷ []

abbrev pub sid : Text
sid = 115 ∷ []

abbrev pub working : TaskState
working = fresh_task t1 sid sid trigger_queue sid sid 5

abbrev pub one_task : Store
one_task = record {
  tasks = (t1, working) ∷ [];
  on_event = true;
  pipeline_progress = [];
  pipeline_start_times = [];
  pipeline_descriptions = [];
}

abbrev finished : TaskState
finished = completed_task sid 9 working

abbrev done_task : Store
done_task = record one_task { tasks = (t1, finished) ∷ [] }

abbrev pub used : TokenUsage
used = record { input = 3; output = 4; total = 7 }

abbrev said : TaskEvent
said = record { timestamp = 6; kind = sid; turn = 1; tools = []; content = sid; tokens = some used }

abbrev pub no_args : Text → Option EmailArgs
no_args raw = none

run-new_store-IsValid_example : IsValid (
    run no_args new_store (
      (1, registers t1 sid sid trigger_auto sid sid [] 0)
      ∷ (2, asks t2 sid sid sid sid sid sid 10)
      ∷ (3, cancels t1)
      ∷ (99, reaps)
      ∷ []))
run-new_store-IsValid_example = run-new_store-IsValid no_args (
    (1, registers t1 sid sid trigger_auto sid sid [] 0)
    ∷ (2, asks t2 sid sid sid sid sid sid 10)
    ∷ (3, cancels t1)
    ∷ (99, reaps)
    ∷ [])

cancel_lem_example :
    ((t : TaskState) × (find_task t1 one_task ≡ some t)
      × (t.status ≡ running)
      × ((cancel t1 8 one_task).1 ≡ true)
      × ((cancel t1 8 one_task).2 ≡ t.cancel_fn)
      × ((k : Text)
          → find_task k (cancel t1 8 one_task).0
            ≡ ite
                (text_discrete t1 k)
                (some (record t {
                  status = cancelled;
                  error = codes "cancelled by user";
                  done_at = some 8;
                }))
                (find_task k one_task)))
    ⊎ (¬ IsCancellable (find_task t1 one_task) × (cancel t1 8 one_task ≡ (one_task, false, none)))
cancel_lem_example = cancel_lem t1 8 one_task

fail-cancel_example :
    find_task t1 (fail t1 sid 9 (cancel t1 8 one_task).0) ≡ find_task t1 (cancel t1 8 one_task).0
unfolding cancel get text_discrete
fail-cancel_example = fail-cancel t1 sid 8 9 one_task refl t1
