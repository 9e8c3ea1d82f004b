-- ===== src/Tasks/Lifecycle.antt =====
-- The invariant of the in-flight store, over every history of its methods.
use mathlib.Core.Option
use kaggen.Base.{
  ℕ, ◌≡◌, inl, inr, ite, Bool, true, Option, some, List, [], ◌∷◌, arith, Bool-cases, Option-cases,
  found, Text, text_discrete, text_key, nat_key, Map, get, put, Unique, get-put, put-Unique,
  get-map_values, get-del_where-none, get-del_where-some, del_where-Unique, map_values-Unique,
}
use kaggen.Tasks.{
  TaskState, pending_approval, TaskEvent, Store, EmailArgs, new_store, update_tasks,
  update_description, set_event_callback, register, add_event, append_event, add_token_usage,
  complete, fail, failed_task, is_done, queued_results, is_queued_result, set_cancel_func, cancel,
  cancelled_task,
}
use kaggen.Tasks.External.{register_approval, register_external, reap_task, reap_expired_external}

-- A task stands under its own id, has an end time exactly when it is done, and while it waits for
-- an approval it holds the request and is open to the reaper.
pub record Coherent (k : Text) (t : TaskState) : Type 0 where
  pub named : t.id ≡ k
  pub ended : found t.done_at ≡ is_done t.status
  pub requested : t.status ≡ pending_approval → found t.approval_request ≡ true
  pub reaped : t.status ≡ pending_approval → t.external ≡ true

abbrev pub AllCoherent : Map Text TaskState → Type 0
AllCoherent m = (k : Text) (t : TaskState) → get k m ≡ some t → Coherent k t

pub record IsValid (s : Store) : Type 0 where
  pub unique : Unique s.tasks
  pub coherent : AllCoherent s.tasks

-- One call of a method that changes the tasks. `Get` and `List` change nothing.
pub data Call : Type 0 where
  registers : Text → Text → Text → Text → Text → Text → Text → ℕ → Call
  describes : Text → Text → Call
  records : Text → TaskEvent → Call
  charges : Text → ℕ → ℕ → ℕ → Call
  completes fails : Text → Text → Call
  sets_cancel : Text → ℕ → Call
  cancels : Text → Call
  asks : Text → Text → Text → Text → Text → Text → Text → ℕ → Call
  outsources : Text → Text → Text → Text → Text → Text → ℕ → Call
  reaps drains : Call
  listens : Bool → Call

module _ (unmarshal : Text → Option EmailArgs) where
  unfoldable pub step : Store → ℕ × Call → Store
  unfolding add_event cancel reap_expired_external queued_results
  step s (now, registers id agent task policy sid uid pipeline stage) =
      register id agent task policy sid uid pipeline stage now s
  step s (now, describes id task) = update_description id task s
  step s (now, records id evt) = (add_event id evt s).0
  step s (now, charges id input output total) = add_token_usage id input output total s
  step s (now, completes id result) = complete id result now s
  step s (now, fails id message) = fail id message now s
  step s (now, sets_cancel id context) = set_cancel_func id context s
  step s (now, cancels id) = (cancel id now s).0
  step s (now, asks id skill tool args description sid uid timeout) =
      register_approval unmarshal id skill tool args description sid uid timeout now s
  step s (now, outsources id name secret policy sid uid timeout) =
      register_external id name secret policy sid uid timeout now s
  step s (now, reaps) = (reap_expired_external now s).0
  step s (now, drains) = (queued_results s).0
  step s (now, listens given) = set_event_callback given s

  unfoldable pub run : Store → List (ℕ × Call) → Store
  run s [] = s
  run s (c ∷ cs) = run (step s c) cs

pub get-update_tasks :
    (j k : Text) (f : TaskState → TaskState) (m : Map Text TaskState)
    → get j (update_tasks k f m) ≡ ite (text_discrete k j) (Option.map f (get k m)) (get j m)
unfolding update_tasks
get-update_tasks j k f m = elim (Option-cases (get k m)) [
  | inl e ↦ ground (arith, e)
  | inr (t, e) ↦ ground (arith, e, get-put k j (f t) m)
]

put-AllCoherent :
    (k : Text) (t : TaskState) (m : Map Text TaskState)
    → Coherent k t
    → AllCoherent m
    → AllCoherent (put k t m)
put-AllCoherent k t m c h j u e = ground (arith, get-put k j t m, h j u)

put-IsValid :
    (k : Text) (t : TaskState) (s : Store)
    → Coherent k t
    → IsValid s
    → IsValid (record s { tasks = put k t s.tasks })
put-IsValid k t s c v = record {
  unique = put-Unique k t s.tasks v.unique;
  coherent = put-AllCoherent k t s.tasks c v.coherent;
}

update_task-IsValid :
    (k : Text) (f : TaskState → TaskState) (s : Store)
    → ((t : TaskState) → Coherent k t → Coherent k (f t))
    → IsValid s
    → IsValid (record s { tasks = update_tasks k f s.tasks })
unfolding update_tasks
update_task-IsValid k f s keep v = elim (Option-cases (get k s.tasks)) [
  | inl e ↦ rw (e, update_tasks) v
  | inr (t, e) ↦ rw (e, update_tasks) (put-IsValid k (f t) s (keep t (v.coherent k t e)) v)
]

failed_task-Coherent :
    (k message : Text) (now : ℕ) (t : TaskState)
    → Coherent k t
    → Coherent k (failed_task message now t)
failed_task-Coherent k message now t c = ground arith

reap_task-Coherent :
    (k : Text) (now : ℕ) (t : TaskState) → Coherent k t → Coherent k (reap_task now t)
reap_task-Coherent k now t c = ground arith

add_event-IsValid :
    (k : Text) (evt : TaskEvent) (s : Store) → IsValid s → IsValid (add_event k evt s).0
unfolding add_event append_event
add_event-IsValid k evt s v = elim (Option-cases (get k s.tasks)) [
  | inl e ↦ rw (e, add_event) v
  | inr (t, e) ↦
      let c = v.coherent k t e in
      rw (e, add_event)
        (put-IsValid k (append_event evt t) s
          (record { named = c.named; ended = c.ended; requested = c.requested; reaped = c.reaped })
          v)
]

cancel-IsValid : (k : Text) (now : ℕ) (s : Store) → IsValid s → IsValid (cancel k now s).0
unfolding cancel
cancel-IsValid k now s v = elim (Option-cases (get k s.tasks)) [
  | inl e ↦ rw (e, cancel) v
  | inr (t, e) ↦ ground (arith, e, v.coherent k t, put-IsValid k (cancelled_task now t) s)
]

reap-IsValid : (now : ℕ) (s : Store) → IsValid s → IsValid (reap_expired_external now s).0
unfolding reap_expired_external
reap-IsValid now s v = record {
  unique = map_values-Unique (reap_task now) s.tasks v.unique;
  coherent = λ k u e. elim (Option-cases (get k s.tasks)) [
    | inl miss ↦ ground (arith, get-map_values k (reap_task now) s.tasks)
    | inr (t, hit) ↦
        let same : u ≡ reap_task now t = ground (arith, get-map_values k (reap_task now) s.tasks) in
        rw same (reap_task-Coherent k now t (v.coherent k t hit))
  ];
}

queued_results-IsValid : (s : Store) → IsValid s → IsValid (queued_results s).0
unfolding queued_results
queued_results-IsValid s v = record {
  unique = del_where-Unique is_queued_result s.tasks v.unique;
  coherent = λ k u e. elim (Option-cases (get k s.tasks)) [
    | inl miss ↦ ground (arith, get-del_where-none k is_queued_result s.tasks)
    | inr (t, hit) ↦
        let rest = get-del_where-some k is_queued_result s.tasks t v.unique hit in
        elim (Bool-cases (is_queued_result t)) [
          | inl gone ↦ ground (arith, rest, gone)
          | inr kept ↦ let same : u ≡ t = ground (arith, rest, kept) in rw same (v.coherent k t hit)
        ]
  ];
}

module _ (unmarshal : Text → Option EmailArgs) where
  -- Every method keeps the invariant: ids match their keys and occur once, a task has an end time
  -- exactly when it is completed, failed or cancelled, and a task that waits for approval holds its
  -- request and can time out.
  pub step-IsValid : (s : Store) (c : ℕ × Call) → IsValid s → IsValid (step unmarshal s c)
  unfolding step register update_description set_event_callback add_token_usage complete fail
      set_cancel_func register_approval register_external
  step-IsValid s (now, registers id agent task policy sid uid pipeline stage) v =
      put-IsValid id _ s (ground arith) v
  step-IsValid s (now, describes id task) v = update_task-IsValid id _ s (λ t c. ground arith) v
  step-IsValid s (now, records id evt) v = add_event-IsValid id evt s v
  step-IsValid s (now, charges id input output total) v =
      update_task-IsValid id _ s (λ t c. ground arith) v
  step-IsValid s (now, completes id result) v = update_task-IsValid id _ s (λ t c. ground arith) v
  step-IsValid s (now, fails id message) v =
      update_task-IsValid id _ s (λ t c. failed_task-Coherent id message now t c) v
  step-IsValid s (now, sets_cancel id context) v =
      update_task-IsValid id _ s (λ t c. ground arith) v
  step-IsValid s (now, cancels id) v = cancel-IsValid id now s v
  step-IsValid s (now, asks id skill tool args description sid uid timeout) v =
      put-IsValid id _ s (ground arith) v
  step-IsValid s (now, outsources id name secret policy sid uid timeout) v =
      put-IsValid id _ s (ground arith) v
  step-IsValid s (now, reaps) v = reap-IsValid now s v
  step-IsValid s (now, drains) v = queued_results-IsValid s v
  step-IsValid s (now, listens given) v = ground arith

  run-IsValid : (s : Store) (cs : List (ℕ × Call)) → IsValid s → IsValid (run unmarshal s cs)
  unfolding run
  run-IsValid s [] v = v
  run-IsValid s (c ∷ cs) v = run-IsValid (step unmarshal s c) cs (step-IsValid s c v)

  -- After any sequence of calls on a new store no id stands twice, and each task stands under its own
  -- id, has an end time exactly when it is done, and while it waits for an approval it holds the request
  -- and is open to the reaper.
  pub run-new_store-IsValid : (cs : List (ℕ × Call)) → IsValid (run unmarshal new_store cs)
  unfolding new_store get
  run-new_store-IsValid cs =
      run-IsValid new_store cs (record { unique = tt; coherent = λ k t e. ground arith })
