-- ===== src/Callbacks/Delivery.antt =====
-- internal/gateway/callbacks.go and internal/pubsub/bridge.go: which callbacks are accepted, what a
-- repeated one does, and what the bridge can deliver.
use kaggen.Base.{
  ℕ, ◌≡◌, refl, ap, ◌∙◌, ◌≢◌, inl, inr, Bool, true, false, ◌&&◌, ◌||◌, not, Option, none, some, [],
  ◌∷◌, arith, Bool-cases, Option-cases, found, take, Text, codes, ◌is◌, text_key, nat_key,
  ends_with,
}
use kaggen.Tasks.{
  running, TaskState, Store, status_is, find_task, complete, fail, is_done, failed_task,
  completed_task,
}
use kaggen.Tasks.Lifecycle.{get-update_tasks}
use kaggen.Callbacks.{
  handle_interleaved, Request, Reply, accepted, body_limit, check_signature, receive, accept,
  TaskState, Store, handle_callback, rejected, status_is, find_task, settle, complete, fail,
  already, handle_message, serve_http, QueueMessage, extract_task_id, nack, missing_signature,
  posted,
}

abbrev pub is_accepted : Reply → Bool
is_accepted r = elim r [ accepted ↦ true | _ ↦ false ]

-- Whether a body bears the signature that the secret asks for.
abbrev pub is_signed : (Text → Text → Text) → Text → Request → Bool
is_signed sign secret r = elim r.body [
  | none ↦ false
  | some data' ↦ elim secret [
    | [] ↦ true
    | c ∷ cs ↦ not (r.signature is []) && r.signature is sign (c ∷ cs) (take body_limit data')
  ]
]

module _ (sign : Text → Text → Text) where
  check_signature-signed :
      (secret : Text) (r : Request) (data' : Text)
      → r.body ≡ some data'
      → found (check_signature sign secret r.signature (take body_limit data'))
        ≡ not (is_signed sign secret r)
  unfolding check_signature
  check_signature-signed [] r data' e = ground (arith, e)
  check_signature-signed (c ∷ secret) r data' e =
      elim r.signature
        as (λ sig.
          found (check_signature sign (c ∷ secret) sig (take body_limit data'))
          ≡ not (elim r.body [
            | none ↦ false
            | some data'' ↦ not (sig is []) && sig is sign (c ∷ secret) (take body_limit data'')
          ])) [ [] ↦ ground (arith, e) | d ∷ ds ↦ ground (arith, e) ]

  pub check_signature-refused :
      (secret signature body : Text) (reply : Reply)
      → check_signature sign secret signature body ≡ some reply
      → is_accepted reply ≡ false
  unfolding check_signature
  check_signature-refused [] signature body reply e = absurd (cc)
  check_signature-refused (c ∷ secret) [] body reply e = ground (arith, e)
  check_signature-refused (c ∷ secret) (d ∷ ds) body reply e = ground (arith, e)

-- A task that waits for its callback.
abbrev pub Awaits : TaskState → Type 0
Awaits t = (t.external ≡ true) × (t.status ≡ running)

abbrev pub is_waiting : Option TaskState → Bool
is_waiting none = false
is_waiting (some t) = t.external && status_is t.status running

abbrev pub secret_of : Option TaskState → Text
secret_of none = []
secret_of (some t) = t.callback_secret

module _ (sign : Text → Text → Text) (parse : Text → Text × Text) where
  receive_lem :
      (t : TaskState) (id : Text) (r : Request) (now : ℕ) (s : Store)
      → is_accepted (receive sign parse t id r now s).reply ≡ is_signed sign t.callback_secret r
  unfolding receive accept
  receive_lem t id r now s = elim (Option-cases r.body) [
    | inl none_read ↦ ground (arith, none_read)
    | inr (data', e) ↦
        let checked = check_signature-signed sign t.callback_secret r data' e in
        elim (Option-cases
          (check_signature sign t.callback_secret r.signature (take body_limit data'))) [
            | inl ok ↦ ground (arith, e, ok, checked)
            | inr (reply, bad) ↦ ground (
              arith,
              e,
              bad,
              checked,
              check_signature-refused sign t.callback_secret r.signature (take body_limit data')
                  reply bad,
            )
          ]
  ]

  -- A callback is accepted exactly if the task is known, external and running, its body can be read, and
  -- the signature is right where the task has a secret.
  pub handle_callback-accepted :
      (id : Text) (r : Request) (now : ℕ) (s : Store)
      → is_accepted (handle_callback sign parse id r now s).reply
        ≡ (is_waiting (find_task id s) && is_signed sign (secret_of (find_task id s)) r)
  unfolding handle_callback handle_interleaved
  handle_callback-accepted id r now s = elim (Option-cases (find_task id s)) [
    | inl miss ↦ ground (arith, miss)
    | inr (t, hit) ↦ ground (arith, hit, receive_lem t id r now s)
  ]

  receive-rejected :
      (t : TaskState) (id : Text) (r : Request) (now : ℕ) (s : Store)
      → is_accepted (receive sign parse t id r now s).reply ≡ false
      → receive sign parse t id r now s ≡ rejected (receive sign parse t id r now s).reply s
  unfolding receive accept
  receive-rejected t id r now s h = elim (Option-cases r.body) [
    | inl none_read ↦ ground (arith, none_read)
    | inr (data', e) ↦
        elim (Option-cases
          (check_signature sign t.callback_secret r.signature (take body_limit data'))) [
            | inl ok ↦ absurd (ground (arith, e, ok, h))
            | inr (reply, bad) ↦ ground (arith, e, bad)
          ]
  ]

  receive-accepted :
      (t : TaskState) (id : Text) (r : Request) (now : ℕ) (s : Store)
      → is_accepted (receive sign parse t id r now s).reply ≡ true
      → (data' : Text) × (r.body ≡ some data')
        × (receive sign parse t id r now s ≡ accept sign parse t id (take body_limit data') now s)
  unfolding receive
  receive-accepted t id r now s h = elim (Option-cases r.body) [
    | inl none_read ↦ absurd (ground (arith, none_read, h))
    | inr (data', e) ↦
        elim (Option-cases
          (check_signature sign t.callback_secret r.signature (take body_limit data'))) [
            | inl ok ↦ (data', e, ground (arith, e, ok))
            | inr (reply, bad) ↦ absurd (
                ground (
                  arith,
                  e,
                  bad,
                  h,
                  check_signature-refused sign t.callback_secret r.signature (take body_limit data')
                      reply bad,
                ))
          ]
  ]

  handle_callback-rejected :
      (id : Text) (r : Request) (now : ℕ) (s : Store)
      → is_accepted (handle_callback sign parse id r now s).reply ≡ false
      → handle_callback sign parse id r now s
        ≡ rejected (handle_callback sign parse id r now s).reply s
  unfolding handle_callback handle_interleaved
  handle_callback-rejected id r now s h = elim (Option-cases (find_task id s)) [
    | inl miss ↦ ground (arith, miss)
    | inr (t, hit) ↦ ground (arith, hit, h, receive-rejected t id r now s)
  ]

  -- A callback whose signature is not the one that the task's secret asks for changes no task and
  -- hands on no completion.
  pub handle_callback-unsigned :
      (id : Text) (r : Request) (now : ℕ) (s : Store)
      → is_signed sign (secret_of (find_task id s)) r ≡ false
      → ((handle_callback sign parse id r now s).store ≡ s)
        × ((handle_callback sign parse id r now s).completions ≡ [])
  handle_callback-unsigned id r now s h =
      let refused =
        handle_callback-rejected id r now s
          (ground (arith, h, handle_callback-accepted id r now s)) in
      (ap (λ o. o.store) refused, ap (λ o. o.completions) refused)

  settle-done :
      (id body : Text) (now : ℕ) (s : Store) (t : TaskState)
      → find_task id s ≡ some t
      → t.status ≡ running
      → (u : TaskState) × (find_task id (settle parse id body now s) ≡ some u)
        × (u.external ≡ t.external)
        × (is_done u.status ≡ true)
  unfolding settle find_task complete fail
  settle-done id body now s t e running_t =
      elim (Bool-cases ((parse body).0 is codes "error" || (parse body).0 is codes "failed")) [
        | inl failing ↦ (
          failed_task (parse body).1 now t,
          ground
              (arith, e, failing, get-update_tasks id id (failed_task (parse body).1 now) s.tasks),
          ground (arith, running_t),
          ground (arith, running_t),
        )
        | inr completing ↦ (
          completed_task body now t,
          ground (arith, e, completing, get-update_tasks id id (completed_task body now) s.tasks),
          refl,
          refl,
        )
      ]

  waiting-found :
      (id : Text) (s : Store)
      → is_waiting (find_task id s) ≡ true
      → (t : TaskState) × (find_task id s ≡ some t) × Awaits t
  waiting-found id s h = elim (Option-cases (find_task id s)) [
    | inl miss ↦ absurd (ground (arith, miss, h))
    | inr (t, hit) ↦ (t, hit, (ground (arith, hit, h), ground (arith, hit, h)))
  ]

  waiting-receives :
      (id : Text) (r : Request) (now : ℕ) (s : Store) (t : TaskState)
      → find_task id s ≡ some t
      → Awaits t
      → handle_callback sign parse id r now s ≡ receive sign parse t id r now s
  unfolding handle_callback handle_interleaved
  waiting-receives id r now s t hit w = ground (arith, hit, w.0, w.1)

  -- What an accepted callback leaves: the task is done and still external.
  accepted-done :
      (id : Text) (r : Request) (now : ℕ) (s : Store)
      → (handle_callback sign parse id r now s).reply ≡ accepted
      → (u : TaskState) × (find_task id (handle_callback sign parse id r now s).store ≡ some u)
        × (u.external ≡ true)
        × (is_done u.status ≡ true)
  unfolding accept
  accepted-done id r now s h =
      let ok : is_accepted (handle_callback sign parse id r now s).reply ≡ true = rw h refl in
      let waits = handle_callback-accepted id r now s in
      let (t, hit, w) = waiting-found id s (ground (arith, waits, ok)) in
      let receives = waiting-receives id r now s t hit w in
      let (data', read, taken) = receive-accepted t id r now s (rw⁻¹ receives ok) in
      let (u, at, same, done) = settle-done id (take body_limit data') now s t hit w.1 in
      (u, rw (receives, taken) at, same ∙ w.0, done)

  done-conflict :
      (id : Text) (r : Request) (now : ℕ) (s : Store) (u : TaskState)
      → find_task id s ≡ some u
      → u.external ≡ true
      → is_done u.status ≡ true
      → handle_callback sign parse id r now s ≡ rejected (already u.status) s
  unfolding handle_callback handle_interleaved
  done-conflict id r now s u hit external_u done = ground (arith, hit, external_u, done)

  unsigned-refused :
      (secret body : Text)
      → secret ≢ []
      → check_signature sign secret [] body ≡ some missing_signature
  unfolding check_signature
  unsigned-refused [] body h = absurd (h refl)
  unsigned-refused (c ∷ secret) body h = refl

  posted-refused :
      (m : QueueMessage) (c : ℕ) (id : Text) (now : ℕ) (s : Store)
      → ends_with (c ∷ id) (codes "/status") ≡ false
      → is_waiting (find_task (c ∷ id) s) ≡ true
      → secret_of (find_task (c ∷ id) s) ≢ []
      → serve_http sign parse (posted (c ∷ id) m) now s ≡ rejected missing_signature s
  unfolding serve_http handle_callback handle_interleaved receive
  posted-refused m c id now s plain waits secret =
      let (t, hit, (external_t, running_t)) = waiting-found (c ∷ id) s waits in
      let unsigned =
        unsigned-refused t.callback_secret (take body_limit m.payload)
          (λ e. secret (ground (arith, hit, e))) in
      ground (arith, plain, hit, external_t, running_t, unsigned)

module _ (sign : Text → Text → Text) (parse : Text → Text × Text) (parse_id : Text → Text) where
  -- The bridge sends no signature: a message for a task that waits for its callback and has a secret
  -- changes nothing and is given back to the queue. The id is neither empty nor ends in "/status".
  pub handle_message-secret :
      (reached : Bool) (m : QueueMessage) (id : Text) (now : ℕ) (s : Store)
      → extract_task_id parse_id m ≡ id
      → id ≢ []
      → ends_with id (codes "/status") ≡ false
      → is_waiting (find_task id s) ≡ true
      → secret_of (find_task id s) ≢ []
      → ((handle_message sign parse parse_id reached m now s).1 ≡ nack)
        × ((handle_message sign parse parse_id reached m now s).0.store ≡ s)
  unfolding handle_message
  handle_message-secret reached m [] now s e some_id plain waits secret = absurd (some_id refl)
  handle_message-secret false m (c ∷ id) now s e some_id plain waits secret =
      rw (handle_message, e) (refl, refl)
  handle_message-secret true m (c ∷ id) now s e some_id plain waits secret =
      rw (handle_message, e, posted-refused sign parse m c id now s plain waits secret) (refl, refl)
