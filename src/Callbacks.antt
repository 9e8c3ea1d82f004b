-- ===== src/Callbacks.antt =====
-- internal/gateway/callbacks.go: the HTTP handler that completes external tasks, and
-- internal/pubsub/bridge.go: the bridge that posts queue messages to it. Parameters: `sign`, the
-- hexadecimal HMAC of a body under a secret; `parse`, the status and the error that the JSON body gives
-- (empty where the body has none or is no JSON); `parse_id`, the task id in a message's JSON body. A task
-- id is taken to need no escaping in a URL.
pub mod Delivery
pub mod Repeats
use kaggen.Base.{
  ℕ, zero, suc, ◌+◌, ◌-◌, ◌*◌, ◌/◌, ◌%◌, ◌≤◌, ◌<◌, ◌≡◌, refl, sym, ap, ◌∙◌, ◌≢◌, ◌↔◌, ◌⊎◌, inl, inr,
  ite, Bool, true, false, ◌&&◌, ◌||◌, not, Option, none, some, List, [], ◌∷◌, ◌++◌, map, arith,
  dec_lt, ℕ_discrete, ltb, leb, ◌==◌, if◌then◌else◌, Bool-cases, Option-cases, found, length, take,
  drop, get_elem?, select, last_n, All, length-append, length-take, length-drop, take-append-drop,
  length-select-le, select-append, select_idem, Text, codes, text_discrete, ◌is◌, starts_with, Key,
  text_key, nat_key, Map, keep_if, get, put, del, Unique, get-put, get-del, put-Unique, del-Unique,
  values_where, del_where, map_values, get-map_values, get-del_where-none, get-del_where-some,
  del_where-Unique, map_values-Unique, values_where-del_where, contains, lower_code, to_lower,
  contains-append, contains_later, contains_earlier, join, decimal, last_n-append, length-last_n,
  last_n-last_n, ends_with, trim_prefix, trim_suffix, is_refl,
}
use kaggen.Tasks.{running, Store, TaskState, TaskStatus, fail, find_task, complete, status_is}

pub record Request : Type 0 where
  pub is_post : Bool
  pub is_get : Bool
  pub path : Text
  pub body : Option Text
  pub signature : Text

pub data Reply : Type 0 where
  missing_id not_allowed unknown_task not_external unreadable missing_signature invalid_signature :
      Reply
  already : TaskStatus → Reply
  accepted : Reply
  status_of : TaskState → Reply

abbrev pub status_code : Reply → ℕ
status_code missing_id = 400
status_code not_allowed = 405
status_code unknown_task = 404
status_code not_external = 400
status_code unreadable = 400
status_code missing_signature = 401
status_code invalid_signature = 403
status_code (already status) = 409
status_code accepted = 200
status_code (status_of t) = 200

-- What is handed to `InjectCompletion`.
pub record Completion : Type 0 where
  pub session_id : Text
  pub user_id : Text
  pub task_id : Text
  pub agent_name : Text
  pub result : Text

-- The store after a request, the reply, and the completions handed on.
pub record Outcome : Type 0 where
  pub store : Store
  pub reply : Reply
  pub completions : List Completion

abbrev pub rejected : Reply → Store → Outcome
rejected reply s = record { store = s; reply = reply; completions = [] }

-- 1 MB; the rest of a longer body is not read.
abbrev pub body_limit : ℕ
body_limit = 1048576

abbrev pub or_external : Text → Text
or_external [] = codes "external"
or_external (c ∷ name) = c ∷ name

module _ (sign : Text → Text → Text) where
  -- The reply to a wrong signature; none where the signature is right or no secret is set.
  unfoldable pub check_signature : Text → Text → Text → Option Reply
  check_signature [] signature body = none
  check_signature (c ∷ secret) [] body = some missing_signature
  check_signature (c ∷ secret) (d ∷ signature) body =
      if (d ∷ signature) is sign (c ∷ secret) body then none else some invalid_signature

module _ (parse : Text → Text × Text) where
  unfoldable pub settle : Text → Text → ℕ → Store → Store
  settle id body now s =
      let (status, error) = parse body in
      if status is codes "error" || status is codes "failed"
      then fail id error now s
      else complete id body now s

module _ (sign : Text → Text → Text) (parse : Text → Text × Text) where
  unfoldable pub accept : TaskState → Text → Text → ℕ → Store → Outcome
  accept t id body now s = record {
    store = settle parse id body now s;
    reply = accepted;
    completions =
        record {
          session_id = t.session_id;
          user_id = t.user_id;
          task_id = id;
          agent_name = or_external t.agent_name;
          result = body;
        }
        ∷ [];
  }

  unfoldable pub receive : TaskState → Text → Request → ℕ → Store → Outcome
  receive t id r now s = elim r.body [
    | none ↦ rejected unreadable s
    | some data' ↦
        let body = take body_limit data' in
        elim (check_signature sign t.callback_secret r.signature body) [
          | some reply ↦ rejected reply s
          | none ↦ accept t id body now s
        ]
  ]

  -- The task is read at the start and settled at the end, and no lock is held in between: the store is
  -- `before` when the task is read and `after` when it is settled.
  unfoldable pub handle_interleaved : Text → Request → ℕ → Store → Store → Outcome
  handle_interleaved id r now before after = elim (find_task id before) [
    | none ↦ rejected unknown_task after
    | some t ↦
        if not t.external
        then rejected not_external after
        else if not (status_is t.status running)
        then rejected (already t.status) after
        else receive t id r now after
  ]

  -- A callback that no other call comes in between of.
  unfoldable pub handle_callback : Text → Request → ℕ → Store → Outcome
  unfolding handle_interleaved
  handle_callback id r now s = handle_interleaved id r now s s

  unfoldable pub handle_status : Text → Request → Store → Outcome
  handle_status id r s = if not r.is_get then rejected not_allowed s else elim (find_task id s) [
    | none ↦ rejected unknown_task s
    | some t ↦ rejected (status_of t) s
  ]

  pub serve_http : Request → ℕ → Store → Outcome
  serve_http r now s = elim (trim_prefix r.path (codes "/callbacks/")) [
    | [] ↦ rejected missing_id s
    | c ∷ rest ↦
        if ends_with (c ∷ rest) (codes "/status")
        then handle_status (trim_suffix (c ∷ rest) (codes "/status")) r s
        else if not r.is_post
        then rejected not_allowed s
        else handle_callback (c ∷ rest) r now s
  ]

-- A message of the queue: its attribute `task_id`, and its data.
pub record QueueMessage : Type 0 where
  pub attribute : Option Text
  pub payload : Text

pub data Verdict : Type 0 where
  ack nack : Verdict

abbrev pub or_text : Text → Text → Text
or_text [] other = other
or_text (c ∷ s) other = c ∷ s

abbrev pub attribute_of : Option Text → Text
attribute_of none = []
attribute_of (some id) = id

abbrev pub extract_task_id : (Text → Text) → QueueMessage → Text
extract_task_id parse_id m = or_text (attribute_of m.attribute) (parse_id m.payload)

-- The request that the bridge posts: it has no signature.
abbrev pub posted : Text → QueueMessage → Request
posted id m = record {
  is_post = true;
  is_get = false;
  path = codes "/callbacks/" ++ id;
  body = some m.payload;
  signature = [];
}

abbrev pub verdict : ℕ → Verdict
verdict code = if code == 200 || code == 404 || code == 409 then ack else nack

module _ (sign : Text → Text → Text) (parse : Text → Text × Text) (parse_id : Text → Text) where
  -- `reached` is false where the request fails.
  pub handle_message : Bool → QueueMessage → ℕ → Store → Outcome × Verdict
  handle_message reached m now s = elim (extract_task_id parse_id m) [
    | [] ↦ (rejected missing_id s, ack)
    | c ∷ id ↦
        if not reached
        then (rejected missing_id s, nack)
        else (let o = serve_http sign parse (posted (c ∷ id) m) now s in
            (o, verdict (status_code o.reply)))
  ]
