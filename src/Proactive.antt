-- ===== src/Proactive.antt =====
-- internal/proactive/engine.go and history.go: the run of a job with its retries, the counters, the
-- history of runs, and the check of a webhook. What one attempt meets, the answers of the handler, its
-- error, the clock and whether the engine is stopped, is an argument. Parameters: `hmac`, the HMAC of a
-- body under a secret; `unhex`, the decoding of a hexadecimal text. That sending to a channel succeeds,
-- and that a row of the history can be written, is part of the argument as well.
pub mod Retries
use Prim.Native.Nat.{◌^◌}
use kaggen.Base.{
  ℕ, zero, suc, ◌+◌, ◌-◌, ◌*◌, ◌/◌, ◌%◌, ◌≤◌, ◌<◌, ◌≡◌, refl, sym, ap, ◌∙◌, ◌≢◌, ◌↔◌, ◌⊎◌, inl, inr,
  ite, Bool, true, false, ◌&&◌, ◌||◌, not, Option, none, some, List, [], ◌∷◌, ◌++◌, map, arith,
  dec_lt, ℕ_discrete, ltb, leb, ◌==◌, if◌then◌else◌, Bool-cases, Option-cases, found, length, take,
  drop, get_elem?, select, last_n, All, length-append, length-take, length-drop, take-append-drop,
  length-select-le, select-append, select_idem, Text, codes, text_discrete, ◌is◌, starts_with, Key,
  text_key, nat_key, Map, keep_if, get, put, del, Unique, get-put, get-del, put-Unique, del-Unique,
  values_where, del_where, map_values, get-map_values, get-del_where-none, get-del_where-some,
  del_where-Unique, map_values-Unique, values_where-del_where, contains, lower_code, to_lower,
  contains-append, contains_later, contains_earlier, join, decimal, last_n-append, length-last_n,
  last_n-last_n, ends_with, trim_prefix, trim_suffix,
}

pub data Outcome : Type 0 where
  success failure timeout : Outcome

pub record JobRun : Type 0 where
  pub id : ℕ
  pub job_name : Text
  pub job_type : Text
  pub started_at : ℕ
  pub duration : ℕ
  pub status : Outcome
  pub error : Text
  pub attempt : ℕ

pub record Response : Type 0 where
  pub content : Text
  pub kind : Text
  pub done : Bool

pub record Job : Type 0 where
  pub name : Text
  pub job_type : Text
  pub channel : Text
  pub heartbeat : Bool
  pub max_retries : ℕ

-- The history is none where tracking is off; the rows stand in the order of their ids.
pub record Engine : Type 0 where
  pub channels : List Text
  pub history : Option (List JobRun)
  pub jobs_executed : ℕ
  pub jobs_failed : ℕ
  pub jobs_retried : ℕ
  pub jobs_timed_out : ℕ
  pub sent : List (Text × Response)

-- What one attempt meets. `stopped_waiting` and `stopped` say whether the engine is stopped in the wait
-- before the attempt, and by its end.
pub record Attempt : Type 0 where
  pub responses : List Response
  pub error : Option Text
  pub deadline : Bool
  pub started_at : ℕ
  pub duration : ℕ
  pub recorded : Bool
  pub stopped_waiting : Bool
  pub stopped : Bool

abbrev pub is_channel : Text → List Text → Bool
is_channel c [] = false
is_channel c (d ∷ ds) = d is c || is_channel c ds

abbrev is_blank : Text → Bool
is_blank [] = true
is_blank (c ∷ s) = (c == 32 || leb 9 c && leb c 13) && is_blank s

-- The content of the last final answer that has any.
abbrev pub final_content : Text → List Response → Text
final_content last [] = last
final_content last (r ∷ rs) =
    final_content (if r.done && not (r.content is []) then r.content else last) rs

-- What the callback sends while the handler runs.
abbrev pub is_sent : Bool → Response → Bool
is_sent heartbeat r = not heartbeat && r.kind is codes "done" && not (r.content is [])

abbrev pub to_channel : Text → List Response → List (Text × Response)
to_channel c rs = map (λ r. (c, r)) rs

abbrev pub heartbeat_response : Text → Response
heartbeat_response content = record { content = content; kind = codes "done"; done = true }

abbrev pub heartbeats : Bool → Text → List Response
heartbeats heartbeat content =
    if heartbeat && not (is_blank content) then heartbeat_response content ∷ [] else []

abbrev pub outcome : Option Text → Bool → Outcome
outcome none deadline = success
outcome (some e) deadline = if deadline then timeout else failure

abbrev pub error_text : Option Text → Text
error_text none = []
error_text (some e) = e

abbrev pub record_run : JobRun → Bool → Option (List JobRun) → Option (List JobRun)
record_run r false rows = rows
record_run r true none = none
record_run r true (some rows) = some (rows ++ (record r { id = suc (length rows) } ∷ []))

abbrev pub counted : Outcome → Engine → Engine
counted success e = record e { jobs_executed = e.jobs_executed + 1 }
counted failure e = record e { jobs_failed = e.jobs_failed + 1 }
counted timeout e = record e {
  jobs_failed = e.jobs_failed + 1;
  jobs_timed_out = e.jobs_timed_out + 1;
}

abbrev pub sends : Job → Attempt → List Response
sends j a =
    select (is_sent j.heartbeat) a.responses
    ++ (if found a.error then [] else heartbeats j.heartbeat (final_content [] a.responses))

-- One attempt: the new engine, and whether it succeeded. A job of an unknown channel fails before
-- anything is counted or recorded.
unfoldable pub execute : Job → ℕ → Attempt → Engine → Engine × Bool
execute j number a e = if not (is_channel j.channel e.channels) then (e, false) else (
  record after {
    history = record_run run a.recorded e.history;
    sent = e.sent ++ to_channel j.channel (sends j a);
  },
  not (found a.error),
)
  where
    run : JobRun
    run = record {
      id = 0;
      job_name = j.name;
      job_type = j.job_type;
      started_at = a.started_at;
      duration = a.duration;
      status = outcome a.error a.deadline;
      error = error_text a.error;
      attempt = number;
    }

    after : Engine
    after = counted (outcome a.error a.deadline) e

-- `time.Duration(1<<uint(attempt-1)) * time.Second`, in 64 bits; a negative wait is none.
abbrev pub backoff : ℕ → ℕ
backoff attempt =
    let wrapped = 2 ^ (attempt - 1) * 1000000000 % 2 ^ 64 in
    if ltb wrapped (2 ^ 63) then wrapped else 0

module _ (world : ℕ → Attempt) where
  -- The loop from an attempt on; `left` are the attempts that are left.
  unfoldable pub retry : Job → ℕ → ℕ → Engine → Engine
  retry j zero attempt e = e
  retry j (suc left) attempt e =
      let waited = if ltb 0 attempt then record e { jobs_retried = e.jobs_retried + 1 } else e in
      let (after, ok) = execute j (attempt + 1) (world attempt) waited in
      let rest = retry j left (attempt + 1) after in
      if ltb 0 attempt && (world attempt).stopped_waiting
      then waited
      else if ok || (world attempt).stopped
      then after
      else rest

  unfoldable pub execute_with_retry : Job → Engine → Engine
  execute_with_retry j e = retry j (suc j.max_retries) 0 e

abbrev pub newest_first : List JobRun → List JobRun → List JobRun
newest_first acc [] = acc
newest_first acc (r ∷ rs) = newest_first (r ∷ acc) rs

-- The last runs, of one job where a name is given; 20 where no limit is.
pub query : Text → ℕ → List JobRun → List JobRun
query name limit rows =
    take (if limit == 0 then 20 else limit)
      (select (λ r. name is [] || r.job_name is name) (newest_first [] rows))

module _ (hmac : Text → Text → Text) (unhex : Text → Option Text) where
  unfoldable pub verify_hmac : Text → Text → Text → Bool
  verify_hmac secret body signature =
      let sig = trim_prefix signature (codes "sha256=") in
      if sig is [] || sig is signature
      then false
      else elim (unhex sig) [ none ↦ false | some mac ↦ hmac secret body is mac ]

  -- The status of the answer; 202 starts the job.
  pub receive_webhook : Text → Bool → Text → Text → ℕ
  receive_webhook secret is_post body signature =
      if not is_post
      then 405
      else if not (secret is []) && not (verify_hmac secret (take 65536 body) signature)
      then 403
      else 202
