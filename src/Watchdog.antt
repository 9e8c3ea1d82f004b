-- ===== src/Watchdog.antt =====
-- internal/agent/watchdog.go: the scan for tasks that run too long. internal/agent/async_status.go,
-- cancel_task.go and pipeline_status.go, the tools that show the in-flight store, are in
-- Watchdog/Status.antt. The map of the tasks that were alerted holds true for each.
pub mod Alerts
pub mod Status
use kaggen.Base.{
  ℕ, zero, suc, ◌+◌, ◌-◌, ◌*◌, ◌/◌, ◌%◌, ◌≤◌, ◌<◌, ◌≡◌, refl, sym, ap, ◌∙◌, ◌≢◌, ◌↔◌, ◌⊎◌, inl, inr,
  ite, Bool, true, false, ◌&&◌, ◌||◌, not, Option, none, some, List, [], ◌∷◌, ◌++◌, map, arith,
  dec_lt, ℕ_discrete, ltb, leb, ◌==◌, if◌then◌else◌, Bool-cases, Option-cases, found, length, take,
  drop, get_elem?, select, last_n, All, length-append, length-take, length-drop, take-append-drop,
  length-select-le, select-append, select_idem, Text, codes, text_discrete, ◌is◌, starts_with, Key,
  text_key, nat_key, Map, keep_if, get, put, del, Unique, get-put, get-del, put-Unique, del-Unique,
  values_where, del_where, map_values, get-map_values, get-del_where-none, get-del_where-some,
  del_where-Unique, map_values-Unique, values_where-del_where, contains, lower_code, to_lower,
  contains-append, contains_later, contains_earlier, join, decimal, last_n-append, length-last_n,
  last_n-last_n, ends_with, trim_prefix, trim_suffix, is_refl,
}
use kaggen.Tasks.{running, Store, TaskState, find_task, list_tasks, status_is}

pub record Alert : Type 0 where
  pub task : TaskState
  pub duration : ℕ

abbrev pub ran_for : ℕ → TaskState → ℕ
ran_for now t = now - t.started_at

-- Over the threshold and not alerted yet.
abbrev pub is_stale : ℕ → ℕ → Map Text Bool → TaskState → Bool
is_stale threshold now alerted t = ltb threshold (ran_for now t) && not (found (get t.id alerted))

unfoldable pub scan : ℕ → ℕ → List TaskState → Map Text Bool → Map Text Bool × List Alert
scan threshold now [] alerted = (alerted, [])
scan threshold now (t ∷ ts) alerted =
    let quiet = scan threshold now ts alerted in
    let loud = scan threshold now ts (put t.id true alerted) in
    if is_stale threshold now alerted t
    then (loud.0, record { task = t; duration = ran_for now t } ∷ loud.1)
    else quiet

abbrev pub is_running : Option TaskState → Bool
is_running none = false
is_running (some t) = status_is t.status running

-- The alerts of tasks that do not run any more are forgotten.
unfoldable pub forget : Store → Map Text Bool → Map Text Bool
forget s [] = []
forget s ((id, b) ∷ m) = if is_running (find_task id s) then (id, b) ∷ forget s m else forget s m

-- One tick: what is alerted afterwards, and the alerts.
unfoldable pub sweep : ℕ → ℕ → Store → Map Text Bool → Map Text Bool × List Alert
sweep threshold now s alerted =
    let scanned = scan threshold now (list_tasks (some running) s) alerted in
    (forget s scanned.0, scanned.1)
