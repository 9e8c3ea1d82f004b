-- ===== src/Watchdog/Alerts.antt =====
-- internal/agent/watchdog.go: a task is alerted once while it runs.
use kaggen.Base.{
  ℕ, ◌+◌, ◌≤◌, ◌≡◌, inl, inr, Bool, true, false, some, List, [], ◌∷◌, arith, if◌then◌else◌,
  Bool-cases, found, All, Text, text_discrete, ◌is◌, text_key, nat_key, Map, get, put, get-put,
}
use kaggen.Watchdog.{Alert, scan, is_stale, forget, sweep, is_running}
use kaggen.Tasks.{running, TaskState, Store, find_task, list_tasks}

-- How often an id is among those of the alerts.
unfoldable pub times_alerted : Text → List Alert → ℕ
times_alerted id [] = 0
times_alerted id (a ∷ alerts) =
    if a.task.id is id then times_alerted id alerts + 1 else times_alerted id alerts

-- The ticks of the watchdog: the time of each, and what the store holds then.
unfoldable pub times_over : Text → ℕ → List (ℕ × Store) → Map Text Bool → ℕ
times_over id threshold [] m = 0
times_over id threshold ((now, s) ∷ ticks) m =
    times_alerted id (sweep threshold now s m).1
    + times_over id threshold ticks (sweep threshold now s m).0

abbrev mark : Text → Map Text Bool → ℕ
mark id m = if found (get id m) then 1 else 0

-- Each alert marks its task, and a task that is marked gives none.
scan-mark :
    (threshold now : ℕ) (ts : List TaskState) (m : Map Text Bool) (id : Text)
    → mark id m + times_alerted id (scan threshold now ts m).1 ≤ mark id (scan threshold now ts m).0
unfolding scan times_alerted
scan-mark threshold now [] m id = omega arith
scan-mark threshold now (t ∷ ts) m id =
    let loud = scan-mark threshold now ts (put t.id true m) id in
    let quiet = scan-mark threshold now ts m id in
    elim (Bool-cases (is_stale threshold now m t)) [
      | inl stale ↦ elim (text_discrete t.id id) [
        | yes same ↦
            let fresh : found (get id m) ≡ false = ground (arith, stale, same) in
            ground (arith, stale, same, fresh, loud, get-put t.id id true m)
        | no apart ↦ ground (arith, stale, apart, loud, get-put t.id id true m)
      ]
      | inr fine ↦ ground (arith, fine, quiet)
    ]

forget-kept :
    (s : Store) (m : Map Text Bool) (id : Text)
    → is_running (find_task id s) ≡ true
    → mark id m ≤ mark id (forget s m)
unfolding forget get
forget-kept s [] id r = omega arith
forget-kept s ((j, b) ∷ m) id r = elim (text_discrete j id) [
  | yes same ↦ ground (arith, same, r)
  | no apart ↦ ground (arith, apart, r, forget-kept s m id r)
]

sweep-mark :
    (threshold now : ℕ) (s : Store) (m : Map Text Bool) (id : Text)
    → is_running (find_task id s) ≡ true
    → mark id m + times_alerted id (sweep threshold now s m).1 ≤ mark id (sweep threshold now s m).0
unfolding sweep
sweep-mark threshold now s m id r =
    let scanned = scan threshold now (list_tasks (some running) s) m in
    omega (
      arith,
      scan-mark threshold now (list_tasks (some running) s) m id,
      forget-kept s scanned.0 id r,
    )

abbrev pub RunsThrough : Text → List (ℕ × Store) → Type 0
RunsThrough id ticks = All (λ tick. is_running (find_task id tick.1) ≡ true) ticks

mark-times_over :
    (id : Text) (threshold : ℕ) (ticks : List (ℕ × Store)) (m : Map Text Bool)
    → RunsThrough id ticks
    → mark id m + times_over id threshold ticks m ≤ 1
unfolding times_over
mark-times_over id threshold [] m r = ground arith
mark-times_over id threshold ((now, s) ∷ ticks) m r = omega (
  arith,
  sweep-mark threshold now s m id r.0,
  mark-times_over id threshold ticks (sweep threshold now s m).0 r.1,
)

-- Over any ticks of the watchdog, however the store changes from one to the next and whatever was
-- alerted before, a task that runs at each of them is alerted at most once in all. Within a tick the
-- store is taken not to change.
pub times_over-sweep :
    (id : Text) (threshold : ℕ) (ticks : List (ℕ × Store)) (m : Map Text Bool)
    → RunsThrough id ticks
    → times_over id threshold ticks m ≤ 1
times_over-sweep id threshold ticks m r = omega (arith, mark-times_over id threshold ticks m r)
