-- ===== src/Supervisor/Memory.antt =====
-- internal/agent/supervisor.go: what is kept of a task is what its events say.
use kaggen.Base.{
  ℕ, zero, suc, ◌+◌, ◌-◌, ◌≤◌, ◌≡◌, refl, sym, ap, ◌∙◌, inl, inr, false, Option, some, List, [],
  ◌∷◌, ◌++◌, arith, ltb, if◌then◌else◌, Bool-cases, length, drop, last_n, length-append,
  length-drop, Text, codes, ◌is◌, text_key, nat_key, get, get-put,
}
use kaggen.Tasks.{TaskEvent}
use mathlib.Core.List.{append-nil, append_assoc}
use kaggen.Supervisor.{
  MonitorState, Supervisor, new_monitor, start_task, tools_kept, note_event, evaluate, monitor_of,
}

drop-append-keeps :
    (n k : ℕ) (xs ys : List Text)
    → n ≤ length xs
    → drop (n + k) (xs ++ ys) ≡ drop k (drop n xs ++ ys)
drop-append-keeps zero k xs ys h = ap (λ i. drop i (xs ++ ys)) (ground arith)
drop-append-keeps (suc n) k [] ys h = absurd (ground arith)
drop-append-keeps (suc n) k (x ∷ xs) ys h =
    ap (λ i. drop i (x ∷ (xs ++ ys))) (suc_plus n k) ∙ drop-append-keeps n k xs ys (ground arith)
  where
    suc_plus : (n k : ℕ) → suc n + k ≡ suc (n + k)
    suc_plus n k = omega arith

-- Cutting to the last ones before more are added changes nothing of what is kept after it.
last_n-append : (n : ℕ) (xs ys : List Text) → last_n n (last_n n xs ++ ys) ≡ last_n n (xs ++ ys)
last_n-append n xs ys =
    let d = length xs - n in
    let kept = drop d xs in
    let k = (length kept + length ys) - n in
    let size = length-drop d xs in
    let small : length (kept ++ ys) - n ≡ k = ground (arith, length-append kept ys) in
    let whole : d + k ≡ length (xs ++ ys) - n = ground (arith, size, length-append xs ys) in
    ap (λ i. drop i (kept ++ ys)) small
    ∙ sym (drop-append-keeps d k xs ys (ground arith))
    ∙ ap (λ i. drop i (xs ++ ys)) whole

-- The tools of a tool call.
abbrev pub called_tools : TaskEvent → List Text
called_tools e = if e.kind is codes "tool_call" then e.tools else []

-- The tools of the tool calls, in order, each event with the times at which it is noted and judged.
abbrev pub all_tools : List (ℕ × ℕ × TaskEvent) → List Text
all_tools [] = []
all_tools (e ∷ es) = called_tools e.2 ++ all_tools es

note_event-recent_tools :
    (e : TaskEvent) (now : ℕ) (st : MonitorState) (before : List Text)
    → st.recent_tools ≡ last_n tools_kept before
    → (note_event e now st).recent_tools ≡ last_n tools_kept (before ++ called_tools e)
unfolding note_event
note_event-recent_tools e now st before h = elim (Bool-cases (e.kind is codes "tool_call")) [
  | inl k ↦ elim (Bool-cases (ltb 0 (length e.tools))) [
    | inl f ↦
        rw (k, f)
          (ap (λ ts. last_n tools_kept (ts ++ e.tools)) h ∙ last_n-append tools_kept before e.tools)
    | inr f ↦
        let none_called : e.tools ≡ [] = no_length e.tools f in
        rw (k, f)
          (h
            ∙ ap (last_n tools_kept) (sym (append-nil before))
            ∙ ap (λ ts. last_n tools_kept (before ++ ts)) (sym none_called))
  ]
  | inr k ↦ rw k (h ∙ ap (last_n tools_kept) (sym (append-nil before)))
]
  where
    no_length : (ts : List Text) → ltb 0 (length ts) ≡ false → ts ≡ []
    no_length [] h = refl
    no_length (t ∷ ts) h = absurd (ground arith)

module _ (ask : Text → List Text → ℕ → Option Text) where
  -- The supervisor after the events of a task.
  pub evaluate_all : Text → Text → Supervisor → List (ℕ × ℕ × TaskEvent) → Supervisor
  unfolding evaluate
  evaluate_all id task s [] = s
  evaluate_all id task s ((now, later, e) ∷ es) =
      evaluate_all id task (evaluate ask id task now later s e).0 es

  abbrev Remembers : Text → Supervisor → List Text → Type 0
  Remembers id s before =
      (st : MonitorState) × (get id s.tasks ≡ some st)
      × (st.recent_tools ≡ last_n tools_kept before)

  evaluate_all-Remembers :
      (id task : Text) (s : Supervisor) (es : List (ℕ × ℕ × TaskEvent)) (before : List Text)
      → Remembers id s before
      → Remembers id (evaluate_all id task s es) (before ++ all_tools es)
  unfolding evaluate_all evaluate
  evaluate_all-Remembers id task s [] before (st, at, h) =
      (st, at, h ∙ ap (last_n tools_kept) (sym (append-nil before)))
  evaluate_all-Remembers id task s ((now, later, e) ∷ es) before (st, at, h) =
      let next = note_event e now (monitor_of id task now s) in
      let same : monitor_of id task now s ≡ st = ground (arith, at) in
      let kept : next.recent_tools ≡ last_n tools_kept (before ++ called_tools e) =
        ap (λ x. (note_event e now x).recent_tools) same
        ∙ note_event-recent_tools e now st before h in
      let rest =
        evaluate_all-Remembers id task (evaluate ask id task now later s e).0 es
          (before ++ called_tools e) (next, ground (arith, get-put id id next s.tasks), kept) in
      (
        rest.0,
        rest.1,
        rest.2 ∙ ap (last_n tools_kept) (append_assoc before (called_tools e) (all_tools es)),
      )

  -- From the start of a task on, the tools that the supervisor remembers of it are the last twenty of
  -- all that its tool calls used, in order.
  pub evaluate_all-recent_tools :
      (id task : Text) (start : ℕ) (s : Supervisor) (es : List (ℕ × ℕ × TaskEvent))
      → (st : MonitorState) × (get id (evaluate_all id task (start_task id task start s) es).tasks
          ≡ some st)
        × (st.recent_tools ≡ last_n tools_kept (all_tools es))
  unfolding start_task
  evaluate_all-recent_tools id task start s es =
      evaluate_all-Remembers id task (start_task id task start s) es [] (
        new_monitor task start,
        ground (arith, get-put id id (new_monitor task start) s.tasks),
        refl,
      )
