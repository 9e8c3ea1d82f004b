-- ===== src/Supervisor/Verdicts.antt =====
-- internal/agent/supervisor.go in the loop of internal/agent/async.go: what its verdicts can do.
use kaggen.Base.{
  ℕ, ◌+◌, ◌-◌, ◌≤◌, ◌≡◌, refl, ◌≢◌, inl, inr, Bool, true, false, not, Option, none, some, List, [],
  ◌∷◌, arith, ltb, leb, if◌then◌else◌, Bool-cases, Text, ◌is◌, text_key, nat_key,
}
use kaggen.Tasks.{TaskEvent, TokenUsage}
use kaggen.Dispatch.Run.{
  Verdict, carry_on, correct, abort, supervisor_abort, Run, RunEvent, nil_event, silent,
  cancel_call, responds, Next, goes_on, stops, run_events, handle_event, handle_response,
  handle_body, handle_choice, handle_error, follow, Choice, is_call_limit_error, next_turn,
  is_token_overflow_error, max_consecutive_errors, after_choice,
}
use kaggen.Supervisor.{
  Supervisor, Judgement, Reason, Config, MonitorState, stalled, error_loop, repetition, apology,
  apologizes, detect_repetition, evaluate, evaluate_heuristics, note_event, judge_classification,
  or_judgement, monitor_of, at_checkpoint,
}

-- The verdict that the loop is given, its reason by the text of it.
abbrev pub verdict : (Reason → Text) → Judgement → Verdict
verdict text Judgement.continue = carry_on
verdict text (Judgement.correct r) = correct (text r)
verdict text (Judgement.abort r) = abort (text r)

-- The supervisor as the loop calls it, the clock being read when an event is noted and when it is
-- judged.
abbrev pub supervise :
    (Text → List Text → ℕ → Option Text)
    → (Reason → Text)
    → (Supervisor → TaskEvent → ℕ × ℕ)
    → Text
    → Text
    → Supervisor
    → TaskEvent
    → Supervisor × Verdict
supervise ask text clock id task s e =
    let judged = evaluate ask id task (clock s e).0 (clock s e).1 s e in
    (judged.0, verdict text judged.1)

-- The loop did not stop for a verdict to abort.
abbrev pub IsNotAborted : {V : Type 0} → Next V → Type 0
IsNotAborted (goes_on r) = Unit
IsNotAborted (stops r (supervisor_abort why)) = ⊥
IsNotAborted (stops r why) = Unit

abbrev IsNotAbort : Verdict → Type 0
IsNotAbort (abort why) = ⊥
IsNotAbort _ = Unit

abbrev is_abort : Judgement → Bool
is_abort Judgement.continue = false
is_abort (Judgement.correct r) = false
is_abort (Judgement.abort r) = true

verdict-IsNotAbort :
    (text : Reason → Text) (j : Judgement) → is_abort j ≡ false → IsNotAbort (verdict text j)
verdict-IsNotAbort text Judgement.continue h = tt
verdict-IsNotAbort text (Judgement.correct r) h = tt
verdict-IsNotAbort text (Judgement.abort r) h = absurd (cc)

is_abort-or_judgement :
    (i j : Judgement)
    → is_abort i ≡ false
    → is_abort j ≡ false
    → is_abort (or_judgement i j) ≡ false
is_abort-or_judgement Judgement.continue j h k = k
is_abort-or_judgement (Judgement.correct r) j h k = refl
is_abort-or_judgement (Judgement.abort r) j h k = h

is_abort-evaluate_heuristics :
    (cfg : Config) (later : ℕ) (st : MonitorState) (e : TaskEvent)
    → is_abort (evaluate_heuristics cfg later st e) ≡ false
unfolding evaluate_heuristics
is_abort-evaluate_heuristics cfg later st e = ground arith

is_abort-judge_classification : (c : Option Text) → is_abort (judge_classification c) ≡ false
unfolding judge_classification
is_abort-judge_classification none = refl
is_abort-judge_classification (some c) = ground arith

is_abort-checkpoint :
    (b : Bool) (c : Option Text)
    → is_abort (if b then judge_classification c else Judgement.continue) ≡ false
is_abort-checkpoint true c = is_abort-judge_classification c
is_abort-checkpoint false c = refl

is_abort-evaluate :
    (ask : Text → List Text → ℕ → Option Text) (id task : Text) (now later : ℕ) (s : Supervisor)
    (e : TaskEvent)
    → is_abort (evaluate ask id task now later s e).1 ≡ false
unfolding evaluate
is_abort-evaluate ask id task now later s e =
    let st = note_event e now (monitor_of id task now s) in
    is_abort-or_judgement (evaluate_heuristics s.config later st e)
      (if at_checkpoint s.config st
        then judge_classification (ask st.task st.recent_tools st.turn_count)
        else Judgement.continue)
      (is_abort-evaluate_heuristics s.config later st e)
      (is_abort-checkpoint (at_checkpoint s.config st) (ask st.task st.recent_tools st.turn_count))

module _ {V : Type 0} (evaluate : V → TaskEvent → V × Verdict)
    (mild : (v : V) (e : TaskEvent) → IsNotAbort (evaluate v e).1) where
  follow-IsNotAborted : (r : Run V) (v : V × Verdict) → IsNotAbort v.1 → IsNotAborted (follow r v)
  follow-IsNotAborted r (v, carry_on) k = tt
  follow-IsNotAborted r (v, correct reason) k = tt
  follow-IsNotAborted r (v, abort reason) k = k

  handle_error-IsNotAborted :
      (id : Text) (now : ℕ) (message : Text) (tokens : Option TokenUsage) (r : Run V)
      → IsNotAborted (handle_error evaluate id now message tokens r)
  unfolding handle_error
  handle_error-IsNotAborted id now message tokens r =
      elim (Bool-cases (is_call_limit_error message)) [
        | inl e ↦ rw e tt
        | inr e ↦ elim (Bool-cases (is_token_overflow_error message)) [
          | inl o ↦ rw (e, o) tt
          | inr o ↦ elim (Bool-cases (leb max_consecutive_errors (r.errors + 1))) [
            | inl m ↦ rw (e, o, m) tt
            | inr m ↦ rw (e, o, m) tt
          ]
        ]
      ]

  handle_body-IsNotAborted :
      (id : Text) (now : ℕ) (error : Option Text) (choices : List Choice)
      (tokens : Option TokenUsage) (r : Run V)
      → IsNotAborted (handle_body evaluate id now error choices tokens r)
  unfolding handle_body handle_choice
  handle_body-IsNotAborted id now (some message) choices tokens r =
      handle_error-IsNotAborted id now message tokens r
  handle_body-IsNotAborted id now none [] tokens r = tt
  handle_body-IsNotAborted id now none (c ∷ cs) tokens r =
      follow-IsNotAborted (after_choice id now c tokens r) _ (mild _ _)

  handle_event-IsNotAborted :
      (max_turns : ℕ) (id : Text) (now : ℕ) (e : RunEvent) (r : Run V)
      → IsNotAborted (handle_event evaluate max_turns id now e r)
  unfolding handle_event handle_response
  handle_event-IsNotAborted max_turns id now nil_event r = tt
  handle_event-IsNotAborted max_turns id now silent r = tt
  handle_event-IsNotAborted max_turns id now cancel_call r = tt
  handle_event-IsNotAborted max_turns id now (responds p) r =
      elim (Bool-cases (leb max_turns (r.turns + 1))) [
        | inl e ↦ rw e tt
        | inr e ↦ rw e (handle_body-IsNotAborted id now p.error p.choices p.usage (next_turn r))
      ]

  IsNotAborted-next :
      (max_turns : ℕ) (id : Text) (es : List (ℕ × RunEvent)) (x : Next V)
      → IsNotAborted x
      → ((r : Run V) → IsNotAborted (run_events evaluate max_turns id es r))
      → IsNotAborted (elim x [
        | goes_on r' ↦ run_events evaluate max_turns id es r'
        | stops r' why ↦ stops r' why
      ])
  IsNotAborted-next max_turns id es (goes_on r) k f = f r
  IsNotAborted-next max_turns id es (stops r why) k f = k

  run_events-mild :
      (max_turns : ℕ) (id : Text) (es : List (ℕ × RunEvent)) (r : Run V)
      → IsNotAborted (run_events evaluate max_turns id es r)
  unfolding run_events
  run_events-mild max_turns id [] r = tt
  run_events-mild max_turns id ((now, e) ∷ es) r =
      IsNotAborted-next max_turns id es (handle_event evaluate max_turns id now e r)
        (handle_event-IsNotAborted max_turns id now e r) (run_events-mild max_turns id es)

-- With the supervisor, whatever its language model answers, the loop never stops for a verdict to
-- abort: of the three actions that the loop handles the supervisor only ever takes two.
pub run_events-IsNotAborted :
    (ask : Text → List Text → ℕ → Option Text) (text : Reason → Text)
    (clock : Supervisor → TaskEvent → ℕ × ℕ) (task : Text) (max_turns : ℕ) (id : Text)
    (es : List (ℕ × RunEvent)) (r : Run Supervisor)
    → IsNotAborted (run_events (supervise ask text clock id task) max_turns id es r)
run_events-IsNotAborted ask text clock task max_turns id es r =
    run_events-mild (supervise ask text clock id task)
      (λ v e.
        verdict-IsNotAbort text _ (is_abort-evaluate ask id task (clock v e).0 (clock v e).1 v e))
      max_turns id es r

-- The answers that are left where nothing is late.
answer_lem :
    (a b d : Bool) (n c : ℕ) (t : Text)
    → (if a
        then Judgement.correct (error_loop n)
        else if b
        then Judgement.correct (repetition t c)
        else if false
        then Judgement.correct stalled
        else if d
        then Judgement.correct apology
        else Judgement.continue)
      ≢ Judgement.correct stalled
answer_lem a b d n c t h = ground arith

-- The supervisor never finds a task stalled if it judges an event within the stall timeout after it
-- noted the event, since noting it counts as activity.
pub evaluate_heuristics-note_event :
    (cfg : Config) (now later : ℕ) (st : MonitorState) (e : TaskEvent)
    → later ≤ now + cfg.stall_timeout
    → evaluate_heuristics cfg later (note_event e now st) e ≢ Judgement.correct stalled
unfolding evaluate_heuristics note_event
evaluate_heuristics-note_event cfg now later st e h p =
    let st' = note_event e now st in
    let rep = detect_repetition st'.recent_tools 3 in
    let late : ltb cfg.stall_timeout (later - now) ≡ false = ground (arith, h) in
    answer_lem (leb 3 st'.consecutive_errs) (not (rep.0 is [])) (apologizes e.content)
      st'.consecutive_errs rep.1 rep.0 (rw late at p)
