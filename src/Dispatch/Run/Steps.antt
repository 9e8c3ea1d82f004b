-- ===== src/Dispatch/Run/Steps.antt =====
-- The circuit breakers of the loop, and what the events of a run add to its task.
use kaggen.Base.{
  ℕ, suc, ◌+◌, ◌≤◌, ◌<◌, ◌≡◌, refl, ap, ◌∙◌, ◌≢◌, inl, inr, Option, none, some, List, [], ◌∷◌,
  arith, leb, Bool-cases, Text, text_key, nat_key,
}
use kaggen.Tasks.{TaskEvent, TokenUsage, add_event}
use kaggen.Tasks.Accounting.{
  Logged, add_events, sum_usage, add_events-Logged, usage_or_zero, plus_usage,
}
use kaggen.Tasks.{cancel}
use kaggen.Dispatch.Run.{
  cancel_call, Choice, Response, RunEvent, nil_event, silent, responds, Verdict, carry_on, correct,
  abort, Run, Next, goes_on, stops, follow, handle_error, handle_choice, handle_response,
  handle_event, run_events, handle_body, next_turn, after_choice, Store, choice_events, log_events,
  max_consecutive_errors, TaskState, find_task, add_event,
}

-- Whether the loop was stopped.
abbrev pub Stops : {V : Type 0} → Next V → Type 0
Stops (goes_on r) = ⊥
Stops (stops r why) = Unit

-- The responses of a stream.
abbrev pub responses : List (ℕ × RunEvent) → ℕ
responses [] = 0
responses ((now, responds p) ∷ es) = suc (responses es)
responses ((now, nil_event) ∷ es) = responses es
responses ((now, silent) ∷ es) = responses es
responses ((now, cancel_call) ∷ es) = responses es

module _ {V : Type 0} (evaluate : V → TaskEvent → V × Verdict) where
  abbrev Turns : ℕ → ℕ → Next V → Type 0
  Turns max_turns n (goes_on r) = (r.turns ≡ n) × (n < max_turns)
  Turns max_turns n (stops r why) = Unit

  follow-Turns :
      (max_turns : ℕ) (r : Run V) (v : V × Verdict)
      → r.turns < max_turns
      → Turns max_turns r.turns (follow r v)
  follow-Turns max_turns r (v, carry_on) h = (refl, h)
  follow-Turns max_turns r (v, correct reason) h = (refl, h)
  follow-Turns max_turns r (v, abort reason) h = tt

  handle_error-Turns :
      (max_turns : ℕ) (id : Text) (now : ℕ) (message : Text) (tokens : Option TokenUsage)
      (r : Run V)
      → r.turns < max_turns
      → Turns max_turns r.turns (handle_error evaluate id now message tokens r)
  unfolding handle_error
  handle_error-Turns max_turns id now message tokens r h = ground arith

  handle_body-Turns :
      (max_turns : ℕ) (id : Text) (now : ℕ) (error : Option Text) (choices : List Choice)
      (tokens : Option TokenUsage) (r : Run V)
      → r.turns < max_turns
      → Turns max_turns r.turns (handle_body evaluate id now error choices tokens r)
  unfolding handle_body handle_choice
  handle_body-Turns max_turns id now (some message) choices tokens r h =
      handle_error-Turns max_turns id now message tokens r h
  handle_body-Turns max_turns id now none [] tokens r h = (refl, h)
  handle_body-Turns max_turns id now none (c ∷ cs) tokens r h =
      follow-Turns max_turns (after_choice id now c tokens r) _ h

  handle_response-Turns :
      (max_turns : ℕ) (id : Text) (now : ℕ) (p : Response) (r : Run V)
      → Turns max_turns (r.turns + 1) (handle_response evaluate max_turns id now p r)
  unfolding handle_response
  handle_response-Turns max_turns id now p r = elim (Bool-cases (leb max_turns (r.turns + 1))) [
    | inl e ↦ rw e tt
    | inr e ↦
        rw e (
          handle_body-Turns max_turns id now p.error p.choices p.usage (next_turn r) (ground arith))
  ]

  Turns-next :
      (max_turns n : ℕ) (id : Text) (now : ℕ) (p : Response) (es : List (ℕ × RunEvent)) (x : Next V)
      → Turns max_turns n x
      → ((r : Run V)
          → r.turns ≡ n
          → n < max_turns
          → Turns max_turns (n + responses es) (run_events evaluate max_turns id es r))
      → Turns max_turns (n + responses es) (elim x [
        | goes_on r' ↦ run_events evaluate max_turns id es r'
        | stops r' why ↦ stops r' why
      ])
  Turns-next max_turns n id now p es (goes_on r) t f = f r t.0 t.1
  Turns-next max_turns n id now p es (stops r why) t f = tt

  run_events-Turns :
      (max_turns : ℕ) (id : Text) (es : List (ℕ × RunEvent)) (r : Run V) (n : ℕ)
      → r.turns ≡ n
      → n < max_turns
      → Turns max_turns (n + responses es) (run_events evaluate max_turns id es r)
  unfolding run_events handle_event
  run_events-Turns max_turns id [] r n e h = (omega arith, omega arith)
  run_events-Turns max_turns id ((now, nil_event) ∷ es) r n e h =
      run_events-Turns max_turns id es r n e h
  run_events-Turns max_turns id ((now, silent) ∷ es) r n e h =
      run_events-Turns max_turns id es r n e h
  run_events-Turns max_turns id ((now, cancel_call) ∷ es) r n e h =
      run_events-Turns max_turns id es (record r { store = (cancel id now r.store).0 }) n e h
  run_events-Turns max_turns id ((now, responds p) ∷ es) r n e h =
      let count : n + suc (responses es) ≡ (r.turns + 1) + responses es = omega arith in
      rw count (
        Turns-next max_turns (r.turns + 1) id now p es
          (handle_response evaluate max_turns id now p r)
          (handle_response-Turns max_turns id now p r)
          (λ r' e' h'. run_events-Turns max_turns id es r' (r.turns + 1) e' h'))

  too_long : (max_turns n : ℕ) (x : Next V) → Turns max_turns n x → max_turns ≤ n → Stops x
  too_long max_turns n (goes_on r) t h = absurd (omega arith)
  too_long max_turns n (stops r why) t h = tt

  -- A stream with as many responses as turns are left stops the loop, whatever the responses are.
  pub run_events-Stops :
      (max_turns : ℕ) (id : Text) (es : List (ℕ × RunEvent)) (r : Run V)
      → r.turns < max_turns
      → max_turns ≤ r.turns + responses es
      → Stops (run_events evaluate max_turns id es r)
  run_events-Stops max_turns id es r h long =
      too_long max_turns (r.turns + responses es) _
        (run_events-Turns max_turns id es r r.turns refl h) long

  abbrev Streak : ℕ → Next V → Type 0
  Streak n (goes_on r) = (r.errors ≡ n) × (n < max_consecutive_errors)
  Streak n (stops r why) = Unit

  handle_error-Streak :
      (max_turns : ℕ) (id : Text) (now : ℕ) (p : Response) (message : Text) (r : Run V)
      → p.error ≡ some message
      → Streak (r.errors + 1) (handle_response evaluate max_turns id now p r)
  unfolding handle_response handle_body handle_error
  handle_error-Streak max_turns id now p message r e = rw e (ground arith)

  Streak-next :
      (max_turns n : ℕ) (id : Text) (es : List (ℕ × RunEvent)) (x : Next V)
      → Streak n x
      → ((r : Run V)
          → r.errors ≡ n
          → n < max_consecutive_errors
          → Stops (run_events evaluate max_turns id es r))
      → Stops (elim x [
        | goes_on r' ↦ run_events evaluate max_turns id es r'
        | stops r' why ↦ stops r' why
      ])
  Streak-next max_turns n id es (goes_on r) t f = f r t.0 t.1
  Streak-next max_turns n id es (stops r why) t f = tt

  -- Three error responses in a row stop the loop, whatever state it is in and whatever follows.
  pub run_events-three_errors :
      (max_turns : ℕ) (id : Text) (t₁ t₂ t₃ : ℕ) (p₁ p₂ p₃ : Response) (m₁ m₂ m₃ : Text)
      (es : List (ℕ × RunEvent)) (r : Run V)
      → p₁.error ≡ some m₁
      → p₂.error ≡ some m₂
      → p₃.error ≡ some m₃
      → Stops (
          run_events evaluate max_turns id
            ((t₁, responds p₁) ∷ (t₂, responds p₂) ∷ (t₃, responds p₃) ∷ es)
            r)
  unfolding run_events handle_event
  run_events-three_errors max_turns id t₁ t₂ t₃ p₁ p₂ p₃ m₁ m₂ m₃ es r e₁ e₂ e₃ =
      Streak-next max_turns (r.errors + 1) id ((t₂, responds p₂) ∷ (t₃, responds p₃) ∷ es) _
        (handle_error-Streak max_turns id t₁ p₁ m₁ r e₁)
        λ r₁ n₁ _.
          Streak-next max_turns (r₁.errors + 1) id ((t₃, responds p₃) ∷ es) _
            (handle_error-Streak max_turns id t₂ p₂ m₂ r₁ e₂)
            λ r₂ n₂ _.
              Streak-next max_turns (r₂.errors + 1) id es _
                (handle_error-Streak max_turns id t₃ p₃ m₃ r₂ e₃) λ r₃ n₃ h₃. absurd (omega arith)

log_events-add_events :
    (id : Text) (es : List TaskEvent) (s : Store) → log_events id es s ≡ (add_events id es s).0
unfolding log_events add_events
log_events-add_events id [] s = refl
log_events-add_events id (e ∷ es) s = log_events-add_events id es (add_event id e s).0

-- The events of one response extend the log of a known task, and its status stays.
pub log_events-Logged :
    (id : Text) (es : List TaskEvent) (s : Store) (t : TaskState)
    → find_task id s ≡ some t
    → (u : TaskState) × (find_task id (log_events id es s) ≡ some u) × Logged t u es
log_events-Logged id es s t h =
    let (u, at_end, l, _) = add_events-Logged id es s t h in (u, rw log_events-add_events at_end, l)

-- For a known task, a response that makes tool calls and says something adds the tokens that it used
-- to the task's total twice.
pub choice_tokens_twice :
    (id : Text) (now turn : ℕ) (c : Choice) (used : TokenUsage) (s : Store) (t : TaskState)
    → find_task id s ≡ some t
    → c.tool_calls ≢ []
    → c.content ≢ []
    → (u : TaskState) × (find_task id (log_events id (choice_events now turn c (some used)) s)
        ≡ some u)
      × (usage_or_zero u.total_tokens
          ≡ plus_usage (usage_or_zero t.total_tokens) (plus_usage used used))
unfolding choice_events sum_usage
choice_tokens_twice id now turn c used s t h calls says =
    let (u, at_end, l) = log_events-Logged id (choice_events now turn c (some used)) s t h in
    (u, at_end, l.tokens ∙ ap (plus_usage (usage_or_zero t.total_tokens)) (ground arith))
