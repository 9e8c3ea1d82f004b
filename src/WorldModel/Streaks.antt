-- ===== src/WorldModel/Streaks.antt =====
-- internal/agent/worldmodel.go: the error streak is what the log of the calls says, and what follows
-- for the advice.
use mathlib.Core.List.{reverse, reverse-append, append-nil}
use kaggen.Base.{
  ℕ, ◌+◌, ◌-◌, ◌≤◌, ◌≡◌, refl, sym, ap, ◌∙◌, ◌≢◌, Bool, true, false, ◌&&◌, not, some, List, [], ◌∷◌,
  ◌++◌, map, arith, if◌then◌else◌, length, last_n, length-drop, Text, ◌is◌, text_key, nat_key, del,
}
use kaggen.WorldModel.{
  ToolCallRecord, WorldModel, new_world_model, categorize_tool_name, record_tool_call_end,
  should_pivot, count_error, failures, successes, is_progressing_well, recent_failures,
  same_approach,
}

-- The calls of a category that failed in a row, from the newest call on.
abbrev pub same_failures : Text → List ToolCallRecord → ℕ
same_failures category [] = 0
same_failures category (c ∷ cs) =
    let rest = same_failures category cs in
    if not c.success && (category is categorize_tool_name c.tool) then rest + 1 else 0

-- The streak that a log has, its newest call first.
abbrev pub streak : List ToolCallRecord → ℕ
streak [] = 0
streak (c ∷ cs) = if c.success then 0 else same_failures (categorize_tool_name c.tool) cs + 1

-- The arguments of one `RecordToolCallEnd`, and its time.
pub record CallEnd : Type 0 where
  pub call_id : Text
  pub tool : Text
  pub success : Bool
  pub message : Text
  pub size : ℕ
  pub now : ℕ

pub record_call : WorldModel → CallEnd → WorldModel
record_call w c = record_tool_call_end c.call_id c.tool c.success c.message c.size c.now w

pub record_calls : WorldModel → List CallEnd → WorldModel
record_calls w [] = w
record_calls w (c ∷ cs) = record_calls (record_call w c) cs

-- The counter of the model agrees with its log.
record IsCounted (w : WorldModel) : Type 0 where
  pub counted : w.error_streak ≡ streak (reverse w.tool_calls)
  pub same :
      (c : Text)
      → same_failures c (reverse w.tool_calls)
        ≡ (if w.last_error_tool is c then w.error_streak else 0)

-- One more call on top of a log that the counter agrees with.
count_error-IsCounted :
    (tool : Text) (success : Bool) (message : Text) (now : ℕ) (call : ToolCallRecord)
    (w : WorldModel)
    → call.tool ≡ tool
    → call.success ≡ success
    → IsCounted w
    → IsCounted (
        count_error tool success message now
          (record w { tool_calls = w.tool_calls ++ (call ∷ []) }))
count_error-IsCounted tool true message now call w t s v = record {
  counted = ground (arith, reverse-append w.tool_calls (call ∷ []));
  same = λ c. ground (arith, reverse-append w.tool_calls (call ∷ []));
}
count_error-IsCounted tool false message now call w t s v = record {
  counted =
      ground (arith, reverse-append w.tool_calls (call ∷ []), v.same (categorize_tool_name tool));
  same = λ c. ground (arith, reverse-append w.tool_calls (call ∷ []), v.same c);
}

record_call-IsCounted : (c : CallEnd) (w : WorldModel) → IsCounted w → IsCounted (record_call w c)
unfolding record_call record_tool_call_end
record_call-IsCounted c w v =
    count_error-IsCounted c.tool c.success c.message c.now _
      (record w { pending_calls = del c.call_id w.pending_calls }) refl refl
      (record { counted = v.counted; same = v.same })

record_calls-IsCounted :
    (cs : List CallEnd) (w : WorldModel) → IsCounted w → IsCounted (record_calls w cs)
unfolding record_calls
record_calls-IsCounted [] w v = v
record_calls-IsCounted (c ∷ cs) w v =
    record_calls-IsCounted cs (record_call w c) (record_call-IsCounted c w v)

-- What a call left in the log: its tool, and whether it succeeded.
abbrev pub logged : List ToolCallRecord → List (Text × Bool)
logged cs = map (λ c. (c.tool, c.success)) cs

abbrev pub ended : List CallEnd → List (Text × Bool)
ended cs = map (λ c. (c.tool, c.success)) cs

logged-append :
    (cs : List ToolCallRecord) (c : ToolCallRecord) (rest : List (Text × Bool))
    → logged (cs ++ (c ∷ [])) ++ rest ≡ logged cs ++ ((c.tool, c.success) ∷ rest)
logged-append [] c rest = refl
logged-append (d ∷ cs) c rest = ap (◌∷◌ (d.tool, d.success)) (logged-append cs c rest)

count_error-tool_calls :
    (tool : Text) (success : Bool) (message : Text) (now : ℕ) (w : WorldModel)
    → (count_error tool success message now w).tool_calls ≡ w.tool_calls
count_error-tool_calls tool true message now w = refl
count_error-tool_calls tool false message now w = refl

record_call-tool_calls :
    (c : CallEnd) (w : WorldModel) (rest : List (Text × Bool))
    → logged (record_call w c).tool_calls ++ rest
      ≡ logged w.tool_calls ++ ((c.tool, c.success) ∷ rest)
unfolding record_call record_tool_call_end
record_call-tool_calls c w rest =
    ap (λ cs. logged cs ++ rest) (count_error-tool_calls c.tool c.success c.message c.now _)
    ∙ logged-append w.tool_calls _ rest

record_calls-tool_calls :
    (cs : List CallEnd) (w : WorldModel)
    → logged (record_calls w cs).tool_calls ≡ logged w.tool_calls ++ ended cs
unfolding record_calls
record_calls-tool_calls [] w = sym (append-nil (logged w.tool_calls))
record_calls-tool_calls (c ∷ cs) w =
    record_calls-tool_calls cs (record_call w c) ∙ record_call-tool_calls c w (ended cs)

-- After any calls on a new world model, its log has their tools and outcomes in order, and its error
-- streak is the number of the newest calls that failed in a row with one category of tool.
pub record_calls-error_streak :
    (session_id : Text) (now : ℕ) (cs : List CallEnd)
    → (logged (record_calls (new_world_model session_id now) cs).tool_calls ≡ ended cs)
      × ((record_calls (new_world_model session_id now) cs).error_streak
          ≡ streak (reverse (record_calls (new_world_model session_id now) cs).tool_calls))
unfolding new_world_model
record_calls-error_streak session_id now cs = (
  record_calls-tool_calls cs (new_world_model session_id now),
  (record_calls-IsCounted cs (new_world_model session_id now)
      (record { counted = refl; same = λ c. ground arith })).counted,
)

-- Three failures in a row with tools of one category make the agent pivot, whatever came before, and
-- the advice names that category and a count of three or more.
pub should_pivot-three_failures :
    (w : WorldModel) (c₁ c₂ c₃ : CallEnd) (category : Text)
    → c₁.success ≡ false
    → c₂.success ≡ false
    → c₃.success ≡ false
    → categorize_tool_name c₁.tool ≡ category
    → categorize_tool_name c₂.tool ≡ category
    → categorize_tool_name c₃.tool ≡ category
    → (n : ℕ) × (should_pivot (record_calls w (c₁ ∷ c₂ ∷ c₃ ∷ []))
        ≡ some (same_approach n category))
      × (3 ≤ n)
unfolding record_calls record_call record_tool_call_end should_pivot
should_pivot-three_failures w c₁ c₂ c₃ category f₁ f₂ f₃ e₁ e₂ e₃ =
    let w' = record_calls w (c₁ ∷ c₂ ∷ c₃ ∷ []) in
    let high : 3 ≤ w'.error_streak = ground (arith, f₁, f₂, f₃, e₁, e₂, e₃) in
    (w'.error_streak, ground (arith, f₃, e₃, high), high)

length-select-not : (cs : List ToolCallRecord) → successes cs + failures cs ≡ length cs
length-select-not [] = refl
length-select-not (c ∷ cs) = ground (arith, length-select-not cs)

-- A model that is progressing well never advises a pivot for its recent failures.
pub should_pivot-is_progressing_well :
    (w : WorldModel) → is_progressing_well w ≡ true → should_pivot w ≢ some recent_failures
unfolding should_pivot is_progressing_well
should_pivot-is_progressing_well w h p =
    let all = length-select-not (last_n 5 w.tool_calls) in
    let long = length-drop (length w.tool_calls - 5) w.tool_calls in ground (arith, all, long, h, p)
