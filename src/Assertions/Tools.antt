-- ===== src/Assertions/Tools.antt =====
-- internal/eval/assert: the evaluation of an assertion.
use kaggen.Assertions.{
  AskedClarification, Context, Matcher, RecordedToolCall, Result, SkillSelected, Value,
  ParamMatcher, Score, ToolCalled, text, Assertion, encoded, has_text, has_no_text, has_match,
  tool_called, tool_sequence, llm_rubric, skill_selected, asked_clarification,
}
use kaggen.Base.{
  ℕ, suc, ◌*◌, Bool, true, false, ◌&&◌, ◌||◌, not, Option, none, some, List, [], ◌∷◌, map, ltb, leb,
  ◌==◌, if◌then◌else◌, found, length, get_elem?, select, Text, ◌is◌, text_key, nat_key, Map, get,
  contains, to_lower,
}

abbrev pub pass : Result
pass = record { passed = true; score = (1, 1) }

abbrev pub fail : Result
fail = record { passed = false; score = (0, 1) }

abbrev pub half : Result
half = record { passed = false; score = (1, 2) }

unfoldable pub evaluate_contains : Text → Context → Result
evaluate_contains v ctx = if contains ctx.response v then pass else fail

unfoldable pub evaluate_not_contains : Text → Context → Result
evaluate_not_contains v ctx = if not (contains ctx.response v) then pass else fail

unfoldable pub evaluate_regex : Matcher → Context → Result
evaluate_regex m ctx = if m ctx.response then pass else fail

abbrev pub written : Value → Text
written (text s) = s
written (encoded s) = s

abbrev pub calls_of : Text → List RecordedToolCall → List RecordedToolCall
calls_of name cs = select (λ c. c.name is name) cs

abbrev pub differs : Option ℕ → ℕ → Bool
differs none n = false
differs (some k) n = not (n == k)

abbrev pub too_few : Option ℕ → ℕ → Bool
too_few none n = false
too_few (some k) n = ltb n k

abbrev pub too_many : Option ℕ → ℕ → Bool
too_many none n = false
too_many (some k) n = ltb k n

-- The number of calls that were found of a sequence, in order.
unfoldable pub advance : List Text → ℕ → List Text → ℕ
advance wanted i [] = i
advance wanted i (name ∷ names) = elim (get_elem? wanted i) [
  | none ↦ advance wanted i names
  | some next ↦ advance wanted (if name is next then suc i else i) names
]

abbrev pub call_name : RecordedToolCall → Text
call_name c = c.name

unfoldable pub evaluate_sequence : List Text → Context → Result
evaluate_sequence wanted ctx =
    let found_in_order = advance wanted 0 (map call_name ctx.tool_calls) in
    if found_in_order == length wanted
    then pass
    else record { passed = false; score = (found_in_order, length wanted) }

unfoldable pub evaluate_skill : SkillSelected → Context → Result
evaluate_skill a ctx =
    let used = found (get a.skill_name ctx.skills_dispatched) in
    if a.required && not used then fail else if a.forbidden && used then fail else pass

abbrev pub some_about : Text → List Text → Bool
some_about topic [] = false
some_about topic (q ∷ qs) = contains (to_lower q) (to_lower topic) || some_about topic qs

abbrev pub any_text : List Text → Bool
any_text [] = false
any_text (q ∷ qs) = true

unfoldable pub evaluate_clarification : AskedClarification → Context → Result
evaluate_clarification a ctx =
    let asked = any_text ctx.clarifications in
    if a.optional
    then pass
    else if a.required && not asked
    then fail
    else if a.forbidden && asked
    then fail
    else if not (a.about_topic is []) && asked && not (some_about a.about_topic ctx.clarifications)
    then half
    else pass

module _ (compile : Text → Option Matcher) where
  abbrev pub regex_matches : Text → Text → Bool
  regex_matches [] s = true
  regex_matches (c ∷ re) s = elim (compile (c ∷ re)) [ none ↦ false | some m ↦ m s ]

  abbrev pub exact_matches : Option Value → Text → Bool
  exact_matches none s = true
  exact_matches (some v) s = s is written v

  unfoldable pub match_value : Value → ParamMatcher → Bool
  match_value v m =
      exact_matches m.exact (written v)
      && (m.contained is [] || contains (written v) m.contained)
      && regex_matches m.regex (written v)

  unfoldable pub match_params : Map Text ParamMatcher → Map Text Value → Bool
  match_params [] args = true
  match_params ((key, m) ∷ ps) args =
      let rest = match_params ps args in
      elim (get key args) [ none ↦ false | some v ↦ match_value v m && rest ]

  abbrev pub any_matches : Map Text ParamMatcher → List RecordedToolCall → Bool
  any_matches ps [] = false
  any_matches ps (c ∷ cs) = match_params ps c.args || any_matches ps cs

  abbrev pub no_params : Map Text ParamMatcher → Bool
  no_params [] = true
  no_params (p ∷ ps) = false

  unfoldable pub evaluate_tool : ToolCalled → Context → Result
  evaluate_tool a ctx =
      let matches = calls_of a.tool_name ctx.tool_calls in
      let n = length matches in
      if differs a.count n || too_few a.min_count n || too_many a.max_count n
      then fail
      else if not (found a.count) && not (found a.min_count) && n == 0
      then fail
      else if not (no_params a.params) && not (any_matches a.params matches)
      then half
      else pass

module _ (judge : Text → Text → Text → Option Score) where
  unfoldable pub evaluate_rubric : Text → Score → Context → Result
  evaluate_rubric rubric min ctx = elim (judge ctx.instruction ctx.response rubric) [
    | none ↦ fail
    | some score ↦ record { passed = leb (min.0 * score.1) (score.0 * min.1); score = score }
  ]

module _ (compile : Text → Option Matcher) (judge : Text → Text → Text → Option Score) where
  unfoldable pub evaluate : Assertion → Context → Result
  evaluate (has_text v) ctx = evaluate_contains v ctx
  evaluate (has_no_text v) ctx = evaluate_not_contains v ctx
  evaluate (has_match raw m) ctx = evaluate_regex m ctx
  evaluate (tool_called a) ctx = evaluate_tool compile a ctx
  evaluate (tool_sequence names) ctx = evaluate_sequence names ctx
  evaluate (llm_rubric rubric min) ctx = evaluate_rubric judge rubric min ctx
  evaluate (skill_selected a) ctx = evaluate_skill a ctx
  evaluate (asked_clarification a) ctx = evaluate_clarification a ctx

  pub evaluate_all : List Assertion → Context → List Result
  evaluate_all [] ctx = []
  evaluate_all (a ∷ as') ctx = evaluate a ctx ∷ evaluate_all as' ctx

pub all_passed : List Result → Bool
all_passed [] = true
all_passed (r ∷ rs) = r.passed && all_passed rs
