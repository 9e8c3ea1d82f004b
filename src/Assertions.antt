-- ===== src/Assertions.antt =====
-- internal/eval/assert: the assertions on what an agent did. Scores are fractions, as numerator and
-- denominator. A value that is no string is held as its JSON encoding. Parameters: `compile`, the matcher
-- of a regular expression or none for an invalid one; `judge`, the score that the judge model gives,
-- none where there is no model or its answer fails. Reasons are texts and are left out.
pub mod Tools
pub mod Results
pub mod Sequences
use kaggen.Base.{
  ℕ, zero, suc, ◌+◌, ◌-◌, ◌*◌, ◌/◌, ◌%◌, ◌≤◌, ◌<◌, ◌≡◌, refl, sym, ap, ◌∙◌, ◌≢◌, ◌↔◌, ◌⊎◌, inl, inr,
  ite, Bool, true, false, ◌&&◌, ◌||◌, not, Option, none, some, List, [], ◌∷◌, ◌++◌, map, arith,
  dec_lt, ℕ_discrete, ltb, leb, ◌==◌, if◌then◌else◌, Bool-cases, Option-cases, found, length, take,
  drop, get_elem?, select, last_n, All, length-append, length-take, length-drop, take-append-drop,
  length-select-le, select-append, select_idem, Text, codes, text_discrete, ◌is◌, starts_with, Key,
  text_key, nat_key, Map, keep_if, get, put, del, Unique, get-put, get-del, put-Unique, del-Unique,
  values_where, del_where, map_values, get-map_values, get-del_where-none, get-del_where-some,
  del_where-Unique, map_values-Unique, values_where-del_where, contains, lower_code, to_lower,
  contains-append, contains_later, contains_earlier, join, decimal, last_n-append, length-last_n,
  last_n-last_n, ends_with, trim_prefix, trim_suffix,
}

abbrev pub Matcher : Type 0
Matcher = Text → Bool

pub data Value : Type 0 where
  text encoded : Text → Value

pub record RecordedToolCall : Type 0 where
  pub name : Text
  pub args : Map Text Value

pub record DispatchRecord : Type 0 where
  pub task_id : Text
  pub skill_name : Text
  pub task : Text

pub record Context : Type 0 where
  pub instruction : Text
  pub response : Text
  pub tool_calls : List RecordedToolCall
  pub skills_dispatched : Map Text (List DispatchRecord)
  pub clarifications : List Text

abbrev pub Score : Type 0
Score = ℕ × ℕ

pub record Result : Type 0 where
  pub passed : Bool
  pub score : Score

-- A parameter of a configuration.
pub data Param : Type 0 where
  text_param : Text → Param
  flag_param : Bool → Param
  object_param : Option Value → Option Text → Option Text → Param
  null_param : Param
  other_param : Text → Param

pub record Config : Type 0 where
  pub kind : Text
  pub value : Text
  pub tool : Text
  pub skill : Text
  pub params : Map Text Param
  pub rubric : Text
  pub min_score : Score
  pub sequence : List Text
  pub count : Option ℕ
  pub min_count : Option ℕ
  pub max_count : Option ℕ
  pub required : Option Bool
  pub forbidden : Option Bool
  pub optional : Option Bool
  pub about : Text

pub record ParamMatcher : Type 0 where
  pub exact : Option Value
  pub contained : Text
  pub regex : Text

pub record ToolCalled : Type 0 where
  pub tool_name : Text
  pub count : Option ℕ
  pub min_count : Option ℕ
  pub max_count : Option ℕ
  pub params : Map Text ParamMatcher

pub record SkillSelected : Type 0 where
  pub skill_name : Text
  pub required : Bool
  pub forbidden : Bool

pub record AskedClarification : Type 0 where
  pub required : Bool
  pub forbidden : Bool
  pub optional : Bool
  pub about_topic : Text

pub data Assertion : Type 0 where
  has_text has_no_text : Text → Assertion
  has_match : Text → Matcher → Assertion
  tool_called : ToolCalled → Assertion
  tool_sequence : List Text → Assertion
  llm_rubric : Text → Score → Assertion
  skill_selected : SkillSelected → Assertion
  asked_clarification : AskedClarification → Assertion

unfoldable pub type_name : Assertion → Text
type_name (has_text v) = codes "contains"
type_name (has_no_text v) = codes "not-contains"
type_name (has_match raw m) = codes "regex"
type_name (tool_called a) = codes "tool-called"
type_name (tool_sequence names) = codes "tool-sequence"
type_name (llm_rubric rubric min) = codes "llm-rubric"
type_name (skill_selected a) = codes "skill-selected"
type_name (asked_clarification a) = codes "asked-clarification"

abbrev pub flag_text : Bool → Text
flag_text true = codes "true"
flag_text false = codes "false"

abbrev pub given_text : Option Text → Text
given_text none = []
given_text (some s) = s

unfoldable pub parse_param_matcher : Param → ParamMatcher
parse_param_matcher (text_param s) = record { exact = some (text s); contained = []; regex = [] }
parse_param_matcher (flag_param b) = record {
  exact = some (encoded (flag_text b));
  contained = [];
  regex = [];
}
parse_param_matcher (object_param exact contained regex) = record {
  exact = exact;
  contained = given_text contained;
  regex = given_text regex;
}
parse_param_matcher null_param = record { exact = none; contained = []; regex = [] }
parse_param_matcher (other_param s) = record {
  exact = some (encoded s);
  contained = [];
  regex = [];
}

abbrev parse_params : Map Text Param → Map Text ParamMatcher
parse_params [] = []
parse_params ((key, p) ∷ ps) = (key, parse_param_matcher p) ∷ parse_params ps

-- A field, overridden by the Boolean parameter of the same name.
abbrev pub flag_of : Option Bool → Bool → Bool
flag_of none default = default
flag_of (some b) default = b

abbrev pub param_flag : Option Param → Option Bool
param_flag p = elim p [ none ↦ none | some v ↦ elim v [ flag_param b ↦ some b | _ ↦ none ] ]

abbrev pub param_text : Option Param → Text → Text
param_text p default = elim p [
  | none ↦ default
  | some v ↦ elim v [ text_param s ↦ s | _ ↦ default ]
]

unfoldable pub new_tool_called : Config → Option Assertion
new_tool_called c = elim c.tool [
  | [] ↦ none
  | _ ∷ _ ↦ some (
      tool_called (record {
        tool_name = c.tool;
        count = c.count;
        min_count = c.min_count;
        max_count = c.max_count;
        params = parse_params c.params;
      }))
]

-- A forbidden skill is not required, unless a later source says so.
abbrev pub unless : Option Bool → Bool → Bool
unless (some true) required = false
unless _ required = required

unfoldable pub new_skill_selected : Config → Option Assertion
new_skill_selected c =
    let required = param_flag (get (codes "required") c.params) in
    let forbidden = param_flag (get (codes "forbidden") c.params) in
    elim c.skill [
      | [] ↦ none
      | _ ∷ _ ↦ some (
          skill_selected (record {
            skill_name = c.skill;
            required =
                unless forbidden (flag_of required (unless c.forbidden (flag_of c.required true)));
            forbidden = flag_of forbidden (flag_of c.forbidden false);
          }))
    ]

unfoldable pub new_asked_clarification : Config → Option Assertion
new_asked_clarification c =
    let required =
      flag_of (param_flag (get (codes "required") c.params)) (flag_of c.required false) in
    let forbidden =
      flag_of (param_flag (get (codes "forbidden") c.params)) (flag_of c.forbidden false) in
    let optional =
      flag_of (param_flag (get (codes "optional") c.params)) (flag_of c.optional false) in
    some (
      asked_clarification (record {
        required = required || not forbidden && not optional;
        forbidden = forbidden;
        optional = optional;
        about_topic = param_text (get (codes "about") c.params) c.about;
      }))

abbrev pub with_text : Text → Assertion → Option Assertion
with_text [] a = none
with_text (c ∷ s) a = some a

abbrev pub Factory : Type 0
Factory = Config → Option Assertion

unfoldable pub new_contains : Factory
new_contains c = with_text c.value (has_text c.value)

unfoldable pub new_not_contains : Factory
new_not_contains c = with_text c.value (has_no_text c.value)

unfoldable pub new_tool_sequence : Factory
new_tool_sequence c = elim c.sequence [ [] ↦ none | _ ∷ _ ↦ some (tool_sequence c.sequence) ]

unfoldable pub new_llm_rubric : Factory
new_llm_rubric c =
    let min = if c.min_score.0 == 0 then (7, 10) else c.min_score in
    with_text c.rubric (llm_rubric c.rubric min)

module _ (compile : Text → Option Matcher) where
  unfoldable pub new_regex : Factory
  new_regex c = elim c.value [
    | [] ↦ none
    | _ ∷ _ ↦ elim (compile c.value) [ none ↦ none | some m ↦ some (has_match c.value m) ]
  ]

  unfoldable pub registry : Map Text Factory
  registry =
      (codes "contains", new_contains)
      ∷ (codes "not-contains", new_not_contains)
      ∷ (codes "regex", new_regex)
      ∷ (codes "tool-called", new_tool_called)
      ∷ (codes "tool-sequence", new_tool_sequence)
      ∷ (codes "llm-rubric", new_llm_rubric)
      ∷ (codes "skill-selected", new_skill_selected)
      ∷ (codes "asked-clarification", new_asked_clarification)
      ∷ []

  -- None where the type is unknown or its constructor fails.
  unfoldable pub from_config : Config → Option Assertion
  from_config c = elim (get c.kind registry) [ none ↦ none | some new ↦ new c ]

  unfoldable pub from_configs : List Config → Option (List Assertion)
  from_configs [] = some []
  from_configs (c ∷ cs) =
      let rest = from_configs cs in
      elim (from_config c) [
        | none ↦ none
        | some a ↦ elim rest [ none ↦ none | some as' ↦ some (a ∷ as') ]
      ]
