-- ===== src/Context.antt =====
-- internal/agent/context_manager.go: the token estimate of a conversation, and the three levels at which
-- it is cut. The budget is held as its effective limit. The thresholds are computed by the code in
-- floating point; for limits below 2^50 that rounds to the integer part written here.
pub mod Emergency
pub mod Pruning
pub mod Recent
use kaggen.Base.{
  ℕ, zero, suc, ◌+◌, ◌-◌, ◌*◌, ◌/◌, ◌%◌, ◌≤◌, ◌<◌, ◌≡◌, refl, sym, ap, ◌∙◌, ◌≢◌, ◌↔◌, ◌⊎◌, inl, inr,
  ite, Bool, true, false, ◌&&◌, ◌||◌, not, Option, none, some, List, [], ◌∷◌, ◌++◌, map, arith,
  dec_lt, ℕ_discrete, ltb, leb, ◌==◌, if◌then◌else◌, Bool-cases, Option-cases, found, length, take,
  drop, get_elem?, select, last_n, All, length-append, length-take, length-drop, take-append-drop,
  length-select-le, select-append, select_idem, Text, codes, text_discrete, ◌is◌, starts_with, Key,
  text_key, nat_key, Map, keep_if, get, put, del, Unique, get-put, get-del, put-Unique, del-Unique,
  values_where, del_where, map_values, get-map_values, get-del_where-none, get-del_where-some,
  del_where-Unique, map_values-Unique, values_where-del_where, contains, lower_code, to_lower,
  contains-append, contains_later, contains_earlier, join, decimal, last_n-append, length-last_n,
  last_n-last_n,
}

pub data Role : Type 0 where
  system user assistant tool : Role

-- The function of a tool call.
pub record ToolCall : Type 0 where
  pub name : Text
  pub arguments : Text

pub record ContentPart : Type 0 where
  pub text : Option Text
  pub image : Bool

pub record Message : Type 0 where
  pub role : Role
  pub content : Text
  pub tool_calls : List ToolCall
  pub content_parts : List ContentPart

abbrev pub user_message : Text → Message
user_message content = record {
  role = user;
  content = content;
  tool_calls = [];
  content_parts = [];
}

-- The limit of tool outputs and the task do not change while the messages are cut.
pub record ContextManager : Type 0 where
  pub limit : ℕ
  pub estimated_tokens : ℕ
  pub last_actual_input : ℕ
  pub tool_output_limit : ℕ
  pub original_task : Text
  pub prune_count : ℕ
  pub enabled : Bool

pub new_context_manager : ℕ → ℕ → ContextManager
new_context_manager limit tool_output_limit = record {
  limit = limit;
  estimated_tokens = 0;
  last_actual_input = 0;
  tool_output_limit = if tool_output_limit == 0 then 8000 else tool_output_limit;
  original_task = [];
  prune_count = 0;
  enabled = true;
}

-- Three characters for a token.
unfoldable pub estimate_tokens : Text → ℕ
estimate_tokens content = length content / 3

abbrev pub call_tokens : List ToolCall → ℕ
call_tokens [] = 0
call_tokens (c ∷ cs) = 10 + estimate_tokens c.name + estimate_tokens c.arguments + call_tokens cs

abbrev pub text_tokens : Option Text → ℕ
text_tokens none = 0
text_tokens (some t) = estimate_tokens t

abbrev pub part_tokens : List ContentPart → ℕ
part_tokens [] = 0
part_tokens (p ∷ ps) = text_tokens p.text + (if p.image then 500 else 0) + part_tokens ps

unfoldable pub estimate_message_tokens : Message → ℕ
estimate_message_tokens m =
    4 + estimate_tokens m.content + call_tokens m.tool_calls + part_tokens m.content_parts

unfoldable pub estimate_messages_tokens : List Message → ℕ
estimate_messages_tokens [] = 0
estimate_messages_tokens (m ∷ ms) = estimate_message_tokens m + estimate_messages_tokens ms

unfoldable pub record_actual_usage : ℕ → ContextManager → ContextManager
record_actual_usage n cm = record cm { last_actual_input = n; estimated_tokens = n }

unfoldable pub set_original_task : Text → ContextManager → ContextManager
set_original_task task cm = record cm { original_task = task }

abbrev pub percent : ℕ → ℕ → ℕ
percent p limit = limit * p / 100

unfoldable pub needs_intervention : ContextManager → Bool
needs_intervention cm = cm.enabled && leb (percent 90 cm.limit) cm.estimated_tokens

abbrev pub is_system : Message → Bool
is_system m = elim m.role [ system ↦ true | _ ↦ false ]

abbrev pub is_tool : Message → Bool
is_tool m = elim m.role [ tool ↦ true | _ ↦ false ]

abbrev pub is_assistant : Message → Bool
is_assistant m = elim m.role [ assistant ↦ true | _ ↦ false ]

unfoldable pub truncation_note : Text
truncation_note = codes "\n\n[... output truncated due to context limits ...]"

unfoldable pub truncate_output : ℕ → Message → Message
truncate_output n m =
    if is_tool m && ltb n (length m.content)
    then record m { content = take n m.content ++ truncation_note }
    else m

unfoldable pub truncate_tool_outputs : ContextManager → List Message → List Message
truncate_tool_outputs cm ms = map (truncate_output cm.tool_output_limit) ms

-- The first system message, if there is one.
abbrev pub system_message : List Message → List Message
system_message [] = []
system_message (m ∷ ms) = if is_system m then m ∷ [] else system_message ms

abbrev pub non_system : List Message → List Message
non_system ms = select (λ m. not (is_system m)) ms

unfoldable pub marker_head : ℕ → Text
marker_head dropped =
    codes "[Earlier conversation context removed to manage context size. "
    ++ decimal dropped
    ++ codes " messages were consolidated.]\n"

unfoldable pub reminder_head : Text
reminder_head = codes "\n## REMINDER - Original Task:\n"

unfoldable pub reminder_tail : Text
reminder_tail = codes "\n\nContinue working on this task."

abbrev pub reminder : Text → Text
reminder [] = []
reminder (c ∷ task) = reminder_head ++ (c ∷ task) ++ reminder_tail

unfoldable pub consolidation_marker : Text → ℕ → Message
consolidation_marker task dropped = user_message (marker_head dropped ++ reminder task)

-- The first two and the last eight messages, with a marker between them.
unfoldable pub consolidate_messages : ContextManager → List Message → List Message
consolidate_messages cm ms =
    let rest = non_system ms in
    if leb (length ms) 4 || leb (length rest) 10
    then ms
    else system_message ms
      ++ (take 2 rest
          ++ (consolidation_marker cm.original_task (length rest - 2 - 8) ∷ last_n 8 rest))
