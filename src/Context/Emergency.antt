-- ===== src/Context/Emergency.antt =====
-- internal/agent/context_manager.go: the emergency level, with its summary of the conversation, and the
-- choice of the level. The decoding of a tool call's JSON arguments is the parameter `decode`: the keys
-- in the order in which the map is walked, with their values where these are strings.
use kaggen.Base.{
  ℕ, ◌+◌, ◌≤◌, ◌≡◌, ◌⊎◌, inl, inr, Bool, true, false, ◌&&◌, ◌||◌, not, Option, none, some, List, [],
  ◌∷◌, ◌++◌, map, arith, ltb, if◌then◌else◌, Bool-cases, found, length, take, last_n, Text, codes,
  ◌is◌, text_key, nat_key, contains, to_lower, join,
}
use kaggen.Context.{
  ContextManager, Message, ToolCall, estimate_messages_tokens, is_assistant, system_message,
  truncate_tool_outputs, user_message, non_system, percent, consolidate_messages,
}

abbrev pub progress_words : List Text
progress_words =
    codes "completed"
    ∷ codes "created"
    ∷ codes "updated"
    ∷ codes "fixed"
    ∷ codes "implemented"
    ∷ codes "done"
    ∷ []

abbrev pub contains_any : Text → List Text → Bool
contains_any s [] = false
contains_any s (w ∷ ws) = contains s w || contains_any s ws

unfoldable pub is_progress : Message → Bool
is_progress m =
    is_assistant m && ltb 50 (length m.content) && contains_any (to_lower m.content) progress_words

-- The loop from the last message backwards, up to the first that passes.
abbrev pub last_where : (Message → Bool) → List Message → Option Message
last_where p [] = none
last_where p (m ∷ ms) =
    let later = last_where p ms in if found later || not (p m) then later else some m

abbrev pub progress_line : Option Message → Text
progress_line none = []
progress_line (some m) =
    codes "Recent progress: "
    ++ (if ltb 300 (length m.content) then take 300 m.content ++ codes "..." else m.content)
    ++ codes "\n\n"

abbrev pub call_names : List ToolCall → List Text
call_names cs = map (λ c. c.name) cs

abbrev pub tools_called : List Message → List Text
tools_called [] = []
tools_called (m ∷ ms) = call_names m.tool_calls ++ tools_called ms

abbrev pub is_one_of : Text → List Text → Bool
is_one_of t [] = false
is_one_of t (x ∷ xs) = t is x || is_one_of t xs

-- The first occurrences, in order.
unfoldable pub unique_texts : List Text → List Text → List Text
unique_texts seen [] = []
unique_texts seen (t ∷ ts) =
    let rest = unique_texts (t ∷ seen) ts in
    let skipped = unique_texts seen ts in if is_one_of t seen then skipped else t ∷ rest

-- A line of the summary: at most so many names, nothing where there are none.
abbrev pub listed : Text → ℕ → List Text → Text
listed head n [] = []
listed head n (x ∷ xs) = head ++ join (codes ", ") (take n (x ∷ xs)) ++ codes "\n"

abbrev pub names_a_file : Text → Bool
names_a_file key = contains (to_lower key) (codes "path") || contains (to_lower key) (codes "file")

abbrev pub file_args : List (Text × Option Text) → List Text
file_args [] = []
file_args ((key, none) ∷ args) = file_args args
file_args ((key, some v) ∷ args) = if names_a_file key then v ∷ file_args args else file_args args

abbrev pub task_section : Text → Text
task_section [] = []
task_section (c ∷ task) = codes "## ORIGINAL TASK (must complete):\n" ++ (c ∷ task) ++ codes "\n\n"

abbrev pub summary_section : Text → Text
summary_section [] = []
summary_section (c ∷ s) = codes "## PROGRESS SUMMARY:\n" ++ (c ∷ s) ++ codes "\n\n"

unfoldable pub emergency_head : Text
emergency_head = codes "[CONTEXT EMERGENCY: Conversation condensed due to token limits]\n\n"

unfoldable pub emergency_message : Text → Text → Message
emergency_message task summary = user_message (
    emergency_head
    ++ task_section task
    ++ summary_section summary
    ++ codes "Continue working on the task above.")

module _ (decode : Text → Option (List (Text × Option Text))) where
  abbrev pub call_paths : ToolCall → List Text
  call_paths c = elim c.arguments [
    | [] ↦ []
    | _ ∷ _ ↦ elim (decode c.arguments) [ none ↦ [] | some args ↦ file_args args ]
  ]

  abbrev pub calls_paths : List ToolCall → List Text
  calls_paths [] = []
  calls_paths (c ∷ cs) = call_paths c ++ calls_paths cs

  abbrev pub all_paths : List Message → List Text
  all_paths [] = []
  all_paths (m ∷ ms) = calls_paths m.tool_calls ++ all_paths ms

  unfoldable pub extract_file_paths : List Message → List Text
  extract_file_paths ms = unique_texts [] (all_paths ms)

  unfoldable pub create_emergency_summary : List Message → Text
  create_emergency_summary ms =
      progress_line (last_where is_progress ms)
      ++ listed (codes "Tools used: ") 10 (unique_texts [] (tools_called ms))
      ++ listed (codes "Files worked on: ") 8 (extract_file_paths ms)

  -- The system message, the restored context and the last four messages.
  unfoldable pub emergency_prune : ContextManager → List Message → List Message
  emergency_prune cm ms =
      system_message ms
      ++ (emergency_message cm.original_task (create_emergency_summary ms)
          ∷ last_n 4 (non_system ms))

  -- The messages at the level that an estimate asks for.
  unfoldable pub prune : ContextManager → ℕ → List Message → List Message
  prune cm estimated ms =
      let short = truncate_tool_outputs cm ms in
      if ltb estimated (percent 75 cm.limit)
      then short
      else (let merged = consolidate_messages cm short in
          if ltb estimated (percent 90 cm.limit) then merged else emergency_prune cm merged)

  unfoldable pub check_and_prune :
      ContextManager → List Message → ContextManager × List Message × Bool
  check_and_prune cm ms =
      let estimated = estimate_messages_tokens ms in
      let counted = record cm { estimated_tokens = estimated } in
      if not cm.enabled
      then (cm, ms, false)
      else if ltb estimated (percent 60 cm.limit)
      then (counted, ms, false)
      else (record counted { prune_count = cm.prune_count + 1 }, prune cm estimated ms, true)

  -- From six tenths of the limit on, the messages are cut; below, and without pruning, they stay.
  pub check_and_prune-cases :
      (cm : ContextManager) (ms : List Message)
      → ((check_and_prune cm ms).1 ≡ ms) × ((check_and_prune cm ms).2 ≡ false)
        ⊎ ((check_and_prune cm ms).1 ≡ prune cm (estimate_messages_tokens ms) ms)
          × (percent 60 cm.limit ≤ estimate_messages_tokens ms)
          × (cm.enabled ≡ true)
  unfolding check_and_prune
  check_and_prune-cases cm ms = elim (Bool-cases cm.enabled) [
    | inr off ↦ inl (ground (arith, off), ground (arith, off))
    | inl on ↦ elim (Bool-cases (ltb (estimate_messages_tokens ms) (percent 60 cm.limit))) [
      | inl e ↦ inl (ground (arith, on, e), ground (arith, on, e))
      | inr e ↦ inr (ground (arith, on, e), ground (arith, on, e), on)
    ]
  ]
