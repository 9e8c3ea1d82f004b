-- ===== src/Context/Pruning.antt =====
-- internal/agent/context_manager.go: how long the cut conversation is, and the original task in it.
use kaggen.Base.{
  ◌≤◌, ◌≡◌, ◌⊎◌, Bool, true, false, ◌&&◌, ◌||◌, Option, List, [], ◌∷◌, arith, ltb, length, last_n,
  length-append, Text, text_key, nat_key, contains, length-last_n,
}
use kaggen.Context.Emergency.{
  emergency_message, emergency_prune, check_and_prune, create_emergency_summary, prune,
}
use kaggen.Context.{
  user, Message, consolidate_messages, truncate_tool_outputs, ContextManager, non_system,
  system_message, percent, estimate_messages_tokens, is_tool,
}

abbrev pub any_message : (Message → Bool) → List Message → Bool
any_message p [] = false
any_message p (m ∷ ms) = p m || any_message p ms

abbrev is_user : Message → Bool
is_user m = elim m.role [ user ↦ true | _ ↦ false ]

-- A user message that has the task in it.
abbrev pub reminds : Text → Message → Bool
reminds task m = is_user m && contains m.content task

-- The second message is the first one, or the same tool's with another text.
abbrev pub IsCutOf : Message → Message → Type 0
IsCutOf m n = (n ≡ m) ⊎ ((is_tool m ≡ true) × (n ≡ record m { content = n.content }))

-- Message for message, in order.
abbrev pub KeepsAll : List Message → List Message → Type 0
KeepsAll [] [] = Unit
KeepsAll [] (n ∷ ns) = ⊥
KeepsAll (m ∷ ms) [] = ⊥
KeepsAll (m ∷ ms) (n ∷ ns) = IsCutOf m n × KeepsAll ms ns

-- All the messages, or the task.
abbrev pub KeepsOrReminds : Text → List Message → List Message → Type 0
KeepsOrReminds task ms ns = KeepsAll ms ns ⊎ (any_message (reminds task) ns ≡ true)

length-system_message : (ms : List Message) → length (system_message ms) ≤ 1
length-system_message [] = omega arith
length-system_message (m ∷ ms) = ground (arith, length-system_message ms)

length-emergency_prune :
    (decode : Text → Option (List (Text × Option Text))) (cm : ContextManager) (ms : List Message)
    → length (emergency_prune decode cm ms) ≤ 6
unfolding emergency_prune
length-emergency_prune decode cm ms = omega (
  arith,
  length-append (system_message ms) (
      emergency_message cm.original_task (create_emergency_summary decode ms)
      ∷ last_n 4 (non_system ms)),
  length-system_message ms,
  length-last_n 4 (non_system ms),
)

-- From nine tenths of the limit on, at most six messages are left.
pub length-check_and_prune :
    (decode : Text → Option (List (Text × Option Text))) (cm : ContextManager) (ms : List Message)
    → cm.enabled ≡ true
    → percent 90 cm.limit ≤ estimate_messages_tokens ms
    → length (check_and_prune decode cm ms).1 ≤ 6
unfolding check_and_prune prune
length-check_and_prune decode cm ms on h =
    let n = estimate_messages_tokens ms in
    let e75 : ltb n (percent 75 cm.limit) ≡ false = ground arith in
    let e90 : ltb n (percent 90 cm.limit) ≡ false = ground arith in
    let cut : (check_and_prune decode cm ms).1
        ≡ emergency_prune decode cm (consolidate_messages cm (truncate_tool_outputs cm ms)) =
      ground (arith, on, e75, e90) in
    rw cut
      (length-emergency_prune decode cm (consolidate_messages cm (truncate_tool_outputs cm ms)))
