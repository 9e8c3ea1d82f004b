-- ===== src/Tests/Talks.antt =====
-- internal/agent/context_manager.go at concrete values: a conversation of a system prompt and five turns.
use kaggen.Base.{
  ◌≤◌, ◌≡◌, refl, true, Option, none, List, [], ◌∷◌, arith, length, Text, codes, text_key, nat_key,
}
use kaggen.Tests.Tasks.{sid}
use kaggen.Context.Emergency.{check_and_prune}
use kaggen.Context.Pruning.{length-check_and_prune}
use kaggen.Context.Recent.{recent, check_and_prune-recent}
use kaggen.Context.{
  Message, ContextManager, user_message, system, tool, estimate_messages_tokens, system_message,
  truncate_tool_outputs, estimate_message_tokens, estimate_tokens,
}

abbrev no_paths : Text → Option (List (Text × Option Text))
no_paths s = none

abbrev tight : ContextManager
tight = record {
  limit = 20;
  estimated_tokens = 0;
  last_actual_input = 0;
  tool_output_limit = 3;
  original_task = sid;
  prune_count = 0;
  enabled = true;
}

abbrev prompt : Message
prompt = record { role = system; content = codes "be brief"; tool_calls = []; content_parts = [] }

abbrev output : Message
output = record {
  role = tool;
  content = codes "a long output";
  tool_calls = [];
  content_parts = [];
}

abbrev hello : Message
hello = user_message (codes "hello")

abbrev talk : List Message
talk = prompt ∷ hello ∷ output ∷ hello ∷ output ∷ hello ∷ []

length-check_and_prune_example : length (check_and_prune no_paths tight talk).1 ≤ 6
unfolding estimate_messages_tokens estimate_message_tokens
length-check_and_prune_example = length-check_and_prune no_paths tight talk refl (omega arith)

check_and_prune-recent_example :
    (system_message (check_and_prune no_paths tight talk).1
      ≡ system_message (truncate_tool_outputs tight talk))
    × (recent (check_and_prune no_paths tight talk).1 ≡ recent (truncate_tool_outputs tight talk))
unfolding check_and_prune estimate_messages_tokens estimate_message_tokens estimate_tokens
check_and_prune-recent_example = check_and_prune-recent no_paths tight talk refl (omega arith)
