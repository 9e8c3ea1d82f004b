-- ===== src/Tests/Sessions.antt =====
-- internal/agent/worldmodel.go, internal/channel/telegram_ratelimit.go and internal/trust at concrete
-- values.
use mathlib.Core.List.{reverse}
use kaggen.Base.{
  ℕ, ◌+◌, ◌≡◌, refl, true, false, ◌&&◌, List, [], ◌∷◌, arith, ltb, length, select, Text, codes,
  text_key, nat_key, get,
}
use kaggen.WorldModel.{new_world_model}
use kaggen.WorldModel.Streaks.{
  CallEnd, record_calls, logged, ended, streak, record_calls-error_streak,
}
use kaggen.RateLimit.{new_user_limiter, allow, is_recent, ChatLimiter}
use kaggen.RateLimit.Tracking.{Event, message, cleanup, sent_by, run}
use kaggen.RateLimit.Window.{allow-sent_by}
use kaggen.Trust.{TrustConfig, Message, Sandbox, count}
use kaggen.Trust.Limits.{
  Arrival, process, process_all, is_limit_exceeded, arrived, process-limit_exceeded,
}

abbrev sid : Text
sid = 115 ∷ []

abbrev bash : Text
bash = codes "bash"

abbrev fails_at : ℕ → CallEnd
fails_at now = record {
  call_id = sid;
  tool = bash;
  success = false;
  message = sid;
  size = 0;
  now = now;
}

record_calls-error_streak_example :
    (logged (record_calls (new_world_model sid 0) (fails_at 1 ∷ fails_at 2 ∷ [])).tool_calls
      ≡ ended (fails_at 1 ∷ fails_at 2 ∷ []))
    × ((record_calls (new_world_model sid 0) (fails_at 1 ∷ fails_at 2 ∷ [])).error_streak
        ≡ streak (
            reverse
              (record_calls (new_world_model sid 0) (fails_at 1 ∷ fails_at 2 ∷ [])).tool_calls))
record_calls-error_streak_example = record_calls-error_streak sid 0 (fails_at 1 ∷ fails_at 2 ∷ [])

abbrev chatter : List (Event ℕ)
chatter = message 7 5 ∷ message 7 6 ∷ message 8 6 ∷ cleanup 7 ∷ message 7 9 ∷ []

allow-sent_by_example :
    (allow 7 9 (run (new_user_limiter ℕ 2 1) [] chatter).0).1
    ≡ ltb
        (length (
          select
            (is_recent (new_user_limiter ℕ 2 1).window 9)
            (sent_by 7 (run (new_user_limiter ℕ 2 1) [] chatter).1)))
        (new_user_limiter ℕ 2 1).max_msgs
allow-sent_by_example =
    allow-sent_by 2 1 9 chatter 7
      (omega arith, (omega arith, (omega arith, (omega arith, (omega arith, omega arith)))))

abbrev quiet : ChatLimiter
quiet = record { last_sent = []; min_delay = 10 }

abbrev config : TrustConfig
config = record { owner_phones = codes "+15" ∷ []; owner_telegram = 9 ∷ [] }

abbrev asks : Message
asks = record {
  session_id = sid;
  sender_phone = codes "77";
  sender_name = [];
  content = codes "tell";
  channel = sid;
}

abbrev arrival : Arrival
arrival = record { id = codes "r"; now = 4; msg = asks }

abbrev sandbox : Sandbox
sandbox = record {
  allow_relay = true;
  requests = [];
  tracker = record { counts = []; max_limit = 1 };
}

abbrev all_of_it : Text → Text
all_of_it t = t

process-limit_exceeded_example :
    is_limit_exceeded (process all_of_it arrival (process_all all_of_it (arrival ∷ []) sandbox)).1
    ≡ (ltb 0 1 && ltb 1 (arrived sid (arrival ∷ []) + 1))
unfolding count get
process-limit_exceeded_example =
    process-limit_exceeded all_of_it (arrival ∷ []) arrival sandbox refl
