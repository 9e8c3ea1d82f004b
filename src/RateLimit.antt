-- ===== src/RateLimit.antt =====
-- internal/channel/telegram_ratelimit.go: the spacing of what is sent to a chat, and the sliding
-- window of what a user may send. internal/channel/whatsapp_ratelimit.go has the same code for phone
-- numbers, so the keys of the user limiter are a parameter. The clock is an argument; a test of a time
-- against the clock less a span is written with the span added to the time.
pub mod Tracking
pub mod Window
use kaggen.Base.{
  ℕ, zero, suc, ◌+◌, ◌-◌, ◌*◌, ◌/◌, ◌%◌, ◌≤◌, ◌<◌, ◌≡◌, refl, sym, ap, ◌∙◌, ◌≢◌, ◌↔◌, ◌⊎◌, inl, inr,
  ite, Bool, true, false, ◌&&◌, ◌||◌, not, Option, none, some, List, [], ◌∷◌, ◌++◌, map, arith,
  dec_lt, ℕ_discrete, ltb, leb, ◌==◌, if◌then◌else◌, Bool-cases, Option-cases, found, length, take,
  drop, get_elem?, select, last_n, All, length-append, length-take, length-drop, take-append-drop,
  length-select-le, select-append, select_idem, Text, codes, text_discrete, ◌is◌, starts_with, Key,
  text_key, nat_key, Map, keep_if, get, put, del, Unique, get-put, get-del, put-Unique, del-Unique,
  values_where, del_where, map_values, get-map_values, get-del_where-none, get-del_where-some,
  del_where-Unique, map_values-Unique, values_where-del_where, contains, lower_code, to_lower,
}

-- The last time each chat was sent to.
pub record ChatLimiter : Type 0 where
  pub last_sent : Map ℕ ℕ
  pub min_delay : ℕ

-- One second, in nanoseconds.
unfoldable pub new_chat_limiter : ChatLimiter
new_chat_limiter = record { last_sent = []; min_delay = 1000000000 }

-- When the call returns: at once, or after the rest of the delay, and `late` more, since a sleep may
-- last longer than asked.
abbrev pub sent_at : ℕ → ℕ → Option ℕ → ℕ → ℕ
sent_at min_delay now none late = now + late
sent_at min_delay now (some last) late =
    if ltb (now - last) min_delay then now + (min_delay - (now - last)) + late else now + late

unfoldable pub wait : ℕ → ℕ → ℕ → ChatLimiter → ChatLimiter
wait chat now late r = record r {
  last_sent = put chat (sent_at r.min_delay now (get chat r.last_sent) late) r.last_sent;
}

-- Five minutes, in nanoseconds.
abbrev pub chat_memory : ℕ
chat_memory = 300000000000

unfoldable pub cleanup_chats : ℕ → ChatLimiter → ChatLimiter
cleanup_chats now r = record r {
  last_sent = del_where (λ t. ltb (t + chat_memory) now) r.last_sent;
}

pub record UserLimiter (K : Type 0) : Type 0 where
  pub timestamps : Map K (List ℕ)
  pub max_msgs : ℕ
  pub window : ℕ

abbrev pub times_of : Option (List ℕ) → List ℕ
times_of none = []
times_of (some ts) = ts

-- `t.After(now.Add(-window))`.
abbrev pub is_recent : ℕ → ℕ → ℕ → Bool
is_recent window now t = ltb now (t + window)

abbrev pub is_empty : List ℕ → Bool
is_empty [] = true
is_empty (t ∷ ts) = false

-- The arguments are Go integers; those that are not positive all give the same as 0.
pub new_user_limiter : (K : Type 0) → ℕ → ℕ → UserLimiter K
new_user_limiter K max_msgs window_sec = record {
  timestamps = [];
  max_msgs = if max_msgs == 0 then 10 else max_msgs;
  window = (if window_sec == 0 then 60 else window_sec) * 1000000000;
}

module _ {K : Type 0} ⦃e : Key K⦄ where
  pub allow : K → ℕ → UserLimiter K → UserLimiter K × Bool
  allow user now r =
      let recent = select (is_recent r.window now) (times_of (get user r.timestamps)) in
      if leb r.max_msgs (length recent)
      then (record r { timestamps = put user recent r.timestamps }, false)
      else (record r { timestamps = put user (recent ++ (now ∷ [])) r.timestamps }, true)

  pub cleanup_users : ℕ → UserLimiter K → UserLimiter K
  cleanup_users now r = record r {
    timestamps =
        del_where is_empty (map_values (select (is_recent (r.window * 2) now)) r.timestamps);
  }
