-- ===== src/RateLimit/Window.antt =====
-- internal/channel/telegram_ratelimit.go: the sliding window against the log of all that was allowed,
-- and the spacing of sends.
use kaggen.Base.{
  ℕ, ◌+◌, ◌≤◌, ◌≡◌, some, List, [], arith, ltb, ◌==◌, if◌then◌else◌, length, select, Key, text_key,
  nat_key, get, get-put,
}
use kaggen.RateLimit.{new_user_limiter, allow, is_recent, ChatLimiter, wait, sent_at}
use kaggen.RateLimit.Tracking.{Event, InOrder, sent_by, run, run-IsTracking, new-IsTracking}

module _ {K : Type 0} ⦃e : Key K⦄ where
  -- From a new limiter on, whatever messages and cleanups came in the order of time up to `end`, at
  -- that time no user has more messages allowed within the last window than the limit.
  pub length-sent_by :
      (max_msgs secs end : ℕ) (xs : List (Event K)) (user : K)
      → InOrder 0 xs end
      → length (
          select
            (is_recent (new_user_limiter K max_msgs secs).window end)
            (sent_by user (run (new_user_limiter K max_msgs secs) [] xs).1))
        ≤ (new_user_limiter K max_msgs secs).max_msgs
  length-sent_by max_msgs secs end xs user h =
      let (v, a, b) =
        run-IsTracking 0 end (new_user_limiter K max_msgs secs) [] xs h
          (new-IsTracking max_msgs secs) in
      rw (a, b) at (v.within user end (omega arith))

  -- The answer is the one that a complete log gives: from a new limiter on, after messages and cleanups
  -- in the order of time up to `end`, a message of a user at that time is allowed exactly if fewer of
  -- the user's messages than the limit were allowed within the last window.
  pub allow-sent_by :
      (max_msgs secs end : ℕ) (xs : List (Event K)) (user : K)
      → InOrder 0 xs end
      → (allow user end (run (new_user_limiter K max_msgs secs) [] xs).0).1
        ≡ ltb
            (length (
              select
                (is_recent (new_user_limiter K max_msgs secs).window end)
                (sent_by user (run (new_user_limiter K max_msgs secs) [] xs).1)))
            (new_user_limiter K max_msgs secs).max_msgs
  unfolding allow
  allow-sent_by max_msgs secs end xs user h =
      let (v, a, b) =
        run-IsTracking 0 end (new_user_limiter K max_msgs secs) [] xs h
          (new-IsTracking max_msgs secs) in
      ground (arith, a, b, v.agrees user end (omega arith))

-- Two sends to a chat that follow each other are at least the delay apart, however late a sleep wakes,
-- provided that the clock does not go back; the other chats keep their times.
pub wait_lem :
    (chat other now late now' late' : ℕ) (r : ChatLimiter) (t : ℕ)
    → get chat (wait chat now late r).last_sent ≡ some t
    → t ≤ now'
    → (t' : ℕ) × (get chat (wait chat now' late' (wait chat now late r)).last_sent ≡ some t')
      × (t + r.min_delay ≤ t')
      × (get other (wait chat now' late' (wait chat now late r)).last_sent
          ≡ (if chat == other then some t' else get other r.last_sent))
unfolding wait
wait_lem chat other now late now' late' r t h g =
    let r' = wait chat now late r in
    let t' = sent_at r.min_delay now' (get chat r'.last_sent) late' in
    (
      t',
      ground (arith, get-put chat chat t' r'.last_sent),
      ground (arith, h),
      ground (
        arith,
        get-put chat other t' r'.last_sent,
        get-put chat other (sent_at r.min_delay now (get chat r.last_sent) late) r.last_sent,
      ),
    )
