-- ===== src/RateLimit/Tracking.antt =====
-- internal/channel/telegram_ratelimit.go: events at the user limiter, the log of all that it allowed, and
-- what it knows of that log at each time.
use kaggen.Base.{
  ℕ, ◌*◌, ◌≤◌, ◌≡◌, refl, ap, ◌∙◌, ◌≢◌, inl, inr, ite, Bool, true, List, [], ◌∷◌, ◌++◌, arith, leb,
  if◌then◌else◌, Bool-cases, Option-cases, length, select, length-append, length-select-le,
  select-append, Key, text_key, nat_key, get, put, Unique, get-put, put-Unique, map_values,
  get-map_values, get-del_where-none, get-del_where-some, del_where-Unique, map_values-Unique,
}
use kaggen.RateLimit.{
  UserLimiter, new_user_limiter, allow, cleanup_users, times_of, is_recent, is_empty,
}

-- A time that is still recent later was recent before.
recent-earlier :
    (window now later t : ℕ)
    → now ≤ later
    → is_recent window later t ≡ true
    → is_recent window now t ≡ true
recent-earlier window now later t h r = ground arith

select-weaker :
    (p q : ℕ → Bool) (ts : List ℕ)
    → ((t : ℕ) → p t ≡ true → q t ≡ true)
    → select p (select q ts) ≡ select p ts
select-weaker p q [] h = refl
select-weaker p q (t ∷ ts) h = ground (arith, select-weaker p q ts h, h t)

length-select-weaker :
    (p q : ℕ → Bool) (ts : List ℕ)
    → ((t : ℕ) → p t ≡ true → q t ≡ true)
    → length (select p ts) ≤ length (select q ts)
length-select-weaker p q [] h = omega arith
length-select-weaker p q (t ∷ ts) h = ground (arith, length-select-weaker p q ts h, h t)

-- A message of a user, or the periodic cleanup, and its time.
pub data Event (K : Type 0) : Type 0 where
  message : K → ℕ → Event K
  cleanup : ℕ → Event K

abbrev pub time_of : {K : Type 0} → Event K → ℕ
time_of (message user now) = now
time_of (cleanup now) = now

-- The events come in the order of their times, all from `start` to `end` on.
abbrev pub InOrder : {K : Type 0} → ℕ → List (Event K) → ℕ → Type 0
InOrder start [] end = start ≤ end
InOrder start (x ∷ xs) end = (start ≤ time_of x) × InOrder (time_of x) xs end

module _ {K : Type 0} ⦃e : Key K⦄ where
  -- The times at which a user's messages were allowed.
  pub sent_by : K → List (K × ℕ) → List ℕ
  sent_by user [] = []
  sent_by user ((u, t) ∷ log) = ite (e.dec u user) (t ∷ sent_by user log) (sent_by user log)

  -- The limiter, and the log of all the messages that were allowed, after an event.
  unfoldable pub step : UserLimiter K → List (K × ℕ) → Event K → UserLimiter K × List (K × ℕ)
  unfolding allow cleanup_users
  step r log (message user now) =
      ((allow user now r).0, if (allow user now r).1 then log ++ ((user, now) ∷ []) else log)
  step r log (cleanup now) = (cleanup_users now r, log)

  unfoldable pub run : UserLimiter K → List (K × ℕ) → List (Event K) → UserLimiter K × List (K × ℕ)
  unfolding step
  run r log [] = (r, log)
  run r log (x ∷ xs) = run (step r log x).0 (step r log x).1 xs

  sent_by-append :
      (user u : K) (t : ℕ) (log : List (K × ℕ))
      → sent_by user (log ++ ((u, t) ∷ []))
        ≡ ite (e.dec u user) (sent_by user log ++ (t ∷ [])) (sent_by user log)
  unfolding sent_by
  sent_by-append user u t [] = ground arith
  sent_by-append user u t ((v, s) ∷ log) = ground (arith, sent_by-append user u t log)

  -- At each later time the limiter knows of the log what is recent then, and that is within the limit.
  pub record IsTracking (r : UserLimiter K) (log : List (K × ℕ)) (now : ℕ) : Type 0 where
    pub unique : Unique r.timestamps
    pub agrees :
        (user : K) (later : ℕ)
        → now ≤ later
        → select (is_recent r.window later) (times_of (get user r.timestamps))
          ≡ select (is_recent r.window later) (sent_by user log)
    pub within :
        (user : K) (later : ℕ)
        → now ≤ later
        → length (select (is_recent r.window later) (sent_by user log)) ≤ r.max_msgs

  -- What the limiter keeps of a user's times at a message is what is recent of the log then.
  kept-select :
      (user : K) (now later t : ℕ) (r : UserLimiter K) (log : List (K × ℕ))
      → now ≤ later
      → later ≤ t
      → IsTracking r log now
      → select
          (is_recent r.window t)
          (select (is_recent r.window later) (times_of (get user r.timestamps)))
        ≡ select (is_recent r.window t) (sent_by user log)
  kept-select user now later t r log h g v =
      select-weaker (is_recent r.window t) (is_recent r.window later)
        (times_of (get user r.timestamps)) (λ x. recent-earlier r.window later t x g)
      ∙ v.agrees user t (omega (arith, h, g))

  -- Putting times for a user that agree with the new log, which the other users' part of is the old.
  put-IsTracking :
      (user : K) (now later : ℕ) (r : UserLimiter K) (log log' : List (K × ℕ)) (ts : List ℕ)
      → now ≤ later
      → IsTracking r log now
      → ((other : K) → user ≢ other → sent_by other log' ≡ sent_by other log)
      → ((t : ℕ)
          → later ≤ t
          → (select (is_recent r.window t) ts ≡ select (is_recent r.window t) (sent_by user log'))
            × (length (select (is_recent r.window t) (sent_by user log')) ≤ r.max_msgs))
      → IsTracking (record r { timestamps = put user ts r.timestamps }) log' later
  put-IsTracking user now later r log log' ts h v others mine = record {
    unique = put-Unique user ts r.timestamps v.unique;
    agrees = λ u t g. elim (e.dec user u) [
      | yes q ↦ ground (arith, q, get-put user u ts r.timestamps, mine t g)
      | no q ↦
          ground (
            arith,
            q,
            get-put user u ts r.timestamps,
            others u q,
            v.agrees u t (omega (arith, h, g)),
          )
    ];
    within = λ u t g. elim (e.dec user u) [
      | yes q ↦ ground (arith, q, mine t g)
      | no q ↦ ground (arith, q, others u q, v.within u t (omega (arith, h, g)))
    ];
  }

  allow-IsTracking :
      (user : K) (now later : ℕ) (r : UserLimiter K) (log : List (K × ℕ))
      → now ≤ later
      → IsTracking r log now
      → IsTracking (step r log (message user later)).0 (step r log (message user later)).1 later
  unfolding step allow
  allow-IsTracking user now later r log h v =
      let kept = select (is_recent r.window later) (times_of (get user r.timestamps)) in
      let known = v.agrees user later h in
      elim (Bool-cases (leb r.max_msgs (length kept))) [
        | inl f ↦ rw (f) (
            put-IsTracking user now later r log log kept h v (λ u q. refl)
              (λ t g.
                (kept-select user now later t r log h g v, v.within user t (omega (arith, h, g)))))
        | inr f ↦ rw (f) (
            put-IsTracking user now later r log (log ++ ((user, later) ∷ [])) (kept ++ (later ∷ []))
              h v (λ u q. ground (arith, q, sent_by-append u user later log))
              (λ t g. (
                ground (
                  arith,
                  sent_by-append user user later log,
                  select-append (is_recent r.window t) kept (later ∷ []),
                  select-append (is_recent r.window t) (sent_by user log) (later ∷ []),
                  kept-select user now later t r log h g v,
                ),
                ground (
                  arith,
                  f,
                  known,
                  sent_by-append user user later log,
                  select-append (is_recent r.window t) (sent_by user log) (later ∷ []),
                  length-append (select (is_recent r.window t) (sent_by user log))
                      (select (is_recent r.window t) (later ∷ [])),
                  length-select-le (is_recent r.window t) (later ∷ []),
                  length-select-weaker (is_recent r.window t) (is_recent r.window later)
                      (sent_by user log) (λ x. recent-earlier r.window later t x g),
                ),
              )))
      ]

  -- What the cleanup leaves of a user's times.
  times_of-cleanup :
      (user : K) (now : ℕ) (r : UserLimiter K)
      → Unique r.timestamps
      → times_of (get user (cleanup_users now r).timestamps)
        ≡ select (is_recent (r.window * 2) now) (times_of (get user r.timestamps))
  unfolding cleanup_users
  times_of-cleanup user now r u =
      let keep = select (is_recent (r.window * 2) now) in
      let mapped = get-map_values user keep r.timestamps in
      let still = map_values-Unique keep r.timestamps u in
      elim (Option-cases (get user r.timestamps)) [
        | inl f ↦
            ground
              (arith, f, mapped, get-del_where-none user is_empty (map_values keep r.timestamps))
        | inr (ts, f) ↦ elim (Bool-cases (is_empty (keep ts))) [
          | inl g ↦ ground (
            arith,
            f,
            mapped,
            g,
            get-del_where-some user is_empty (map_values keep r.timestamps) (keep ts) still,
          )
          | inr g ↦ ground (
            arith,
            f,
            mapped,
            g,
            get-del_where-some user is_empty (map_values keep r.timestamps) (keep ts) still,
          )
        ]
      ]

  cleanup-IsTracking :
      (now later : ℕ) (r : UserLimiter K) (log : List (K × ℕ))
      → now ≤ later
      → IsTracking r log now
      → IsTracking (cleanup_users later r) log later
  unfolding cleanup_users
  cleanup-IsTracking now later r log h v = record {
    unique =
        del_where-Unique is_empty _
          (map_values-Unique (select (is_recent (r.window * 2) later)) r.timestamps v.unique);
    agrees = λ user t g.
        ap (select (is_recent r.window t)) (times_of-cleanup user later r v.unique)
        ∙ select-weaker (is_recent r.window t) (is_recent (r.window * 2) later)
            (times_of (get user r.timestamps)) (λ x f. ground (arith, f, g))
        ∙ v.agrees user t (omega (arith, h, g));
    within = λ user t g. v.within user t (omega (arith, h, g));
  }

  step-limits :
      (r : UserLimiter K) (log : List (K × ℕ)) (x : Event K)
      → ((step r log x).0.window ≡ r.window) × ((step r log x).0.max_msgs ≡ r.max_msgs)
  unfolding step allow cleanup_users
  step-limits r log (message user now) = ground arith
  step-limits r log (cleanup now) = (refl, refl)

  step-IsTracking :
      (now : ℕ) (r : UserLimiter K) (log : List (K × ℕ)) (x : Event K)
      → now ≤ time_of x
      → IsTracking r log now
      → IsTracking (step r log x).0 (step r log x).1 (time_of x)
  unfolding step
  step-IsTracking now r log (message user later) h v = allow-IsTracking user now later r log h v
  step-IsTracking now r log (cleanup later) h v = cleanup-IsTracking now later r log h v

  later-IsTracking :
      (now later : ℕ) (r : UserLimiter K) (log : List (K × ℕ))
      → now ≤ later
      → IsTracking r log now
      → IsTracking r log later
  later-IsTracking now later r log h v = record {
    unique = v.unique;
    agrees = λ user t g. v.agrees user t (omega (arith, h, g));
    within = λ user t g. v.within user t (omega (arith, h, g));
  }

  pub run-IsTracking :
      (start end : ℕ) (r : UserLimiter K) (log : List (K × ℕ)) (xs : List (Event K))
      → InOrder start xs end
      → IsTracking r log start
      → IsTracking (run r log xs).0 (run r log xs).1 end
        × ((run r log xs).0.window ≡ r.window)
        × ((run r log xs).0.max_msgs ≡ r.max_msgs)
  unfolding run
  run-IsTracking start end r log [] h v = (later-IsTracking start end r log h v, refl, refl)
  run-IsTracking start end r log (x ∷ xs) (h, hs) v =
      let (same_window, same_max) = step-limits r log x in
      let (w, a, b) =
        run-IsTracking (time_of x) end (step r log x).0 (step r log x).1 xs hs
          (step-IsTracking start r log x h v) in
      (w, a ∙ same_window, b ∙ same_max)

  pub new-IsTracking : (max_msgs secs : ℕ) → IsTracking (new_user_limiter K max_msgs secs) [] 0
  unfolding new_user_limiter get sent_by
  new-IsTracking max_msgs secs = record {
    unique = tt;
    agrees = λ user t g. refl;
    within = λ user t g. omega arith;
  }
