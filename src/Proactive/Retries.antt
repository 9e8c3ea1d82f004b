-- ===== src/Proactive/Retries.antt =====
-- internal/proactive/engine.go, `executeWithRetry`: how often a job is tried, and what is counted.
use kaggen.Proactive.{Attempt, Engine, execute, Job, retry, is_channel, execute_with_retry}
use kaggen.Base.{
  ℕ, zero, suc, ◌+◌, ◌-◌, ◌≤◌, ◌<◌, ◌≡◌, refl, ◌∙◌, ◌⊎◌, inl, inr, Bool, true, false, ◌&&◌, ◌||◌,
  not, arith, ltb, if◌then◌else◌, Bool-cases, Option-cases, found, text_key, nat_key,
}

-- The counters of finished runs, and the retries.
abbrev pub Counts : Type 0
Counts = ℕ × ℕ × ℕ

abbrev pub counts : Engine → Counts
counts e = (e.jobs_executed, e.jobs_failed, e.jobs_retried)

abbrev pub retry_mark : ℕ → ℕ
retry_mark attempt = if ltb 0 attempt then 1 else 0

abbrev pub waiting : ℕ → Engine → Engine
waiting attempt e = if ltb 0 attempt then record e { jobs_retried = e.jobs_retried + 1 } else e

-- What one attempt adds: a success, a failure, or nothing where the channel is unknown.
execute_cases :
    (j : Job) (n : ℕ) (a : Attempt) (e : Engine)
    → (is_channel j.channel e.channels ≡ true)
        × ((execute j n a e).1 ≡ not (found a.error))
        × (counts (execute j n a e).0 ≡ (
            if found a.error
            then (e.jobs_executed, e.jobs_failed + 1, e.jobs_retried)
            else (e.jobs_executed + 1, e.jobs_failed, e.jobs_retried)))
        × ((execute j n a e).0.channels ≡ e.channels)
      ⊎ (execute j n a e ≡ (e, false)) × (is_channel j.channel e.channels ≡ false)
unfolding execute
execute_cases j n a e = elim (Bool-cases (is_channel j.channel e.channels)) [
  | inr missing ↦ inr (ground (arith, missing), missing)
  | inl known ↦ elim (Option-cases a.error) [
    | inl fine ↦ inl (
      known,
      ground (arith, known, fine),
      ground (arith, known, fine),
      ground (arith, known, fine),
    )
    | inr (err, bad) ↦ elim (Bool-cases a.deadline) [
      | inl late ↦ inl (
        known,
        ground (arith, known, bad),
        ground (arith, known, bad, late),
        ground (arith, known, bad, late),
      )
      | inr early ↦ inl (
        known,
        ground (arith, known, bad),
        ground (arith, known, bad, early),
        ground (arith, known, bad, early),
      )
    ]
  ]
]

module _ (world : ℕ → Attempt) where
  -- The loop's body, with its three ends.
  retry_cases :
      (j : Job) (left attempt : ℕ) (e : Engine)
      → (retry world j (suc left) attempt e ≡ waiting attempt e)
        ⊎ (retry world j (suc left) attempt e
            ≡ (execute j (attempt + 1) (world attempt) (waiting attempt e)).0)
        ⊎ (retry world j (suc left) attempt e
            ≡ retry world j left
                (attempt + 1)
                (execute j (attempt + 1) (world attempt) (waiting attempt e)).0)
          × ((execute j (attempt + 1) (world attempt) (waiting attempt e)).1 ≡ false)
  unfolding retry
  retry_cases j left attempt e =
      elim (Bool-cases (ltb 0 attempt && (world attempt).stopped_waiting)) [
        | inl out ↦ inl (rw out refl)
        | inr on ↦
            elim (Bool-cases (
              (execute j (attempt + 1) (world attempt) (waiting attempt e)).1
              || (world attempt).stopped)) [
                | inl done ↦ inr (inl (rw (on, done) refl))
                | inr more ↦ inr (inr (rw (on, more) refl, ground (arith, more)))
              ]
      ]

-- At most one success, at most so many failures and retries more than before.
pub record Within (failures retries : ℕ) (e after : Engine) : Type 0 where
  pub executed : after.jobs_executed ≤ e.jobs_executed + 1
  pub failed : after.jobs_failed ≤ e.jobs_failed + failures
  pub retried : after.jobs_retried ≤ e.jobs_retried + retries

abbrev run_once : Job → ℕ → Attempt → Engine → Engine × Bool
run_once j attempt a e = execute j (attempt + 1) a (waiting attempt e)

waiting-counts :
    (attempt : ℕ) (e : Engine)
    → (counts (waiting attempt e)
        ≡ (e.jobs_executed, e.jobs_failed, e.jobs_retried + retry_mark attempt))
      × ((waiting attempt e).channels ≡ e.channels)
waiting-counts attempt e = elim (Bool-cases (ltb 0 attempt)) [
  | inl later ↦ (ground (arith, later), ground (arith, later))
  | inr first ↦ (ground (arith, first), ground (arith, first))
]

waiting-Within : (attempt : ℕ) (e : Engine) → Within 0 (retry_mark attempt) e (waiting attempt e)
waiting-Within attempt e = record {
  executed = ground (arith, waiting-counts attempt e);
  failed = ground (arith, waiting-counts attempt e);
  retried = ground (arith, waiting-counts attempt e);
}

run_once-Within :
    (j : Job) (attempt : ℕ) (a : Attempt) (e : Engine)
    → Within 1 (retry_mark attempt) e (run_once j attempt a e).0
      × ((run_once j attempt a e).1 ≡ false
          → (run_once j attempt a e).0.jobs_executed ≡ e.jobs_executed)
run_once-Within j attempt a e =
    let w = waiting-counts attempt e in
    elim (execute_cases j (attempt + 1) a (waiting attempt e)) [
      | inl (known, ok, n, same) ↦ elim (Bool-cases (found a.error)) [
        | inl bad ↦ (
          record {
            executed = ground (arith, w, n, bad);
            failed = ground (arith, w, n, bad);
            retried = ground (arith, w, n, bad);
          },
          λ f. ground (arith, w, n, bad),
        )
        | inr fine ↦ (
          record {
            executed = ground (arith, w, n, fine);
            failed = ground (arith, w, n, fine);
            retried = ground (arith, w, n, fine);
          },
          λ f. absurd (ground (arith, ok, fine, f)),
        )
      ]
      | inr (none', _) ↦ (
        record {
          executed = ground (arith, w, none');
          failed = ground (arith, w, none');
          retried = ground (arith, w, none');
        },
        λ f. ground (arith, w, none'),
      )
    ]

retry_mark_le : (attempt : ℕ) → retry_mark attempt ≤ 1
retry_mark_le attempt = ground arith

module _ (world : ℕ → Attempt) where
  retry-Within :
      (j : Job) (left attempt : ℕ) (e : Engine)
      → Within left (left - (1 - retry_mark attempt)) e (retry world j left attempt e)
  unfolding retry
  retry-Within j zero attempt e = record {
    executed = omega arith;
    failed = omega arith;
    retried = omega arith;
  }
  retry-Within j (suc left) attempt e =
      let once = run_once-Within j attempt (world attempt) e in
      elim (retry_cases world j left attempt e) [
        | inl out ↦
            let w = waiting-Within attempt e in
            record {
              executed = rw out w.executed;
              failed = rw out (omega (arith, w.failed));
              retried = rw out (omega (arith, w.retried, retry_mark_le attempt));
            }
        | inr (inl done) ↦ record {
          executed = rw done once.0.executed;
          failed = rw done (omega (arith, once.0.failed));
          retried = rw done (omega (arith, once.0.retried, retry_mark_le attempt));
        }
        | inr (inr (more, fails)) ↦
            let rest = retry-Within j left (attempt + 1) (run_once j attempt (world attempt) e).0 in
            let mark : retry_mark (attempt + 1) ≡ 1 = ground arith in
            record {
              executed = rw more (omega (arith, rest.executed, once.1 fails));
              failed = rw more (omega (arith, rest.failed, once.0.failed));
              retried =
                  rw more
                    (omega (arith, rest.retried, once.0.retried, mark, retry_mark_le attempt));
            }
      ]

  -- A job succeeds at most once, fails at most once more than it may be retried, and is retried at most
  -- so often as its bound says.
  pub execute_with_retry-Within :
      (j : Job) (e : Engine)
      → Within (j.max_retries + 1) j.max_retries e (execute_with_retry world j e)
  unfolding execute_with_retry
  execute_with_retry-Within j e =
      let w = retry-Within j (suc j.max_retries) 0 e in
      record {
        executed = w.executed;
        failed = omega (arith, w.failed);
        retried = omega (arith, w.retried);
      }

  -- Every attempt before the k-th fails, and the k-th succeeds, while nothing is stopped.
  pub record SucceedsAt (k : ℕ) : Type 0 where
    pub fails : (i : ℕ) → i < k → found (world i).error ≡ true
    pub goes_on : (i : ℕ) → i < k → (world i).stopped ≡ false
    pub waits : (i : ℕ) → i ≤ k → (world i).stopped_waiting ≡ false
    pub succeeds : found (world k).error ≡ false

  run_once-counts :
      (j : Job) (attempt : ℕ) (e : Engine)
      → is_channel j.channel e.channels ≡ true
      → ((run_once j attempt (world attempt) e).1 ≡ not (found (world attempt).error))
        × (counts (run_once j attempt (world attempt) e).0 ≡ (
            if found (world attempt).error
            then (e.jobs_executed, e.jobs_failed + 1, e.jobs_retried + retry_mark attempt)
            else (e.jobs_executed + 1, e.jobs_failed, e.jobs_retried + retry_mark attempt)))
        × ((run_once j attempt (world attempt) e).0.channels ≡ e.channels)
  run_once-counts j attempt e known =
      let w = waiting-counts attempt e in
      elim (execute_cases j (attempt + 1) (world attempt) (waiting attempt e)) [
        | inl (_, ok, n, same) ↦ elim (Bool-cases (found (world attempt).error)) [
          | inl bad ↦ (ok, ground (arith, n, bad, w), same ∙ w.1)
          | inr fine ↦ (ok, ground (arith, n, fine, w), same ∙ w.1)
        ]
        | inr (none', missing) ↦ absurd (ground (arith, missing, known, w))
      ]

  retry-success :
      (j : Job) (left attempt d k : ℕ) (e : Engine)
      → k ≡ attempt + d
      → d < left
      → is_channel j.channel e.channels ≡ true
      → SucceedsAt k
      → counts (retry world j left attempt e)
        ≡ (e.jobs_executed + 1, e.jobs_failed + d, e.jobs_retried + d + retry_mark attempt)
  unfolding retry
  retry-success j zero attempt d k e at short known s = absurd (omega arith)
  retry-success j (suc left) attempt zero k e at short known s =
      let now : attempt ≡ k = omega arith in
      let fine : found (world attempt).error ≡ false = rw now s.succeeds in
      let (ok, n, same) = run_once-counts j attempt e known in
      let stay = s.waits attempt (omega arith) in
      let done : retry world j (suc left) attempt e ≡ (run_once j attempt (world attempt) e).0 =
        ground (arith, stay, ok, fine) in
      ground (arith, done, n, fine)
  retry-success j (suc left) attempt (suc d) k e at short known s =
      let bad = s.fails attempt (omega arith) in
      let (ok, n, same) = run_once-counts j attempt e known in
      let stay = s.waits attempt (omega arith) in
      let on = s.goes_on attempt (omega arith) in
      let next = (run_once j attempt (world attempt) e).0 in
      let more : retry world j (suc left) attempt e ≡ retry world j left (attempt + 1) next =
        ground (arith, stay, ok, bad, on) in
      let ih =
        retry-success j left (attempt + 1) d k next (omega arith) (omega arith) (rw same known) s in
      let mark : retry_mark (attempt + 1) ≡ 1 = ground arith in
      ground (arith, more, ih, n, bad, mark)

  -- A job whose channel is known and whose attempts fail up to the k-th, which succeeds, counts one
  -- success, k failures and k retries, where k is not above its bound.
  pub execute_with_retry-success :
      (j : Job) (k : ℕ) (e : Engine)
      → k ≤ j.max_retries
      → is_channel j.channel e.channels ≡ true
      → SucceedsAt k
      → counts (execute_with_retry world j e)
        ≡ (e.jobs_executed + 1, e.jobs_failed + k, e.jobs_retried + k)
  unfolding execute_with_retry
  execute_with_retry-success j k e short known s =
      ground
        (arith, retry-success j (suc j.max_retries) 0 k k e (omega arith) (omega arith) known s)
