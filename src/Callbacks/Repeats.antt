-- ===== src/Callbacks/Repeats.antt =====
-- internal/gateway/callbacks.go: a callback that comes again.
use kaggen.Tasks.Closing.{fail-closes, Spares, complete-closes, run-is_closed}
use kaggen.Callbacks.{
  accepted, rejected, body_limit, status_is, unknown_task, check_signature, not_external, running,
  already,
}
use kaggen.Tasks.Lifecycle.{IsValid, Call, run}
use kaggen.Tasks.{find_task, TaskState, Store, EmailArgs, status_is, running}
use kaggen.Callbacks.{status_code}
use kaggen.Tasks.Approval.{EmailArgs}
use kaggen.Callbacks.{Outcome, Request, handle_interleaved, receive, settle, Store, accept}
use kaggen.Tasks.{Store}
use kaggen.Tasks.Closing.{is_closed}
use kaggen.Callbacks.Delivery.{check_signature-refused}
use kaggen.Base.{
  ℕ, ◌≡◌, refl, inl, inr, true, false, ◌&&◌, ◌||◌, Option, List, [], arith, ◌==◌, Bool-cases,
  Option-cases, take, All, Text, codes, ◌is◌, text_key, nat_key,
}

module _ (sign : Text → Text → Text) (parse : Text → Text × Text)
    (unmarshal : Text → Option EmailArgs) where
  settle-closes :
      (id body : Text) (now : ℕ) (s : Store)
      → IsValid s
      → (is_closed (find_task id (settle parse id body now s)) ≡ true)
        × IsValid (settle parse id body now s)
  unfolding settle
  settle-closes id body now s v =
      elim (Bool-cases ((parse body).0 is codes "error" || (parse body).0 is codes "failed")) [
        | inl e ↦ rw e (fail-closes unmarshal id (parse body).1 now s v)
        | inr e ↦ rw e (complete-closes unmarshal id body now s v)
      ]

  -- What a callback that was accepted leaves of its task.
  abbrev Ended : Text → Outcome → Type 0
  Ended id o = (is_closed (find_task id o.store) ≡ true) × IsValid o.store

  receive-Ended :
      (t : TaskState) (id : Text) (r : Request) (now : ℕ) (s : Store)
      → IsValid s
      → (receive sign parse t id r now s).reply ≡ accepted
      → Ended id (receive sign parse t id r now s)
  unfolding receive accept
  receive-Ended t id r now s v h = elim (Option-cases r.body) [
    | inl unread ↦ absurd (ground (arith, unread, h))
    | inr (data', e) ↦
        let body = take body_limit data' in
        elim (Option-cases (check_signature sign t.callback_secret r.signature body)) [
          | inl ok ↦
              let takes : receive sign parse t id r now s ≡ accept sign parse t id body now s =
                ground (arith, e, ok) in
              rw takes (settle-closes id body now s v)
          | inr (reply, bad) ↦
              let refuses : receive sign parse t id r now s ≡ rejected reply s =
                ground (arith, e, bad) in
              let no = check_signature-refused sign t.callback_secret r.signature body reply bad in
              absurd (ground (arith, refuses, no, h))
        ]
  ]

  accepted-Ended :
      (id : Text) (r : Request) (now : ℕ) (before after : Store)
      → IsValid after
      → (handle_interleaved sign parse id r now before after).reply ≡ accepted
      → Ended id (handle_interleaved sign parse id r now before after)
  unfolding handle_interleaved
  accepted-Ended id r now before after v h = elim (Option-cases (find_task id before)) [
    | inl e ↦ absurd (ground (arith, e, h))
    | inr (t, e) ↦ elim (Bool-cases (t.external && status_is t.status running)) [
      | inl waits ↦
          let takes : handle_interleaved sign parse id r now before after
              ≡ receive sign parse t id r now after =
            ground (arith, e, waits) in
          rw takes (receive-Ended t id r now after v (rw takes at h))
      | inr other ↦ absurd (ground (arith, e, other, h))
    ]
  ]

  -- A reply that is not of success, no change of the store, and nothing handed on.
  abbrev pub IsRefused : Outcome → Store → Type 0
  IsRefused o s = ((status_code o.reply == 200) ≡ false) × (o.store ≡ s) × (o.completions ≡ [])

  closed-IsRefused :
      (id : Text) (r : Request) (now : ℕ) (before after : Store)
      → is_closed (find_task id before) ≡ true
      → IsRefused (handle_interleaved sign parse id r now before after) after
  unfolding handle_interleaved
  closed-IsRefused id r now before after h = elim (Option-cases (find_task id before)) [
    | inl e ↦
        let refuses : handle_interleaved sign parse id r now before after
            ≡ rejected unknown_task after =
          ground (arith, e) in
        rw refuses (refl, refl, refl)
    | inr (t, e) ↦ elim (Bool-cases t.external) [
      | inr inside ↦
          let refuses : handle_interleaved sign parse id r now before after
              ≡ rejected not_external after =
            ground (arith, e, inside) in
          rw refuses (refl, refl, refl)
      | inl outside ↦
          let refuses : handle_interleaved sign parse id r now before after
              ≡ rejected (already t.status) after =
            ground (arith, e, outside, h) in
          rw refuses (refl, refl, refl)
    ]
  ]

  -- Once a callback was accepted, a later one for the task, one that starts after the first has settled
  -- it, is refused: it changes nothing and hands on no completion. Any calls of the store may come in
  -- between, draining and reaping included, but none that registers the id again; and the store may have
  -- changed while each callback was handled. The store is valid when the first one settles its task.
  pub handle_callback-twice :
      (id : Text) (r later : Request) (now then' : ℕ) (before after last : Store)
      (calls : List (ℕ × Call))
      → IsValid after
      → All (Spares id) calls
      → (handle_interleaved sign parse id r now before after).reply ≡ accepted
      → IsRefused
          (handle_interleaved sign parse id later then'
            (run unmarshal (handle_interleaved sign parse id r now before after).store calls)
            last)
          last
  handle_callback-twice id r later now then' before after last calls v spare h =
      let (closed, valid) = accepted-Ended id r now before after v h in
      closed-IsRefused id later then'
        (run unmarshal (handle_interleaved sign parse id r now before after).store calls) last
        (run-is_closed unmarshal id (handle_interleaved sign parse id r now before after).store
          calls valid spare closed)
