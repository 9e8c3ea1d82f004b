-- ===== src/Transcripts/Forks.antt =====
-- internal/session/file_service.go, `ForkSession` and the states: what a thread holds, and what an update
-- of the application's state is read back as.
use kaggen.Transcripts.{
  Event, up_to, SessionKey, fork_session, FileService, forked_files, or_no_files, thread_key,
  max_fork_events, session_dir, thread_context_event, last_content,
}
use kaggen.Base.{
  ℕ, ◌≡◌, refl, ap, ◌∙◌, ◌≢◌, inl, inr, none, some, List, [], ◌∷◌, ◌++◌, arith, Option-cases,
  last_n, All, Text, text_discrete, text_key, nat_key, get, put, get-put,
}

-- The events before the first of an id, the event, and the rest.
abbrev pub Cut : Text → List Event → List Event → Type 0
Cut id events taken =
    (before : List Event) × (e : Event) × (rest : List Event) × (events ≡ before ++ (e ∷ rest))
    × (taken ≡ before ++ (e ∷ []))
    × (e.id ≡ id)
    × All (λ f. f.id ≢ id) before

up_to-Cut :
    (id : Text) (events taken : List Event) → up_to id events ≡ some taken → Cut id events taken
unfolding up_to
up_to-Cut id [] taken h = absurd (cc)
up_to-Cut id (e ∷ es) taken h = elim (text_discrete e.id id) [
  | yes same ↦
      let whole : taken ≡ e ∷ [] = ground (arith, same, h) in ([], e, es, refl, whole, same, tt)
  | no apart ↦ elim (Option-cases (up_to id es)) [
    | inl miss ↦ absurd (ground (arith, apart, miss, h))
    | inr (xs, hit) ↦
        let whole : taken ≡ e ∷ xs = ground (arith, apart, hit, h) in
        let (before, f, rest, split, cut, named, others) = up_to-Cut id es xs hit in
        (e ∷ before, f, rest, ap (◌∷◌ e) split, whole ∙ ap (◌∷◌ e) cut, named, (apart, others))
  ]
]

up_to-none :
    (id : Text) (events : List Event) → All (λ e. e.id ≢ id) events → up_to id events ≡ none
unfolding up_to
up_to-none id [] h = refl
up_to-none id (e ∷ es) h = ground (arith, h.0, up_to-none id es h.1)

abbrev pub events_of : SessionKey → FileService → List Event
events_of k s = (or_no_files (get (session_dir s.data_dir k) s.sessions)).events

-- A fork's thread holds the last hundred events of its parent up to the first one with the given id, and
-- then the context event; every other directory is as it was.
pub fork_session-events :
    (parent : SessionKey) (upto name fresh event_id : Text) (now : ℕ) (clock : Text)
    (s s' : FileService)
    → fork_session parent upto name fresh event_id now clock s ≡ some s'
    → (taken : List Event) × Cut upto (events_of parent s) taken
      × (events_of (thread_key parent fresh) s'
          ≡ last_n max_fork_events taken
            ++ (thread_context_event event_id (last_content taken) ∷ []))
      × ((d : Text)
          → d ≢ session_dir s.data_dir (thread_key parent fresh)
          → get d s'.sessions ≡ get d s.sessions)
unfolding fork_session forked_files
fork_session-events parent upto name fresh event_id now clock s s' h =
    let f = or_no_files (get (session_dir s.data_dir parent) s.sessions) in
    let at = session_dir s.data_dir (thread_key parent fresh) in
    elim (Option-cases (up_to upto f.events)) [
      | inl miss ↦ absurd (ground (arith, miss, h))
      | inr (taken, hit) ↦
          let files = forked_files parent upto name fresh event_id now clock taken f in
          let made : s' ≡ record s { sessions = put at files s.sessions } =
            ground (arith, hit, h) in
          (
            taken,
            up_to-Cut upto f.events taken hit,
            rw made (ground (arith, get-put at at files s.sessions)),
            λ d other. rw made (ground (arith, other, get-put at d files s.sessions)),
          )
    ]

-- Without such an event there is no fork.
pub fork_session-missing :
    (parent : SessionKey) (upto name fresh event_id : Text) (now : ℕ) (clock : Text)
    (s : FileService)
    → All (λ e. e.id ≢ upto) (events_of parent s)
    → fork_session parent upto name fresh event_id now clock s ≡ none
unfolding fork_session
fork_session-missing parent upto name fresh event_id now clock s h =
    ground (arith, up_to-none upto (events_of parent s) h)
