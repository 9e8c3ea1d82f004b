-- ===== src/Tests/Logs.antt =====
-- internal/session/file_service.go, internal/agent/guarded_graph.go and internal/eval/replay at concrete values.
use kaggen.Replays.{
  RecordedSession, Response, replay_answers, new_recorder, get_all_sessions, record_answers,
  record_answer, start_recording,
}
use kaggen.Replays.Faithful.{
  recording, turns_of, replay_answers-record_answers, new_recorder-Sound, loaded,
}
use mathlib.Core.Option
use kaggen.Base.{
  ℕ, ◌≡◌, refl, ◌≢◌, inr, Bool, true, false, Option, none, some, List, [], ◌∷◌, ◌++◌, arith, ◌==◌,
  if◌then◌else◌, last_n, Text, codes, text_discrete, ◌is◌, text_key, nat_key, get, put,
}
use kaggen.Tests.Tasks.{t1, t2, sid}
use kaggen.Transcripts.Isolation.{append_event-other}
use kaggen.Guarded.{get_checkpoint, put_checkpoint, new_saver}
use kaggen.Guarded.Lineages.{put_chain, starts, get_checkpoint-put_chain}
use kaggen.Transcripts.Forks.{Cut, events_of, fork_session-events}
use kaggen.Vfs.Paths.Clean.{IsPlain}
use kaggen.Vfs.Paths.{join_slash, clean_parts, split_slash}
use kaggen.Transcripts.{
  Event, SessionKey, FileService, Files, append_event, fork_session, forked_files, with_event,
  session_dir, up_to, max_fork_events, thread_context_event, last_content, join_path,
}

abbrev said : Text → Event
said id = record { id = id; author = codes "user"; contents = codes "hi" ∷ [] }

abbrev key : Text → SessionKey
key session = record { app_name = sid; user_id = sid; session_id = session }

abbrev log : Files
log = record {
  events = said t1 ∷ said t2 ∷ said sid ∷ [];
  state = none;
  summary = [];
  metadata = none;
}

abbrev service : FileService
service = record {
  data_dir = codes "d" ∷ [];
  sessions = (codes "d/s/s/1", log) ∷ [];
  app_states = [];
  user_states = [];
}

abbrev thread : Files
thread = forked_files (key t1) t2 [] t2 sid 9 [] (said t1 ∷ said t2 ∷ []) log

abbrev forked : FileService
forked = record service { sessions = (codes "d/s/s/1", log) ∷ (codes "d/s/s/2", thread) ∷ [] }

fork_session-events_example :
    (taken : List Event) × Cut t2 (events_of (key t1) service) taken
    × (events_of (key t2) forked
        ≡ last_n max_fork_events taken ++ (thread_context_event sid (last_content taken) ∷ []))
    × ((d : Text)
        → d ≢ session_dir (codes "d" ∷ []) (key t2)
        → get d forked.sessions ≡ get d service.sessions)
unfolding fork_session session_dir join_path join_slash clean_parts split_slash up_to get put
    text_discrete
fork_session-events_example = fork_session-events (key t1) t2 [] t2 sid 9 [] service forked refl

abbrev appended : FileService
appended = record service {
  sessions = (codes "d/s/s/1", with_event (key t1) (said sid) [] 9 log) ∷ [];
}

one_letter : (c : ℕ) → (c == b'/') ≡ false → (c == b'.') ≡ false → IsPlain (c ∷ [])
one_letter c h k = record {
  nonempty = λ e. cc;
  not_dot = λ e. ground (arith, e, k);
  not_dot_dot = λ e. cc;
  whole = (λ e. ground (arith, e, h), tt);
}

append_event-other_example :
    get (session_dir (codes "d" ∷ []) (key t2)) appended.sessions
    ≡ get (session_dir (codes "d" ∷ []) (key t2)) service.sessions
unfolding append_event session_dir join_path join_slash clean_parts split_slash get put
    text_discrete
append_event-other_example =
    append_event-other (key t1) (key t2) (said sid) [] 9 service appended
      (one_letter 100 refl refl, tt)
      (one_letter 115 refl refl, (one_letter 115 refl refl, (one_letter 49 refl refl, tt)))
      (one_letter 115 refl refl, (one_letter 115 refl refl, (one_letter 50 refl refl, tt)))
      (inr (inr (λ e. ground (arith, e)))) refl

get_checkpoint-put_chain_example :
    get_checkpoint [] sid
      (put_chain t1 ((t2, sid) ∷ []) (put_checkpoint (starts sid t1 sid) new_saver).0)
    ≡ some (record { id = t2; contents = sid })
get_checkpoint-put_chain_example =
    get_checkpoint-put_chain sid t1 sid ((t2, sid) ∷ []) new_saver (λ e. cc) (λ e. cc)
      ((λ e. cc), tt)

abbrev reply : Text → Bool → Response
reply content done = record { content = content; done = done }

abbrev given : List (Option (List Response))
given =
    some (reply t1 false ∷ reply t2 true ∷ [])
    ∷ none
    ∷ some (reply t1 false ∷ [])
    ∷ some (reply sid true ∷ [])
    ∷ []

-- A toy encoding of the one session that is recorded here.
abbrev kept_session : RecordedSession
kept_session = record { case_id = t1; turns = reply t2 true ∷ reply sid true ∷ [] }

abbrev encode : RecordedSession → Text
encode s = s.case_id

abbrev decode : Text → Option RecordedSession
decode line = if line is t1 then some kept_session else none

replay_answers-record_answers_example :
    Option.map (replay_answers 2) (loaded encode decode t1 (recording t1 given new_recorder))
    ≡ some (some (reply t2 true) ∷ some (reply sid true) ∷ [])
unfolding turns_of get_all_sessions record_answers record_answer start_recording new_recorder put
    get text_discrete
replay_answers-record_answers_example =
    replay_answers-record_answers encode decode t1 given new_recorder new_recorder-Sound
      ((refl, omega arith), tt)
