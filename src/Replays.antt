-- ===== src/Replays.antt =====
-- internal/eval/replay: the recorder of a model's answers and the replayer. An answer of the model is the
-- list of responses that its channel delivers. Requests and timestamps are left out, JSON is a parameter,
-- and a file is the list of its lines; an answer is read to its end before the next request.
pub mod Faithful
use mathlib.Core.Option
use kaggen.Base.{
  ℕ, zero, suc, ◌+◌, ◌-◌, ◌*◌, ◌/◌, ◌%◌, ◌≤◌, ◌<◌, ◌≡◌, refl, sym, ap, ◌∙◌, ◌≢◌, ◌↔◌, ◌⊎◌, inl, inr,
  ite, Bool, true, false, ◌&&◌, ◌||◌, not, Option, none, some, List, [], ◌∷◌, ◌++◌, map, arith,
  dec_lt, ℕ_discrete, ltb, leb, ◌==◌, if◌then◌else◌, Bool-cases, Option-cases, found, length, take,
  drop, get_elem?, select, last_n, All, length-append, length-take, length-drop, take-append-drop,
  length-select-le, select-append, select_idem, Text, codes, text_discrete, ◌is◌, starts_with, Key,
  text_key, nat_key, Map, keep_if, get, put, del, Unique, get-put, get-del, put-Unique, del-Unique,
  values_where, del_where, map_values, get-map_values, get-del_where-none, get-del_where-some,
  del_where-Unique, map_values-Unique, values_where-del_where, contains, lower_code, to_lower,
  contains-append, contains_later, contains_earlier, join, decimal, last_n-append, length-last_n,
  last_n-last_n, ends_with, trim_prefix, trim_suffix, is_refl,
}

pub record Response : Type 0 where
  pub content : Text
  pub done : Bool

pub record RecordedSession : Type 0 where
  pub case_id : Text
  pub turns : List Response

pub record Recorder : Type 0 where
  pub sessions : Map Text RecordedSession
  pub current : Text

unfoldable pub new_recorder : Recorder
new_recorder = record { sessions = []; current = [] }

unfoldable pub start_recording : Text → Recorder → Recorder
start_recording id r = record {
  sessions = put id (record { case_id = id; turns = [] }) r.sessions;
  current = id;
}

-- The last response that is done.
abbrev pub collected : Option Response → List Response → Option Response
collected last [] = last
collected last (r ∷ rs) = collected (if r.done then some r else last) rs

abbrev pub with_turn : Response → RecordedSession → RecordedSession
with_turn t s = record s { turns = s.turns ++ (t ∷ []) }

-- The responses are passed through; none where the model fails.
unfoldable pub record_answer : Option (List Response) → Recorder → Recorder
record_answer none r = r
record_answer (some rs) r = elim (collected none rs) [
  | none ↦ r
  | some last ↦ elim (get r.current r.sessions) [
    | none ↦ r
    | some s ↦ record r { sessions = put r.current (with_turn last s) r.sessions }
  ]
]

unfoldable pub record_answers : List (Option (List Response)) → Recorder → Recorder
record_answers [] r = r
record_answers (a ∷ as') r = record_answers as' (record_answer a r)

unfoldable pub get_all_sessions : Recorder → List RecordedSession
get_all_sessions r = values_where (λ s. true) r.sessions

-- The lines of the file, one for each session, as JSON gives them.
unfoldable pub save_to_file : (RecordedSession → Text) → Recorder → List Text
save_to_file encode r = map encode (get_all_sessions r)

unfoldable pub get_session : Text → Recorder → Option RecordedSession
get_session id r = get id r.sessions

pub record Replayer : Type 0 where
  pub recorded : Map Text RecordedSession
  pub active : Text
  pub index : ℕ

unfoldable pub put_sessions :
    List RecordedSession → Map Text RecordedSession → Map Text RecordedSession
put_sessions [] m = m
put_sessions (s ∷ ss) m = put_sessions ss (put s.case_id s m)

unfoldable pub new_replayer : List RecordedSession → Replayer
new_replayer ss = record { recorded = put_sessions ss []; active = []; index = 0 }

-- `bufio.MaxScanTokenSize`: a line and its end must fit into a buffer of 64 KB.
abbrev pub max_scan_token_size : ℕ
max_scan_token_size = 65536

-- None where a line is too long or cannot be decoded.
unfoldable pub scan_lines :
    (Text → Option RecordedSession) → List Text → Option (List RecordedSession)
scan_lines decode [] = some []
scan_lines decode (line ∷ lines) =
    let rest = scan_lines decode lines in
    if leb max_scan_token_size (length line)
    then none
    else elim (decode line) [ none ↦ none | some s ↦ Option.map (λ ss. s ∷ ss) rest ]

unfoldable pub load_from_file : (Text → Option RecordedSession) → List Text → Option Replayer
load_from_file decode lines = Option.map new_replayer (scan_lines decode lines)

-- None where there is no such session.
unfoldable pub start_replay : Text → Replayer → Option Replayer
start_replay id r = elim (get id r.recorded) [
  | none ↦ none
  | some s ↦ some (record r { active = id; index = 0 })
]

unfoldable pub has_session : Text → Replayer → Bool
has_session id r = found (get id r.recorded)

unfoldable pub list_sessions : Replayer → List Text
list_sessions r = map (λ e. e.0) r.recorded

unfoldable pub exhausted : Response
exhausted = record { content = codes "[Replay exhausted - no more recorded turns]"; done = true }

-- The replayer after a request, and the answer; none where no session is active.
unfoldable pub replay_answer : Replayer → Replayer × Option Response
replay_answer r = elim (get r.active r.recorded) [
  | none ↦ (r, none)
  | some s ↦ elim (get_elem? s.turns r.index) [
    | none ↦ (r, some exhausted)
    | some t ↦ (record r { index = r.index + 1 }, some t)
  ]
]

unfoldable pub replay_answers : ℕ → Replayer → List (Option Response)
replay_answers zero r = []
replay_answers (suc n) r = let (r', answer) = replay_answer r in answer ∷ replay_answers n r'
