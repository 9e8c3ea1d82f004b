-- ===== src/Replays/Faithful.antt =====
-- internal/eval/replay: what is replayed is what was recorded.
use kaggen.Replays.{
  Response, record_answers, Recorder, collected, record_answer, RecordedSession, with_turn,
  put_sessions, replay_answers, replay_answer, Replayer, start_recording, start_replay,
  new_replayer, save_to_file, new_recorder, get_all_sessions, load_from_file, max_scan_token_size,
  scan_lines,
}
use mathlib.Core.Path.{subst}
use mathlib.Core.Option
use kaggen.Base.{
  ℕ, zero, suc, ◌+◌, ◌≤◌, ◌<◌, ◌≡◌, refl, sym, ap, ◌∙◌, inl, inr, true, false, Option, none, some,
  List, [], ◌∷◌, ◌++◌, map, arith, leb, Option-cases, length, drop, get_elem?, All, Text,
  text_discrete, text_key, nat_key, Map, get, put, Unique, get-put, put-Unique, values_where,
}

-- The answers that leave a turn: the last response that is done, of each answer that has one.
unfoldable pub turns_of : List (Option (List Response)) → List Response
turns_of [] = []
turns_of (none ∷ as') = turns_of as'
turns_of (some rs ∷ as') = elim (collected none rs) [
  | none ↦ turns_of as'
  | some t ↦ t ∷ turns_of as'
]

append_assoc : (a b c : List Response) → (a ++ b) ++ c ≡ a ++ (b ++ c)
append_assoc [] b c = refl
append_assoc (x ∷ a) b c = ap (◌∷◌ x) (append_assoc a b c)

append_nil : (a : List Response) → a ++ [] ≡ a
append_nil [] = refl
append_nil (x ∷ a) = ap (◌∷◌ x) (append_nil a)

-- Under the current session stand its turns, in order.
record Holds (id : Text) (turns : List Response) (r : Recorder) : Type 0 where
  here : r.current ≡ id
  holds : get id r.sessions ≡ some (record { case_id = id; turns = turns })

record_answers-Holds :
    (id : Text) (answers : List (Option (List Response))) (turns : List Response) (r : Recorder)
    → Holds id turns r
    → Holds id (turns ++ turns_of answers) (record_answers answers r)
unfolding record_answers turns_of record_answer
record_answers-Holds id [] turns r h = rw (append_nil turns) h
record_answers-Holds id (none ∷ answers) turns r h = record_answers-Holds id answers turns r h
record_answers-Holds id (some rs ∷ answers) turns r h = elim (Option-cases (collected none rs)) [
  | inl miss ↦
      let t0 : turns_of (some rs ∷ answers) ≡ turns_of answers = ground (arith, miss) in
      let step : record_answer (some rs) r ≡ r = ground (arith, miss) in
      subst (λ ts. Holds id (turns ++ ts) (record_answers answers (record_answer (some rs) r)))
        (sym t0)
        (subst (λ q. Holds id (turns ++ turns_of answers) (record_answers answers q)) (sym step)
          (record_answers-Holds id answers turns r h))
  | inr (t, hit) ↦
      let s : RecordedSession = record { case_id = id; turns = turns } in
      let next : Recorder = record r { sessions = put r.current (with_turn t s) r.sessions } in
      let t1 : turns_of (some rs ∷ answers) ≡ t ∷ turns_of answers = ground (arith, hit) in
      let step : record_answer (some rs) r ≡ next = ground (arith, hit, h.here, h.holds) in
      let held : Holds id (turns ++ (t ∷ [])) next = record {
        here = h.here;
        holds = ground (arith, h.here, get-put r.current id (with_turn t s) r.sessions);
      } in
      subst (λ ts. Holds id (turns ++ ts) (record_answers answers (record_answer (some rs) r)))
        (sym t1)
        (subst (λ q. Holds id (turns ++ (t ∷ turns_of answers)) (record_answers answers q))
          (sym step)
          (subst (λ ts. Holds id ts (record_answers answers next))
            (append_assoc turns (t ∷ []) (turns_of answers))
            (record_answers-Holds id answers (turns ++ (t ∷ [])) next held)))
]

-- Each session stands under its own case.
abbrev pub Named : Map Text RecordedSession → Type 0
Named m = All (λ e. e.1.case_id ≡ e.0) m

abbrev later_of : Option RecordedSession → Option RecordedSession → Option RecordedSession
later_of none old = old
later_of (some s) old = some s

get-put_sessions :
    (k : Text) (m acc : Map Text RecordedSession)
    → Unique m
    → Named m
    → get k (put_sessions (values_where (λ s. true) m) acc) ≡ later_of (get k m) (get k acc)
unfolding put_sessions get
get-put_sessions k [] acc u n = refl
get-put_sessions k ((j, s) ∷ m) acc u n =
    let ih = get-put_sessions k m (put s.case_id s acc) u.1 n.1 in
    elim (text_discrete j k) [
      | yes same ↦ ground (arith, same, ih, u.0, n.0, get-put s.case_id k s acc)
      | no apart ↦ ground (arith, apart, ih, n.0, get-put s.case_id k s acc)
    ]

put-Named :
    (k : Text) (s : RecordedSession) (m : Map Text RecordedSession)
    → s.case_id ≡ k
    → Named m
    → Named (put k s m)
unfolding put
put-Named k s [] same n = (same, tt)
put-Named k s ((j, t) ∷ m) same n = elim (text_discrete j k) [
  | yes hit ↦ ground (arith, hit, same, n.1)
  | no apart ↦ ground (arith, apart, put-Named k s m same n.1, n.0)
]

get_elem?-drop :
    (i : ℕ) (xs : List Response) (t : Response) (ts : List Response)
    → drop i xs ≡ t ∷ ts
    → (get_elem? xs i ≡ some t) × (drop (suc i) xs ≡ ts)
get_elem?-drop zero [] t ts d = ground (arith, d)
get_elem?-drop zero (x ∷ xs) t ts d = ground (arith, d)
get_elem?-drop (suc i) [] t ts d = ground (arith, d)
get_elem?-drop (suc i) (x ∷ xs) t ts d = get_elem?-drop i xs t ts d

-- From the index on, the turns are replayed in order.
replay_answers-drop :
    (turns : List Response) (r : Replayer) (s : RecordedSession)
    → get r.active r.recorded ≡ some s
    → drop r.index s.turns ≡ turns
    → replay_answers (length turns) r ≡ map some turns
unfolding replay_answers replay_answer
replay_answers-drop [] r s here d = refl
replay_answers-drop (t ∷ turns) r s here d =
    let (hit, deeper) = get_elem?-drop r.index s.turns t turns d in
    let next : Replayer = record r { index = r.index + 1 } in
    let one : suc r.index ≡ r.index + 1 = omega arith in
    let rest = subst (λ j. drop j s.turns ≡ turns) one deeper in
    let step : replay_answer r ≡ (next, some t) = ground (arith, here, hit) in
    rw step (ap (◌∷◌ (some t)) (replay_answers-drop turns next s here rest))

-- The state that the recorder's operations keep.
pub record Sound (r : Recorder) : Type 0 where
  pub unique : Unique r.sessions
  pub named : Named r.sessions

get-Named :
    (k : Text) (m : Map Text RecordedSession) (s : RecordedSession)
    → Named m
    → get k m ≡ some s
    → s.case_id ≡ k
unfolding get
get-Named k [] s n hit = ground (arith, hit)
get-Named k ((j, t) ∷ m) s n hit = elim (text_discrete j k) [
  | yes same ↦ ground (arith, same, n.0, hit)
  | no apart ↦ get-Named k m s n.1 (ground (arith, apart, hit))
]

pub new_recorder-Sound : Sound new_recorder
unfolding new_recorder
new_recorder-Sound = record { unique = tt; named = tt }

start_recording-Sound : (id : Text) (r : Recorder) → Sound r → Sound (start_recording id r)
unfolding start_recording
start_recording-Sound id r i = record {
  unique = put-Unique id _ r.sessions i.unique;
  named = put-Named id _ r.sessions refl i.named;
}

record_answer-Sound :
    (a : Option (List Response)) (r : Recorder) → Sound r → Sound (record_answer a r)
unfolding record_answer
record_answer-Sound none r i = i
record_answer-Sound (some rs) r i = elim (Option-cases (collected none rs)) [
  | inl miss ↦
      let step : record_answer (some rs) r ≡ r = ground (arith, miss) in subst Sound (sym step) i
  | inr (t, hit) ↦ elim (Option-cases (get r.current r.sessions)) [
    | inl gone ↦
        let step : record_answer (some rs) r ≡ r = ground (arith, hit, gone) in
        subst Sound (sym step) i
    | inr (s, here) ↦
        let next : Recorder = record r { sessions = put r.current (with_turn t s) r.sessions } in
        let step : record_answer (some rs) r ≡ next = ground (arith, hit, here) in
        subst Sound (sym step) (record {
          unique = put-Unique r.current (with_turn t s) r.sessions i.unique;
          named =
              put-Named r.current (with_turn t s) r.sessions
                (get-Named r.current r.sessions s i.named here) i.named;
        })
  ]
]

record_answers-Sound :
    (answers : List (Option (List Response))) (r : Recorder)
    → Sound r
    → Sound (record_answers answers r)
unfolding record_answers
record_answers-Sound [] r i = i
record_answers-Sound (a ∷ answers) r i =
    record_answers-Sound answers (record_answer a r) (record_answer-Sound a r i)

abbrev pub recording : Text → List (Option (List Response)) → Recorder → Recorder
recording id answers r = record_answers answers (start_recording id r)

replay_recorded :
    (id : Text) (answers : List (Option (List Response))) (r : Recorder)
    → Sound r
    → Option.map
        (replay_answers (length (turns_of answers)))
        (start_replay id (new_replayer (get_all_sessions (recording id answers r))))
      ≡ some (map some (turns_of answers))
unfolding start_replay new_replayer get_all_sessions start_recording get
replay_recorded id answers r i =
    let began : Recorder = start_recording id r in
    let kept = record_answers-Sound answers began (start_recording-Sound id r i) in
    let s : RecordedSession = record { case_id = id; turns = turns_of answers } in
    let fresh = get-put id id (record { case_id = id; turns = [] }) r.sessions in
    let first : Holds id [] began = record { here = refl; holds = ground (arith, fresh) } in
    let held = record_answers-Holds id answers [] began first in
    let saved : Replayer = new_replayer (get_all_sessions (recording id answers r)) in
    let back : get id saved.recorded ≡ some s =
      get-put_sessions id (recording id answers r).sessions [] kept.unique kept.named
      ∙ ap (λ o. later_of o none) held.holds in
    let started : start_replay id saved ≡ some (record saved { active = id; index = 0 }) =
      ground (arith, back) in
    rw started (
      ap some (
        replay_answers-drop (turns_of answers) (record saved { active = id; index = 0 }) s back
          refl))

-- What JSON writes for each session it reads again, and it fits into the scanner's buffer.
abbrev pub AllFit :
    (RecordedSession → Text) → (Text → Option RecordedSession) → List RecordedSession → Type 0
AllFit encode decode ss =
    All (λ s. (decode (encode s) ≡ some s) × (length (encode s) < max_scan_token_size)) ss

scan_lines-map :
    (encode : RecordedSession → Text) (decode : Text → Option RecordedSession)
    (ss : List RecordedSession)
    → AllFit encode decode ss
    → scan_lines decode (map encode ss) ≡ some ss
unfolding scan_lines
scan_lines-map encode decode [] f = refl
scan_lines-map encode decode (s ∷ ss) f =
    let rest = scan_lines-map encode decode ss f.1 in
    let short : leb max_scan_token_size (length (encode s)) ≡ false = ground (arith, f.0.1) in
    rw (short, f.0.0, rest) refl

-- The replayer of what was loaded, ready for a case.
abbrev pub loaded :
    (RecordedSession → Text) → (Text → Option RecordedSession) → Text → Recorder → Option Replayer
loaded encode decode id r = elim (load_from_file decode (save_to_file encode r)) [
  | none ↦ none
  | some q ↦ start_replay id q
]

-- If every session of a recorder fits into a line of less than 64 KB, and what JSON writes for a session
-- it reads again, then a replayer that is loaded from the file that the recorder saved gives, for the
-- case that was recorded last, the turns of its answers in their order, one for each request.
pub replay_answers-record_answers :
    (encode : RecordedSession → Text) (decode : Text → Option RecordedSession) (id : Text)
    (answers : List (Option (List Response))) (r : Recorder)
    → Sound r
    → AllFit encode decode (get_all_sessions (recording id answers r))
    → Option.map
        (replay_answers (length (turns_of answers)))
        (loaded encode decode id (recording id answers r))
      ≡ some (map some (turns_of answers))
unfolding load_from_file save_to_file
replay_answers-record_answers encode decode id answers r i f =
    let all = get_all_sessions (recording id answers r) in
    let read : load_from_file decode (save_to_file encode (recording id answers r))
        ≡ some (new_replayer all) =
      ap (Option.map new_replayer) (scan_lines-map encode decode all f) in
    let ready : loaded encode decode id (recording id answers r)
        ≡ start_replay id (new_replayer all) =
      ground (arith, read) in
    ap (Option.map (replay_answers (length (turns_of answers)))) ready
    ∙ replay_recorded id answers r i

-- A session of a longer line is saved, but then nothing of the file can be loaded.
load_from_file-long :
    (encode : RecordedSession → Text) (decode : Text → Option RecordedSession) (s : RecordedSession)
    (ss : List RecordedSession)
    → max_scan_token_size ≤ length (encode s)
    → load_from_file decode (map encode (s ∷ ss)) ≡ none
unfolding load_from_file scan_lines
load_from_file-long encode decode s ss long =
    let e : leb max_scan_token_size (length (encode s)) ≡ true = ground (arith, long) in rw e refl
