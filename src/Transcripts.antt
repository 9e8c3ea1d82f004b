-- ===== src/Transcripts.antt =====
-- internal/session/file_service.go: the sessions that are kept in files. A directory is named by its
-- path below the data directory, for names without slashes and dots; a session has a log of events, a
-- state, a summary and metadata. Reading and writing files is taken to succeed. The prefixes of the
-- session library's state keys are parameters, and so is the state that it gives a session after an
-- event. Naming, caching and the updates of a timestamp that run in the background are left out.
pub mod Forks
pub mod Isolation
use kaggen.Vfs.Paths.{join_slash, split_slash, clean_parts}
use kaggen.Base.{
  ℕ, zero, suc, ◌+◌, ◌-◌, ◌*◌, ◌/◌, ◌%◌, ◌≤◌, ◌<◌, ◌≡◌, refl, sym, ap, ◌∙◌, ◌≢◌, ◌↔◌, ◌⊎◌, inl, inr,
  ite, Bool, true, false, ◌&&◌, ◌||◌, not, Option, none, some, List, [], ◌∷◌, ◌++◌, map, arith,
  dec_lt, ℕ_discrete, ltb, leb, ◌==◌, if◌then◌else◌, Bool-cases, Option-cases, found, length, take,
  drop, get_elem?, select, last_n, All, length-append, length-take, length-drop, take-append-drop,
  length-select-le, select-append, select_idem, Text, codes, text_discrete, ◌is◌, starts_with, Key,
  text_key, nat_key, Map, keep_if, get, put, del, Unique, get-put, get-del, put-Unique, del-Unique,
  values_where, del_where, map_values, get-map_values, get-del_where-none, get-del_where-some,
  del_where-Unique, map_values-Unique, values_where-del_where, contains, lower_code, to_lower,
  contains-append, contains_later, contains_earlier, join, decimal, last_n-append, length-last_n,
  last_n-last_n, ends_with, trim_prefix, trim_suffix, is_refl,
}

-- An event: its id, and the contents of the choices of its response.
pub record Event : Type 0 where
  pub id : Text
  pub author : Text
  pub contents : List Text

pub record SessionKey : Type 0 where
  pub app_name : Text
  pub user_id : Text
  pub session_id : Text

abbrev pub StateMap : Type 0
StateMap = Map Text Text

-- Times stand in nanoseconds; the texts of a session that is no thread are empty.
pub record SessionMetadata : Type 0 where
  pub id : Text
  pub name : Text
  pub created_at : ℕ
  pub user_id : Text
  pub parent_session_id : Text
  pub parent_event_id : Text
  pub is_thread : Bool

pub record Files : Type 0 where
  pub events : List Event
  pub state : Option StateMap
  pub summary : Text
  pub metadata : Option SessionMetadata

-- `data_dir` is the absolute path of the data, by its elements.
pub record FileService : Type 0 where
  pub data_dir : List Text
  pub sessions : Map Text Files
  pub app_states : Map Text StateMap
  pub user_states : Map Text StateMap

abbrev pub split_all : List Text → List Text
split_all [] = []
split_all (p ∷ ps) = split_slash p ++ split_all ps

-- `filepath.Join` of an absolute path with names: it cleans the result, double dots included.
unfoldable pub join_path : List Text → List Text → Text
join_path base names = join_slash (clean_parts [] (base ++ split_all names))

unfoldable pub app_dir : List Text → Text → Text
app_dir base app = join_path base (app ∷ [])

unfoldable pub user_dir : List Text → Text → Text → Text
user_dir base app user = join_path base (app ∷ user ∷ [])

unfoldable pub session_dir : List Text → SessionKey → Text
session_dir base k = join_path base (k.app_name ∷ k.user_id ∷ k.session_id ∷ [])

-- `os.RemoveAll`: what stands in the directory or below it goes.
abbrev pub is_within : Text → Text → Bool
is_within dir path = (path is dir) || starts_with path (dir ++ (b'/' ∷ []))

unfoldable pub del_within : {A : Type 0} → Text → Map Text A → Map Text A
del_within dir [] = []
del_within dir ((path, a) ∷ m) =
    let rest = del_within dir m in if is_within dir path then rest else (path, a) ∷ rest

abbrev pub no_files : Files
no_files = record { events = []; state = none; summary = []; metadata = none }

abbrev pub or_no_files : Option Files → Files
or_no_files none = no_files
or_no_files (some f) = f

abbrev pub is_blank : Text → Bool
is_blank [] = true
is_blank (c ∷ s) = false

abbrev pub has_user : SessionKey → Bool
has_user k = not (is_blank k.app_name) && not (is_blank k.user_id)

abbrev pub has_session : SessionKey → Bool
has_session k = has_user k && not (is_blank k.session_id)

abbrev pub or_empty : Option StateMap → StateMap
or_empty none = []
or_empty (some m) = m

-- The values of one map over those of another.
unfoldable pub put_all : StateMap → StateMap → StateMap
put_all [] m = m
put_all ((k, v) ∷ kvs) m = put_all kvs (put k v m)

-- Keeps the events of a session that is there already. None is an error.
unfoldable pub create_session : SessionKey → StateMap → FileService → Option FileService
create_session k state s =
    if not (has_session k)
    then none
    else some (record s {
      sessions =
          put (session_dir s.data_dir k)
            (record (or_no_files (get (session_dir s.data_dir k) s.sessions)) {
              state = some (put_all state []);
            })
            s.sessions;
    })

unfoldable pub delete_session : SessionKey → FileService → Option FileService
delete_session k s =
    if not (has_session k)
    then none
    else some (record s {
      sessions = del_within (session_dir s.data_dir k) s.sessions;
      app_states = del_within (session_dir s.data_dir k) s.app_states;
      user_states = del_within (session_dir s.data_dir k) s.user_states;
    })

abbrev pub first_metadata : SessionKey → ℕ → Option SessionMetadata → Option SessionMetadata
first_metadata k now (some m) = some m
first_metadata k now none = some (record {
  id = k.session_id;
  name = [];
  created_at = now;
  user_id = k.user_id;
  parent_session_id = [];
  parent_event_id = [];
  is_thread = false;
})

abbrev pub with_event : SessionKey → Event → StateMap → ℕ → Files → Files
with_event k e snapshot now f = record f {
  events = f.events ++ (e ∷ []);
  state = some snapshot;
  metadata = first_metadata k now f.metadata;
}

-- `snapshot` is the session's state after the event.
unfoldable pub append_event : SessionKey → Event → StateMap → ℕ → FileService → Option FileService
append_event k e snapshot now s =
    if not (has_session k)
    then none
    else some (record s {
      sessions =
          put (session_dir s.data_dir k)
            (with_event k e snapshot now (or_no_files (get (session_dir s.data_dir k) s.sessions)))
            s.sessions;
    })

abbrev pub max_fork_events : ℕ
max_fork_events = 100

-- The events up to and including the first of this id.
unfoldable pub up_to : Text → List Event → Option (List Event)
up_to id [] = none
up_to id (e ∷ es) =
    let rest = up_to id es in
    if e.id is id then some (e ∷ []) else elim rest [ none ↦ none | some xs ↦ some (e ∷ xs) ]

abbrev pub first_content : List Text → Text
first_content [] = []
first_content ([] ∷ cs) = first_content cs
first_content ((c ∷ s) ∷ cs) = c ∷ s

abbrev pub last_content : List Event → Text
last_content [] = []
last_content (e ∷ []) = first_content e.contents
last_content (e ∷ f ∷ es) = last_content (f ∷ es)

abbrev pub context_text : Text → Text
context_text quoted =
    codes
      "[Thread Context] This conversation is a focused thread branching from an earlier discussion."
    ++ (if is_blank quoted
        then []
        else codes "\nThe user is replying to this specific message:\n---\n"
          ++ quoted
          ++ codes
              "\n---\nStay focused on this topic. The user wants to dive deeper into this particular point.")

unfoldable pub thread_context_event : Text → Text → Event
thread_context_event id quoted = record {
  id = id;
  author = codes "system";
  contents = context_text quoted ∷ [];
}

-- The end of a name that was cut is the ellipsis, in UTF-8. `clock` is the time as a text.
abbrev pub thread_name : Text → Text → Text → Text
thread_name [] [] clock = codes "Thread " ++ clock
thread_name [] (c ∷ quoted) clock =
    codes "Re: "
    ++ (if ltb 50 (length (c ∷ quoted))
        then take 50 (c ∷ quoted) ++ (226 ∷ 128 ∷ 166 ∷ [])
        else c ∷ quoted)
thread_name (c ∷ name) quoted clock = c ∷ name

-- What a thread takes from its parent, given the events up to the one that is replied to. `fresh` is the
-- new session's id, `event_id` that of its context event.
unfoldable pub forked_files :
    SessionKey → Text → Text → Text → Text → ℕ → Text → List Event → Files → Files
forked_files parent upto name fresh event_id now clock events f = record {
  events =
      last_n max_fork_events events ++ (thread_context_event event_id (last_content events) ∷ []);
  state = f.state;
  summary = if ltb max_fork_events (length events) then f.summary else [];
  metadata = some (record {
    id = fresh;
    name = thread_name name (last_content events) clock;
    created_at = now;
    user_id = parent.user_id;
    parent_session_id = parent.session_id;
    parent_event_id = upto;
    is_thread = true;
  });
}

abbrev pub thread_key : SessionKey → Text → SessionKey
thread_key parent fresh = record parent { session_id = fresh }

-- The directory of the thread is new.
unfoldable pub fork_session :
    SessionKey → Text → Text → Text → Text → ℕ → Text → FileService → Option FileService
fork_session parent upto name fresh event_id now clock s =
    let f = or_no_files (get (session_dir s.data_dir parent) s.sessions) in
    elim (up_to upto f.events) [
      | none ↦ none
      | some events ↦ some (record s {
        sessions =
            put (session_dir s.data_dir (thread_key parent fresh))
              (forked_files parent upto name fresh event_id now clock events f) s.sessions;
      })
    ]

abbrev pub any_key : (Text → Bool) → StateMap → Bool
any_key p [] = false
any_key p ((k, v) ∷ m) = p k || any_key p m

-- The keys of an update lose their prefix.
unfoldable pub put_trimmed : Text → StateMap → StateMap → StateMap
put_trimmed prefix [] m = m
put_trimmed prefix ((k, v) ∷ kvs) m = put_trimmed prefix kvs (put (trim_prefix k prefix) v m)

-- The values with a prefix in front of their keys.
unfoldable pub put_prefixed : Text → StateMap → StateMap → StateMap
put_prefixed prefix [] m = m
put_prefixed prefix ((k, v) ∷ kvs) m = put_prefixed prefix kvs (put (prefix ++ k) v m)

module _ (app_prefix user_prefix temp_prefix : Text) where
  unfoldable pub update_app_state : Text → StateMap → FileService → Option FileService
  update_app_state app state s =
      if is_blank app
      then none
      else some (record s {
        app_states =
            put (app_dir s.data_dir app)
              (put_trimmed app_prefix state (or_empty (get (app_dir s.data_dir app) s.app_states)))
              s.app_states;
      })

  unfoldable pub delete_app_state : Text → Text → FileService → Option FileService
  delete_app_state app key s =
      if is_blank app then none else elim (get (app_dir s.data_dir app) s.app_states) [
        | none ↦ some s
        | some m ↦ some (record s {
          app_states =
              put (app_dir s.data_dir app) (del (trim_prefix key app_prefix) m) s.app_states;
        })
      ]

  unfoldable pub update_user_state : Text → Text → StateMap → FileService → Option FileService
  update_user_state app user state s =
      if is_blank app || is_blank user
      then none
      else if any_key (λ k. starts_with k app_prefix || starts_with k temp_prefix) state
      then none
      else some (record s {
        user_states =
            put (user_dir s.data_dir app user)
              (put_trimmed user_prefix state
                (or_empty (get (user_dir s.data_dir app user) s.user_states)))
              s.user_states;
      })

  unfoldable pub delete_user_state : Text → Text → Text → FileService → Option FileService
  delete_user_state app user key s =
      if is_blank app || is_blank user
      then none
      else elim (get (user_dir s.data_dir app user) s.user_states) [
        | none ↦ some s
        | some m ↦ some (record s {
          user_states =
              put (user_dir s.data_dir app user) (del (trim_prefix key user_prefix) m)
                s.user_states;
        })
      ]

  unfoldable pub update_session_state : SessionKey → StateMap → FileService → Option FileService
  update_session_state k state s =
      if not (has_session k)
      then none
      else if any_key (λ j. starts_with j app_prefix || starts_with j user_prefix) state
      then none
      else (let f = or_no_files (get (session_dir s.data_dir k) s.sessions) in
          some (record s {
            sessions =
                put (session_dir s.data_dir k)
                  (record f { state = some (put_all state (or_empty f.state)) }) s.sessions;
          }))

  -- A session's state with those of its application and its user.
  unfoldable pub load_merged : SessionKey → Files → FileService → StateMap
  load_merged k f s =
      put_prefixed user_prefix
        (or_empty (get (user_dir s.data_dir k.app_name k.user_id) s.user_states))
        (put_prefixed app_prefix (or_empty (get (app_dir s.data_dir k.app_name) s.app_states))
          (or_empty f.state))

unfoldable pub list_app_states : Text → FileService → Option StateMap
list_app_states app s =
    if is_blank app then none else some (or_empty (get (app_dir s.data_dir app) s.app_states))

unfoldable pub list_user_states : Text → Text → FileService → Option StateMap
list_user_states app user s =
    if is_blank app || is_blank user
    then none
    else some (or_empty (get (user_dir s.data_dir app user) s.user_states))
