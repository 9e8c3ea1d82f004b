-- ===== src/Transcripts/Isolation.antt =====
-- internal/session/file_service.go: sessions with different keys do not share files.
use kaggen.Transcripts.{
  SessionKey, append_event, session_dir, Event, StateMap, FileService, with_event, or_no_files,
  join_path, join_slash, split_all, clean_parts, split_slash,
}
use kaggen.Vfs.Paths.Clean.{IsPlain, clean_parts-join, split_slash-one, clean_parts-plain}
use kaggen.Vfs.Paths.{join_slash, clean_parts, split_slash}
use kaggen.Base.{
  ℕ, ◌≡◌, refl, sym, ap, ◌∙◌, ◌≢◌, ◌⊎◌, inl, inr, some, List, [], ◌∷◌, ◌++◌, arith, All, Text,
  text_key, nat_key, get, put, get-put,
}

append-cancel : (a b c : List Text) → a ++ b ≡ a ++ c → b ≡ c
append-cancel [] b c e = e
append-cancel (x ∷ a) b c e = let rest : a ++ b ≡ a ++ c = cc in append-cancel a b c rest

All-append : (a b : List Text) → All IsPlain a → All IsPlain b → All IsPlain (a ++ b)
All-append [] b h k = k
All-append (x ∷ a) b h k = (h.0, All-append a b h.1 k)

abbrev names_of : SessionKey → List Text
names_of k = k.app_name ∷ k.user_id ∷ k.session_id ∷ []

-- Three names, each of them one element of a path: neither empty nor a dot or two, without a slash.
abbrev pub IsKey : SessionKey → Type 0
IsKey k = All IsPlain (names_of k)

split_all-plain : (names : List Text) → All IsPlain names → split_all names ≡ names
split_all-plain [] h = refl
split_all-plain (p ∷ names) h = rw (split_slash-one p h.0.whole, split_all-plain names h.1) refl

session_dir-plain :
    (base : List Text) (k : SessionKey)
    → All IsPlain base
    → IsKey k
    → session_dir base k ≡ join_slash (base ++ names_of k)
unfolding session_dir join_path
session_dir-plain base k hb hk =
    let split = split_all-plain (names_of k) hk in
    let plain = All-append base (names_of k) hb hk in
    ap (λ names. join_slash (clean_parts [] (base ++ names))) split
    ∙ ap join_slash (clean_parts-plain [] (base ++ names_of k) plain)

-- Such keys have the same directory only if they are the same.
session_dir-same :
    (base : List Text) (k j : SessionKey)
    → All IsPlain base
    → IsKey k
    → IsKey j
    → session_dir base k ≡ session_dir base j
    → names_of k ≡ names_of j
session_dir-same base k j hb hk hj e =
    let joined : join_slash (base ++ names_of k) ≡ join_slash (base ++ names_of j) =
      sym (session_dir-plain base k hb hk) ∙ e ∙ session_dir-plain base j hb hj in
    append-cancel base (names_of k) (names_of j) (
      sym (clean_parts-join (base ++ names_of k) (All-append base (names_of k) hb hk))
      ∙ ap (λ path. clean_parts [] (split_slash path)) joined
      ∙ clean_parts-join (base ++ names_of j) (All-append base (names_of j) hb hj))

-- An event that is appended to one session leaves the files of every other session, of the same user or
-- not, as they were, if each name in the keys of both is one element of a path: neither empty nor a dot
-- or two dots, and without slashes. The data's directory is a cleaned path.
pub append_event-other :
    (k j : SessionKey) (e : Event) (snapshot : StateMap) (now : ℕ) (s s' : FileService)
    → All IsPlain s.data_dir
    → IsKey k
    → IsKey j
    → (k.app_name ≢ j.app_name) ⊎ (k.user_id ≢ j.user_id) ⊎ (k.session_id ≢ j.session_id)
    → append_event k e snapshot now s ≡ some s'
    → get (session_dir s.data_dir j) s'.sessions ≡ get (session_dir s.data_dir j) s.sessions
unfolding append_event
append_event-other k j e snapshot now s s' hb hk hj other h =
    let at = session_dir s.data_dir k in
    let to = session_dir s.data_dir j in
    let files = with_event k e snapshot now (or_no_files (get at s.sessions)) in
    let made : s' ≡ record s { sessions = put at files s.sessions } = ground (arith, h) in
    let apart : at ≢ to = λ same.
      (let names = session_dir-same s.data_dir k j hb hk hj same in
        elim other [ inl n ↦ n (cc) | inr (inl n) ↦ n (cc) | inr (inr n) ↦ n (cc) ]) in
    rw made (ground (arith, apart, get-put at to files s.sessions))
