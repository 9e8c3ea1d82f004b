-- ===== src/Tests/Gates.antt =====
-- internal/gateway/callbacks.go, internal/pubsub/bridge.go, internal/auth/token.go, internal/security and
-- internal/vfs/scoped.go at concrete values.
use kaggen.Base.{
  ℕ, ◌≡◌, refl, true, false, Option, none, some, List, [], ◌∷◌, ◌++◌, arith, Text, codes,
  text_discrete, text_key, nat_key, get, put, contains,
}
use kaggen.Tests.Tasks.{t1, t2, sid, working, one_task}
use kaggen.Tasks.{Store, new_store, find_task}
use kaggen.Tasks.Machines.{seen, replay, seen-run}
use kaggen.Tasks.Lifecycle.{
  Call, registers, cancels, reaps, outsources, drains, run, step, run-new_store-IsValid,
}
use kaggen.Callbacks.{
  Request, nack, QueueMessage, handle_callback, handle_message, receive, accept, check_signature,
  handle_interleaved,
}
use kaggen.Security.{PathValidator, to_slashes, validate_path, first_match}
use kaggen.Tokens.{Token, TokenStore, new_token_store, save}
use kaggen.Scoped.{Elements, remove_all, perform, rename}
use kaggen.Security.Traversal.{Plain, validate_path-Plain}
use kaggen.Tokens.Validity.{OnlyAdmits, new_token_store-save}
use kaggen.Scoped.Confinement.{Stays, perform-Stays}
use kaggen.Callbacks.Delivery.{handle_callback-unsigned, handle_message-secret}
use kaggen.Vfs.Paths.{split_slash}
use kaggen.Callbacks.Repeats.{IsRefused, handle_callback-twice}
use kaggen.Tasks.External.{register_external}
use kaggen.Tasks.Approval.{EmailArgs}

abbrev no_email : Text → Option EmailArgs
no_email raw = none

abbrev history : List (ℕ × Call)
history =
    (1, outsources t1 sid [] sid sid sid 5)
    ∷ (2, registers t2 sid sid sid sid sid [] 0)
    ∷ (3, cancels t2)
    ∷ (9, reaps)
    ∷ (10, drains)
    ∷ []

seen-run_example : seen t1 (run no_email new_store history) ≡ replay t1 none history
seen-run_example = seen-run no_email t1 history

-- A signature that is the secret and the body in a row.
abbrev joined : Text → Text → Text
joined secret body = secret ++ body

abbrev plain_json : Text → Text × Text
plain_json body = (codes "ok", [])

abbrev waiting_store : Text → Store
waiting_store secret = record one_task {
  tasks = (t1, record working { external = true; callback_secret = secret; timeout_at = 101 }) ∷ [];
}

abbrev post : Text → Request
post signature = record {
  is_post = true;
  is_get = false;
  path = codes "/callbacks/1";
  body = some sid;
  signature = signature;
}

handle_callback-unsigned_example :
    ((handle_callback joined plain_json t1 (post t2) 5 (waiting_store sid)).store
      ≡ waiting_store sid)
    × ((handle_callback joined plain_json t1 (post t2) 5 (waiting_store sid)).completions ≡ [])
unfolding find_task get text_discrete
handle_callback-unsigned_example =
    handle_callback-unsigned joined plain_json t1 (post t2) 5 (waiting_store sid) refl

abbrev outsourced : Store
outsourced = run no_email new_store ((1, outsources t1 sid [] sid sid sid 5) ∷ [])

abbrev settled : Store
settled = (handle_interleaved joined plain_json t1 (post []) 5 outsourced outsourced).store

handle_callback-twice_example :
    IsRefused joined plain_json no_email
      (handle_interleaved joined plain_json t1
        (post [])
        6
        (run no_email settled ((6, cancels t1) ∷ (7, drains) ∷ []))
        new_store)
      new_store
unfolding handle_interleaved receive accept check_signature find_task get text_discrete run step
    register_external new_store put
handle_callback-twice_example =
    handle_callback-twice joined plain_json no_email t1 (post []) (post []) 5 6 outsourced
      outsourced new_store ((6, cancels t1) ∷ (7, drains) ∷ [])
      (run-new_store-IsValid no_email ((1, outsources t1 sid [] sid sid sid 5) ∷ [])) (tt, (tt, tt))
      refl

abbrev queue_message : QueueMessage
queue_message = record { attribute = some t1; payload = sid }

abbrev no_id : Text → Text
no_id body = []

handle_message-secret_example :
    ((handle_message joined plain_json no_id true queue_message 5 (waiting_store sid)).1 ≡ nack)
    × ((handle_message joined plain_json no_id true queue_message 5 (waiting_store sid)).0.store
        ≡ waiting_store sid)
unfolding find_task get text_discrete
handle_message-secret_example =
    handle_message-secret joined plain_json no_id true queue_message t1 5 (waiting_store sid) refl
      (λ e. cc) refl refl (λ e. cc)

abbrev strict : PathValidator
strict = record { blocked_paths = []; restrict_workspace = true }

validate_path-Plain_example : Plain (split_slash (to_slashes (codes "a/b..c")))
unfolding validate_path first_match contains text_discrete
validate_path-Plain_example =
    validate_path-Plain sid (codes "a/b..c") strict refl (λ e. cc) refl (λ e. cc) refl

abbrev token : Text → Token
token id = record {
  id = id;
  hashed = id ++ sid;
  salt = sid;
  name = [];
  created_at = 1;
  expires_at = 0;
}

abbrev two_tokens : TokenStore
two_tokens = record { tokens = (t1, token t1) ∷ (t2, token t2) ∷ []; filepath = [] }

only_t1 : OnlyAdmits joined t1 7 t1 two_tokens.tokens
unfolding get
only_t1 j t hit other = elim (text_discrete t2 j) [
  | yes same ↦ ground (arith, same, hit)
  | no apart ↦ absurd (ground (arith, apart, other, hit))
]

new_token_store-save_example :
    get t2 (new_token_store sid (some (save two_tokens))).tokens ≡ get t2 two_tokens.tokens
unfolding get text_discrete
new_token_store-save_example =
    new_token_store-save t2 sid two_tokens (λ e. cc) (refl, (refl, tt)) (refl, (refl, tt))

abbrev no_links : Elements → Option Elements
no_links p = some p

perform-Stays_example :
    Stays no_links
      (sid ∷ [])
      (codes "../x")
      t1
      (perform no_links (sid ∷ []) remove_all (codes "../x"))
    × Stays no_links (sid ∷ []) (codes "../x") t1 (rename no_links (sid ∷ []) (codes "../x") t1)
perform-Stays_example = perform-Stays no_links (sid ∷ []) remove_all (codes "../x") t1
