-- ===== src/Trust.antt =====
-- internal/trust: tier.go, the trust tiers of senders; sandbox.go, the messages of third parties, with
-- the limit on a session and the requests to relay a message to the owner. The regular expressions of
-- `DetectRelayRequest` are the parameter `detect`, a request's id and the clock are arguments. Sending
-- the notification is the notifier's, which then calls `mark_delivered`.
pub mod Limits
use kaggen.Base.{
  ℕ, zero, suc, ◌+◌, ◌-◌, ◌*◌, ◌/◌, ◌%◌, ◌≤◌, ◌<◌, ◌≡◌, refl, sym, ap, ◌∙◌, ◌≢◌, ◌↔◌, ◌⊎◌, inl, inr,
  ite, Bool, true, false, ◌&&◌, ◌||◌, not, Option, none, some, List, [], ◌∷◌, ◌++◌, map, arith,
  dec_lt, ℕ_discrete, ltb, leb, ◌==◌, if◌then◌else◌, Bool-cases, Option-cases, found, length, take,
  drop, get_elem?, select, last_n, All, length-append, length-take, length-drop, take-append-drop,
  length-select-le, select-append, select_idem, Text, codes, text_discrete, ◌is◌, starts_with, Key,
  text_key, nat_key, Map, keep_if, get, put, del, Unique, get-put, get-del, put-Unique, del-Unique,
  values_where, del_where, map_values, get-map_values, get-del_where-none, get-del_where-some,
  del_where-Unique, map_values-Unique, values_where-del_where, contains, lower_code, to_lower,
}

pub data TrustTier : Type 0 where
  owner authorized third_party : TrustTier

pub record TrustConfig : Type 0 where
  pub owner_phones : List Text
  pub owner_telegram : List ℕ

-- `strings.TrimPrefix(phone, "+")`.
pub normalize_phone : Text → Text
normalize_phone [] = []
normalize_phone (c ∷ phone) = if c == b'+' then phone else c ∷ phone

abbrev pub any_phone : Text → List Text → Bool
any_phone phone [] = false
any_phone phone (p ∷ ps) = (normalize_phone p is phone) || any_phone phone ps

abbrev pub any_id : ℕ → List ℕ → Bool
any_id id [] = false
any_id id (i ∷ rest) = (i == id) || any_id id rest

pub is_owner_in : Text → ℕ → TrustConfig → Bool
is_owner_in phone telegram_id cfg =
    (not (phone is []) && any_phone (normalize_phone phone) cfg.owner_phones)
    || (not (telegram_id == 0) && any_id telegram_id cfg.owner_telegram)

pub classify : Text → ℕ → Option TrustConfig → TrustTier
classify phone telegram_id none = authorized
classify phone telegram_id (some cfg) =
    if is_owner_in phone telegram_id cfg then owner else authorized

pub classify_with_allowlist : Text → ℕ → Option TrustConfig → Bool → TrustTier
classify_with_allowlist phone telegram_id none in_allowlist = authorized
classify_with_allowlist phone telegram_id (some cfg) in_allowlist =
    if is_owner_in phone telegram_id cfg
    then owner
    else if in_allowlist
    then authorized
    else third_party

unfoldable pub is_authorized : TrustTier → Bool
is_authorized third_party = false
is_authorized _ = true

unfoldable pub is_third_party : TrustTier → Bool
is_third_party third_party = true
is_third_party _ = false

pub can_use_tools : TrustTier → Bool
can_use_tools owner = true
can_use_tools authorized = true
can_use_tools third_party = false

pub can_send_to_others : TrustTier → Bool
can_send_to_others owner = true
can_send_to_others _ = false

pub record RelayRequest : Type 0 where
  pub id : Text
  pub session_id : Text
  pub sender_phone : Text
  pub sender_name : Text
  pub message : Text
  pub original_text : Text
  pub created_at : ℕ
  pub channel : Text
  pub status : Text

abbrev pub pending : Text
pending = codes "pending"

abbrev pub delivered : Text
delivered = codes "delivered"

-- The requests of the relay store, by id; writing them to disk is left out.
pub add_request : RelayRequest → Map Text RelayRequest → Map Text RelayRequest
add_request req m = put req.id req m

pub get_request : Text → Map Text RelayRequest → Option RelayRequest
get_request id m = get id m

unfoldable pub list_pending : Map Text RelayRequest → List RelayRequest
list_pending m = values_where (λ r. r.status is pending) m

unfoldable pub mark_delivered : Text → Map Text RelayRequest → Map Text RelayRequest
mark_delivered id m = elim (get id m) [
  | none ↦ m
  | some r ↦ put id (record r { status = delivered }) m
]

-- A limit of 0 means none.
pub record SessionTracker : Type 0 where
  pub counts : Map Text ℕ
  pub max_limit : ℕ

abbrev pub or_zero : Option ℕ → ℕ
or_zero none = 0
or_zero (some n) = n

unfoldable pub count : Text → SessionTracker → ℕ
count session_id t = or_zero (get session_id t.counts)

-- The tracker, the new count, and whether it is over the limit.
unfoldable pub increment : Text → SessionTracker → SessionTracker × ℕ × Bool
unfolding count
increment session_id t =
    let n = count session_id t + 1 in
    (record t { counts = put session_id n t.counts }, n, ltb 0 t.max_limit && ltb t.max_limit n)

unfoldable pub reset : Text → SessionTracker → SessionTracker
reset session_id t = record t { counts = del session_id t.counts }

-- The sender's name is empty where the message has none.
pub record Message : Type 0 where
  pub session_id : Text
  pub sender_phone : Text
  pub sender_name : Text
  pub content : Text
  pub channel : Text

pub record Sandbox : Type 0 where
  pub allow_relay : Bool
  pub requests : Map Text RelayRequest
  pub tracker : SessionTracker

-- `passes` is the nil response: the caller goes on with the message.
pub data SandboxResponse : Type 0 where
  limit_exceeded relay_refused passes : SandboxResponse
  relayed : RelayRequest → SandboxResponse

abbrev pub new_request : Text → Text → ℕ → Message → RelayRequest
new_request id content now msg = record {
  id = id;
  session_id = msg.session_id;
  sender_phone = msg.sender_phone;
  sender_name = msg.sender_name;
  message = content;
  original_text = msg.content;
  created_at = now;
  channel = msg.channel;
  status = pending;
}

-- Past the session limit.
unfoldable pub relay_or_pass :
    (Text → Text) → Text → ℕ → Message → Sandbox → Sandbox × SandboxResponse
unfolding add_request
relay_or_pass detect id now msg s =
    if detect msg.content is []
    then (s, passes)
    else if not s.allow_relay
    then (s, relay_refused)
    else (
      record s { requests = add_request (new_request id (detect msg.content) now msg) s.requests },
      relayed (new_request id (detect msg.content) now msg),
    )

unfoldable pub process_message :
    (Text → Text) → Text → ℕ → Message → Sandbox → Sandbox × SandboxResponse
unfolding increment relay_or_pass
process_message detect id now msg s =
    let tracked = increment msg.session_id s.tracker in
    let s' : Sandbox = record s { tracker = tracked.0 } in
    if tracked.2 then (s', limit_exceeded) else relay_or_pass detect id now msg s'
