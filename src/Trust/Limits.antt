-- ===== src/Trust/Limits.antt =====
-- internal/trust: what a sender may do by tier, and what a session of a third party gets.
use kaggen.Base.{
  ℕ, ◌+◌, ◌≡◌, refl, ◌∙◌, ◌≢◌, Bool, true, false, ◌&&◌, ◌||◌, some, List, [], ◌∷◌, arith, ltb,
  if◌then◌else◌, Text, ◌is◌, text_key, nat_key, get-put,
}
use kaggen.Trust.{
  TrustConfig, is_owner_in, classify, classify_with_allowlist, can_use_tools, can_send_to_others,
  normalize_phone, Message, Sandbox, SandboxResponse, limit_exceeded, relayed, process_message,
  relay_or_pass, RelayRequest, increment, count, get_request, pending, add_request, new_request,
}

-- With a configuration, a sender may use tools exactly if the sender is an owner or stands on an
-- allowlist, and may send to others exactly if the sender is an owner; one who passed a channel's
-- allowlist is classified alike by both classifications.
pub classify_with_allowlist_lem :
    (phone : Text) (id : ℕ) (cfg : TrustConfig) (listed : Bool)
    → (can_use_tools (classify_with_allowlist phone id (some cfg) listed)
        ≡ (is_owner_in phone id cfg || listed))
      × (can_send_to_others (classify_with_allowlist phone id (some cfg) listed)
          ≡ is_owner_in phone id cfg)
      × (classify_with_allowlist phone id (some cfg) true ≡ classify phone id (some cfg))
unfolding classify_with_allowlist classify can_use_tools can_send_to_others
classify_with_allowlist_lem phone id cfg listed = ground arith

-- A leading plus makes no difference: a number that does not start with a plus, and is not empty, is
-- an owner's exactly if it is with a plus in front.
pub is_owner_in-plus :
    (c id : ℕ) (phone : Text) (cfg : TrustConfig)
    → c ≢ b'+'
    → is_owner_in (b'+' ∷ c ∷ phone) id cfg ≡ is_owner_in (c ∷ phone) id cfg
unfolding is_owner_in normalize_phone
is_owner_in-plus c id phone cfg h = ground arith

-- A message that arrives, with the id that a request of it would get, and its time.
pub record Arrival : Type 0 where
  pub id : Text
  pub now : ℕ
  pub msg : Message

-- How many messages of a session arrived.
abbrev pub arrived : Text → List Arrival → ℕ
arrived session [] = 0
arrived session (a ∷ rest) =
    if a.msg.session_id is session then arrived session rest + 1 else arrived session rest

abbrev pub is_limit_exceeded : SandboxResponse → Bool
is_limit_exceeded limit_exceeded = true
is_limit_exceeded _ = false

module _ (detect : Text → Text) where
  unfoldable pub process : Arrival → Sandbox → Sandbox × SandboxResponse
  unfolding process_message
  process a s = process_message detect a.id a.now a.msg s

  pub process_all : List Arrival → Sandbox → Sandbox
  unfolding process
  process_all [] s = s
  process_all (a ∷ rest) s = process_all rest (process a s).0

  relay_or_pass-tracker :
      (id : Text) (now : ℕ) (msg : Message) (s : Sandbox)
      → (relay_or_pass detect id now msg s).0.tracker ≡ s.tracker
  unfolding relay_or_pass
  relay_or_pass-tracker id now msg s = ground arith

  process-tracker :
      (a : Arrival) (s : Sandbox) (session : Text)
      → (count session (process a s).0.tracker ≡ (
          if a.msg.session_id is session
          then count session s.tracker + 1
          else count session s.tracker))
        × ((process a s).0.tracker.max_limit ≡ s.tracker.max_limit)
  unfolding process process_message increment count
  process-tracker a s session =
      let n = count a.msg.session_id s.tracker + 1 in
      let s' : Sandbox = record s { tracker = (increment a.msg.session_id s.tracker).0 } in
      let kept = relay_or_pass-tracker a.id a.now a.msg s' in
      let new = get-put a.msg.session_id session n s.tracker.counts in
      (ground (arith, kept, new), ground (arith, kept))

  process_all-tracker :
      (rest : List Arrival) (s : Sandbox) (session : Text)
      → (count session (process_all rest s).tracker
          ≡ count session s.tracker + arrived session rest)
        × ((process_all rest s).tracker.max_limit ≡ s.tracker.max_limit)
  unfolding process_all
  process_all-tracker [] s session = (omega arith, refl)
  process_all-tracker (a ∷ rest) s session =
      let (n, l) = process-tracker a s session in
      let (m, k) = process_all-tracker rest (process a s).0 session in (ground (arith, n, m), k ∙ l)

  relay_or_pass-within :
      (id : Text) (now : ℕ) (msg : Message) (s : Sandbox)
      → is_limit_exceeded (relay_or_pass detect id now msg s).1 ≡ false
  unfolding relay_or_pass
  relay_or_pass-within id now msg s = ground arith

  -- From a sandbox where a session has no messages yet, the answer to a message of the session says
  -- that the limit is exceeded exactly if there is a limit, and the session's messages that arrived,
  -- this one included, are more than it.
  pub process-limit_exceeded :
      (rest : List Arrival) (a : Arrival) (s : Sandbox)
      → count a.msg.session_id s.tracker ≡ 0
      → is_limit_exceeded (process a (process_all rest s)).1
        ≡ (ltb 0 s.tracker.max_limit && ltb s.tracker.max_limit (arrived a.msg.session_id rest + 1))
  unfolding process process_message increment
  process-limit_exceeded rest a s h =
      let (n, l) = process_all-tracker rest s a.msg.session_id in
      let before = process_all rest s in
      let s' : Sandbox = record before {
        tracker = (increment a.msg.session_id before.tracker).0;
      } in
      ground (arith, n, l, h, relay_or_pass-within a.id a.now a.msg s')

  -- A message is relayed only where relaying is allowed; then what is kept for the owner, pending, is
  -- the text that was found in the message, with its session and its sender, and every other request
  -- stays as it was.
  pub process-relayed :
      (a : Arrival) (s : Sandbox) (r : RelayRequest) (other : Text)
      → (process a s).1 ≡ relayed r
      → (s.allow_relay ≡ true)
        × (get_request other (process a s).0.requests
            ≡ (if a.id is other then some r else get_request other s.requests))
        × (r.message ≡ detect a.msg.content)
        × (r.status ≡ pending)
        × (r.session_id ≡ a.msg.session_id)
        × (r.sender_phone ≡ a.msg.sender_phone)
  unfolding process process_message relay_or_pass add_request get_request
  process-relayed a s r other h =
      let kept =
        get-put a.id other (new_request a.id (detect a.msg.content) a.now a.msg) s.requests in
      (
        ground (arith, h),
        ground (arith, h, kept),
        ground (arith, h),
        ground (arith, h),
        ground (arith, h),
        ground (arith, h),
      )
