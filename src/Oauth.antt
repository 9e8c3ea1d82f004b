-- ===== src/Oauth.antt =====
-- internal/oauth: the pending flows of flow.go and the token store of sqlite_store.go. A flow's state
-- parameter and the nonces are drawn by the caller; times are in seconds. AES-GCM's `Seal` and `Open`
-- under the derived key are parameters, as is what the provider's endpoint answers. The table is a map
-- from user and provider to a row; the scopes' encoding as JSON is left out.
pub mod Flows
pub mod Refresh
use kaggen.Base.{
  ℕ, zero, suc, ◌+◌, ◌-◌, ◌*◌, ◌/◌, ◌%◌, ◌≤◌, ◌<◌, ◌≡◌, refl, sym, ap, ◌∙◌, ◌≢◌, ◌↔◌, ◌⊎◌, inl, inr,
  ite, Bool, true, false, ◌&&◌, ◌||◌, not, Option, none, some, List, [], ◌∷◌, ◌++◌, map, arith,
  dec_lt, ℕ_discrete, ltb, leb, ◌==◌, if◌then◌else◌, Bool-cases, Option-cases, found, length, take,
  drop, get_elem?, select, last_n, All, length-append, length-take, length-drop, take-append-drop,
  length-select-le, select-append, select_idem, Text, codes, text_discrete, ◌is◌, starts_with, Key,
  text_key, nat_key, Map, keep_if, get, put, del, Unique, get-put, get-del, put-Unique, del-Unique,
  values_where, del_where, map_values, get-map_values, get-del_where-none, get-del_where-some,
  del_where-Unique, map_values-Unique, values_where-del_where, contains, lower_code, to_lower,
  contains-append, contains_later, contains_earlier, join, decimal, last_n-append, length-last_n,
  last_n-last_n, ends_with, trim_prefix, trim_suffix, is_refl,
}

-- `failed` stands for every error without a name of its own here.
pub data OauthError : Type 0 where
  token_not_found : OauthError
  token_expired : OauthError
  no_refresh_token : OauthError
  provider_not_configured : OauthError
  invalid_state : OauthError
  failed : OauthError

pub record OauthToken : Type 0 where
  pub access_token : Text
  pub refresh_token : Text
  pub token_type : Text
  pub expires_at : ℕ
  pub scopes : List Text

unfoldable pub is_expired : ℕ → OauthToken → Bool
is_expired now t = ltb t.expires_at now

unfoldable pub expires_within : ℕ → ℕ → OauthToken → Bool
expires_within now d t = ltb t.expires_at (now + d)

unfoldable pub can_refresh : OauthToken → Bool
can_refresh t = not (t.refresh_token is [])

-- `nonceSize`, in bytes.
abbrev pub nonce_size : ℕ
nonce_size = 12

-- `refreshBuffer`.
abbrev pub refresh_buffer : ℕ
refresh_buffer = 300

-- `flowExpiry`.
abbrev pub flow_expiry : ℕ
flow_expiry = 600

pub record Row : Type 0 where
  pub access_enc : Text
  pub refresh_enc : Option Text
  pub token_type : Text
  pub expires_at : ℕ
  pub scopes : List Text

unfoldable pub pair_discrete : Discrete (Text × Text)
pair_discrete (a, b) (c, d) = elim (text_discrete a c) [
  | yes p ↦ elim (text_discrete b d) [ yes q ↦ yes (cc) | no n ↦ no (λ e. n (ap (λ x. x.1) e)) ]
  | no n ↦ no (λ e. n (ap (λ x. x.0) e))
]

instance abbrev pub pair_key : Key (Text × Text)
pair_key = record { dec = pair_discrete }

abbrev pub Table : Type 0
Table = Map (Text × Text) Row

-- What a call of the provider or of the refresh function gives.
abbrev pub TokenAnswer : Type 0
TokenAnswer = OauthError ⊎ OauthToken

module _ (seal : Text → Text → Text) (unseal : Text → Text → Option Text) where
  unfoldable pub encrypt : Text → Text → Text
  encrypt nonce plaintext = nonce ++ seal nonce plaintext

  unfoldable pub decrypt : Text → Option Text
  decrypt data' =
      if ltb (length data') nonce_size
      then none
      else unseal (take nonce_size data') (drop nonce_size data')

  unfoldable pub row_of : Text → Text → OauthToken → Row
  row_of n1 n2 t = record {
    access_enc = encrypt n1 t.access_token;
    refresh_enc = if t.refresh_token is [] then none else some (encrypt n2 t.refresh_token);
    token_type = t.token_type;
    expires_at = t.expires_at;
    scopes = t.scopes;
  }

  -- Whether the row can be written is an argument.
  unfoldable pub store_token : Text × Text → Text → Text → Bool → OauthToken → Table → Table
  store_token key n1 n2 written t m = if written then put key (row_of n1 n2 t) m else m

  unfoldable pub decrypt_refresh : Option Text → Option Text
  decrypt_refresh none = some []
  decrypt_refresh (some c) = decrypt c

  unfoldable pub token_of : Row → Option OauthToken
  token_of row = elim (decrypt row.access_enc) [
    | none ↦ none
    | some access ↦ elim (decrypt_refresh row.refresh_enc) [
      | none ↦ none
      | some refresh ↦ some (record {
        access_token = access;
        refresh_token = refresh;
        token_type = row.token_type;
        expires_at = row.expires_at;
        scopes = row.scopes;
      })
    ]
  ]

  -- The clock stands at `now`, and at `later` once the refresh function has answered.
  unfoldable pub checked : ℕ → OauthToken → TokenAnswer
  checked later t = if is_expired later t then inl token_expired else inr t

  unfoldable pub after_refresh :
      Text × Text → Text → Text → Bool → ℕ → OauthToken → TokenAnswer → Table → Table × TokenAnswer
  after_refresh key n1 n2 written later t (inl e) m = (m, checked later t)
  after_refresh key n1 n2 written later t (inr t') m = (store_token key n1 n2 written t' m, inr t')

  unfoldable pub deliver :
      Text × Text
      → Text
      → Text
      → Bool
      → ℕ
      → ℕ
      → Option (OauthToken → TokenAnswer)
      → OauthToken
      → Table
      → Table × TokenAnswer
  deliver key n1 n2 written now later none t m = (m, checked later t)
  deliver key n1 n2 written now later (some refresh) t m =
      if expires_within now refresh_buffer t && can_refresh t
      then after_refresh key n1 n2 written later t (refresh t) m
      else (m, checked later t)

  -- The refresh function is none where none is set.
  unfoldable pub get_token :
      Text × Text
      → Text
      → Text
      → Bool
      → ℕ
      → ℕ
      → Option (OauthToken → TokenAnswer)
      → Table
      → Table × TokenAnswer
  get_token key n1 n2 written now later refresher m = elim (get key m) [
    | none ↦ (m, inl token_not_found)
    | some row ↦ elim (token_of row) [
      | none ↦ (m, inl failed)
      | some t ↦ deliver key n1 n2 written now later refresher t m
    ]
  ]

unfoldable pub delete_token : Text × Text → Table → Table
delete_token key m = del key m

unfoldable pub lacks_token : Text → ℕ → Table → Text → Bool
lacks_token user now m provider = elim (get (user, provider) m) [
  | none ↦ true
  | some row ↦ ltb row.expires_at now
]

unfoldable pub needs_auth : Text → ℕ → List Text → Table → List Text
needs_auth user now providers m = select (lacks_token user now m) providers

-- What `refreshToken` makes of the endpoint's answer: a provider that returns no refresh token keeps the
-- old one.
unfoldable pub keep_refresh : OauthToken → TokenAnswer → TokenAnswer
keep_refresh current (inl e) = inl e
keep_refresh current (inr t) =
    inr (if t.refresh_token is [] then record t { refresh_token = current.refresh_token } else t)

unfoldable pub refresh_token : Bool → TokenAnswer → OauthToken → TokenAnswer
refresh_token configured answer current =
    if current.refresh_token is []
    then inl no_refresh_token
    else if not configured
    then inl provider_not_configured
    else keep_refresh current answer

pub record PendingFlow : Type 0 where
  pub user_id : Text
  pub provider : Text
  pub state : Text
  pub code_verifier : Text
  pub redirect_uri : Text
  pub created_at : ℕ

abbrev pub FlowsMap : Type 0
FlowsMap = Map Text PendingFlow

unfoldable pub flow_expired : ℕ → PendingFlow → Bool
flow_expired now f = ltb flow_expiry (now - f.created_at)

unfoldable pub cleanup_old_flows : ℕ → FlowsMap → FlowsMap
cleanup_old_flows now m = del_where (flow_expired now) m

-- `activeFlows` and the token store.
pub record FlowManager : Type 0 where
  pub active_flows : FlowsMap
  pub tokens : Table

-- The pending flow is stored; the URL and the drawing of the state are left out, and the clean-up that
-- is started in the background is a step of its own.
unfoldable pub start_auth : Bool → PendingFlow → FlowManager → FlowManager × Option OauthError
start_auth configured f fm =
    if configured
    then (record fm { active_flows = put f.state f fm.active_flows }, none)
    else (fm, some provider_not_configured)

module _ (seal : Text → Text → Text) (unseal : Text → Text → Option Text) where
  -- Store the token that the code was exchanged for.
  unfoldable pub finish_flow :
      Text
      → Text
      → Bool
      → TokenAnswer
      → PendingFlow
      → FlowManager
      → FlowManager × (OauthError ⊎ Text)
  finish_flow n1 n2 written (inl e) f fm = (fm, inl e)
  finish_flow n1 n2 written (inr t) f fm = (
    record fm {
      tokens = store_token seal unseal (f.user_id, f.provider) n1 n2 written t fm.tokens;
    },
    if written then inr f.user_id else inl failed,
  )

  unfoldable pub accept_flow :
      (Text → Bool)
      → ℕ
      → Text
      → Text
      → Bool
      → TokenAnswer
      → PendingFlow
      → FlowManager
      → FlowManager × (OauthError ⊎ Text)
  accept_flow configured now n1 n2 written exchanged f fm =
      if flow_expired now f
      then (fm, inl invalid_state)
      else if not (configured f.provider)
      then (fm, inl provider_not_configured)
      else finish_flow n1 n2 written exchanged f fm

  -- `configured` says which providers are; `exchanged` is what the code's exchange gives, and `written`
  -- whether the token can be stored.
  unfoldable pub handle_callback :
      (Text → Bool)
      → Text
      → ℕ
      → Text
      → Text
      → Bool
      → TokenAnswer
      → FlowManager
      → FlowManager × (OauthError ⊎ Text)
  handle_callback configured state now n1 n2 written exchanged fm =
      elim (get state fm.active_flows) [
        | none ↦ (fm, inl invalid_state)
        | some f ↦
            accept_flow configured now n1 n2 written exchanged f
              (record fm { active_flows = del state fm.active_flows })
      ]
