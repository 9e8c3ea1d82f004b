-- ===== src/Tests/Grants.antt =====
-- internal/oauth at concrete values.
use kaggen.Oauth.{
  FlowManager, OauthToken, PendingFlow, Table, get_token, handle_callback, TokenAnswer, store_token,
  deliver, invalid_state, refresh_token, is_expired, pair_discrete, row_of, encrypt, decrypt,
  token_of, decrypt_refresh, after_refresh, keep_refresh, expires_within, can_refresh,
}
use kaggen.Tests.Tasks.{t1, t2}
use kaggen.Oauth.Flows.{
  apply_ops, begins, apply_op, FlowOp, calls_back, handle_callback-once, cleans,
}
use kaggen.Oauth.Refresh.{get_token-store_token, get_token-IsFresh}
use kaggen.Base.{
  ℕ, ◌≡◌, refl, ◌⊎◌, inl, inr, true, false, Option, none, some, List, [], ◌∷◌, arith, Text, codes,
  text_discrete, text_key, nat_key, get, put,
}

-- A toy cipher: one byte in front.
abbrev seal : Text → Text → Text
seal n p = 1 ∷ p

abbrev unseal : Text → Text → Option Text
unseal n [] = none
unseal n (c ∷ p) = some p

abbrev nonce : Text
nonce = codes "abcdefghijkl"

abbrev until : ℕ → OauthToken
until expires_at = record {
  access_token = codes "access";
  refresh_token = codes "refresh";
  token_type = codes "Bearer";
  expires_at = expires_at;
  scopes = codes "mail" ∷ [];
}

abbrev mine : Text × Text
mine = (codes "ann", codes "google")

abbrev held : Table
held = store_token seal unseal mine nonce nonce true (until 1000) []

abbrev refreshed : OauthToken → TokenAnswer
refreshed = refresh_token true (inr (until 5000))

get_token-store_token_example :
    get_token seal unseal mine nonce nonce true 600 601 (some refreshed) held
    ≡ (held, inr (until 1000))
get_token-store_token_example =
    get_token-store_token seal unseal (λ n p. refl) mine nonce nonce nonce nonce true 600 601
      (some refreshed) (until 1000) [] refl refl (omega arith) (omega arith)

get_token-IsFresh_example :
    (is_expired 2000 (until 5000) ≡ false)
    ⊎ ((old : OauthToken) × (refreshed old ≡ inr (until 5000)))
unfolding get_token store_token deliver get put pair_discrete text_discrete row_of encrypt decrypt
    token_of decrypt_refresh after_refresh refresh_token keep_refresh expires_within can_refresh
    is_expired
get_token-IsFresh_example =
    get_token-IsFresh seal unseal (λ n p. refl) mine nonce nonce true 2000 2000 (some refreshed)
      held (until 5000) refl

abbrev flow : Text → PendingFlow
flow state = record {
  user_id = codes "ann";
  provider = codes "google";
  state = state;
  code_verifier = [];
  redirect_uri = [];
  created_at = 0;
}

abbrev pending : FlowManager
pending = record { active_flows = (t1, flow t1) ∷ []; tokens = [] }

abbrev between : List FlowOp
between = begins true (flow t2) ∷ cleans 20 ∷ []

abbrev after : FlowManager
after =
    apply_ops seal unseal (λ p. true) between
      (apply_op seal unseal (λ p. true) (calls_back nonce nonce true (inr (until 1000)) t1 10)
        pending)

handle_callback-once_example :
    handle_callback seal unseal (λ p. true) t1 30 nonce nonce true (inr (until 5000)) after
    ≡ (after, inl invalid_state)
handle_callback-once_example =
    handle_callback-once seal unseal (λ p. true) t1 10 30 nonce nonce nonce nonce true true
      (inr (until 1000)) (inr (until 5000)) between pending ((λ e. ground (arith, e)), (tt, tt))
