-- ===== src/Oauth/Refresh.antt =====
-- internal/oauth/sqlite_store.go: what the token store gives back.
use kaggen.Oauth.{
  decrypt, token_of, encrypt, row_of, decrypt_refresh, nonce_size, OauthToken, get_token, deliver,
  TokenAnswer, Table, is_expired, after_refresh, checked, expires_within, store_token,
  refresh_buffer, can_refresh, pair_discrete,
}
use mathlib.Core.Path.{subst}
use kaggen.Oauth.{pair_key}
use kaggen.Base.{
  ℕ, ◌+◌, ◌≤◌, ◌≡◌, refl, ap, ◌∙◌, ◌⊎◌, inl, inr, Bool, true, false, ◌&&◌, Option, none, some, [],
  ◌∷◌, ◌++◌, arith, ltb, Bool-cases, Option-cases, length, take, drop, length-append, Text, ◌is◌,
  text_key, nat_key, get, get-put,
}

-- What sealing under a nonce gives is opened under the same nonce.
abbrev pub Opens : (Text → Text → Text) → (Text → Text → Option Text) → Type 0
Opens seal unseal = (n p : Text) → unseal n (seal n p) ≡ some p

take-length : (a b : Text) → take (length a) (a ++ b) ≡ a
take-length [] b = refl
take-length (x ∷ a) b = ap (◌∷◌ x) (take-length a b)

drop-length : (a b : Text) → drop (length a) (a ++ b) ≡ b
drop-length [] b = refl
drop-length (x ∷ a) b = drop-length a b

empty_text : (t : Text) → (t is []) ≡ true → t ≡ []
empty_text [] e = refl
empty_text (c ∷ t) e = ground (arith, e)

module _ (seal : Text → Text → Text) (unseal : Text → Text → Option Text)
    (o : Opens seal unseal) where
  decrypt-encrypt :
      (n p : Text) → length n ≡ nonce_size → decrypt seal unseal (encrypt seal unseal n p) ≡ some p
  unfolding decrypt encrypt
  decrypt-encrypt n p l =
      let long : ltb (length (n ++ seal n p)) nonce_size ≡ false =
        ground (arith, l, length-append n (seal n p)) in
      let front : take nonce_size (n ++ seal n p) ≡ n =
        subst (λ k. take k (n ++ seal n p) ≡ n) l (take-length n (seal n p)) in
      let back : drop nonce_size (n ++ seal n p) ≡ seal n p =
        subst (λ k. drop k (n ++ seal n p) ≡ seal n p) l (drop-length n (seal n p)) in
      rw (long, front, back) (o n p)

  token_of-row_of :
      (n1 n2 : Text) (t : OauthToken)
      → length n1 ≡ nonce_size
      → length n2 ≡ nonce_size
      → token_of seal unseal (row_of seal unseal n1 n2 t) ≡ some t
  unfolding token_of row_of decrypt_refresh
  token_of-row_of n1 n2 t l1 l2 = elim (Bool-cases (t.refresh_token is [])) [
    | inl e ↦ ground (arith, e, decrypt-encrypt n1 t.access_token l1, empty_text t.refresh_token e)
    | inr e ↦
        ground
          (arith, e, decrypt-encrypt n1 t.access_token l1, decrypt-encrypt n2 t.refresh_token l2)
  ]

  checked-IsFresh :
      (later : ℕ) (t r : OauthToken)
      → checked seal unseal later t ≡ inr r
      → is_expired later r ≡ false
  unfolding checked
  checked-IsFresh later t r h = elim (Bool-cases (is_expired later t)) [
    | inl e ↦ ground (arith, e, h)
    | inr e ↦ ground (arith, e, h)
  ]

  -- The token is not expired, or the refresh function has just given it.
  abbrev pub IsFresh : ℕ → Option (OauthToken → TokenAnswer) → OauthToken → Type 0
  IsFresh later none t = is_expired later t ≡ false
  IsFresh later (some refresh) t =
      (is_expired later t ≡ false) ⊎ ((old : OauthToken) × (refresh old ≡ inr t))

  after_refresh-IsFresh :
      (key : Text × Text) (n1 n2 : Text) (written : Bool) (later : ℕ) (t : OauthToken)
      (refresh : OauthToken → TokenAnswer) (a : TokenAnswer) (m : Table) (r : OauthToken)
      → refresh t ≡ a
      → (after_refresh seal unseal key n1 n2 written later t a m).1 ≡ inr r
      → IsFresh later (some refresh) r
  unfolding after_refresh
  after_refresh-IsFresh key n1 n2 written later t refresh (inl e) m r gave h =
      inl (checked-IsFresh later t r h)
  after_refresh-IsFresh key n1 n2 written later t refresh (inr t') m r gave h = inr (t, gave ∙ h)

  deliver-IsFresh :
      (key : Text × Text) (n1 n2 : Text) (written : Bool) (now later : ℕ)
      (refresher : Option (OauthToken → TokenAnswer)) (t : OauthToken) (m : Table) (r : OauthToken)
      → (deliver seal unseal key n1 n2 written now later refresher t m).1 ≡ inr r
      → IsFresh later refresher r
  unfolding deliver
  deliver-IsFresh key n1 n2 written now later none t m r h = checked-IsFresh later t r h
  deliver-IsFresh key n1 n2 written now later (some refresh) t m r h =
      elim (Bool-cases (expires_within now refresh_buffer t && can_refresh t)) [
        | inl e ↦
            after_refresh-IsFresh key n1 n2 written later t refresh (refresh t) m r refl
              (ground (arith, e, h))
        | inr e ↦ inl (checked-IsFresh later t r (ground (arith, e, h)))
      ]

  -- A token that the store delivers has not expired, unless the refresh function has just given it.
  pub get_token-IsFresh :
      (key : Text × Text) (n1 n2 : Text) (written : Bool) (now later : ℕ)
      (refresher : Option (OauthToken → TokenAnswer)) (m : Table) (r : OauthToken)
      → (get_token seal unseal key n1 n2 written now later refresher m).1 ≡ inr r
      → IsFresh later refresher r
  unfolding get_token
  get_token-IsFresh key n1 n2 written now later refresher m r h = elim (Option-cases (get key m)) [
    | inl miss ↦ ground (arith, miss, h)
    | inr (row, hit) ↦ elim (Option-cases (token_of seal unseal row)) [
      | inl bad ↦ ground (arith, hit, bad, h)
      | inr (t, good) ↦
          deliver-IsFresh key n1 n2 written now later refresher t m r (ground (arith, hit, good, h))
    ]
  ]

  -- A token that the table holds is not expired and not about to is delivered as it was stored.
  pub get_token-store_token :
      (key : Text × Text) (n1 n2 n3 n4 : Text) (written : Bool) (now later : ℕ)
      (refresher : Option (OauthToken → TokenAnswer)) (t : OauthToken) (m : Table)
      → length n1 ≡ nonce_size
      → length n2 ≡ nonce_size
      → now + refresh_buffer ≤ t.expires_at
      → later ≤ t.expires_at
      → let stored = store_token seal unseal key n1 n2 true t m in
        get_token seal unseal key n3 n4 written now later refresher stored ≡ (stored, inr t)
  unfolding get_token store_token deliver checked is_expired expires_within
  get_token-store_token key n1 n2 n3 n4 written now later none t m l1 l2 soon fresh = ground (
    arith,
    token_of-row_of n1 n2 t l1 l2,
    pair_discrete key key,
    get-put key key (row_of seal unseal n1 n2 t) m,
  )
  get_token-store_token key n1 n2 n3 n4 written now later (some f) t m l1 l2 soon fresh = ground (
    arith,
    token_of-row_of n1 n2 t l1 l2,
    pair_discrete key key,
    get-put key key (row_of seal unseal n1 n2 t) m,
  )
