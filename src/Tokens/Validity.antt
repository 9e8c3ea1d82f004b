-- ===== src/Tokens/Validity.antt =====
-- internal/auth/token.go and internal/p2p/gater.go: how long a token is valid, what revoking it does,
-- and that the file of the store gives it back.
use kaggen.Tokens.{
  Token, validate_token, admits, generate_token, TokenStore, any_admits, new_token_store,
  put_tokens, revoke_token, save, load,
}
use kaggen.Base.{
  ℕ, ◌+◌, ◌≤◌, ◌≡◌, refl, ◌≢◌, ◌⊎◌, inl, inr, Bool, true, false, Option, none, some, [], ◌∷◌, arith,
  Option-cases, All, Text, text_discrete, text_key, nat_key, Map, get, put, del, Unique, get-put,
  values_where, is_refl,
}

module _ (hash : Text → Text → Text) where
  any_admits-put :
      (plaintext : Text) (now : ℕ) (id : Text) (t : Token) (m : Map Text Token)
      → admits hash plaintext now t ≡ true
      → any_admits hash plaintext now (put id t m) ≡ true
  unfolding put
  any_admits-put plaintext now id t [] h = ground (arith, h)
  any_admits-put plaintext now id t ((j, u) ∷ m) h = elim (text_discrete j id) [
    | yes same ↦ ground (arith, same, h)
    | no other ↦ ground (arith, other, any_admits-put plaintext now id t m h)
  ]

  -- A token is valid from its creation to the end of its time, and for ever where it has none, whether
  -- or not the store's file could be written.
  pub validate_token-generate_token :
      (plaintext salt id name : Text) (expires_in now then' : ℕ) (written : Bool) (s : TokenStore)
      → (expires_in ≡ 0) ⊎ (then' ≤ now + expires_in)
      → validate_token hash plaintext then'
          (generate_token hash plaintext salt id name expires_in now written s).0
        ≡ true
  unfolding validate_token generate_token
  validate_token-generate_token plaintext salt id name expires_in now then' written s h =
      any_admits-put plaintext then' id _ s.tokens (elim h [
        | inl forever ↦ ground (arith, forever, is_refl (hash plaintext salt))
        | inr early ↦ ground (arith, early, is_refl (hash plaintext salt))
      ])

  -- No entry but the one under `id` admits the token.
  abbrev pub OnlyAdmits : Text → ℕ → Text → Map Text Token → Type 0
  OnlyAdmits plaintext now id m =
      (j : Text) (t : Token) → get j m ≡ some t → j ≢ id → admits hash plaintext now t ≡ false

  any_admits-del :
      (plaintext : Text) (now : ℕ) (id : Text) (m : Map Text Token)
      → Unique m
      → OnlyAdmits plaintext now id m
      → any_admits hash plaintext now (del id m) ≡ false
  unfolding del get
  any_admits-del plaintext now id [] u h = refl
  any_admits-del plaintext now id ((j, t) ∷ m) u h =
      let deeper : OnlyAdmits plaintext now id m = λ k v hit other.
        h k v
          (elim (text_discrete j k) [
            | yes same ↦ absurd (ground (arith, same, hit, u.0))
            | no apart ↦ ground (arith, apart, hit)
          ])
          other in
      let ih = any_admits-del plaintext now id m u.1 deeper in
      elim (text_discrete j id) [
        | yes same ↦ ground (arith, same, ih)
        | no apart ↦
            let here = h j t (ground (arith, text_discrete j j)) apart in
            ground (arith, apart, ih, here)
      ]

  -- Once its entry is revoked, a token that no other entry admits is not valid any more.
  pub validate_token-revoke_token :
      (plaintext id : Text) (now : ℕ) (written : Bool) (s : TokenStore)
      → Unique s.tokens
      → OnlyAdmits plaintext now id s.tokens
      → validate_token hash plaintext now (revoke_token id written s).0 ≡ false
  unfolding validate_token revoke_token
  validate_token-revoke_token plaintext id now written s u h =
      any_admits-del plaintext now id s.tokens u h

-- Each token stands under its own id.
abbrev pub Named : Map Text Token → Type 0
Named m = All (λ e. e.1.id ≡ e.0) m

abbrev later_of : Option Token → Option Token → Option Token
later_of none old = old
later_of (some t) old = some t

get-put_tokens :
    (k : Text) (m acc : Map Text Token)
    → Unique m
    → Named m
    → get k (put_tokens (values_where (λ t. true) m) acc) ≡ later_of (get k m) (get k acc)
unfolding put_tokens get
get-put_tokens k [] acc u n = refl
get-put_tokens k ((j, t) ∷ m) acc u n =
    let ih = get-put_tokens k m (put t.id t acc) u.1 n.1 in
    elim (text_discrete j k) [
      | yes same ↦ ground (arith, same, ih, u.0, n.0, get-put t.id k t acc)
      | no apart ↦ ground (arith, apart, ih, n.0, get-put t.id k t acc)
    ]

-- A store that is opened on what another one saved has the same token under every id.
pub new_token_store-save :
    (k path : Text) (s : TokenStore)
    → path ≢ []
    → Unique s.tokens
    → Named s.tokens
    → get k (new_token_store path (some (save s))).tokens ≡ get k s.tokens
unfolding new_token_store save load get
new_token_store-save k [] s p u n = absurd (p refl)
new_token_store-save k (c ∷ path) s p u n = elim (Option-cases (get k s.tokens)) [
  | inl miss ↦ ground (arith, miss, get-put_tokens k s.tokens [] u n)
  | inr (t, hit) ↦ ground (arith, hit, get-put_tokens k s.tokens [] u n)
]
