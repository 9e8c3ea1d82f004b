-- ===== src/Tokens.antt =====
-- internal/auth/token.go: the store of authentication tokens; internal/p2p/auth.go: the handshake of a
-- peer-to-peer stream; internal/p2p/gater.go: the allow list of peers. The random bytes and the clock are
-- arguments, the hash (Argon2 under a salt) is the parameter `hash`. The file of a store is the list of
-- tokens last written; `written` is false where writing it fails.
pub mod Validity
use kaggen.Base.{
  ℕ, zero, suc, ◌+◌, ◌-◌, ◌*◌, ◌/◌, ◌%◌, ◌≤◌, ◌<◌, ◌≡◌, refl, sym, ap, ◌∙◌, ◌≢◌, ◌↔◌, ◌⊎◌, inl, inr,
  ite, Bool, true, false, ◌&&◌, ◌||◌, not, Option, none, some, List, [], ◌∷◌, ◌++◌, map, arith,
  dec_lt, ℕ_discrete, ltb, leb, ◌==◌, if◌then◌else◌, Bool-cases, Option-cases, found, length, take,
  drop, get_elem?, select, last_n, All, length-append, length-take, length-drop, take-append-drop,
  length-select-le, select-append, select_idem, Text, codes, text_discrete, ◌is◌, starts_with, Key,
  text_key, nat_key, Map, keep_if, get, put, del, Unique, get-put, get-del, put-Unique, del-Unique,
  values_where, del_where, map_values, get-map_values, get-del_where-none, get-del_where-some,
  del_where-Unique, map_values-Unique, values_where-del_where, contains, lower_code, to_lower,
  contains-append, contains_later, contains_earlier, join, decimal, last_n-append, length-last_n,
  last_n-last_n, ends_with, trim_prefix, trim_suffix,
}

-- `expires_at` is 0 for a token that does not expire.
pub record Token : Type 0 where
  pub id : Text
  pub hashed : Text
  pub salt : Text
  pub name : Text
  pub created_at : ℕ
  pub expires_at : ℕ

pub record TokenStore : Type 0 where
  pub tokens : Map Text Token
  pub filepath : Text

pub record TokenInfo : Type 0 where
  pub id : Text
  pub name : Text
  pub created_at : ℕ
  pub expires_at : ℕ
  pub expired : Bool

unfoldable pub put_tokens : List Token → Map Text Token → Map Text Token
put_tokens [] m = m
put_tokens (t ∷ ts) m = put_tokens ts (put t.id t m)

-- The store over what its file holds.
unfoldable pub load : List Token → TokenStore → TokenStore
load file s = record s { tokens = put_tokens file s.tokens }

unfoldable pub new_token_store : Text → Option (List Token) → TokenStore
new_token_store [] file = record { tokens = []; filepath = [] }
new_token_store (c ∷ path) none = record { tokens = []; filepath = c ∷ path }
new_token_store (c ∷ path) (some file) = load file (record { tokens = []; filepath = c ∷ path })

-- What is written to the file: the tokens in map order.
unfoldable pub save : TokenStore → List Token
save s = values_where (λ t. true) s.tokens

-- What writing gives: no file, the new contents, or an error.
pub data Written : Type 0 where
  no_file : Written
  wrote : List Token → Written
  failed_write : Written

unfoldable pub persist : Bool → TokenStore → Written
persist written s = elim s.filepath [
  | [] ↦ no_file
  | _ ∷ _ ↦ if written then wrote (save s) else failed_write
]

abbrev pub is_expired : ℕ → Token → Bool
is_expired now t = not (t.expires_at == 0) && ltb t.expires_at now

unfoldable pub revoke_token : Text → Bool → TokenStore → TokenStore × Written
revoke_token id written s =
    let s' = record s { tokens = del id s.tokens } in (s', persist written s')

unfoldable pub info : ℕ → Token → TokenInfo
info now t = record {
  id = t.id;
  name = t.name;
  created_at = t.created_at;
  expires_at = t.expires_at;
  expired = is_expired now t;
}

pub list_tokens : ℕ → TokenStore → List TokenInfo
list_tokens now s = map (info now) (values_where (λ t. true) s.tokens)

unfoldable pub has_tokens : TokenStore → Bool
has_tokens s = elim s.tokens [ [] ↦ false | _ ∷ _ ↦ true ]

module _ (hash : Text → Text → Text) where
  -- The token stands in the store also where writing the file fails.
  unfoldable pub generate_token :
      Text → Text → Text → Text → ℕ → ℕ → Bool → TokenStore → TokenStore × Written
  generate_token plaintext salt id name expires_in now written s = (s', persist written s')
    where
      token : Token
      token = record {
        id = id;
        hashed = hash plaintext salt;
        salt = salt;
        name = name;
        created_at = now;
        expires_at = if expires_in == 0 then 0 else now + expires_in;
      }

      s' : TokenStore
      s' = record s { tokens = put id token s.tokens }

  abbrev pub admits : Text → ℕ → Token → Bool
  admits plaintext now t = not (is_expired now t) && hash plaintext t.salt is t.hashed

  abbrev pub any_admits : Text → ℕ → Map Text Token → Bool
  any_admits plaintext now [] = false
  any_admits plaintext now ((id, t) ∷ m) = admits plaintext now t || any_admits plaintext now m

  unfoldable pub validate_token : Text → ℕ → TokenStore → Bool
  validate_token plaintext now s = any_admits plaintext now s.tokens

-- A stream that is let in without a handshake, let in after one, or refused.
pub data Access : Type 0 where
  skipped authenticated unreadable invalid : Access

pub record StreamAuthenticator : Type 0 where
  pub token_store : Option TokenStore
  pub auth_required : Bool

module _ (hash : Text → Text → Text) where
  -- `handshake` is the token that the client sends, none where nothing can be read. That the answer can
  -- be written is assumed.
  unfoldable pub authenticate_stream : Option Text → ℕ → StreamAuthenticator → Access
  authenticate_stream handshake now a =
      if not a.auth_required then skipped else elim a.token_store [
        | none ↦ skipped
        | some s ↦ if not (has_tokens s) then skipped else elim handshake [
          | none ↦ unreadable
          | some token ↦ if validate_token hash token now s then authenticated else invalid
        ]
      ]

unfoldable pub is_auth_required : StreamAuthenticator → Bool
is_auth_required a = a.auth_required && elim a.token_store [ none ↦ false | some s ↦ has_tokens s ]

-- The allow list of peers; a peer is its id, once decoded.
pub record Gater : Type 0 where
  pub allowed_peers : Map Text Bool

abbrev allow_all : List Text → Map Text Bool → Map Text Bool
allow_all [] m = m
allow_all (p ∷ ps) m = allow_all ps (put p true m)

pub new_gater : List Text → Gater
new_gater peers = record { allowed_peers = allow_all peers [] }

unfoldable pub add_peer : Text → Gater → Gater
add_peer p g = record g { allowed_peers = put p true g.allowed_peers }

unfoldable pub remove_peer : Text → Gater → Gater
remove_peer p g = record g { allowed_peers = del p g.allowed_peers }

-- An empty list allows every peer.
unfoldable pub is_allowed : Text → Gater → Bool
is_allowed p g = elim g.allowed_peers [ [] ↦ true | _ ∷ _ ↦ found (get p g.allowed_peers) ]

unfoldable pub intercept_peer_dial : Text → Gater → Bool
intercept_peer_dial p g = is_allowed p g

unfoldable pub intercept_secured : Text → Gater → Bool
intercept_secured p g = is_allowed p g
