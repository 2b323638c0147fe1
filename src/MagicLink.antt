-- ===== src/MagicLink.antt =====
-- accounts/magic_link.py and the token of accounts/models.py: signing in by a link that works once.
-- The digest of hashlib is the parameter `sha256`; the e-mail that carries the link is left out.
pub mod Laws
mod Tests
use push_it_server.Prelude.{
  ℕ, ◌+◌, ◌*◌, String, Bool, true, false, not, ◌&&◌, Option, none, some, List, [], ◌∷◌, ltb, ◌==◌,
  str_eq, if◌then◌else◌, first, select, update_where, length, is_none,
}

pub record MagicLinkToken : Type 0 where
  pub id : ℕ
  pub user : ℕ
  pub token_hash : String
  pub created_at : ℕ
  pub expires_at : ℕ
  pub used_at : Option ℕ

-- the columns of the user that the request reads; `email` is in lower case
pub record Account : Type 0 where
  pub id : ℕ
  pub email : String
  pub is_active : Bool
  pub email_confirmed : Bool

pub record Links : Type 0 where
  pub accounts : List Account
  pub tokens : List MagicLinkToken
  pub next_token : ℕ

pub is_valid : ℕ → MagicLinkToken → Bool
is_valid now t = is_none t.used_at && ltb now t.expires_at

module _ (sha256 : String → String) where
  -- `email` is stripped and in lower case; `raw_token` is what `generate_magic_token` has drawn
  pub request_magic_link : ℕ → ℕ → String → String → Links → Links
  request_magic_link now ttl_minutes email raw_token s =
      elim (first (λ u. str_eq u.email email && u.is_active && u.email_confirmed) s.accounts) [
        | none ↦ s
        | some user ↦ record s {
          tokens =
              record {
                id = s.next_token;
                user = user.id;
                token_hash = sha256 raw_token;
                created_at = now;
                expires_at = now + ttl_minutes * 60000000;
                used_at = none;
              }
              ∷ s.tokens;
          next_token = s.next_token + 1;
        }
      ]

  pub find_link : String → List MagicLinkToken → Option MagicLinkToken
  find_link token tokens = first (λ t. str_eq t.token_hash (sha256 token)) tokens

  -- the first half of `verify_magic_link`, before the UPDATE: what the request has read
  pub read_link : ℕ → String → Links → Option MagicLinkToken
  read_link now token s = elim (find_link token s.tokens) [
    | none ↦ none
    | some t ↦ if is_valid now t then some t else none
  ]

-- the conditional UPDATE for the row that was read
pub is_consumable : ℕ → MagicLinkToken → MagicLinkToken → Bool
is_consumable now t row = (row.id == t.id) && is_none row.used_at && ltb now row.expires_at

pub consume_link : ℕ → MagicLinkToken → Links → Option ℕ × Links
consume_link now t s = (
  if length (select (is_consumable now t) s.tokens) == 1 then some t.user else none,
  record s {
    tokens =
        update_where (is_consumable now t)
          (λ (row : MagicLinkToken). record row { used_at = some now }) s.tokens;
  },
)

-- Both halves, with what other requests do in between. The two clocks are read apart.
pub verify_magic_link :
    (String → String) → ℕ → ℕ → String → (Links → Links) → Links → Option ℕ × Links
verify_magic_link sha256 read_at now token meanwhile s = elim (read_link sha256 read_at token s) [
  | none ↦ (none, meanwhile s)
  | some t ↦ consume_link now t (meanwhile s)
]
