-- ===== src/Authentication/Lifecycle.antt =====
-- The life of a send token of applications/models_send_token.py.
use Prim.Native.String.{slice, ◌++◌}
use text.Mathlib.TextPositions.{starts_with-append}
use push_it_server.Prelude.{
  ℕ, ◌≡◌, refl, ◌∙◌, String, Bool, true, false, not, ◌&&◌, Option, none, some, List, [], ◌∷◌, arith,
  str_eq, eq_iff, starts_with, if◌then◌else◌, first, update_where, is_some, inl, inr, Bool-cases,
  Option-cases, ◌==◌, ==_self,
}
use push_it_server.Models.{Application, AppSendToken}
use push_it_server.Authentication.{
  Credentials, find_send_token, find_application, sending_with, get_application_for_raw_app_token,
  issue, revoke,
}
use push_it_server.Authentication.Separation.{accepts, prefixed-ne_empty}

abbrev revoked_at_time : ℕ → AppSendToken → AppSendToken
revoked_at_time now j = record j { revoked_at = some now }

abbrev revoked_if : ℕ → ℕ → AppSendToken → AppSendToken
revoked_if now id j =
    if (j.id == id) && not (is_some j.revoked_at) then revoked_at_time now j else j

find_send_token-revoke :
    (now id : ℕ) (h : String) (c : Credentials) (j : AppSendToken)
    → find_send_token h c ≡ some j
    → find_send_token h (revoke now id c) ≡ some (revoked_if now id j)
unfolding find_send_token revoke
find_send_token-revoke now id h c j e = go c.send_tokens e
  where
    go :
        (js : List AppSendToken)
        → first (λ i. str_eq i.token_hash h) js ≡ some j
        → first
            (λ i. str_eq i.token_hash h)
            (update_where
              (λ i. (i.id == id) && not (is_some i.revoked_at))
              (revoked_at_time now)
              js)
          ≡ some (revoked_if now id j)
    go [] e = cc
    go (i ∷ js) e = ground (arith, go js)

sending_found :
    (sha256 : String → String) (now : ℕ) (raw : String) (c : Credentials) (j : AppSendToken)
    → find_send_token (sha256 raw) c ≡ some j
    → accepts (get_application_for_raw_app_token sha256 now (some raw) c)
      ≡ ((not (str_eq raw "") && starts_with raw "apt_") && accepts (sending_with sha256 now j c))
unfolding get_application_for_raw_app_token
sending_found sha256 now raw c j e = elim (Bool-cases (str_eq raw "")) [
  | inl b ↦ rw b refl
  | inr b ↦ elim (Bool-cases (starts_with raw "apt_")) [
    | inl p ↦ rw (b, p, e) refl
    | inr p ↦ rw (b, p) refl
  ]
]

abbrev is_open : Option Application → Bool
is_open none = false
is_open (some a) = a.is_active

sending_open :
    (sha256 : String → String) (now : ℕ) (c : Credentials) (j : AppSendToken)
    → accepts (sending_with sha256 now j c)
      ≡ (not (is_some j.revoked_at) && is_open (find_application j.application c))
unfolding sending_with
sending_open sha256 now c j = elim (Option-cases (find_application j.application c)) [
  | inl e ↦ rw e (ground arith)
  | inr (a, e) ↦ rw e (ground arith)
]

revoked_open :
    (at id : ℕ) (c : Credentials) (j : AppSendToken)
    → (not (is_some (revoked_if at id j).revoked_at)
        && is_open (find_application (revoked_if at id j).application (revoke at id c)))
      ≡ ((not (is_some j.revoked_at) && is_open (find_application j.application c))
          && not (j.id == id))
unfolding find_application revoke
revoked_open at id c j = elim (Bool-cases ((j.id == id) && not (is_some j.revoked_at))) [
  | inl e ↦ rw e (ground arith)
  | inr e ↦ rw e (ground arith)
]

-- After the token with an identifier is revoked, a text that opened sending with that token is
-- refused, and any other that opens sending with a token does so as before.
pub revoke_exact :
    (sha256 : String → String) (now at id : ℕ) (raw : String) (c : Credentials) (j : AppSendToken)
    → find_send_token (sha256 raw) c ≡ some j
    → accepts (get_application_for_raw_app_token sha256 now (some raw) (revoke at id c))
      ≡ (accepts (get_application_for_raw_app_token sha256 now (some raw) c) && not (j.id == id))
revoke_exact sha256 now at id raw c j e = ground (
  arith,
  sending_found sha256 now raw c j e,
  sending_found sha256 now raw (revoke at id c) (revoked_if at id j)
      (find_send_token-revoke at id (sha256 raw) c j e),
  sending_open sha256 now c j,
  sending_open sha256 now (revoke at id c) (revoked_if at id j),
  revoked_open at id c j,
)

apt_text :
    (alphabet : String)
    → (not (str_eq ("apt_" ++ alphabet) "") && starts_with ("apt_" ++ alphabet) "apt_") ≡ true
apt_text alphabet =
    let p = starts_with-append "apt_" alphabet in
    rw (p, prefixed-ne_empty ("apt_" ++ alphabet) "apt_" refl p) refl

module _ (sha256 : String → String) (application : ℕ) (name alphabet : String)
    (c : Credentials) where
  issued_token : AppSendToken
  issued_token = record {
    id = c.next_send_token;
    application = application;
    name = name;
    prefix = slice ("apt_" ++ alphabet) 0 12;
    token_hash = sha256 ("apt_" ++ alphabet);
    last_used_at = none;
    revoked_at = none;
  }

  issued_found :
      let (raw, issued) = issue sha256 application name alphabet c in
      find_send_token (sha256 raw) issued ≡ some issued_token
  unfolding issue find_send_token issued_token
  issued_found =
      rw ((eq_iff (sha256 ("apt_" ++ alphabet)) (sha256 ("apt_" ++ alphabet))).1 refl) refl

-- A send token that was just issued for an active application opens sending, and once it is revoked
-- it does not.
pub issue_then_revoke :
    (sha256 : String → String) (now at application : ℕ) (name alphabet : String)
    → (c : Credentials) (a : Application) → find_application application c ≡ some a
    → a.is_active ≡ true
    → let (raw, issued) = issue sha256 application name alphabet c in
      (accepts (get_application_for_raw_app_token sha256 now (some raw) issued) ≡ true)
      × (accepts (
            get_application_for_raw_app_token sha256 now
              (some raw)
              (revoke at c.next_send_token issued))
          ≡ false)
unfolding issue issued_token find_application
issue_then_revoke sha256 now at application name alphabet c a f active =
    let (raw, issued) = issue sha256 application name alphabet c in
    let token = issued_token sha256 application name alphabet c in
    let found = issued_found sha256 application name alphabet c in
    let sends =
      sending_found sha256 now raw issued token found
      ∙ rw (apt_text alphabet, sending_open sha256 now issued token, f, active) refl in
    (
      sends,
      revoke_exact sha256 now at c.next_send_token raw issued token found
          ∙ rw (sends, ==_self c.next_send_token) refl,
    )
