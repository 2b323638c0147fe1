-- ===== src/Authentication.antt =====
-- applications/authentication.py and applications/models_send_token.py: which presented text gives
-- access to which application, to send or to enrol a device. The digest of hashlib is the parameter
-- `sha256`; counters, logs and the encrypted copy of a token are left out.
pub mod Separation
pub mod Lifecycle
mod Tests
use Prim.Native.String.{slice, ◌++◌}
use push_it_server.Prelude.{
  ℕ, ◌+◌, ◌-◌, ◌*◌, String, Bool, true, false, not, ◌&&◌, Option, none, some, List, [], ◌∷◌, ltb,
  ◌==◌, str_eq, starts_with, if◌then◌else◌, first, select, update_where, is_some, length,
}
use push_it_server.Models.{Application, AppSendToken}

pub record Credentials : Type 0 where
  pub applications : List Application
  pub send_tokens : List AppSendToken
  pub next_send_token : ℕ

-- the codes of the refusals
pub data AuthCode : Type 0 where
  app_token_missing app_token_invalid app_token_invalid_format : AuthCode
  app_token_inactive app_token_revoked app_token_retired : AuthCode

-- An application, with the credentials as they are left, or the exception: NotAuthenticated and
-- AuthenticationFailed are a 401, PermissionDenied is a 403.
pub data Resolution : Type 0 where
  resolved : Application → Credentials → Resolution
  not_authenticated authentication_failed permission_denied : AuthCode → Resolution

abbrev pub touch_application : ℕ → ℕ → Credentials → Credentials
touch_application now id c = record c {
  applications =
      update_where (λ a. a.id == id) (λ (a : Application). record a { last_used_at = some now })
        c.applications;
}

abbrev pub touch_send_token : ℕ → ℕ → Credentials → Credentials
touch_send_token now id c = record c {
  send_tokens =
      update_where (λ j. j.id == id) (λ (j : AppSendToken). record j { last_used_at = some now })
        c.send_tokens;
}

unfoldable pub find_application : ℕ → Credentials → Option Application
find_application id c = first (λ a. a.id == id) c.applications

unfoldable pub find_enrolment_code : String → Credentials → Option Application
find_enrolment_code code c = first (λ a. str_eq a.enrolment_code code) c.applications

pub find_send_token : String → Credentials → Option AppSendToken
find_send_token token_hash c = first (λ j. str_eq j.token_hash token_hash) c.send_tokens

-- `not application.last_used_at or application.last_used_at < now - timedelta(minutes=5)`
pub used_long_ago : ℕ → Option ℕ → Bool
used_long_ago now none = true
used_long_ago now (some last_used_at) = ltb (last_used_at + 5 * 60000000) now

unfoldable pub legacy_checked : ℕ → Application → Credentials → Resolution
legacy_checked now application c =
    if not application.is_active
    then permission_denied app_token_inactive
    else if is_some application.revoked_at
    then permission_denied app_token_revoked
    else if used_long_ago now application.last_used_at
    then resolved (record application { last_used_at = some now })
        (touch_application now application.id c)
    else resolved application c

-- `get`, which raises for no row and for more than one
unfoldable pub legacy_got : ℕ → List Application → Credentials → Resolution
legacy_got now [] c = permission_denied app_token_invalid
legacy_got now (application ∷ []) c = legacy_checked now application c
legacy_got now (application ∷ other ∷ others) c = permission_denied app_token_invalid

module _ (sha256 : String → String) where
  unfoldable pub legacy_application : ℕ → String → Credentials → Resolution
  legacy_application now raw_token c =
      if not (starts_with raw_token "apt_")
      then permission_denied app_token_invalid_format
      else legacy_got now (select (λ a. str_eq a.app_token_hash (sha256 raw_token)) c.applications)
          c

  unfoldable pub enrolment_by_code : String → Credentials → Resolution
  enrolment_by_code raw_code c = elim (find_enrolment_code raw_code c) [
    | none ↦ permission_denied app_token_invalid
    | some application ↦
        if not application.is_active
        then permission_denied app_token_inactive
        else resolved application c
  ]

  -- `none` is a header that is not there
  unfoldable pub get_application_for_enrolment : ℕ → Option String → Credentials → Resolution
  get_application_for_enrolment now none c = permission_denied app_token_missing
  get_application_for_enrolment now (some raw_code) c =
      if str_eq raw_code ""
      then permission_denied app_token_missing
      else if starts_with raw_code "apk_"
      then enrolment_by_code raw_code c
      else legacy_application now raw_code c

  -- `jeton.application` is always there: the token's row is deleted with the application's
  unfoldable pub sending_with : ℕ → AppSendToken → Credentials → Resolution
  sending_with now jeton c =
      if is_some jeton.revoked_at
      then authentication_failed app_token_revoked
      else elim (find_application jeton.application c) [
        | none ↦ authentication_failed app_token_retired
        | some application ↦
            if not application.is_active
            then authentication_failed app_token_inactive
            else resolved application
                (touch_application now application.id (touch_send_token now jeton.id c))
      ]

  unfoldable pub get_application_for_raw_app_token : ℕ → Option String → Credentials → Resolution
  get_application_for_raw_app_token now none c = not_authenticated app_token_missing
  get_application_for_raw_app_token now (some raw_token) c =
      if str_eq raw_token ""
      then not_authenticated app_token_missing
      else if not (starts_with raw_token "apt_")
      then authentication_failed app_token_invalid_format
      else elim (find_send_token (sha256 raw_token) c) [
        | none ↦ authentication_failed app_token_retired
        | some jeton ↦ sending_with now jeton c
      ]

  -- `AppSendToken.issue`, for the 22 characters that `generate_raw` has drawn
  pub issue : ℕ → String → String → Credentials → String × Credentials
  issue application name alphabet c =
      let raw = "apt_" ++ alphabet in
      (
        raw,
        record c {
          send_tokens =
              record {
                id = c.next_send_token;
                application = application;
                name = name;
                prefix = slice raw 0 12;
                token_hash = sha256 raw;
                last_used_at = none;
                revoked_at = none;
              }
              ∷ c.send_tokens;
          next_send_token = c.next_send_token + 1;
        },
      )

-- `AppSendToken.revoke` on the row of a token
pub revoke : ℕ → ℕ → Credentials → Credentials
revoke now id c = record c {
  send_tokens =
      update_where (λ j. (j.id == id) && not (is_some j.revoked_at))
        (λ (j : AppSendToken). record j { revoked_at = some now }) c.send_tokens;
}
