-- ===== src/Ownership.antt =====
-- What the owner of an application does to it: applications/api_views.py, with the methods of
-- applications/models.py. What is drawn at random is an argument.
pub mod Doors
pub mod Eviction
mod Tests
use Prim.Native.String.{slice}
use push_it_server.Prelude.{
  ℕ, String, Bool, true, false, not, ◌&&◌, Option, none, some, List, ◌==◌, first, update_where,
  if◌then◌else◌,
}
use push_it_server.Models.{Application, DeviceApplicationLink, owner_eviction}
use push_it_server.Store.{Store}
use push_it_server.Authentication.{Credentials}
use push_it_server.Devices.{is_link, unlink}

-- `Application.objects.get(id=app_id, owner=user)`
unfoldable pub get_app : ℕ → ℕ → Credentials → Option Application
get_app id user c = first (λ a. (a.id == id) && (a.owner.id == user)) c.applications

-- a change of the row; `none` is the 404
unfoldable pub change_app : (Application → Application) → ℕ → ℕ → Credentials → Option Credentials
change_app f id user c = elim (get_app id user c) [
  | none ↦ none
  | some app ↦ some (record c { applications = update_where (λ a. a.id == id) f c.applications })
]

abbrev pub with_activity : Bool → Application → Application
with_activity is_active a = record a { is_active = is_active }

abbrev pub activate : ℕ → ℕ → Credentials → Option Credentials
activate = change_app (with_activity true)

abbrev pub deactivate : ℕ → ℕ → Credentials → Option Credentials
deactivate = change_app (with_activity false)

abbrev pub revoke_token : ℕ → ℕ → ℕ → Credentials → Option Credentials
revoke_token now = change_app (λ (a : Application). record a { revoked_at = some now })

abbrev pub rotate_enrolment_code : String → ℕ → ℕ → ℕ → Credentials → Option Credentials
rotate_enrolment_code code now =
    change_app (λ (a : Application). record a {
      enrolment_code = code;
      enrolment_code_rotated_at = some now;
    })

abbrev pub set_new_app_token : (String → String) → String → Application → Application
set_new_app_token sha256 raw_token a = record a {
  app_token_prefix = slice raw_token 0 12;
  app_token_hash = sha256 raw_token;
  revoked_at = none;
  last_used_at = none;
}

abbrev pub regenerate_token : (String → String) → String → ℕ → ℕ → Credentials → Option Credentials
regenerate_token sha256 raw_token = change_app (set_new_app_token sha256 raw_token)

-- Evicting a device, once the application is known to be the owner's; `none` is the 404.
unfoldable pub evict_device : ℕ → ℕ → ℕ → Store → Option Store
evict_device now application device s = elim (first (is_link device application) s.links) [
  | none ↦ none
  | some l ↦
      if l.is_active
      then some (record s {
        links = update_where (is_link device application) (unlink now owner_eviction) s.links;
      })
      else some s
]
