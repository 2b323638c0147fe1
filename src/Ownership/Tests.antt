-- ===== src/Ownership/Tests.antt =====
-- Requests of applications/api_views.py at concrete rows.
use Prim.Native.String.{◌++◌}
use push_it_server.Prelude.{◌≡◌, refl, String, false, some, [], ◌∷◌, ◌==◌}
use push_it_server.Samples.{app_one}
use push_it_server.Authentication.{
  Credentials, resolved, permission_denied, app_token_inactive, get_application_for_raw_app_token,
  get_application_for_enrolment, enrolment_by_code, find_enrolment_code,
}
use push_it_server.Ownership.{deactivate, change_app, get_app}
use push_it_server.Ownership.Doors.{deactivate_shuts}

-- in place of the digest
abbrev marked : String → String
marked s = "#" ++ s

abbrev credentials : Credentials
credentials = record { applications = app_one ∷ []; send_tokens = []; next_send_token = 1 }

abbrev shut_down : Credentials
shut_down = record credentials { applications = record app_one { is_active = false } ∷ [] }

deactivated : deactivate 1 1 credentials ≡ some shut_down
unfolding change_app get_app
deactivated = refl

refused_enrolment :
    get_application_for_enrolment marked 9 (some "apk_one") shut_down
    ≡ permission_denied app_token_inactive
unfolding get_application_for_enrolment enrolment_by_code find_enrolment_code
refused_enrolment = refl

deactivate_shuts_example :
    ((get_application_for_raw_app_token marked 9 (some "apk_one") shut_down
        ≡ resolved app_one shut_down)
      → (1 == 1) ≡ false)
    × ((get_application_for_enrolment marked 9 (some "apk_one") shut_down
          ≡ resolved app_one shut_down)
        → (1 == 1) ≡ false)
deactivate_shuts_example =
    deactivate_shuts marked 9 1 1 credentials shut_down deactivated (some "apk_one") app_one
      shut_down
