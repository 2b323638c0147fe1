-- ===== src/Authentication/Tests.antt =====
-- applications/authentication.py at concrete inputs.
use Prim.Native.String.{◌++◌}
use push_it_server.Prelude.{
  ◌≡◌, refl, String, false, not, ◌&&◌, none, some, [], ◌∷◌, inl, inr, ◌==◌,
}
use push_it_server.Models.{AppSendToken}
use push_it_server.Samples.{app_one}
use push_it_server.Authentication.{
  Credentials, revoke, find_send_token, get_application_for_enrolment,
  get_application_for_raw_app_token,
}
use push_it_server.Authentication.Separation.{AreApart, accepts, send_and_enrol_apart}
use push_it_server.Authentication.Lifecycle.{revoke_exact}

-- in place of the digest
abbrev marked : String → String
marked s = "#" ++ s

abbrev server_token : AppSendToken
server_token = record {
  id = 1;
  application = 1;
  name = "server";
  prefix = "apt_server";
  token_hash = "#apt_server";
  last_used_at = none;
  revoked_at = none;
}

abbrev credentials : Credentials
credentials = record {
  applications = app_one ∷ [];
  send_tokens = server_token ∷ [];
  next_send_token = 2;
}

credentials_apart : AreApart credentials
credentials_apart a j (inl p) (inl q) = rw (p, q) refl
credentials_apart a j (inl p) (inr i) = elim i [ ]
credentials_apart a j (inr i) k = elim i [ ]

send_and_enrol_apart_example :
    (accepts (get_application_for_raw_app_token marked 9 (some "apt_server") credentials)
      && accepts (get_application_for_enrolment marked 10 (some "apt_server") credentials))
    ≡ false
send_and_enrol_apart_example =
    send_and_enrol_apart marked 9 10 "apt_server" credentials credentials_apart

revoke_exact_example :
    accepts
      (get_application_for_raw_app_token marked 9 (some "apt_server") (revoke 8 1 credentials))
    ≡ (accepts (get_application_for_raw_app_token marked 9 (some "apt_server") credentials)
        && not (1 == 1))
unfolding find_send_token
revoke_exact_example = revoke_exact marked 9 8 1 "apt_server" credentials server_token refl
