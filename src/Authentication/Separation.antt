-- ===== src/Authentication/Separation.antt =====
-- Sending and enrolling in applications/authentication.py: no text opens both.
use Prim.Native.String.{slice}
use push_it_server.Prelude.{
  ℕ, ◌≡◌, refl, sym, ap, subst, ◌∙◌, String, Bool, true, false, ◌&&◌, some, List, [], ◌∷◌, arith,
  str_eq, eq_iff, starts_with, first, select, In, inl, inr, Bool-cases, Option-cases,
}
use push_it_server.Models.{Application, AppSendToken}
use push_it_server.Authentication.{
  Credentials, Resolution, resolved, not_authenticated, authentication_failed, permission_denied,
  app_token_invalid_format, find_send_token, legacy_got, legacy_application,
  get_application_for_enrolment, get_application_for_raw_app_token,
}

abbrev pub accepts : Resolution → Bool
accepts (resolved application c) = true
accepts (not_authenticated code) = false
accepts (authentication_failed code) = false
accepts (permission_denied code) = false

-- No send token has the digest of an application's historical token.
abbrev pub AreApart : Credentials → Type 0
AreApart c =
    (a : Application) (j : AppSendToken)
    → In a c.applications
    → In j c.send_tokens
    → str_eq a.app_token_hash j.token_hash ≡ false

-- A text has one prefix only.
apk-not_apt : (s : String) → starts_with s "apk_" ≡ true → starts_with s "apt_" ≡ false
apk-not_apt s h = ap (λ v. str_eq v "apt_") ((eq_iff (slice s 0 4) "apk_").0 h)

-- A text with a prefix that the empty text has not is not empty.
pub prefixed-ne_empty :
    (s t : String) → starts_with "" t ≡ false → starts_with s t ≡ true → str_eq s "" ≡ false
prefixed-ne_empty s t u h = elim (Bool-cases (str_eq s "")) [
  | inl e ↦ cc (u, subst (λ v. starts_with v t ≡ true) ((eq_iff s "").0 e) h)
  | inr e ↦ e
]

-- No code of an application, which begins with "apk_", ever opens sending: it is refused as
-- malformed, whatever the credentials.
pub enrolment_code_never_sends :
    (sha256 : String → String) (now : ℕ) (raw : String) (c : Credentials)
    → starts_with raw "apk_" ≡ true
    → get_application_for_raw_app_token sha256 now (some raw) c
      ≡ authentication_failed app_token_invalid_format
unfolding get_application_for_raw_app_token
enrolment_code_never_sends sha256 now raw c h =
    rw (prefixed-ne_empty raw "apk_" refl h, apk-not_apt raw h) refl

find_send_token-In :
    (h : String) (js : List AppSendToken) (j : AppSendToken)
    → first (λ i. str_eq i.token_hash h) js ≡ some j
    → In j js × (j.token_hash ≡ h)
find_send_token-In h [] j e = cc
find_send_token-In h (i ∷ js) j e = elim (Bool-cases (str_eq i.token_hash h)) [
  | inl b ↦ (inl (ground arith), ground (arith, eq_iff i.token_hash h))
  | inr b ↦ let (m, q) = find_send_token-In h js j (ground arith) in (inr m, q)
]

none_has :
    (h : String) (applications : List Application)
    → ((a : Application) → In a applications → str_eq a.app_token_hash h ≡ false)
    → select (λ a. str_eq a.app_token_hash h) applications ≡ []
none_has h [] f = refl
none_has h (a ∷ applications) f = rw (f a (inl refl)) (none_has h applications (λ b i. f b (inr i)))

sending-prefix :
    (sha256 : String → String) (now : ℕ) (raw : String) (c : Credentials)
    → accepts (get_application_for_raw_app_token sha256 now (some raw) c) ≡ true
    → (starts_with raw "apt_" ≡ true)
      × ((j : AppSendToken) × (find_send_token (sha256 raw) c ≡ some j))
unfolding get_application_for_raw_app_token
sending-prefix sha256 now raw c h = elim (Option-cases (find_send_token (sha256 raw) c)) [
  | inl e ↦ ground arith
  | inr (j, e) ↦ (ground arith, (j, e))
]

-- Where no send token has the digest of a historical token, no text both opens sending and enrols a
-- device, whenever the two are asked.
pub send_and_enrol_apart :
    (sha256 : String → String) (now later : ℕ) (raw : String) (c : Credentials)
    → AreApart c
    → (accepts (get_application_for_raw_app_token sha256 now (some raw) c)
        && accepts (get_application_for_enrolment sha256 later (some raw) c))
      ≡ false
unfolding find_send_token get_application_for_enrolment legacy_application legacy_got
send_and_enrol_apart sha256 now later raw c apart =
    elim (Bool-cases (accepts (get_application_for_raw_app_token sha256 now (some raw) c))) [
      | inr e ↦ rw e refl
      | inl e ↦
          let (apt, (j, found)) = sending-prefix sha256 now raw c e in
          let (there, hash) = find_send_token-In (sha256 raw) c.send_tokens j found in
          let nobody =
            none_has (sha256 raw) c.applications
              (λ a i. ap (str_eq a.app_token_hash) (sym hash) ∙ apart a j i there) in
          ground (arith, nobody, apk-not_apt raw)
    ]
