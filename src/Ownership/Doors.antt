-- ===== src/Ownership/Doors.antt =====
-- A deactivated application is shut: applications/api_views.py against applications/authentication.py.
use push_it_server.Prelude.{
  ℕ, ◌≡◌, refl, subst, inl, inr, String, Bool, true, false, Option, none, some, List, [], ◌∷◌, ◌==◌,
  str_eq, first, select, update_where, All, arith, Bool-cases, Option-cases,
}
use push_it_server.Models.{Application, AppSendToken}
use push_it_server.Authentication.{
  Credentials, Resolution, resolved, get_application_for_raw_app_token,
  get_application_for_enrolment, sending_with, legacy_application, enrolment_by_code, legacy_got,
  legacy_checked, find_application, find_enrolment_code, find_send_token,
}
use push_it_server.Ownership.{get_app, change_app, deactivate, with_activity}

-- the rows with the key are inactive
abbrev AreShut : ℕ → List Application → Type 0
AreShut id apps = All (λ (a : Application). (a.id == id) ≡ true → a.is_active ≡ false) apps

shut :
    (id : ℕ) (apps : List Application)
    → AreShut id (update_where (λ a. a.id == id) (with_activity false) apps)
shut id [] = tt
shut id (a ∷ apps) = elim (Bool-cases (a.id == id)) [
  | inl e ↦ rw e ((λ h. refl), shut id apps)
  | inr e ↦ rw e ((λ h. absurd (ground arith)), shut id apps)
]

AreShut-first :
    (id : ℕ) (p : Application → Bool) (apps : List Application) (a : Application)
    → AreShut id apps
    → first p apps ≡ some a
    → (a.id == id) ≡ true
    → a.is_active ≡ false
AreShut-first id p [] a k h e = absurd (ground arith)
AreShut-first id p (b ∷ apps) a k h e = elim (Bool-cases (p b)) [
  | inl q ↦
      let same : b ≡ a = ground arith in
      subst (λ (x : Application). (x.id == id) ≡ true → x.is_active ≡ false) same k.0 e
  | inr q ↦ AreShut-first id p apps a k.1 (ground arith) e
]

AreShut-select :
    (id : ℕ) (p : Application → Bool) (apps : List Application)
    → AreShut id apps
    → AreShut id (select p apps)
AreShut-select id p [] k = tt
AreShut-select id p (b ∷ apps) k = elim (Bool-cases (p b)) [
  | inl q ↦ rw q (k.0, AreShut-select id p apps k.1)
  | inr q ↦ rw q (AreShut-select id p apps k.1)
]

module _ (sha256 : String → String) (now id : ℕ) (c : Credentials)
    (k : AreShut id c.applications) where
  -- what a resolution would have to give
  abbrev Opens : Resolution → Type 0
  Opens r = (a : Application) → (t : Credentials) → r ≡ resolved a t → (a.id == id) ≡ false

  sending-Opens : (jeton : AppSendToken) → Opens (sending_with sha256 now jeton c)
  unfolding sending_with find_application
  sending-Opens jeton a t h = elim (Option-cases (find_application jeton.application c)) [
    | inl e ↦ absurd (ground arith)
    | inr (b, e) ↦
        ground (arith, AreShut-first id (λ x. x.id == jeton.application) c.applications b k e)
  ]

  raw-Opens : (raw : Option String) → Opens (get_application_for_raw_app_token sha256 now raw c)
  unfolding get_application_for_raw_app_token
  raw-Opens none a t h = absurd (ground arith)
  raw-Opens (some raw) a t h = elim (Option-cases (find_send_token (sha256 raw) c)) [
    | inl e ↦ absurd (ground arith)
    | inr (jeton, e) ↦ sending-Opens jeton a t (ground arith)
  ]

  got-Opens : (apps : List Application) → AreShut id apps → Opens (legacy_got now apps c)
  unfolding legacy_got legacy_checked
  got-Opens [] q a t h = absurd (ground arith)
  got-Opens (b ∷ []) q a t h = ground (arith, q.0)
  got-Opens (b ∷ d ∷ apps) q a t h = absurd (ground arith)

  code-Opens : (code : String) → Opens (enrolment_by_code sha256 code c)
  unfolding enrolment_by_code find_enrolment_code
  code-Opens code a t h = elim (Option-cases (find_enrolment_code code c)) [
    | inl e ↦ absurd (ground arith)
    | inr (b, e) ↦
        ground (arith, AreShut-first id (λ x. str_eq x.enrolment_code code) c.applications b k e)
  ]

  enrolment-Opens : (raw : Option String) → Opens (get_application_for_enrolment sha256 now raw c)
  unfolding get_application_for_enrolment legacy_application
  enrolment-Opens none a t h = absurd (ground arith)
  enrolment-Opens (some raw) a t h =
      let p = λ (x : Application). str_eq x.app_token_hash (sha256 raw) in
      ground (
        arith,
        code-Opens raw a t,
        got-Opens (select p c.applications) (AreShut-select id p c.applications k) a t,
      )

-- Once its owner has deactivated an application, no text opens sending for it and no text enrols a
-- device for it, whenever it is presented, until the application is activated again.
pub deactivate_shuts :
    (sha256 : String → String) (now id user : ℕ) (c t : Credentials)
    → deactivate id user c ≡ some t
    → (raw : Option String) (a : Application) (u : Credentials)
    → ((get_application_for_raw_app_token sha256 now raw t ≡ resolved a u) → (a.id == id) ≡ false)
      × ((get_application_for_enrolment sha256 now raw t ≡ resolved a u) → (a.id == id) ≡ false)
unfolding change_app
deactivate_shuts sha256 now id user c t h raw a u = elim (Option-cases (get_app id user c)) [
  | inl e ↦ absurd (ground arith)
  | inr (app, e) ↦
      let same : record c {
        applications =
            update_where (λ (b : Application). b.id == id) (with_activity false) c.applications;
      }
          ≡ t =
        ground arith in
      let k =
        subst (λ (x : Credentials). AreShut id x.applications) same (shut id c.applications) in
      (raw-Opens sha256 now id t k raw a u, enrolment-Opens sha256 now id t k raw a u)
]
