-- ===== src/Creation/Laws.antt =====
-- The idempotency key of notifications/creation.py.
use push_it_server.Prelude.{
  ℕ, zero, suc, ◌+◌, ◌≡◌, refl, ap, ◌∙◌, ◌||◌, is_none, ◌⊎◌, inl, inr, Bool, true, false, not,
  Option, none, some, arith, str_eq, eq_iff, Option-cases, Bool-cases, ==_self,
}
use push_it_server.Store.{Store}
use push_it_server.Creation.{
  Vendor, sqlite, postgresql, OperationalError, database_locked, other_operational, Draft,
  NotificationCreationOutcome, returned, operational_error, new_notification, find_key, insert,
  get_or_create, sqlite_attempts, create_or_get, by_vendor,
  create_notification_with_optional_idempotency,
}

-- What the call does on either path, where the database lets it through.
attempts_settle :
    (trouble : ℕ → Option OperationalError) (left attempt : ℕ) (d : Draft) (s : Store)
    → (sqlite_attempts trouble left attempt d s ≡ get_or_create d s)
      ⊎ ((e : OperationalError) × (sqlite_attempts trouble left attempt d s ≡ operational_error e))
unfolding sqlite_attempts
attempts_settle trouble zero attempt d s = elim (Option-cases (trouble attempt)) [
  | inl h ↦ inl (ground arith)
  | inr (e, h) ↦ inr (e, ground arith)
]
attempts_settle trouble (suc left) attempt d s = elim (Option-cases (trouble attempt)) [
  | inl h ↦ inl (ground arith)
  | inr (database_locked, h) ↦ elim (attempts_settle trouble left (attempt + 1) d s) [
    | inl p ↦ inl (ground arith)
    | inr (e, p) ↦ inr (e, ground arith)
  ]
  | inr (other_operational, h) ↦ inr (other_operational, ground arith)
]

by_vendor-settle :
    (vendor : Vendor) (trouble : ℕ → Option OperationalError) (d : Draft) (s : Store)
    → (by_vendor vendor trouble d s ≡ get_or_create d s)
      ⊎ ((e : OperationalError) × (by_vendor vendor trouble d s ≡ operational_error e))
unfolding by_vendor create_or_get get_or_create
by_vendor-settle sqlite trouble d s = attempts_settle trouble 2 0 d s
by_vendor-settle postgresql trouble d s = elim (Option-cases (trouble zero)) [
  | inl h ↦ inl (ground arith)
  | inr (e, h) ↦ inr (e, ground arith)
]

returned-settles :
    (vendor : Vendor) (trouble : ℕ → Option OperationalError) (d : Draft) (s t : Store)
    → (outcome : NotificationCreationOutcome) → str_eq d.idempotency_key "" ≡ false
    → create_notification_with_optional_idempotency vendor trouble d s ≡ returned outcome t
    → get_or_create d s ≡ returned outcome t
unfolding create_notification_with_optional_idempotency
returned-settles vendor trouble d s t outcome k h = elim (by_vendor-settle vendor trouble d s) [
  | inl p ↦ ground arith
  | inr (x, p) ↦ ground arith
]

quiet-settles :
    (vendor : Vendor) (trouble : ℕ → Option OperationalError) (d : Draft) (s : Store)
    → str_eq d.idempotency_key "" ≡ false
    → trouble 0 ≡ none
    → create_notification_with_optional_idempotency vendor trouble d s ≡ get_or_create d s
unfolding create_notification_with_optional_idempotency by_vendor sqlite_attempts create_or_get
    get_or_create
quiet-settles sqlite trouble d s k h = ground arith
quiet-settles postgresql trouble d s k h = ground arith

found_again :
    (d again : Draft) (s t : Store) (outcome : NotificationCreationOutcome)
    → get_or_create d s ≡ returned outcome t
    → again.application ≡ d.application
    → again.idempotency_key ≡ d.idempotency_key
    → find_key again.application again.idempotency_key t.notifications ≡ some outcome.notification
unfolding get_or_create find_key
found_again d again s t outcome h a k =
    elim (Option-cases (find_key d.application d.idempotency_key s.notifications)) [
      | inl e ↦ ground (arith, ==_self d.application, eq_iff d.idempotency_key d.idempotency_key)
      | inr (n, e) ↦ ground arith
    ]

-- Once a call with a key has returned, any later call for the application with that key, while the
-- database lets it through, creates nothing and changes nothing. It returns the notification of the
-- first call, and reports a conflict exactly when its fingerprint is not that notification's.
pub create_notification_with_optional_idempotency_replay :
    (vendor : Vendor) (trouble later : ℕ → Option OperationalError) (d again : Draft) (s t : Store)
    → (outcome : NotificationCreationOutcome) → str_eq d.idempotency_key "" ≡ false
    → create_notification_with_optional_idempotency vendor trouble d s ≡ returned outcome t
    → again.application ≡ d.application
    → again.idempotency_key ≡ d.idempotency_key
    → later 0 ≡ none
    → create_notification_with_optional_idempotency vendor later again t
      ≡ returned
          (record {
            notification = outcome.notification;
            created = false;
            conflict =
                not (str_eq outcome.notification.request_fingerprint again.request_fingerprint);
          })
          t
unfolding get_or_create
create_notification_with_optional_idempotency_replay vendor trouble later d again s t outcome u h a
      k l =
    let settled = returned-settles vendor trouble d s t outcome u h in
    let found = found_again d again s t outcome settled a k in
    quiet-settles vendor later again t (ap (λ key. str_eq key "") k ∙ u) l
    ∙ rw (found, get_or_create) refl

-- the key is left out, or no notification of the application has it
abbrev pub is_free : Draft → Store → Bool
is_free d s =
    str_eq d.idempotency_key ""
    || is_none (find_key d.application d.idempotency_key s.notifications)

-- A call that returns gave no key, or one that no notification of its application has, and has
-- created a notification with the fields that were asked for, without a conflict; or there was one,
-- it returns that one, and changes nothing.
pub create_notification_with_optional_idempotency_created :
    (vendor : Vendor) (trouble : ℕ → Option OperationalError) (d : Draft) (s t : Store)
    → (outcome : NotificationCreationOutcome)
    → create_notification_with_optional_idempotency vendor trouble d s ≡ returned outcome t
    → ((is_free d s ≡ true)
        × (outcome.created ≡ true)
        × (outcome.conflict ≡ false)
        × (outcome.notification ≡ new_notification s.next_notification d)
        × (t ≡ insert d s))
      ⊎ ((is_free d s ≡ false)
          × (outcome.created ≡ false)
          × (find_key d.application d.idempotency_key s.notifications ≡ some outcome.notification)
          × (t ≡ s))
unfolding create_notification_with_optional_idempotency get_or_create
create_notification_with_optional_idempotency_created vendor trouble d s t outcome h =
    elim (Bool-cases (str_eq d.idempotency_key "")) [
      | inl e ↦ elim (Option-cases (trouble 0)) [
        | inl l ↦ inl (ground arith)
        | inr (x, l) ↦ absurd (ground arith)
      ]
      | inr e ↦
          let settled = returned-settles vendor trouble d s t outcome e h in
          elim (Option-cases (find_key d.application d.idempotency_key s.notifications)) [
            | inl f ↦ inl (ground arith)
            | inr (n, f) ↦ inr (ground arith)
          ]
    ]
