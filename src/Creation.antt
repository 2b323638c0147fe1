-- ===== src/Creation.antt =====
-- notifications/creation.py: creating a notification at most once for an idempotency key. Which
-- attempts meet a busy database is the parameter `trouble`, by the number of the attempt.
pub mod Laws
mod Tests
use push_it_server.Prelude.{
  ℕ, zero, suc, ◌+◌, String, Bool, true, false, not, ◌&&◌, Option, none, some, List, [], ◌∷◌, ◌==◌,
  str_eq, if◌then◌else◌, first, is_some,
}
use push_it_server.Models.{Notification, NotificationStatus}
use push_it_server.Store.{Store}

-- `connection.vendor == "sqlite"`, and any other
pub data Vendor : Type 0 where
  sqlite postgresql : Vendor

-- an OperationalError, by whether its text says "locked"
pub data OperationalError : Type 0 where
  database_locked other_operational : OperationalError

-- the arguments of the call
pub record Draft : Type 0 where
  pub application : ℕ
  pub title : String
  pub message : String
  pub scheduled_for : Option ℕ
  pub idempotency_key : String
  pub request_fingerprint : String
  pub created_at : ℕ

pub record NotificationCreationOutcome : Type 0 where
  pub notification : Notification
  pub created : Bool
  pub conflict : Bool

pub data CreationResult : Type 0 where
  returned : NotificationCreationOutcome → Store → CreationResult
  operational_error : OperationalError → CreationResult

unfoldable pub build_notification_status : Option ℕ → NotificationStatus
build_notification_status none = NotificationStatus.draft
build_notification_status (some scheduled_for) = NotificationStatus.scheduled

abbrev pub new_notification : ℕ → Draft → Notification
new_notification id d = record {
  id = id;
  application = d.application;
  title = d.title;
  message = d.message;
  image = none;
  status = build_notification_status d.scheduled_for;
  created_at = d.created_at;
  scheduled_for = d.scheduled_for;
  sent_at = none;
  processing_started_at = none;
  idempotency_key = d.idempotency_key;
  request_fingerprint = d.request_fingerprint;
  is_visible = true;
}

abbrev pub has_key : ℕ → String → Notification → Bool
has_key application key n = (n.application == application) && str_eq n.idempotency_key key

-- `get(application=..., idempotency_key=...)`
unfoldable pub find_key : ℕ → String → List Notification → Option Notification
find_key application key ns = first (has_key application key) ns

abbrev pub insert : Draft → Store → Store
insert d s = record s {
  notifications = new_notification s.next_notification d ∷ s.notifications;
  next_notification = s.next_notification + 1;
}

abbrev pub was_created : Draft → Store → CreationResult
was_created d s =
    returned
      (record {
        notification = new_notification s.next_notification d;
        created = true;
        conflict = false;
      })
      (insert d s)

-- the outcome for a row that was there
abbrev pub was_found : Draft → Notification → Store → CreationResult
was_found d n s =
    returned
      (record {
        notification = n;
        created = false;
        conflict = not (str_eq n.request_fingerprint d.request_fingerprint);
      })
      s

-- `get_or_create` with the key
unfoldable pub get_or_create : Draft → Store → CreationResult
get_or_create d s = elim (find_key d.application d.idempotency_key s.notifications) [
  | none ↦ was_created d s
  | some n ↦ was_found d n s
]

-- the loop of the SQLite path: `left` attempts follow this one, the attempt number 2 the last
unfoldable pub sqlite_attempts :
    (ℕ → Option OperationalError) → ℕ → ℕ → Draft → Store → CreationResult
sqlite_attempts trouble zero attempt d s = elim (trouble attempt) [
  | none ↦ get_or_create d s
  | some e ↦ operational_error e
]
sqlite_attempts trouble (suc left) attempt d s = elim (trouble attempt) [
  | none ↦ get_or_create d s
  | some e ↦ elim e [
    | database_locked ↦ sqlite_attempts trouble left (attempt + 1) d s
    | other_operational ↦ operational_error other_operational
  ]
]

-- What follows the loop. A `create` that breaks the unique constraint raises IntegrityError, and
-- the row that is there is read; on this path an OperationalError goes to the caller.
unfoldable pub create_or_get : (ℕ → Option OperationalError) → Draft → Store → CreationResult
create_or_get trouble d s = elim (trouble zero) [
  | some e ↦ operational_error e
  | none ↦ elim (find_key d.application d.idempotency_key s.notifications) [
    | none ↦ was_created d s
    | some n ↦ was_found d n s
  ]
]

unfoldable pub by_vendor : Vendor → (ℕ → Option OperationalError) → Draft → Store → CreationResult
by_vendor sqlite trouble d s = sqlite_attempts trouble 2 0 d s
by_vendor postgresql trouble d s = create_or_get trouble d s

unfoldable pub create_notification_with_optional_idempotency :
    Vendor → (ℕ → Option OperationalError) → Draft → Store → CreationResult
create_notification_with_optional_idempotency vendor trouble d s =
    if str_eq d.idempotency_key ""
    then elim (trouble zero) [ none ↦ was_created d s | some e ↦ operational_error e ]
    else by_vendor vendor trouble d s
