-- ===== src/Views.antt =====
-- The requests of notifications/api_views.py and notifications/api_views_app_token.py that change
-- something. What rest_framework checks of the fields is done; a row is read and, where the code
-- locks it or updates on a condition, changed in one step.
pub mod Bulk
pub mod Hiding
pub mod Receipts
pub mod Replays
mod Tests
use push_it_server.Prelude.{
  ℕ, ◌+◌, String, Bool, true, false, not, ◌&&◌, ◌||◌, Option, none, some, List, [], ◌∷◌, ◌==◌,
  str_eq, ltb, contains, first, select, update_where, is_empty, is_none, is_some, if◌then◌else◌,
}
use push_it_server.Models.{
  Notification, NotificationStatus, NotificationDelivery, Application, Device, User,
}
use push_it_server.Store.{Store, get_notification, save_delivery, update_notification}
use push_it_server.Tasks.{is_scheduled}
use push_it_server.Billing.{BillingSettings, user_is_paid}
use push_it_server.Creation.{
  build_notification_status, Draft, Vendor, OperationalError, CreationResult, returned,
  operational_error, NotificationCreationOutcome, create_notification_with_optional_idempotency,
}
use push_it_server.Queueing.{
  QueueEnv, QueueResult, queued, not_queued, QueueCode, notification_not_found,
  notification_queue_unavailable, try_queue_notification, queue_error_status,
}
use push_it_server.Devices.{belongs_to}

-- Sending many. A row that is found is a copy, with its application joined.
abbrev pub Found : Type 0
Found = List (Notification × Application)

pub record BulkResult : Type 0 where
  pub queued : List ℕ
  pub errors : List (ℕ × QueueCode)

abbrev pub find_copy : ℕ → Found → Option (Notification × Application)
find_copy nid found = first (λ c. c.0.id == nid) found

-- `notification.status = NotificationStatus.QUEUED` of _try_queue_notification, on the copy that the
-- view holds: after the UPDATE, and not taken back where the broker fails
abbrev pub mark_copy : ℕ → Found → Found
mark_copy nid found =
    update_where (λ c. c.0.id == nid)
      (λ c. (record c.0 { status = NotificationStatus.queued }, c.1)) found

abbrev pub marks_copy : QueueCode → Bool
marks_copy notification_queue_unavailable = true
marks_copy _ = false

-- how one identifier ends
abbrev pub bulk_settled : ℕ → QueueResult × Store → Found → BulkResult → Found × Store × BulkResult
bulk_settled nid (QueueResult.queued id, s) found b =
    (mark_copy nid found, s, record b { queued = id ∷ b.queued })
bulk_settled nid (not_queued code, s) found b = (
  if marks_copy code then mark_copy nid found else found,
  s,
  record b { errors = (nid, code) ∷ b.errors },
)

unfoldable pub bulk_one : QueueEnv → ℕ → Found × Store × BulkResult → Found × Store × BulkResult
bulk_one env nid (found, s, b) = elim (find_copy nid found) [
  | none ↦ (found, s, record b { errors = (nid, notification_not_found) ∷ b.errors })
  | some (n, application) ↦ bulk_settled nid (try_queue_notification env application n s) found b
]

unfoldable pub bulk_loop :
    QueueEnv → List ℕ → Found × Store × BulkResult → Found × Store × BulkResult
bulk_loop env [] r = r
bulk_loop env (nid ∷ ids) r = bulk_loop env ids (bulk_one env nid r)

unfoldable pub join_application : List Application → List Notification → Found
join_application applications [] = []
join_application applications (n ∷ ns) =
    let rest = join_application applications ns in
    elim (first (λ a. a.id == n.application) applications) [
      | none ↦ rest
      | some application ↦ (n, application) ∷ rest
    ]

-- `Notification.objects.visible().filter(id__in=notification_ids, **owner_filter)`
unfoldable pub find_requested : (Notification → Bool) → List ℕ → Store → Found
find_requested owner_filter ids s =
    join_application s.applications
      (select (λ n. n.is_visible && contains ids n.id && owner_filter n) s.notifications)

-- the 402, or the result
unfoldable pub bulk_send :
    (User → Bool)
    → User
    → QueueEnv
    → (Notification → Bool)
    → List ℕ
    → Store
    → Option (Store × BulkResult)
bulk_send is_paid payer env owner_filter ids s =
    if is_paid payer
    then (let (found, t, b) =
          bulk_loop env ids
            (find_requested owner_filter ids s, s, record { queued = []; errors = [] }) in
        some (t, b))
    else none

-- Hiding.
pub data HttpStatus : Type 0 where
  ok_200 created_201 accepted_202 no_content_204 bad_request_400 payment_required_402 : HttpStatus
  not_found_404 conflict_409 server_error_500 : HttpStatus

-- PENDING_STATUSES
unfoldable pub is_unfinished : NotificationStatus → Bool
is_unfinished NotificationStatus.scheduled = true
is_unfinished NotificationStatus.queued = true
is_unfinished NotificationStatus.processing = true
is_unfinished _ = false

-- the rows of `get_queryset` with the key
abbrev pub is_owned : (Notification → Bool) → ℕ → Notification → Bool
is_owned owner_filter pk n = n.is_visible && owner_filter n && (n.id == pk)

abbrev pub hide : Notification → Notification
hide n = record n { is_visible = false }

abbrev pub may_hide : (Notification → Bool) → ℕ → Notification → Bool
may_hide owner_filter pk n = is_owned owner_filter pk n && not (is_unfinished n.status)

unfoldable pub destroy : (Notification → Bool) → ℕ → Store → Store × HttpStatus
destroy owner_filter pk s =
    if not (is_empty (select (may_hide owner_filter pk) s.notifications))
    then (
      record s { notifications = update_where (may_hide owner_filter pk) hide s.notifications },
      no_content_204,
    )
    else if not (is_empty (select (is_owned owner_filter pk) s.notifications))
    then (s, conflict_409)
    else (s, not_found_404)

-- The future notifications: NotificationFutureDetailApiView. `scheduled_for__gt=timezone.now()` is
-- false of a null.
abbrev pub is_after : ℕ → Option ℕ → Bool
is_after now none = false
is_after now (some scheduled_for) = ltb now scheduled_for

abbrev pub is_future : (Notification → Bool) → ℕ → ℕ → Notification → Bool
is_future owner_filter now pk n =
    owner_filter n && is_scheduled n.status && is_after now n.scheduled_for && (n.id == pk)

-- DELETE; the deliveries go with the row
unfoldable pub delete_future : (Notification → Bool) → ℕ → ℕ → Store → Store × HttpStatus
delete_future owner_filter now pk s =
    if is_empty (select (is_future owner_filter now pk) s.notifications)
    then (s, not_found_404)
    else (
      record s {
        notifications = select (λ n. not (is_future owner_filter now pk n)) s.notifications;
        deliveries = select (λ d. not (d.notification == pk)) s.deliveries;
      },
      no_content_204,
    )

-- the validated data of a PATCH: `none` is a field that is not there
pub record Patch : Type 0 where
  pub title : Option String
  pub message : Option String
  pub scheduled_for : Option (Option ℕ)

abbrev pub patched {ℓ} : {A : Type ℓ} → Option A → A → A
patched none old = old
patched (some new) old = new

-- `build_status_from_scheduled_for`, and the fields that are set on the copy
abbrev pub patch_row : Patch → Notification → Notification
patch_row p n =
    let scheduled_for = patched p.scheduled_for n.scheduled_for in
    record n {
      title = patched p.title n.title;
      message = patched p.message n.message;
      scheduled_for = scheduled_for;
      status = build_notification_status scheduled_for;
    }

-- `instance.save(update_fields=[...])`: the columns of the copy that was read, over the row
abbrev pub save_fields : Notification → Notification → Notification
save_fields instance n = record n {
  title = instance.title;
  message = instance.message;
  scheduled_for = instance.scheduled_for;
  status = instance.status;
}

-- PATCH. `meanwhile` is what other requests and tasks commit between the reading of the row and its
-- saving; a row that is gone by then is a DatabaseError.
unfoldable pub update_future :
    (Notification → Bool) → ℕ → ℕ → Patch → (Store → Store) → Store → Store × HttpStatus
update_future owner_filter now pk p meanwhile s =
    elim (first (is_future owner_filter now pk) s.notifications) [
      | none ↦ (s, not_found_404)
      | some n ↦
          if is_none (patched p.scheduled_for n.scheduled_for)
          then (s, bad_request_400)
          else elim (get_notification pk (meanwhile s)) [
            | none ↦ (meanwhile s, server_error_500)
            | some row ↦
                (update_notification pk (save_fields (patch_row p n)) (meanwhile s), ok_200)
          ]
    ]

-- Receipts.
abbrev pub or_now {ℓ} : {A : Type ℓ} → Option A → A → Option A
or_now none now = some now
or_now (some at) now = some at

abbrev pub open_delivery : ℕ → NotificationDelivery → NotificationDelivery
open_delivery now d = record d {
  opened_at = or_now d.opened_at now;
  delivered_at = or_now d.delivered_at now;
}

-- `none` is a row that is not there, a 404
unfoldable pub opened_receipt : ℕ → ℕ → String → ℕ → Store → Option (Store × Option ℕ)
opened_receipt now user push_token pk s =
    elim (first (λ d. belongs_to user d && str_eq d.push_token push_token) s.devices) [
      | none ↦ none
      | some device ↦
          elim (first (λ d. (d.notification == pk) && (d.device == device.id)) s.deliveries) [
            | none ↦ none
            | some delivery ↦
                let opened = open_delivery now delivery in
                some (save_delivery opened s, opened.opened_at)
          ]
    ]

-- Creating and sending in one request, by token. The header and the fields have been checked, and
-- `scheduled_for` was not given.
unfoldable pub answer_created : NotificationCreationOutcome → HttpStatus
answer_created outcome =
    if outcome.conflict then conflict_409 else if outcome.created then created_201 else ok_200

-- after the creation: only what was created is queued, and the answer does not tell how that went
unfoldable pub dispatch_created :
    QueueEnv → Application → NotificationCreationOutcome → Store → Store
dispatch_created env application outcome s =
    if not outcome.conflict && outcome.created
    then (try_queue_notification env application outcome.notification s).1
    else s

unfoldable pub settle_send :
    QueueEnv → Application → Store → CreationResult → Store × Option HttpStatus
settle_send env application s (operational_error e) = (s, none)
settle_send env application s (returned outcome t) =
    (dispatch_created env application outcome t, some (answer_created outcome))

unfoldable pub send_with_app_token :
    (User → Bool)
    → QueueEnv
    → Vendor
    → (ℕ → Option OperationalError)
    → Application
    → Draft
    → Store
    → Store × Option HttpStatus
send_with_app_token is_paid env vendor trouble application d s =
    if is_paid application.owner
    then settle_send env application s
        (create_notification_with_optional_idempotency vendor trouble d s)
    else (s, some payment_required_402)
