-- ===== src/Queueing.antt =====
-- `_try_queue_notification` of notifications/api_views.py: a request to send a notification. The
-- caller holds a copy of the row, read before; the database may have moved on since.
pub mod Laws
mod Tests
use push_it_server.Prelude.{
  is_empty, ℕ, Bool, true, false, not, ◌&&◌, ◌||◌, Option, none, some, List, [], ◌∷◌, ltb, ◌==◌,
  if◌then◌else◌, select, update_where,
}
use push_it_server.Models.{Notification, NotificationStatus, Application}
use push_it_server.Store.{Store, get_notification, enqueue}

abbrev ordinal : NotificationStatus → ℕ
ordinal NotificationStatus.draft = 0
ordinal NotificationStatus.scheduled = 1
ordinal NotificationStatus.queued = 2
ordinal NotificationStatus.processing = 3
ordinal NotificationStatus.sent = 4
ordinal NotificationStatus.failed = 5
ordinal NotificationStatus.partial = 6
ordinal NotificationStatus.no_target = 7

abbrev pub same_status : NotificationStatus → NotificationStatus → Bool
same_status a b = ordinal a == ordinal b

-- ALLOWED_NOTIFICATION_STATUSES_TO_QUEUE
unfoldable pub may_queue : NotificationStatus → Bool
may_queue NotificationStatus.draft = true
may_queue NotificationStatus.failed = true
may_queue NotificationStatus.partial = true
may_queue NotificationStatus.scheduled = true
may_queue _ = false

-- what the request meets
pub record QueueEnv : Type 0 where
  pub now : ℕ
  -- the keyword arguments of the view, such as the owner of the application
  pub owner_filter : Notification → Bool
  -- the UPDATE raises OperationalError
  pub database_busy : Bool
  -- `delay` hands the task to the broker
  pub broker_up : Bool

pub data QueueCode : Type 0 where
  application_inactive notification_not_sendable : QueueCode
  notification_not_found notification_queue_unavailable : QueueCode

-- (True, ...) with the identifier, (False, ...) with the code
pub data QueueResult : Type 0 where
  queued : ℕ → QueueResult
  not_queued : QueueCode → QueueResult

pub scheduled_later : ℕ → Notification → Bool
scheduled_later now n =
    same_status n.status NotificationStatus.scheduled
    && elim n.scheduled_for [ none ↦ false | some scheduled_for ↦ ltb now scheduled_for ]

abbrev pub with_status : NotificationStatus → Notification → Notification
with_status status n = record n { status = status }

-- `qs_filter`
abbrev pub is_target : QueueEnv → Notification → Notification → Bool
is_target env n m = (m.id == n.id) && same_status m.status n.status && env.owner_filter m

unfoldable pub to_queue : QueueEnv → Notification → Store → Store
to_queue env n s = record s {
  notifications =
      update_where (is_target env n) (with_status NotificationStatus.queued) s.notifications;
}

unfoldable pub roll_back : Notification → Store → Store
roll_back n s = record s {
  notifications =
      update_where (λ m. (m.id == n.id) && same_status m.status NotificationStatus.queued)
        (with_status n.status) s.notifications;
}

-- after an UPDATE of one row
unfoldable pub submit : QueueEnv → Notification → Store → QueueResult × Store
submit env n s =
    if env.broker_up
    then (queued n.id, enqueue n.id s)
    else (not_queued notification_queue_unavailable, roll_back n s)

-- after an UPDATE of no row
unfoldable pub gone : Notification → Store → QueueResult × Store
gone n s = elim (get_notification n.id s) [
  | none ↦ (not_queued notification_not_found, s)
  | some current ↦ (not_queued notification_not_sendable, s)
]

unfoldable pub try_queue_notification :
    QueueEnv → Application → Notification → Store → QueueResult × Store
try_queue_notification env application n s =
    if not application.is_active
    then (not_queued application_inactive, s)
    else if scheduled_later env.now n || not (may_queue n.status)
    then (not_queued notification_not_sendable, s)
    else if env.database_busy
    then (not_queued notification_not_sendable, s)
    else if is_empty (select (is_target env n) s.notifications)
    then gone n s
    else submit env n (to_queue env n s)

-- `_queue_error_status`
pub queue_error_status : QueueCode → ℕ
queue_error_status notification_queue_unavailable = 503
queue_error_status application_inactive = 400
queue_error_status notification_not_sendable = 409
queue_error_status notification_not_found = 409
