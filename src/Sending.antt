-- ===== src/Sending.antt =====
-- notifications/services.py: a send pass over one notification, from its acquisition to the
-- webhook callback. `Env` is what the pass reads from outside the database: the settings, the clock,
-- the rows that another worker holds locked, and Firebase.
pub mod Counting
pub mod Completion
pub mod Refusals
pub mod Ends
mod Tests
use push_it_server.Prelude.{
  is_empty, ℕ, zero, suc, ◌+◌, String, Bool, true, false, not, ◌&&◌, ◌||◌, Option, none, some, List,
  [], ◌∷◌, map, ltb, leb, ◌==◌, if◌then◌else◌, contains, select, update_where, length,
}
use push_it_server.Models.{
  Notification, NotificationStatus, NotificationDelivery, Device, DeviceApplicationLink,
  Application, DeliveryStatus, QuietPeriod,
}
use push_it_server.Store.{
  Store, get_notification, get_application, get_device, update_notification, save_delivery,
  save_device, send_webhook_callback,
}
use push_it_server.Push.{PushSettings, FcmMessage, FcmReply, PushResult, send_push_to_device}
use push_it_server.Billing.{BillingSettings, user_is_paid}
use push_it_server.Scheduling.{Zone, get_quiet_period_end_for_application}
use push_it_server.Targets.{linked_to, deliveries_of, get_target_deliveries_for_notification}
use push_it_server.Delivery.{
  Pass, Handled, Outcome, skipped, cancelled, waiting, deferred, exhausted, delivered, failed,
  handle_delivery, is_sent, is_active_token, cancel_delivery, subscription_required,
}

pub record Env : Type 0 where
  pub now : ℕ
  pub clock : NotificationDelivery → ℕ
  pub finished : ℕ
  pub locked : ℕ → Bool
  pub zone : Zone
  pub billing : BillingSettings
  pub push_settings : PushSettings
  pub fcm : FcmMessage → FcmReply

pub record SendNotificationResult : Type 0 where
  pub notification_id : ℕ
  pub target_count : ℕ
  pub sent_count : ℕ
  pub failed_count : ℕ
  pub skipped_count : ℕ

abbrev pub nothing_sent : ℕ → SendNotificationResult
nothing_sent id = record {
  notification_id = id;
  target_count = 0;
  sent_count = 0;
  failed_count = 0;
  skipped_count = 0;
}

-- ALLOWED_NOTIFICATION_STATUSES_TO_START
unfoldable pub may_start : NotificationStatus → Bool
may_start NotificationStatus.draft = true
may_start NotificationStatus.queued = true
may_start NotificationStatus.failed = true
may_start NotificationStatus.partial = true
may_start _ = false

-- the row that `_acquire_notification_for_processing` returns and saves
abbrev pub start_processing : ℕ → Notification → Notification
start_processing now n = record n {
  status = NotificationStatus.processing;
  processing_started_at = some now;
}

abbrev pub acquire_row : Env → ℕ → Notification → Store → Option (Notification × Store)
acquire_row env id n s =
    if env.locked id
    then none
    else if may_start n.status
    then some (start_processing env.now n, update_notification id (start_processing env.now) s)
    else none

unfoldable pub acquire_notification_for_processing : Env → ℕ → Store → Option (Notification × Store)
acquire_notification_for_processing env id s = elim (get_notification id s) [
  | none ↦ none
  | some n ↦ acquire_row env id n s
]

-- the five counters of `send_notification`
pub record Counts : Type 0 where
  pub sent : ℕ
  pub failed : ℕ
  pub skipped : ℕ
  pub deferred : ℕ
  pub waiting : ℕ

abbrev pub no_counts : Counts
no_counts = record { sent = 0; failed = 0; skipped = 0; deferred = 0; waiting = 0 }

pub add_outcome : Outcome → Counts → Counts
add_outcome Outcome.skipped c = record c { skipped = c.skipped + 1 }
add_outcome Outcome.cancelled c = record c { failed = c.failed + 1 }
add_outcome Outcome.waiting c = record c { waiting = c.waiting + 1 }
add_outcome Outcome.deferred c = record c { deferred = c.deferred + 1 }
add_outcome Outcome.exhausted c = record c { failed = c.failed + 1 }
add_outcome Outcome.delivered c = record c { sent = c.sent + 1 }
add_outcome Outcome.failed c = record c { failed = c.failed + 1 }

-- what the handling of one delivery leaves in the database
pub save_handled : Handled → Store → Store
save_handled h s =
    let saved = save_device h.device (save_delivery h.delivery s) in
    record saved { pushes = if h.called then h.delivery.id ∷ s.pushes else s.pushes }

pub send_loop : Pass → List (NotificationDelivery × Device) → Store → Counts → Store × Counts
send_loop pass [] s c = (s, c)
send_loop pass ((d, device) ∷ targets) s c =
    let h = handle_delivery pass d device in
    send_loop pass targets (save_handled h s) (add_outcome h.outcome c)

pub final_status : Counts → NotificationStatus
final_status c =
    if ltb 0 c.deferred || ltb 0 c.waiting
    then NotificationStatus.partial
    else if (c.failed == 0) && ltb 0 (c.sent + c.skipped)
    then NotificationStatus.sent
    else if ((c.sent + c.skipped) == 0) && ltb 0 c.failed
    then NotificationStatus.failed
    else NotificationStatus.partial

-- the last update of every way through `send_notification` but the deferral
abbrev pub finish_processing : NotificationStatus → Option ℕ → Notification → Notification
finish_processing status sent_at n = record n {
  status = status;
  sent_at = sent_at;
  processing_started_at = none;
}

abbrev pub defer_processing : ℕ → Notification → Notification
defer_processing quiet_period_end n = record n {
  status = NotificationStatus.scheduled;
  scheduled_for = some quiet_period_end;
  sent_at = none;
  processing_started_at = none;
}

-- `sent_at_value`
abbrev pub stamp : NotificationStatus → ℕ → Option ℕ
stamp NotificationStatus.sent now = some now
stamp _ now = none

pub cancel_unsent : ℕ → ℕ → List NotificationDelivery → List NotificationDelivery
cancel_unsent id now ds =
    update_where (λ d. (d.notification == id) && not (is_sent d.status))
      (λ d. cancel_delivery d subscription_required now) ds

pub fail_for_lapsed_subscription :
    Env → Application → Notification → Store → Store × SendNotificationResult
fail_for_lapsed_subscription env application n s =
    let pending = length (select (λ d. not (is_sent d.status)) (deliveries_of n.id s)) in
    let cancelled_store = record s { deliveries = cancel_unsent n.id env.now s.deliveries } in
    (
      send_webhook_callback application n.id NotificationStatus.failed none (
          update_notification n.id (finish_processing NotificationStatus.failed none)
            cancelled_store),
      record {
        notification_id = n.id;
        target_count = pending;
        sent_count = 0;
        failed_count = pending;
        skipped_count = 0;
      },
    )

abbrev pub pass_of : Env → Application → Notification → List NotificationDelivery → Store → Pass
pass_of env application n deliveries s = record {
  application = application;
  linked_device_ids =
      select (contains (map (λ d. d.device) deliveries)) (linked_to application.id s);
  zone = env.zone;
  device_quiet_periods = s.device_quiet_periods;
  push = λ device.
      send_push_to_device env.fcm env.push_settings device.push_token n.title n.message
        (some device.platform) false;
  clock = env.clock;
}

abbrev pub deliveries_in : List (NotificationDelivery × Device) → List NotificationDelivery
deliveries_in targets = map (λ t. t.0) targets

-- the loop over the targets, and what follows it
pub deliver :
    Env
    → Application
    → Notification
    → List (NotificationDelivery × Device)
    → Store
    → Store × SendNotificationResult
deliver env application n targets s =
    let (sent_store, counts) =
      send_loop (pass_of env application n (deliveries_in targets) s) targets s no_counts in
    let status = final_status counts in
    let sent_at_value = stamp status env.finished in
    (
      send_webhook_callback application n.id status sent_at_value
          (update_notification n.id (finish_processing status sent_at_value) sent_store),
      record {
        notification_id = n.id;
        target_count = length targets;
        sent_count = counts.sent;
        failed_count = counts.failed;
        skipped_count = counts.skipped;
      },
    )

no_target : Application → Notification → Store → Store × SendNotificationResult
no_target application n s = (
  send_webhook_callback application n.id NotificationStatus.no_target none
      (update_notification n.id (finish_processing NotificationStatus.no_target none) s),
  nothing_sent n.id,
)

pub deliver_or_no_target :
    Env
    → Application
    → Notification
    → List (NotificationDelivery × Device)
    → Store
    → Store × SendNotificationResult
deliver_or_no_target env application n [] s = no_target application n s
deliver_or_no_target env application n (t ∷ ts) s = deliver env application n (t ∷ ts) s

-- `send_notification` once the row is acquired and its application known
pub send_acquired : Env → Application → Notification → Store → Store × SendNotificationResult
send_acquired env application n s =
    if not (user_is_paid env.billing application.owner env.now)
    then fail_for_lapsed_subscription env application n s
    else elim (get_quiet_period_end_for_application env.zone s.application_quiet_periods
        application.id env.now) [
          | some quiet_period_end ↦
              (update_notification n.id (defer_processing quiet_period_end) s, nothing_sent n.id)
          | none ↦
              let (targets, prepared) = get_target_deliveries_for_notification n s in
              deliver_or_no_target env application n targets prepared
        ]

-- A notification has an application, by its foreign key; without one the pass stops.
pub send_with_application : Env → Notification → Store → Store × SendNotificationResult
send_with_application env n s = elim (get_application n.application s) [
  | none ↦ (s, nothing_sent n.id)
  | some application ↦ send_acquired env application n s
]

unfoldable pub send_notification : Env → ℕ → Store → Store × SendNotificationResult
send_notification env id s = elim (acquire_notification_for_processing env id s) [
  | none ↦ (s, nothing_sent id)
  | some (n, acquired) ↦ send_with_application env n acquired
]
