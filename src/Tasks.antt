-- ===== src/Tasks.antt =====
-- notifications/tasks.py: the periodic tasks that move notifications to a send pass, and the lock
-- that keeps two polls of the mailbox apart. `now` is the clock, read once for a run.
pub mod Sweeps
pub mod Retries
pub mod Lock
mod Tests
use push_it_server.Prelude.{
  is_empty, ℕ, ◌+◌, ◌-◌, ◌*◌, Bool, true, false, not, ◌&&◌, Option, none, some, List, [], ◌∷◌, map,
  ltb, leb, ◌==◌, if◌then◌else◌, contains, select, update_where, is_none,
}
use push_it_server.Models.{Notification, NotificationStatus, NotificationDelivery, DeliveryStatus}
use push_it_server.Store.{Store, get_notification, update_notification, enqueue}
use push_it_server.Delivery.{minute}

abbrev pub is_scheduled : NotificationStatus → Bool
is_scheduled NotificationStatus.scheduled = true
is_scheduled _ = false

abbrev pub is_processing : NotificationStatus → Bool
is_processing NotificationStatus.processing = true
is_processing _ = false

abbrev pub is_pending : DeliveryStatus → Bool
is_pending DeliveryStatus.pending = true
is_pending _ = false

-- `value is not None and value <= now`
abbrev pub reached : Option ℕ → ℕ → Bool
reached none now = false
reached (some t) now = leb t now

-- `value is not None and value < cutoff`
abbrev pub before : Option ℕ → ℕ → Bool
before none cutoff = false
before (some t) cutoff = ltb t cutoff

-- Retrying deliveries: the distinct notifications with a pending delivery whose retry has come.
pub retry_is_due : ℕ → NotificationDelivery → Bool
retry_is_due now d = is_pending d.status && reached d.next_retry_at now

unfoldable pub distinct : List ℕ → List ℕ
distinct [] = []
distinct (x ∷ xs) = let rest = distinct xs in if contains rest x then rest else x ∷ rest

unfoldable pub retry_ids : ℕ → Store → List ℕ
retry_ids now s = distinct (map (λ d. d.notification) (select (retry_is_due now) s.deliveries))

unfoldable pub enqueue_all : List ℕ → Store → Store
enqueue_all [] s = s
enqueue_all (id ∷ ids) s = enqueue_all ids (enqueue id s)

unfoldable pub retry_pending_deliveries_task : ℕ → Store → Store
retry_pending_deliveries_task now s = enqueue_all (retry_ids now s) s

-- The loop of the dispatcher and of the watchdog over the identifiers that the scan found.
unfoldable pub sweep : (ℕ → Store × ℕ → Store × ℕ) → List ℕ → Store × ℕ → Store × ℕ
sweep one [] r = r
sweep one (id ∷ ids) r = sweep one ids (one id r)

-- Dispatching scheduled notifications.
unfoldable pub is_due : ℕ → Notification → Bool
is_due now n = is_scheduled n.status && reached n.scheduled_for now

abbrev pub to_queued : Notification → Notification
to_queued n = record n { status = NotificationStatus.queued }

-- the body of the loop, with the count of what it has queued
unfoldable pub dispatch_one : ℕ → (ℕ → Bool) → ℕ → Store × ℕ → Store × ℕ
dispatch_one now locked id (s, queued_count) = elim (get_notification id s) [
  | none ↦ (s, queued_count)
  | some n ↦
      if not (locked id) && is_due now n
      then (enqueue id (update_notification id to_queued s), queued_count + 1)
      else (s, queued_count)
]

unfoldable pub dispatch_scheduled_notifications_task : ℕ → (ℕ → Bool) → Store → Store × ℕ
dispatch_scheduled_notifications_task now locked s =
    sweep (dispatch_one now locked) (map (λ n. n.id) (select (is_due now) s.notifications)) (s, 0)

-- The watchdog over stranded notifications.
abbrev pub default_processing_stuck_minutes : ℕ
default_processing_stuck_minutes = 15

unfoldable pub is_stuck : ℕ → Notification → Bool
is_stuck cutoff n = is_processing n.status && before n.processing_started_at cutoff

abbrev pub to_requeued : Notification → Notification
to_requeued n = record n { status = NotificationStatus.queued; processing_started_at = none }

-- the conditional UPDATE, whose count of rows is tested
unfoldable pub requeue_one : ℕ → ℕ → Store × ℕ → Store × ℕ
requeue_one cutoff id (s, requeued_count) =
    let matches = λ (n : Notification). (n.id == id) && is_stuck cutoff n in
    if is_empty (select matches s.notifications) then (s, requeued_count) else (
      enqueue id (record s { notifications = update_where matches to_requeued s.notifications }),
      requeued_count + 1,
    )

unfoldable pub requeue_stuck_processing_notifications_task : ℕ → ℕ → Store → Store × ℕ
requeue_stuck_processing_notifications_task stuck_minutes now s =
    let cutoff = now - stuck_minutes * minute in
    sweep (requeue_one cutoff) (map (λ n. n.id) (select (is_stuck cutoff) s.notifications)) (s, 0)
