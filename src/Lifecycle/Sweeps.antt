-- ===== src/Lifecycle/Sweeps.antt =====
-- The periodic tasks of notifications/tasks.py, and the purge of notifications/retention.py, are runs
-- of steps of the statechart.
use push_it_server.Prelude.{
  ℕ, ◌-◌, ◌*◌, ◌≡◌, refl, inl, inr, Bool, true, List, [], ◌∷◌, ◌&&◌, not, select, ◌==◌, arith,
  Bool-cases, Option-cases, is_empty, map,
}
use push_it_server.Models.{Notification}
use push_it_server.Store.{Store, get_notification, enqueue}
use push_it_server.Queueing.{may_queue}
use push_it_server.Tasks.{
  sweep, is_due, dispatch_one, to_queued, dispatch_scheduled_notifications_task, is_stuck,
  to_requeued, requeue_one, requeue_stuck_processing_notifications_task, enqueue_all,
  retry_pending_deliveries_task, retry_ids,
}
use push_it_server.Delivery.{minute}
use push_it_server.Retention.{
  RetentionSettings, purge_expired_personal_data, delete_notifications, delete_devices,
}
use push_it_server.Lifecycle.{Move, change, forget, Steps, done, IsConsistent}
use push_it_server.Lifecycle.Rules.{Steps-trans, Steps-IsConsistent}
use push_it_server.Lifecycle.Operations.{table, one, found-Step}

sweep-Steps :
    (act : ℕ → Store × ℕ → Store × ℕ)
    → ((id : ℕ) (r : Store × ℕ) → IsConsistent (table r.0) → Steps (table r.0) (table (act id r).0))
    → (ids : List ℕ) (r : Store × ℕ) → IsConsistent (table r.0)
    → Steps (table r.0) (table (sweep act ids r).0)
unfolding sweep
sweep-Steps act h [] r c = done refl refl
sweep-Steps act h (id ∷ ids) r c =
    Steps-trans (h id r c) (sweep-Steps act h ids (act id r) (Steps-IsConsistent (h id r c) c))

dispatch-Move : (now : ℕ) (n : Notification) → is_due now n ≡ true → Move n (to_queued n)
unfolding is_due may_queue
dispatch-Move now n h = record {
  same_row = refl;
  allowed = ground arith;
  sound = λ a. record { started = λ q. cc; planned = λ q. cc; stamped = λ q. cc };
}

dispatch_one-Steps :
    (now : ℕ) (locked : ℕ → Bool) (id : ℕ) (r : Store × ℕ)
    → IsConsistent (table r.0)
    → Steps (table r.0) (table (dispatch_one now locked id r).0)
unfolding dispatch_one enqueue
dispatch_one-Steps now locked id (s, k) c = elim (Option-cases (get_notification id s)) [
  | inl e ↦ rw (dispatch_one, e) (done refl refl)
  | inr (n, e) ↦ elim (Bool-cases (not (locked id) && is_due now n)) [
    | inl h ↦
        rw (dispatch_one, e, h)
          (one (found-Step id to_queued s n c e (dispatch-Move now n (ground arith))))
    | inr h ↦ rw (dispatch_one, e, h) (done refl refl)
  ]
]

pub dispatch-Steps :
    (now : ℕ) (locked : ℕ → Bool) (s : Store)
    → IsConsistent (table s)
    → Steps (table s) (table (dispatch_scheduled_notifications_task now locked s).0)
unfolding dispatch_scheduled_notifications_task
dispatch-Steps now locked s c =
    sweep-Steps (dispatch_one now locked) (dispatch_one-Steps now locked)
      (map (λ n. n.id) (select (is_due now) s.notifications)) (s, 0) c

requeue-Move : (cutoff : ℕ) (n : Notification) → is_stuck cutoff n ≡ true → Move n (to_requeued n)
unfolding is_stuck may_queue
requeue-Move cutoff n h = record {
  same_row = refl;
  allowed = ground arith;
  sound = λ a. record { started = λ q. cc; planned = λ q. cc; stamped = λ q. cc };
}

requeue_one-Steps :
    (cutoff id : ℕ) (r : Store × ℕ) → Steps (table r.0) (table (requeue_one cutoff id r).0)
unfolding requeue_one enqueue
requeue_one-Steps cutoff id (s, k) =
    let matches = λ (n : Notification). (n.id == id) && is_stuck cutoff n in
    elim (Bool-cases (is_empty (select matches s.notifications))) [
      | inl e ↦ rw e (done refl refl)
      | inr e ↦ rw e (
          one
            (change matches to_requeued (λ n i h. requeue-Move cutoff n (ground arith)) refl refl))
    ]

pub requeue-Steps :
    (stuck_minutes now : ℕ) (s : Store)
    → IsConsistent (table s)
    → Steps (table s) (table (requeue_stuck_processing_notifications_task stuck_minutes now s).0)
unfolding requeue_stuck_processing_notifications_task
requeue-Steps stuck_minutes now s c =
    let cutoff = now - stuck_minutes * minute in
    sweep-Steps (requeue_one cutoff) (λ id r h. requeue_one-Steps cutoff id r)
      (map (λ n. n.id) (select (is_stuck cutoff) s.notifications)) (s, 0) c

enqueue_all-Steps : (ids : List ℕ) (s : Store) → Steps (table s) (table (enqueue_all ids s))
unfolding enqueue_all enqueue
enqueue_all-Steps [] s = done refl refl
enqueue_all-Steps (id ∷ ids) s = enqueue_all-Steps ids (enqueue id s)

pub retry-Steps :
    (now : ℕ) (s : Store) → Steps (table s) (table (retry_pending_deliveries_task now s))
unfolding retry_pending_deliveries_task
retry-Steps now s = enqueue_all-Steps (retry_ids now s) s

pub purge-Steps :
    (settings : RetentionSettings) (now : ℕ) (s : Store)
    → Steps (table s) (table (purge_expired_personal_data settings now s).0)
unfolding purge_expired_personal_data delete_notifications delete_devices
purge-Steps settings now s = one (forget _ refl refl)
