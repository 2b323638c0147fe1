-- ===== src/Tasks/Sweeps.antt =====
-- What the dispatcher and the watchdog of notifications/tasks.py do to every notification.
use push_it_server.Prelude.{
  ℕ, ◌+◌, ◌-◌, ◌*◌, ◌≡◌, refl, Bool, ◌&&◌, Option, none, some, List, [], ◌∷◌, map, arith, ◌==◌,
  if◌then◌else◌, select, length,
}
use push_it_server.Models.{Notification}
use push_it_server.Store.{Store, update_notification, enqueue}
use push_it_server.Delivery.{minute}
use push_it_server.Tasks.{
  is_due, dispatch_one, sweep, dispatch_scheduled_notifications_task, is_stuck, requeue_one,
  requeue_stuck_processing_notifications_task,
}

-- A row that is ready is changed, and any other is left.
abbrev pub promote :
    (Notification → Bool)
    → (Notification → Notification)
    → Option Notification
    → Option Notification
promote ready change none = none
promote ready change (some n) = if ready n then some (change n) else some n

-- The identifiers of the ready rows, in the scan.
ready_ids : (Notification → Bool) → List Notification → List ℕ
ready_ids ready ns = map (λ n. n.id) (select ready ns)

module _ (cutoff id j : ℕ) where
  matching : Notification → Bool
  matching n = (n.id == id) && is_stuck cutoff n

module _ (one : ℕ → Store × ℕ → Store × ℕ)
    (counts : (id : ℕ) (r : Store × ℕ)
      → length (one id r).0.tasks + r.1 ≡ length r.0.tasks + (one id r).1) where
  sweep_tasks :
      (ids : List ℕ) (r : Store × ℕ)
      → length (sweep one ids r).0.tasks + r.1 ≡ length r.0.tasks + (sweep one ids r).1
  unfolding sweep
  sweep_tasks [] r = refl
  sweep_tasks (id ∷ ids) r = omega (arith, counts id r, sweep_tasks ids (one id r))

dispatch_one_tasks :
    (now : ℕ) (locked : ℕ → Bool) (id : ℕ) (r : Store × ℕ)
    → length (dispatch_one now locked id r).0.tasks + r.1
      ≡ length r.0.tasks + (dispatch_one now locked id r).1
unfolding dispatch_one enqueue update_notification
dispatch_one_tasks now locked id (s, k) = ground arith

requeue_one_tasks :
    (cutoff id : ℕ) (r : Store × ℕ)
    → length (requeue_one cutoff id r).0.tasks + r.1
      ≡ length r.0.tasks + (requeue_one cutoff id r).1
unfolding requeue_one enqueue
requeue_one_tasks cutoff id (s, k) = ground arith

-- Every notification that a run of either task has counted was handed to a send pass: the tasks
-- enqueued by the run are as many as the count that it returns.
pub sweep_counts :
    (now stuck_minutes : ℕ) (locked : ℕ → Bool) (s : Store)
    → let dispatched = dispatch_scheduled_notifications_task now locked s in
      let requeued = requeue_stuck_processing_notifications_task stuck_minutes now s in
      (length dispatched.0.tasks ≡ length s.tasks + dispatched.1)
      × (length requeued.0.tasks ≡ length s.tasks + requeued.1)
unfolding dispatch_scheduled_notifications_task requeue_stuck_processing_notifications_task
sweep_counts now stuck_minutes locked s = (
  omega (
    arith,
    sweep_tasks (dispatch_one now locked) (dispatch_one_tasks now locked)
        (map (λ n. n.id) (select (is_due now) s.notifications)) (s, 0),
  ),
  omega (
    arith,
    sweep_tasks (requeue_one (now - stuck_minutes * minute))
        (requeue_one_tasks (now - stuck_minutes * minute))
        (map (λ n. n.id) (select (is_stuck (now - stuck_minutes * minute)) s.notifications)) (s, 0),
  ),
)
