-- ===== src/Lifecycle/History.antt =====
-- Any history of the program: requests, tasks and workers, one after another. A worker may be killed
-- between the acquisition of a notification and the end of its pass, but is not overtaken by another
-- while it runs; nothing is committed between the reading and the saving of a request that changes a
-- future notification.
use push_it_server.Prelude.{
  ℕ, refl, Option, none, some, List, [], ◌∷◌, Option-cases, Bool, inl, inr,
}
use push_it_server.Models.{Notification, Application}
use push_it_server.Store.{Store}
use push_it_server.Queueing.{QueueEnv, try_queue_notification}
use push_it_server.Creation.{
  Draft, Vendor, OperationalError, create_notification_with_optional_idempotency,
}
use push_it_server.Tasks.{
  dispatch_scheduled_notifications_task, requeue_stuck_processing_notifications_task,
  retry_pending_deliveries_task,
}
use push_it_server.Retention.{RetentionSettings, purge_expired_personal_data}
use push_it_server.Sending.{Env, send_notification, acquire_notification_for_processing}
use push_it_server.Lifecycle.{Steps, done, IsConsistent}
use push_it_server.Lifecycle.Rules.{Steps-trans, Steps-IsConsistent}
use push_it_server.Lifecycle.Sweeps.{dispatch-Steps, requeue-Steps, retry-Steps, purge-Steps}
use push_it_server.Views.{Patch, destroy, delete_future, update_future}
use push_it_server.Inbound.{GraphEmail}
use push_it_server.Inbound.Processing.{Mailbox, PollEnv}
use push_it_server.Inbound.Poll.{process_email}
use push_it_server.Lifecycle.Requests.{
  destroy-Steps, delete_future-Steps, update_future-Steps, process_email-Steps,
}
use push_it_server.Lifecycle.Operations.{
  table, store_after, create-Steps, send-Steps, acquire-Steps, queue-Steps,
}

pub data Op : Type 0 where
  creates : Vendor → (ℕ → Option OperationalError) → Draft → Op
  queues : QueueEnv → Application → Notification → Op
  sends : Env → ℕ → Op
  starts_and_dies : Env → ℕ → Op
  dispatches : ℕ → (ℕ → Bool) → Op
  requeues : ℕ → ℕ → Op
  retries : ℕ → Op
  purges : RetentionSettings → ℕ → Op
  hides : (Notification → Bool) → ℕ → Op
  deletes_future : (Notification → Bool) → ℕ → ℕ → Op
  patches : (Notification → Bool) → ℕ → ℕ → Patch → Op
  receives : PollEnv → GraphEmail → Mailbox → Op

abbrev pub acquired_store : Option (Notification × Store) → Store → Store
acquired_store none s = s
acquired_store (some (n, t)) s = t

unfoldable pub perform : Op → Store → Store
perform (creates vendor trouble d) s =
    store_after (create_notification_with_optional_idempotency vendor trouble d s) s
perform (queues env application n) s = (try_queue_notification env application n s).1
perform (sends env id) s = (send_notification env id s).0
perform (starts_and_dies env id) s = acquired_store (acquire_notification_for_processing env id s) s
perform (dispatches now locked) s = (dispatch_scheduled_notifications_task now locked s).0
perform (requeues stuck_minutes now) s =
    (requeue_stuck_processing_notifications_task stuck_minutes now s).0
perform (retries now) s = retry_pending_deliveries_task now s
perform (purges settings now) s = (purge_expired_personal_data settings now s).0
perform (hides owner_filter pk) s = (destroy owner_filter pk s).0
perform (deletes_future owner_filter now pk) s = (delete_future owner_filter now pk s).0
perform (patches owner_filter now pk p) s = (update_future owner_filter now pk p (λ t. t) s).0
perform (receives env email m) s = (process_email env email (record m { store = s })).0.store

unfoldable pub run : List Op → Store → Store
run [] s = s
run (o ∷ os) s = run os (perform o s)

perform-Steps :
    (o : Op) (s : Store) → IsConsistent (table s) → Steps (table s) (table (perform o s))
unfolding perform
perform-Steps (creates vendor trouble d) s c = create-Steps vendor trouble d s
perform-Steps (queues env application n) s c = queue-Steps env application n s c
perform-Steps (sends env id) s c = send-Steps env id s c
perform-Steps (starts_and_dies env id) s c =
    elim (Option-cases (acquire_notification_for_processing env id s)) [
      | inl e ↦ rw e (done refl refl)
      | inr ((n, t), e) ↦ rw e (acquire-Steps env id s n t e c)
    ]
perform-Steps (dispatches now locked) s c = dispatch-Steps now locked s c
perform-Steps (requeues stuck_minutes now) s c = requeue-Steps stuck_minutes now s c
perform-Steps (retries now) s c = retry-Steps now s
perform-Steps (purges settings now) s c = purge-Steps settings now s
perform-Steps (hides owner_filter pk) s c = destroy-Steps owner_filter pk s
perform-Steps (deletes_future owner_filter now pk) s c = delete_future-Steps owner_filter now pk s
perform-Steps (patches owner_filter now pk p) s c = update_future-Steps owner_filter now pk p s c
perform-Steps (receives env email m) s c = process_email-Steps env email (record m { store = s })

-- Whatever requests come, whatever the tasks find and whatever workers do, one after another, what
-- the program does to the table of notifications is a run of steps of the abstract specification,
-- from any consistent table: rows are inserted, deleted, or change along the statechart.
pub run-Steps :
    (os : List Op) (s : Store) → IsConsistent (table s) → Steps (table s) (table (run os s))
unfolding run
run-Steps [] s c = done refl refl
run-Steps (o ∷ os) s c =
    let first = perform-Steps o s c in
    Steps-trans first (run-Steps os (perform o s) (Steps-IsConsistent first c))

-- From a consistent table, every history leads to a consistent one: primary keys stay distinct and
-- below the next one, a notification that is PROCESSING has the start the watchdog looks for, one
-- that is SCHEDULED has the instant the dispatcher looks for, and one that is SENT has its time.
pub run-IsConsistent :
    (os : List Op) (s : Store) → IsConsistent (table s) → IsConsistent (table (run os s))
run-IsConsistent os s c = Steps-IsConsistent (run-Steps os s c) c
