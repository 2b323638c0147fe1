-- ===== src/Queueing/Tests.antt =====
-- `_try_queue_notification` of notifications/api_views.py at concrete inputs.
use push_it_server.Prelude.{◌≡◌, refl, ◌⊎◌, true, false, [], ◌∷◌, ◌==◌}
use push_it_server.Models.{Notification, NotificationStatus}
use push_it_server.Store.{Store, enqueue}
use push_it_server.Samples.{store_one, bell, app_one}
use push_it_server.Queueing.{QueueEnv, try_queue_notification, to_queue}
use push_it_server.Queueing.Laws.{is_queued, try_queue_notification-restores}

abbrev draft : Notification
draft = record bell { status = NotificationStatus.draft }

abbrev drafted : Store
drafted = record store_one { notifications = draft ∷ [] }

abbrev request : QueueEnv
request = record {
  now = 1000;
  owner_filter = λ n. n.application == 1;
  database_busy = false;
  broker_up = true;
}

abbrev broker_down : QueueEnv
broker_down = record request { broker_up = false }

try_queue_notification-restores_example :
    ((is_queued (try_queue_notification broker_down app_one draft drafted).0 ≡ false)
      × ((try_queue_notification broker_down app_one draft drafted).1 ≡ drafted))
    ⊎ ((is_queued (try_queue_notification broker_down app_one draft drafted).0 ≡ true)
        × ((try_queue_notification broker_down app_one draft drafted).1
            ≡ enqueue 7 (to_queue broker_down draft drafted)))
try_queue_notification-restores_example =
    try_queue_notification-restores broker_down app_one draft draft drafted (λ e. refl, tt)
