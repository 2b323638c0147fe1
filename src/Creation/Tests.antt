-- ===== src/Creation/Tests.antt =====
-- notifications/creation.py at concrete inputs.
use push_it_server.Prelude.{ℕ, zero, suc, ◌≡◌, refl, true, false, Option, none, some}
use push_it_server.Models.{Notification}
use push_it_server.Samples.{store_one}
use push_it_server.Creation.{
  sqlite, postgresql, OperationalError, database_locked, Draft, returned, find_key,
  new_notification, insert, create_notification_with_optional_idempotency,
}
use push_it_server.Creation.Laws.{create_notification_with_optional_idempotency_replay}

abbrev order : Draft
order = record {
  application = 1;
  title = "Order";
  message = "Your order is ready";
  scheduled_for = none;
  idempotency_key = "order-42";
  request_fingerprint = "f1";
  created_at = 10;
}

abbrev other_order : Draft
other_order = record order { message = "Your order is late"; request_fingerprint = "f2" }

-- the database is locked at the first attempt only
abbrev busy_once : ℕ → Option OperationalError
busy_once zero = some database_locked
busy_once (suc n) = none

abbrev quiet : ℕ → Option OperationalError
quiet n = none

abbrev ordered : Notification
ordered = new_notification 8 order

first_order :
    create_notification_with_optional_idempotency sqlite busy_once order store_one
    ≡ returned
        (record { notification = ordered; created = true; conflict = false })
        (insert order store_one)
unfolding create_notification_with_optional_idempotency push_it_server.Creation.by_vendor
    push_it_server.Creation.sqlite_attempts push_it_server.Creation.get_or_create find_key
first_order = refl

create_notification_with_optional_idempotency_replay_example :
    create_notification_with_optional_idempotency sqlite quiet other_order (insert order store_one)
    ≡ returned
        (record { notification = ordered; created = false; conflict = true })
        (insert order store_one)
create_notification_with_optional_idempotency_replay_example =
    create_notification_with_optional_idempotency_replay sqlite busy_once quiet order other_order
      store_one (insert order store_one)
      (record { notification = ordered; created = true; conflict = false }) refl first_order refl
      refl refl
