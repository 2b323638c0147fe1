-- ===== src/Tasks/Tests.antt =====
-- The tasks of notifications/tasks.py at concrete inputs.
use push_it_server.Prelude.{
  ℕ, ◌*◌, ◌≡◌, refl, Bool, true, false, some, List, [], ◌∷◌, arith, inl, contains,
}
use push_it_server.Models.{
  Notification, NotificationStatus, NotificationDelivery, DeliveryStatus, Device,
}
use push_it_server.Store.{Store}
use push_it_server.Samples.{store_one, bell, app_one, device_at, utc, once_period}
use push_it_server.Push.{pushed}
use push_it_server.Delivery.{Pass, handle_delivery, minute}
use push_it_server.Targets.{new_delivery}
use push_it_server.Tasks.{retry_is_due}
use push_it_server.Tasks.Retries.{deferred_exhausted}
use push_it_server.Tasks.Lock.{
  Event, start, check, delete, AreTimed, ArePrompt, happen, happen_all, idle, cache_add, cache_get,
  check_lock, delete_lock, owns_lock, has_token,
}
use push_it_server.Tasks.Lock.Exclusion.{polling_exclusive}

abbrev waiting : Notification
waiting = record bell { status = NotificationStatus.scheduled; scheduled_for = some 500 }

abbrev stranded : Notification
stranded = record bell {
  id = 6;
  status = NotificationStatus.processing;
  processing_started_at = some 0;
}

abbrev late : NotificationDelivery
late = record (new_delivery 1 7 1) { next_retry_at = some 400 }

abbrev backlog : Store
backlog = record store_one { notifications = waiting ∷ stranded ∷ []; deliveries = late ∷ [] }

abbrev nobody : ℕ → Bool
nobody id = false

abbrev an_hour : ℕ
an_hour = 60 * minute

abbrev phone : Device
phone = device_at 1 "token-one"

-- the device is quiet until the instant 100
abbrev pass_at : ℕ → Pass
pass_at now = record {
  application = app_one;
  linked_device_ids = 1 ∷ [];
  zone = utc;
  device_quiet_periods = once_period 1 0 100 ∷ [];
  push = λ v. pushed "id";
  clock = λ d. now;
}

abbrev failed_thrice : NotificationDelivery
failed_thrice = record (new_delivery 1 7 1) { status = DeliveryStatus.failed; attempt_count = 3 }

abbrev left_over : NotificationDelivery
left_over = (handle_delivery (pass_at 50) failed_thrice phone).delivery

deferred_exhausted_example :
    (retry_is_due 200 left_over ≡ true)
    × ((handle_delivery (pass_at 200) left_over phone).delivery ≡ left_over)
    × ((handle_delivery (pass_at 200) left_over phone).called ≡ false)
unfolding push_it_server.Delivery.ineligibility_reason contains
    push_it_server.Delivery.should_wait_for_retry
    push_it_server.Delivery.get_current_device_quiet_period_end
    push_it_server.Scheduling.get_quiet_period_end_from_iterable
    push_it_server.Scheduling.matching_end_dates
    push_it_server.Scheduling.get_quiet_period_end_for_period push_it_server.Scheduling.typed_end
    push_it_server.Scheduling.once_end push_it_server.Scheduling.max_of
deferred_exhausted_example =
    deferred_exhausted (pass_at 50) (pass_at 200) failed_thrice phone phone 100 refl (omega arith)
      refl refl refl (omega arith) (record { eligible = refl; awake = refl })

-- the first run releases the lock; the second outlives its time to live of 600, and finds the token of
-- the third when it ends; a fourth finds the lock
abbrev polls : List Event
polls =
    start 1 0
    ∷ check 1 90
    ∷ delete 1 91
    ∷ start 2 100
    ∷ start 3 750
    ∷ check 2 800
    ∷ delete 2 801
    ∷ start 4 900
    ∷ []

polls_timed : AreTimed 0 polls 1000
polls_timed = ground arith

polls_prompt : ArePrompt 600 polls idle
unfolding ArePrompt happen cache_add cache_get check_lock delete_lock owns_lock has_token
polls_prompt = (tt, (tt, (((λ e. omega arith), tt), (tt, (tt, (tt, (tt, (tt, tt))))))))

abbrev third_run : ℕ × ℕ
third_run = (3, 750)

polling_exclusive_example : (third_run.0 ≡ third_run.0) × (third_run.1 ≡ third_run.1)
unfolding happen_all happen cache_add cache_get check_lock delete_lock owns_lock has_token
polling_exclusive_example =
    polling_exclusive 600 1000 polls third_run third_run polls_timed polls_prompt (inl refl)
      (inl refl) (omega arith) (omega arith)

-- A run that deletes the key after its entry has expired, and another run has taken the lock, frees
-- the lock of that run: a third overlaps with it.
late_delete :
    (happen_all 600
      (start 1 0 ∷ check 1 599 ∷ start 2 600 ∷ delete 1 601 ∷ start 3 602 ∷ [])
      idle).runs
    ≡ (3, 602) ∷ (2, 600) ∷ []
unfolding happen_all happen cache_add cache_get check_lock delete_lock owns_lock has_token
late_delete = refl
