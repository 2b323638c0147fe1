-- ===== src/Sending/Tests.antt =====
-- Runs of a send pass of notifications/services.py, and its theorems at concrete inputs.
use push_it_server.Prelude.{
  All, ◌+◌, ◌≡◌, refl, ◌⊎◌, ◌↔◌, inl, inr, true, some, List, [], ◌∷◌, arith, contains, In,
}
use push_it_server.Models.{NotificationStatus, NotificationDelivery, Device}
use push_it_server.Store.{Store, get_notification, get_application, save_delivery, save_device}
use push_it_server.Billing.{user_is_paid, billing_configured, active_subscription}
use push_it_server.Delivery.{
  Pass, handle_delivery, should_skip_delivery, ineligibility_reason, should_wait_for_retry,
  get_current_device_quiet_period_end, can_retry_delivery, attempt, mark_delivery_as_sent,
}
use push_it_server.Push.{
  send_push_to_device, is_fcm_configured, wrap_unexpected, fcm_result, fcm_message,
  include_notification,
}
use push_it_server.Delivery.Eligibility.{MayPush}
use push_it_server.Scheduling.{get_quiet_period_end_from_iterable, matching_end_dates}
use push_it_server.Samples.{bell, store_one, env_one, app_one, device_at, with_billing, once_period}
use push_it_server.Sending.{
  Env, no_counts, send_loop, save_handled, final_status, send_notification, may_start, pass_of,
}
use push_it_server.Targets.{linked_to, new_delivery, create_missing}
use push_it_server.Sending.Counting.{
  ends_sent, was_sent, is_lost, is_postponed, count_where, send_loop_counts, send_loop_pushes,
}
use push_it_server.Sending.Completion.{Closed, send_notification_closes}
use push_it_server.Sending.Refusals.{AreDecided, send_notification_lapsed}
use push_it_server.Targets.Rows.{AreUnique, count_rows, create_missing_exact}

abbrev two_targets : List (NotificationDelivery × Device)
two_targets =
    (new_delivery 1 7 1, device_at 1 "token-one")
    ∷ (new_delivery 2 7 2, device_at 2 "token-two")
    ∷ []

abbrev bell_pass : Pass
bell_pass = pass_of env_one app_one bell (new_delivery 1 7 1 ∷ new_delivery 2 7 2 ∷ []) store_one

send_loop_counts_example :
    let c = (send_loop bell_pass two_targets store_one no_counts).1 in
    (c.sent + c.skipped ≡ count_where (ends_sent bell_pass) two_targets)
    × (c.skipped ≡ count_where was_sent two_targets)
    × (c.failed ≡ count_where (is_lost bell_pass) two_targets)
    × (c.deferred + c.waiting ≡ count_where (is_postponed bell_pass) two_targets)
    × ((final_status c ≡ NotificationStatus.sent)
        ↔ All (λ target. ends_sent bell_pass target ≡ true) two_targets)
    × ((final_status c ≡ NotificationStatus.failed)
        ↔ All (λ target. is_lost bell_pass target ≡ true) two_targets)
send_loop_counts_example = send_loop_counts bell_pass two_targets store_one (omega arith)

pushed_first : In 1 (send_loop bell_pass two_targets store_one no_counts).0.pushes
unfolding send_loop save_handled save_delivery save_device linked_to contains handle_delivery
    should_skip_delivery ineligibility_reason should_wait_for_retry
    get_current_device_quiet_period_end can_retry_delivery attempt mark_delivery_as_sent
    get_quiet_period_end_from_iterable matching_end_dates send_push_to_device is_fcm_configured
    wrap_unexpected fcm_result fcm_message include_notification
pushed_first = inr (inl refl)

send_loop_pushes_example :
    In 1 store_one.pushes
    ⊎ ((d : NotificationDelivery) × (device : Device) × In (d, device) two_targets
        × (1 ≡ d.id)
        × MayPush bell_pass d device)
send_loop_pushes_example = send_loop_pushes bell_pass two_targets store_one no_counts 1 pushed_first

bell_found : get_notification 7 store_one ≡ some bell
unfolding get_notification
bell_found = refl

app_found : get_application 1 store_one ≡ some app_one
unfolding get_application
app_found = refl

bell_may_start : may_start NotificationStatus.queued ≡ true
unfolding may_start
bell_may_start = refl

send_notification_closes_example : Closed 7 (send_notification env_one 7 store_one).0
send_notification_closes_example =
    send_notification_closes env_one 7 store_one bell app_one bell_found app_found refl
      bell_may_start

abbrev billed : Env
billed = record env_one { billing = with_billing }

send_notification_lapsed_example :
    let t = (send_notification billed 7 store_one).0 in (t.pushes ≡ []) × AreDecided 7 t.deliveries
unfolding user_is_paid billing_configured active_subscription
send_notification_lapsed_example =
    send_notification_lapsed billed 7 store_one bell app_one bell_found app_found refl
      bell_may_start refl

abbrev quiet_store : Store
quiet_store = record store_one { application_quiet_periods = once_period 1 500 5000 ∷ [] }

create_missing_exact_example :
    AreUnique (create_missing 7 (device_at 1 "token-one" ∷ []) store_one).deliveries
    × ((v : Device)
        → In v (device_at 1 "token-one" ∷ [])
        → count_rows 7 v.id (create_missing 7 (device_at 1 "token-one" ∷ []) store_one).deliveries
          ≡ 1)
create_missing_exact_example =
    create_missing_exact 7 (device_at 1 "token-one" ∷ []) store_one (λ n v. omega arith)
