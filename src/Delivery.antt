-- ===== src/Delivery.antt =====
-- notifications/services.py: what a send pass does with one delivery and its device. `now` is the
-- clock, read once for a delivery where the code reads it at each use.
pub mod Attempts
pub mod Eligibility
pub mod Retry
mod Tests
use push_it_server.Prelude.{
  ℕ, ◌+◌, ◌*◌, String, Bool, true, false, not, ◌&&◌, ◌||◌, Option, none, some, List, ltb, leb, ◌==◌,
  if◌then◌else◌, contains, select, ◌<◌,
}
use push_it_server.Models.{
  NotificationDelivery, Notification, Device, DeliveryStatus, DeviceTokenStatus, Application,
  QuietPeriod,
}
use push_it_server.Push.{
  PushResult, PushError, pushed, raised, invalid_push_token, temporary_provider, provider,
  unexpected,
}
use push_it_server.Scheduling.{Zone, get_quiet_period_end_from_iterable}

abbrev pub max_delivery_attempts : ℕ
max_delivery_attempts = 3

abbrev pub minute : ℕ
minute = 60000000

abbrev pub is_sent : DeliveryStatus → Bool
is_sent DeliveryStatus.sent = true
is_sent _ = false

abbrev pub is_active_token : DeviceTokenStatus → Bool
is_active_token DeviceTokenStatus.active = true
is_active_token _ = false

unfoldable pub can_retry_delivery : NotificationDelivery → Bool
can_retry_delivery d = if is_sent d.status then false else ltb d.attempt_count max_delivery_attempts

-- 1 minute, 5 minutes, 15 minutes, and 30 after any other number of attempts
pub retry_delay : ℕ → ℕ
retry_delay attempt_count =
    if attempt_count == 1
    then 1
    else if attempt_count == 2
    then 5
    else if attempt_count == 3
    then 15
    else 30

pub compute_next_retry : ℕ → ℕ → ℕ
compute_next_retry attempt_count now = now + retry_delay attempt_count * minute

unfoldable pub should_skip_delivery : NotificationDelivery → Bool
should_skip_delivery d = is_sent d.status

unfoldable pub should_wait_for_retry : NotificationDelivery → ℕ → Bool
should_wait_for_retry d now = elim d.next_retry_at [ none ↦ false | some t ↦ ltb now t ]

unfoldable pub mark_delivery_as_sent : NotificationDelivery → String → ℕ → NotificationDelivery
mark_delivery_as_sent d provider_message_id now = record d {
  status = DeliveryStatus.sent;
  provider_message_id = provider_message_id;
  error_message = "";
  sent_at = some now;
  last_attempt_at = some now;
  next_retry_at = none;
}

unfoldable pub mark_delivery_as_deferred : NotificationDelivery → ℕ → ℕ → NotificationDelivery
mark_delivery_as_deferred d retry_at now = record d {
  status = DeliveryStatus.pending;
  last_attempt_at = some now;
  error_message = "Deferred by device quiet period.";
  next_retry_at = some retry_at;
}

-- the CANCEL_ reasons
pub data CancelReason : Type 0 where
  application_inactive device_unlinked push_token_inactive subscription_required : CancelReason

-- f"Cancelled: {reason}."
abbrev pub cancel_message : CancelReason → String
cancel_message application_inactive = "Cancelled: application_inactive."
cancel_message device_unlinked = "Cancelled: device_unlinked."
cancel_message push_token_inactive = "Cancelled: push_token_inactive."
cancel_message subscription_required = "Cancelled: subscription_required."

unfoldable pub cancel_delivery : NotificationDelivery → CancelReason → ℕ → NotificationDelivery
cancel_delivery d reason now = record d {
  status = DeliveryStatus.failed;
  error_message = cancel_message reason;
  last_attempt_at = some now;
  next_retry_at = none;
}

unfoldable pub ineligibility_reason : Application → Device → List ℕ → Option CancelReason
ineligibility_reason application device linked_device_ids =
    if not application.is_active
    then some application_inactive
    else if not (contains linked_device_ids device.id)
    then some device_unlinked
    else if not (is_active_token device.push_token_status) || not device.is_active
    then some push_token_inactive
    else none

abbrev pub error_text : PushError → String
error_text (invalid_push_token e) = e
error_text (temporary_provider e) = e
error_text (provider e) = e
error_text (unexpected e) = e

unfoldable pub mark_delivery_as_failed : NotificationDelivery → PushError → ℕ → NotificationDelivery
mark_delivery_as_failed d exc now =
    let attempt_count = d.attempt_count + 1 in
    let exhausted = leb max_delivery_attempts attempt_count in
    record d {
      attempt_count = attempt_count;
      last_attempt_at = some now;
      error_message = error_text exc;
      status = if exhausted then DeliveryStatus.failed else DeliveryStatus.pending;
      next_retry_at = if exhausted then none else some (compute_next_retry attempt_count now);
    }

-- the `except InvalidPushTokenError` arm is the one with `invalidate_token=True`
abbrev pub is_permanent : PushError → Bool
is_permanent (invalid_push_token e) = true
is_permanent _ = false

-- the device's half of `_record_delivery_failure`
pub record_device_failure : Device → PushError → ℕ → Device
record_device_failure device exc now =
    let counted = record device { failure_count = device.failure_count + 1 } in
    if is_permanent exc
    then record counted {
      push_token_status = DeviceTokenStatus.invalid;
      is_active = false;
      invalidated_at = some now;
      invalidation_reason = "invalid_token";
    }
    else counted

-- the arms of the loop body of `send_notification`, by what they count
pub data Outcome : Type 0 where
  skipped cancelled waiting deferred exhausted delivered failed : Outcome

pub record Handled : Type 0 where
  pub outcome : Outcome
  pub delivery : NotificationDelivery
  pub device : Device
  pub called : Bool  -- the push provider was called

-- the `try` statement
unfoldable pub attempt : PushResult → NotificationDelivery → Device → ℕ → Handled
attempt (pushed provider_message_id) d device now = record {
  outcome = delivered;
  delivery = mark_delivery_as_sent d provider_message_id now;
  device = record device { failure_count = 0 };
  called = true;
}
attempt (raised exc) d device now = record {
  outcome = failed;
  delivery = mark_delivery_as_failed d exc now;
  device = record_device_failure device exc now;
  called = true;
}

-- What a pass knows while it handles its deliveries; `push` is `send_push_to_device` for the
-- notification at hand.
pub record Pass : Type 0 where
  pub application : Application
  pub linked_device_ids : List ℕ
  pub zone : Zone
  pub device_quiet_periods : List QuietPeriod
  pub push : Device → PushResult
  pub clock : NotificationDelivery → ℕ

-- `get_current_device_quiet_period_end`, over all the prefetched periods of the device
unfoldable pub get_current_device_quiet_period_end : Pass → Device → ℕ → Option ℕ
get_current_device_quiet_period_end pass device at =
    get_quiet_period_end_from_iterable pass.zone
      (select (λ q. q.owner == device.id) pass.device_quiet_periods) at

abbrev quietly : Outcome → NotificationDelivery → Device → Handled
quietly outcome d device = record {
  outcome = outcome;
  delivery = d;
  device = device;
  called = false;
}

-- the loop body of `send_notification`
unfoldable pub handle_delivery : Pass → NotificationDelivery → Device → Handled
handle_delivery pass d device =
    let now = pass.clock d in
    if should_skip_delivery d
    then quietly skipped d device
    else elim (ineligibility_reason pass.application device pass.linked_device_ids) [
      | some reason ↦ quietly cancelled (cancel_delivery d reason now) device
      | none ↦
          if should_wait_for_retry d now
          then quietly waiting d device
          else elim (get_current_device_quiet_period_end pass device now) [
            | some retry_at ↦ quietly deferred (mark_delivery_as_deferred d retry_at now) device
            | none ↦
                if not (can_retry_delivery d)
                then quietly exhausted d device
                else attempt (pass.push device) d device now
          ]
    ]
