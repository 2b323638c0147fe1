-- ===== src/Delivery/Eligibility.antt =====
-- When the push provider is called, and what else a pass does (notifications/services.py).
use push_it_server.Prelude.{◌<◌, ◌≡◌, ◌↔◌, true, false, none, arith, contains}
use push_it_server.Models.{NotificationDelivery, Device}
use push_it_server.Delivery.{
  Pass, handle_delivery, attempt, can_retry_delivery, should_skip_delivery, should_wait_for_retry,
  ineligibility_reason, get_current_device_quiet_period_end, max_delivery_attempts, is_sent,
  is_active_token, cancel_delivery, mark_delivery_as_sent, mark_delivery_as_deferred,
  mark_delivery_as_failed,
}

-- Everything that has to hold for a push.
pub record MayPush (pass : Pass) (d : NotificationDelivery) (device : Device) : Type 0 where
  pub not_sent : is_sent d.status ≡ false
  pub application_active : pass.application.is_active ≡ true
  pub linked : contains pass.linked_device_ids device.id ≡ true
  pub token_active : is_active_token device.push_token_status ≡ true
  pub device_active : device.is_active ≡ true
  pub due : should_wait_for_retry d (pass.clock d) ≡ false
  pub awake : get_current_device_quiet_period_end pass device (pass.clock d) ≡ none
  pub attempts_left : d.attempt_count < max_delivery_attempts

-- The provider is called for a delivery exactly when it is not sent, the application is active, the
-- device is linked, active and has an active token, no retry is to be waited for, no quiet period
-- of the device covers the moment, and fewer than three attempts have failed.
pub handle_delivery_called :
    (pass : Pass) (d : NotificationDelivery) (device : Device)
    → ((handle_delivery pass d device).called ≡ true) ↔ MayPush pass d device
unfolding handle_delivery attempt can_retry_delivery should_skip_delivery ineligibility_reason
handle_delivery_called pass d device = (λ h. ground arith, λ m. ground arith)

-- A pass that does not call the provider leaves the device as it was.
pub handle_delivery_quiet :
    (pass : Pass) (d : NotificationDelivery) (device : Device)
    → (handle_delivery pass d device).called ≡ false
    → (handle_delivery pass d device).device ≡ device
unfolding handle_delivery attempt
handle_delivery_quiet pass d device h = ground arith

-- The row that is saved is the row that was loaded.
pub id-handle_delivery :
    (pass : Pass) (d : NotificationDelivery) (device : Device)
    → (handle_delivery pass d device).delivery.id ≡ d.id
unfolding handle_delivery attempt cancel_delivery mark_delivery_as_sent mark_delivery_as_deferred
    mark_delivery_as_failed
id-handle_delivery pass d device = ground arith
