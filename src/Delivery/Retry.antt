-- ===== src/Delivery/Retry.antt =====
-- What stays true of a delivery row across send passes (notifications/services.py).
use push_it_server.Prelude.{◌≤◌, ◌≡◌, true, arith, is_some}
use push_it_server.Models.{NotificationDelivery, DeliveryStatus, Device}
use push_it_server.Delivery.{
  Pass, can_retry_delivery, mark_delivery_as_sent, mark_delivery_as_deferred, cancel_delivery,
  mark_delivery_as_failed, attempt, handle_delivery, max_delivery_attempts,
}

-- A delivery has at most three failed attempts, only a pending one waits for a retry, and a sent one
-- has the time at which it was sent.
pub record IsValid (d : NotificationDelivery) : Type 0 where
  pub capped : d.attempt_count ≤ max_delivery_attempts
  pub waits_pending : is_some d.next_retry_at ≡ true → d.status ≡ DeliveryStatus.pending
  pub sent_stamped : d.status ≡ DeliveryStatus.sent → is_some d.sent_at ≡ true

-- Handling a delivery keeps it valid, whatever the application, the device, the quiet periods, the
-- clock and the push provider.
pub handle_delivery-IsValid :
    (pass : Pass) (d : NotificationDelivery) (device : Device)
    → IsValid d
    → IsValid (handle_delivery pass d device).delivery
unfolding handle_delivery attempt mark_delivery_as_sent mark_delivery_as_deferred cancel_delivery
    mark_delivery_as_failed can_retry_delivery
handle_delivery-IsValid pass d device v = ground arith
