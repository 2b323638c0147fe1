-- ===== src/Delivery/Attempts.antt =====
-- How often the push provider is called for one delivery (notifications/services.py).
use push_it_server.Prelude.{ℕ, suc, ◌+◌, ◌-◌, ◌≤◌, List, [], ◌∷◌, arith, if◌then◌else◌}
use push_it_server.Models.{NotificationDelivery, Device}
use push_it_server.Delivery.{
  Pass, handle_delivery, attempt, can_retry_delivery, should_skip_delivery, mark_delivery_as_sent,
  mark_delivery_as_deferred, cancel_delivery, mark_delivery_as_failed, max_delivery_attempts,
  is_sent,
}

-- Every pass over a delivery, in order, with the device as that pass finds it.
pub run_passes : List (Pass × Device) → NotificationDelivery → ℕ × NotificationDelivery
run_passes [] d = (0, d)
run_passes ((pass, device) ∷ rest) d =
    let h = handle_delivery pass d device in
    let (calls, last) = run_passes rest h.delivery in (if h.called then suc calls else calls, last)

abbrev pub attempts_left : NotificationDelivery → ℕ
attempts_left d = if is_sent d.status then 0 else max_delivery_attempts - d.attempt_count

handle_delivery_uses :
    (pass : Pass) (d : NotificationDelivery) (device : Device)
    → (if (handle_delivery pass d device).called then 1 else 0)
        + attempts_left (handle_delivery pass d device).delivery
      ≤ attempts_left d
unfolding handle_delivery attempt mark_delivery_as_sent mark_delivery_as_deferred cancel_delivery
    mark_delivery_as_failed can_retry_delivery should_skip_delivery
handle_delivery_uses pass d device = ground arith

-- Over any sequence of passes, whatever changes between them, the provider is called for a delivery
-- at most as often as it has attempts left, which is never for a sent one and three times for a new
-- one; and what is left afterwards is counted too.
pub run_passes_bounded :
    (passes : List (Pass × Device)) (d : NotificationDelivery)
    → (run_passes passes d).0 + attempts_left (run_passes passes d).1 ≤ attempts_left d
unfolding run_passes
run_passes_bounded [] d = omega arith
run_passes_bounded ((pass, device) ∷ rest) d = ground (
  arith,
  handle_delivery_uses pass d device,
  run_passes_bounded rest (handle_delivery pass d device).delivery,
)
