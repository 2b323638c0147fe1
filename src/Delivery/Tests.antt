-- ===== src/Delivery/Tests.antt =====
-- The theorems on one delivery of notifications/services.py at concrete inputs.
use push_it_server.Prelude.{ℕ, ◌+◌, ◌≤◌, ◌≡◌, refl, ◌↔◌, true, List, [], ◌∷◌, arith}
use push_it_server.Models.{NotificationDelivery, Device}
use push_it_server.Samples.{app_one, device_at, utc}
use push_it_server.Push.{PushResult, raised, pushed, temporary_provider}
use push_it_server.Targets.{new_delivery}
use push_it_server.Delivery.{Pass, handle_delivery}
use push_it_server.Delivery.Attempts.{run_passes, attempts_left, run_passes_bounded}
use push_it_server.Delivery.Eligibility.{MayPush, handle_delivery_called}
use push_it_server.Delivery.Retry.{IsValid, handle_delivery-IsValid}

abbrev fresh : NotificationDelivery
fresh = new_delivery 1 7 1

abbrev phone : Device
phone = device_at 1 "token-one"

abbrev pass_with : PushResult → ℕ → Pass
pass_with result now = record {
  application = app_one;
  linked_device_ids = 1 ∷ [];
  zone = utc;
  device_quiet_periods = [];
  push = λ v. result;
  clock = λ d. now;
}

abbrev failing : ℕ → Pass × Device
failing now = (pass_with (raised (temporary_provider "busy")) now, phone)

-- five passes, an hour apart, while the provider is down
abbrev five_failures : List (Pass × Device)
five_failures =
    failing 0
    ∷ failing 3600000000
    ∷ failing 7200000000
    ∷ failing 10800000000
    ∷ failing 14400000000
    ∷ []

run_passes_bounded_example :
    (run_passes five_failures fresh).0 + attempts_left (run_passes five_failures fresh).1
    ≤ attempts_left fresh
run_passes_bounded_example = run_passes_bounded five_failures fresh

handle_delivery_called_example :
    ((handle_delivery (pass_with (pushed "id") 9) fresh phone).called ≡ true)
    ↔ MayPush (pass_with (pushed "id") 9) fresh phone
handle_delivery_called_example = handle_delivery_called (pass_with (pushed "id") 9) fresh phone

fresh-IsValid : IsValid fresh
fresh-IsValid = record { capped = omega arith; waits_pending = λ e. refl; sent_stamped = λ e. cc }

handle_delivery-IsValid_example :
    IsValid
      (handle_delivery (pass_with (raised (temporary_provider "busy")) 9) fresh phone).delivery
handle_delivery-IsValid_example =
    handle_delivery-IsValid (pass_with (raised (temporary_provider "busy")) 9) fresh phone
      fresh-IsValid
