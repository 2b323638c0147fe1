-- ===== src/Push/Tests.antt =====
-- Runs of notifications/push.py, and its theorems at concrete inputs.
use push_it_server.Prelude.{◌≡◌, refl, true, none, some}
use push_it_server.Models.{ios}
use push_it_server.Samples.{push_to_fcm}
use push_it_server.Push.{
  PushSettings, hybrid, raised, pushed, unexpected, provider, other_error, send_push_to_device,
  fcm_message, fcm_result, wrap_unexpected, is_fcm_configured, send_mock,
}

abbrev mocked : PushSettings
mocked = record { force_mock_push = true; service_account_path = "x"; delivery_mode = hybrid }

mock_push :
    send_push_to_device (λ m. other_error "down") mocked "abcdefgh" "t" "m" none true
    ≡ pushed "mock-msg-cdefgh"
unfolding send_push_to_device is_fcm_configured send_mock
mock_push = refl

wrapped :
    send_push_to_device (λ m. other_error "boom") push_to_fcm "token" "t" "m" none true
    ≡ raised (provider "boom")
unfolding send_push_to_device is_fcm_configured wrap_unexpected fcm_result
wrapped = refl

ios_block : (fcm_message push_to_fcm "token" "t" "m" (some ios) true).notification ≡ some ("t", "m")
unfolding fcm_message push_it_server.Push.include_notification
ios_block = refl
