-- ===== src/Push/Laws.antt =====
-- What a push may carry and how its failures are told apart (notifications/push.py).
use push_it_server.Prelude.{String, Bool, Option, ◌≢◌, arith}
use push_it_server.Models.{DevicePlatform}
use push_it_server.Push.{
  PushSettings, FcmMessage, FcmReply, PushResult, raised, unexpected, fcm_message, fcm_result,
  wrap_unexpected, send_push_to_device,
}

wrap_unexpected-ne : (r : PushResult) (e : String) → wrap_unexpected r ≢ raised (unexpected e)
unfolding wrap_unexpected
wrap_unexpected-ne r e h = ground arith

-- A push never raises anything but a push-provider error, whatever Firebase does.
pub send_push_to_device-ne_unexpected :
    (fcm : FcmMessage → FcmReply) (s : PushSettings) (push_token title message : String)
    (platform : Option DevicePlatform) (android_data_only : Bool) (e : String)
    → send_push_to_device fcm s push_token title message platform android_data_only
      ≢ raised (unexpected e)
unfolding send_push_to_device
send_push_to_device-ne_unexpected fcm s push_token title message platform only e h = ground (
  arith,
  wrap_unexpected-ne (fcm_result (fcm (fcm_message s push_token title message platform only))) e,
)
