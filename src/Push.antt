-- ===== src/Push.antt =====
-- notifications/push.py: one push to one device. Firebase is not part of the repository: what
-- `messaging.send` returns or raises, and whether the client initialises, is the parameter `fcm`.
pub mod Laws
mod Tests
use Prim.Native.String.{count, ◌++◌ as append}
use text.Mathlib.Text.{◌==◌ as str_eq}
use push_it_server.Prelude.{
  ℕ, zero, suc, ◌-◌, String, Bool, true, false, not, ◌&&◌, ◌||◌, Option, none, some, List, [], ◌∷◌,
  if◌then◌else◌,
}
use push_it_server.Models.{DevicePlatform, android, ios}

-- the mode that PUSH_DELIVERY_MODE names; any other text than "data-only" acts as "hybrid"
pub data DeliveryMode : Type 0 where
  hybrid data_only : DeliveryMode

pub record PushSettings : Type 0 where
  pub force_mock_push : Bool
  pub service_account_path : String  -- stripped and lowercased
  pub delivery_mode : DeliveryMode

-- `messaging.Message`, without its data payload and its Android configuration
pub record FcmMessage : Type 0 where
  pub token : String
  pub notification : Option (String × String)

-- what `messaging.send` does; each exception has its text
pub data FcmReply : Type 0 where
  message_id : String → FcmReply
  unregistered invalid_argument unavailable firebase_error other_error : String → FcmReply

-- PushProviderError and its subclasses; `unexpected` is any other exception
pub data PushError : Type 0 where
  invalid_push_token temporary_provider provider unexpected : String → PushError

pub data PushResult : Type 0 where
  pushed : String → PushResult
  raised : PushError → PushResult

unfoldable pub is_fcm_configured : PushSettings → Bool
is_fcm_configured s =
    if s.force_mock_push
    then false
    else not (str_eq s.service_account_path "")
      && not (str_eq s.service_account_path "mock" || str_eq s.service_account_path "none")

abbrev pub is_ios : Option DevicePlatform → Bool
is_ios none = false
is_ios (some android) = false
is_ios (some ios) = true

abbrev pub is_data_only : DeliveryMode → Bool
is_data_only hybrid = false
is_data_only data_only = true

unfoldable pub include_notification : DeliveryMode → Option DevicePlatform → Bool → Bool
include_notification mode platform android_data_only =
    is_ios platform || (not (is_data_only mode) && not android_data_only)

unfoldable pub fcm_message :
    PushSettings → String → String → String → Option DevicePlatform → Bool → FcmMessage
fcm_message s push_token title message platform android_data_only = record {
  token = push_token;
  notification =
      if include_notification s.delivery_mode platform android_data_only
      then some (title, message)
      else none;
}

-- the `except` clauses of `_send_fcm`
unfoldable pub fcm_result : FcmReply → PushResult
fcm_result (message_id id) = pushed id
fcm_result (unregistered e) = raised (invalid_push_token e)
fcm_result (invalid_argument e) = raised (invalid_push_token e)
fcm_result (unavailable e) = raised (temporary_provider e)
fcm_result (firebase_error e) = raised (provider e)
fcm_result (other_error e) = raised (unexpected e)

-- the last `except` clause of `send_push_to_device`
unfoldable pub wrap_unexpected : PushResult → PushResult
wrap_unexpected (raised (unexpected e)) = raised (provider e)
wrap_unexpected r = r

-- Python's `text[-n:]`, over characters
drop_chars : ℕ → String → String
drop_chars zero s = s
drop_chars (suc n) String.[] = ""
drop_chars (suc n) (String.◌∷◌ c s) = drop_chars n s

last_chars : ℕ → String → String
last_chars n s = drop_chars (count s - n) s

-- `_send_mock`
pub send_mock : String → String
unfolding last_chars drop_chars
send_mock push_token = append "mock-msg-" (last_chars 6 push_token)

unfoldable pub send_push_to_device :
    (FcmMessage → FcmReply)
    → PushSettings
    → String
    → String
    → String
    → Option DevicePlatform
    → Bool
    → PushResult
send_push_to_device fcm s push_token title message platform android_data_only =
    if is_fcm_configured s
    then wrap_unexpected
        (fcm_result (fcm (fcm_message s push_token title message platform android_data_only)))
    else pushed (send_mock push_token)
