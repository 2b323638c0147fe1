-- ===== src/Models.antt =====
-- The rows of the database: notifications/models.py, devices/models.py, applications/models.py,
-- applications/models_send_token.py and billing/models.py. A primary key or a foreign key is a
-- number, an instant is a number of microseconds, and a nullable column is an `Option`.
use push_it_server.Prelude.{ℕ, String, Bool, Option, List, select}

-- DeliveryStatus
pub data DeliveryStatus : Type 0 where
  pending sent failed : DeliveryStatus

-- NotificationStatus
pub data NotificationStatus : Type 0 where
  draft scheduled queued processing sent failed partial no_target : NotificationStatus

-- DeviceTokenStatus
pub data DeviceTokenStatus : Type 0 where
  active invalid revoked : DeviceTokenStatus

-- DevicePlatform
pub data DevicePlatform : Type 0 where
  android ios : DevicePlatform

-- UnlinkSource
pub data UnlinkSource : Type 0 where
  device_button inbox takeover owner_eviction : UnlinkSource

-- QuietPeriodType
pub data QuietPeriodType : Type 0 where
  once recurring : QuietPeriodType

-- AbstractQuietPeriod; `owner` is the application or the device of the concrete class. A time of
-- day is a number of microseconds since midnight.
pub record QuietPeriod : Type 0 where
  pub owner : ℕ
  pub name : String
  pub period_type : QuietPeriodType
  pub start_at : Option ℕ
  pub end_at : Option ℕ
  pub recurrence_days : List ℕ
  pub start_time : Option ℕ
  pub end_time : Option ℕ
  pub is_active : Bool

pub record Notification : Type 0 where
  pub id : ℕ
  pub application : ℕ
  pub title : String
  pub message : String
  pub image : Option String
  pub status : NotificationStatus
  pub created_at : ℕ
  pub scheduled_for : Option ℕ
  pub sent_at : Option ℕ
  pub processing_started_at : Option ℕ
  pub idempotency_key : String
  pub request_fingerprint : String
  pub is_visible : Bool

-- NotificationQuerySet.visible
pub visible : List Notification → List Notification
visible ns = select (λ n. n.is_visible) ns

pub record NotificationDelivery : Type 0 where
  pub id : ℕ
  pub notification : ℕ
  pub device : ℕ
  pub status : DeliveryStatus
  pub provider_message_id : String
  pub error_message : String
  pub sent_at : Option ℕ
  pub delivered_at : Option ℕ
  pub opened_at : Option ℕ
  pub attempt_count : ℕ
  pub last_attempt_at : Option ℕ
  pub next_retry_at : Option ℕ

pub record Device : Type 0 where
  pub id : ℕ
  pub user : Option ℕ
  pub device_name : String
  pub platform : DevicePlatform
  pub push_token : String
  pub push_token_status : DeviceTokenStatus
  pub last_seen_at : Option ℕ
  pub created_at : ℕ
  pub is_active : Bool
  pub invalidated_at : Option ℕ
  pub invalidation_reason : String
  pub failure_count : ℕ

pub record DeviceApplicationLink : Type 0 where
  pub device : ℕ
  pub application : ℕ
  pub is_active : Bool
  pub unlinked_at : Option ℕ
  pub unlink_source : Option UnlinkSource

-- billing/models.py: `quota` is `quotas["applications"]` where that is an int
pub record Subscription : Type 0 where
  pub current_period_end : Option ℕ
  pub is_paid : Bool
  pub quota : Option ℕ
  pub grace_until : Option ℕ

-- The columns of accounts.User that the modelled code reads, with the related subscription.
pub record User : Type 0 where
  pub id : ℕ
  pub email : String
  pub subscription_bypass : Bool
  pub subscription : Option Subscription

-- MODE_CHOICES of applications/inbound_sender_policy.py
pub data SenderMode : Type 0 where
  mode_owner mode_anyone : SenderMode

-- The owner is the joined row. The icon and logo columns are left out.
pub record Application : Type 0 where
  pub id : ℕ
  pub owner : User
  pub name : String
  pub app_token_prefix : String
  pub app_token_hash : String
  pub enrolment_code : String
  pub enrolment_code_rotated_at : Option ℕ
  pub webhook_url : String
  pub webhook_secret : String
  pub inbound_email_alias : String
  pub inbound_sender_mode : SenderMode
  pub inbound_sender_allowlist : List String
  pub inbound_sender_blocklist : List String
  pub inbound_rejection_notify_email : Bool
  pub inbound_rejection_notify_push : Bool
  pub inbound_rejection_reply_to_sender : Bool
  pub is_active : Bool
  pub revoked_at : Option ℕ
  pub last_used_at : Option ℕ

pub record AppSendToken : Type 0 where
  pub id : ℕ
  pub application : ℕ
  pub name : String
  pub prefix : String
  pub token_hash : String
  pub last_used_at : Option ℕ
  pub revoked_at : Option ℕ

-- InboundEmailIngestionStatus
pub data InboundEmailIngestionStatus : Type 0 where
  log_created log_existing log_rejected log_conflict log_error : InboundEmailIngestionStatus

-- InboundEmailIngestionLog; `source` is always POLLING, and the texts are left out.
pub record InboundEmailIngestionLog : Type 0 where
  pub status : InboundEmailIngestionStatus
  pub mailbox_uid : String
  pub application : Option ℕ
  pub notification : Option ℕ
