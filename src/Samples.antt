-- ===== src/Samples.antt =====
-- Rows and settings on which the tests run the code: one application with two linked devices.
use push_it_server.Prelude.{ℕ, ◌+◌, ◌-◌, ◌*◌, ◌/◌, ◌%◌, String, true, false, none, some, [], ◌∷◌}
use push_it_server.Models.{
  Notification, NotificationStatus, Device, DeviceApplicationLink, Application, DeviceTokenStatus,
  android, QuietPeriod, once, recurring, User, mode_owner,
}
use push_it_server.Scheduling.{Zone}
use push_it_server.Store.{Store}
use push_it_server.Push.{PushSettings, hybrid, message_id}
use push_it_server.Billing.{BillingSettings}
use push_it_server.Sending.{Env}

abbrev pub day : ℕ
day = 86400000000

abbrev pub hour : ℕ
hour = 3600000000

-- the zone with no offset; the instant 0 is midnight on the date with ordinal 1
abbrev pub utc : Zone
utc = record {
  local_date = λ at. at / day + 1;
  local_time = λ at. at % day;
  aware = λ date time. (date - 1) * day + time;
}

abbrev pub once_period : ℕ → ℕ → ℕ → QuietPeriod
once_period owner start_at end_at = record {
  owner = owner;
  name = "";
  period_type = once;
  start_at = some start_at;
  end_at = some end_at;
  recurrence_days = [];
  start_time = none;
  end_time = none;
  is_active = true;
}

-- from 22:00 to 06:00, beginning on Mondays
abbrev pub night_period : QuietPeriod
night_period = record {
  owner = 1;
  name = "night";
  period_type = recurring;
  start_at = none;
  end_at = none;
  recurrence_days = 0 ∷ [];
  start_time = some (22 * hour);
  end_time = some (6 * hour);
  is_active = true;
}

abbrev pub alice : User
alice = record {
  id = 1;
  email = "alice@example.com";
  subscription_bypass = false;
  subscription = none;
}

abbrev pub app_one : Application
app_one = record {
  id = 1;
  owner = alice;
  name = "Door bell";
  app_token_prefix = "apt_legacy00";
  app_token_hash = "#apt_legacy";
  enrolment_code = "apk_one";
  enrolment_code_rotated_at = none;
  webhook_url = "https://example.com/hook";
  webhook_secret = "whs_secret";
  inbound_email_alias = "door-bell-3f9a2c1b.pushit";
  inbound_sender_mode = mode_owner;
  inbound_sender_allowlist = [];
  inbound_sender_blocklist = [];
  inbound_rejection_notify_email = true;
  inbound_rejection_notify_push = false;
  inbound_rejection_reply_to_sender = false;
  is_active = true;
  revoked_at = none;
  last_used_at = none;
}

abbrev pub device_at : ℕ → String → Device
device_at id push_token = record {
  id = id;
  user = some 1;
  device_name = "";
  platform = android;
  push_token = push_token;
  push_token_status = DeviceTokenStatus.active;
  last_seen_at = none;
  created_at = 0;
  is_active = true;
  invalidated_at = none;
  invalidation_reason = "";
  failure_count = 0;
}

abbrev pub link_of : ℕ → DeviceApplicationLink
link_of device = record {
  device = device;
  application = 1;
  is_active = true;
  unlinked_at = none;
  unlink_source = none;
}

abbrev pub bell : Notification
bell = record {
  id = 7;
  application = 1;
  title = "Ring";
  message = "Somebody is at the door";
  image = none;
  status = NotificationStatus.queued;
  created_at = 0;
  scheduled_for = none;
  sent_at = none;
  processing_started_at = none;
  idempotency_key = "";
  request_fingerprint = "";
  is_visible = true;
}

abbrev pub store_one : Store
store_one = record {
  notifications = bell ∷ [];
  next_notification = 8;
  deliveries = [];
  next_delivery = 1;
  devices = device_at 1 "token-one" ∷ device_at 2 "token-two" ∷ [];
  next_device = 3;
  links = link_of 1 ∷ link_of 2 ∷ [];
  applications = app_one ∷ [];
  application_quiet_periods = [];
  device_quiet_periods = [];
  tasks = [];
  callbacks = [];
  pushes = [];
}

abbrev pub no_billing : BillingSettings
no_billing = record { base_url = ""; app_secret = "" }

abbrev pub with_billing : BillingSettings
with_billing = record { base_url = "https://billing.example.com"; app_secret = "secret" }

abbrev pub push_to_fcm : PushSettings
push_to_fcm = record {
  force_mock_push = false;
  service_account_path = "/etc/fcm.json";
  delivery_mode = hybrid;
}

abbrev pub env_one : Env
env_one = record {
  now = 1000;
  clock = λ d. 1000 + d.id;
  finished = 2000;
  locked = λ id. false;
  zone = utc;
  billing = no_billing;
  push_settings = push_to_fcm;
  fcm = λ m. message_id m.token;
}
