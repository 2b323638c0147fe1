-- ===== src/Store.antt =====
-- The database that the workers share, and what they send out of it. A table is the list of its
-- rows by primary key.
pub mod Rows
use push_it_server.Prelude.{
  ℕ, String, Bool, Option, List, ◌∷◌, ◌==◌, str_eq, first, select, update_where, if◌then◌else◌,
}
use push_it_server.Models.{
  Notification, NotificationStatus, NotificationDelivery, Device, DeviceApplicationLink,
  Application, QuietPeriod,
}

pub record Store : Type 0 where
  pub notifications : List Notification
  pub next_notification : ℕ  -- the primary key of the next notification
  pub deliveries : List NotificationDelivery
  pub next_delivery : ℕ  -- the primary key of the next delivery
  pub devices : List Device
  pub next_device : ℕ
  pub links : List DeviceApplicationLink
  pub applications : List Application
  pub application_quiet_periods : List QuietPeriod
  pub device_quiet_periods : List QuietPeriod
  -- what has been sent out, the last first: `send_notification_task.delay`, webhook callbacks, and
  -- the deliveries for which the push provider was called
  pub tasks : List ℕ
  pub callbacks : List (ℕ × NotificationStatus × Option ℕ)
  pub pushes : List ℕ

unfoldable pub get_notification : ℕ → Store → Option Notification
get_notification id s = first (λ n. n.id == id) s.notifications

unfoldable pub get_application : ℕ → Store → Option Application
get_application id s = first (λ a. a.id == id) s.applications

pub get_device : ℕ → Store → Option Device
get_device id s = first (λ d. d.id == id) s.devices

-- `Notification.objects.filter(id=id).update(...)`
unfoldable pub update_notification : ℕ → (Notification → Notification) → Store → Store
update_notification id f s = record s {
  notifications = update_where (λ n. n.id == id) f s.notifications;
}

-- `delivery.save(update_fields=...)`
unfoldable pub save_delivery : NotificationDelivery → Store → Store
save_delivery d s = record s {
  deliveries = update_where (λ row. row.id == d.id) (λ _. d) s.deliveries;
}

-- `device.save(update_fields=...)`
unfoldable pub save_device : Device → Store → Store
save_device d s = record s { devices = update_where (λ row. row.id == d.id) (λ _. d) s.devices }

-- `send_notification_task.delay(id)`
unfoldable pub enqueue : ℕ → Store → Store
enqueue id s = record s { tasks = id ∷ s.tasks }

-- `send_webhook_callback` of notifications/webhooks.py: nothing without a URL
unfoldable pub send_webhook_callback :
    Application → ℕ → NotificationStatus → Option ℕ → Store → Store
send_webhook_callback application id final_status sent_at s =
    if str_eq application.webhook_url ""
    then s
    else record s { callbacks = (id, final_status, sent_at) ∷ s.callbacks }
