-- ===== src/Retention.antt =====
-- notifications/retention.py: the daily purge of old personal data. A deletion takes along the rows
-- whose foreign key cascades. The files of images are named, not deleted.
pub mod Laws
mod Tests
use push_it_server.Prelude.{
  ℕ, ◌-◌, ◌*◌, String, Bool, true, false, not, ◌&&◌, ◌||◌, Option, none, some, List, [], ◌∷◌, map,
  ltb, if◌then◌else◌, contains, select, str_eq, length,
}
use push_it_server.Models.{
  Notification, NotificationStatus, NotificationDelivery, Device, DeviceTokenStatus,
}
use push_it_server.Store.{Store}

abbrev day : ℕ
day = 86400000000

-- RETENTION_NOTIFICATION_DAYS and RETENTION_INVALID_DEVICE_DAYS
pub record RetentionSettings : Type 0 where
  pub notification_days : ℕ
  pub invalid_device_days : ℕ

-- the statuses that are kept whatever their age
pub is_underway : NotificationStatus → Bool
is_underway NotificationStatus.scheduled = true
is_underway NotificationStatus.queued = true
is_underway NotificationStatus.processing = true
is_underway _ = false

pub is_expired : ℕ → Notification → Bool
is_expired notif_cutoff n = ltb n.created_at notif_cutoff && not (is_underway n.status)

abbrev pub is_dead_token : DeviceTokenStatus → Bool
is_dead_token DeviceTokenStatus.invalid = true
is_dead_token DeviceTokenStatus.revoked = true
is_dead_token _ = false

pub is_expired_device : ℕ → Device → Bool
is_expired_device device_cutoff v = is_dead_token v.push_token_status && elim v.invalidated_at [
  | none ↦ ltb v.created_at device_cutoff
  | some invalidated_at ↦ ltb invalidated_at device_cutoff
]

unfoldable pub delete_notifications : ℕ → Store → Store
delete_notifications notif_cutoff s =
    let gone = map (λ n. n.id) (select (is_expired notif_cutoff) s.notifications) in
    record s {
      notifications = select (λ n. not (is_expired notif_cutoff n)) s.notifications;
      deliveries = select (λ d. not (contains gone d.notification)) s.deliveries;
    }

unfoldable pub delete_devices : ℕ → Store → Store
delete_devices device_cutoff s =
    let gone = map (λ v. v.id) (select (is_expired_device device_cutoff) s.devices) in
    record s {
      devices = select (λ v. not (is_expired_device device_cutoff v)) s.devices;
      deliveries = select (λ d. not (contains gone d.device)) s.deliveries;
      links = select (λ l. not (contains gone l.device)) s.links;
      device_quiet_periods = select (λ q. not (contains gone q.owner)) s.device_quiet_periods;
    }

pub image_names : List Notification → List String
image_names [] = []
image_names (n ∷ ns) =
    let rest = image_names ns in
    elim n.image [ none ↦ rest | some name ↦ if str_eq name "" then rest else name ∷ rest ]

-- the store, and the names of the image files to delete once it is committed
unfoldable pub purge_expired_personal_data : RetentionSettings → ℕ → Store → Store × List String
purge_expired_personal_data settings now s =
    let notif_cutoff = now - settings.notification_days * day in
    let device_cutoff = now - settings.invalid_device_days * day in
    (
      delete_devices device_cutoff (delete_notifications notif_cutoff s),
      image_names (select (is_expired notif_cutoff) s.notifications),
    )
