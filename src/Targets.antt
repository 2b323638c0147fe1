-- ===== src/Targets.antt =====
-- The devices and the deliveries of a notification in notifications/services.py: the rows that a pass
-- goes over.
pub mod Rows
use push_it_server.Prelude.{
  is_empty, ℕ, ◌+◌, Bool, true, false, not, ◌&&◌, ◌||◌, Option, none, some, List, [], ◌∷◌, map, ltb,
  ◌==◌, if◌then◌else◌, contains, select,
}
use push_it_server.Models.{
  Notification, NotificationDelivery, Device, DeviceApplicationLink, DeliveryStatus,
}
use push_it_server.Store.{Store, get_device}
use push_it_server.Delivery.{is_active_token}

-- the devices with an active link to an application
unfoldable pub linked_to : ℕ → Store → List ℕ
linked_to application s =
    map (λ l. l.device) (select (λ l. (l.application == application) && l.is_active) s.links)

pub get_target_devices_for_notification : Notification → Store → List Device
get_target_devices_for_notification n s =
    select (λ v. contains (linked_to n.application s) v.id && is_active_token v.push_token_status)
      s.devices

-- `.order_by("device_id")`
insert_by_device : NotificationDelivery → List NotificationDelivery → List NotificationDelivery
insert_by_device d [] = d ∷ []
insert_by_device d (e ∷ es) =
    if ltb e.device d.device then e ∷ insert_by_device d es else d ∷ e ∷ es

pub order_by_device : List NotificationDelivery → List NotificationDelivery
order_by_device [] = []
order_by_device (d ∷ ds) = insert_by_device d (order_by_device ds)

-- `.select_related("device")`
pub with_devices : Store → List NotificationDelivery → List (NotificationDelivery × Device)
with_devices s [] = []
with_devices s (d ∷ ds) =
    let rest = with_devices s ds in
    elim (get_device d.device s) [ none ↦ rest | some v ↦ (d, v) ∷ rest ]

pub deliveries_of : ℕ → Store → List NotificationDelivery
deliveries_of id s = select (λ d. d.notification == id) s.deliveries

pub existing_deliveries : ℕ → Store → List (NotificationDelivery × Device)
existing_deliveries id s = with_devices s (order_by_device (deliveries_of id s))

abbrev pub new_delivery : ℕ → ℕ → ℕ → NotificationDelivery
new_delivery id notification device = record {
  id = id;
  notification = notification;
  device = device;
  status = DeliveryStatus.pending;
  provider_message_id = "";
  error_message = "";
  sent_at = none;
  delivered_at = none;
  opened_at = none;
  attempt_count = 0;
  last_attempt_at = none;
  next_retry_at = none;
}

-- a row that breaks the constraint uniq_notification_device is there already
unfoldable pub has_delivery : ℕ → ℕ → List NotificationDelivery → Bool
has_delivery notification device [] = false
has_delivery notification device (d ∷ ds) =
    ((d.notification == notification) && (d.device == device))
    || has_delivery notification device ds

-- one row of `bulk_create(..., ignore_conflicts=True)`
unfoldable pub create_delivery : ℕ → Device → Store → Store
create_delivery notification v s =
    if has_delivery notification v.id s.deliveries then s else record s {
      deliveries = new_delivery s.next_delivery notification v.id ∷ s.deliveries;
      next_delivery = s.next_delivery + 1;
    }

unfoldable pub create_missing : ℕ → List Device → Store → Store
create_missing notification [] s = s
create_missing notification (v ∷ vs) s =
    create_missing notification vs (create_delivery notification v s)

unfoldable pub get_target_deliveries_for_notification :
    Notification → Store → List (NotificationDelivery × Device) × Store
get_target_deliveries_for_notification n s =
    let existing = existing_deliveries n.id s in
    let devices = get_target_devices_for_notification n s in
    let created = create_missing n.id devices s in
    if not (is_empty existing)
    then (existing, s)
    else if is_empty devices
    then ([], s)
    else (existing_deliveries n.id created, created)
