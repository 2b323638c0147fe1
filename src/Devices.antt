-- ===== src/Devices.antt =====
-- devices/api_views_app_token.py: identifying a device by its push token, the rotation of the token,
-- and the linking and unlinking of a device and an application. A request reads the clock once.
-- `strip` is Python's, and `meanwhile` is what other requests commit between the look-up of a token
-- and the insertion of its row.
pub mod Merge
pub mod Unique
pub mod Deliveries
pub mod Tokens
pub mod Identify
pub mod Links
pub mod Unlinking
mod Tests
use push_it_server.Prelude.{
  ℕ, ◌+◌, String, Bool, true, false, not, ◌&&◌, ◌||◌, Option, none, some, List, [], ◌∷◌, map, ◌==◌,
  str_eq, if◌then◌else◌, contains, first, select, update_where,
}
use push_it_server.Models.{
  Device, DeviceApplicationLink, DeviceTokenStatus, DevicePlatform, android, NotificationDelivery,
  QuietPeriod, UnlinkSource, takeover, device_button, inbox, Application,
}
use push_it_server.Store.{Store, save_device}

-- the validated data of a request
pub record DeviceData : Type 0 where
  pub device_name : Option String
  pub platform : Option DevicePlatform
  pub push_token : String
  pub previous_push_token : Option String

abbrev pub or_default {ℓ} : {A : Type ℓ} → Option A → A → A
or_default none x = x
or_default (some y) x = y

unfoldable pub select_existing_device : String → Store → Option Device
select_existing_device push_token s = first (λ d. str_eq d.push_token push_token) s.devices

abbrev pub is_link : ℕ → ℕ → DeviceApplicationLink → Bool
is_link device application l = (l.device == device) && (l.application == application)

abbrev pub unlink : ℕ → UnlinkSource → DeviceApplicationLink → DeviceApplicationLink
unlink now source l = record l {
  is_active = false;
  unlinked_at = some now;
  unlink_source = some source;
}

abbrev pub reactivate : DeviceApplicationLink → DeviceApplicationLink
reactivate l = record l { is_active = true; unlinked_at = none; unlink_source = none }

-- `device.user_id is not None and device.user_id != user.id`
abbrev pub is_foreign : Option ℕ → ℕ → Bool
is_foreign none user = false
is_foreign (some owner) user = not (owner == user)

abbrev pub with_fields : ℕ → ℕ → DeviceData → Device → Device
with_fields now user validated_data d = record d {
  user = some user;
  device_name = or_default validated_data.device_name "";
  platform = or_default validated_data.platform android;
  push_token_status = DeviceTokenStatus.active;
  is_active = true;
  invalidated_at = none;
  invalidation_reason = "";
  failure_count = 0;
  last_seen_at = some now;
}

-- the store after the takeover of the links, and the device with its fields, not yet saved
unfoldable pub apply_device_fields : ℕ → ℕ → DeviceData → Device → Store → Device × Store
apply_device_fields now user validated_data d s = (
  with_fields now user validated_data d,
  if is_foreign d.user user
      then record s {
        links = update_where (λ l. (l.device == d.id) && l.is_active) (unlink now takeover) s.links;
      }
      else s,
)

-- `target_links.get(link.application_id)`
abbrev pub link_to : ℕ → List DeviceApplicationLink → Option DeviceApplicationLink
link_to application ls = first (λ l. l.application == application) ls

abbrev pub move_link : ℕ → DeviceApplicationLink → DeviceApplicationLink
move_link target l = record l { device = target }

-- the body of the loop over the links of `source`
unfoldable pub merge_link :
    ℕ
    → ℕ
    → List DeviceApplicationLink
    → DeviceApplicationLink
    → List DeviceApplicationLink
    → List DeviceApplicationLink
merge_link source target target_links link ls = elim (link_to link.application target_links) [
  | none ↦ update_where (is_link source link.application) (move_link target) ls
  | some existing ↦
      if link.is_active && not existing.is_active
      then update_where (is_link target link.application) reactivate ls
      else ls
]

unfoldable pub merge_links :
    ℕ
    → ℕ
    → List DeviceApplicationLink
    → List DeviceApplicationLink
    → List DeviceApplicationLink
    → List DeviceApplicationLink
merge_links source target target_links [] ls = ls
merge_links source target target_links (link ∷ links) ls =
    merge_links source target target_links links (merge_link source target target_links link ls)

-- the links after the loop and after `source.delete()`
unfoldable pub merged_links : ℕ → ℕ → List DeviceApplicationLink → List DeviceApplicationLink
merged_links source target ls =
    select (λ l. not (l.device == source))
      (merge_links source target (select (λ l. l.device == target) ls)
        (select (λ l. l.device == source) ls) ls)

-- the deliveries after the update and after `source.delete()`
unfoldable pub merged_deliveries : ℕ → ℕ → List NotificationDelivery → List NotificationDelivery
merged_deliveries source target ds =
    let already = map (λ d. d.notification) (select (λ d. d.device == target) ds) in
    select (λ d. not (d.device == source))
      (update_where (λ d. (d.device == source) && not (contains already d.notification))
        (λ (d : NotificationDelivery). record d { device = target }) ds)

unfoldable pub merge_device_into : ℕ → ℕ → Store → Store
merge_device_into source target s = record s {
  links = merged_links source target s.links;
  deliveries = merged_deliveries source target s.deliveries;
  device_quiet_periods =
      update_where (λ q. q.owner == source) (λ (q : QuietPeriod). record q { owner = target })
        s.device_quiet_periods;
  devices = select (λ d. not (d.id == source)) s.devices;
}

-- the fields, and the save of the row
unfoldable pub apply_and_save : ℕ → ℕ → DeviceData → Device → Store → Device × Store
apply_and_save now user validated_data d s =
    let (saved, t) = apply_device_fields now user validated_data d s in (saved, save_device saved t)

-- `old` with the new token
unfoldable pub rotate_to : ℕ → ℕ → DeviceData → Device → Store → Device × Store
rotate_to now user validated_data old s =
    apply_and_save now user validated_data (record old { push_token = validated_data.push_token }) s

-- `device.user_id == user.id`
abbrev pub belongs_to : ℕ → Device → Bool
belongs_to user d = elim d.user [ none ↦ false | some owner ↦ owner == user ]

unfoldable pub rotate_row : ℕ → ℕ → DeviceData → Device → Store → Option (Device × Store)
rotate_row now user validated_data old s =
    elim (select_existing_device validated_data.push_token s) [
      | none ↦ some (rotate_to now user validated_data old s)
      | some clash ↦
          if is_foreign clash.user user
          then none
          else some (rotate_to now user validated_data old (merge_device_into clash.id old.id s))
    ]

module _ (strip : String → String) (now user : ℕ) (validated_data : DeviceData) where
  unfoldable pub previous_token : String
  previous_token = strip (or_default validated_data.previous_push_token "")

  unfoldable pub rotate_push_token : Store → Option (Device × Store)
  rotate_push_token s =
      if str_eq previous_token "" || str_eq previous_token validated_data.push_token
      then none
      else elim (select_existing_device previous_token s) [
        | none ↦ none
        | some old ↦ if belongs_to user old then rotate_row now user validated_data old s else none
      ]

  -- `Device(push_token=push_token)`, with the key it is to be inserted with
  abbrev pub fresh_device : ℕ → Device
  fresh_device id = record {
    id = id;
    user = none;
    device_name = "";
    platform = android;
    push_token = validated_data.push_token;
    push_token_status = DeviceTokenStatus.active;
    last_seen_at = none;
    created_at = now;
    is_active = true;
    invalidated_at = none;
    invalidation_reason = "";
    failure_count = 0;
  }

  abbrev pub insert_device : Store → Device × Store
  insert_device s =
      let saved = with_fields now user validated_data (fresh_device s.next_device) in
      (saved, record s { devices = saved ∷ s.devices; next_device = s.next_device + 1 })

  -- the insertion, or after its IntegrityError the update of the row that is there by now
  unfoldable pub insert_or_update : Store → (Device × Bool) × Store
  insert_or_update s = elim (select_existing_device validated_data.push_token s) [
    | none ↦ let (d, t) = insert_device s in ((d, true), t)
    | some device ↦ let (d, t) = apply_and_save now user validated_data device s in ((d, false), t)
  ]

  unfoldable pub upsert_authenticated_device : (Store → Store) → Store → (Device × Bool) × Store
  upsert_authenticated_device meanwhile s = elim (rotate_push_token s) [
    | some (d, t) ↦ ((d, false), t)
    | none ↦ elim (select_existing_device validated_data.push_token s) [
      | some device ↦
          let (d, t) = apply_and_save now user validated_data device s in ((d, false), t)
      | none ↦ insert_or_update (meanwhile s)
    ]
  ]

abbrev pub new_link : ℕ → ℕ → DeviceApplicationLink
new_link device application = record {
  device = device;
  application = application;
  is_active = true;
  unlinked_at = none;
  unlink_source = none;
}

-- The transaction of DeviceLinkWithAppTokenApiView.post; true where it creates the link.
unfoldable pub link_device : ℕ → ℕ → Store → Store × Bool
link_device device application s = elim (first (is_link device application) s.links) [
  | none ↦ (record s { links = new_link device application ∷ s.links }, true)
  | some l ↦
      if not l.is_active
      then (
        record s { links = update_where (is_link device application) reactivate s.links },
        false,
      )
      else (s, false)
]

-- The change that DeviceUnlinkWithAppTokenApiView (device_button) and DeviceUnlinkByApplicationApiView
-- (inbox) make: the identifier of the device where there is one, and whether a link was undone.
unfoldable pub unlink_device : UnlinkSource → ℕ → ℕ → String → ℕ → Store → Store × Option ℕ × Bool
unlink_device source now user push_token application s =
    elim (first (λ d. str_eq d.push_token push_token && belongs_to user d) s.devices) [
      | none ↦ (s, none, false)
      | some device ↦ elim (first (λ l. is_link device.id application l && l.is_active) s.links) [
        | none ↦ (s, some device.id, false)
        | some l ↦ (
          record s {
            links = update_where (is_link device.id application) (unlink now source) s.links;
          },
          some device.id,
          true,
        )
      ]
    ]
