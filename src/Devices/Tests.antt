-- ===== src/Devices/Tests.antt =====
-- Requests of devices/api_views_app_token.py at concrete rows.
use push_it_server.Prelude.{
  String, ◌≡◌, refl, ◌⊎◌, true, false, ◌&&◌, ◌||◌, none, some, List, [], ◌∷◌, ◌==◌, first, All,
}
use push_it_server.Models.{Device, NotificationDelivery, android, inbox}
use push_it_server.Store.{Store}
use push_it_server.Samples.{store_one, device_at, link_of}
use push_it_server.Targets.{has_delivery, new_delivery}
use push_it_server.Devices.{
  DeviceData, upsert_authenticated_device, rotate_push_token, previous_token,
  select_existing_device, merged_links, merged_deliveries, unlink_device,
}
use push_it_server.Devices.Merge.{find_link, combine, merged_links_lem}
use push_it_server.Devices.Unique.{IsTidy}
use push_it_server.Devices.Deliveries.{merged_deliveries_lem}
use push_it_server.Devices.Tokens.{AreKeyed}
use push_it_server.Devices.Identify.{IsIdentified, upsert_authenticated_device-IsIdentified}
use push_it_server.Devices.Links.{
  upsert_authenticated_device-IsTidy, upsert_authenticated_device_taken_over,
}
use push_it_server.Devices.Unlinking.{unlink_device_lem, Unlinked, has_token}

abbrev same_text : String → String
same_text s = s

-- the second device's token is renewed to one that the first device has got meanwhile
abbrev renewed : DeviceData
renewed = record {
  device_name = some "phone";
  platform = some android;
  push_token = "token-one";
  previous_push_token = some "token-two";
}

-- user 9 identifies the first device, which is user 1's
abbrev taken : DeviceData
taken = record {
  device_name = none;
  platform = none;
  push_token = "token-one";
  previous_push_token = none;
}

abbrev nothing_else : Store → Store
nothing_else s = s

store_one-AreKeyed : AreKeyed store_one.devices
store_one-AreKeyed = (((refl, refl), tt), (tt, tt))

store_one-IsTidy : IsTidy store_one.links
store_one-IsTidy = record {
  distinct = (refl, (refl, tt));
  clean = ((λ e. (refl, refl)), ((λ e. (refl, refl)), tt));
}

upsert_authenticated_device-IsIdentified_example :
    let r = upsert_authenticated_device same_text 50 1 renewed nothing_else store_one in
    IsIdentified 1 "token-one" r.0.0 r.1
upsert_authenticated_device-IsIdentified_example =
    upsert_authenticated_device-IsIdentified 50 1 renewed same_text nothing_else store_one
      store_one-AreKeyed

upsert_authenticated_device-IsTidy_example :
    IsTidy (upsert_authenticated_device same_text 50 1 renewed nothing_else store_one).1.links
upsert_authenticated_device-IsTidy_example =
    upsert_authenticated_device-IsTidy 50 1 renewed same_text nothing_else store_one
      store_one-IsTidy store_one-IsTidy

not_rotated : rotate_push_token same_text 50 9 taken store_one ≡ none
unfolding rotate_push_token previous_token
not_rotated = refl

held_by_one : select_existing_device "token-one" store_one ≡ some (device_at 1 "token-one")
unfolding select_existing_device
held_by_one = refl

upsert_authenticated_device_taken_over_example :
    let t = (upsert_authenticated_device same_text 50 9 taken nothing_else store_one).1 in
    (true ≡ true → first (λ l. (l.device == 1) && l.is_active) t.links ≡ none)
    × (true ≡ false → t.links ≡ store_one.links)
upsert_authenticated_device_taken_over_example =
    upsert_authenticated_device_taken_over 50 9 taken same_text nothing_else
      (device_at 1 "token-one") store_one not_rotated held_by_one

merged_links_lem_example :
    find_link 2 1 (merged_links 1 2 store_one.links)
    ≡ combine 2 (some (link_of 2)) (some (link_of 1))
merged_links_lem_example = merged_links_lem 1 2 store_one.links (refl, (refl, tt)) refl 1

abbrev two_deliveries : List NotificationDelivery
two_deliveries = new_delivery 1 7 1 ∷ new_delivery 2 8 1 ∷ new_delivery 3 7 2 ∷ []

merged_deliveries_lem_example :
    has_delivery 8 2 (merged_deliveries 1 2 two_deliveries)
    ≡ (has_delivery 8 2 two_deliveries || has_delivery 8 1 two_deliveries)
merged_deliveries_lem_example = merged_deliveries_lem 1 2 8 two_deliveries refl

unlink_device_lem_example :
    let (t, found, unlinked) = unlink_device inbox 60 1 "token-two" 1 store_one in
    ((found ≡ none)
      × (unlinked ≡ false)
      × (t ≡ store_one)
      × All (λ d. has_token 1 "token-two" d ≡ false) store_one.devices)
    ⊎ ((d : Device) × (found ≡ some d.id) × Unlinked 1 "token-two" 1 store_one t unlinked d)
unlink_device_lem_example = unlink_device_lem inbox 60 1 "token-two" 1 store_one
