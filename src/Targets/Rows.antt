-- ===== src/Targets/Rows.antt =====
-- The deliveries that a pass creates (notifications/services.py).
use push_it_server.Prelude.{
  ℕ, suc, ◌≤◌, ◌≡◌, refl, true, false, ◌&&◌, List, [], ◌∷◌, arith, In, inl, inr, ◌==◌,
  if◌then◌else◌,
}
use push_it_server.Models.{NotificationDelivery, Device}
use push_it_server.Store.{Store}
use push_it_server.Targets.{has_delivery, create_delivery, create_missing}

-- how many rows there are for a notification and a device
abbrev pub count_rows : ℕ → ℕ → List NotificationDelivery → ℕ
count_rows notification device [] = 0
count_rows notification device (d ∷ ds) =
    let rest = count_rows notification device ds in
    if (d.notification == notification) && (d.device == device) then suc rest else rest

-- The constraint uniq_notification_device.
abbrev pub AreUnique : List NotificationDelivery → Type 0
AreUnique ds = (notification device : ℕ) → count_rows notification device ds ≤ 1

pub has_delivery-count_rows :
    (notification device : ℕ) (ds : List NotificationDelivery)
    → has_delivery notification device ds ≡ false
    → count_rows notification device ds ≡ 0
unfolding has_delivery
has_delivery-count_rows notification device [] h = refl
has_delivery-count_rows notification device (d ∷ ds) h =
    ground (arith, has_delivery-count_rows notification device ds)

pub count_rows-has_delivery :
    (notification device : ℕ) (ds : List NotificationDelivery)
    → has_delivery notification device ds ≡ true
    → 1 ≤ count_rows notification device ds
unfolding has_delivery
count_rows-has_delivery notification device [] h = cc
count_rows-has_delivery notification device (d ∷ ds) h =
    ground (arith, count_rows-has_delivery notification device ds)

create_delivery-AreUnique :
    (notification : ℕ) (v : Device) (s : Store)
    → AreUnique s.deliveries
    → AreUnique (create_delivery notification v s).deliveries
unfolding create_delivery
create_delivery-AreUnique notification v s h n d =
    ground (arith, h n d, has_delivery-count_rows notification v.id s.deliveries)

-- the row of the device is there once it is created, and stays
create_delivery_le :
    (notification device k : ℕ) (v : Device) (s : Store)
    → k ≤ count_rows notification device s.deliveries
    → k ≤ count_rows notification device (create_delivery notification v s).deliveries
unfolding create_delivery
create_delivery_le notification device k v s h = ground arith

create_delivery_made :
    (notification : ℕ) (v : Device) (s : Store)
    → 1 ≤ count_rows notification v.id (create_delivery notification v s).deliveries
unfolding create_delivery
create_delivery_made notification v s =
    ground (arith, count_rows-has_delivery notification v.id s.deliveries)

create_missing_le :
    (notification device k : ℕ) (vs : List Device) (s : Store)
    → k ≤ count_rows notification device s.deliveries
    → k ≤ count_rows notification device (create_missing notification vs s).deliveries
unfolding create_missing
create_missing_le notification device k [] s h = h
create_missing_le notification device k (v ∷ vs) s h =
    create_missing_le notification device k vs (create_delivery notification v s)
      (create_delivery_le notification device k v s h)

create_missing-AreUnique :
    (notification : ℕ) (vs : List Device) (s : Store)
    → AreUnique s.deliveries
    → AreUnique (create_missing notification vs s).deliveries
unfolding create_missing
create_missing-AreUnique notification [] s h = h
create_missing-AreUnique notification (v ∷ vs) s h =
    create_missing-AreUnique notification vs (create_delivery notification v s)
      (create_delivery-AreUnique notification v s h)

create_missing_made :
    (notification : ℕ) (vs : List Device) (s : Store) (v : Device)
    → In v vs
    → 1 ≤ count_rows notification v.id (create_missing notification vs s).deliveries
unfolding create_missing
create_missing_made notification [] s v i = elim i [ ]
create_missing_made notification (w ∷ vs) s v (inl e) = rw e (
    create_missing_le notification w.id 1 vs (create_delivery notification w s)
      (create_delivery_made notification w s))
create_missing_made notification (w ∷ vs) s v (inr i) =
    create_missing_made notification vs (create_delivery notification w s) v i

-- Creating the missing deliveries of a notification keeps at most one row for each notification and
-- device, and afterwards each of the given devices has exactly one, also where another worker has
-- created some of them.
pub create_missing_exact :
    (notification : ℕ) (vs : List Device) (s : Store)
    → AreUnique s.deliveries
    → AreUnique (create_missing notification vs s).deliveries
      × ((v : Device)
          → In v vs
          → count_rows notification v.id (create_missing notification vs s).deliveries ≡ 1)
create_missing_exact notification vs s h =
    let unique = create_missing-AreUnique notification vs s h in
    (
      unique,
      λ v i. omega (arith, unique notification v.id, create_missing_made notification vs s v i),
    )
