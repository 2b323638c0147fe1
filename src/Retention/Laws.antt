-- ===== src/Retention/Laws.antt =====
-- What the purge of notifications/retention.py keeps.
use push_it_server.Prelude.{
  ℕ, ◌-◌, ◌*◌, ◌≡◌, refl, sym, inl, inr, Bool, true, false, not, List, [], ◌∷◌, map, arith,
  contains, select, All, In, Bool-cases,
}
use push_it_server.Models.{Notification}
use push_it_server.Store.{Store}
use push_it_server.Retention.{
  RetentionSettings, is_underway, is_expired, is_expired_device, delete_notifications,
  delete_devices, purge_expired_personal_data,
}

-- The foreign keys of the deliveries and of the links are met.
pub record AreReferential (s : Store) : Type 0 where
  pub notifications :
      All (λ d. contains (map (λ n. n.id) s.notifications) d.notification ≡ true) s.deliveries
  pub devices : All (λ d. contains (map (λ v. v.id) s.devices) d.device ≡ true) s.deliveries
  pub links : All (λ l. contains (map (λ v. v.id) s.devices) l.device ≡ true) s.links

module _ {A : Type 0} (key : A → ℕ) (gone : A → Bool) where
  -- a key that is there, and is of no row that goes, is of a row that stays
  contains-stays :
      (k : ℕ) (xs : List A)
      → contains (map key xs) k ≡ true
      → contains (map key (select gone xs)) k ≡ false
      → contains (map key (select (λ x. not (gone x)) xs)) k ≡ true
  unfolding contains
  contains-stays k [] h u = h
  contains-stays k (x ∷ xs) h u = ground (arith, contains-stays k xs)

  All-cascade :
      {B : Type 0} (foreign : B → ℕ) (xs : List A) (bs : List B)
      → All (λ b. contains (map key xs) (foreign b) ≡ true) bs
      → All
          (λ b. contains (map key (select (λ x. not (gone x)) xs)) (foreign b) ≡ true)
          (select (λ b. not (contains (map key (select gone xs)) (foreign b))) bs)
  All-cascade foreign xs [] a = tt
  All-cascade foreign xs (b ∷ bs) a =
      elim (Bool-cases (contains (map key (select gone xs)) (foreign b))) [
        | inl e ↦ rw e (All-cascade foreign xs bs a.1)
        | inr e ↦ rw e (contains-stays (foreign b) xs a.0 e, All-cascade foreign xs bs a.1)
      ]

All-select :
    {B : Type 0} (P : B → Type 0) (p : B → Bool) (bs : List B) → All P bs → All P (select p bs)
All-select P p [] a = tt
All-select P p (b ∷ bs) a = elim (Bool-cases (p b)) [
  | inl e ↦ rw e (a.0, All-select P p bs a.1)
  | inr e ↦ rw e (All-select P p bs a.1)
]

In-select :
    {B : Type 0} (p : B → Bool) (b : B) (bs : List B) → In b bs → p b ≡ true → In b (select p bs)
In-select p b [] i h = i
In-select p b (x ∷ bs) (inl e) h = rw (sym e, h) (inl refl)
In-select p b (x ∷ bs) (inr i) h = elim (Bool-cases (p x)) [
  | inl e ↦ rw e (inr (In-select p b bs i h))
  | inr e ↦ rw e (In-select p b bs i h)
]

delete_notifications-AreReferential :
    (cutoff : ℕ) (s : Store) → AreReferential s → AreReferential (delete_notifications cutoff s)
unfolding delete_notifications
delete_notifications-AreReferential cutoff s r = record {
  notifications =
      All-cascade (λ n. n.id) (is_expired cutoff) (λ d. d.notification) s.notifications s.deliveries
        r.notifications;
  devices =
      All-select (λ d. contains (map (λ v. v.id) s.devices) d.device ≡ true)
        (λ d.
          not (
            contains (map (λ n. n.id) (select (is_expired cutoff) s.notifications)) d.notification))
        s.deliveries r.devices;
  links = r.links;
}

delete_devices-AreReferential :
    (cutoff : ℕ) (s : Store) → AreReferential s → AreReferential (delete_devices cutoff s)
unfolding delete_devices
delete_devices-AreReferential cutoff s r = record {
  notifications =
      All-select (λ d. contains (map (λ n. n.id) s.notifications) d.notification ≡ true)
        (λ d.
          not (contains (map (λ v. v.id) (select (is_expired_device cutoff) s.devices)) d.device))
        s.deliveries r.notifications;
  devices =
      All-cascade (λ v. v.id) (is_expired_device cutoff) (λ d. d.device) s.devices s.deliveries
        r.devices;
  links =
      All-cascade (λ v. v.id) (is_expired_device cutoff) (λ l. l.device) s.devices s.links r.links;
}

-- The purge keeps every notification that is scheduled, queued or being sent, whatever its age, and
-- it leaves no delivery and no link without its notification or its device.
pub purge_expired_personal_data-AreReferential :
    (settings : RetentionSettings) (now : ℕ) (s : Store) (n : Notification)
    → AreReferential s
    → In n s.notifications
    → is_underway n.status ≡ true
    → In n (purge_expired_personal_data settings now s).0.notifications
      × AreReferential (purge_expired_personal_data settings now s).0
unfolding purge_expired_personal_data delete_devices delete_notifications is_expired
purge_expired_personal_data-AreReferential settings now s n r i h =
    let notif_cutoff = now - settings.notification_days * 86400000000 in
    let device_cutoff = now - settings.invalid_device_days * 86400000000 in
    (
      In-select (λ m. not (is_expired notif_cutoff m)) n s.notifications i (ground arith),
      delete_devices-AreReferential device_cutoff (delete_notifications notif_cutoff s)
          (delete_notifications-AreReferential notif_cutoff s r),
    )
