-- ===== src/Views/Receipts.antt =====
-- The receipt that a recipient sends on opening a notification: NotificationOpenedReceiptApiView of
-- notifications/api_views.py.
use push_it_server.Prelude.{
  ℕ, ◌≡◌, refl, sym, ap, subst, ◌∙◌, inl, inr, String, Bool, true, ◌&&◌, Option, none, some, List,
  [], ◌∷◌, ◌==◌, str_eq, first, update_where, is_some, arith, Bool-cases, Option-cases,
}
use push_it_server.Models.{NotificationDelivery}
use push_it_server.Store.{Store, save_delivery}
use push_it_server.Devices.{belongs_to}
use push_it_server.Views.{open_delivery, opened_receipt, or_now}

abbrev is_of : ℕ → ℕ → NotificationDelivery → Bool
is_of pk device d = (d.notification == pk) && (d.device == device)

first-saved :
    (pk device : ℕ) (saved d : NotificationDelivery) (ds : List NotificationDelivery)
    → first (is_of pk device) ds ≡ some d
    → saved.id ≡ d.id
    → saved.notification ≡ d.notification
    → saved.device ≡ d.device
    → first (is_of pk device) (update_where (λ row. row.id == saved.id) (λ row. saved) ds)
      ≡ some saved
first-saved pk device saved d [] h i n v = absurd (ground arith)
first-saved pk device saved d (r ∷ ds) h i n v = elim (Bool-cases (is_of pk device r)) [
  | inl e ↦
      let same : r ≡ d = ground arith in
      let k : r.id ≡ d.id = ap (λ (x : NotificationDelivery). x.id) same in
      let p : r.notification ≡ d.notification =
        ap (λ (x : NotificationDelivery). x.notification) same in
      let q : r.device ≡ d.device = ap (λ (x : NotificationDelivery). x.device) same in
      ground (arith, k, p, q)
  | inr e ↦ ground (arith, first-saved pk device saved d ds, matched pk device d (r ∷ ds) h)
]
  where
    matched :
        (pk device : ℕ) (d : NotificationDelivery) (ds : List NotificationDelivery)
        → first (is_of pk device) ds ≡ some d
        → is_of pk device d ≡ true
    matched pk device d [] h = absurd (ground arith)
    matched pk device d (r ∷ ds) h = elim (Bool-cases (is_of pk device r)) [
      | inl e ↦ let same : r ≡ d = ground arith in ap (is_of pk device) (sym same) ∙ e
      | inr e ↦ matched pk device d ds (ground arith)
    ]

saved_twice :
    (saved : NotificationDelivery) (ds : List NotificationDelivery)
    → update_where
        (λ row. row.id == saved.id)
        (λ row. saved)
        (update_where (λ row. row.id == saved.id) (λ row. saved) ds)
      ≡ update_where (λ row. row.id == saved.id) (λ row. saved) ds
saved_twice saved [] = refl
saved_twice saved (r ∷ ds) = ground (arith, saved_twice saved ds)

opened_for_good :
    (now later : ℕ) (d : NotificationDelivery)
    → open_delivery later (open_delivery now d) ≡ open_delivery now d
opened_for_good now later d = ground arith

-- the store after the saving of a delivery, and the answer
abbrev receipt : NotificationDelivery → Store → Store × Option ℕ
receipt d s = (save_delivery d s, d.opened_at)

abbrev answered : NotificationDelivery → Store → List NotificationDelivery → Store × Option ℕ
answered d s ds = (record s { deliveries = ds }, d.opened_at)

-- A receipt records an instant, and a later one for the same notification and device changes nothing
-- and answers the first instant again.
pub opened_receipt_twice :
    (now later user : ℕ) (push_token : String) (pk : ℕ) (s t : Store) (at : Option ℕ)
    → opened_receipt now user push_token pk s ≡ some (t, at)
    → (is_some at ≡ true) × (opened_receipt later user push_token pk t ≡ some (t, at))
unfolding opened_receipt save_delivery
opened_receipt_twice now later user push_token pk s t at h =
    elim (Option-cases
      (first (λ d. belongs_to user d && str_eq d.push_token push_token) s.devices)) [
        | inl e ↦ absurd (ground arith)
        | inr (device, e) ↦ elim (Option-cases (first (is_of pk device.id) s.deliveries)) [
          | inl f ↦ absurd (ground arith)
          | inr (d, f) ↦
              let opened = open_delivery now d in
              let same : receipt opened s ≡ (t, at) = ground arith in
              subst
                (λ (x : Store × Option ℕ).
                  (is_some x.1 ≡ true)
                  × (opened_receipt later user push_token pk x.0 ≡ some (x.0, x.1)))
                same
                (
                  stamped now d.opened_at,
                  rw
                      (
                        opened_receipt,
                        e,
                        first-saved pk device.id opened d s.deliveries f refl refl refl,
                      )
                      (ap (λ x. some x) (again opened s (opened_for_good now later d))),
                )
        ]
      ]
  where
    stamped : (now : ℕ) (o : Option ℕ) → is_some (or_now o now) ≡ true
    stamped now none = refl
    stamped now (some at) = refl

    again :
        (opened : NotificationDelivery) (s : Store)
        → open_delivery later opened ≡ opened
        → receipt (open_delivery later opened) (save_delivery opened s) ≡ receipt opened s
    again opened s e =
        ap (λ d. receipt d (save_delivery opened s)) e
        ∙ ap (answered opened s) (saved_twice opened s.deliveries)
