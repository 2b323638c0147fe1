-- ===== src/Store/Rows.antt =====
-- How an update of a row shows when the row is read again.
use push_it_server.Prelude.{
  ℕ, ◌≡◌, refl, false, Option, some, List, [], ◌∷◌, arith, ◌==◌, first, update_where,
}
use push_it_server.Models.{Notification, NotificationStatus, Application}
use push_it_server.Store.{
  Store, get_notification, update_notification, send_webhook_callback, enqueue,
}

id-first :
    (ns : List Notification) (id : ℕ) (n : Notification)
    → first (λ m. m.id == id) ns ≡ some n
    → n.id ≡ id
id-first [] id n h = cc
id-first (m ∷ ns) id n h = ground (arith, id-first ns id n)

-- The row that is read has the primary key that was asked for.
pub id-get_notification :
    (id : ℕ) (s : Store) (n : Notification) → get_notification id s ≡ some n → n.id ≡ id
unfolding get_notification
id-get_notification id s n h = id-first s.notifications id n h

module _ (f : Notification → Notification) (keeps_id : (n : Notification) → (f n).id ≡ n.id) where
  first-update_where :
      (ns : List Notification) (id : ℕ) (n : Notification)
      → first (λ m. m.id == id) ns ≡ some n
      → first (λ m. m.id == id) (update_where (λ m. m.id == id) f ns) ≡ some (f n)
  first-update_where [] id n h = cc
  first-update_where (m ∷ ns) id n h = ground (arith, keeps_id m, first-update_where ns id n)

  first-update_where_ne :
      (ns : List Notification) (id other : ℕ)
      → (id == other) ≡ false
      → first (λ m. m.id == other) (update_where (λ m. m.id == id) f ns)
        ≡ first (λ m. m.id == other) ns
  first-update_where_ne [] id other h = refl
  first-update_where_ne (m ∷ ns) id other h =
      ground (arith, keeps_id m, first-update_where_ne ns id other h)

  -- An updated row is read back updated.
  pub get_notification-update :
      (id : ℕ) (s : Store) (n : Notification)
      → get_notification id s ≡ some n
      → get_notification id (update_notification id f s) ≡ some (f n)
  unfolding get_notification update_notification
  get_notification-update id s n h = first-update_where s.notifications id n h

  -- Every other row is read back as it was.
  pub get_notification-update_ne :
      (id other : ℕ) (s : Store)
      → (id == other) ≡ false
      → get_notification other (update_notification id f s) ≡ get_notification other s
  unfolding get_notification update_notification
  get_notification-update_ne id other s h = first-update_where_ne s.notifications id other h

-- A callback changes no row.
pub get_notification-callback :
    (id : ℕ) (application : Application) (n : ℕ) (status : NotificationStatus) (sent_at : Option ℕ)
    (s : Store)
    → get_notification id (send_webhook_callback application n status sent_at s)
      ≡ get_notification id s
unfolding get_notification send_webhook_callback
get_notification-callback id application n status sent_at s = ground arith

-- Nor does a task.
pub get_notification-enqueue :
    (id task : ℕ) (s : Store) → get_notification id (enqueue task s) ≡ get_notification id s
unfolding get_notification enqueue
get_notification-enqueue id task s = refl
