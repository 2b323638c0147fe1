-- ===== src/Queueing/Laws.antt =====
-- What a request to send a notification does, in notifications/api_views.py.
use push_it_server.Prelude.{
  is_empty, ℕ, ◌≡◌, refl, sym, ap, subst, ◌∙◌, ◌⊎◌, inl, inr, Bool, true, false, ◌&&◌, List, [],
  ◌∷◌, arith, ◌==◌, if◌then◌else◌, select, update_where, Bool-cases, Option-cases, All,
}
use push_it_server.Models.{Notification, NotificationStatus, Application}
use push_it_server.Store.{Store, get_notification, enqueue}
use push_it_server.Queueing.{
  QueueEnv, QueueResult, queued, not_queued, may_queue, is_target, same_status, with_status,
  to_queue, roll_back, submit, gone, try_queue_notification,
}

abbrev pub is_queued : QueueResult → Bool
is_queued (queued id) = true
is_queued (not_queued code) = false

no_target_left :
    (env again : QueueEnv) (n : Notification) (ns : List Notification)
    → again.owner_filter ≡ env.owner_filter
    → may_queue n.status ≡ true
    → is_empty (
        select
          (is_target again n)
          (update_where (is_target env n) (with_status NotificationStatus.queued) ns))
      ≡ true
unfolding may_queue
no_target_left env again n [] o h = refl
no_target_left env again n (m ∷ ns) o h = ground (
  arith,
  no_target_left env again n ns o h,
  ap (λ f. f m) o,
  ap (λ f. f (with_status NotificationStatus.queued m)) o,
)

gone-is_queued :
    (n : Notification) (s : Store) → ((is_queued (gone n s).0 ≡ false) × ((gone n s).1 ≡ s))
unfolding gone
gone-is_queued n s = elim (Option-cases (get_notification n.id s)) [
  | inl e ↦ rw (e, gone) (refl, refl)
  | inr (m, e) ↦ rw (e, gone) (refl, refl)
]

pub queued-inv :
    (env : QueueEnv) (application : Application) (n : Notification) (s : Store)
    → is_queued (try_queue_notification env application n s).0 ≡ true
    → (may_queue n.status ≡ true)
      × (is_empty (select (is_target env n) s.notifications) ≡ false)
      × ((try_queue_notification env application n s).1 ≡ enqueue n.id (to_queue env n s))
unfolding try_queue_notification submit
queued-inv env application n s h = ground (arith, (gone-is_queued n s).0)

unmatched-is_queued :
    (env : QueueEnv) (application : Application) (n : Notification) (s : Store)
    → is_empty (select (is_target env n) s.notifications) ≡ true
    → (is_queued (try_queue_notification env application n s).0 ≡ false)
      × ((try_queue_notification env application n s).1 ≡ s)
unfolding try_queue_notification
unmatched-is_queued env application n s h =
    ground (arith, (gone-is_queued n s).0, (gone-is_queued n s).1)

-- Of two requests that have read the same row and may change the same rows, at most one hands it to
-- a send pass: once the first has, the second is refused and changes nothing.
pub try_queue_notification_once :
    (env again : QueueEnv) (application : Application) (n : Notification) (s : Store)
    → again.owner_filter ≡ env.owner_filter
    → is_queued (try_queue_notification env application n s).0 ≡ true
    → let after = (try_queue_notification env application n s).1 in
      (is_queued (try_queue_notification again application n after).0 ≡ false)
      × ((try_queue_notification again application n after).1 ≡ after)
unfolding to_queue enqueue
try_queue_notification_once env again application n s o h =
    let (allowed, there, after) = queued-inv env application n s h in
    rw after (
      unmatched-is_queued again application n (enqueue n.id (to_queue env n s))
        (no_target_left env again n s.notifications o allowed))

-- The database has one row at most with the identifier, and it is the given one.
abbrev pub IsOnly : ℕ → Notification → List Notification → Type 0
IsOnly id stored ns = All (λ m. (m.id == id) ≡ true → m ≡ stored) ns

same_status-eq : (a b : NotificationStatus) → same_status a b ≡ true → b ≡ a
same_status-eq a b h = ground arith

module _ (env : QueueEnv) (n stored : Notification) where
  target_stored :
      (ns : List Notification)
      → IsOnly n.id stored ns
      → is_empty (select (is_target env n) ns) ≡ false
      → is_target env n stored ≡ true
  target_stored [] only h = cc
  target_stored (m ∷ ns) only h = elim (Bool-cases (is_target env n m)) [
    | inl e ↦ subst (λ x. is_target env n x ≡ true) (only.0 (ground arith)) e
    | inr e ↦ target_stored ns only.1 (ground arith)
  ]

  back : Notification → Notification
  back m =
      let q = if is_target env n m then with_status NotificationStatus.queued m else m in
      if (q.id == n.id) && same_status q.status NotificationStatus.queued
      then with_status n.status q
      else q

  row_restored :
      (m : Notification)
      → is_target env n stored ≡ true
      → ((m.id == n.id) ≡ true → m ≡ stored)
      → back m ≡ m
  unfolding back
  row_restored m h only = elim (Bool-cases (m.id == n.id)) [
    | inl e ↦
        let target : is_target env n m ≡ true =
          subst (λ x. is_target env n x ≡ true) (sym (only e)) h in
        rw (target, e)
          (ap (λ st. with_status st m) (same_status-eq m.status n.status (ground arith)))
    | inr e ↦ ground arith
  ]

  restored :
      (ns : List Notification)
      → is_target env n stored ≡ true
      → IsOnly n.id stored ns
      → update_where
          (λ m. (m.id == n.id) && same_status m.status NotificationStatus.queued)
          (with_status n.status)
          (update_where (is_target env n) (with_status NotificationStatus.queued) ns)
        ≡ ns
  unfolding back
  restored [] h only = refl
  restored (m ∷ ns) h only =
      let rest =
        update_where (λ m. (m.id == n.id) && same_status m.status NotificationStatus.queued)
          (with_status n.status)
          (update_where (is_target env n) (with_status NotificationStatus.queued) ns) in
      ap (λ y. y ∷ rest) (row_restored m h only.0) ∙ ap (λ ys. m ∷ ys) (restored ns h only.1)

rolled_back :
    (env : QueueEnv) (n stored : Notification) (s : Store)
    → IsOnly n.id stored s.notifications
    → is_empty (select (is_target env n) s.notifications) ≡ false
    → roll_back n (to_queue env n s) ≡ s
unfolding roll_back to_queue
rolled_back env n stored s only h =
    ap (λ ns. record s { notifications = ns })
      (restored env n stored s.notifications (target_stored env n stored s.notifications only h)
        only)

refused :
    (env : QueueEnv) (application : Application) (n stored : Notification) (s : Store)
    → IsOnly n.id stored s.notifications
    → is_queued (try_queue_notification env application n s).0 ≡ false
    → (try_queue_notification env application n s).1 ≡ s
unfolding try_queue_notification submit
refused env application n stored s only h =
    ground (arith, (gone-is_queued n s).1, rolled_back env n stored s only)

-- A request that is not queued leaves no trace: no task, and every row as it was, also where the
-- queue refused the task after the row was changed. One that is queued hands the notification to
-- one send pass.
pub try_queue_notification-restores :
    (env : QueueEnv) (application : Application) (n stored : Notification) (s : Store)
    → IsOnly n.id stored s.notifications
    → let r = try_queue_notification env application n s in
      ((is_queued r.0 ≡ false) × (r.1 ≡ s))
      ⊎ ((is_queued r.0 ≡ true) × (r.1 ≡ enqueue n.id (to_queue env n s)))
try_queue_notification-restores env application n stored s only =
    elim (Bool-cases (is_queued (try_queue_notification env application n s).0)) [
      | inl e ↦ inr (e, (queued-inv env application n s e).2)
      | inr e ↦ inl (e, refused env application n stored s only e)
    ]
