-- ===== src/Sending/Refusals.antt =====
-- The passes that push nothing (notifications/services.py).
use push_it_server.Prelude.{
  ℕ, ◌≡◌, refl, subst, sym, inl, inr, Bool, true, false, Option, none, some, List, [], ◌∷◌, arith,
  All, Bool-cases, Option-cases,
}
use push_it_server.Models.{
  Notification, NotificationStatus, NotificationDelivery, Application, DeliveryStatus,
}
use push_it_server.Store.{
  Store, get_notification, get_application, update_notification, send_webhook_callback,
}
use push_it_server.Billing.{user_is_paid}
use push_it_server.Delivery.{cancel_delivery}
use push_it_server.Scheduling.{get_quiet_period_end_for_application}
use push_it_server.Sending.{
  Env, nothing_sent, may_start, acquire_notification_for_processing, send_acquired,
  send_notification, fail_for_lapsed_subscription, cancel_unsent, defer_processing,
  start_processing, finish_processing,
}
use push_it_server.Store.Rows.{id-get_notification, get_notification-update}
use push_it_server.Sending.Completion.{send_notification_acquired}

-- A notification that another worker holds, that is gone, or whose status may not be started is
-- left alone: the pass changes nothing in the database, sends nothing, and reports zeros.
pub send_notification_refused :
    (env : Env) (id : ℕ) (s : Store)
    → ((n : Notification)
        → get_notification id s ≡ some n
        → env.locked id ≡ false
        → may_start n.status ≡ false)
    → send_notification env id s ≡ (s, nothing_sent id)
unfolding send_notification acquire_notification_for_processing
send_notification_refused env id s h = elim (Option-cases (get_notification id s)) [
  | inl e ↦ rw (e, send_notification, acquire_notification_for_processing) refl
  | inr (n, e) ↦ elim (Bool-cases (env.locked id)) [
    | inl l ↦ ground arith
    | inr l ↦ ground (arith, h n e l)
  ]
]

-- neither pending nor waiting for a retry
abbrev pub is_decided : DeliveryStatus → Bool
is_decided DeliveryStatus.sent = true
is_decided DeliveryStatus.failed = true
is_decided DeliveryStatus.pending = false

abbrev pub AreDecided : ℕ → List NotificationDelivery → Type 0
AreDecided id ds = All (λ d. d.notification ≡ id → is_decided d.status ≡ true) ds

cancel_unsent-AreDecided :
    (id now : ℕ) (ds : List NotificationDelivery) → AreDecided id (cancel_unsent id now ds)
unfolding cancel_unsent cancel_delivery
cancel_unsent-AreDecided id now [] = tt
cancel_unsent-AreDecided id now (d ∷ ds) = (λ e. ground arith, cancel_unsent-AreDecided id now ds)

callback_keeps :
    (application : Application) (n : ℕ) (status : NotificationStatus) (sent_at : Option ℕ)
    (s : Store)
    → let t = send_webhook_callback application n status sent_at s in
      (t.pushes ≡ s.pushes) × (t.deliveries ≡ s.deliveries)
unfolding send_webhook_callback
callback_keeps application n status sent_at s = ground arith

send_acquired-lapsed :
    (env : Env) (application : Application) (n : Notification) (s : Store)
    → user_is_paid env.billing application.owner env.now ≡ false
    → send_acquired env application n s ≡ fail_for_lapsed_subscription env application n s
unfolding send_acquired
send_acquired-lapsed env application n s unpaid = rw (unpaid, send_acquired)

send_acquired-quiet :
    (env : Env) (application : Application) (n : Notification) (s : Store) (end : ℕ)
    → user_is_paid env.billing application.owner env.now ≡ true
    → get_quiet_period_end_for_application env.zone s.application_quiet_periods application.id
        env.now
      ≡ some end
    → send_acquired env application n s
      ≡ (update_notification n.id (defer_processing end) s, nothing_sent n.id)
unfolding send_acquired
send_acquired-quiet env application n s end paid quiet = rw (paid, quiet, send_acquired)

fail_for_lapsed_subscription_lem :
    (env : Env) (application : Application) (n : Notification) (s : Store)
    → let t = (fail_for_lapsed_subscription env application n s).0 in
      (t.pushes ≡ s.pushes) × AreDecided n.id t.deliveries
unfolding fail_for_lapsed_subscription update_notification
fail_for_lapsed_subscription_lem env application n s =
    let cancelled =
      update_notification n.id (finish_processing NotificationStatus.failed none)
        (record s { deliveries = cancel_unsent n.id env.now s.deliveries }) in
    let (pushes, deliveries) =
      callback_keeps application n.id NotificationStatus.failed none cancelled in
    (pushes, rw deliveries (cancel_unsent-AreDecided n.id env.now s.deliveries))

-- Where the owner's subscription has lapsed, a pass that acquires the notification pushes nothing,
-- and leaves no delivery of the notification pending: each is sent already or has failed.
pub send_notification_lapsed :
    (env : Env) (id : ℕ) (s : Store) (n : Notification) (application : Application)
    → get_notification id s ≡ some n
    → get_application n.application s ≡ some application
    → env.locked id ≡ false
    → may_start n.status ≡ true
    → user_is_paid env.billing application.owner env.now ≡ false
    → let t = (send_notification env id s).0 in (t.pushes ≡ s.pushes) × AreDecided id t.deliveries
unfolding update_notification
send_notification_lapsed env id s n application h a l m unpaid =
    let e : n.id ≡ id = id-get_notification id s n h in
    let row = start_processing env.now n in
    let started = update_notification id (start_processing env.now) s in
    let (pushes, decided) = fail_for_lapsed_subscription_lem env application row started in
    rw (send_notification_acquired env id s n application h a l m) (
      rw (send_acquired-lapsed env application row started unpaid) (
        pushes,
        subst
            (λ k.
              AreDecided k (fail_for_lapsed_subscription env application row started).0.deliveries)
            e decided,
      ))

-- In a quiet period of the application, a pass that acquires the notification pushes nothing and
-- changes no delivery; the notification is SCHEDULED for the end of the quiet period.
pub send_notification_quiet :
    (env : Env) (id : ℕ) (s : Store) (n : Notification) (application : Application) (end : ℕ)
    → get_notification id s ≡ some n
    → get_application n.application s ≡ some application
    → env.locked id ≡ false
    → may_start n.status ≡ true
    → user_is_paid env.billing application.owner env.now ≡ true
    → get_quiet_period_end_for_application env.zone s.application_quiet_periods application.id
        env.now
      ≡ some end
    → let t = (send_notification env id s).0 in
      (t.pushes ≡ s.pushes)
      × (t.deliveries ≡ s.deliveries)
      × (get_notification id t ≡ some (defer_processing end (start_processing env.now n)))
unfolding update_notification
send_notification_quiet env id s n application end h a l m paid quiet =
    let e : n.id ≡ id = id-get_notification id s n h in
    let row = start_processing env.now n in
    let started = update_notification id (start_processing env.now) s in
    let deferred =
      get_notification-update (defer_processing end) (λ k. refl) id started row
        (get_notification-update (start_processing env.now) (λ k. refl) id s n h) in
    rw (send_notification_acquired env id s n application h a l m) (
      rw (send_acquired-quiet env application row started end paid quiet) (
        refl,
        refl,
        subst
            (λ k.
              get_notification id (update_notification k (defer_processing end) started)
              ≡ some (defer_processing end row))
            (sym e) deferred,
      ))
