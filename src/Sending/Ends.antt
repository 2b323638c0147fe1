-- ===== src/Sending/Ends.antt =====
-- What a send pass does to the table of notifications (notifications/services.py): it starts a row and
-- ends it, or does nothing.
use push_it_server.Prelude.{
  ℕ, ◌≡◌, ◌≢◌, refl, sym, ap, subst, ◌∙◌, ◌⊎◌, inl, inr, true, none, some, List, [], ◌∷◌,
  update_where, ◌==◌, arith, Bool-cases, Option-cases, is_some,
}
use push_it_server.Models.{
  Notification, NotificationStatus, NotificationDelivery, Device, Application,
}
use push_it_server.Store.{
  Store, get_notification, get_application, update_notification, send_webhook_callback,
  save_delivery, save_device,
}
use push_it_server.Store.Rows.{id-get_notification}
use push_it_server.Billing.{user_is_paid}
use push_it_server.Scheduling.{get_quiet_period_end_for_application}
use push_it_server.Delivery.{Pass, handle_delivery}
use push_it_server.Targets.{
  get_target_deliveries_for_notification, create_missing, create_delivery,
  get_target_devices_for_notification,
}
use push_it_server.Sending.{
  Env, Counts, may_start, acquire_notification_for_processing, start_processing, finish_processing,
  defer_processing, stamp, fail_for_lapsed_subscription, deliver, deliver_or_no_target, no_target,
  send_acquired, send_with_application, send_notification, final_status, send_loop, save_handled,
  add_outcome, deliveries_in, pass_of, no_counts, cancel_unsent,
}
use push_it_server.Sending.Completion.{
  is_closed, final_status-closed, final_status-ne_scheduled, notifications-send_loop,
  notifications-targets,
}

next-send_loop :
    (pass : Pass) (targets : List (NotificationDelivery × Device)) (s : Store) (c : Counts)
    → (send_loop pass targets s c).0.next_notification ≡ s.next_notification
unfolding send_loop save_handled save_delivery save_device
next-send_loop pass [] s c = refl
next-send_loop pass ((d, v) ∷ targets) s c =
    let h = handle_delivery pass d v in
    next-send_loop pass targets (save_handled h s) (add_outcome h.outcome c)

next-create_missing :
    (id : ℕ) (vs : List Device) (s : Store)
    → (create_missing id vs s).next_notification ≡ s.next_notification
unfolding create_missing create_delivery
next-create_missing id [] s = refl
next-create_missing id (v ∷ vs) s =
    next-create_missing id vs (create_delivery id v s) ∙ ground arith

next-targets :
    (n : Notification) (s : Store)
    → (get_target_deliveries_for_notification n s).1.next_notification ≡ s.next_notification
unfolding get_target_deliveries_for_notification
next-targets n s =
    ground (arith, next-create_missing n.id (get_target_devices_for_notification n s) s)

-- how the last update of a pass may leave a row
pub record IsEnd (f : Notification → Notification) : Type 0 where
  pub same_row : (n : Notification) → (f n).id ≡ n.id
  pub ends : (n : Notification) → is_closed (f n).status ≡ true
  pub planned :
      (n : Notification)
      → (f n).status ≡ NotificationStatus.scheduled
      → is_some (f n).scheduled_for ≡ true
  pub stamped :
      (n : Notification) → (f n).status ≡ NotificationStatus.sent → is_some (f n).sent_at ≡ true

-- The table after a part of a pass is that before it with the row of the pass ended.
abbrev pub Ends : ℕ → Store → Store → Type 0
Ends id s t =
    (f : Notification → Notification) × IsEnd f
    × (t.notifications ≡ update_where (λ n. n.id == id) f s.notifications)
    × (t.next_notification ≡ s.next_notification)

finish-IsEnd :
    (status : NotificationStatus) (now : ℕ)
    → is_closed status ≡ true
    → status ≢ NotificationStatus.scheduled
    → IsEnd (finish_processing status (stamp status now))
finish-IsEnd status now c u = record {
  same_row = λ n. refl;
  ends = λ n. c;
  planned = λ n e. absurd (u e);
  stamped = λ n e. rw e refl;
}

finish-Ends :
    (application : Application) (id : ℕ) (status : NotificationStatus) (now : ℕ) (s t : Store)
    → is_closed status ≡ true
    → status ≢ NotificationStatus.scheduled
    → t.notifications ≡ s.notifications
    → t.next_notification ≡ s.next_notification
    → Ends id s (
        send_webhook_callback application id status
          (stamp status now)
          (update_notification id (finish_processing status (stamp status now)) t))
unfolding send_webhook_callback update_notification
finish-Ends application id status now s t c u e x =
    let f = finish_processing status (stamp status now) in
    (
      f,
      finish-IsEnd status now c u,
      ground (arith, ap (update_where (λ (n : Notification). n.id == id) f) e),
      ground (arith, x),
    )

deliver-Ends :
    (env : Env) (application : Application) (n : Notification)
    (targets : List (NotificationDelivery × Device)) (s t : Store)
    → t.notifications ≡ s.notifications
    → t.next_notification ≡ s.next_notification
    → Ends n.id s (deliver_or_no_target env application n targets t).0
unfolding deliver_or_no_target no_target deliver
deliver-Ends env application n [] s t e x =
    finish-Ends application n.id NotificationStatus.no_target env.finished s t refl (λ q. cc) e x
deliver-Ends env application n (d ∷ ds) s t e x =
    let pass = pass_of env application n (deliveries_in (d ∷ ds)) t in
    let (sent_store, counts) = send_loop pass (d ∷ ds) t no_counts in
    finish-Ends application n.id (final_status counts) env.finished s sent_store
      (final_status-closed counts) (final_status-ne_scheduled counts)
      (notifications-send_loop pass (d ∷ ds) t no_counts ∙ e)
      (next-send_loop pass (d ∷ ds) t no_counts ∙ x)

defer-IsEnd : (at : ℕ) → IsEnd (defer_processing at)
defer-IsEnd at = record {
  same_row = λ n. refl;
  ends = λ n. refl;
  planned = λ n e. refl;
  stamped = λ n e. cc;
}

-- A pass over an acquired notification ends its row, whatever it meets.
pub send_acquired-Ends :
    (env : Env) (application : Application) (n : Notification) (s : Store)
    → Ends n.id s (send_acquired env application n s).0
unfolding send_acquired fail_for_lapsed_subscription update_notification
send_acquired-Ends env application n s =
    let (targets, prepared) = get_target_deliveries_for_notification n s in
    elim (Bool-cases (user_is_paid env.billing application.owner env.now)) [
      | inr p ↦
          rw (p, send_acquired)
            (finish-Ends application n.id NotificationStatus.failed env.finished s
              (record s { deliveries = cancel_unsent n.id env.now s.deliveries }) refl (λ q. cc)
              refl refl)
      | inl p ↦
          elim (Option-cases (
            get_quiet_period_end_for_application env.zone s.application_quiet_periods application.id
              env.now)) [
                | inr (at, e) ↦
                    rw (p, e, send_acquired) (defer_processing at, defer-IsEnd at, refl, refl)
                | inl e ↦
                    rw (p, e, send_acquired)
                      (deliver-Ends env application n targets s prepared (notifications-targets n s)
                        (next-targets n s))
              ]
    ]

-- What `send_with_application` does to an acquired row.
started-Ends :
    (env : Env) (id : ℕ) (n : Notification) (t : Store)
    → n.id ≡ id
    → ((send_with_application env n t).0 ≡ t) ⊎ Ends id t (send_with_application env n t).0
unfolding send_with_application
started-Ends env id n t e = elim (Option-cases (get_application n.application t)) [
  | inl a ↦ inl (ground arith)
  | inr (application, a) ↦
      rw (a, send_with_application)
        (inr (
          subst (λ k. Ends k t (send_acquired env application n t).0) e
            (send_acquired-Ends env application n t)))
]

not_acquired :
    (env : Env) (id : ℕ) (s : Store)
    → acquire_notification_for_processing env id s ≡ none
    → (send_notification env id s).0 ≡ s
unfolding send_notification
not_acquired env id s h = ground arith

when_acquired :
    (env : Env) (id : ℕ) (s t : Store) (n : Notification)
    → acquire_notification_for_processing env id s ≡ some (n, t)
    → (send_notification env id s).0 ≡ (send_with_application env n t).0
unfolding send_notification
when_acquired env id s t n h = ground arith

pub acquire_inv :
    (env : Env) (id : ℕ) (s t : Store) (m : Notification)
    → acquire_notification_for_processing env id s ≡ some (m, t)
    → (n : Notification) × (get_notification id s ≡ some n)
      × (may_start n.status ≡ true)
      × (m ≡ start_processing env.now n)
      × (t ≡ update_notification id (start_processing env.now) s)
unfolding acquire_notification_for_processing
acquire_inv env id s t m h = elim (Option-cases (get_notification id s)) [
  | inl e ↦ ground arith
  | inr (n, e) ↦ (n, e, ground arith, ground arith, ground arith)
]

-- A pass does nothing, or it has acquired its row, and it ends it or leaves it as it acquired it.
pub send_notification-Ends :
    (env : Env) (id : ℕ) (s : Store)
    → ((send_notification env id s).0 ≡ s)
      ⊎ ((n : Notification) × (get_notification id s ≡ some n)
          × (may_start n.status ≡ true)
          × (((send_notification env id s).0 ≡ update_notification id (start_processing env.now) s)
              ⊎ Ends id
                  (update_notification id (start_processing env.now) s)
                  (send_notification env id s).0))
send_notification-Ends env id s =
    elim (Option-cases (acquire_notification_for_processing env id s)) [
      | inl e ↦ inl (not_acquired env id s e)
      | inr ((m, t), e) ↦
          let (n, g, a, r, u) = acquire_inv env id s t m e in
          let same : m.id ≡ id = ap (λ (x : Notification). x.id) r ∙ id-get_notification id s n g in
          inr (
            n,
            g,
            a,
            subst
                (λ w.
                  ((send_notification env id s).0 ≡ w) ⊎ Ends id w (send_notification env id s).0)
                u
                (subst (λ w. (w ≡ t) ⊎ Ends id t w) (sym (when_acquired env id s t m e))
                  (started-Ends env id m t same)),
          )
    ]
