-- ===== src/Sending/Completion.antt =====
-- A send pass that acquires a notification always gives it up again (notifications/services.py).
use push_it_server.Prelude.{
  ℕ, ◌≡◌, ◌≢◌, refl, ◌∙◌, sym, subst, Bool, true, false, none, some, List, [], ◌∷◌, arith, is_some,
  inl, inr, Bool-cases, Option-cases,
}
use push_it_server.Models.{
  Notification, NotificationStatus, NotificationDelivery, Device, Application,
}
use push_it_server.Store.{
  Store, get_notification, get_application, update_notification, send_webhook_callback,
  save_delivery, save_device,
}
use push_it_server.Store.Rows.{
  id-get_notification, get_notification-update, get_notification-callback,
}
use push_it_server.Billing.{user_is_paid}
use push_it_server.Delivery.{Pass, Handled, handle_delivery}
use push_it_server.Scheduling.{get_quiet_period_end_for_application}
use push_it_server.Sending.{
  Env, Counts, may_start, acquire_notification_for_processing, deliveries_in, add_outcome,
  save_handled, send_loop, final_status, fail_for_lapsed_subscription, cancel_unsent, deliver,
  deliver_or_no_target, no_target, send_acquired, send_with_application, send_notification,
  finish_processing, defer_processing, start_processing, stamp, no_counts, pass_of,
}
use push_it_server.Targets.{
  create_missing, create_delivery, get_target_devices_for_notification,
  get_target_deliveries_for_notification,
}

-- the statuses in which a pass leaves a notification
abbrev pub is_closed : NotificationStatus → Bool
is_closed NotificationStatus.sent = true
is_closed NotificationStatus.failed = true
is_closed NotificationStatus.partial = true
is_closed NotificationStatus.no_target = true
is_closed NotificationStatus.scheduled = true
is_closed _ = false

-- A pass has given the notification up: it is not PROCESSING, it may not be taken for stranded, and
-- it has a time of sending exactly if it is SENT.
pub record IsClosed (n : Notification) : Type 0 where
  pub status_closed : is_closed n.status ≡ true
  pub not_processing : n.processing_started_at ≡ none
  pub rescheduled : n.status ≡ NotificationStatus.scheduled → is_some n.scheduled_for ≡ true
  pub stamped : n.status ≡ NotificationStatus.sent → is_some n.sent_at ≡ true

abbrev pub Closed : ℕ → Store → Type 0
Closed id s = (n : Notification) × (get_notification id s ≡ some n) × IsClosed n

notifications-save_handled :
    (h : Handled) (s : Store) → (save_handled h s).notifications ≡ s.notifications
unfolding save_handled save_delivery save_device
notifications-save_handled h s = refl

pub notifications-send_loop :
    (pass : Pass) (targets : List (NotificationDelivery × Device)) (s : Store) (c : Counts)
    → (send_loop pass targets s c).0.notifications ≡ s.notifications
unfolding send_loop
notifications-send_loop pass [] s c = refl
notifications-send_loop pass ((d, v) ∷ targets) s c =
    let h = handle_delivery pass d v in
    notifications-send_loop pass targets (save_handled h s) (add_outcome h.outcome c)
    ∙ notifications-save_handled h s

notifications-create_delivery :
    (id : ℕ) (v : Device) (s : Store) → (create_delivery id v s).notifications ≡ s.notifications
unfolding create_delivery
notifications-create_delivery id v s = ground arith

notifications-create_missing :
    (id : ℕ) (vs : List Device) (s : Store)
    → (create_missing id vs s).notifications ≡ s.notifications
unfolding create_missing
notifications-create_missing id [] s = refl
notifications-create_missing id (v ∷ vs) s =
    notifications-create_missing id vs (create_delivery id v s)
    ∙ notifications-create_delivery id v s

finish-Closed :
    (id : ℕ) (s : Store) (application : Application) (status : NotificationStatus) (now : ℕ)
    (n : Notification)
    → get_notification id s ≡ some n
    → is_closed status ≡ true
    → status ≢ NotificationStatus.scheduled
    → Closed id (
        send_webhook_callback application id status
          (stamp status now)
          (update_notification id (finish_processing status (stamp status now)) s))
finish-Closed id s application status now n h c u = (
  finish_processing status (stamp status now) n,
  get_notification-callback id application id status (stamp status now)
        (update_notification id (finish_processing status (stamp status now)) s)
      ∙ get_notification-update (finish_processing status (stamp status now)) (λ m. refl) id s n h,
  record {
    status_closed = c;
    not_processing = refl;
    rescheduled = λ e. absurd (u e);
    stamped = λ e. rw e refl;
  },
)

pub final_status-closed : (c : Counts) → is_closed (final_status c) ≡ true
unfolding final_status
final_status-closed c = ground arith

pub final_status-ne_scheduled : (c : Counts) → final_status c ≢ NotificationStatus.scheduled
unfolding final_status
final_status-ne_scheduled c h = ground arith

-- reading a row depends on the table of notifications only
get_notification_of :
    (id : ℕ) (s t : Store)
    → s.notifications ≡ t.notifications
    → get_notification id s ≡ get_notification id t
unfolding get_notification
get_notification_of id s t h = rw h

pub notifications-targets :
    (n : Notification) (s : Store)
    → (get_target_deliveries_for_notification n s).1.notifications ≡ s.notifications
unfolding get_target_deliveries_for_notification
notifications-targets n s =
    ground (arith, notifications-create_missing n.id (get_target_devices_for_notification n s) s)

deliver-Closed :
    (env : Env) (application : Application) (n m : Notification)
    (targets : List (NotificationDelivery × Device)) (s : Store)
    → get_notification n.id s ≡ some m
    → Closed n.id (deliver env application n targets s).0
unfolding deliver
deliver-Closed env application n m targets s h =
    let pass = pass_of env application n (deliveries_in targets) s in
    let (sent_store, counts) = send_loop pass targets s no_counts in
    finish-Closed n.id sent_store application (final_status counts) env.finished m
      (get_notification_of n.id sent_store s (notifications-send_loop pass targets s no_counts) ∙ h)
      (final_status-closed counts) (final_status-ne_scheduled counts)

deliver_or_no_target-Closed :
    (env : Env) (application : Application) (n m : Notification)
    (targets : List (NotificationDelivery × Device)) (s : Store)
    → get_notification n.id s ≡ some m
    → Closed n.id (deliver_or_no_target env application n targets s).0
unfolding deliver_or_no_target no_target
deliver_or_no_target-Closed env application n m [] s h =
    finish-Closed n.id s application NotificationStatus.no_target env.finished m h refl (λ e. cc)
deliver_or_no_target-Closed env application n m (t ∷ ts) s h =
    deliver-Closed env application n m (t ∷ ts) s h

fail-Closed :
    (env : Env) (application : Application) (n m : Notification) (s : Store)
    → get_notification n.id s ≡ some m
    → Closed n.id (fail_for_lapsed_subscription env application n s).0
unfolding fail_for_lapsed_subscription
fail-Closed env application n m s h =
    let cancelled = record s { deliveries = cancel_unsent n.id env.now s.deliveries } in
    finish-Closed n.id cancelled application NotificationStatus.failed env.finished m
      (get_notification_of n.id cancelled s refl ∙ h) refl (λ e. cc)

defer-Closed :
    (n m : Notification) (at : ℕ) (s : Store)
    → get_notification n.id s ≡ some m
    → Closed n.id (update_notification n.id (defer_processing at) s)
defer-Closed n m at s h = (
  defer_processing at m,
  get_notification-update (defer_processing at) (λ k. refl) n.id s m h,
  record {
    status_closed = refl;
    not_processing = refl;
    rescheduled = λ e. refl;
    stamped = λ e. cc;
  },
)

send_acquired-Closed :
    (env : Env) (application : Application) (n m : Notification) (s : Store)
    → get_notification n.id s ≡ some m
    → Closed n.id (send_acquired env application n s).0
unfolding send_acquired
send_acquired-Closed env application n m s h =
    let (targets, prepared) = get_target_deliveries_for_notification n s in
    elim (Bool-cases (user_is_paid env.billing application.owner env.now)) [
      | inr p ↦ rw (p, send_acquired) (fail-Closed env application n m s h)
      | inl p ↦
          elim (Option-cases (
            get_quiet_period_end_for_application env.zone s.application_quiet_periods application.id
              env.now)) [
                | inr (at, e) ↦ rw (p, e, send_acquired) (defer-Closed n m at s h)
                | inl e ↦
                    rw (p, e, send_acquired)
                      (deliver_or_no_target-Closed env application n m targets prepared
                        (get_notification_of n.id prepared s (notifications-targets n s) ∙ h))
              ]
    ]

acquired :
    (env : Env) (id : ℕ) (s : Store) (n : Notification)
    → get_notification id s ≡ some n
    → env.locked id ≡ false
    → may_start n.status ≡ true
    → acquire_notification_for_processing env id s
      ≡ some (start_processing env.now n, update_notification id (start_processing env.now) s)
unfolding acquire_notification_for_processing
acquired env id s n h l m = ground arith

a_started :
    (env : Env) (id : ℕ) (s : Store) (n : Notification) (application : Application)
    → get_application n.application s ≡ some application
    → get_application
        (start_processing env.now n).application
        (update_notification id (start_processing env.now) s)
      ≡ some application
unfolding get_application update_notification
a_started env id s n application a = a

-- What a pass does with a notification that may be started and that no other worker holds.
pub send_notification_acquired :
    (env : Env) (id : ℕ) (s : Store) (n : Notification) (application : Application)
    → get_notification id s ≡ some n
    → get_application n.application s ≡ some application
    → env.locked id ≡ false
    → may_start n.status ≡ true
    → send_notification env id s
      ≡ send_acquired env application
          (start_processing env.now n)
          (update_notification id (start_processing env.now) s)
unfolding send_notification send_with_application
send_notification_acquired env id s n application h a l m =
    rw (acquired env id s n h l m, send_notification)
      (rw (a_started env id s n application a, send_with_application) refl)

-- A pass over a notification that may be started and that no other worker holds never leaves it
-- PROCESSING, whatever the subscription, the quiet periods, the targets and Firebase: afterwards it
-- is SENT with its time, FAILED, PARTIAL, NO_TARGET, or SCHEDULED with its instant.
pub send_notification_closes :
    (env : Env) (id : ℕ) (s : Store) (n : Notification) (application : Application)
    → get_notification id s ≡ some n
    → get_application n.application s ≡ some application
    → env.locked id ≡ false
    → may_start n.status ≡ true
    → Closed id (send_notification env id s).0
send_notification_closes env id s n application h a l m =
    let e : n.id ≡ id = id-get_notification id s n h in
    let started = update_notification id (start_processing env.now) s in
    let row = start_processing env.now n in
    rw (send_notification_acquired env id s n application h a l m) (
      subst (λ k. Closed k (send_acquired env application row started).0) e
        (send_acquired-Closed env application row row started (
          subst (λ k. get_notification k started ≡ some row) (sym e)
            (get_notification-update (start_processing env.now) (λ k. refl) id s n h))))
