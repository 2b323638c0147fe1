-- ===== src/Lifecycle/Requests.antt =====
-- The requests of notifications/api_views.py that hide, delete or change a notification, and the mail
-- of notifications/inbound_mailbox.py, are runs of steps of the statechart.
use push_it_server.Prelude.{
  ℕ, ◌≡◌, refl, sym, subst, ◌∙◌, inl, inr, Bool, false, not, some, List, [], ◌∷◌, ◌==◌, ==→eq, In,
  first, select, is_empty, is_none, arith, Bool-cases, Option-cases,
}
use push_it_server.Models.{Notification, NotificationStatus}
use push_it_server.Store.{Store, update_notification, get_notification}
use push_it_server.Creation.{build_notification_status}
use push_it_server.Queueing.{may_queue}
use push_it_server.Views.{
  is_future, may_hide, hide, destroy, delete_future, Patch, patched, patch_row, save_fields,
  update_future,
}
use push_it_server.Inbound.{GraphEmail}
use push_it_server.Inbound.Processing.{Mailbox, PollEnv}
use push_it_server.Inbound.Poll.{process_email, draft_of}
use push_it_server.Inbound.Authorised.{process_email-IsAuthorised}
use push_it_server.Lifecycle.{Move, change, forget, Steps, done, IsConsistent}
use push_it_server.Lifecycle.Rules.{In-unique, same_status_self}
use push_it_server.Lifecycle.Operations.{table, one, still, store_after, create-Steps}

hide-Move : (n : Notification) → Move n (hide n)
hide-Move n = record {
  same_row = refl;
  allowed = rw (same_status_self n.status) refl;
  sound = λ a. record { started = a.started; planned = a.planned; stamped = a.stamped };
}

pub destroy-Steps :
    (owner_filter : Notification → Bool) (pk : ℕ) (s : Store)
    → Steps (table s) (table (destroy owner_filter pk s).0)
unfolding destroy
destroy-Steps owner_filter pk s =
    elim (Bool-cases (is_empty (select (may_hide owner_filter pk) s.notifications))) [
      | inl e ↦ still {s = s} {t = (destroy owner_filter pk s).0} (ground arith)
      | inr e ↦
          rw (destroy, e)
            (one (change (may_hide owner_filter pk) hide (λ n i h. hide-Move n) refl refl))
    ]

pub delete_future-Steps :
    (owner_filter : Notification → Bool) (now pk : ℕ) (s : Store)
    → Steps (table s) (table (delete_future owner_filter now pk s).0)
unfolding delete_future
delete_future-Steps owner_filter now pk s =
    elim (Bool-cases (is_empty (select (is_future owner_filter now pk) s.notifications))) [
      | inl e ↦ rw (delete_future, e) (done refl refl)
      | inr e ↦
          rw (delete_future, e)
            (one (forget (λ n. not (is_future owner_filter now pk n)) refl refl))
    ]

patch-Move :
    (p : Patch) (n : Notification)
    → n.status ≡ NotificationStatus.scheduled
    → is_none (patched p.scheduled_for n.scheduled_for) ≡ false
    → Move n (patch_row p n)
unfolding build_notification_status may_queue
patch-Move p n e h = elim (Option-cases (patched p.scheduled_for n.scheduled_for)) [
  | inl q ↦ absurd (ground arith)
  | inr (at, q) ↦ record {
    same_row = refl;
    allowed = rw (e, q) refl;
    sound = λ a. record {
      started = λ k. absurd (ground arith);
      planned = λ k. rw q refl;
      stamped = λ k. absurd (ground arith);
    };
  }
]

found_future :
    (owner_filter : Notification → Bool) (now pk : ℕ) (ns : List Notification) (n : Notification)
    → first (is_future owner_filter now pk) ns ≡ some n
    → In n ns × (n.status ≡ NotificationStatus.scheduled) × (n.id ≡ pk)
found_future owner_filter now pk [] n h = absurd (ground arith)
found_future owner_filter now pk (r ∷ ns) n h =
    elim (Bool-cases (is_future owner_filter now pk r)) [
      | inl e ↦
          let same : r ≡ n = ground arith in
          let (status, key) =
            subst (λ (x : Notification). (x.status ≡ NotificationStatus.scheduled) × (x.id ≡ pk))
              same (ground arith, ==→eq r.id pk (ground arith)) in
          (inl (sym same), status, key)
      | inr e ↦
          let (i, status, key) = found_future owner_filter now pk ns n (ground arith) in
          (inr i, status, key)
    ]

pub update_future-Steps :
    (owner_filter : Notification → Bool) (now pk : ℕ) (p : Patch) (s : Store)
    → IsConsistent (table s)
    → Steps (table s) (table (update_future owner_filter now pk p (λ t. t) s).0)
unfolding update_future update_notification
update_future-Steps owner_filter now pk p s c =
    elim (Option-cases (first (is_future owner_filter now pk) s.notifications)) [
      | inl e ↦ rw (update_future, e) (done refl refl)
      | inr (n, e) ↦
          let (i, q, k) = found_future owner_filter now pk s.notifications n e in
          elim (Bool-cases (is_none (patched p.scheduled_for n.scheduled_for))) [
            | inl h ↦ rw (update_future, e, h) (done refl refl)
            | inr h ↦ elim (Option-cases (get_notification pk s)) [
              | inl f ↦ rw (update_future, e, h, f) (done refl refl)
              | inr (row, f) ↦
                  rw (update_future, e, h, f)
                    (one (
                      change (λ r. r.id == pk) (save_fields (patch_row p n))
                        (λ r j g.
                          subst (λ x. Move x (save_fields (patch_row p n) x))
                            (sym (
                              In-unique s.next_notification s.notifications n r c.keyed i j
                                (==→eq r.id pk g ∙ sym k)))
                            (patch-Move p n q h))
                        refl refl))
            ]
          ]
    ]

pub process_email-Steps :
    (env : PollEnv) (email : GraphEmail) (m : Mailbox)
    → Steps (table m.store) (table (process_email env email m).0.store)
unfolding store_after
process_email-Steps env email m = elim (process_email-IsAuthorised env email m) [
  | inl e ↦ still e
  | inr (a, outcome, k, e) ↦
      subst (λ r. Steps (table m.store) (table (store_after r m.store))) e
        (create-Steps env.vendor (env.trouble email) (draft_of env email a) m.store)
]
