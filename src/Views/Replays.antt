-- ===== src/Views/Replays.antt =====
-- Creating and sending in one request, by token: NotificationSendWithAppTokenApiView of
-- notifications/api_views_app_token.py.
use push_it_server.Prelude.{
  ℕ, ◌≡◌, ◌≢◌, refl, sym, ap, subst, ◌∙◌, inl, inr, String, Bool, true, false, ◌&&◌, Option, some,
  List, [], ◌∷◌, ◌==◌, str_eq, eq_iff, update_where, is_some, arith, Bool-cases, ==_self,
}
use push_it_server.Models.{Notification, NotificationStatus, Application, User}
use push_it_server.Store.{Store, enqueue}
use push_it_server.Creation.{
  Draft, Vendor, OperationalError, CreationResult, returned, operational_error,
  NotificationCreationOutcome, find_key, create_notification_with_optional_idempotency,
}
use push_it_server.Creation.Laws.{create_notification_with_optional_idempotency_created}
use push_it_server.Queueing.{
  QueueEnv, with_status, same_status, is_target, try_queue_notification, to_queue, submit, gone,
  roll_back,
}
use push_it_server.Views.{
  created_201, send_with_app_token, settle_send, dispatch_created, answer_created,
}

-- whether there is a row with the key
abbrev is_held : ℕ → String → List Notification → Bool
is_held a k ns = is_some (find_key a k ns)

held-update :
    (p : Notification → Bool) (status : NotificationStatus) (a : ℕ) (k : String)
    (ns : List Notification)
    → is_held a k (update_where p (with_status status) ns) ≡ is_held a k ns
unfolding find_key
held-update p status a k [] = refl
held-update p status a k (n ∷ ns) = ground (arith, held-update p status a k ns)

module _ (a : ℕ) (k : String) where
  held-submit :
      (env : QueueEnv) (n : Notification) (s : Store)
      → is_held a k (submit env n s).1.notifications ≡ is_held a k s.notifications
  unfolding submit enqueue roll_back
  held-submit env n s = elim (Bool-cases env.broker_up) [
    | inl e ↦ rw (submit, e) refl
    | inr e ↦
        rw (submit, e)
          (held-update (λ m. (m.id == n.id) && same_status m.status NotificationStatus.queued)
            n.status a k s.notifications)
  ]

  held-gone : (n : Notification) (s : Store) → (gone n s).1 ≡ s
  unfolding gone
  held-gone n s = ground arith

  held-queued :
      (env : QueueEnv) (n : Notification) (s : Store)
      → is_held a k (to_queue env n s).notifications ≡ is_held a k s.notifications
  unfolding to_queue
  held-queued env n s = held-update (is_target env n) NotificationStatus.queued a k s.notifications

  held-try :
      (env : QueueEnv) (application : Application) (n : Notification) (s : Store)
      → is_held a k (try_queue_notification env application n s).1.notifications
        ≡ is_held a k s.notifications
  unfolding try_queue_notification
  held-try env application n s =
      ground (arith, held-gone n s, held-submit env n (to_queue env n s), held-queued env n s)

  held-dispatched :
      (env : QueueEnv) (application : Application) (outcome : NotificationCreationOutcome)
      (s : Store)
      → is_held a k (dispatch_created env application outcome s).notifications
        ≡ is_held a k s.notifications
  unfolding dispatch_created
  held-dispatched env application outcome s =
      ground (arith, held-try env application outcome.notification s)

created_held :
    (vendor : Vendor) (trouble : ℕ → Option OperationalError) (d : Draft) (s t : Store)
    (outcome : NotificationCreationOutcome)
    → create_notification_with_optional_idempotency vendor trouble d s ≡ returned outcome t
    → str_eq d.idempotency_key "" ≡ false
    → is_held d.application d.idempotency_key t.notifications ≡ true
unfolding find_key
created_held vendor trouble d s t outcome h k =
    elim (create_notification_with_optional_idempotency_created vendor trouble d s t outcome h) [
      | inl (f, c, u, n, e) ↦ ground (
        arith,
        ap (λ (x : Store). x.notifications) e,
        ==_self d.application,
        eq_iff d.idempotency_key d.idempotency_key,
      )
      | inr (f, c, n, e) ↦ ground (arith, ap (λ (x : Store). x.notifications) e)
    ]

held_replays :
    (vendor : Vendor) (trouble : ℕ → Option OperationalError) (d : Draft) (s t : Store)
    (outcome : NotificationCreationOutcome)
    → create_notification_with_optional_idempotency vendor trouble d s ≡ returned outcome t
    → str_eq d.idempotency_key "" ≡ false
    → is_held d.application d.idempotency_key s.notifications ≡ true
    → (outcome.created ≡ false) × (t ≡ s)
held_replays vendor trouble d s t outcome h k i =
    elim (create_notification_with_optional_idempotency_created vendor trouble d s t outcome h) [
      | inl (f, c, u, n, e) ↦ absurd (ground arith)
      | inr (f, c, n, e) ↦ (c, e)
    ]

replayed :
    (env : QueueEnv) (application : Application) (vendor : Vendor)
    (trouble : ℕ → Option OperationalError) (d : Draft) (s : Store)
    → str_eq d.idempotency_key "" ≡ false
    → is_held d.application d.idempotency_key s.notifications ≡ true
    → (r : CreationResult) → create_notification_with_optional_idempotency vendor trouble d s ≡ r
    → ((settle_send env application s r).0 ≡ s)
      × ((settle_send env application s r).1 ≢ some created_201)
unfolding settle_send dispatch_created answer_created
replayed env application vendor trouble d s k i (operational_error e) h = (refl, λ q. ground arith)
replayed env application vendor trouble d s k i (returned outcome t) h =
    let (c, e) = held_replays vendor trouble d s t outcome h k i in
    (ground (arith, c) ∙ e, λ q. ground (arith, c, Bool-cases outcome.conflict))

-- Once a request to create and send has been answered with the creation, a replay or a conflict, a
-- later request for the application with the same idempotency key, whatever its payload and whatever
-- trouble it meets, changes nothing, hands over no send pass, and is never answered as created.
pub send_with_app_token_replay :
    (is_paid : User → Bool) (env again : QueueEnv) (vendor : Vendor)
    (trouble later : ℕ → Option OperationalError) (application : Application) (d e : Draft)
    (s : Store) (outcome : NotificationCreationOutcome) (u : Store)
    → create_notification_with_optional_idempotency vendor trouble d s ≡ returned outcome u
    → is_paid application.owner ≡ true
    → str_eq d.idempotency_key "" ≡ false
    → e.application ≡ d.application
    → e.idempotency_key ≡ d.idempotency_key
    → let t = (send_with_app_token is_paid env vendor trouble application d s).0 in
      let (v, answer) = send_with_app_token is_paid again vendor later application e t in
      (v ≡ t) × (answer ≢ some created_201)
unfolding send_with_app_token settle_send
send_with_app_token_replay is_paid env again vendor trouble later application d e s outcome u h p k
      a i =
    let t = dispatch_created env application outcome u in
    let held : is_held e.application e.idempotency_key t.notifications ≡ true =
      subst (λ x. is_held x e.idempotency_key t.notifications ≡ true) (sym a)
        (subst (λ x. is_held d.application x t.notifications ≡ true) (sym i)
          (held-dispatched d.application d.idempotency_key env application outcome u
            ∙ created_held vendor trouble d s u outcome h k)) in
    rw (send_with_app_token, p, h)
      (replayed again application vendor later e t (ap (λ x. str_eq x "") i ∙ k) held
        (create_notification_with_optional_idempotency vendor later e t) refl)
