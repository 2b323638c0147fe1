-- ===== src/Lifecycle/Operations.antt =====
-- Each operation of the program is a run of steps of the statechart.
use push_it_server.Prelude.{
  ℕ, ◌≤◌, ◌≡◌, refl, sym, ap, subst, ◌∙◌, ◌⊎◌, inl, inr, true, Option, some, List, [], ◌∷◌, In,
  first, ◌==◌, ==→eq, arith, Bool-cases,
}
use push_it_server.Models.{Notification, NotificationStatus, Application}
use push_it_server.Store.{Store, get_notification, update_notification, enqueue}
use push_it_server.Queueing.{
  may_queue, same_status, with_status, QueueEnv, try_queue_notification, to_queue, is_target,
}
use push_it_server.Queueing.Laws.{IsOnly, queued-inv, try_queue_notification-restores}
use push_it_server.Creation.{
  Draft, Vendor, OperationalError, CreationResult, returned, operational_error,
  build_notification_status, new_notification, create_notification_with_optional_idempotency,
}
use push_it_server.Creation.Laws.{create_notification_with_optional_idempotency_created}
use push_it_server.Sending.{
  Env, may_start, start_processing, send_notification, acquire_notification_for_processing,
}
use push_it_server.Sending.Ends.{IsEnd, Ends, acquire_inv, send_notification-Ends}
use push_it_server.Lifecycle.{
  Table, IsSound, Move, Step, create, change, Steps, done, after, AreBelow, IsConsistent,
}
use push_it_server.Lifecycle.Rules.{In-unique, In-update}

abbrev pub table : Store → Table
table s = record { rows = s.notifications; next = s.next_notification }

pub one : {s t : Table} → Step s t → Steps s t
one a = after a (done refl refl)

pub still : {s t : Store} → t ≡ s → Steps (table s) (table t)
still {s} e =
    done (ap (λ (u : Store). u.notifications) (sym e))
      (ap (λ (u : Store). u.next_notification) (sym e))

-- Creation.
new-IsSound : (id : ℕ) (d : Draft) → IsSound (new_notification id d)
unfolding build_notification_status
new-IsSound id d = ground arith

unfoldable pub store_after : CreationResult → Store → Store
store_after (returned outcome t) s = t
store_after (operational_error e) s = s

creation_settled :
    (r : CreationResult) (s : Store)
    → (store_after r s ≡ s) ⊎ ((outcome : _) × (r ≡ returned outcome (store_after r s)))
unfolding store_after
creation_settled (returned outcome t) s = inr (outcome, refl)
creation_settled (operational_error e) s = inl refl

pub create-Steps :
    (vendor : Vendor) (trouble : ℕ → Option OperationalError) (d : Draft) (s : Store)
    → Steps
        (table s)
        (table (store_after (create_notification_with_optional_idempotency vendor trouble d s) s))
create-Steps vendor trouble d s =
    let r = create_notification_with_optional_idempotency vendor trouble d s in
    let t = store_after r s in
    elim (creation_settled r s) [
      | inl e ↦ still e
      | inr (outcome, e) ↦
          elim (create_notification_with_optional_idempotency_created vendor trouble d s t outcome
            e) [
              | inl (f, c, u, n, h) ↦ one (
                  create (new_notification s.next_notification d) refl
                    (new-IsSound s.next_notification d) (ap (λ (u : Store). u.notifications) h)
                    (ap (λ (u : Store). u.next_notification) h))
              | inr (f, c, n, h) ↦ still h
            ]
    ]

-- Sending.
start-Move :
    (now : ℕ) (n : Notification) → may_start n.status ≡ true → Move n (start_processing now n)
unfolding may_start
start-Move now n h = record {
  same_row = refl;
  allowed = ground arith;
  sound = λ a. record { started = λ e. refl; planned = λ e. cc; stamped = λ e. cc };
}

end-Move :
    (f : Notification → Notification)
    → IsEnd f
    → (n : Notification) → n.status ≡ NotificationStatus.processing
    → Move n (f n)
end-Move f i n e = record {
  same_row = i.same_row n;
  allowed = ground (arith, i.ends n);
  sound = λ a. record {
    started = λ q. absurd (ground (arith, i.ends n));
    planned = i.planned n;
    stamped = i.stamped n;
  };
}

In-first :
    (id : ℕ) (ns : List Notification) (n : Notification)
    → first (λ m. m.id == id) ns ≡ some n
    → In n ns × (n.id ≡ id)
In-first id [] n h = cc
In-first id (r ∷ ns) n h = elim (Bool-cases (r.id == id)) [
  | inl e ↦ (inl (ground arith), ground (arith, ==→eq r.id id))
  | inr e ↦ let (i, q) = In-first id ns n (ground arith) in (inr i, q)
]

-- an update by the key of a row that was found concerns that row
pub found-Step :
    (id : ℕ) (f : Notification → Notification) (s : Store) (n : Notification)
    → IsConsistent (table s)
    → get_notification id s ≡ some n
    → Move n (f n)
    → Step (table s) (table (update_notification id f s))
unfolding get_notification update_notification
found-Step id f s n c g m =
    let (i, e) = In-first id s.notifications n g in
    change (λ r. r.id == id) f
      (λ r j h.
        subst (λ x. Move x (f x))
          (sym (
            In-unique s.next_notification s.notifications n r c.keyed i j
              (==→eq r.id id h ∙ sym e)))
          m)
      refl refl

end-Step :
    (env : Env) (id : ℕ) (s t : Store)
    → Ends id (update_notification id (start_processing env.now) s) t
    → Step (table (update_notification id (start_processing env.now) s)) (table t)
unfolding update_notification
end-Step env id s t (f, i, e, x) =
    change (λ r. r.id == id) f
      (λ r j h.
        let (n, k, q) =
          In-update (λ m. m.id == id) (start_processing env.now) s.notifications r j in
        elim q [
          | inl (u, g) ↦ absurd (ground (arith, ap (λ (y : Notification). y.id == id) g))
          | inr (u, g) ↦ end-Move f i r (ap (λ (y : Notification). y.status) g)
        ])
      e x

pub send-Steps :
    (env : Env) (id : ℕ) (s : Store)
    → IsConsistent (table s)
    → Steps (table s) (table (send_notification env id s).0)
send-Steps env id s c = elim (send_notification-Ends env id s) [
  | inl e ↦ still e
  | inr (n, g, a, q) ↦
      let begin = found-Step id (start_processing env.now) s n c g (start-Move env.now n a) in
      elim q [
        | inl e ↦ after begin (still e)
        | inr e ↦ after begin (one (end-Step env id s (send_notification env id s).0 e))
      ]
]

pub acquire-Steps :
    (env : Env) (id : ℕ) (s : Store) (m : Notification) (t : Store)
    → acquire_notification_for_processing env id s ≡ some (m, t)
    → IsConsistent (table s)
    → Steps (table s) (table t)
acquire-Steps env id s m t h c =
    let (n, g, a, r, u) = acquire_inv env id s t m h in
    after (found-Step id (start_processing env.now) s n c g (start-Move env.now n a)) (still u)

-- Queueing.
IsOnly-AreBelow :
    (default : Notification) (id next : ℕ) (ns : List Notification)
    → AreBelow next ns
    → (stored : Notification) × IsOnly id stored ns
IsOnly-AreBelow default id next [] k = (default, tt)
IsOnly-AreBelow default id next (r ∷ ns) k = elim (Bool-cases (r.id == id)) [
  | inl e ↦ (r, (λ h. refl, below id r ns k.1 (==→eq r.id id e)))
  | inr e ↦
      let (stored, a) = IsOnly-AreBelow default id r.id ns k.1 in
      (stored, (λ h. absurd (ground arith), a))
]
  where
    below :
        (id : ℕ) (r : Notification) (ms : List Notification)
        → AreBelow r.id ms
        → r.id ≡ id
        → IsOnly id r ms
    below id r ms b e = each r.id ms (omega arith) b
      where
        each : (top : ℕ) (us : List Notification) → top ≤ r.id → AreBelow top us → IsOnly id r us
        each top [] l b = tt
        each top (u ∷ us) l b = (
          λ h. absurd (omega (arith, e, ==→eq u.id id h, b.0, l)),
          each u.id us (omega (arith, l, b.0)) b.1,
        )

queue-Move :
    (n m : Notification)
    → may_queue n.status ≡ true
    → same_status m.status n.status ≡ true
    → Move m (with_status NotificationStatus.queued m)
unfolding may_queue
queue-Move n m h e = record {
  same_row = refl;
  allowed = ground arith;
  sound = λ a. record { started = λ q. cc; planned = λ q. cc; stamped = λ q. cc };
}

pub queue-Steps :
    (env : QueueEnv) (application : Application) (n : Notification) (s : Store)
    → IsConsistent (table s)
    → Steps (table s) (table (try_queue_notification env application n s).1)
unfolding to_queue enqueue
queue-Steps env application n s c =
    let (stored, only) = IsOnly-AreBelow n n.id s.next_notification s.notifications c.keyed in
    elim (try_queue_notification-restores env application n stored s only) [
      | inl (q, e) ↦ still e
      | inr (q, e) ↦
          let (may, there, same) = queued-inv env application n s q in
          one (
            change (is_target env n) (with_status NotificationStatus.queued)
              (λ m j h. queue-Move n m may (ground arith)) (ap (λ (u : Store). u.notifications) e)
              (ap (λ (u : Store). u.next_notification) e))
    ]
