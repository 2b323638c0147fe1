-- ===== src/Tasks/Retries.antt =====
-- The retry sweep of notifications/tasks.py.
use push_it_server.Prelude.{
  ℕ, ap, ◌≤◌, ◌≡◌, ◌↔◌, refl, ◌∙◌, sym, true, false, ◌&&◌, none, some, List, [], ◌∷◌, map, arith,
  ◌==◌, contains, select, In, inl, inr, Bool-cases, ==→eq,
}
use push_it_server.Models.{NotificationDelivery, Device}
use push_it_server.Store.{Store}
use push_it_server.Delivery.{
  Pass, handle_delivery, should_skip_delivery, should_wait_for_retry, can_retry_delivery,
  mark_delivery_as_deferred, ineligibility_reason, get_current_device_quiet_period_end, is_sent,
  max_delivery_attempts,
}
use push_it_server.Tasks.{retry_is_due, distinct, retry_ids}

contains-distinct : (xs : List ℕ) (j : ℕ) → contains (distinct xs) j ≡ contains xs j
unfolding distinct contains
contains-distinct [] j = refl
contains-distinct (x ∷ xs) j =
    ground (arith, contains-distinct xs j, contains-distinct xs x, contains-eq xs x j)
  where
    contains-eq : (ys : List ℕ) (a b : ℕ) → (a == b) ≡ true → contains ys a ≡ contains ys b
    contains-eq ys a b h = ap (contains ys) (==→eq a b h)

-- No identifier stands twice.
abbrev pub AreDistinct : List ℕ → Type 0
AreDistinct [] = Unit
AreDistinct (x ∷ xs) = (contains xs x ≡ false) × AreDistinct xs

distinct-AreDistinct : (xs : List ℕ) → AreDistinct (distinct xs)
unfolding distinct
distinct-AreDistinct [] = tt
distinct-AreDistinct (x ∷ xs) = elim (Bool-cases (contains (distinct xs) x)) [
  | inl e ↦ rw e (distinct-AreDistinct xs)
  | inr e ↦ rw e (e, distinct-AreDistinct xs)
]

due_notification-contains :
    (now j : ℕ) (d : NotificationDelivery) (ds : List NotificationDelivery)
    → In d ds
    → d.notification ≡ j
    → retry_is_due now d ≡ true
    → contains (map (λ e. e.notification) (select (retry_is_due now) ds)) j ≡ true
unfolding contains
due_notification-contains now j d [] i e h = elim i [ ]
due_notification-contains now j d (x ∷ ds) (inl p) e h = ground (
  arith,
  ap (λ (y : NotificationDelivery). y.notification) p,
  ap (λ (y : NotificationDelivery). retry_is_due now y) p,
)
due_notification-contains now j d (x ∷ ds) (inr i) e h =
    ground (arith, due_notification-contains now j d ds i e h)

contains-due_notification :
    (now j : ℕ) (ds : List NotificationDelivery)
    → contains (map (λ e. e.notification) (select (retry_is_due now) ds)) j ≡ true
    → (d : NotificationDelivery) × In d ds × (d.notification ≡ j) × (retry_is_due now d ≡ true)
unfolding contains
contains-due_notification now j [] h = cc
contains-due_notification now j (x ∷ ds) h =
    elim (Bool-cases (retry_is_due now x && (x.notification == j))) [
      | inl e ↦ (x, inl refl, ground arith, ground arith)
      | inr e ↦
          let (d, i, p, q) = contains-due_notification now j ds (ground arith) in (d, inr i, p, q)
    ]

-- The retry sweep picks exactly the notifications that have a pending delivery whose retry has
-- come, and picks each of them once.
pub retry_ids_exact :
    (now : ℕ) (s : Store) (id : ℕ)
    → AreDistinct (retry_ids now s)
      × ((contains (retry_ids now s) id ≡ true) ↔ (
          (d : NotificationDelivery) × In d s.deliveries
          × (d.notification ≡ id)
          × (retry_is_due now d ≡ true)))
unfolding retry_ids
retry_ids_exact now s id =
    let ids =
      map (λ (d : NotificationDelivery). d.notification) (select (retry_is_due now) s.deliveries) in
    (
      distinct-AreDistinct ids,
      (
        λ h. contains-due_notification now id s.deliveries (sym (contains-distinct ids id) ∙ h),
        λ (d, i, p, q).
            contains-distinct ids id ∙ due_notification-contains now id d s.deliveries i p q,
      ),
    )

-- A device may be pushed but for the attempts that are left.
pub record IsReachable (pass : Pass) (d : NotificationDelivery) (device : Device) : Type 0 where
  pub eligible : ineligibility_reason pass.application device pass.linked_device_ids ≡ none
  pub awake : get_current_device_quiet_period_end pass device (pass.clock d) ≡ none

deferred_left :
    (pass : Pass) (d : NotificationDelivery) (device : Device) (end : ℕ)
    → is_sent d.status ≡ false
    → ineligibility_reason pass.application device pass.linked_device_ids ≡ none
    → should_wait_for_retry d (pass.clock d) ≡ false
    → get_current_device_quiet_period_end pass device (pass.clock d) ≡ some end
    → (handle_delivery pass d device).delivery ≡ mark_delivery_as_deferred d end (pass.clock d)
unfolding handle_delivery should_skip_delivery
deferred_left pass d device end u e w q = ground arith

exhausted_stays :
    (later : Pass) (left : NotificationDelivery) (found : Device) (end : ℕ)
    → is_sent left.status ≡ false
    → max_delivery_attempts ≤ left.attempt_count
    → left.next_retry_at ≡ some end
    → end ≤ later.clock left
    → IsReachable later left found
    → ((handle_delivery later left found).delivery ≡ left)
      × ((handle_delivery later left found).called ≡ false)
unfolding handle_delivery should_skip_delivery should_wait_for_retry can_retry_delivery
exhausted_stays later left found end u full n l r = ground arith

-- A delivery without attempts left, neither sent nor ineligible nor waiting, that a pass comes to in
-- a quiet period of its device is left such that, at any later pass from the end of that period on
-- with nothing but the attempts in the way, the retry sweep selects it, and the pass neither calls
-- the provider for it nor changes it.
pub deferred_exhausted :
    (pass later : Pass) (d : NotificationDelivery) (device found : Device) (end : ℕ)
    → is_sent d.status ≡ false
    → max_delivery_attempts ≤ d.attempt_count
    → ineligibility_reason pass.application device pass.linked_device_ids ≡ none
    → should_wait_for_retry d (pass.clock d) ≡ false
    → get_current_device_quiet_period_end pass device (pass.clock d) ≡ some end
    → end ≤ later.clock (handle_delivery pass d device).delivery
    → IsReachable later (handle_delivery pass d device).delivery found
    → let left = (handle_delivery pass d device).delivery in
      (retry_is_due (later.clock left) left ≡ true)
      × ((handle_delivery later left found).delivery ≡ left)
      × ((handle_delivery later left found).called ≡ false)
unfolding retry_is_due mark_delivery_as_deferred
deferred_exhausted pass later d device found end u full e w q =
    rw (deferred_left pass d device end u e w q) (λ h r.
      let left = mark_delivery_as_deferred d end (pass.clock d) in
      let (same, quiet) = exhausted_stays later left found end refl full refl h r in
      (ground arith, same, quiet))
