-- ===== src/Sending/Counting.antt =====
-- The counters of a send pass and the final status that they give (notifications/services.py).
use push_it_server.Prelude.{
  ℕ, suc, ◌+◌, ◌<◌, ◌≡◌, ◌↔◌, ◌⊎◌, inl, inr, Bool, true, false, List, [], ◌∷◌, arith, length, In,
  refl, ◌∙◌, if◌then◌else◌, ◌≤◌, All, not, ◌&&◌, ◌||◌, is_some, is_none,
}
use push_it_server.Models.{NotificationDelivery, NotificationStatus, Device}
use push_it_server.Store.{Store}
use push_it_server.Delivery.{
  Pass, Outcome, Handled, handle_delivery, is_sent, ineligibility_reason, should_wait_for_retry,
  get_current_device_quiet_period_end, should_skip_delivery, attempt, mark_delivery_as_sent,
  mark_delivery_as_deferred, cancel_delivery, mark_delivery_as_failed, can_retry_delivery,
}
use push_it_server.Delivery.Eligibility.{MayPush, handle_delivery_called, id-handle_delivery}
use push_it_server.Sending.{Counts, no_counts, add_outcome, save_handled, send_loop, final_status}

abbrev pub total : Counts → ℕ
total c = c.sent + c.failed + c.skipped + c.deferred + c.waiting

total-add_outcome : (o : Outcome) (c : Counts) → total (add_outcome o c) ≡ suc (total c)
unfolding add_outcome
total-add_outcome o c = ground arith

total-send_loop :
    (pass : Pass) (targets : List (NotificationDelivery × Device)) (s : Store) (c : Counts)
    → total (send_loop pass targets s c).1 ≡ total c + length targets
unfolding send_loop
total-send_loop pass [] s c = omega arith
total-send_loop pass ((d, device) ∷ targets) s c =
    let h = handle_delivery pass d device in
    omega (
      arith,
      total-add_outcome h.outcome c,
      total-send_loop pass targets (save_handled h s) (add_outcome h.outcome c),
    )

-- Three ends of a target in a pass, from the rows and the guards: it is pushed now, it waits (for its
-- retry, or for the end of the quiet period of its device), or it is given up for this pass.
abbrev pub ends_sent : Pass → NotificationDelivery × Device → Bool
ends_sent pass (d, device) = is_sent (handle_delivery pass d device).delivery.status

abbrev pub was_sent : NotificationDelivery × Device → Bool
was_sent (d, device) = is_sent d.status

abbrev pub is_postponed : Pass → NotificationDelivery × Device → Bool
is_postponed pass (d, device) =
    not (is_sent d.status)
    && is_none (ineligibility_reason pass.application device pass.linked_device_ids)
    && (should_wait_for_retry d (pass.clock d)
        || is_some (get_current_device_quiet_period_end pass device (pass.clock d)))

abbrev pub is_lost : Pass → NotificationDelivery × Device → Bool
is_lost pass target = not (ends_sent pass target) && not (is_postponed pass target)

-- how many members pass a test
abbrev pub count_where : {A : Type 0} → (A → Bool) → List A → ℕ
count_where p [] = 0
count_where p (x ∷ xs) = let rest = count_where p xs in if p x then suc rest else rest

-- what the counters say of the targets they have counted
record AreCounted (pass : Pass) (targets : List (NotificationDelivery × Device)) (c e : Counts)
    : Type 0 where
  sent : e.sent + e.skipped ≡ c.sent + c.skipped + count_where (ends_sent pass) targets
  skipped : e.skipped ≡ c.skipped + count_where was_sent targets
  failed : e.failed ≡ c.failed + count_where (is_lost pass) targets
  postponed :
      e.deferred + e.waiting ≡ c.deferred + c.waiting + count_where (is_postponed pass) targets

handle_delivery-AreCounted :
    (pass : Pass) (d : NotificationDelivery) (device : Device) (c : Counts)
    → AreCounted pass ((d, device) ∷ []) c (add_outcome (handle_delivery pass d device).outcome c)
unfolding handle_delivery add_outcome should_skip_delivery attempt mark_delivery_as_sent
    mark_delivery_as_deferred cancel_delivery mark_delivery_as_failed can_retry_delivery
handle_delivery-AreCounted pass d device c = record {
  sent = ground arith;
  skipped = ground arith;
  failed = ground arith;
  postponed = ground arith;
}

send_loop-AreCounted :
    (pass : Pass) (targets : List (NotificationDelivery × Device)) (s : Store) (c : Counts)
    → AreCounted pass targets c (send_loop pass targets s c).1
unfolding send_loop
send_loop-AreCounted pass [] s c = record {
  sent = omega arith;
  skipped = omega arith;
  failed = omega arith;
  postponed = omega arith;
}
send_loop-AreCounted pass ((d, device) ∷ targets) s c =
    let h = handle_delivery pass d device in
    let one = handle_delivery-AreCounted pass d device c in
    let rest = send_loop-AreCounted pass targets (save_handled h s) (add_outcome h.outcome c) in
    record {
      sent = ground (arith, one.sent, rest.sent);
      skipped = ground (arith, one.skipped, rest.skipped);
      failed = ground (arith, one.failed, rest.failed);
      postponed = ground (arith, one.postponed, rest.postponed);
    }

count_where_bounded : {A : Type 0} → (p : A → Bool) (xs : List A) → count_where p xs ≤ length xs
count_where_bounded p [] = omega arith
count_where_bounded p (x ∷ xs) = ground (arith, count_where_bounded p xs)

-- All members are counted exactly when all pass the test.
count_where_all :
    {A : Type 0}
    → (p : A → Bool) (xs : List A) → (count_where p xs ≡ length xs) ↔ All (λ x. p x ≡ true) xs
count_where_all p [] = ((λ e. tt), (λ h. refl))
count_where_all p (x ∷ xs) = (
  (λ e. (
    ground (arith, count_where_bounded p xs),
    (count_where_all p xs).0 (ground (arith, count_where_bounded p xs)),
  )),
  (λ h. ground (arith, (count_where_all p xs).1 h.1)),
)

final_status_sent :
    (c : Counts)
    → 0 < total c
    → (final_status c ≡ NotificationStatus.sent) ↔ (c.sent + c.skipped ≡ total c)
unfolding final_status
final_status_sent c h = (λ e. ground arith, λ e. ground arith)

final_status_failed :
    (c : Counts) → 0 < total c → (final_status c ≡ NotificationStatus.failed) ↔ (c.failed ≡ total c)
unfolding final_status
final_status_failed c h = (λ e. ground arith, λ e. ground arith)

-- In a pass over at least one delivery the counters are the numbers of targets that end so: those
-- whose row is SENT after it, those that were SENT before it, those that wait for a retry or for the
-- end of a quiet period, and the others, which are lost. It ends SENT exactly when the row of every
-- target is SENT after it, and FAILED exactly when every target is lost.
pub send_loop_counts :
    (pass : Pass) (targets : List (NotificationDelivery × Device)) (s : Store)
    → 0 < length targets
    → let c = (send_loop pass targets s no_counts).1 in
      (c.sent + c.skipped ≡ count_where (ends_sent pass) targets)
      × (c.skipped ≡ count_where was_sent targets)
      × (c.failed ≡ count_where (is_lost pass) targets)
      × (c.deferred + c.waiting ≡ count_where (is_postponed pass) targets)
      × ((final_status c ≡ NotificationStatus.sent)
          ↔ All (λ target. ends_sent pass target ≡ true) targets)
      × ((final_status c ≡ NotificationStatus.failed)
          ↔ All (λ target. is_lost pass target ≡ true) targets)
send_loop_counts pass targets s h =
    let c = (send_loop pass targets s no_counts).1 in
    let told = send_loop-AreCounted pass targets s no_counts in
    let e : total c ≡ length targets = omega (arith, total-send_loop pass targets s no_counts) in
    let some_target : 0 < total c = omega arith in
    let (sent_to, sent_of) = final_status_sent c some_target in
    let (failed_to, failed_of) = final_status_failed c some_target in
    let (all_sent, sent_all) = count_where_all (ends_sent pass) targets in
    let (all_lost, lost_all) = count_where_all (is_lost pass) targets in
    (
      omega (arith, told.sent),
      omega (arith, told.skipped),
      omega (arith, told.failed),
      omega (arith, told.postponed),
      (
        (λ p. all_sent (omega (arith, sent_to p, told.sent))),
        (λ a. sent_of (omega (arith, sent_all a, told.sent))),
      ),
      (
        (λ p. all_lost (omega (arith, failed_to p, told.failed))),
        (λ a. failed_of (omega (arith, lost_all a, told.failed))),
      ),
    )

logged :
    (called : Bool) (new : ℕ) (pushes : List ℕ) (id : ℕ)
    → In id (if called then new ∷ pushes else pushes)
    → In id pushes ⊎ ((called ≡ true) × (id ≡ new))
logged true new pushes id (inl e) = inr (refl, e)
logged true new pushes id (inr i) = inl i
logged false new pushes id i = inl i

save_handled_pushes :
    (h : Handled) (s : Store) (id : ℕ)
    → In id (save_handled h s).pushes
    → In id s.pushes ⊎ ((h.called ≡ true) × (id ≡ h.delivery.id))
unfolding save_handled
save_handled_pushes h s id i = logged h.called h.delivery.id s.pushes id i

-- The provider is called only for deliveries of the pass that may be pushed: an identifier that is
-- logged as pushed was logged before, or is that of a target that meets every condition.
pub send_loop_pushes :
    (pass : Pass) (targets : List (NotificationDelivery × Device)) (s : Store) (c : Counts) (id : ℕ)
    → In id (send_loop pass targets s c).0.pushes
    → In id s.pushes
      ⊎ ((d : NotificationDelivery) × (device : Device) × In (d, device) targets
          × (id ≡ d.id)
          × MayPush pass d device)
unfolding send_loop
send_loop_pushes pass [] s c id i = inl i
send_loop_pushes pass ((d, device) ∷ targets) s c id i =
    let h = handle_delivery pass d device in
    elim (send_loop_pushes pass targets (save_handled h s) (add_outcome h.outcome c) id i) [
      | inr (e, v, j, p, m) ↦ inr (e, v, inr j, p, m)
      | inl j ↦ elim (save_handled_pushes h s id j) [
        | inl k ↦ inl k
        | inr (called, p) ↦ inr (
          d,
          device,
          inl refl,
          p ∙ id-handle_delivery pass d device,
          (handle_delivery_called pass d device).0 called,
        )
      ]
    ]
