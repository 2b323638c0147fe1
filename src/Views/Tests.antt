-- ===== src/Views/Tests.antt =====
-- Requests of notifications/api_views.py and api_views_app_token.py at concrete rows.
use push_it_server.Prelude.{
  ℕ, ◌≡◌, ◌≢◌, ◌+◌, refl, Bool, true, false, Option, none, some, [], ◌∷◌, length, In, select,
}
use push_it_server.Models.{Notification, NotificationStatus, User}
use push_it_server.Store.{Store, save_delivery}
use push_it_server.Samples.{store_one, app_one, bell, alice}
use push_it_server.Targets.{new_delivery}
use push_it_server.Creation.{
  Draft, postgresql, OperationalError, returned, NotificationCreationOutcome, new_notification,
  insert, by_vendor, create_or_get, find_key, create_notification_with_optional_idempotency,
}
use push_it_server.Queueing.{QueueEnv}
use push_it_server.Views.{
  BulkResult, bulk_send, may_hide, is_unfinished, no_content_204, destroy, opened_receipt,
  open_delivery, send_with_app_token, created_201,
}
use push_it_server.Views.Bulk.{AreOnce, count_id, failed_ids, bulk_send-AreOnce}
use push_it_server.Views.Hiding.{outline, destroy_lem}
use push_it_server.Views.Replays.{send_with_app_token_replay}

abbrev anybody : Notification → Bool
anybody n = true

abbrev everyone_paid : User → Bool
everyone_paid u = true

abbrev calm : QueueEnv
calm = record { now = 100; owner_filter = anybody; database_busy = false; broker_up = true }

abbrev draft_bell : Notification
draft_bell = record bell { status = NotificationStatus.draft }

abbrev drafts : Store
drafts = record store_one { notifications = draft_bell ∷ [] }

bulk_send-AreOnce_example :
    (t : Store) × (b : BulkResult) × (bulk_send everyone_paid alice calm anybody
        (7 ∷ 7 ∷ 9 ∷ [])
        drafts
      ≡ some (t, b))
    × ((k : ℕ)
        → count_id k b.queued + count_id k (failed_ids b.errors) ≡ count_id k (7 ∷ 7 ∷ 9 ∷ []))
    × (length t.tasks ≡ 0 + length b.queued)
    × AreOnce b.queued
bulk_send-AreOnce_example =
    bulk_send-AreOnce everyone_paid alice calm anybody (7 ∷ 7 ∷ 9 ∷ []) drafts refl

destroy_lem_example :
    let t = (destroy anybody 7 drafts).0 in
    (select (may_hide anybody 7) t.notifications ≡ [])
    × (outline t.notifications ≡ outline drafts.notifications)
    × ((n : Notification)
        → In n drafts.notifications
        → is_unfinished n.status ≡ true
        → In n t.notifications)
    × ((destroy anybody 7 t).1 ≢ no_content_204)
destroy_lem_example = destroy_lem anybody 7 drafts

abbrev delivered : Store
delivered = record store_one { deliveries = new_delivery 1 7 1 ∷ [] }

first_receipt :
    opened_receipt 500 1 "token-one" 7 delivered
    ≡ some (save_delivery (open_delivery 500 (new_delivery 1 7 1)) delivered, some 500)
unfolding opened_receipt save_delivery
first_receipt = refl

abbrev order : Draft
order = record {
  application = 1;
  title = "Order";
  message = "Your order is ready";
  scheduled_for = none;
  idempotency_key = "order-42";
  request_fingerprint = "f1";
  created_at = 10;
}

abbrev changed_order : Draft
changed_order = record order { message = "Your order is late"; request_fingerprint = "f2" }

abbrev no_trouble : ℕ → Option OperationalError
no_trouble n = none

abbrev placed : NotificationCreationOutcome
placed = record { notification = new_notification 8 order; created = true; conflict = false }

creation_returns :
    create_notification_with_optional_idempotency postgresql no_trouble order store_one
    ≡ returned placed (insert order store_one)
unfolding create_notification_with_optional_idempotency by_vendor create_or_get find_key
creation_returns = refl

send_with_app_token_replay_example :
    let t =
      (send_with_app_token everyone_paid calm postgresql no_trouble app_one order store_one).0 in
    let (v, answer) =
      send_with_app_token everyone_paid calm postgresql no_trouble app_one changed_order t in
    (v ≡ t) × (answer ≢ some created_201)
send_with_app_token_replay_example =
    send_with_app_token_replay everyone_paid calm calm postgresql no_trouble no_trouble app_one
      order changed_order store_one placed (insert order store_one) creation_returns refl refl refl
      refl
