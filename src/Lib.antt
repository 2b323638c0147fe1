-- ===== src/Lib.antt =====
-- The PushIT server. Applications send notifications to the devices that are linked to them. A
-- request creates a notification and queues it; a worker runs a send pass over it, which decides for
-- each device whether to call Firebase, now or later; periodic tasks bring back what has to be
-- retried, what was scheduled, and what a dead worker left behind.
--
-- The files and the code they are about, by paths from the repository's root:
--   Models          notifications/models.py, devices/models.py, applications/models.py,
--                   applications/models_send_token.py, billing/models.py: rows as records,
--                   choices as data types
--   Store           the tables, and what leaves the database: tasks, callbacks, pushes
--   Scheduling      notifications/scheduling.py: get_quiet_period_end_for_period,
--                   compute_effective_scheduled_for and the filters of lists
--   Push            notifications/push.py: send_push_to_device
--   Billing         billing/service.py: user_is_paid, quota_required
--   Delivery        notifications/services.py, the body of the loop of send_notification:
--                   handle_delivery, with the updates of a delivery and of a device
--   Targets         notifications/services.py: the devices and the deliveries that a pass goes over
--   Sending         notifications/services.py: send_notification, from the acquisition of the row
--                   to the callback of notifications/webhooks.py
--   Tasks           notifications/tasks.py: the retry sweep, the dispatcher, the watchdog, and the
--                   lock of poll_inbound_mailbox_task
--   Creation        notifications/creation.py: create_notification_with_optional_idempotency
--   Queueing        notifications/api_views.py: _try_queue_notification
--   Authentication  applications/authentication.py, applications/models_send_token.py
--   MagicLink       accounts/magic_link.py, accounts/models.py
--   SenderPolicy    applications/inbound_sender_policy.py: evaluate_sender_policy
--   Retention       notifications/retention.py: purge_expired_personal_data
--   Devices         devices/api_views_app_token.py: _upsert_authenticated_device with the rotation
--                   of a token, the merge of two devices and the takeover; linking, unlinking
--   Ownership       applications/api_views.py: activation, deactivation, tokens, eviction
--   Inbound         notifications/inbound_mailbox.py: poll_inbound_mailbox, with inbound_auth.py,
--                   inbound_reply.py, inbound_email.py, inbound_journal.py,
--                   applications/inbound_alias.py, and the validation of a mail in notifications/serializers.py
--   Views           notifications/api_views.py, api_views_app_token.py: sending many, hiding, the
--                   future notifications, receipts, creating and sending by token
--   Lifecycle       the statechart of a notification over all these parts: an abstract
--                   specification, and that each operation is a run of its steps
--   Prelude         shared tests and lists; Samples: rows for the tests
--
-- How they interact: Queueing and Tasks put the identifier of a notification into the list of tasks
-- of the Store, Sending takes an identifier and a Store and gives the Store after the pass. It asks
-- Billing whether the owner pays, Scheduling for quiet periods, and Push, through Delivery, for each
-- device. Devices keeps the links that Targets reads; Inbound asks SenderPolicy about a sender and
-- calls Creation; Views calls Creation and Queueing. Lifecycle runs all of them, one after another, on
-- one Store.
--
-- State is passed explicitly: an operation takes the tables and gives them back. Where the code
-- takes a row lock, the operation is one step; where it updates on a condition, the step takes what
-- was read before, and the database as it is by then. Instants are microseconds and dates are
-- ordinals, as natural numbers. A pass reads the clock once for the pass and once for each delivery.
--
-- What is not in the repository is a parameter: Firebase, the time zone's calendar, the digest,
-- Python's functions on texts and regular expressions, the errors of the database, the broker, Graph's
-- mailbox. The shared cache is a set of keys with a time to live. All loops are by structural
-- recursion, but for the shifts of compute_effective_scheduled_for, which the code itself stops after
-- 32 rounds; the fuel is that number. SQLite is tried three times, as in the code.
--
-- Not modelled: HTTP, the other serialisers and the permissions of the views, the texts of mail,
-- Exchange, accounts as resources, the creation of applications, the signing and sending of callbacks,
-- metrics and logs, and the deletion of expired tokens and of the mail journal. Of the
-- message to Firebase, the data payload and the Android configuration are left out. Where a request
-- reads a row and saves it later without a lock, as the change of a future notification does, what
-- others commit in between is a parameter; the histories of Lifecycle, in which requests come one
-- after another, take nothing for it. Of errors of the database, those of a creation and of a row of
-- the mail journal are modelled. A send pass runs to its end, or dies, before the next operation:
-- that the watchdog gives a notification to another worker while the first is only slow is left out.
pub mod Prelude
pub mod Models
pub mod Scheduling
pub mod Store
pub mod Push
pub mod Billing
pub mod Delivery
pub mod Targets
pub mod Sending
pub mod Tasks
pub mod Creation
pub mod Authentication
pub mod Queueing
pub mod MagicLink
pub mod SenderPolicy
pub mod Retention
pub mod Devices
pub mod Ownership
pub mod Inbound
pub mod Views
pub mod Lifecycle
mod Samples
