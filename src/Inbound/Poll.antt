-- ===== src/Inbound/Poll.antt =====
-- notifications/inbound_mailbox.py: _process_email, _record_processing_failure and
-- poll_inbound_mailbox.
use Prim.Native.String.{◌++◌}
use push_it_server.Prelude.{
  ℕ, ◌+◌, String, Bool, true, false, not, ◌&&◌, ◌||◌, Option, none, some, List, [], ◌∷◌, str_eq,
  ltb, select, is_empty, length, ◌==◌, if◌then◌else◌,
}
use push_it_server.Models.{
  Application, InboundEmailIngestionLog, InboundEmailIngestionStatus, log_created, log_existing,
  log_rejected, log_conflict, log_error,
}
use push_it_server.Creation.{
  Draft, CreationResult, returned, operational_error, NotificationCreationOutcome,
  create_notification_with_optional_idempotency,
}
use push_it_server.SenderPolicy.{SenderReason}
use push_it_server.Inbound.{GraphEmail}
use push_it_server.Inbound.Addresses.{is_inbound_alias_address}
use push_it_server.Inbound.Validation.{
  Accepted, Errors, Context, Validation, invalid, valid, validate, no_application_matches,
  no_user_matches, InboundError,
}
use push_it_server.Inbound.Processing.{
  Mailbox, PollEnv, unknown_address, maybe_send_unknown_address_reply, reply_to_refused_sender,
  is_unauthenticated, notify_owner_of_rejection, record_inbound_email_ingestion,
}

-- the outcome, with `mark_seen`, which is always True
pub data Processed : Type 0 where
  ignored rejected created existing conflict : Processed

abbrev pub no_application_error : InboundError → Bool
no_application_error no_application_matches = true
no_application_error _ = false

abbrev pub no_user_error : InboundError → Bool
no_user_error no_user_matches = true
no_user_error _ = false

abbrev pub is_known_user_wrong_address : Errors → Bool
is_known_user_wrong_address errors =
    not (is_empty (select no_application_error errors.recipient))
    && is_empty (select no_user_error errors.sender)

abbrev pub id_of : Option Application → Option ℕ
id_of none = none
id_of (some application) = some application.id

abbrev pub status_of : NotificationCreationOutcome → InboundEmailIngestionStatus
status_of outcome =
    if outcome.conflict then log_conflict else if outcome.created then log_created else log_existing

abbrev pub processed_as : NotificationCreationOutcome → Processed
processed_as outcome =
    if outcome.conflict then conflict else if outcome.created then created else existing

abbrev pub invalid_fields : Validation
invalid_fields =
    invalid (record { recipient = []; subject = []; text = []; sender = [] })
      (record { inbound_rejection = none; sender_auth_rejection = none; application = none })

abbrev pub mark_email_read : String → Mailbox → Mailbox
mark_email_read graph_id m = record m { marked = graph_id ∷ m.marked }

-- the rows that count as failed attempts for a mail
abbrev pub is_error : InboundEmailIngestionStatus → Bool
is_error log_error = true
is_error _ = false

abbrev pub failures : String → List InboundEmailIngestionLog → ℕ
failures graph_id rows =
    length (select (λ r. is_error r.status && str_eq r.mailbox_uid graph_id) rows)

pub record Counts : Type 0 where
  pub processed_count : ℕ
  pub created_count : ℕ
  pub rejected_count : ℕ
  pub ignored_count : ℕ
  pub failed_count : ℕ

abbrev pub count : Processed → Counts → Counts
count rejected c = record c {
  processed_count = c.processed_count + 1;
  rejected_count = c.rejected_count + 1;
}
count created c = record c {
  processed_count = c.processed_count + 1;
  created_count = c.created_count + 1;
}
count ignored c = record c {
  processed_count = c.processed_count + 1;
  ignored_count = c.ignored_count + 1;
}
count _ c = record c { processed_count = c.processed_count + 1 }

abbrev pub no_counts : Counts
no_counts = record {
  processed_count = 0;
  created_count = 0;
  rejected_count = 0;
  ignored_count = 0;
  failed_count = 0;
}

-- the result of poll_inbound_mailbox: "skipped" without a configuration, "error" where the fetch
-- raises (`none`), and "ok" with the counts; `raised` is the exception that the journal of a failure
-- lets out of the loop
pub data PollResult : Type 0 where
  skipped fetch_error raised : PollResult
  ok : Counts → PollResult

-- `return True, outcome` after a row of the journal, and the exception without it
abbrev pub ending : Mailbox → Processed → Option Mailbox → Mailbox × Option Processed
ending m outcome none = (m, none)
ending m outcome (some t) = (t, some outcome)

abbrev pub count_failure : Counts → Counts
count_failure c = record c { failed_count = c.failed_count + 1 }

abbrev pub result_of : Option Counts → PollResult
result_of none = raised
result_of (some c) = ok c

module _ (env : PollEnv) where
  -- the opt-in reply to a sender whom the policy refused
  unfoldable pub reply_if_opted_in :
      GraphEmail → Option Application → SenderReason → Mailbox → Mailbox
  reply_if_opted_in email none reason m = m
  reply_if_opted_in email (some application) reason m =
      if application.inbound_rejection_reply_to_sender && not (is_unauthenticated reason)
      then reply_to_refused_sender env email m
      else m

  -- a refusal by the sender's policy tells the owner and the sender after the row of the journal
  unfoldable pub refuse_by_policy :
      GraphEmail → Context → SenderReason → Mailbox → Mailbox × Option Processed
  refuse_by_policy email context reason m =
      elim (record_inbound_email_ingestion env log_rejected email (id_of context.application) none
        m) [
          | none ↦ (m, none)
          | some t ↦ (
            reply_if_opted_in email context.application reason
                (notify_owner_of_rejection env context.application reason t),
            some rejected,
          )
        ]

  -- any other refusal answers before it
  abbrev pub answered : GraphEmail → Errors → Mailbox → Mailbox
  answered email errors m =
      if is_known_user_wrong_address errors
      then maybe_send_unknown_address_reply env email unknown_address m
      else m

  unfoldable pub refuse : GraphEmail → Errors → Context → Mailbox → Mailbox × Option Processed
  refuse email errors context m = elim context.inbound_rejection [
    | some reason ↦ refuse_by_policy email context reason m
    | none ↦
        let t = answered email errors m in
        ending t rejected (record_inbound_email_ingestion env log_rejected email none none t)
  ]

  abbrev pub draft_of : GraphEmail → Accepted → Draft
  draft_of email a = record {
    application = a.application.id;
    title = a.title;
    message = a.text;
    scheduled_for = a.scheduled_for;
    idempotency_key = if str_eq a.message_id "" then "graph-" ++ email.graph_id else a.message_id;
    request_fingerprint = env.fingerprint a;
    created_at = env.now;
  }

  -- after the creation, which is committed; `none` is an exception, of the creation or of the journal
  unfoldable pub settle :
      GraphEmail → Accepted → Mailbox → CreationResult → Mailbox × Option Processed
  settle email a m (operational_error e) = (m, none)
  settle email a m (returned outcome s) =
      let t : Mailbox = record m { store = s } in
      ending t (processed_as outcome) (
        record_inbound_email_ingestion env (status_of outcome) email (some a.application.id)
          (some outcome.notification.id) t)

  unfoldable pub create_from : GraphEmail → Accepted → Mailbox → Mailbox × Option Processed
  create_from email a m = settle email a m (
      create_notification_with_optional_idempotency env.vendor (env.trouble email)
        (draft_of email a) m.store)

  unfoldable pub judge : GraphEmail → Validation → Mailbox → Mailbox × Option Processed
  judge email (invalid errors context) m = refuse email errors context m
  judge email (valid a) m = create_from email a m

  -- is_valid: a mail with an invalid field does not come to `validate`
  unfoldable pub validation : GraphEmail → Mailbox → Validation
  validation email m = elim (env.clean_fields email) [
    | none ↦ invalid_fields
    | some attrs ↦ validate env.py env.settings env.now m.store.applications m.users attrs
  ]

  unfoldable pub process_email : GraphEmail → Mailbox → Mailbox × Option Processed
  process_email email m =
      if is_inbound_alias_address env.py env.settings email.recipient
      then judge email (validation email m) m
      else (m, some ignored)

  -- the cap, once the failure is in the journal
  unfoldable pub cap_attempts : GraphEmail → Mailbox → Mailbox
  cap_attempts email t =
      let attempts = failures email.graph_id t.journal in
      if str_eq email.graph_id ""
      then t
      else if (env.settings.max_processing_attempts == 0)
          || ltb attempts env.settings.max_processing_attempts
      then t
      else mark_email_read email.graph_id t

  unfoldable pub record_processing_failure : GraphEmail → Mailbox → Option Mailbox
  record_processing_failure email m =
      elim (record_inbound_email_ingestion env log_error email none none m) [
        | none ↦ none
        | some t ↦ some (cap_attempts email t)
      ]

  -- one round of the loop; `none` is the exception that ends the poll
  unfoldable pub poll_one : GraphEmail → Mailbox × Counts → Mailbox × Option Counts
  poll_one email (m, c) =
      let (t, outcome) = process_email email m in
      elim outcome [
        | none ↦ elim (record_processing_failure email t) [
          | none ↦ (t, none)
          | some u ↦ (u, some (count_failure c))
        ]
        | some o ↦ (mark_email_read email.graph_id t, some (count o c))
      ]

  unfoldable pub poll_loop : List GraphEmail → Mailbox × Counts → Mailbox × Option Counts
  poll_loop [] (m, c) = (m, some c)
  poll_loop (email ∷ emails) r =
      let (t, counted) = poll_one email r in
      elim counted [ none ↦ (t, none) | some c ↦ poll_loop emails (t, c) ]

  unfoldable pub poll_inbound_mailbox :
      Bool → Option (List GraphEmail) → Mailbox → Mailbox × PollResult
  poll_inbound_mailbox configured fetched m =
      if configured
      then elim fetched [
        | none ↦ (m, fetch_error)
        | some emails ↦ let (t, counted) = poll_loop emails (m, no_counts) in (t, result_of counted)
      ]
      else (m, skipped)
