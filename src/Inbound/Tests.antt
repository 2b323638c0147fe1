-- ===== src/Inbound/Tests.antt =====
-- Polls of notifications/inbound_mailbox.py at concrete mails.
use push_it_server.Prelude.{
  ◌+◌, ◌≤◌, ◌<◌, ◌≡◌, refl, ◌⊎◌, true, false, Option, none, some, [], ◌∷◌, arith, str_eq, In,
  length, if◌then◌else◌,
}
use push_it_server.Samples.{store_one, alice}
use push_it_server.Creation.{
  postgresql, returned, NotificationCreationOutcome, create_notification_with_optional_idempotency,
  find_key,
}
use push_it_server.Inbound.{
  Python, InboundSettings, GraphEmail, dmarc_pattern, header_from_pattern,
  evaluate_sender_authentication, is_misaligned, judge_verdict,
}
use push_it_server.Inbound.Addresses.{
  is_inbound_alias_address, normalize_address, is_mailbox_address, inbound_domain, alias_suffix,
  is_current_format, is_legacy_format, is_alias_local_part, before_last_at, split_at,
}
use push_it_server.SenderPolicy.{evaluate_sender_policy, sender_matches, any_entry, entry_matches}
use push_it_server.SenderPolicy.Text.{after_at, ends_with}
use push_it_server.Inbound.Validation.{
  Attributes, Accepted, validate, conclude, check_subject, check_text, check_sender,
  find_application_by_alias, extract_subject_schedule, verdict_on, send_at_pattern,
}
use push_it_server.Inbound.Processing.{
  Mailbox, PollEnv, auto_reply_block_reason, unknown_address, maybe_send_unknown_address_reply,
  claim_auto_reply_slot, claim, send_reply, own_address_reason, all_mailbox, is_bulk,
  record_inbound_email_ingestion,
}
use push_it_server.Inbound.Poll.{
  judge, create_from, settle, refuse, created, process_email, validation, draft_of,
  poll_inbound_mailbox, Counts, ok, failures,
}
use push_it_server.Inbound.Authorised.{IsAuthorised, process_email-IsAuthorised}
use push_it_server.Inbound.Counting.{poll_inbound_mailbox_counts}
use push_it_server.Inbound.Retries.{after_failures, Recorded, record_processing_failure_capped}

-- texts are in lower case and without blanks, and every result of a search for a verdict is "pass"
abbrev plain : Python
plain = record {
  strip = λ s. s;
  lower = λ s. s;
  rstrip_dots = λ s. s;
  search = λ pattern s. if str_eq pattern dmarc_pattern then some "pass" else none;
  remove_first = λ pattern s. s;
  join_words = λ s. s;
  parse_address = λ s. s;
  parse_datetime = λ s. none;
  matches_robot = λ s. false;
  str = λ n. "1";
  sha256 = λ s. s;
}

abbrev production : InboundSettings
production = record {
  domain = "example.org";
  alias_suffix = ".pushit";
  graph_mailbox_user_id = "push@example.org";
  exchange_shared_mailbox = "";
  require_dmarc = true;
  trust_internal = true;
  accept_bestguesspass = true;
  allow_no_policy = false;
  notify_owner = true;
  auto_reply_interval_seconds = 3600;
  max_processing_attempts = 5;
}

abbrev ring : GraphEmail
ring = record {
  graph_id = "g1";
  sender = "alice@example.com";
  recipient = "door-bell-3f9a2c1b.pushit@example.org";
  subject = "Ring";
  text = "Somebody is at the door";
  message_id = "m1";
  authentication_results = "dmarc=pass";
  recipients = [];
  headers = λ name. none;
}

-- to an alias that no application has
abbrev astray : GraphEmail
astray = record ring { graph_id = "g2"; recipient = "door-bell-00000000.pushit@example.org" }

abbrev as_sent : GraphEmail → Option Attributes
as_sent e = some (record {
  sender = e.sender;
  recipient = e.recipient;
  subject = e.subject;
  text = e.text;
  message_id = e.message_id;
  authentication_results = e.authentication_results;
  exchange_auth_as = "";
})

abbrev env : PollEnv
env = record {
  py = plain;
  settings = production;
  now = 1000;
  vendor = postgresql;
  trouble = λ e n. none;
  clean_fields = as_sent;
  fingerprint = λ a. a.text;
  journal_takes = λ status e m. true;
}

abbrev inbox_one : Mailbox
inbox_one = record {
  store = store_one;
  users = alice ∷ [];
  journal = [];
  claims = [];
  replies = [];
  notices = [];
  marked = [];
}

process_email-IsAuthorised_example :
    ((process_email env ring inbox_one).0.store ≡ store_one)
    ⊎ ((a : Accepted) × (outcome : NotificationCreationOutcome) × IsAuthorised env ring inbox_one
          a.application
        × (create_notification_with_optional_idempotency postgresql
              (λ n. none)
              (draft_of env ring a)
              store_one
            ≡ returned outcome (process_email env ring inbox_one).0.store))
process_email-IsAuthorised_example = process_email-IsAuthorised env ring inbox_one

poll_inbound_mailbox_counts_example :
    let (t, result) = poll_inbound_mailbox env true (some (ring ∷ astray ∷ [])) inbox_one in
    (c : Counts) × (result ≡ ok c)
    × (c.processed_count + c.failed_count ≡ 2)
    × (1 + c.created_count ≤ length t.store.notifications)
    × (length t.store.notifications ≤ 1 + c.created_count + c.failed_count)
    × (c.created_count + c.rejected_count + c.ignored_count ≤ c.processed_count)
poll_inbound_mailbox_counts_example =
    poll_inbound_mailbox_counts env (ring ∷ astray ∷ []) inbox_one (λ e m. refl)

record_processing_failure_capped_example :
    let t = after_failures env ring 5 inbox_one in
    let recorded = failures "g1" t.journal in
    (recorded < 5 → t.marked ≡ [])
    × (5 ≤ recorded → In "g1" t.marked)
    × (Recorded env ring → recorded ≡ 5)
record_processing_failure_capped_example =
    record_processing_failure_capped env ring 5 inbox_one refl (omega arith) refl

ring_creates : (process_email env ring inbox_one).1 ≡ some created
unfolding process_email judge validation create_from settle is_inbound_alias_address
    normalize_address is_mailbox_address inbound_domain alias_suffix is_current_format
    is_legacy_format is_alias_local_part before_last_at split_at validate conclude check_subject
    check_text check_sender find_application_by_alias extract_subject_schedule verdict_on
    evaluate_sender_authentication is_misaligned judge_verdict dmarc_pattern header_from_pattern
    send_at_pattern evaluate_sender_policy sender_matches any_entry entry_matches after_at ends_with
    create_notification_with_optional_idempotency push_it_server.Creation.by_vendor
    push_it_server.Creation.create_or_get find_key record_inbound_email_ingestion
ring_creates = refl

astray_answered :
    (process_email env astray inbox_one).0.replies ≡ (unknown_address, "alice@example.com") ∷ []
unfolding process_email judge validation refuse maybe_send_unknown_address_reply
    claim_auto_reply_slot claim send_reply auto_reply_block_reason own_address_reason all_mailbox
    is_bulk record_inbound_email_ingestion is_inbound_alias_address normalize_address
    is_mailbox_address inbound_domain alias_suffix is_current_format is_legacy_format
    is_alias_local_part before_last_at split_at validate conclude check_subject check_text
    check_sender find_application_by_alias extract_subject_schedule dmarc_pattern
    header_from_pattern send_at_pattern after_at ends_with
astray_answered = refl
