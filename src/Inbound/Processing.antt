-- ===== src/Inbound/Processing.antt =====
-- notifications/inbound_mailbox.py and inbound_reply.py: what a poll does with each unread mail. A
-- poll reads the clock once. Sending a mail and marking one as read never raise: applications/
-- graph_mail.py logs what Graph answers. A row of the journal that cannot be inserted raises.
use Prim.Native.String.{◌++◌}
use push_it_server.Prelude.{
  ℕ, ◌+◌, ◌*◌, String, Bool, true, false, not, ◌&&◌, ◌||◌, Option, none, some, List, [], ◌∷◌,
  str_eq, ltb, first, select, is_some, is_empty, ◌==◌, if◌then◌else◌,
}
use push_it_server.Models.{
  Application, User, Device, InboundEmailIngestionLog, InboundEmailIngestionStatus,
}
use push_it_server.Store.{Store}
use push_it_server.Creation.{Vendor, OperationalError}
use push_it_server.Delivery.{is_active_token}
use push_it_server.SenderPolicy.{SenderReason, reason_not_authenticated}
use push_it_server.Inbound.{Python, InboundSettings, GraphEmail, header}
use push_it_server.Inbound.Addresses.{split_at, normalize_address, is_mailbox_address}
use push_it_server.Inbound.Validation.{Attributes, Accepted, normalise, is_user}

-- send_unknown_address_reply and send_rejected_sender_reply
pub data Reply : Type 0 where
  unknown_address rejected_sender : Reply

pub data Notice : Type 0 where
  mail_to_owner : String → Notice
  push_to_owner : ℕ → Notice

pub record Mailbox : Type 0 where
  pub store : Store
  pub users : List User
  pub journal : List InboundEmailIngestionLog
  pub claims : List (String × ℕ)  -- the keys in the cache, with the instant at which each expires
  -- what was sent and asked for, the last first: replies to senders, notices, mails marked as read
  pub replies : List (Reply × String)
  pub notices : List Notice
  pub marked : List String

-- What a poll reads from outside. `clean_fields` is rest_framework's validation of each field by
-- itself, `fingerprint` is compute_request_fingerprint of notifications/utils.py, and `journal_takes`
-- tells whether the database takes a row of the journal.
pub record PollEnv : Type 0 where
  pub py : Python
  pub settings : InboundSettings
  pub now : ℕ
  pub vendor : Vendor
  pub trouble : GraphEmail → ℕ → Option OperationalError
  pub clean_fields : GraphEmail → Option Attributes
  pub fingerprint : Accepted → String
  pub journal_takes : InboundEmailIngestionStatus → GraphEmail → Mailbox → Bool

-- the reasons of auto_reply_block_reason; "" is `none`
pub data BlockReason : Type 0 where
  no_sender auto_submitted precedence auto_response_suppressed mailing_list robot_sender :
      BlockReason
  own_mailbox addressed_to_mailbox_only : BlockReason

unfoldable pub is_bulk : String → Bool
is_bulk s = str_eq s "bulk" || str_eq s "junk" || str_eq s "list" || str_eq s "auto_reply"

unfoldable pub all_mailbox : Python → InboundSettings → List String → Bool
all_mailbox py settings [] = true
all_mailbox py settings (r ∷ rs) = is_mailbox_address py settings r && all_mailbox py settings rs

-- `set(email.recipients) or ({email.recipient} if email.recipient else set())`
abbrev pub known_recipients : GraphEmail → List String
known_recipients email =
    if not (is_empty email.recipients)
    then email.recipients
    else if str_eq email.recipient ""
    then []
    else email.recipient ∷ []

-- the last two tests
unfoldable pub own_address_reason :
    Python → InboundSettings → GraphEmail → String → Option BlockReason
own_address_reason py settings email sender =
    if is_mailbox_address py settings sender
    then some own_mailbox
    else if not (is_empty (known_recipients email))
        && all_mailbox py settings (known_recipients email)
    then some addressed_to_mailbox_only
    else none

unfoldable pub auto_reply_block_reason : Python → InboundSettings → GraphEmail → Option BlockReason
auto_reply_block_reason py settings email =
    let sender = normalize_address py settings email.sender in
    let submitted = py.lower (py.strip (header email "auto-submitted")) in
    elim (split_at sender) [
      | none ↦ some no_sender
      | some (local_part, domain) ↦
          if not (str_eq submitted "") && not (str_eq submitted "no")
          then some auto_submitted
          else if is_bulk (py.lower (py.strip (header email "precedence")))
          then some precedence
          else if is_some (email.headers "x-auto-response-suppress")
          then some auto_response_suppressed
          else if is_some (email.headers "list-id") || is_some (email.headers "list-unsubscribe")
          then some mailing_list
          else if py.matches_robot local_part
          then some robot_sender
          else own_address_reason py settings email sender
    ]

-- `cache.add(key, 1, timeout=interval)`; no interval leaves the cache alone
unfoldable pub claim : ℕ → ℕ → String → Mailbox → Bool × Mailbox
claim now interval key m =
    if interval == 0
    then (true, m)
    else if is_some (first (λ c. str_eq c.0 key && ltb now c.1) m.claims)
    then (false, m)
    else (true, record m { claims = (key, now + interval * 1000000) ∷ m.claims })

-- `user=owner, is_active=True, push_token_status=ACTIVE`
abbrev pub is_owner_device : User → Device → Bool
is_owner_device owner d =
    elim d.user [ none ↦ false | some user ↦ user == owner.id ]
    && d.is_active
    && is_active_token d.push_token_status

unfoldable pub push_all : List Device → List Notice → List Notice
push_all [] ns = ns
push_all (d ∷ ds) ns = push_all ds (push_to_owner d.id ∷ ns)

unfoldable pub push_to_owner_devices : User → Mailbox → Mailbox
push_to_owner_devices owner m = record m {
  notices = push_all (select (is_owner_device owner) m.store.devices) m.notices;
}

abbrev pub is_unauthenticated : SenderReason → Bool
is_unauthenticated reason_not_authenticated = true
is_unauthenticated _ = false

-- the mailbox with a row more in the journal
abbrev pub journaled :
    InboundEmailIngestionStatus → GraphEmail → Option ℕ → Option ℕ → Mailbox → Mailbox
journaled status email application notification m = record m {
  journal =
      record {
        status = status;
        mailbox_uid = email.graph_id;
        application = application;
        notification = notification;
      }
      ∷ m.journal;
}

module _ (env : PollEnv) where
  -- `none` is the exception of the insert
  unfoldable pub record_inbound_email_ingestion :
      InboundEmailIngestionStatus → GraphEmail → Option ℕ → Option ℕ → Mailbox → Option Mailbox
  record_inbound_email_ingestion status email application notification m =
      if env.journal_takes status email m
      then some (journaled status email application notification m)
      else none

  unfoldable pub claim_auto_reply_slot : String → Mailbox → Bool × Mailbox
  claim_auto_reply_slot sender m =
      claim env.now env.settings.auto_reply_interval_seconds
        ("inbound:auto-reply:" ++ env.py.sha256 (normalize_address env.py env.settings sender)) m

  -- an "unknown address" reply goes to a known user only
  unfoldable pub send_reply : Reply → String → Mailbox → Mailbox
  send_reply reply sender m =
      let sent = record m { replies = (reply, sender) ∷ m.replies } in
      elim reply [
        | unknown_address ↦ if is_user m.users sender then sent else m
        | rejected_sender ↦ sent
      ]

  unfoldable pub maybe_send_unknown_address_reply : GraphEmail → Reply → Mailbox → Mailbox
  maybe_send_unknown_address_reply email reply m =
      if is_some (auto_reply_block_reason env.py env.settings email)
      then m
      else (let (claimed, t) = claim_auto_reply_slot email.sender m in
          if claimed then send_reply reply (normalise env.py email.sender) t else t)

  unfoldable pub reply_to_refused_sender : GraphEmail → Mailbox → Mailbox
  reply_to_refused_sender email m =
      maybe_send_unknown_address_reply email
        (if is_user m.users (normalise env.py email.sender)
          then unknown_address
          else rejected_sender)
        m

  unfoldable pub claim_owner_notice_slot : User → String → Mailbox → Bool × Mailbox
  claim_owner_notice_slot owner channel m =
      claim env.now env.settings.auto_reply_interval_seconds
        ("inbound:owner-notice:" ++ channel ++ ":" ++ env.py.sha256 (env.py.str owner.id)) m

  unfoldable pub notify_by_mail : Application → SenderReason → Mailbox → Mailbox
  notify_by_mail application reason m =
      if application.inbound_rejection_notify_email
        && not (is_unauthenticated reason && not env.settings.notify_owner)
        && not (str_eq application.owner.email "")
      then (let (claimed, t) = claim_owner_notice_slot application.owner "email" m in
          if claimed
          then record t { notices = mail_to_owner application.owner.email ∷ t.notices }
          else t)
      else m

  unfoldable pub notify_by_push : Application → Mailbox → Mailbox
  notify_by_push application m =
      if application.inbound_rejection_notify_push
      then (let (claimed, t) = claim_owner_notice_slot application.owner "push" m in
          if claimed then push_to_owner_devices application.owner t else t)
      else m

  unfoldable pub notify_owner_of_rejection : Option Application → SenderReason → Mailbox → Mailbox
  notify_owner_of_rejection none reason m = m
  notify_owner_of_rejection (some application) reason m =
      notify_by_push application (notify_by_mail application reason m)
