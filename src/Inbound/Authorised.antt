-- ===== src/Inbound/Authorised.antt =====
-- Whose mail becomes a notification (notifications/inbound_mailbox.py, notifications/serializers.py).
use push_it_server.Prelude.{
  ◌≡◌, refl, sym, ap, subst, ◌⊎◌, inl, inr, String, Bool, true, false, str_eq, eq_iff, Option, none,
  some, List, [], ◌∷◌, is_none, is_empty, first, arith, Bool-cases, Option-cases, In,
}
use push_it_server.Models.{Application}
use push_it_server.Creation.{
  CreationResult, returned, operational_error, NotificationCreationOutcome,
  create_notification_with_optional_idempotency,
}
use push_it_server.SenderPolicy.{evaluate_sender_policy}
use push_it_server.Inbound.{Python, InboundSettings, GraphEmail}
use push_it_server.Inbound.Addresses.{
  split_at, is_inbound_alias_address, is_alias_local_part, is_mailbox_address, inbound_domain,
}
use push_it_server.Inbound.Validation.{
  Attributes, Accepted, Errors, Validation, invalid, valid, validate, conclude, check_sender,
  SenderCheck, verdict_on, normalise, find_application_by_alias, routes_to, accepted_mail,
  no_errors, check_subject, is_user, errors_of, InboundError,
}
use push_it_server.Inbound.Stores.{store-refuse}
use push_it_server.Inbound.Processing.{Mailbox, PollEnv, record_inbound_email_ingestion}
use push_it_server.Inbound.Poll.{process_email, judge, validation, create_from, settle, draft_of}

first-In :
    (p : Application → Bool) (xs : List Application) (a : Application)
    → first p xs ≡ some a
    → In a xs × (p a ≡ true)
first-In p [] a h = absurd (ground arith)
first-In p (x ∷ xs) a h = elim (Bool-cases (p x)) [
  | inl e ↦ let same : x ≡ a = ground arith in (inl (sym same), subst (λ y. p y ≡ true) same e)
  | inr e ↦ let (i, q) = first-In p xs a (ground arith) in (inr i, q)
]

conclude-inv :
    (py : Python) (settings : InboundSettings) (found : Option Application) (errors : Errors)
    (check : SenderCheck) (accepted : Application → Accepted) (a : Accepted)
    → conclude py settings found errors check accepted ≡ valid a
    → (application : Application) × (found ≡ some application)
      × (no_errors errors ≡ true)
      × (accepted application ≡ a)
unfolding conclude
conclude-inv py settings none errors check accepted a h = absurd (ground arith)
conclude-inv py settings (some application) errors check accepted a h =
    elim (Bool-cases (no_errors errors)) [
      | inl e ↦ (application, refl, e, ground arith)
      | inr e ↦ absurd (ground arith)
    ]

check_sender-inv :
    (py : Python) (settings : InboundSettings) (application : Application) (known : Bool)
    (attrs : Attributes) (sender : String)
    → is_empty (check_sender py settings (some application) known attrs sender).errors ≡ true
    → ((evaluate_sender_policy (normalise py) application sender).accepted ≡ true)
      × (settings.require_dmarc ≡ true → (verdict_on py settings attrs sender).accepted ≡ true)
unfolding check_sender
check_sender-inv py settings application known attrs sender h =
    elim (Bool-cases (evaluate_sender_policy (normalise py) application sender).accepted) [
      | inl e ↦ (e, λ r. ground arith)
      | inr e ↦ absurd (
          ground
            (arith, Bool-cases (evaluate_sender_policy (normalise py) application sender).accepted))
    ]

find_application_by_alias-inv :
    (py : Python) (settings : InboundSettings) (local_part recipient : String)
    (applications : List Application) (a : Application)
    → find_application_by_alias py settings local_part recipient applications ≡ some a
    → In a applications
      × (a.is_active ≡ true)
      × (is_none a.revoked_at ≡ true)
      × (str_eq (py.lower a.inbound_email_alias) (py.lower local_part) ≡ true)
      × (is_alias_local_part py settings local_part ≡ true)
      × (is_mailbox_address py settings recipient ≡ false)
unfolding find_application_by_alias
find_application_by_alias-inv py settings local_part recipient applications a h =
    let (i, q) = first-In (routes_to py settings local_part) applications a (ground arith) in
    (i, ground arith, ground arith, ground arith, ground arith, ground arith)

-- The recipient is the alias of the application, at the domain for mail, and not the mailbox itself.
pub record IsRouted (py : Python) (settings : InboundSettings) (recipient : String)
    (application : Application) : Type 0 where
  pub local_part : String
  pub domain : String
  pub parts : split_at recipient ≡ some (local_part, domain)
  pub own_domain : domain ≡ inbound_domain py settings
  pub alias_form : is_alias_local_part py settings local_part ≡ true
  pub not_mailbox : is_mailbox_address py settings recipient ≡ false
  pub own_alias : py.lower application.inbound_email_alias ≡ py.lower local_part

-- The application is the one that the mail is for, and takes mail from the sender, who is
-- authenticated where that is required.
pub record IsAuthorised (env : PollEnv) (email : GraphEmail) (m : Mailbox)
    (application : Application) : Type 0 where
  pub attrs : Attributes
  pub cleaned : env.clean_fields email ≡ some attrs
  pub there : In application m.store.applications
  pub routed : IsRouted env.py env.settings (normalise env.py attrs.recipient) application
  pub active : application.is_active ≡ true
  pub not_revoked : is_none application.revoked_at ≡ true
  pub permitted :
      (evaluate_sender_policy
        (normalise env.py)
        application
        (normalise env.py attrs.sender)).accepted
      ≡ true
  pub authenticated :
      env.settings.require_dmarc ≡ true
      → (verdict_on env.py env.settings attrs (normalise env.py attrs.sender)).accepted ≡ true

domain_checked :
    (py : Python) (settings : InboundSettings) (domain : String) (found : Option Application)
    (subject_errors : List InboundError) (attrs : Attributes) (check : SenderCheck)
    → no_errors (errors_of py settings domain found subject_errors attrs check) ≡ true
    → str_eq domain (inbound_domain py settings) ≡ true
domain_checked py settings domain none subject_errors attrs check h = absurd (ground arith)
domain_checked py settings domain (some application) subject_errors attrs check h =
    elim (Bool-cases (str_eq domain (inbound_domain py settings))) [
      | inl e ↦ e
      | inr e ↦ absurd (ground arith)
    ]

validate-inv :
    (env : PollEnv) (email : GraphEmail) (m : Mailbox) (attrs : Attributes) (a : Accepted)
    → env.clean_fields email ≡ some attrs
    → validate env.py env.settings env.now m.store.applications m.users attrs ≡ valid a
    → IsAuthorised env email m a.application
unfolding validate
validate-inv env email m attrs a c h =
    let py = env.py in
    let settings = env.settings in
    let sender = normalise py attrs.sender in
    let recipient = normalise py attrs.recipient in
    elim (Option-cases (split_at recipient)) [
      | inl e ↦ absurd (ground arith)
      | inr ((local_part, domain), e) ↦
          let (title, scheduled_for, subject_errors) =
            check_subject py settings env.now attrs.subject in
          let found =
            find_application_by_alias py settings local_part recipient m.store.applications in
          let check = check_sender py settings found (is_user m.users sender) attrs sender in
          let (application, f, ok, same) =
            conclude-inv py settings found
              (errors_of py settings domain found subject_errors attrs check) check
              (accepted_mail py settings attrs sender recipient title scheduled_for) a
              (ground arith) in
          let (there, active, not_revoked, alias, form, other) =
            find_application_by_alias-inv py settings local_part recipient m.store.applications
              application f in
          let (permitted, authenticated) =
            check_sender-inv py settings application (is_user m.users sender) attrs sender (
              subst
                (λ o.
                  is_empty (check_sender py settings o (is_user m.users sender) attrs sender).errors
                  ≡ true)
                f (ground arith)) in
          subst (IsAuthorised env email m) (ap (λ (x : Accepted). x.application) same) (record {
            attrs = attrs;
            cleaned = c;
            there = there;
            routed = record {
              local_part = local_part;
              domain = domain;
              parts = e;
              own_domain =
                  (eq_iff domain (inbound_domain py settings)).0
                    (domain_checked py settings domain found subject_errors attrs check ok);
              alias_form = form;
              not_mailbox = other;
              own_alias =
                  (eq_iff (py.lower application.inbound_email_alias) (py.lower local_part)).0 alias;
            };
            active = active;
            not_revoked = not_revoked;
            permitted = permitted;
            authenticated = authenticated;
          })
    ]

validation-inv :
    (env : PollEnv) (email : GraphEmail) (m : Mailbox) (a : Accepted)
    → validation env email m ≡ valid a
    → IsAuthorised env email m a.application
unfolding validation
validation-inv env email m a h = elim (Option-cases (env.clean_fields email)) [
  | inl e ↦ absurd (ground arith)
  | inr (attrs, e) ↦ validate-inv env email m attrs a e (ground arith)
]

settled :
    (env : PollEnv) (email : GraphEmail) (a : Accepted) (m : Mailbox) (r : CreationResult)
    → ((settle env email a m r).0.store ≡ m.store)
      ⊎ ((outcome : NotificationCreationOutcome) × (r
            ≡ returned outcome (settle env email a m r).0.store))
unfolding settle record_inbound_email_ingestion
settled env email a m (operational_error e) = inl refl
settled env email a m (returned outcome s) = inr (outcome, ap (returned outcome) (sym kept))
  where
    kept : (settle env email a m (returned outcome s)).0.store ≡ s
    kept = ground arith

-- A mail changes the tables of notifications, deliveries, devices, links and applications only by the
-- creation of a notification, for an active application whose alias it is addressed to, at the domain
-- for mail, and whose policy accepts the sender, who is authenticated where DMARC is required. Any
-- other mail leaves these tables as they are; the journal of mails is not one of them.
pub process_email-IsAuthorised :
    (env : PollEnv) (email : GraphEmail) (m : Mailbox)
    → ((process_email env email m).0.store ≡ m.store)
      ⊎ ((a : Accepted) × (outcome : NotificationCreationOutcome) × IsAuthorised env email m
            a.application
          × (create_notification_with_optional_idempotency env.vendor
                (env.trouble email)
                (draft_of env email a)
                m.store
              ≡ returned outcome (process_email env email m).0.store))
unfolding process_email judge validation create_from
process_email-IsAuthorised env email m =
    elim (Bool-cases (is_inbound_alias_address env.py env.settings email.recipient)) [
      | inr e ↦ rw (process_email, e) (inl refl)
      | inl e ↦ rw (process_email, e) (judged env email m (validation env email m) refl)
    ]
  where
    judged :
        (env : PollEnv) (email : GraphEmail) (m : Mailbox) (v : Validation)
        → validation env email m ≡ v
        → ((judge env email v m).0.store ≡ m.store)
          ⊎ ((a : Accepted) × (outcome : NotificationCreationOutcome) × IsAuthorised env email m
                a.application
              × (create_notification_with_optional_idempotency env.vendor
                    (env.trouble email)
                    (draft_of env email a)
                    m.store
                  ≡ returned outcome (judge env email v m).0.store))
    judged env email m (invalid errors context) h = inl (store-refuse env email errors context m)
    judged env email m (valid a) h =
        elim (settled env email a m (
          create_notification_with_optional_idempotency env.vendor (env.trouble email)
            (draft_of env email a) m.store)) [
              | inl e ↦ inl e
              | inr (outcome, e) ↦ inr (a, outcome, validation-inv env email m a h, e)
            ]
