-- ===== src/Inbound/Validation.antt =====
-- notifications/inbound_email.py, and the validate method of NotificationInboundEmailSerializer in
-- notifications/serializers.py, once the fields are valid by themselves.
use Prim.Native.String.{len}
use push_it_server.Prelude.{
  ℕ, String, Bool, true, false, not, ◌&&◌, Option, none, some, List, [], ◌∷◌, ◌++◌, str_eq, ltb,
  leb, first, is_none, is_empty, if◌then◌else◌,
}
use push_it_server.Models.{Application, User}
use push_it_server.SenderPolicy.{
  SenderReason, evaluate_sender_policy, reason_blocklisted, reason_not_authenticated,
}
use push_it_server.SenderPolicy.Text.{after_at}
use push_it_server.Inbound.{
  Python, InboundSettings, naive, aware, SenderAuthVerdict, evaluate_sender_authentication,
}
use push_it_server.Inbound.Addresses.{
  split_at, inbound_domain, is_alias_local_part, is_mailbox_address,
}

-- the validated fields, trimmed
pub record Attributes : Type 0 where
  pub sender : String
  pub recipient : String
  pub subject : String
  pub text : String
  pub message_id : String
  pub authentication_results : String
  pub exchange_auth_as : String

pub data InboundError : Type 0 where
  invalid_email_address domain_must_be no_application_matches invalid_marker subject_empty :
      InboundError
  not_in_future body_empty body_too_long no_user_matches sender_blocked sender_not_allowed :
      InboundError
  failed_dmarc : InboundError

pub record Errors : Type 0 where
  pub recipient : List InboundError
  pub subject : List InboundError
  pub text : List InboundError
  pub sender : List InboundError

-- what the context of the serializer holds after a refusal
pub record Context : Type 0 where
  pub inbound_rejection : Option SenderReason
  pub sender_auth_rejection : Option SenderAuthVerdict
  pub application : Option Application

-- the context and the attributes after a success
pub record Accepted : Type 0 where
  pub application : Application
  pub policy : SenderReason
  pub sender : String
  pub recipient : String
  pub title : String
  pub text : String
  pub message_id : String
  pub scheduled_for : Option ℕ

pub data Validation : Type 0 where
  invalid : Errors → Context → Validation
  valid : Accepted → Validation

pub record SenderCheck : Type 0 where
  pub errors : List InboundError
  pub rejection : Option SenderReason
  pub auth_rejection : Option SenderAuthVerdict

abbrev pub sender_passes : SenderCheck
sender_passes = record { errors = []; rejection = none; auth_rejection = none }

unfoldable pub send_at_pattern : String
send_at_pattern = "\\[\\s*SEND_AT\\s*:\\s*(?P<scheduled_for>[^\\]]+)\\s*\\]"

abbrev pub error_if : Bool → InboundError → List InboundError
error_if b e = if b then e ∷ [] else []

-- `scheduled_for is not None and scheduled_for <= timezone.now()`
abbrev pub is_past : ℕ → Option ℕ → Bool
is_past now none = false
is_past now (some scheduled_for) = leb scheduled_for now

abbrev pub no_errors : Errors → Bool
no_errors e = is_empty e.recipient && is_empty e.subject && is_empty e.text && is_empty e.sender

abbrev pub is_user : List User → String → Bool
is_user users sender = elim (first (λ u. str_eq u.email sender) users) [
  | none ↦ false
  | some u ↦ true
]

-- `strip().lower()`
abbrev pub normalise : Python → String → String
normalise py value = py.lower (py.strip value)

module _ (py : Python) (settings : InboundSettings) where
  -- the title and the instant, or `none` for the ValueError
  unfoldable pub extract_subject_schedule : String → Option (String × Option ℕ)
  extract_subject_schedule subject = elim (py.search send_at_pattern subject) [
    | none ↦ some (py.join_words subject, none)
    | some scheduled_for_raw ↦ elim (py.parse_datetime (py.strip scheduled_for_raw)) [
      | none ↦ none
      | some parsed ↦ elim parsed [
        | naive ↦ none
        | aware scheduled_for ↦
            some (py.join_words (py.remove_first send_at_pattern subject), some scheduled_for)
      ]
    ]
  ]

  -- the title, the instant and the errors of the subject
  unfoldable pub check_subject : ℕ → String → String × Option ℕ × List InboundError
  check_subject now subject = elim (extract_subject_schedule subject) [
    | none ↦ ("", none, invalid_marker ∷ subject_empty ∷ [])
    | some (title, scheduled_for) ↦ (
      title,
      scheduled_for,
      error_if (str_eq title "") subject_empty
          ++ error_if (is_past now scheduled_for) not_in_future,
    )
  ]

  unfoldable pub check_text : String → List InboundError
  check_text text =
      if str_eq (py.strip text) ""
      then body_empty ∷ []
      else error_if (ltb 5000 (len (py.strip text))) body_too_long

  abbrev pub routes_to : String → Application → Bool
  routes_to local_part a =
      str_eq (py.lower a.inbound_email_alias) (py.lower local_part)
      && a.is_active
      && is_none a.revoked_at

  unfoldable pub find_application_by_alias : String → String → List Application → Option Application
  find_application_by_alias local_part recipient applications =
      if is_alias_local_part py settings local_part
        && not (is_mailbox_address py settings recipient)
      then first (routes_to local_part) applications
      else none

  -- the verdict on a sender whom the policy accepts
  unfoldable pub verdict_on : Attributes → String → SenderAuthVerdict
  verdict_on attrs sender =
      evaluate_sender_authentication py settings attrs.authentication_results
        (elim (after_at sender) [ none ↦ sender | some domain ↦ domain ]) attrs.exchange_auth_as

  unfoldable pub check_sender : Option Application → Bool → Attributes → String → SenderCheck
  check_sender none known attrs sender =
      if known
      then sender_passes
      else record { errors = no_user_matches ∷ []; rejection = none; auth_rejection = none }
  check_sender (some application) known attrs sender =
      let policy = evaluate_sender_policy (normalise py) application sender in
      let verdict = verdict_on attrs sender in
      if not policy.accepted
      then record {
        errors = elim policy.reason [
          | reason_blocklisted ↦ sender_blocked ∷ []
          | _ ↦ sender_not_allowed ∷ []
        ];
        rejection = some policy.reason;
        auth_rejection = none;
      }
      else if not verdict.accepted && settings.require_dmarc
      then record {
        errors = failed_dmarc ∷ [];
        rejection = some reason_not_authenticated;
        auth_rejection = some verdict;
      }
      else sender_passes

  -- the end of `validate`: an application is there where the recipient has no error
  unfoldable pub conclude :
      Option Application → Errors → SenderCheck → (Application → Accepted) → Validation
  conclude none errors check accepted = invalid errors (record {
    inbound_rejection = check.rejection;
    sender_auth_rejection = check.auth_rejection;
    application = none;
  })
  conclude (some application) errors check accepted =
      if no_errors errors
      then valid (accepted application)
      else invalid errors (record {
        inbound_rejection = check.rejection;
        sender_auth_rejection = check.auth_rejection;
        application = elim check.rejection [ none ↦ none | some reason ↦ some application ];
      })

  abbrev pub accepted_mail :
      Attributes → String → String → String → Option ℕ → Application → Accepted
  accepted_mail attrs sender recipient title scheduled_for application = record {
    application = application;
    policy = (evaluate_sender_policy (normalise py) application sender).reason;
    sender = sender;
    recipient = recipient;
    title = title;
    text = py.strip attrs.text;
    message_id = py.strip attrs.message_id;
    scheduled_for = scheduled_for;
  }

  abbrev pub errors_of :
      String → Option Application → List InboundError → Attributes → SenderCheck → Errors
  errors_of domain application subject_errors attrs check = record {
    recipient =
        error_if (not (str_eq domain (inbound_domain py settings))) domain_must_be
        ++ error_if (is_none application) no_application_matches;
    subject = subject_errors;
    text = check_text attrs.text;
    sender = check.errors;
  }

  unfoldable pub validate : ℕ → List Application → List User → Attributes → Validation
  validate now applications users attrs =
      let sender = normalise py attrs.sender in
      let recipient = normalise py attrs.recipient in
      elim (split_at recipient) [
        | none ↦
            invalid
              (record {
                recipient = invalid_email_address ∷ [];
                subject = [];
                text = [];
                sender = [];
              })
              (record {
                inbound_rejection = none;
                sender_auth_rejection = none;
                application = none;
              })
        | some (local_part, domain) ↦
            let (title, scheduled_for, subject_errors) = check_subject now attrs.subject in
            let application = find_application_by_alias local_part recipient applications in
            let check = check_sender application (is_user users sender) attrs sender in
            conclude application (errors_of domain application subject_errors attrs check) check
              (accepted_mail attrs sender recipient title scheduled_for)
      ]
