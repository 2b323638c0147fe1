-- ===== src/Inbound.antt =====
-- The mail that becomes notifications: notifications/inbound_auth.py, inbound_email.py,
-- inbound_mailbox.py and inbound_reply.py, and the validation in notifications/serializers.py. The
-- texts of replies, notices and log rows are left out. `Python` is what the code uses of Python's
-- and Django's libraries.
pub mod Addresses
pub mod Validation
pub mod Processing
pub mod Poll
pub mod Stores
pub mod Authorised
pub mod Counting
pub mod Silence
pub mod Retries
mod Tests
use push_it_server.Prelude.{
  ℕ, String, Bool, true, false, not, ◌&&◌, Option, none, some, str_eq, if◌then◌else◌, List,
}

-- the outcome of django.utils.dateparse.parse_datetime that is not None
pub data ParsedDatetime : Type 0 where
  naive : ParsedDatetime
  aware : ℕ → ParsedDatetime

pub record Python : Type 0 where
  pub strip : String → String
  pub lower : String → String
  pub rstrip_dots : String → String  -- rstrip(".")
  pub search : String → String → Option String  -- re.search(pattern, text).group(1)
  pub remove_first : String → String → String  -- re.sub(pattern, "", text, count=1)
  pub join_words : String → String  -- " ".join(text.split())
  pub parse_address : String → String  -- email.utils.parseaddr(text)[1]
  pub parse_datetime : String → Option ParsedDatetime
  pub matches_robot : String → Bool  -- _ROBOT_SENDER_RE.match
  pub str : ℕ → String
  pub sha256 : String → String

pub record InboundSettings : Type 0 where
  pub domain : String
  pub alias_suffix : String
  pub graph_mailbox_user_id : String
  pub exchange_shared_mailbox : String
  pub require_dmarc : Bool
  pub trust_internal : Bool
  pub accept_bestguesspass : Bool
  pub allow_no_policy : Bool
  pub notify_owner : Bool
  pub auto_reply_interval_seconds : ℕ
  pub max_processing_attempts : ℕ

pub record GraphEmail : Type 0 where
  pub graph_id : String
  pub sender : String
  pub recipient : String
  pub subject : String
  pub text : String
  pub message_id : String
  pub authentication_results : String
  pub recipients : List String
  pub headers : String → Option String

-- `headers.get(name, "")`
abbrev pub header : GraphEmail → String → String
header email name = elim (email.headers name) [ none ↦ "" | some value ↦ value ]

-- `dmarc_other` is f"dmarc_{verdict}"
pub data AuthReason : Type 0 where
  dmarc_pass dmarc_bestguesspass internal_org dmarc_none misaligned no_auth_results : AuthReason
  no_dmarc_verdict : AuthReason
  dmarc_other : String → AuthReason

pub record SenderAuthVerdict : Type 0 where
  pub accepted : Bool
  pub reason : AuthReason
  pub dmarc_verdict : String

unfoldable pub dmarc_pattern : String
dmarc_pattern = "\\bdmarc=([a-z]+)"

unfoldable pub header_from_pattern : String
header_from_pattern = "\\bheader\\.from=([^\\s;]+)"

module _ (py : Python) (settings : InboundSettings) where
  -- `header_from is not None and header_from.group(1).rstrip(".") != sender_domain.lower()`
  unfoldable pub is_misaligned : String → String → Bool
  is_misaligned lowered sender_domain = elim (py.search header_from_pattern lowered) [
    | none ↦ false
    | some domain ↦ not (str_eq (py.rstrip_dots domain) (py.lower sender_domain))
  ]

  unfoldable pub judge_verdict : String → SenderAuthVerdict
  judge_verdict verdict =
      if str_eq verdict "pass"
      then record { accepted = true; reason = dmarc_pass; dmarc_verdict = verdict }
      else if str_eq verdict "bestguesspass"
      then record {
        accepted = settings.accept_bestguesspass;
        reason = dmarc_bestguesspass;
        dmarc_verdict = verdict;
      }
      else if str_eq verdict "none"
      then record {
        accepted = settings.allow_no_policy;
        reason = dmarc_none;
        dmarc_verdict = verdict;
      }
      else record { accepted = false; reason = dmarc_other verdict; dmarc_verdict = verdict }

  unfoldable pub evaluate_sender_authentication : String → String → String → SenderAuthVerdict
  evaluate_sender_authentication authentication_results sender_domain auth_as =
      if settings.trust_internal && str_eq (py.lower (py.strip auth_as)) "internal"
      then record { accepted = true; reason = internal_org; dmarc_verdict = "" }
      else (let lowered = py.lower authentication_results in
          if str_eq (py.strip lowered) ""
          then record { accepted = false; reason = no_auth_results; dmarc_verdict = "" }
          else elim (py.search dmarc_pattern lowered) [
            | none ↦ record { accepted = false; reason = no_dmarc_verdict; dmarc_verdict = "" }
            | some verdict ↦
                if is_misaligned lowered sender_domain
                then record { accepted = false; reason = misaligned; dmarc_verdict = verdict }
                else judge_verdict verdict
          ])
