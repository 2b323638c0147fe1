-- ===== src/SenderPolicy.antt =====
-- applications/inbound_sender_policy.py: whose mail to an application's alias becomes a
-- notification. `strip().lower()` is the parameter `normalise`.
pub mod Text
pub mod Laws
mod Tests
use Prim.Native.String.{slice, len, ◌++◌}
use push_it_server.Prelude.{
  String, Bool, true, false, not, ◌&&◌, ◌||◌, Option, none, some, List, [], ◌∷◌, str_eq,
  starts_with, if◌then◌else◌,
}
use push_it_server.Models.{Application, SenderMode, mode_owner, mode_anyone}
use push_it_server.SenderPolicy.Text.{after_at, ends_with}

-- ACCEPTED_ and REASON_
pub data SenderReason : Type 0 where
  accepted_owner accepted_allowlist accepted_anyone reason_blocklisted reason_not_allowed :
      SenderReason
  reason_not_authenticated : SenderReason

pub record SenderPolicyDecision : Type 0 where
  pub accepted : Bool
  pub reason : SenderReason
  pub is_owner : Bool

-- one round of the loop of `sender_matches`
unfoldable pub entry_matches : String → String → String → Bool
entry_matches sender sender_domain entry =
    if starts_with entry "@*."
    then (let base = slice entry 3 (len entry) in
        not (str_eq base "")
        && (str_eq sender_domain base || ends_with sender_domain ("." ++ base)))
    else str_eq entry sender || str_eq entry ("@" ++ sender_domain)

module _ (normalise : String → String) where
  unfoldable pub any_entry : String → String → List String → Bool
  any_entry sender sender_domain [] = false
  any_entry sender sender_domain (entry ∷ entries) =
      entry_matches sender sender_domain (normalise entry) || any_entry sender sender_domain entries

  unfoldable pub sender_matches : String → List String → Bool
  sender_matches sender entries = elim (after_at (normalise sender)) [
    | none ↦ false
    | some sender_domain ↦
        not (str_eq sender_domain "") && any_entry (normalise sender) sender_domain entries
  ]

  unfoldable pub evaluate_sender_policy : Application → String → SenderPolicyDecision
  evaluate_sender_policy application raw_sender =
      let sender = normalise raw_sender in
      let owner_email = normalise application.owner.email in
      if not (str_eq owner_email "") && str_eq sender owner_email
      then record { accepted = true; reason = accepted_owner; is_owner = true }
      else if sender_matches sender application.inbound_sender_blocklist
      then record { accepted = false; reason = reason_blocklisted; is_owner = false }
      else elim application.inbound_sender_mode [
        | mode_anyone ↦ record { accepted = true; reason = accepted_anyone; is_owner = false }
        | mode_owner ↦
            if sender_matches sender application.inbound_sender_allowlist
            then record { accepted = true; reason = accepted_allowlist; is_owner = false }
            else record { accepted = false; reason = reason_not_allowed; is_owner = false }
      ]
