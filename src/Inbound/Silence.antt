-- ===== src/Inbound/Silence.antt =====
-- To whom the server answers: the replies of notifications/inbound_mailbox.py.
use push_it_server.Prelude.{◌≡◌, ◌⊎◌, true, false, none, some, ◌∷◌}
use push_it_server.Models.{Application, log_rejected}
use push_it_server.SenderPolicy.{SenderReason}
use push_it_server.Inbound.{GraphEmail}
use push_it_server.Inbound.Validation.{Context, Validation, invalid, valid, normalise}
use push_it_server.Inbound.Processing.{
  Mailbox, PollEnv, Reply, notify_owner_of_rejection, journaled, auto_reply_block_reason,
  is_unauthenticated,
}
use push_it_server.Inbound.Poll.{is_known_user_wrong_address, id_of}

-- why a mail may be answered: it names no application and a known user sent it, or the policy of an
-- application that wants replies refused its sender
abbrev pub MayAnswer : Validation → Type 0
MayAnswer (valid a) = ⊥
MayAnswer (invalid errors context) =
    ((context.inbound_rejection ≡ none) × (is_known_user_wrong_address errors ≡ true))
    ⊎ ((reason : SenderReason) × (application : Application) × (context.inbound_rejection
          ≡ some reason)
        × (is_unauthenticated reason ≡ false)
        × (context.application ≡ some application)
        × (application.inbound_rejection_reply_to_sender ≡ true))

module _ (env : PollEnv) where
  -- at most one reply, to the sender, of a mail that loop protection lets through
  abbrev Answer : GraphEmail → Mailbox → Mailbox → Type 0
  Answer email m t =
      (t.replies ≡ m.replies)
      ⊎ ((reply : Reply) × (t.replies ≡ (reply, normalise env.py email.sender) ∷ m.replies)
          × (auto_reply_block_reason env.py env.settings email ≡ none))

  abbrev Answered : GraphEmail → Validation → Mailbox → Mailbox → Type 0
  Answered email v m t = (t.replies ≡ m.replies) ⊎ (MayAnswer v × Answer email m t)

  abbrev told : GraphEmail → Context → SenderReason → Mailbox → Mailbox
  told email context reason m =
      notify_owner_of_rejection env context.application reason
        (journaled log_rejected email (id_of context.application) none m)
