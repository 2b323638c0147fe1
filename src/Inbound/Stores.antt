-- ===== src/Inbound/Stores.antt =====
-- Refusing a mail leaves the database alone (notifications/inbound_mailbox.py): a reply or a notice is
-- mail, a push, or a key in the cache.
use push_it_server.Prelude.{
  ℕ, ◌≡◌, refl, ◌∙◌, inl, inr, String, Option, none, some, arith, Option-cases,
}
use push_it_server.Models.{Application, User, log_rejected}
use push_it_server.SenderPolicy.{SenderReason}
use push_it_server.Inbound.{GraphEmail}
use push_it_server.Inbound.Validation.{Errors, Context, normalise}
use push_it_server.Inbound.Processing.{
  Mailbox, PollEnv, Reply, unknown_address, rejected_sender, claim, claim_auto_reply_slot,
  send_reply, maybe_send_unknown_address_reply, reply_to_refused_sender, claim_owner_notice_slot,
  push_to_owner_devices, notify_by_mail, notify_by_push, notify_owner_of_rejection,
  record_inbound_email_ingestion, journaled,
}
use push_it_server.Inbound.Poll.{refuse, reply_if_opted_in, refuse_by_policy, id_of}

store-claim :
    (now interval : ℕ) (key : String) (m : Mailbox) → (claim now interval key m).1.store ≡ m.store
unfolding claim
store-claim now interval key m = ground arith

module _ (env : PollEnv) where
  store-send_reply : (r : Reply) (s : String) (m : Mailbox) → (send_reply env r s m).store ≡ m.store
  unfolding send_reply
  store-send_reply unknown_address s m = ground arith
  store-send_reply rejected_sender s m = refl

  store-reply_slot :
      (sender : String) (m : Mailbox) → (claim_auto_reply_slot env sender m).1.store ≡ m.store
  unfolding claim_auto_reply_slot
  store-reply_slot sender m = store-claim _ _ _ m

  pub store-maybe_send :
      (email : GraphEmail) (r : Reply) (m : Mailbox)
      → (maybe_send_unknown_address_reply env email r m).store ≡ m.store
  unfolding maybe_send_unknown_address_reply
  store-maybe_send email r m =
      let (b, t) = claim_auto_reply_slot env email.sender m in
      ground (
        arith,
        store-reply_slot email.sender m,
        store-send_reply r (normalise env.py email.sender) t,
      )

  store-owner_slot :
      (u : User) (c : String) (m : Mailbox) → (claim_owner_notice_slot env u c m).1.store ≡ m.store
  unfolding claim_owner_notice_slot
  store-owner_slot u c m = store-claim _ _ _ m

  store-notify_by_push : (a : Application) (t : Mailbox) → (notify_by_push env a t).store ≡ t.store
  unfolding notify_by_push push_to_owner_devices
  store-notify_by_push a t = ground (arith, store-owner_slot a.owner "push" t)

  store-notify_by_mail :
      (a : Application) (reason : SenderReason) (t : Mailbox)
      → (notify_by_mail env a reason t).store ≡ t.store
  unfolding notify_by_mail
  store-notify_by_mail a reason t = ground (arith, store-owner_slot a.owner "email" t)

  store-notify :
      (found : Option Application) (reason : SenderReason) (m : Mailbox)
      → (notify_owner_of_rejection env found reason m).store ≡ m.store
  unfolding notify_owner_of_rejection
  store-notify none reason m = refl
  store-notify (some application) reason m =
      store-notify_by_push application (notify_by_mail env application reason m)
      ∙ store-notify_by_mail application reason m

  store-reply :
      (email : GraphEmail) (found : Option Application) (reason : SenderReason) (m : Mailbox)
      → (reply_if_opted_in env email found reason m).store ≡ m.store
  unfolding reply_if_opted_in reply_to_refused_sender
  store-reply email none reason m = refl
  store-reply email (some application) reason m =
      ground
        (arith, store-maybe_send email unknown_address m, store-maybe_send email rejected_sender m)

  pub store-refuse :
      (email : GraphEmail) (errors : Errors) (context : Context) (m : Mailbox)
      → (refuse env email errors context m).0.store ≡ m.store
  unfolding refuse refuse_by_policy record_inbound_email_ingestion
  store-refuse email errors context m = elim (Option-cases context.inbound_rejection) [
    | inl e ↦ rw (refuse, e) (ground (arith, store-maybe_send email unknown_address m))
    | inr (reason, e) ↦
        let t = journaled log_rejected email (id_of context.application) none m in
        rw (refuse, e)
          (ground (
            arith,
            store-reply email context.application reason
                (notify_owner_of_rejection env context.application reason t),
            store-notify context.application reason t,
          ))
  ]
