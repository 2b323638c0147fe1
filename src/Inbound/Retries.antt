-- ===== src/Inbound/Retries.antt =====
-- The cap on the attempts at a mail that cannot be processed: _record_processing_failure of
-- notifications/inbound_mailbox.py.
use push_it_server.Prelude.{
  ℕ, zero, suc, ◌+◌, ◌≤◌, ◌<◌, ◌≡◌, refl, sym, subst, inl, false, In, str_eq, eq_iff, Bool-cases,
  true, none, some, List, String, inr, ltb, arith,
}
use push_it_server.Models.{log_error}
use push_it_server.Inbound.{GraphEmail}
use push_it_server.Inbound.Processing.{Mailbox, PollEnv, journaled, record_inbound_email_ingestion}
use push_it_server.Inbound.Poll.{record_processing_failure, failures, cap_attempts, mark_email_read}

module _ (env : PollEnv) (email : GraphEmail) where
  -- the mailbox after a poll at which the mail could not be processed; one whose failure cannot be
  -- recorded leaves it alone
  abbrev pub after_failure : Mailbox → Mailbox
  after_failure m = elim (record_processing_failure env email m) [ none ↦ m | some t ↦ t ]

  -- and after `n` of them
  abbrev pub after_failures : ℕ → Mailbox → Mailbox
  after_failures zero m = m
  after_failures (suc n) m = after_failure (after_failures n m)

  -- the database takes every row that tells of a failure of the mail
  abbrev pub Recorded : Type 0
  Recorded = (m : Mailbox) → env.journal_takes log_error email m ≡ true

  -- A poll records the failure, unless the database does not take it.
  failures_grow :
      (m : Mailbox)
      → env.journal_takes log_error email m ≡ true
      → failures email.graph_id (after_failure m).journal ≡ suc (failures email.graph_id m.journal)
  unfolding record_processing_failure record_inbound_email_ingestion cap_attempts
  failures_grow m h = ground (arith, eq_iff email.graph_id email.graph_id)

  failures-after :
      (n : ℕ) (m : Mailbox)
      → Recorded
      → failures email.graph_id (after_failures n m).journal ≡ n + failures email.graph_id m.journal
  failures-after zero m r = omega arith
  failures-after (suc n) m r =
      omega
        (arith, failures_grow (after_failures n m) (r (after_failures n m)), failures-after n m r)

  -- below the cap the mail stays unread, and from the cap on it is read
  abbrev IsCapped : List String → Mailbox → Type 0
  IsCapped unread t =
      (failures email.graph_id t.journal < env.settings.max_processing_attempts → t.marked ≡ unread)
      × (env.settings.max_processing_attempts ≤ failures email.graph_id t.journal
          → In email.graph_id t.marked)

  -- the mailbox with the failure in the journal
  abbrev failed_again : Mailbox → Mailbox
  failed_again m = journaled log_error email none none m

  failures_again :
      (m : Mailbox)
      → failures email.graph_id (failed_again m).journal ≡ suc (failures email.graph_id m.journal)
  failures_again m = ground (arith, eq_iff email.graph_id email.graph_id)

  after_recorded :
      (m : Mailbox)
      → env.journal_takes log_error email m ≡ true
      → after_failure m ≡ cap_attempts env email (failed_again m)
  unfolding record_processing_failure record_inbound_email_ingestion
  after_recorded m h = ground arith

  after_unrecorded :
      (m : Mailbox) → env.journal_takes log_error email m ≡ false → after_failure m ≡ m
  unfolding record_processing_failure record_inbound_email_ingestion
  after_unrecorded m h = ground arith

  cap_attempts-IsCapped :
      (unread : List String) (t : Mailbox)
      → str_eq email.graph_id "" ≡ false
      → 1 ≤ env.settings.max_processing_attempts
      → (failures email.graph_id t.journal < env.settings.max_processing_attempts
          → t.marked ≡ unread)
      → IsCapped unread (cap_attempts env email t)
  unfolding cap_attempts
  cap_attempts-IsCapped unread t h k below =
      elim (Bool-cases
        (ltb (failures email.graph_id t.journal) env.settings.max_processing_attempts)) [
          | inl e ↦
              let same : cap_attempts env email t ≡ t = ground arith in
              subst (IsCapped unread) (sym same) (below, λ l. absurd (ground arith))
          | inr e ↦
              let read : cap_attempts env email t ≡ mark_email_read email.graph_id t =
                ground arith in
              subst (IsCapped unread) (sym read) ((λ l. absurd (ground arith)), (λ l. inl refl))
        ]

  after_failure-IsCapped :
      (unread : List String) (m : Mailbox)
      → str_eq email.graph_id "" ≡ false
      → 1 ≤ env.settings.max_processing_attempts
      → IsCapped unread m
      → IsCapped unread (after_failure m)
  after_failure-IsCapped unread m h k c = elim (Bool-cases (env.journal_takes log_error email m)) [
    | inr e ↦ subst (IsCapped unread) (sym (after_unrecorded m e)) c
    | inl e ↦ subst (IsCapped unread) (sym (after_recorded m e)) (
        cap_attempts-IsCapped unread (failed_again m) h k
          (λ l. c.0 (omega (arith, l, failures_again m))))
  ]

  after_failures-IsCapped :
      (n : ℕ) (m : Mailbox)
      → str_eq email.graph_id "" ≡ false
      → 1 ≤ env.settings.max_processing_attempts
      → failures email.graph_id m.journal ≡ 0
      → IsCapped m.marked (after_failures n m)
  after_failures-IsCapped zero m h k z = ((λ l. refl), (λ l. absurd (omega (arith, k, l, z))))
  after_failures-IsCapped (suc n) m h k z =
      after_failure-IsCapped m.marked (after_failures n m) h k (after_failures-IsCapped n m h k z)

  -- A mail with an identifier that cannot be processed, at one poll after another, is left unread
  -- while fewer failures than the cap are recorded, so that it is tried again, and is marked as read
  -- once as many are, so that it is not retried for good. Where the database takes every row of the
  -- journal that tells of a failure, one is recorded at each attempt. The cap must be positive, and no
  -- failure of the mail may have been recorded before.
  pub record_processing_failure_capped :
      (n : ℕ) (m : Mailbox)
      → str_eq email.graph_id "" ≡ false
      → 1 ≤ env.settings.max_processing_attempts
      → failures email.graph_id m.journal ≡ 0
      → let t = after_failures n m in
        let recorded = failures email.graph_id t.journal in
        (recorded < env.settings.max_processing_attempts → t.marked ≡ m.marked)
        × (env.settings.max_processing_attempts ≤ recorded → In email.graph_id t.marked)
        × (Recorded → recorded ≡ n)
  record_processing_failure_capped n m h k z =
      let capped = after_failures-IsCapped n m h k z in
      (capped.0, capped.1, λ r. omega (arith, failures-after n m r, z))
