-- ===== src/Inbound/Counting.antt =====
-- The counts of a poll (notifications/inbound_mailbox.py).
use push_it_server.Prelude.{
  ℕ, ◌+◌, ◌≤◌, ◌≡◌, refl, ap, ◌∙◌, inl, inr, true, Option, none, some, List, [], ◌∷◌, length, arith,
  Bool-cases, Option-cases, subst,
}
use push_it_server.Models.{log_error}
use push_it_server.Store.{Store}
use push_it_server.Creation.{
  CreationResult, returned, operational_error, create_notification_with_optional_idempotency,
}
use push_it_server.Creation.Laws.{create_notification_with_optional_idempotency_created}
use push_it_server.Inbound.{GraphEmail}
use push_it_server.Inbound.Addresses.{is_inbound_alias_address}
use push_it_server.Inbound.Validation.{Accepted, Validation, invalid, valid, Errors, Context}
use push_it_server.Inbound.Processing.{Mailbox, PollEnv, record_inbound_email_ingestion, journaled}
use push_it_server.Inbound.Stores.{store-refuse}
use push_it_server.Inbound.Poll.{
  Processed, created, process_email, judge, validation, create_from, settle, draft_of,
  record_processing_failure, mark_email_read, Counts, count, refuse, refuse_by_policy, cap_attempts,
  count_failure, no_counts, poll_one, poll_loop, ok, poll_inbound_mailbox,
}

-- how many notifications an outcome says were created
abbrev news : Option Processed → ℕ
news none = 0
news (some created) = 1
news (some o) = 0

-- how many more an exception may leave, where it comes after the creation
abbrev slack : Option Processed → ℕ
slack none = 1
slack (some o) = 0

-- the table has gained what the outcome says, or what an exception has left
abbrev IsGain : ℕ → ℕ → Option Processed → Type 0
IsGain before after o = (before + news o ≤ after) × (after ≤ before + news o + slack o)

rows : Mailbox → ℕ
rows m = length m.store.notifications

settled_rows :
    (env : PollEnv) (email : GraphEmail) (a : Accepted) (m : Mailbox)
    → let (t, o) = create_from env email a m in IsGain (rows m) (rows t) o
unfolding create_from settle record_inbound_email_ingestion rows
settled_rows env email a m =
    go
      (create_notification_with_optional_idempotency env.vendor (env.trouble email)
        (draft_of env email a) m.store)
      refl
  where
    go :
        (r : CreationResult)
        → create_notification_with_optional_idempotency env.vendor
            (env.trouble email)
            (draft_of env email a)
            m.store
          ≡ r
        → let (t, o) = settle env email a m r in IsGain (rows m) (rows t) o
    go (operational_error e) h = (omega arith, omega arith)
    go (returned outcome s) h =
        elim (create_notification_with_optional_idempotency_created env.vendor (env.trouble email)
          (draft_of env email a) m.store s outcome h) [
            | inl (f, c, u, n, e) ↦
                let gained = ap (λ (x : Store). length x.notifications) e in
                (ground (arith, gained), ground (arith, gained))
            | inr (f, c, n, e) ↦
                let kept = ap (λ (x : Store). length x.notifications) e in
                (ground (arith, kept), ground (arith, kept))
          ]

refused_news :
    (env : PollEnv) (email : GraphEmail) (errors : Errors) (context : Context) (m : Mailbox)
    → news (refuse env email errors context m).1 ≡ 0
unfolding refuse refuse_by_policy record_inbound_email_ingestion
refused_news env email errors context m = ground arith

judged_rows :
    (env : PollEnv) (email : GraphEmail) (v : Validation) (m : Mailbox)
    → let (t, o) = judge env email v m in IsGain (rows m) (rows t) o
unfolding judge rows
judged_rows env email (invalid errors context) m =
    let kept =
      ap (λ (x : Store). length x.notifications) (store-refuse env email errors context m) in
    let nothing = refused_news env email errors context m in
    (omega (arith, kept, nothing), omega (arith, kept, nothing))
judged_rows env email (valid a) m = settled_rows env email a m

processed_rows :
    (env : PollEnv) (email : GraphEmail) (m : Mailbox)
    → let (t, o) = process_email env email m in IsGain (rows m) (rows t) o
unfolding process_email rows
processed_rows env email m =
    elim (Bool-cases (is_inbound_alias_address env.py env.settings email.recipient)) [
      | inl e ↦ rw (process_email, e) (judged_rows env email (validation env email m) m)
      | inr e ↦ rw (process_email, e) (omega arith, omega arith)
    ]

-- the database takes every row of the journal that tells of a failure
abbrev pub Recorded : PollEnv → Type 0
Recorded env = (email : GraphEmail) (m : Mailbox) → env.journal_takes log_error email m ≡ true

capped_rows :
    (env : PollEnv) (email : GraphEmail) (m : Mailbox) → rows (cap_attempts env email m) ≡ rows m
unfolding cap_attempts rows
capped_rows env email m = ground arith

failure_rows :
    (env : PollEnv) (email : GraphEmail) (m : Mailbox)
    → env.journal_takes log_error email m ≡ true
    → (t : Mailbox) × (record_processing_failure env email m ≡ some t) × (rows t ≡ rows m)
unfolding record_processing_failure record_inbound_email_ingestion rows
failure_rows env email m h = (
  cap_attempts env email (journaled log_error email none none m),
  ground arith,
  capped_rows env email (journaled log_error email none none m),
)

-- what rounds over `n` mails add up to
record IsCounted (n : ℕ) (m : Mailbox) (c : Counts) (t : Mailbox) (d : Counts) : Type 0 where
  each : d.processed_count + d.failed_count ≡ c.processed_count + c.failed_count + n
  least : rows m + d.created_count ≤ rows t + c.created_count
  most : rows t + c.created_count + c.failed_count ≤ rows m + d.created_count + d.failed_count
  sorted :
      c.created_count + c.rejected_count + c.ignored_count ≤ c.processed_count
      → d.created_count + d.rejected_count + d.ignored_count ≤ d.processed_count

counted :
    (m t : Mailbox) (c : Counts) (o : Processed)
    → IsGain (rows m) (rows t) (some o)
    → IsCounted 1 m c t (count o c)
counted m t c o h = record {
  each = ground arith;
  least = ground (arith, h.0);
  most = ground (arith, h.1);
  sorted = λ k. ground (arith, k);
}

-- The rounds over the mails end, with counters that fit.
abbrev Ends : ℕ → Mailbox → Counts → Mailbox × Option Counts → Type 0
Ends n m c r = (t : Mailbox) × (d : Counts) × (r ≡ (t, some d)) × IsCounted n m c t d

poll_one-Ends :
    (env : PollEnv) (email : GraphEmail) (m : Mailbox) (c : Counts)
    → Recorded env
    → Ends 1 m c (poll_one env email (m, c))
unfolding poll_one rows
poll_one-Ends env email m c r =
    let (t, o) = process_email env email m in
    let gain = processed_rows env email m in
    elim (Option-cases o) [
      | inl e ↦
          let (u, f, same) = failure_rows env email t (r email t) in
          let gain2 : IsGain (rows m) (rows t) none = subst (IsGain (rows m) (rows t)) e gain in
          (
            u,
            count_failure c,
            rw (poll_one, e, f) refl,
            record {
              each = omega arith;
              least = omega (arith, same, gain2.0);
              most = omega (arith, same, gain2.1);
              sorted = λ k. k;
            },
          )
      | inr (p, e) ↦ (
        mark_email_read email.graph_id t,
        count p c,
        rw (poll_one, e) refl,
        counted m (mark_email_read email.graph_id t) c p (subst (IsGain (rows m) (rows t)) e gain),
      )
    ]

poll_loop-Ends :
    (env : PollEnv) (emails : List GraphEmail) (m : Mailbox) (c : Counts)
    → Recorded env
    → Ends (length emails) m c (poll_loop env emails (m, c))
unfolding poll_loop
poll_loop-Ends env [] m c r = (
  m,
  c,
  refl,
  record { each = omega arith; least = omega arith; most = omega arith; sorted = λ k. k },
)
poll_loop-Ends env (email ∷ emails) m c r =
    let (t, d, e, first) = poll_one-Ends env email m c r in
    let (u, x, f, rest) = poll_loop-Ends env emails t d r in
    let step : poll_loop env (email ∷ emails) (m, c) ≡ poll_loop env emails (t, d) =
      ap
        (λ (y : Mailbox × Option Counts). elim y.1 [
          | none ↦ (y.0, none)
          | some z ↦ poll_loop env emails (y.0, z)
        ])
        e in
    (
      u,
      x,
      step ∙ f,
      record {
        each = omega (arith, first.each, rest.each);
        least = omega (arith, first.least, rest.least);
        most = omega (arith, first.most, rest.most);
        sorted = λ k. rest.sorted (first.sorted k);
      },
    )

-- Where the journal takes the rows that tell of failures, a poll goes through all fetched mails and
-- counts each once, as processed or as failed, and it never reports more outcomes than mails. The
-- table of notifications has gained at least as many as it reports as created, and at most one more
-- for each mail it counts as failed, whose creation an error of the journal may have followed: where
-- no mail failed, the report is exact.
pub poll_inbound_mailbox_counts :
    (env : PollEnv) (emails : List GraphEmail) (m : Mailbox)
    → Recorded env
    → let (t, result) = poll_inbound_mailbox env true (some emails) m in
      (c : Counts) × (result ≡ ok c)
      × (c.processed_count + c.failed_count ≡ length emails)
      × (length m.store.notifications + c.created_count ≤ length t.store.notifications)
      × (length t.store.notifications
          ≤ length m.store.notifications + c.created_count + c.failed_count)
      × (c.created_count + c.rejected_count + c.ignored_count ≤ c.processed_count)
unfolding poll_inbound_mailbox rows
poll_inbound_mailbox_counts env emails m r =
    let (t, c, e, k) = poll_loop-Ends env emails m no_counts r in
    (
      c,
      rw e refl,
      omega (arith, k.each),
      rw e (omega (arith, k.least)),
      rw e (omega (arith, k.most)),
      k.sorted (omega arith),
    )
