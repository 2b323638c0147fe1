-- ===== src/Lifecycle.antt =====
-- The life of a notification, over all the parts of the program: an abstract specification of what
-- may happen to the table of notifications of notifications/models.py.
pub mod Rules
pub mod Operations
pub mod Sweeps
pub mod Requests
pub mod History
mod Tests
use push_it_server.Prelude.{
  ℕ, ◌+◌, ◌<◌, ◌≡◌, Bool, true, false, Option, none, some, List, [], ◌∷◌, ◌||◌, ◌&&◌, is_some, In,
  select, update_where, All,
}
use push_it_server.Models.{Notification, NotificationStatus}
use push_it_server.Queueing.{may_queue, same_status}
use push_it_server.Sending.{may_start}
use push_it_server.Sending.Completion.{is_closed}

-- The table, with the primary key that the next row gets.
pub record Table : Type 0 where
  pub rows : List Notification
  pub next : ℕ

-- The statechart: a request or a task queues, a worker starts, a worker that has started ends or is
-- taken for dead.
abbrev pub can_move : NotificationStatus → NotificationStatus → Bool
can_move a NotificationStatus.draft = false
can_move a NotificationStatus.queued = may_queue a || same_status a NotificationStatus.processing
can_move a NotificationStatus.processing = may_start a
can_move NotificationStatus.processing b = is_closed b
can_move a b = false

-- What the tasks rely on to find a row again: the watchdog the start of a row that is being sent,
-- the dispatcher the instant of a scheduled one.
pub record IsSound (n : Notification) : Type 0 where
  pub started : n.status ≡ NotificationStatus.processing → is_some n.processing_started_at ≡ true
  pub planned : n.status ≡ NotificationStatus.scheduled → is_some n.scheduled_for ≡ true
  pub stamped : n.status ≡ NotificationStatus.sent → is_some n.sent_at ≡ true

-- A row changes along the statechart, or in its other columns only.
pub record Move (n m : Notification) : Type 0 where
  pub same_row : m.id ≡ n.id
  pub allowed : (same_status n.status m.status || can_move n.status m.status) ≡ true
  pub sound : IsSound n → IsSound m

-- A step inserts a row with a new key, changes some rows, or deletes some.
pub data Step (s t : Table) : Type 0 where
  create :
      (n : Notification)
      → n.id ≡ s.next
      → IsSound n
      → t.rows ≡ n ∷ s.rows
      → t.next ≡ s.next + 1
      → Step s t
  change :
      (p : Notification → Bool)
      → (f : Notification → Notification)
      → ((n : Notification) → In n s.rows → p n ≡ true → Move n (f n))
      → t.rows ≡ update_where p f s.rows
      → t.next ≡ s.next
      → Step s t
  forget : (p : Notification → Bool) → t.rows ≡ select p s.rows → t.next ≡ s.next → Step s t

pub data Steps : Table → Table → Type 0 where
  done : {s t : Table} → s.rows ≡ t.rows → s.next ≡ t.next → Steps s t
  after : {s m t : Table} → Step s m → Steps m t → Steps s t

-- The keys fall from the newest row on, and are below the next one.
abbrev pub AreBelow : ℕ → List Notification → Type 0
AreBelow next [] = Unit
AreBelow next (n ∷ ns) = (n.id < next) × AreBelow n.id ns

pub record IsConsistent (t : Table) : Type 0 where
  pub keyed : AreBelow t.next t.rows
  pub sound : All IsSound t.rows
