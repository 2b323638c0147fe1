-- ===== src/Views/Bulk.antt =====
-- Sending many notifications in one request: NotificationBulkSendApiView of notifications/api_views.py
-- and its counterpart by token.
use push_it_server.Prelude.{
  ℕ, ◌+◌, ◌≡◌, refl, sym, ap, subst, ◌∙◌, inl, inr, ◌⊎◌, Bool, true, false, some, List, [], ◌∷◌,
  ◌==◌, ==→eq, contains, length, arith, Bool-cases, Option-cases, if◌then◌else◌,
}
use push_it_server.Models.{Notification, NotificationStatus, Application, User}
use push_it_server.Store.{Store, enqueue}
use push_it_server.Queueing.{
  QueueEnv, QueueCode, QueueResult, queued, not_queued, try_queue_notification, may_queue, to_queue,
  submit, gone, roll_back,
}
use push_it_server.Views.{
  Found, BulkResult, find_copy, mark_copy, marks_copy, bulk_settled, bulk_one, bulk_loop,
  find_requested, bulk_send,
}

-- what one attempt does to the tasks
abbrev spent : QueueResult → ℕ
spent (queued id) = 1
spent (not_queued code) = 0

tasks-try :
    (env : QueueEnv) (application : Application) (n : Notification) (s : Store)
    → let (r, t) = try_queue_notification env application n s in
      length t.tasks ≡ length s.tasks + spent r
unfolding try_queue_notification gone submit to_queue roll_back enqueue
tasks-try env application n s = ground arith

-- what an attempt that queues tells
queued-try :
    (env : QueueEnv) (application : Application) (n : Notification) (s : Store) (id : ℕ)
    → (try_queue_notification env application n s).0 ≡ queued id
    → (id ≡ n.id) × (may_queue n.status ≡ true)
unfolding try_queue_notification gone submit to_queue roll_back
queued-try env application n s id h = ground arith

-- the identifiers differ
abbrev pub AreOnce : List ℕ → Type 0
AreOnce [] = Unit
AreOnce (x ∷ xs) = (contains xs x ≡ false) × AreOnce xs

-- the copies of what was queued may not be queued again
abbrev AreSpent : Found → List ℕ → Type 0
AreSpent found ids =
    (nid : ℕ)
    → contains ids nid ≡ true
    → (c : Notification × Application) → find_copy nid found ≡ some c
    → may_queue c.0.status ≡ false

found_id :
    (nid : ℕ) (found : Found) (c : Notification × Application)
    → find_copy nid found ≡ some c
    → c.0.id ≡ nid
found_id nid [] c h = absurd (ground arith)
found_id nid (d ∷ found) c h = elim (Bool-cases (d.0.id == nid)) [
  | inl e ↦
      let same : d ≡ c = ground arith in
      subst (λ (x : Notification × Application). x.0.id ≡ nid) same (==→eq d.0.id nid e)
  | inr e ↦ found_id nid found c (ground arith)
]

-- a marked copy has a status that may not be queued, the other copies are as before
find-mark_copy :
    (nid k : ℕ) (found : Found) (c : Notification × Application)
    → find_copy k (mark_copy nid found) ≡ some c
    → (may_queue c.0.status ≡ false) ⊎ (((k == nid) ≡ false) × (find_copy k found ≡ some c))
unfolding may_queue
find-mark_copy nid k [] c h = absurd (ground arith)
find-mark_copy nid k (d ∷ found) c h = elim (Bool-cases (d.0.id == k)) [
  | inl e ↦ elim (Bool-cases (d.0.id == nid)) [
    | inl f ↦
        let same : (record d.0 { status = NotificationStatus.queued }, d.1) ≡ c = ground arith in
        inl (subst (λ (x : Notification × Application). may_queue x.0.status ≡ false) same refl)
    | inr f ↦ inr (ground arith, ground arith)
  ]
  | inr e ↦ elim (find-mark_copy nid k found c (ground arith)) [
    | inl q ↦ inl q
    | inr q ↦ inr (q.0, ground (arith, q.1))
  ]
]

AreSpent-mark_copy :
    (nid : ℕ) (found : Found) (ids : List ℕ)
    → AreSpent found ids
    → AreSpent (mark_copy nid found) (nid ∷ ids)
unfolding contains
AreSpent-mark_copy nid found ids a k h c e = elim (find-mark_copy nid k found c e) [
  | inl q ↦ q
  | inr (n, f) ↦ a k (ground arith) c f
]

AreSpent-marked :
    (nid : ℕ) (found : Found) (ids : List ℕ)
    → AreSpent found ids
    → AreSpent (mark_copy nid found) ids
AreSpent-marked nid found ids a k h c e = elim (find-mark_copy nid k found c e) [
  | inl q ↦ q
  | inr (n, f) ↦ a k h c f
]

-- how often an identifier is listed, among those queued and among the errors
abbrev pub count_id : ℕ → List ℕ → ℕ
count_id k [] = 0
count_id k (x ∷ xs) = let rest = count_id k xs in if x == k then rest + 1 else rest

abbrev pub failed_ids : List (ℕ × QueueCode) → List ℕ
failed_ids [] = []
failed_ids (e ∷ es) = e.0 ∷ failed_ids es

abbrev pub reports : ℕ → BulkResult → ℕ
reports k b = count_id k b.queued + count_id k (failed_ids b.errors)

record IsFair (found : Found) (b : BulkResult) : Type 0 where
  once : AreOnce b.queued
  spent_copies : AreSpent found b.queued

-- rounds over some identifiers: each is reported once more, and one task more is handed over where it
-- is queued
record IsRound (ids : List ℕ) (r t : Found × Store × BulkResult) : Type 0 where
  reported : (k : ℕ) → reports k t.2 ≡ reports k r.2 + count_id k ids
  handed : length t.1.tasks + length r.2.queued ≡ length r.1.tasks + length t.2.queued
  fair : IsFair r.0 r.2 → IsFair t.0 t.2

settled-IsRound :
    (env : QueueEnv) (nid : ℕ) (c : Notification × Application) (found : Found) (s : Store)
    (b : BulkResult)
    → find_copy nid found ≡ some c
    → (q : QueueResult) (t : Store) → try_queue_notification env c.1 c.0 s ≡ (q, t)
    → IsRound (nid ∷ []) (found, s, b) (bulk_settled nid (q, t) found b)
settled-IsRound env nid c found s b f (queued id) t h =
    let told = queued-try env c.1 c.0 s id (ap (λ x. x.0) h) in
    let same : id ≡ nid = told.0 ∙ found_id nid found c f in
    record {
      reported = λ k. ground (arith, same);
      handed =
          omega
            (arith, tasks-try env c.1 c.0 s, ap (λ x. length x.1.tasks) h, ap (λ x. spent x.0) h);
      fair = λ k.
          subst (λ x. IsFair (mark_copy nid found) (record b { queued = x ∷ b.queued })) (sym same)
            (record {
              once = (
                elim (Bool-cases (contains b.queued nid)) [
                  | inl e ↦ absurd (ground (arith, k.spent_copies nid e c f, told.1))
                  | inr e ↦ e
                ],
                k.once,
              );
              spent_copies = AreSpent-mark_copy nid found b.queued k.spent_copies;
            });
    }
settled-IsRound env nid c found s b f (not_queued code) t h = record {
  reported = λ k. ground arith;
  handed =
      omega (arith, tasks-try env c.1 c.0 s, ap (λ x. length x.1.tasks) h, ap (λ x. spent x.0) h);
  fair = λ k. record {
    once = k.once;
    spent_copies = elim (Bool-cases (marks_copy code)) [
      | inl e ↦ rw e (AreSpent-marked nid found b.queued k.spent_copies)
      | inr e ↦ rw e k.spent_copies
    ];
  };
}

bulk_one-IsRound :
    (env : QueueEnv) (nid : ℕ) (found : Found) (s : Store) (b : BulkResult)
    → IsRound (nid ∷ []) (found, s, b) (bulk_one env nid (found, s, b))
unfolding bulk_one
bulk_one-IsRound env nid found s b = elim (Option-cases (find_copy nid found)) [
  | inl e ↦
      rw (bulk_one, e)
        (record {
          reported = λ k. ground arith;
          handed = refl;
          fair = λ k. record { once = k.once; spent_copies = k.spent_copies };
        })
  | inr (c, e) ↦
      let (q, t) = try_queue_notification env c.1 c.0 s in
      rw (bulk_one, e) (settled-IsRound env nid c found s b e q t refl)
]

bulk_loop-IsRound :
    (env : QueueEnv) (ids : List ℕ) (found : Found) (s : Store) (b : BulkResult)
    → IsRound ids (found, s, b) (bulk_loop env ids (found, s, b))
unfolding bulk_loop
bulk_loop-IsRound env [] found s b = record {
  reported = λ k. omega arith;
  handed = refl;
  fair = λ k. k;
}
bulk_loop-IsRound env (nid ∷ ids) found s b =
    let (found2, s2, b2) = bulk_one env nid (found, s, b) in
    let first = bulk_one-IsRound env nid found s b in
    let rest = bulk_loop-IsRound env ids found2 s2 b2 in
    record {
      reported = λ k. ground (arith, first.reported k, rest.reported k);
      handed = omega (arith, first.handed, rest.handed);
      fair = λ k. rest.fair (first.fair k);
    }

-- Where the owner is paid, a request to send many reports each identifier as often as it is given, as
-- queued or with an error, and no other one; the send passes it hands over are as many as it reports
-- as queued; and it queues none twice, also where an identifier is given twice.
pub bulk_send-AreOnce :
    (is_paid : User → Bool) (payer : User) (env : QueueEnv) (owner_filter : Notification → Bool)
    (ids : List ℕ) (s : Store)
    → is_paid payer ≡ true
    → (t : Store) × (b : BulkResult) × (bulk_send is_paid payer env owner_filter ids s
        ≡ some (t, b))
      × ((k : ℕ) → count_id k b.queued + count_id k (failed_ids b.errors) ≡ count_id k ids)
      × (length t.tasks ≡ length s.tasks + length b.queued)
      × AreOnce b.queued
unfolding bulk_send contains
bulk_send-AreOnce is_paid payer env owner_filter ids s h =
    let found = find_requested owner_filter ids s in
    let start : BulkResult = record { queued = []; errors = [] } in
    let (kept, t, b) = bulk_loop env ids (found, s, start) in
    let all = bulk_loop-IsRound env ids found s start in
    let fair = all.fair (record { once = tt; spent_copies = λ k e. absurd (ground arith) }) in
    (
      t,
      b,
      rw (bulk_send, h) refl,
      (λ k. omega (arith, all.reported k)),
      omega (arith, all.handed),
      fair.once,
    )
