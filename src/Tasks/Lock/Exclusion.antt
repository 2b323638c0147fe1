-- ===== src/Tasks/Lock/Exclusion.antt =====
-- That the lock of notifications/tasks.py keeps two runs of the poll apart.
use push_it_server.Prelude.{
  ℕ, ◌+◌, ◌≤◌, ◌<◌, ◌≡◌, refl, true, false, ◌&&◌, none, some, List, [], ◌∷◌, arith, ◌==◌, All, In,
  inl, inr, Bool-cases, Option-cases, ==→eq,
}
use push_it_server.Tasks.Lock.{
  Cache, cache_get, cache_add, owns_lock, has_token, without_token, expiry, Polling, idle, Event,
  start, check, delete, check_lock, delete_lock, happen, happen_all, time_of, AreTimed, IsPrompt,
  ArePrompt,
}

-- A run within its time to live holds the lock.
abbrev Holds : ℕ → ℕ → Cache → ℕ × ℕ → Type 0
Holds ttl now cache r = now < r.1 + ttl → cache ≡ some (r.0, r.1 + ttl)

abbrev AllHold : ℕ → ℕ → Cache → List (ℕ × ℕ) → Type 0
AllHold ttl now cache runs = All (Holds ttl now cache) runs

AllHold-later :
    (ttl now t : ℕ) (cache : Cache) (runs : List (ℕ × ℕ))
    → now ≤ t
    → AllHold ttl now cache runs
    → AllHold ttl t cache runs
AllHold-later ttl now t cache [] h a = tt
AllHold-later ttl now t cache (r ∷ rs) h a =
    (λ l. a.0 (omega arith), AllHold-later ttl now t cache rs h a.1)

-- where the lock is free, every run has outlived its time to live
AllHold-free :
    (ttl now : ℕ) (cache other : Cache) (runs : List (ℕ × ℕ))
    → cache_get now cache ≡ none
    → AllHold ttl now cache runs
    → AllHold ttl now other runs
unfolding cache_get
AllHold-free ttl now cache other [] h a = tt
AllHold-free ttl now cache other (r ∷ rs) h a =
    (λ l. ground (arith, a.0 l), AllHold-free ttl now cache other rs h a.1)

AllHold-without :
    (ttl now token : ℕ) (cache : Cache) (runs : List (ℕ × ℕ))
    → AllHold ttl now cache runs
    → AllHold ttl now cache (without_token token runs)
AllHold-without ttl now token cache [] a = tt
AllHold-without ttl now token cache (r ∷ rs) a = elim (Bool-cases (r.0 == token)) [
  | inl e ↦ rw e (AllHold-without ttl now token cache rs a.1)
  | inr e ↦ rw e (a.0, AllHold-without ttl now token cache rs a.1)
]

-- where the entry of a run is there, no other run holds the lock
Holds-other :
    (ttl now token until : ℕ) (cache : Cache) (r : ℕ × ℕ)
    → cache ≡ some (token, until)
    → (r.0 == token) ≡ false
    → Holds ttl now cache r
    → Holds ttl now none r
Holds-other ttl now token until cache r c e a l = ground (arith, a l)

AllHold-deleted :
    (ttl now token until : ℕ) (cache : Cache) (runs : List (ℕ × ℕ))
    → cache ≡ some (token, until)
    → AllHold ttl now cache runs
    → AllHold ttl now none (without_token token runs)
AllHold-deleted ttl now token until cache [] c a = tt
AllHold-deleted ttl now token until cache (r ∷ rs) c a = elim (Bool-cases (r.0 == token)) [
  | inl e ↦ rw e (AllHold-deleted ttl now token until cache rs c a.1)
  | inr e ↦ rw e (
    Holds-other ttl now token until cache r c e a.0,
    AllHold-deleted ttl now token until cache rs c a.1,
  )
]

-- The runs that are polling hold the lock while they may, and those that are about to delete the key
-- have the entry that they have found, until it expires.
record Inv (ttl now : ℕ) (p : Polling) : Type 0 where
  polling : AllHold ttl now p.cache p.runs
  leaving : AllHold 0 now p.cache p.releasing

Inv-later : (ttl now t : ℕ) (p : Polling) → now ≤ t → Inv ttl now p → Inv ttl t p
Inv-later ttl now t p h a = record {
  polling = AllHold-later ttl now t p.cache p.runs h a.polling;
  leaving = AllHold-later 0 now t p.cache p.releasing h a.leaving;
}

Inv-start :
    (ttl now token : ℕ) (p : Polling) → Inv ttl now p → Inv ttl now (happen ttl (start token now) p)
unfolding happen cache_add
Inv-start ttl now token p a = elim (Option-cases (cache_get now p.cache)) [
  | inl e ↦
      let held : Cache = some (token, now + ttl) in
      rw (e, cache_add)
        (record {
          polling = (λ l. refl, AllHold-free ttl now p.cache held p.runs e a.polling);
          leaving = AllHold-free 0 now p.cache held p.releasing e a.leaving;
        })
  | inr (other, e) ↦ rw (e, cache_add) a
]

-- a run that finds its token has found its entry
owned :
    (now token : ℕ) (cache : Cache)
    → owns_lock now token cache ≡ true
    → cache ≡ some (token, expiry cache + 0)
unfolding owns_lock cache_get
owned now token none h = absurd (ground arith)
owned now token (some (held, expires)) h = ground arith

Inv-check : (ttl now token : ℕ) (p : Polling) → Inv ttl now p → Inv ttl now (check_lock token now p)
unfolding check_lock
Inv-check ttl now token p a = record {
  polling = AllHold-without ttl now token p.cache p.runs a.polling;
  leaving = elim (Bool-cases (has_token token p.runs && owns_lock now token p.cache)) [
    | inl e ↦ rw e ((λ l. owned now token p.cache (ground arith)), a.leaving)
    | inr e ↦ rw e a.leaving
  ];
}

-- the entry of a run that is about to delete the key in time
found_entry :
    (now token : ℕ) (cache : Cache) (releasing : List (ℕ × ℕ))
    → has_token token releasing ≡ true
    → All (λ r. (r.0 == token) ≡ true → now < r.1) releasing
    → AllHold 0 now cache releasing
    → (until : ℕ) × (cache ≡ some (token, until))
unfolding has_token
found_entry now token cache [] h u a = absurd (ground arith)
found_entry now token cache (r ∷ rs) h u a = elim (Bool-cases (r.0 == token)) [
  | inl e ↦
      let same : r.0 ≡ token = ==→eq r.0 token e in
      let held = a.0 (omega (arith, u.0 e)) in (r.1, ground (arith, held, same))
  | inr e ↦ found_entry now token cache rs (ground arith) u.1 a.1
]

Inv-delete :
    (ttl now token : ℕ) (p : Polling)
    → IsPrompt (delete token now) p
    → Inv ttl now p
    → Inv ttl now (delete_lock token p)
unfolding delete_lock
Inv-delete ttl now token p u a = elim (Bool-cases (has_token token p.releasing)) [
  | inl e ↦
      let (until, c) = found_entry now token p.cache p.releasing e u a.leaving in
      rw (delete_lock, e)
        (record {
          polling = AllHold-deleted ttl now token until p.cache p.runs c a.polling;
          leaving = AllHold-deleted 0 now token until p.cache p.releasing c a.leaving;
        })
  | inr e ↦ rw (delete_lock, e) a
]

happen-Inv :
    (ttl : ℕ) (e : Event) (p : Polling)
    → IsPrompt e p
    → Inv ttl (time_of e) p
    → Inv ttl (time_of e) (happen ttl e p)
happen-Inv ttl (start token now) p u a = Inv-start ttl now token p a
happen-Inv ttl (check token now) p u a = unfold happen in Inv-check ttl now token p a
happen-Inv ttl (delete token now) p u a = unfold happen in Inv-delete ttl now token p u a

happen_all-Inv :
    (ttl from last : ℕ) (es : List Event) (p : Polling)
    → AreTimed from es last
    → ArePrompt ttl es p
    → Inv ttl from p
    → Inv ttl last (happen_all ttl es p)
unfolding happen_all ArePrompt
happen_all-Inv ttl from last [] p t u a = Inv-later ttl from last p t a
happen_all-Inv ttl from last (e ∷ es) p t u a =
    happen_all-Inv ttl (time_of e) last es (happen ttl e p) t.1 u.1
      (happen-Inv ttl e p u.0 (Inv-later ttl from (time_of e) p t.0 a))

All-In : {A : Type 0} (P : A → Type 0) (xs : List A) (x : A) → All P xs → In x xs → P x
All-In P [] x h i = elim i [ ]
All-In P (y ∷ ys) x h (inl e) = rw e h.0
All-In P (y ∷ ys) x h (inr i) = All-In P ys x h.1 i

-- After any sequence of runs that come, end their poll, release the lock or die, where each that
-- deletes the key does so before the entry that it has found there expires, two runs that are polling,
-- and are both within the time to live of the lock, are one run: they have the same token and the same
-- start.
pub polling_exclusive :
    (ttl last : ℕ) (es : List Event) (r q : ℕ × ℕ)
    → AreTimed 0 es last
    → ArePrompt ttl es idle
    → In r (happen_all ttl es idle).runs
    → In q (happen_all ttl es idle).runs
    → last < r.1 + ttl
    → last < q.1 + ttl
    → (r.0 ≡ q.0) × (r.1 ≡ q.1)
polling_exclusive ttl last es r q t u i j h k =
    let p = happen_all ttl es idle in
    let inv : Inv ttl last p =
      happen_all-Inv ttl 0 last es idle t u (record { polling = tt; leaving = tt }) in
    let a : p.cache ≡ some (r.0, r.1 + ttl) =
      All-In (Holds ttl last p.cache) p.runs r inv.polling i h in
    let b : p.cache ≡ some (q.0, q.1 + ttl) =
      All-In (Holds ttl last p.cache) p.runs q inv.polling j k in
    ground arith
