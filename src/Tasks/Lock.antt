-- ===== src/Tasks/Lock.antt =====
-- The lock of `poll_inbound_mailbox_task` in notifications/tasks.py. The shared cache is not part
-- of the repository; what the task relies on is modelled: a key with a time to live, `add`, which
-- sets it only if it is not there, `get` and `delete`. A token is a number.
pub mod Exclusion
use push_it_server.Prelude.{
  ℕ, ◌+◌, ◌≤◌, ◌<◌, ◌≡◌, refl, Bool, true, false, not, ◌&&◌, ◌||◌, Option, none, some, List, [],
  ◌∷◌, arith, ltb, ◌==◌, if◌then◌else◌, select, All, In, inl, inr, Bool-cases, Option-cases,
}

-- the token under INBOUND_POLL_LOCK_KEY and the instant at which it expires
abbrev pub Cache : Type 0
Cache = Option (ℕ × ℕ)

-- `cache.get(key)`
unfoldable pub cache_get : ℕ → Cache → Option ℕ
cache_get now none = none
cache_get now (some (token, expires)) = if ltb now expires then some token else none

-- `cache.add(key, token, timeout=ttl)`
unfoldable pub cache_add : ℕ → ℕ → ℕ → Cache → Bool × Cache
cache_add now ttl token cache = elim (cache_get now cache) [
  | none ↦ (true, some (token, now + ttl))
  | some other ↦ (false, cache)
]

-- `cache.get(INBOUND_POLL_LOCK_KEY) == token`, the test of the `finally` clause
unfoldable pub owns_lock : ℕ → ℕ → Cache → Bool
owns_lock now token cache = elim (cache_get now cache) [ none ↦ false | some held ↦ held == token ]

-- `cache.delete(key)`
abbrev pub cache_delete : Cache → Cache
cache_delete cache = none

unfoldable pub has_token : ℕ → List (ℕ × ℕ) → Bool
has_token token [] = false
has_token token (r ∷ rs) = (r.0 == token) || has_token token rs

abbrev pub without_token : ℕ → List (ℕ × ℕ) → List (ℕ × ℕ)
without_token token rs = select (λ r. not (r.0 == token)) rs

-- the instant at which the entry expires
abbrev pub expiry : Cache → ℕ
expiry none = 0
expiry (some (token, expires)) = expires

-- The cache; the runs that are polling, each with its token and the instant of its start; and those
-- that have found their own token in the `finally` clause and are about to delete the key, each with
-- the instant at which the entry that it found expires. The tokens that are drawn differ, so that a
-- token stands for one run.
pub record Polling : Type 0 where
  pub cache : Cache
  pub runs : List (ℕ × ℕ)
  pub releasing : List (ℕ × ℕ)

abbrev pub idle : Polling
idle = record { cache = none; runs = []; releasing = [] }

-- A run comes to the lock; one that is polling ends its poll and looks at the lock; one that has
-- found its token deletes the key. A run that dies does nothing more.
pub data Event : Type 0 where
  start check delete : ℕ → ℕ → Event

unfoldable pub check_lock : ℕ → ℕ → Polling → Polling
check_lock token now p = record {
  cache = p.cache;
  runs = without_token token p.runs;
  releasing =
      if has_token token p.runs && owns_lock now token p.cache
      then (token, expiry p.cache) ∷ p.releasing
      else p.releasing;
}

unfoldable pub delete_lock : ℕ → Polling → Polling
delete_lock token p =
    if has_token token p.releasing
    then record {
      cache = cache_delete p.cache;
      runs = without_token token p.runs;
      releasing = without_token token p.releasing;
    }
    else p

unfoldable pub happen : ℕ → Event → Polling → Polling
happen ttl (start token now) p =
    let (added, cache) = cache_add now ttl token p.cache in
    if added then record p { cache = cache; runs = (token, now) ∷ p.runs } else p
happen ttl (check token now) p = check_lock token now p
happen ttl (delete token now) p = delete_lock token p

unfoldable pub happen_all : ℕ → List Event → Polling → Polling
happen_all ttl [] p = p
happen_all ttl (e ∷ es) p = happen_all ttl es (happen ttl e p)

abbrev pub time_of : Event → ℕ
time_of (start token now) = now
time_of (check token now) = now
time_of (delete token now) = now

-- The clock of the shared cache does not run backwards; the last event is not after `last`.
abbrev pub AreTimed : ℕ → List Event → ℕ → Type 0
AreTimed from [] last = from ≤ last
AreTimed from (e ∷ es) last = (from ≤ time_of e) × AreTimed (time_of e) es last

-- A run that deletes the key does so before the entry that it has found expires.
abbrev pub IsPrompt : Event → Polling → Type 0
IsPrompt (delete token now) p = All (λ r. (r.0 == token) ≡ true → now < r.1) p.releasing
IsPrompt _ p = Unit

unfoldable pub ArePrompt : ℕ → List Event → Polling → Type 0
ArePrompt ttl [] p = Unit
ArePrompt ttl (e ∷ es) p = IsPrompt e p × ArePrompt ttl es (happen ttl e p)
