-- ===== src/Scheduling/Settling.antt =====
-- The shifting loop of notifications/scheduling.py comes to rest.
use push_it_server.Prelude.{
  ℕ, zero, suc, ◌+◌, ◌*◌, ◌≤◌, ◌<◌, ◌≡◌, refl, ap, subst, Bool, true, false, Option, none, some,
  List, [], ◌∷◌, In, All, inl, inr, ◌⊎◌, arith, leb, ltb, length, if◌then◌else◌, Bool-cases,
  Option-cases,
}
use mathlib.Core.Option.{some-injective}
use push_it_server.Models.{QuietPeriod, QuietPeriodType, once, recurring}
use push_it_server.Scheduling.{
  Zone, once_end, typed_end, recurring_end, get_quiet_period_end_for_period,
  get_quiet_period_end_from_iterable, shift_loop, quiet_period_finder,
  compute_effective_scheduled_for,
}
use push_it_server.Scheduling.Windows.{
  day_length, local_now, end_day, get_quiet_period_end_for_period_recurring,
}
use push_it_server.Scheduling.Bounds.{get_quiet_period_end_from_iterable_latest}

-- No quiet period moves the instant further.
abbrev pub IsSettled : (ℕ → Option ℕ) → ℕ → Type 0
IsSettled find at = (find at ≡ none) ⊎ ((e : ℕ) × (find at ≡ some e) × (e ≤ at))

module _ (find : ℕ → Option ℕ) (measure : ℕ → ℕ)
    (falls : (at e : ℕ) → find at ≡ some e → at < e → measure e < measure at) where
  -- A measure below the fuel that falls with each shift lets the loop come to rest.
  shift_loop-IsSettled :
      (rounds at : ℕ) → measure at < rounds → IsSettled find (shift_loop find rounds at)
  unfolding shift_loop
  shift_loop-IsSettled zero at h = elim h [ ]
  shift_loop-IsSettled (suc rounds) at h = elim (Option-cases (find at)) [
    | inl e ↦ rw (e, shift_loop) (inl e)
    | inr (q, e) ↦ elim (Bool-cases (leb q at)) [
      | inl b ↦ rw (e, b, shift_loop) (inr (q, e, ground arith))
      | inr b ↦ rw (e, b, shift_loop) (shift_loop-IsSettled rounds q (ground (arith, falls at q e)))
    ]
  ]

abbrev ends_after : ℕ → Option ℕ → Bool
ends_after at none = false
ends_after at (some e) = ltb at e

-- how many one-time periods end after an instant
pending_ends : List QuietPeriod → ℕ → ℕ
pending_ends [] at = 0
pending_ends (q ∷ qs) at =
    let rest = pending_ends qs at in if ends_after at q.end_at then suc rest else rest

pending_ends-le : (qs : List QuietPeriod) (at : ℕ) → pending_ends qs at ≤ length qs
unfolding pending_ends
pending_ends-le [] at = omega arith
pending_ends-le (q ∷ qs) at = ground (arith, pending_ends-le qs at)

pending_ends_mono :
    (qs : List QuietPeriod) (at t : ℕ) → at ≤ t → pending_ends qs t ≤ pending_ends qs at
unfolding pending_ends
pending_ends_mono [] at t h = omega arith
pending_ends_mono (q ∷ qs) at t h = ground (arith, pending_ends_mono qs at t h)

pending_ends_fall :
    (qs : List QuietPeriod) (q : QuietPeriod) (at e : ℕ)
    → In q qs
    → q.end_at ≡ some e
    → at < e
    → pending_ends qs e < pending_ends qs at
unfolding pending_ends
pending_ends_fall [] q at e i h l = elim i [ ]
pending_ends_fall (p ∷ qs) q at e (inl r) h l =
    ground (arith, pending_ends_mono qs at e, ap (λ (x : QuietPeriod). x.end_at) r)
pending_ends_fall (p ∷ qs) q at e (inr i) h l = ground (arith, pending_ends_fall qs q at e i h l)

abbrev pub IsOnce : QuietPeriod → Type 0
IsOnce q = q.period_type ≡ once

All-In : {A : Type 0} (P : A → Type 0) (xs : List A) (x : A) → All P xs → In x xs → P x
All-In P [] x h i = elim i [ ]
All-In P (y ∷ ys) x h (inl e) = rw e h.0
All-In P (y ∷ ys) x h (inr i) = All-In P ys x h.1 i

-- What the code finds for a one-time period is its end, later than the instant.
once_period_end :
    (zone : Zone) (q : QuietPeriod) (at e : ℕ)
    → IsOnce q
    → get_quiet_period_end_for_period zone q at ≡ some e
    → (q.end_at ≡ some e) × (at < e)
unfolding get_quiet_period_end_for_period typed_end once_end
once_period_end zone q at e o h = ground arith

module _ (zone : Zone) (qs : List QuietPeriod) (all_once : All IsOnce qs) where
  once_end_found :
      (at e : ℕ)
      → get_quiet_period_end_from_iterable zone qs at ≡ some e
      → (q : QuietPeriod) × In q qs × (q.end_at ≡ some e) × (at < e)
  once_end_found at e h =
      let (q, i, k) = (get_quiet_period_end_from_iterable_latest zone qs at e h).0 in
      let (a, b) = once_period_end zone q at e (All-In IsOnce qs q all_once i) k in (q, i, a, b)

  IsSettled-none :
      (at : ℕ)
      → IsSettled (get_quiet_period_end_from_iterable zone qs) at
      → get_quiet_period_end_from_iterable zone qs at ≡ none
  IsSettled-none at (inl e) = e
  IsSettled-none at (inr (e, k, l)) = absurd (omega (arith, (once_end_found at e k).3))

  -- With fewer than 32 prefetched quiet periods, all of them one-time, the effective instant of a
  -- notification is covered by none of them: the cap on the number of shifts is never met.
  pub compute_effective_scheduled_for_once :
      (table : List QuietPeriod) (application at effective : ℕ)
      → length qs < 32
      → compute_effective_scheduled_for zone table application (some at) (some qs) ≡ some effective
      → get_quiet_period_end_from_iterable zone qs effective ≡ none
  unfolding compute_effective_scheduled_for quiet_period_finder
  compute_effective_scheduled_for_once table application at effective short h =
      let find = quiet_period_finder zone table application (some qs) in
      subst (λ t. find t ≡ none) (some-injective _ _ h)
        (IsSettled-none (shift_loop find 32 at) (
          shift_loop-IsSettled find (pending_ends qs)
            (λ t e k l. let (q, i, a, b) = once_end_found t e k in pending_ends_fall qs q t e i a b)
            32 at (omega (arith, pending_ends-le qs at))))

-- A zone in which a later local microsecond is a later instant, as in a zone without daylight saving.
pub record IsRegular (zone : Zone) : Type 0 where
  pub dated : (at : ℕ) → 0 < zone.local_date at
  pub in_day : (at : ℕ) → zone.local_time at < day_length
  pub later :
      (at date time : ℕ)
      → time < day_length
      → local_now zone at < day_length * date + time
      → at < zone.aware date time

-- The times of day of a quiet period are times of day.
pub record HasTimes (q : QuietPeriod) : Type 0 where
  pub start_in_day : (t : ℕ) → q.start_time ≡ some t → t < day_length
  pub end_in_day : (t : ℕ) → q.end_time ≡ some t → t < day_length

HasWindow : QuietPeriod → Type 0
HasWindow q =
    (s : ℕ) × (t : ℕ) × (q.is_active ≡ true)
    × (q.period_type ≡ recurring)
    × (q.start_time ≡ some s)
    × (q.end_time ≡ some t)

recurring_end_given :
    (zone : Zone) (days : List ℕ) (start_time end_time : Option ℕ) (at e : ℕ)
    → recurring_end zone days start_time end_time at ≡ some e
    → (s : ℕ) × (t : ℕ) × (start_time ≡ some s) × (end_time ≡ some t)
unfolding recurring_end
recurring_end_given zone [] start_time end_time at e h = cc
recurring_end_given zone (d ∷ ds) none end_time at e h = cc
recurring_end_given zone (d ∷ ds) (some s) none at e h = cc
recurring_end_given zone (d ∷ ds) (some s) (some t) at e h = (s, t, refl, refl)

period_type_cases : (p : QuietPeriodType) → (p ≡ once) ⊎ (p ≡ recurring)
period_type_cases once = inl refl
period_type_cases recurring = inr refl

-- What is found is the end of a one-time period or of a recurring one with both times.
period_end_cases :
    (zone : Zone) (q : QuietPeriod) (at e : ℕ)
    → get_quiet_period_end_for_period zone q at ≡ some e
    → (at < e) ⊎ HasWindow q
unfolding get_quiet_period_end_for_period typed_end HasWindow
period_end_cases zone q at e h = elim (period_type_cases q.period_type) [
  | inl o ↦ inl (once_period_end zone q at e o h).1
  | inr r ↦
      let (s, t, hs, ht) =
        recurring_end_given zone q.recurrence_days q.start_time q.end_time at e (ground arith) in
      inr (s, t, ground arith, r, hs, ht)
]

module _ (zone : Zone) (regular : IsRegular zone) where
  window_end_later :
      (q : QuietPeriod) (at e : ℕ)
      → HasTimes q
      → get_quiet_period_end_for_period zone q at ≡ some e
      → HasWindow q
      → at < e
  unfolding HasWindow
  window_end_later q at e times h (s, t, a, p, hs, ht) =
      let end_in_day = times.end_in_day t ht in
      let (day, o, k) =
        (get_quiet_period_end_for_period_recurring zone q s t at e a p hs ht (regular.dated at)
            (regular.in_day at) (times.start_in_day s hs) end_in_day).0
          h in
      rw k (regular.later at (end_day s t day) t end_in_day o.unfinished)

  period_end_later :
      (q : QuietPeriod) (at e : ℕ)
      → HasTimes q
      → get_quiet_period_end_for_period zone q at ≡ some e
      → at < e
  period_end_later q at e times h = elim (period_end_cases zone q at e h) [
    | inl l ↦ l
    | inr w ↦ window_end_later q at e times h w
  ]

  -- In a regular zone, the end found for a collection of quiet periods is later than the instant.
  iterable_end_later :
      (qs : List QuietPeriod) (at e : ℕ)
      → All HasTimes qs
      → get_quiet_period_end_from_iterable zone qs at ≡ some e
      → at < e
  iterable_end_later qs at e times h =
      let (q, i, k) = (get_quiet_period_end_from_iterable_latest zone qs at e h).0 in
      period_end_later q at e (All-In HasTimes qs q times i) k

  IsSettled-or_capped :
      (qs : List QuietPeriod) (rounds at : ℕ)
      → All HasTimes qs
      → let find = get_quiet_period_end_from_iterable zone qs in
        (find (shift_loop find rounds at) ≡ none) ⊎ (at + rounds ≤ shift_loop find rounds at)
  unfolding shift_loop
  IsSettled-or_capped qs zero at times = inr (omega arith)
  IsSettled-or_capped qs (suc rounds) at times =
      let find = get_quiet_period_end_from_iterable zone qs in
      elim (Option-cases (find at)) [
        | inl e ↦ rw (e, shift_loop) (inl e)
        | inr (q, e) ↦
            let later = iterable_end_later qs at q times e in
            let stays : leb q at ≡ false = ground arith in
            rw (e, stays, shift_loop)
              (elim (IsSettled-or_capped qs rounds q times) [
                | inl h ↦ inl h
                | inr h ↦ inr (omega arith)
              ])
      ]

  -- In a regular zone, a notification's effective instant is covered by none of the prefetched
  -- quiet periods, unless all 32 shifts were made; then it is at least 32 microseconds later.
  pub compute_effective_scheduled_for_regular :
      (qs table : List QuietPeriod) (application at effective : ℕ)
      → All HasTimes qs
      → compute_effective_scheduled_for zone table application (some at) (some qs) ≡ some effective
      → (get_quiet_period_end_from_iterable zone qs effective ≡ none) ⊎ (at + 32 ≤ effective)
  unfolding compute_effective_scheduled_for quiet_period_finder
  compute_effective_scheduled_for_regular qs table application at effective times h =
      let find = get_quiet_period_end_from_iterable zone qs in
      subst (λ t. (find t ≡ none) ⊎ (at + 32 ≤ t)) (some-injective _ _ h)
        (IsSettled-or_capped qs 32 at times)
