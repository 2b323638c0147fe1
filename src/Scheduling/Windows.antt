-- ===== src/Scheduling/Windows.antt =====
-- The recurring quiet periods of notifications/scheduling.py against the calendar: a period recurs
-- on its days, from its start time to its end time, on the next day if that is not later.
use push_it_server.Prelude.{
  ℕ, ◌+◌, ◌-◌, ◌*◌, ◌%◌, ◌≤◌, ◌<◌, ◌≡◌, refl, sym, ap, true, ◌&&◌, some, List, [], ◌∷◌, ◌↔◌, ◌∙◌,
  inl, inr, ◌⊎◌, arith, leb, ltb, if◌then◌else◌, contains, Bool-cases,
}
use push_it_server.Models.{QuietPeriod, recurring}
use push_it_server.Scheduling.{
  Zone, weekday, window_end, recurring_end, typed_end, get_quiet_period_end_for_period,
}

abbrev pub day_length : ℕ
day_length = 86400000000

-- The occurrence that begins on the day with ordinal `day`, in local microseconds.
abbrev pub occurrence_start : ℕ → ℕ → ℕ
occurrence_start start_time day = day_length * day + start_time

-- The day on which that occurrence ends.
abbrev pub end_day : ℕ → ℕ → ℕ → ℕ
end_day start_time end_time day = if ltb start_time end_time then day else day + 1

-- The local microsecond `now` lies in the occurrence that begins on `day`.
pub record Occurs (days : List ℕ) (start_time end_time now day : ℕ) : Type 0 where
  pub recurs : contains days (weekday day) ≡ true
  pub begun : occurrence_start start_time day ≤ now
  pub unfinished : now < day_length * end_day start_time end_time day + end_time

abbrev pub local_now : Zone → ℕ → ℕ
local_now zone at = day_length * zone.local_date at + zone.local_time at

module _ (zone : Zone) (days : List ℕ) (start_time end_time at : ℕ) (dated : 0 < zone.local_date at)
    (in_day : zone.local_time at < day_length) (start_in_day : start_time < day_length)
    (end_in_day : end_time < day_length) where
  -- the weekday of the day before is what the code computes
  previous_weekday : weekday (zone.local_date at - 1) ≡ (weekday (zone.local_date at) + 6) % 7
  previous_weekday = omega arith

  window_end_sound :
      (e : ℕ)
      → window_end zone days start_time end_time at ≡ some e
      → (day : ℕ) × Occurs days start_time end_time (local_now zone at) day
        × (e ≡ zone.aware (end_day start_time end_time day) end_time)
  unfolding window_end
  window_end_sound e h = elim (Bool-cases (ltb start_time end_time)) [
    | inl b ↦ (zone.local_date at, ground arith, ground arith)
    | inr b ↦
        elim (Bool-cases
          (contains days (weekday (zone.local_date at)) && leb start_time (zone.local_time at))) [
            | inl c ↦ (zone.local_date at, ground arith, ground arith)
            | inr c ↦ (zone.local_date at - 1, ground (arith, previous_weekday), ground arith)
          ]
  ]

  day_cases :
      (day : ℕ)
      → Occurs days start_time end_time (local_now zone at) day
      → (day ≡ zone.local_date at) ⊎ (day ≡ zone.local_date at - 1)
  day_cases day o = ground arith

  window_end_complete :
      (day : ℕ)
      → Occurs days start_time end_time (local_now zone at) day
      → window_end zone days start_time end_time at
        ≡ some (zone.aware (end_day start_time end_time day) end_time)
  unfolding window_end
  window_end_complete day o = ground (arith, day_cases day o, previous_weekday, o.recurs)

recurring_end_is_window :
    (zone : Zone) (days : List ℕ) (s t at : ℕ)
    → recurring_end zone days (some s) (some t) at ≡ window_end zone days s t at
unfolding recurring_end window_end contains
recurring_end_is_window zone [] s t at = ground arith
recurring_end_is_window zone (d ∷ ds) s t at = refl

period_is_window :
    (zone : Zone) (q : QuietPeriod) (s t at : ℕ)
    → q.is_active ≡ true
    → q.period_type ≡ recurring
    → q.start_time ≡ some s
    → q.end_time ≡ some t
    → get_quiet_period_end_for_period zone q at ≡ window_end zone q.recurrence_days s t at
unfolding get_quiet_period_end_for_period typed_end
period_is_window zone q s t at a p hs ht =
    simp (a, p, hs, ht) (recurring_end_is_window zone q.recurrence_days s t at)

-- An active recurring quiet period is found at an instant exactly when the instant lies, by the
-- local calendar, in one of its occurrences, and what is found is the end of that occurrence.
pub get_quiet_period_end_for_period_recurring :
    (zone : Zone) (q : QuietPeriod) (start_time end_time at e : ℕ)
    → q.is_active ≡ true
    → q.period_type ≡ recurring
    → q.start_time ≡ some start_time
    → q.end_time ≡ some end_time
    → 0 < zone.local_date at
    → zone.local_time at < day_length
    → start_time < day_length
    → end_time < day_length
    → (get_quiet_period_end_for_period zone q at ≡ some e) ↔ (
        (day : ℕ) × Occurs q.recurrence_days start_time end_time (local_now zone at) day
        × (e ≡ zone.aware (end_day start_time end_time day) end_time))
get_quiet_period_end_for_period_recurring zone q s t at e a p hs ht d i si ti = (
  λ h.
      window_end_sound zone q.recurrence_days s t at d i si ti e
        (sym (period_is_window zone q s t at a p hs ht) ∙ h),
  λ (day, o, k).
      period_is_window zone q s t at a p hs ht
      ∙ window_end_complete zone q.recurrence_days s t at d i si ti day o
      ∙ ap some (sym k),
)
