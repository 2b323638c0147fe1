-- ===== src/Scheduling/Tests.antt =====
-- Runs of notifications/scheduling.py, and its theorems at inputs that meet their hypotheses.
use push_it_server.Prelude.{
  ℕ, ◌+◌, ◌-◌, ◌*◌, if◌then◌else◌, ◌≡◌, refl, ◌↔◌, none, some, List, [], ◌∷◌, arith, contains, ◌==◌,
  Option,
}
use push_it_server.Models.{QuietPeriod, Notification}
use push_it_server.Samples.{day, hour, utc, once_period, night_period, bell}
use push_it_server.Scheduling.{
  get_quiet_period_end_for_period, get_quiet_period_end_from_iterable,
  compute_effective_scheduled_for, once_end, typed_end, window_end, recurring_end,
  matching_end_dates, max_of, shift_loop, quiet_period_finder,
}
use push_it_server.Scheduling.Windows.{
  Occurs, local_now, end_day, get_quiet_period_end_for_period_recurring,
}
use push_it_server.Scheduling.Settling.{IsRegular, HasTimes, compute_effective_scheduled_for_once}

-- two one-time periods, the second from within the first
abbrev two_periods : List QuietPeriod
two_periods = once_period 1 100 200 ∷ once_period 1 150 300 ∷ []

shifted_twice : compute_effective_scheduled_for utc [] 1 (some 120) (some two_periods) ≡ some 300
unfolding compute_effective_scheduled_for quiet_period_finder shift_loop
    get_quiet_period_end_from_iterable matching_end_dates get_quiet_period_end_for_period typed_end
    once_end max_of
shifted_twice = refl

compute_effective_scheduled_for_once_example :
    get_quiet_period_end_from_iterable utc two_periods 300 ≡ none
compute_effective_scheduled_for_once_example =
    compute_effective_scheduled_for_once utc two_periods (refl, (refl, tt)) [] 1 120 300
      (omega arith) shifted_twice

ends_of_both : get_quiet_period_end_from_iterable utc two_periods 160 ≡ some 300
unfolding get_quiet_period_end_from_iterable matching_end_dates get_quiet_period_end_for_period
    typed_end once_end max_of
ends_of_both = refl

-- Tuesday at 05:00 lies in the night that began on Monday
get_quiet_period_end_for_period_recurring_example :
    (get_quiet_period_end_for_period utc night_period (day + 5 * hour) ≡ some (day + 6 * hour)) ↔ (
      (d : ℕ) × Occurs (0 ∷ []) (22 * hour) (6 * hour) (local_now utc (day + 5 * hour)) d
      × (day + 6 * hour ≡ utc.aware (end_day (22 * hour) (6 * hour) d) (6 * hour)))
get_quiet_period_end_for_period_recurring_example =
    get_quiet_period_end_for_period_recurring utc night_period (22 * hour) (6 * hour)
      (day + 5 * hour) (day + 6 * hour) refl refl refl refl (omega arith) (omega arith)
      (omega arith) (omega arith)

night_found :
    get_quiet_period_end_for_period utc night_period (day + 5 * hour) ≡ some (day + 6 * hour)
unfolding get_quiet_period_end_for_period typed_end recurring_end window_end contains
night_found = refl

utc-IsRegular : IsRegular utc
utc-IsRegular = record {
  dated = λ at. omega arith;
  in_day = λ at. omega arith;
  later = λ at date time h k. omega arith;
}

night-HasTimes : HasTimes night_period
night-HasTimes = record { start_in_day = λ t e. ground arith; end_in_day = λ t e. ground arith }

night_ended :
    compute_effective_scheduled_for utc [] 1 (some (day + 5 * hour)) (some (night_period ∷ []))
    ≡ some (day + 6 * hour)
unfolding compute_effective_scheduled_for quiet_period_finder shift_loop
    get_quiet_period_end_from_iterable matching_end_dates get_quiet_period_end_for_period typed_end
    recurring_end window_end contains max_of
night_ended = refl

-- the last has no effective instant
abbrev instants : ℕ → Option ℕ
instants id = if id == 9 then none else some (100 - id)

abbrev bells : List Notification
bells = record bell { id = 9 } ∷ bell ∷ record bell { id = 8 } ∷ []
