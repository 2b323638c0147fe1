-- ===== src/Scheduling.antt =====
-- notifications/scheduling.py: when a quiet period that covers an instant ends, and the instant at
-- which a scheduled notification goes out. The conversions between instants and the local calendar
-- are Django's and the time zone database's, and are the parameter `Zone`; a date is its ordinal.
pub mod Bounds
pub mod Windows
pub mod Settling
pub mod Lists
mod Tests
use push_it_server.Prelude.{
  ℕ, zero, suc, ◌+◌, ◌%◌, max, Bool, true, false, not, ◌&&◌, Option, none, some, List, [], ◌∷◌, ltb,
  leb, ◌==◌, if◌then◌else◌, select, contains, is_some,
}
use push_it_server.Models.{QuietPeriod, QuietPeriodType, once, recurring, Notification}

-- `timezone.localtime(at).date()` and `.time()`, and `make_aware(combine(date, time))`
pub record Zone : Type 0 where
  pub local_date : ℕ → ℕ
  pub local_time : ℕ → ℕ
  pub aware : ℕ → ℕ → ℕ

abbrev pub max_quiet_period_shift_iterations : ℕ
max_quiet_period_shift_iterations = 32

-- `date.weekday()` of the date with this ordinal: Monday is 0
abbrev pub weekday : ℕ → ℕ
weekday date = (date + 6) % 7

-- the branch of `QuietPeriodType.ONCE`
unfoldable pub once_end : Option ℕ → Option ℕ → ℕ → Option ℕ
once_end none end_at at = none
once_end (some start_at) none at = none
once_end (some start_at) (some end_at) at =
    if leb start_at at && ltb at end_at then some end_at else none

-- the branch of `RECURRING`, once the days and both times are known to be given
pub window_end : Zone → List ℕ → ℕ → ℕ → ℕ → Option ℕ
window_end zone recurrence_days start_time end_time at =
    let date = zone.local_date at in
    let local_time = zone.local_time at in
    let previous_weekday = (weekday date + 6) % 7 in
    if ltb start_time end_time
    then (if contains recurrence_days (weekday date)
          && (leb start_time local_time && ltb local_time end_time)
        then some (zone.aware date end_time)
        else none)
    else if contains recurrence_days (weekday date) && leb start_time local_time
    then some (zone.aware (date + 1) end_time)
    else if contains recurrence_days previous_weekday && ltb local_time end_time
    then some (zone.aware date end_time)
    else none

pub recurring_end : Zone → List ℕ → Option ℕ → Option ℕ → ℕ → Option ℕ
recurring_end zone [] start_time end_time at = none
recurring_end zone (d ∷ ds) none end_time at = none
recurring_end zone (d ∷ ds) (some start_time) none at = none
recurring_end zone (d ∷ ds) (some start_time) (some end_time) at =
    window_end zone (d ∷ ds) start_time end_time at

unfoldable pub typed_end : Zone → QuietPeriodType → QuietPeriod → ℕ → Option ℕ
typed_end zone once q at = once_end q.start_at q.end_at at
typed_end zone recurring q at = recurring_end zone q.recurrence_days q.start_time q.end_time at

unfoldable pub get_quiet_period_end_for_period : Zone → QuietPeriod → ℕ → Option ℕ
get_quiet_period_end_for_period zone q at =
    if not q.is_active then none else typed_end zone q.period_type q at

-- the list comprehension of `get_quiet_period_end_from_iterable`
abbrev pub keep_end : Option ℕ → List ℕ → List ℕ
keep_end none ends = ends
keep_end (some e) ends = e ∷ ends

unfoldable pub matching_end_dates : Zone → List QuietPeriod → ℕ → List ℕ
matching_end_dates zone [] at = []
matching_end_dates zone (q ∷ qs) at =
    keep_end (get_quiet_period_end_for_period zone q at) (matching_end_dates zone qs at)

-- Python's `max` of a list that is not empty
unfoldable pub max_of : ℕ → List ℕ → ℕ
max_of m [] = m
max_of m (x ∷ xs) = max_of (max m x) xs

abbrev pub latest : List ℕ → Option ℕ
latest [] = none
latest (x ∷ xs) = some (max_of x xs)

unfoldable pub get_quiet_period_end_from_iterable : Zone → List QuietPeriod → ℕ → Option ℕ
get_quiet_period_end_from_iterable zone quiet_periods at =
    latest (matching_end_dates zone quiet_periods at)

-- the query of `get_quiet_period_end_for_application`, over the table of quiet periods
unfoldable pub active_periods_of : ℕ → List QuietPeriod → List QuietPeriod
active_periods_of application table = select (λ q. (q.owner == application) && q.is_active) table

unfoldable pub get_quiet_period_end_for_application : Zone → List QuietPeriod → ℕ → ℕ → Option ℕ
get_quiet_period_end_for_application zone table application at =
    get_quiet_period_end_from_iterable zone (active_periods_of application table) at

-- the `for` loop of `compute_effective_scheduled_for`; the fuel is its range
pub shift_loop : (ℕ → Option ℕ) → ℕ → ℕ → ℕ
shift_loop find zero effective = effective
shift_loop find (suc rounds) effective = elim (find effective) [
  | none ↦ effective
  | some quiet_period_end ↦ elim (leb quiet_period_end effective) [
    | true ↦ effective
    | false ↦ shift_loop find rounds quiet_period_end
  ]
]

-- `quiet_periods` is `none` where the periods were not prefetched
pub quiet_period_finder : Zone → List QuietPeriod → ℕ → Option (List QuietPeriod) → ℕ → Option ℕ
quiet_period_finder zone table application none at =
    get_quiet_period_end_for_application zone table application at
quiet_period_finder zone table application (some quiet_periods) at =
    get_quiet_period_end_from_iterable zone quiet_periods at

pub compute_effective_scheduled_for :
    Zone → List QuietPeriod → ℕ → Option ℕ → Option (List QuietPeriod) → Option ℕ
compute_effective_scheduled_for zone table application none quiet_periods = none
compute_effective_scheduled_for zone table application (some scheduled_for) quiet_periods = some (
    shift_loop (quiet_period_finder zone table application quiet_periods)
      max_quiet_period_shift_iterations scheduled_for)
