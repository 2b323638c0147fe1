-- ===== src/Scheduling/Lists.antt =====
-- The filters and the ordering of lists in notifications/scheduling.py. `effective` is what
-- compute_effective_scheduled_map gives for an identifier.
pub mod Order
use push_it_server.Prelude.{
  ℕ, zero, ◌+◌, ◌≡◌, refl, sym, ap, ◌∙◌, ◌⊎◌, inl, inr, Bool, true, false, not, ◌&&◌, ◌||◌, Option,
  none, some, List, [], ◌∷◌, ◌++◌, arith, ltb, leb, ◌==◌, if◌then◌else◌, select, length, All,
  is_some, is_none, Bool-cases,
}
use push_it_server.Models.{Notification}

-- what `not (value is None or value < bound)` and its mirror keep; `none` is no bound
abbrev pub keeps_from : Option ℕ → Option ℕ → Bool
keeps_from none value = true
keeps_from (some bound) none = false
keeps_from (some bound) (some value) = leb bound value

abbrev pub keeps_to : Option ℕ → Option ℕ → Bool
keeps_to none value = true
keeps_to (some bound) none = false
keeps_to (some bound) (some value) = leb value bound

pub filter_notifications_by_effective_range :
    (ℕ → Option ℕ) → Option ℕ → Option ℕ → List Notification → List Notification
filter_notifications_by_effective_range effective from to ns =
    select (λ n. keeps_from from (effective n.id) && keeps_to to (effective n.id)) ns

abbrev pub is_shifted : Option ℕ → Option ℕ → Bool
is_shifted (some scheduled_for) (some effective) = not (effective == scheduled_for)
is_shifted scheduled_for effective = false

abbrev pub same : Bool → Bool → Bool
same true b = b
same false b = not b

pub filter_notifications_by_shift_flag :
    (ℕ → Option ℕ) → Bool → List Notification → List Notification
filter_notifications_by_shift_flag effective has_quiet_period_shift ns =
    select (λ n. same (is_shifted n.scheduled_for (effective n.id)) has_quiet_period_shift) ns

-- `sorted` with a key, by insertion; it keeps the order of equal keys
abbrev pub insert_by :
    (Notification → Notification → Bool) → Notification → List Notification → List Notification
insert_by before x [] = x ∷ []
insert_by before x (y ∷ ys) =
    let rest = insert_by before x ys in if before x y then x ∷ y ∷ ys else y ∷ rest

abbrev pub sort_by : (Notification → Notification → Bool) → List Notification → List Notification
sort_by before [] = []
sort_by before (x ∷ xs) = insert_by before x (sort_by before xs)

-- the key, a pair
abbrev pub instant_of : (ℕ → Option ℕ) → Notification → ℕ
instant_of effective n = elim (effective n.id) [ none ↦ 0 | some t ↦ t ]

abbrev pub key_before : (ℕ → Option ℕ) → Notification → Notification → Bool
key_before effective a b =
    ltb (instant_of effective a) (instant_of effective b)
    || ((instant_of effective a == instant_of effective b) && leb a.id b.id)

abbrev pub in_order : (ℕ → Option ℕ) → Bool → Notification → Notification → Bool
in_order effective descending a b =
    if descending then key_before effective b a else key_before effective a b

pub order_notifications_by_effective : (ℕ → Option ℕ) → Bool → List Notification → List Notification
order_notifications_by_effective effective descending ns =
    sort_by (in_order effective descending) (select (λ n. is_some (effective n.id)) ns)
    ++ select (λ n. is_none (effective n.id)) ns
