-- ===== src/Scheduling/Bounds.antt =====
-- Bounds on the effective instant and on the end of a quiet period (notifications/scheduling.py).
use push_it_server.Prelude.{
  ℕ, zero, suc, ◌≤◌, max, ap, ◌≡◌, refl, sym, Option, none, some, List, [], ◌∷◌, subst, In, inl,
  inr, ◌⊎◌, arith, Option-cases,
}
use mathlib.Core.Option.{some-injective}
use push_it_server.Models.{QuietPeriod}
use push_it_server.Scheduling.{
  Zone, keep_end, latest, get_quiet_period_end_for_period, matching_end_dates, max_of,
  get_quiet_period_end_from_iterable, shift_loop, quiet_period_finder,
  compute_effective_scheduled_for,
}

pub le-shift_loop : (find : ℕ → Option ℕ) (rounds at : ℕ) → at ≤ shift_loop find rounds at
unfolding shift_loop
le-shift_loop find zero at = omega arith
le-shift_loop find (suc rounds) at = elim (Option-cases (find at)) [
  | inl e ↦ rw (e, shift_loop) (omega arith)
  | inr (q, e) ↦ rw (e, shift_loop) (ground (arith, le-shift_loop find rounds q))
]

-- Whatever the time zone and the quiet periods, the effective instant of a notification that asks
-- for an instant is never before the instant asked for.
pub compute_effective_scheduled_for-le :
    (zone : Zone) (table : List QuietPeriod) (application at : ℕ)
    (quiet_periods : Option (List QuietPeriod)) (effective : ℕ)
    → compute_effective_scheduled_for zone table application (some at) quiet_periods
      ≡ some effective
    → at ≤ effective
unfolding compute_effective_scheduled_for
compute_effective_scheduled_for-le zone table application at quiet_periods effective h =
    ground (arith, le-shift_loop (quiet_period_finder zone table application quiet_periods) 32 at)

max_of-le : (m : ℕ) (xs : List ℕ) → m ≤ max_of m xs
unfolding max_of
max_of-le m [] = omega arith
max_of-le m (x ∷ xs) = omega (arith, max_of-le (max m x) xs)

le-max_of : (m : ℕ) (xs : List ℕ) (a : ℕ) → In a xs → a ≤ max_of m xs
unfolding max_of
le-max_of m [] a i = elim i [ ]
le-max_of m (x ∷ xs) a (inl e) = omega (arith, max_of-le (max m x) xs, e)
le-max_of m (x ∷ xs) a (inr i) = le-max_of (max m x) xs a i

max_of-In : (m : ℕ) (xs : List ℕ) → In (max_of m xs) (m ∷ xs)
unfolding max_of
max_of-In m [] = inl refl
max_of-In m (x ∷ xs) = elim (max_of-In (max m x) xs) [ inl e ↦ ground arith | inr i ↦ inr (inr i) ]

In-keep_end :
    (o : Option ℕ) (ends : List ℕ) (e : ℕ) → In e (keep_end o ends) → (o ≡ some e) ⊎ In e ends
In-keep_end none ends e i = inr i
In-keep_end (some x) ends e (inl p) = inl (ap some (sym p))
In-keep_end (some x) ends e (inr i) = inr i

keep_end-In :
    (o : Option ℕ) (ends : List ℕ) (e : ℕ) → (o ≡ some e) ⊎ In e ends → In e (keep_end o ends)
keep_end-In none ends e (inl p) = cc
keep_end-In none ends e (inr i) = i
keep_end-In (some x) ends e (inl p) = inl (cc)
keep_end-In (some x) ends e (inr i) = inr i

module _ (zone : Zone) (at : ℕ) where
  In-matching_end_dates :
      (qs : List QuietPeriod) (e : ℕ)
      → In e (matching_end_dates zone qs at)
      → (q : QuietPeriod) × In q qs × (get_quiet_period_end_for_period zone q at ≡ some e)
  unfolding matching_end_dates
  In-matching_end_dates [] e i = elim i [ ]
  In-matching_end_dates (q ∷ qs) e i = elim (In-keep_end _ _ e i) [
    | inl h ↦ (q, inl refl, h)
    | inr j ↦ let (p, k, h) = In-matching_end_dates qs e j in (p, inr k, h)
  ]

  matching_end_dates-In :
      (qs : List QuietPeriod) (e : ℕ) (q : QuietPeriod)
      → In q qs
      → get_quiet_period_end_for_period zone q at ≡ some e
      → In e (matching_end_dates zone qs at)
  unfolding matching_end_dates
  matching_end_dates-In [] e q i h = elim i [ ]
  matching_end_dates-In (p ∷ qs) e q (inl r) h =
      keep_end-In (get_quiet_period_end_for_period zone p at) (matching_end_dates zone qs at) e
        (inl (rw (← r) h))
  matching_end_dates-In (p ∷ qs) e q (inr i) h =
      keep_end-In _ _ e (inr (matching_end_dates-In qs e q i h))

latest-In : (xs : List ℕ) (m : ℕ) → latest xs ≡ some m → In m xs
latest-In [] m h = cc
latest-In (x ∷ xs) m h = subst (λ t. In t (x ∷ xs)) (some-injective _ _ h) (max_of-In x xs)

le-latest : (xs : List ℕ) (m a : ℕ) → latest xs ≡ some m → In a xs → a ≤ m
le-latest [] m a h i = elim i [ ]
le-latest (x ∷ xs) m a h (inl e) = omega (arith, some-injective _ _ h, e, max_of-le x xs)
le-latest (x ∷ xs) m a h (inr i) = omega (arith, some-injective _ _ h, le-max_of x xs a i)

latest-some : (xs : List ℕ) (a : ℕ) → In a xs → (m : ℕ) × (latest xs ≡ some m)
latest-some [] a i = elim i [ ]
latest-some (x ∷ xs) a i = (max_of x xs, refl)

module _ (zone : Zone) (qs : List QuietPeriod) (at : ℕ) where
  -- The end found for a collection of quiet periods is the end of one of them that covers the
  -- instant, and no other that covers it ends later.
  pub get_quiet_period_end_from_iterable_latest :
      (e : ℕ)
      → get_quiet_period_end_from_iterable zone qs at ≡ some e
      → ((q : QuietPeriod) × In q qs × (get_quiet_period_end_for_period zone q at ≡ some e))
        × ((q : QuietPeriod) (f : ℕ)
            → In q qs
            → get_quiet_period_end_for_period zone q at ≡ some f
            → f ≤ e)
  unfolding get_quiet_period_end_from_iterable
  get_quiet_period_end_from_iterable_latest e h = (
    In-matching_end_dates zone at qs e (latest-In _ e h),
    λ q f i k. le-latest _ e f h (matching_end_dates-In zone at qs f q i k),
  )

  -- Where no end is found, no period of the collection covers the instant.
  pub get_quiet_period_end_from_iterable-none :
      (q : QuietPeriod)
      → get_quiet_period_end_from_iterable zone qs at ≡ none
      → In q qs
      → get_quiet_period_end_for_period zone q at ≡ none
  unfolding get_quiet_period_end_from_iterable
  get_quiet_period_end_from_iterable-none q h i =
      elim (Option-cases (get_quiet_period_end_for_period zone q at)) [
        | inl e ↦ e
        | inr (f, e) ↦ cc (h, (latest-some _ f (matching_end_dates-In zone at qs f q i e)).1)
      ]
