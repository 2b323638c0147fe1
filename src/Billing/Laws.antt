-- ===== src/Billing/Laws.antt =====
-- What opens the gate of billing/service.py.
use push_it_server.Prelude.{
  ℕ, ◌≤◌, ◌<◌, ◌≡◌, ◌↔◌, ◌⊎◌, inl, inr, true, false, Option, none, some, List, arith, Bool-cases,
  Option-cases, refl, is_some,
}
use push_it_server.Models.{Subscription, User, Application}
use push_it_server.Billing.{
  BillingSettings, billing_configured, active_subscription, given_and_past, missing_or_past,
  user_is_paid, application_quota, applications_used, quota_required,
}

-- The instant, where it is given, is not past.
abbrev pub IsOpen : Option ℕ → ℕ → Type 0
IsOpen o now = (t : ℕ) → o ≡ some t → now ≤ t

-- A subscription was pushed as paid, and its period, or its grace period, has not run out.
pub record IsEntitled (sub : Subscription) (now : ℕ) : Type 0 where
  pub paid : sub.is_paid ≡ true
  pub current :
      IsOpen sub.current_period_end now
      ⊎ ((grace : ℕ) × (sub.grace_until ≡ some grace) × (now ≤ grace))

given_and_past-false : (o : Option ℕ) (now : ℕ) → given_and_past o now ≡ false → IsOpen o now
given_and_past-false none now h t e = cc
given_and_past-false (some u) now h t e = ground arith

IsOpen-given_and_past : (o : Option ℕ) (now : ℕ) → IsOpen o now → given_and_past o now ≡ false
IsOpen-given_and_past none now h = refl
IsOpen-given_and_past (some u) now h = ground (arith, h u refl)

missing_or_past-false :
    (o : Option ℕ) (now : ℕ) → missing_or_past o now ≡ false → (t : ℕ) × (o ≡ some t) × (now ≤ t)
missing_or_past-false none now h = cc
missing_or_past-false (some t) now h = (t, refl, ground arith)

active_subscription-IsEntitled :
    (sub : Subscription) (now : ℕ)
    → is_some (active_subscription (some sub) now) ≡ true
    → IsEntitled sub now
unfolding active_subscription
active_subscription-IsEntitled sub now h = record {
  paid = ground arith;
  current = elim (Bool-cases (given_and_past sub.current_period_end now)) [
    | inl past ↦ inr (missing_or_past-false sub.grace_until now (ground arith))
    | inr ahead ↦ inl (given_and_past-false sub.current_period_end now ahead)
  ];
}

IsEntitled-active_subscription :
    (sub : Subscription) (now : ℕ)
    → IsEntitled sub now
    → is_some (active_subscription (some sub) now) ≡ true
unfolding active_subscription
IsEntitled-active_subscription sub now h = elim h.current [
  | inl o ↦ ground (arith, IsOpen-given_and_past sub.current_period_end now o)
  | inr (g, e, l) ↦ ground arith
]

no_subscription : (now : ℕ) → active_subscription none now ≡ none
unfolding active_subscription
no_subscription now = refl

-- An account without a gift, where billing is set up, is paid exactly when it has a subscription
-- that was pushed as paid and whose period, or grace period, has not run out.
pub user_is_paid_iff :
    (s : BillingSettings) (user : User) (now : ℕ)
    → billing_configured s ≡ true
    → user.subscription_bypass ≡ false
    → (user_is_paid s user now ≡ true)
      ↔ ((sub : Subscription) × (user.subscription ≡ some sub) × IsEntitled sub now)
unfolding user_is_paid
user_is_paid_iff s user now c b = elim (Option-cases user.subscription) [
  | inl e ↦ (λ h. absurd (ground (arith, no_subscription now)), λ (sub, k, i). cc)
  | inr (sub, e) ↦ (
    λ h. (sub, e, active_subscription-IsEntitled sub now (ground arith)),
    λ (sub', k, i). ground (arith, IsEntitled-active_subscription sub' now i),
  )
]

-- An application may be created exactly when billing is not set up, or the user is paid and owns
-- fewer applications than the quota.
pub quota_required-none :
    (s : BillingSettings) (user : User) (applications : List Application) (now : ℕ)
    → (quota_required s user applications now ≡ none) ↔ (
        (billing_configured s ≡ false)
        ⊎ ((user_is_paid s user now ≡ true)
            × (applications_used user applications < application_quota s user now)))
unfolding quota_required
quota_required-none s user applications now = (λ h. ground arith, λ h. ground arith)
