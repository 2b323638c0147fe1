-- ===== src/Billing.antt =====
-- billing/service.py: the local gate on what a user may do, read from the cached entitlements.
pub mod Laws
mod Tests
use push_it_server.Prelude.{
  ℕ, String, Bool, true, false, not, ◌&&◌, Option, none, some, List, ltb, leb, ◌==◌, str_eq,
  if◌then◌else◌, is_some, length, select,
}
use push_it_server.Models.{Subscription, User, Application}

pub record BillingSettings : Type 0 where
  pub base_url : String
  pub app_secret : String

abbrev pub unlimited : ℕ
unlimited = 10000

-- the two refusals of `quota_required` and `subscription_required`, both a 402
pub data Refusal : Type 0 where
  subscription_missing : Refusal
  quota_exceeded : ℕ → Refusal

unfoldable pub billing_configured : BillingSettings → Bool
billing_configured s = not (str_eq s.base_url "") && not (str_eq s.app_secret "")

-- `value is None or value < now`
abbrev pub missing_or_past : Option ℕ → ℕ → Bool
missing_or_past none now = true
missing_or_past (some t) now = ltb t now

-- `value is not None and value < now`
abbrev pub given_and_past : Option ℕ → ℕ → Bool
given_and_past none now = false
given_and_past (some t) now = ltb t now

unfoldable pub active_subscription : Option Subscription → ℕ → Option Subscription
active_subscription none now = none
active_subscription (some sub) now =
    if not sub.is_paid
    then none
    else if given_and_past sub.current_period_end now && missing_or_past sub.grace_until now
    then none
    else some sub

unfoldable pub user_is_paid : BillingSettings → User → ℕ → Bool
user_is_paid s user now =
    if not (billing_configured s)
    then true
    else if user.subscription_bypass
    then true
    else is_some (active_subscription user.subscription now)

-- `quota` is `none` where the pushed quotas hold no number of applications
abbrev pub granted : Option Subscription → ℕ
granted none = 0
granted (some sub) = elim sub.quota [ none ↦ 0 | some n ↦ n ]

pub application_quota : BillingSettings → User → ℕ → ℕ
application_quota s user now =
    if not (billing_configured s)
    then unlimited
    else if user.subscription_bypass
    then unlimited
    else granted (active_subscription user.subscription now)

pub applications_used : User → List Application → ℕ
applications_used user applications = length (select (λ a. a.owner.id == user.id) applications)

pub subscription_required : BillingSettings → User → ℕ → Option Refusal
subscription_required s user now =
    if user_is_paid s user now then none else some subscription_missing

pub quota_required : BillingSettings → User → List Application → ℕ → Option Refusal
quota_required s user applications now =
    if not (billing_configured s)
    then none
    else if not (user_is_paid s user now)
    then some subscription_missing
    else if leb (application_quota s user now) (applications_used user applications)
    then some (quota_exceeded (application_quota s user now))
    else none
