-- ===== src/Billing/Tests.antt =====
-- Runs of billing/service.py, and its theorems at concrete inputs.
use push_it_server.Prelude.{◌≡◌, refl, true, false, some, [], ◌∷◌}
use push_it_server.Models.{User}
use push_it_server.Samples.{alice, app_one, with_billing}
use push_it_server.Billing.{
  billing_configured, user_is_paid, application_quota, applications_used, quota_required,
  quota_exceeded, active_subscription,
}

-- paid up to the instant 100, and in grace up to 150
abbrev in_grace : User
in_grace = record alice {
  subscription = some (record {
    current_period_end = some 100;
    is_paid = true;
    quota = some 1;
    grace_until = some 150;
  });
}

grace_pays : user_is_paid with_billing in_grace 120 ≡ true
unfolding user_is_paid billing_configured active_subscription
grace_pays = refl

grace_ends : user_is_paid with_billing in_grace 151 ≡ false
unfolding user_is_paid billing_configured active_subscription
grace_ends = refl

quota_is_full : quota_required with_billing in_grace (app_one ∷ []) 120 ≡ some (quota_exceeded 1)
unfolding quota_required user_is_paid billing_configured active_subscription application_quota
    applications_used
quota_is_full = refl

billing_on : billing_configured with_billing ≡ true
unfolding billing_configured
billing_on = refl
