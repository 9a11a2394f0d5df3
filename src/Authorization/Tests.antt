-- ===== src/Authorization/Tests.antt =====
-- Runs of the policy.
use salesforce_expert_suppor.Prelude.{◌≡◌, ◌↔◌, true, none, some, [], ◌∷◌}
use salesforce_expert_suppor.Contracts.{UserRole, ExpertStatus, AccountStatus}
use salesforce_expert_suppor.Authorization.Policy.{
  Actor, authenticated, granted, authorize, offer_respond, offer_read_own, expert_workspace_access,
}
use salesforce_expert_suppor.Authorization.Permissions.{Approved, authorize-offer_respond}

abbrev approved_expert : Actor
approved_expert = record {
  user_id = 7;
  roles = UserRole.customer ∷ UserRole.expert ∷ [];
  status = AccountStatus.active;
  email_verified = true;
  customer_profile_id = none;
  expert = some record { profile_id = 3; status = ExpertStatus.approved };
}

authorize-offer_respond_example :
    ((authorize (authenticated approved_expert) offer_respond ≡ granted approved_expert)
      ↔ Approved approved_expert)
    × ((authorize (authenticated approved_expert) offer_read_own ≡ granted approved_expert)
        ↔ Approved approved_expert)
    × ((authorize (authenticated approved_expert) expert_workspace_access ≡ granted approved_expert)
        ↔ Approved approved_expert)
authorize-offer_respond_example = authorize-offer_respond approved_expert
