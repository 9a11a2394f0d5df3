-- ===== src/Authorization/Policy.antt =====
-- authorization/actor.ts and authorization/policy.ts. Identifiers are numbers: the code only
-- compares them. The e-mail address, which only audit rows show, is left out.
use salesforce_expert_suppor.Prelude.{
  ℕ, Bool, true, false, ◌||◌, Option, none, some, List, [], ◌∷◌, if◌then◌else◌, includes, select,
}
use salesforce_expert_suppor.Contracts.{UserRole, UserRole-discrete, ExpertStatus, AccountStatus}

pub record ExpertIdentity : Type 0 where
  pub profile_id : ℕ
  pub status : ExpertStatus

pub record Actor : Type 0 where
  pub user_id : ℕ
  pub roles : List UserRole
  pub status : AccountStatus
  pub email_verified : Bool
  pub customer_profile_id : Option ℕ
  pub expert : Option ExpertIdentity

pub data MaybeActor : Type 0 where
  anonymous : MaybeActor
  authenticated : Actor → MaybeActor

unfoldable pub has_role : Actor → UserRole → Bool
has_role actor role = includes UserRole-discrete role actor.roles

pub data Permission : Type 0 where
  account_read_self account_update_self : Permission
  expert_application_start expert_application_read_own expert_application_update_own : Permission
  expert_application_submit_own expert_workspace_access : Permission
  expert_profile_read_own expert_profile_update_own : Permission
  expert_skill_read_own expert_skill_update_own : Permission
  expert_availability_read_own expert_availability_update_own : Permission
  support_request_create support_request_read_own support_request_cancel_own : Permission
  attachment_upload offer_read_own offer_respond : Permission
  session_read_own session_join session_end : Permission
  admin_read_experts admin_read_requests admin_verify_expert_skill : Permission
  admin_review_expert admin_suspend_expert admin_reinstate_expert admin_read_users : Permission
  matching_admin_assign matching_admin_force_assign matching_read_audit : Permission

unfoldable pub permissions : List Permission
permissions =
    account_read_self ∷ account_update_self ∷ expert_application_start ∷ expert_application_read_own
    ∷ expert_application_update_own ∷ expert_application_submit_own ∷ expert_workspace_access
    ∷ expert_profile_read_own ∷ expert_profile_update_own ∷ expert_skill_read_own
    ∷ expert_skill_update_own ∷ expert_availability_read_own ∷ expert_availability_update_own
    ∷ support_request_create ∷ support_request_read_own ∷ support_request_cancel_own
    ∷ attachment_upload ∷ offer_read_own ∷ offer_respond ∷ session_read_own ∷ session_join
    ∷ session_end ∷ admin_read_experts ∷ admin_read_requests ∷ admin_verify_expert_skill
    ∷ admin_review_expert ∷ admin_suspend_expert ∷ admin_reinstate_expert ∷ admin_read_users
    ∷ matching_admin_assign ∷ matching_admin_force_assign ∷ matching_read_audit ∷ []

abbrev pub is_active : AccountStatus → Bool
is_active AccountStatus.active = true
is_active _ = false

-- `actor.expert?.status === s`, at the statuses that the policy asks for.
abbrev pub expert_approved : Option ExpertIdentity → Bool
expert_approved none = false
expert_approved (some e) = elim e.status [ ExpertStatus.approved ↦ true | _ ↦ false ]

abbrev pub expert_draft : Option ExpertIdentity → Bool
expert_draft none = false
expert_draft (some e) = elim e.status [ ExpertStatus.draft ↦ true | _ ↦ false ]

abbrev pub expert_rejected : Option ExpertIdentity → Bool
expert_rejected none = false
expert_rejected (some e) = elim e.status [ ExpertStatus.rejected ↦ true | _ ↦ false ]

abbrev pub has_application : Option ExpertIdentity → Bool
has_application none = false
has_application (some e) = true

unfoldable pub can_access_expert_workspace : Actor → Bool
can_access_expert_workspace actor =
    if is_active actor.status then expert_approved actor.expert else false

-- The `switch` of `can`, for an actor whose account is active.
unfoldable pub decide_permission : Actor → Permission → Bool
decide_permission actor admin_read_experts = has_role actor UserRole.admin
decide_permission actor admin_read_requests = has_role actor UserRole.admin
decide_permission actor admin_verify_expert_skill = has_role actor UserRole.admin
decide_permission actor admin_review_expert = has_role actor UserRole.admin
decide_permission actor admin_suspend_expert = has_role actor UserRole.admin
decide_permission actor admin_reinstate_expert = has_role actor UserRole.admin
decide_permission actor admin_read_users = has_role actor UserRole.admin
decide_permission actor matching_admin_assign = has_role actor UserRole.admin
decide_permission actor matching_admin_force_assign = has_role actor UserRole.admin
decide_permission actor matching_read_audit = has_role actor UserRole.admin
decide_permission actor account_read_self = true
decide_permission actor account_update_self = true
decide_permission actor support_request_create = true
decide_permission actor support_request_read_own = true
decide_permission actor support_request_cancel_own = true
decide_permission actor attachment_upload = true
decide_permission actor session_read_own = true
decide_permission actor session_join = true
decide_permission actor session_end = true
decide_permission actor expert_application_start = true
decide_permission actor expert_application_read_own = has_application actor.expert
decide_permission actor expert_application_update_own =
    expert_draft actor.expert || expert_rejected actor.expert
decide_permission actor expert_application_submit_own = expert_draft actor.expert
decide_permission actor expert_workspace_access = can_access_expert_workspace actor
decide_permission actor offer_read_own = can_access_expert_workspace actor
decide_permission actor offer_respond = can_access_expert_workspace actor
decide_permission actor expert_profile_read_own = has_application actor.expert
decide_permission actor expert_profile_update_own = has_application actor.expert
decide_permission actor expert_skill_read_own = has_application actor.expert
decide_permission actor expert_skill_update_own = has_application actor.expert
decide_permission actor expert_availability_read_own = has_application actor.expert
decide_permission actor expert_availability_update_own = has_application actor.expert

unfoldable pub can : MaybeActor → Permission → Bool
unfolding decide_permission can_access_expert_workspace
can anonymous permission = false
can (authenticated actor) permission =
    if is_active actor.status then decide_permission actor permission else false

pub data Authorized : Type 0 where
  unauthenticated : Authorized
  forbidden : Authorized
  granted : Actor → Authorized

-- What `authorize` throws, or the actor whose presence it asserts.
unfoldable pub authorize : MaybeActor → Permission → Authorized
authorize anonymous permission = unauthenticated
authorize (authenticated actor) permission =
    if can (authenticated actor) permission then granted actor else forbidden

unfoldable pub granted_permissions : MaybeActor → List Permission
granted_permissions actor = select (λ permission. can actor permission) permissions
