-- ===== src/Authorization/Permissions.antt =====
-- The policy's promises, over all actors and all permissions.
use salesforce_expert_suppor.Prelude.{
  ◌≡◌, refl, ◌↔◌, ◌≢◌, inl, inr, true, false, Option, none, some, List, arith, Bool-cases,
}
use salesforce_expert_suppor.Contracts.{UserRole, ExpertStatus, AccountStatus}
use salesforce_expert_suppor.Authorization.Policy.{
  Actor, ExpertIdentity, authenticated, anonymous, Permission, has_role, can, decide_permission,
  can_access_expert_workspace, offer_read_own, expert_workspace_access, granted, authorize,
  offer_respond, expert_approved, is_active,
}

-- An account that is not active, or no account at all, has no permission whatever.
pub can-inactive :
    (actor : Actor) (p : Permission)
    → actor.status ≢ AccountStatus.active
    → (can (authenticated actor) p ≡ false) × (can anonymous p ≡ false)
unfolding can
can-inactive actor p h = ground arith

-- No role but ADMIN decides anything: two actors that differ in their roles alone, and of which both
-- or neither has ADMIN, have the same permissions. With the EXPERT role or without, what an expert
-- may do depends on the application.
pub can-roles :
    (actor : Actor) (roles : List UserRole) (p : Permission)
    → has_role actor UserRole.admin ≡ has_role (record actor { roles = roles }) UserRole.admin
    → can (authenticated actor) p ≡ can (authenticated (record actor { roles = roles })) p
unfolding can
can-roles actor roles p h = elim (Bool-cases (is_active actor.status)) [
  | inl e ↦ rw e (same_answer p)
  | inr e ↦ rw e
]
  where
    same_answer :
        (q : Permission)
        → decide_permission actor q ≡ decide_permission (record actor { roles = roles }) q
    same_answer Permission.account_read_self = refl
    same_answer _ = ground arith

approved_identity :
    (o : Option ExpertIdentity)
    → expert_approved o ≡ true
    → (e : ExpertIdentity) × (o ≡ some e) × (e.status ≡ ExpertStatus.approved)
approved_identity none h = cc
approved_identity (some e) h = (e, refl, ground arith)

-- An active account whose application was approved.
abbrev pub Approved : Actor → Type 0
Approved actor =
    (actor.status ≡ AccountStatus.active)
    × ((e : ExpertIdentity) × (actor.expert ≡ some e) × (e.status ≡ ExpertStatus.approved))

authorize-workspace :
    (actor : Actor) (p : Permission)
    → decide_permission actor p ≡ can_access_expert_workspace actor
    → (authorize (authenticated actor) p ≡ granted actor) ↔ Approved actor
unfolding authorize can can_access_expert_workspace
authorize-workspace actor p d =
    (λ h. (ground arith, approved_identity actor.expert (ground arith)), λ h. ground arith)

-- Reading offers, answering them, and the expert workspace are each granted exactly to active
-- accounts with an approved application.
pub authorize-offer_respond :
    (actor : Actor)
    → ((authorize (authenticated actor) offer_respond ≡ granted actor) ↔ Approved actor)
      × ((authorize (authenticated actor) offer_read_own ≡ granted actor) ↔ Approved actor)
      × ((authorize (authenticated actor) expert_workspace_access ≡ granted actor) ↔ Approved actor)
unfolding decide_permission
authorize-offer_respond actor = (
  authorize-workspace actor offer_respond refl,
  authorize-workspace actor offer_read_own refl,
  authorize-workspace actor expert_workspace_access refl,
)
