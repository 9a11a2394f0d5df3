-- ===== src/Service/Refines/Admin.antt =====
-- Manual dispatch, the entry points and the janitors are safe.
use salesforce_expert_suppor.Prelude.{ℕ, Bool, List, [], ◌∷◌}
use salesforce_expert_suppor.Dispatch.Attempts.{Attempt}
use salesforce_expert_suppor.Requests.History.{Move}
use salesforce_expert_suppor.Authorization.Policy.{Actor}
use salesforce_expert_suppor.Service.World.{Request}
use salesforce_expert_suppor.Service.Moving.{Safe, Allowed}
use salesforce_expert_suppor.Service.Safe.{steps}
use salesforce_expert_suppor.Matching.Number.{Number}
use salesforce_expert_suppor.Service.Setup.{Deps}
use salesforce_expert_suppor.Dispatch.Store.{Opened, opened, not_opened, conflict}
use salesforce_expert_suppor.Service.Admin.{
  Manual, take_opened, supersede_open, open_manually, admin_offer, admin_assign, admin_force_assign,
  dispatch_next_offer, begin_search, reconcile_stale_offers, recover_stalled_searches,
  reconcile_lapsed,
}
use salesforce_expert_suppor.Service.Refines.Responses.{
  require_permission-Safe, schedule_offer_timeout-Safe, return_to_searching-Safe,
}
use salesforce_expert_suppor.Service.Refines.Dispatch.{current_run-Safe, dispatch_exclusive-Safe}
use salesforce_expert_suppor.Service.Refines.Pool.{broadcast_interest-Safe, lapse_confirmation-Safe}

module _ (N : Number) (D : Deps N) where
  pub supersede_open-Safe :
      (p : Move → Bool) (held : List Request) (request_id : ℕ) (now : ℕ)
      → Allowed p
      → Safe p held (supersede_open request_id now)
  unfolding supersede_open
  supersede_open-Safe p held request_id now allowed = search steps depth 40

  take_opened-Safe :
      (p : Move → Bool) (held : List Request) (answer : Opened) → Safe p held (take_opened answer)
  unfolding take_opened
  take_opened-Safe p held (opened a) = search steps
  take_opened-Safe p held not_opened = search steps
  take_opened-Safe p held (conflict a) = search steps

  pub open_manually-Safe :
      (p : Move → Bool) (held : List Request) (attempt : Attempt) (expert : ℕ) (now : ℕ)
      (expires_at : ℕ)
      → Allowed p
      → Safe p held (open_manually attempt expert now expires_at)
  unfolding open_manually
  open_manually-Safe p held attempt expert now expires_at allowed =
      search (steps, take_opened-Safe) depth 40

  pub admin_offer-Safe :
      (p : Move → Bool) (held : List Request) (request_id : ℕ) (expert : ℕ) (reason_length : ℕ)
      (manual : Manual) (now : ℕ)
      → Allowed p
      → Safe p held (admin_offer N D request_id expert reason_length manual now)
  unfolding admin_offer
  admin_offer-Safe p held request_id expert reason_length manual now allowed =
      search
        (
          steps, allowed.by_admin, supersede_open-Safe, current_run-Safe, open_manually-Safe,
          schedule_offer_timeout-Safe,
        )
        depth 40

  pub admin_assign-Safe :
      (p : Move → Bool) (held : List Request) (actor : Actor) (request_id : ℕ) (expert : ℕ)
      (reason_length : ℕ) (now : ℕ)
      → Allowed p
      → Safe p held (admin_assign N D actor request_id expert reason_length now)
  unfolding admin_assign
  admin_assign-Safe p held actor request_id expert reason_length now allowed =
      search (steps, require_permission-Safe, admin_offer-Safe) depth 40

  pub admin_force_assign-Safe :
      (p : Move → Bool) (held : List Request) (actor : Actor) (request_id : ℕ) (expert : ℕ)
      (reason_length : ℕ) (now : ℕ)
      → Allowed p
      → Safe p held (admin_force_assign N D actor request_id expert reason_length now)
  unfolding admin_force_assign
  admin_force_assign-Safe p held actor request_id expert reason_length now allowed =
      search (steps, require_permission-Safe, admin_offer-Safe) depth 40

  pub dispatch_next_offer-Safe :
      (p : Move → Bool) (held : List Request) (id : ℕ) (now : ℕ)
      → Allowed p
      → Safe p held (dispatch_next_offer N D id now)
  unfolding dispatch_next_offer
  dispatch_next_offer-Safe p held id now allowed =
      search (steps, broadcast_interest-Safe, dispatch_exclusive-Safe) depth 40

  pub begin_search-Safe :
      (p : Move → Bool) (held : List Request) (id : ℕ) (now : ℕ)
      → Allowed p
      → Safe p held (begin_search N D id now)
  unfolding begin_search
  begin_search-Safe p held id now allowed = search (steps, dispatch_next_offer-Safe) depth 40

  pub reconcile_stale_offers-Safe :
      (p : Move → Bool) (held : List Request) (rows : List Attempt) (now : ℕ) (so_far : ℕ)
      → Allowed p
      → Safe p held (reconcile_stale_offers N D rows now so_far)
  unfolding reconcile_stale_offers
  reconcile_stale_offers-Safe p held [] now so_far allowed = search (steps)
  reconcile_stale_offers-Safe p held (r ∷ rows) now so_far allowed =
      search (steps, return_to_searching-Safe, reconcile_stale_offers-Safe p held rows) depth 40

  pub recover_stalled_searches-Safe :
      (p : Move → Bool) (held : List Request) (rows : List ℕ) (now : ℕ) (so_far : ℕ)
      → Allowed p
      → Safe p held (recover_stalled_searches N D rows now so_far)
  unfolding recover_stalled_searches
  recover_stalled_searches-Safe p held [] now so_far allowed = search (steps)
  recover_stalled_searches-Safe p held (r ∷ rows) now so_far allowed =
      search (steps, dispatch_next_offer-Safe, recover_stalled_searches-Safe p held rows) depth 40

  pub reconcile_lapsed-Safe :
      (p : Move → Bool) (held : List Request) (rows : List Attempt) (now : ℕ) (so_far : ℕ)
      → Allowed p
      → Safe p held (reconcile_lapsed N D rows now so_far)
  unfolding reconcile_lapsed
  reconcile_lapsed-Safe p held [] now so_far allowed = search (steps)
  reconcile_lapsed-Safe p held (r ∷ rows) now so_far allowed =
      search (steps, lapse_confirmation-Safe, reconcile_lapsed-Safe p held rows) depth 40
