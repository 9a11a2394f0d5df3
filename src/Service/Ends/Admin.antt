-- ===== src/Service/Ends/Admin.antt =====
-- Manual dispatch, the entry points and the janitors end in valid worlds.
use salesforce_expert_suppor.Prelude.{
  ℕ, ◌≡◌, refl, sym, List, [], ◌∷◌, ◌++◌, arith, In, inl, inr, append-In,
}
use salesforce_expert_suppor.Dispatch.Attempts.{Attempt}
use salesforce_expert_suppor.Contracts.{AttemptOrigin}
use salesforce_expert_suppor.Authorization.Policy.{Actor}
use salesforce_expert_suppor.Service.World.{World}
use salesforce_expert_suppor.Service.Valid.{IsValid, Total, Ended, Ended-bind, total}
use salesforce_expert_suppor.Matching.Number.{Number}
use salesforce_expert_suppor.Service.Setup.{Deps}
use salesforce_expert_suppor.Service.Monad.{Action, ◌>>=◌, on_store}
use salesforce_expert_suppor.Service.Runs.{create_admin_attempt, blank_attempt}
use salesforce_expert_suppor.Dispatch.Store.{Opened, opened, not_opened, conflict, open_offer}
use salesforce_expert_suppor.Service.Admin.{
  Manual, take_opened, supersede_open, open_manually, admin_offer, admin_assign, admin_force_assign,
  dispatch_next_offer, begin_search, reconcile_stale_offers, recover_stalled_searches,
  reconcile_lapsed,
}
use salesforce_expert_suppor.Service.Fresh.{Total-create_admin_attempt}
use salesforce_expert_suppor.Service.Offering.{
  open_offer-IsValid, ok_eq, schedule_offer_timeout-Total,
}
use salesforce_expert_suppor.Service.Ends.Responses.{
  require_permission-Total, return_to_searching-Total,
}
use salesforce_expert_suppor.Service.Ends.Dispatch.{current_run-Total, dispatch_exclusive-Total}
use salesforce_expert_suppor.Service.Ends.Pool.{broadcast_interest-Total, lapse_confirmation-Total}

module _ (N : Number) (D : Deps N) where
  pub supersede_open-Total : (request_id : ℕ) (now : ℕ) → Total (supersede_open request_id now)
  unfolding supersede_open
  supersede_open-Total request_id now = search total depth 40

  take_opened-Total : (answer : Opened) → Total (take_opened answer)
  unfolding take_opened
  take_opened-Total (opened a) = search total
  take_opened-Total not_opened = search total
  take_opened-Total (conflict a) = search total

  open_manually-Ended :
      (a : Attempt) (expert now expires_at : ℕ) (w : World)
      → a.expert_profile_id ≡ expert
      → In a w.store.attempts
      → IsValid w
      → Ended (open_manually a expert now expires_at w)
  unfolding open_manually on_store Total
  open_manually-Ended a expert now expires_at w e i valid = rw (sym e) (
      Ended-bind (on_store (open_offer a.id a.expert_profile_id now expires_at)) take_opened w
        (open_offer-IsValid a now expires_at w valid i, refl)
        (λ answer _ v. take_opened-Total answer _ v))

  created-In : (xs : List Attempt) (a b : Attempt) → a ≡ b → In b (xs ++ (a ∷ []))
  created-In xs a b e = (append-In xs (a ∷ []) b).1 (inr (inl e))

  -- An attempt that was just created belongs to the expert to whom it is offered.
  offer_created-Total :
      {B : Type 0} (run request expert : ℕ) (origin : AttemptOrigin) (now expires_at : ℕ)
      (k : Attempt → Action B)
      → ((given : Attempt) → Total (k given))
      → Total (
          create_admin_attempt run request expert origin >>= λ attempt.
          open_manually attempt expert now expires_at >>= k)
  unfolding Total create_admin_attempt blank_attempt
  offer_created-Total run request expert origin now expires_at k h w valid =
      let v = (create_admin_attempt run request expert origin w).1 in
      let valid_then = Total-create_admin_attempt run request expert origin w valid in
      Ended-bind (create_admin_attempt run request expert origin)
        (λ attempt. open_manually attempt expert now expires_at >>= k) w valid_then
        (λ attempt e u.
          Ended-bind (open_manually attempt expert now expires_at) k v
            (open_manually-Ended attempt expert now expires_at v (ground arith)
              (created-In w.store.attempts _ attempt (ok_eq e)) u)
            (λ given _ x. h given _ x))

  pub admin_offer-Total :
      (request_id : ℕ) (expert : ℕ) (reason_length : ℕ) (manual : Manual) (now : ℕ)
      → Total (admin_offer N D request_id expert reason_length manual now)
  unfolding admin_offer
  admin_offer-Total request_id expert reason_length manual now =
      search
        (
          total, supersede_open-Total, current_run-Total, offer_created-Total,
          schedule_offer_timeout-Total,
        )
        depth 40

  pub admin_assign-Total :
      (actor : Actor) (request_id : ℕ) (expert : ℕ) (reason_length : ℕ) (now : ℕ)
      → Total (admin_assign N D actor request_id expert reason_length now)
  unfolding admin_assign
  admin_assign-Total actor request_id expert reason_length now =
      search (total, require_permission-Total, admin_offer-Total) depth 40

  pub admin_force_assign-Total :
      (actor : Actor) (request_id : ℕ) (expert : ℕ) (reason_length : ℕ) (now : ℕ)
      → Total (admin_force_assign N D actor request_id expert reason_length now)
  unfolding admin_force_assign
  admin_force_assign-Total actor request_id expert reason_length now =
      search (total, require_permission-Total, admin_offer-Total) depth 40

  pub dispatch_next_offer-Total : (id : ℕ) (now : ℕ) → Total (dispatch_next_offer N D id now)
  unfolding dispatch_next_offer
  dispatch_next_offer-Total id now =
      search (total, broadcast_interest-Total, dispatch_exclusive-Total) depth 40

  pub begin_search-Total : (id : ℕ) (now : ℕ) → Total (begin_search N D id now)
  unfolding begin_search
  begin_search-Total id now = search (total, dispatch_next_offer-Total) depth 40

  pub reconcile_stale_offers-Total :
      (rows : List Attempt) (now : ℕ) (so_far : ℕ)
      → Total (reconcile_stale_offers N D rows now so_far)
  unfolding reconcile_stale_offers
  reconcile_stale_offers-Total [] now so_far = search total
  reconcile_stale_offers-Total (r ∷ rows) now so_far =
      search (total, return_to_searching-Total, reconcile_stale_offers-Total rows) depth 40

  pub recover_stalled_searches-Total :
      (rows : List ℕ) (now : ℕ) (so_far : ℕ) → Total (recover_stalled_searches N D rows now so_far)
  unfolding recover_stalled_searches
  recover_stalled_searches-Total [] now so_far = search total
  recover_stalled_searches-Total (r ∷ rows) now so_far =
      search (total, dispatch_next_offer-Total, recover_stalled_searches-Total rows) depth 40

  pub reconcile_lapsed-Total :
      (rows : List Attempt) (now : ℕ) (so_far : ℕ) → Total (reconcile_lapsed N D rows now so_far)
  unfolding reconcile_lapsed
  reconcile_lapsed-Total [] now so_far = search total
  reconcile_lapsed-Total (r ∷ rows) now so_far =
      search (total, lapse_confirmation-Total, reconcile_lapsed-Total rows) depth 40
