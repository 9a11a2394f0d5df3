-- ===== src/Service/Calls.antt =====
-- Any series of calls of the matching service and of checkout, from any world, whatever each of them answers or throws.
use salesforce_expert_suppor.Prelude.{ℕ, Option, List, [], ◌∷◌, Bool, true, false}
use salesforce_expert_suppor.Contracts.{DeclineReasonCode}
use salesforce_expert_suppor.Authorization.Policy.{Actor}
use salesforce_expert_suppor.Checkout.Checkouts.{Gateway, pay}
use salesforce_expert_suppor.Dispatch.Attempts.{Attempt}
use salesforce_expert_suppor.Matching.Number.{Number}
use salesforce_expert_suppor.Service.World.{World}
use salesforce_expert_suppor.Service.Setup.{Deps}
use salesforce_expert_suppor.Service.Responses.{
  accept_offer, decline_offer, expire_offer, expire_matching,
}
use salesforce_expert_suppor.Service.Interest.{respond}
use salesforce_expert_suppor.Service.Confirmation.{
  close_interest_window, select_candidate, confirm_selection, lapse_confirmation,
  decline_confirmation,
}
use salesforce_expert_suppor.Service.Admin.{
  admin_assign, admin_force_assign, dispatch_next_offer, begin_search, reconcile_stale_offers,
  recover_stalled_searches, reconcile_lapsed,
}

-- The public methods of `MatchingService`, and `pay` of `CheckoutService`, with their arguments; the
-- last one of each is the instant.
pub data Call : Type 0 where
  begin_searching : ℕ → ℕ → Call
  dispatching : ℕ → ℕ → Call
  closing_window : ℕ → ℕ → Call
  answering_interest : Actor → ℕ → Bool → ℕ → Call
  selecting : Actor → ℕ → ℕ → ℕ → Call
  confirming : Actor → ℕ → ℕ → Call
  refusing : Actor → ℕ → Option DeclineReasonCode → ℕ → Call
  lapsing : ℕ → ℕ → Call
  accepting : Actor → ℕ → ℕ → Call
  declining : Actor → ℕ → Option DeclineReasonCode → ℕ → ℕ → Call
  expiring_offer : ℕ → ℕ → Call
  expiring_search : ℕ → ℕ → Call
  assigning : Actor → ℕ → ℕ → ℕ → ℕ → Call
  forcing : Actor → ℕ → ℕ → ℕ → ℕ → Call
  withdrawing_stale : List Attempt → ℕ → Call
  recovering : List ℕ → ℕ → Call
  reconciling : List Attempt → ℕ → Call
  paying : Gateway → Actor → ℕ → ℕ → Call

-- Does an expert say yes by the call?
unfoldable pub is_consent : Call → Bool
is_consent (confirming actor id now) = true
is_consent (accepting actor id now) = true
is_consent _ = false

module _ (N : Number) (D : Deps N) where
  -- The world that a call leaves.
  unfoldable pub perform : Call → World → World
  perform (begin_searching id now) w = (begin_search N D id now w).1
  perform (dispatching id now) w = (dispatch_next_offer N D id now w).1
  perform (closing_window id now) w = (close_interest_window N D id now w).1
  perform (answering_interest actor id willing now) w = (respond actor id willing now w).1
  perform (selecting actor id attempt now) w = (select_candidate N D actor id attempt now w).1
  perform (confirming actor id now) w = (confirm_selection N D actor id now w).1
  perform (refusing actor id reason now) w = (decline_confirmation N D actor id now reason w).1
  perform (lapsing id now) w = (lapse_confirmation N D id now w).1
  perform (accepting actor id now) w = (accept_offer actor id now w).1
  perform (declining actor id reason note now) w = (decline_offer actor id now reason note w).1
  perform (expiring_offer id now) w = (expire_offer id now w).1
  perform (expiring_search id now) w = (expire_matching id now w).1
  perform (assigning actor id expert reason now) w =
      (admin_assign N D actor id expert reason now w).1
  perform (forcing actor id expert reason now) w =
      (admin_force_assign N D actor id expert reason now w).1
  perform (withdrawing_stale stale now) w = (reconcile_stale_offers N D stale now 0 w).1
  perform (recovering ids now) w = (recover_stalled_searches N D ids now 0 w).1
  perform (reconciling lapsed now) w = (reconcile_lapsed N D lapsed now 0 w).1
  perform (paying gateway actor id now) w = (pay gateway actor id now w).1

  unfoldable pub perform_all : List Call → World → World
  perform_all [] w = w
  perform_all (call ∷ calls) w = perform_all calls (perform call w)
