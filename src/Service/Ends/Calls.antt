-- ===== src/Service/Ends/Calls.antt =====
-- What any series of calls of the matching service and of checkout keeps.
use salesforce_expert_suppor.Prelude.{ℕ, ◌≡◌, ◌≢◌, arith, false, List, [], ◌∷◌}
use salesforce_expert_suppor.Matching.Number.{Number}
use salesforce_expert_suppor.Service.World.{World}
use salesforce_expert_suppor.Service.Setup.{Deps}
use salesforce_expert_suppor.Service.Monad.{Result, err, out_of_fuel}
use salesforce_expert_suppor.Service.Valid.{IsValid, Total, ran_out}
use salesforce_expert_suppor.Service.Admin.{dispatch_next_offer, recover_stalled_searches}
use salesforce_expert_suppor.Service.Calls.{
  Call, begin_searching, dispatching, closing_window, answering_interest, selecting, confirming,
  refusing, lapsing, accepting, declining, expiring_offer, expiring_search, assigning, forcing,
  withdrawing_stale, recovering, reconciling, paying, perform, perform_all,
}
use salesforce_expert_suppor.Service.Ends.Responses.{
  accept_offer-Total, decline_offer-Total, expire_offer-Total, expire_matching-Total, respond-Total,
}
use salesforce_expert_suppor.Service.Ends.Pool.{
  close_interest_window-Total, select_candidate-Total, confirm_selection-Total,
  lapse_confirmation-Total, decline_confirmation-Total,
}
use salesforce_expert_suppor.Service.Ends.Checkout.{pay-Total}
use salesforce_expert_suppor.Service.Ends.Admin.{
  admin_assign-Total, admin_force_assign-Total, dispatch_next_offer-Total, begin_search-Total,
  reconcile_stale_offers-Total, recover_stalled_searches-Total, reconcile_lapsed-Total,
}

module _ (N : Number) (D : Deps N) where
  perform-IsValid : (call : Call) (w : World) → IsValid w → IsValid (perform N D call w)
  unfolding perform Total
  perform-IsValid (begin_searching id now) w valid = (begin_search-Total N D id now w valid).0
  perform-IsValid (dispatching id now) w valid = (dispatch_next_offer-Total N D id now w valid).0
  perform-IsValid (closing_window id now) w valid =
      (close_interest_window-Total N D id now w valid).0
  perform-IsValid (answering_interest actor id willing now) w valid =
      (respond-Total actor id willing now w valid).0
  perform-IsValid (selecting actor id attempt now) w valid =
      (select_candidate-Total N D actor id attempt now w valid).0
  perform-IsValid (confirming actor id now) w valid =
      (confirm_selection-Total N D actor id now w valid).0
  perform-IsValid (refusing actor id reason now) w valid =
      (decline_confirmation-Total N D actor id now reason w valid).0
  perform-IsValid (lapsing id now) w valid = (lapse_confirmation-Total N D id now w valid).0
  perform-IsValid (accepting actor id now) w valid = (accept_offer-Total actor id now w valid).0
  perform-IsValid (declining actor id reason note now) w valid =
      (decline_offer-Total actor id now reason note w valid).0
  perform-IsValid (expiring_offer id now) w valid = (expire_offer-Total id now w valid).0
  perform-IsValid (expiring_search id now) w valid = (expire_matching-Total id now w valid).0
  perform-IsValid (assigning actor id expert reason now) w valid =
      (admin_assign-Total N D actor id expert reason now w valid).0
  perform-IsValid (forcing actor id expert reason now) w valid =
      (admin_force_assign-Total N D actor id expert reason now w valid).0
  perform-IsValid (withdrawing_stale stale now) w valid =
      (reconcile_stale_offers-Total N D stale now 0 w valid).0
  perform-IsValid (recovering ids now) w valid =
      (recover_stalled_searches-Total N D ids now 0 w valid).0
  perform-IsValid (reconciling lapsed now) w valid =
      (reconcile_lapsed-Total N D lapsed now 0 w valid).0
  perform-IsValid (paying gateway actor id now) w valid = (pay-Total gateway actor id now w valid).0

  -- Any series of calls of the matching service and of checkout, whatever they answer or throw, leaves a valid world
  -- if it began in one: ids of attempts are unique and at most the counter, no expert holds two open
  -- offers, and no expert and no request has two confirmations.
  pub perform_all-IsValid :
      (calls : List Call) (w : World) → IsValid w → IsValid (perform_all N D calls w)
  unfolding perform_all
  perform_all-IsValid [] w valid = valid
  perform_all-IsValid (call ∷ calls) w valid =
      perform_all-IsValid calls (perform N D call w) (perform-IsValid call w valid)

  -- In a valid world no dispatch and no recovery of stalled searches is cut short: the loops of
  -- `tryOfferFromRun` and `dispatchNextOffer` end within the turns that they are given.
  pub dispatch_next_offer_terminates :
      (id : ℕ) (ids : List ℕ) (now : ℕ) (w : World)
      → IsValid w
      → ((dispatch_next_offer N D id now w).0 ≢ err out_of_fuel)
        × ((recover_stalled_searches N D ids now 0 w).0 ≢ err out_of_fuel)
  unfolding Total
  dispatch_next_offer_terminates id ids now w valid = (
    not_cut ((dispatch_next_offer-Total N D id now w valid).1),
    not_cut ((recover_stalled_searches-Total N D ids now 0 w valid).1),
  )
    where
      not_cut : {A : Type 0} {r : Result A} → ran_out r ≡ false → r ≢ err out_of_fuel
      not_cut e f = ground arith
