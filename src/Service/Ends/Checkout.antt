-- ===== src/Service/Ends/Checkout.antt =====
-- Paying ends in valid worlds.
use salesforce_expert_suppor.Prelude.{ℕ, ◌≡◌, refl, false, Option, none, some}
use salesforce_expert_suppor.Authorization.Policy.{Actor}
use salesforce_expert_suppor.Checkout.Payments.{Payment}
use salesforce_expert_suppor.Checkout.Checkouts.{
  Answer, GatewayAnswer, Gateway, accepted, needs_action, refused, require_own_request, answered,
  charge_of, ask_gateway, write_payment, by_answer, take_payment, pay,
}
use salesforce_expert_suppor.Service.World.{Request}
use salesforce_expert_suppor.Service.Valid.{ran_out, Total, Total-quiet, total}
use salesforce_expert_suppor.Service.Ends.Responses.{require_permission-Total}

require_own_request-Total : (actor : Actor) (id : ℕ) → Total (require_own_request actor id)
unfolding require_own_request
require_own_request-Total actor id = search total depth 40

answered_in_turns : (o : Option GatewayAnswer) → ran_out (answered o) ≡ false
answered_in_turns none = refl
answered_in_turns (some given) = refl

ask_gateway-Total : (gateway : Gateway) (r : Request) → Total (ask_gateway gateway r)
unfolding ask_gateway
ask_gateway-Total gateway r =
    Total-quiet (ask_gateway gateway r) (λ w. refl) (λ w. refl)
      (λ w. answered_in_turns (gateway (charge_of r)))

write_payment-Total : (input : Payment) → Total (write_payment input)
unfolding write_payment
write_payment-Total input = Total-quiet (write_payment input) (λ w. refl) (λ w. refl) (λ w. refl)

by_answer-Total :
    (r : Request) (now : ℕ) (given : GatewayAnswer) (answer : Answer)
    → Total (by_answer r now given answer)
unfolding by_answer
by_answer-Total r now given refused = search (total, write_payment-Total) depth 40
by_answer-Total r now given needs_action = search (total, write_payment-Total) depth 40
by_answer-Total r now given accepted = search (total, write_payment-Total) depth 40

take_payment-Total :
    (gateway : Gateway) (r : Request) (now : ℕ) → Total (take_payment gateway r now)
unfolding take_payment
take_payment-Total gateway r now = search (total, ask_gateway-Total, by_answer-Total) depth 40

pub pay-Total : (gateway : Gateway) (actor : Actor) (id now : ℕ) → Total (pay gateway actor id now)
unfolding pay
pay-Total gateway actor id now =
    search (total, require_permission-Total, require_own_request-Total, take_payment-Total) depth 40
