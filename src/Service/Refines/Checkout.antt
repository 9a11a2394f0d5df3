-- ===== src/Service/Refines/Checkout.antt =====
-- Paying is safe.
use salesforce_expert_suppor.Prelude.{ℕ, refl, Bool, List, ◌∷◌}
use salesforce_expert_suppor.Requests.History.{Move}
use salesforce_expert_suppor.Authorization.Policy.{Actor}
use salesforce_expert_suppor.Checkout.Payments.{Payment}
use salesforce_expert_suppor.Checkout.Checkouts.{
  Answer, GatewayAnswer, Gateway, accepted, needs_action, refused, require_own_request, ask_gateway,
  write_payment, by_answer, take_payment, pay,
}
use salesforce_expert_suppor.Checkout.Endings.{
  ends_with, require_own_request_reads, require_own_request_ok,
}
use salesforce_expert_suppor.Service.World.{Request}
use salesforce_expert_suppor.Service.Monad.{Action, ◌>>=◌}
use salesforce_expert_suppor.Service.Follows.{Moved, Moved-refl, Known-found}
use salesforce_expert_suppor.Service.Moving.{Safe, Held, Allowed}
use salesforce_expert_suppor.Service.Safe.{Safe-quiet, steps}
use salesforce_expert_suppor.Service.Refines.Responses.{require_permission-Safe}

require_own_request-Safe :
    {A : Type 0} (p : Move → Bool) (held : List Request) (actor : Actor) (id : ℕ)
    (f : Request → Action A)
    → ((r : Request) → Safe p (r ∷ held) (f r))
    → Safe p held (require_own_request actor id >>= f)
unfolding Safe
require_own_request-Safe p held actor id f h w known =
    ends_with (require_own_request actor id) f w (Moved p w)
      (λ e. rw (require_own_request_reads actor id w) (Moved-refl p w))
      (λ r e.
        let (found, own) = require_own_request_ok actor id w r e in
        rw (require_own_request_reads actor id w) (h r w (Known-found p id w r found, known)))

ask_gateway-Safe :
    (p : Move → Bool) (held : List Request) (gateway : Gateway) (r : Request)
    → Safe p held (ask_gateway gateway r)
unfolding ask_gateway
ask_gateway-Safe p held gateway r = Safe-quiet p held (ask_gateway gateway r) (λ w. refl)

write_payment-Safe :
    (p : Move → Bool) (held : List Request) (input : Payment) → Safe p held (write_payment input)
unfolding write_payment
write_payment-Safe p held input = Safe-quiet p held (write_payment input) (λ w. refl)

by_answer-Safe :
    (p : Move → Bool) (held : List Request) (r : Request) (now : ℕ) (given : GatewayAnswer)
    (answer : Answer)
    → Held r held
    → Allowed p
    → Safe p held (by_answer r now given answer)
unfolding by_answer
by_answer-Safe p held r now given refused i allowed = search (steps, write_payment-Safe) depth 40
by_answer-Safe p held r now given needs_action i allowed =
    search (steps, write_payment-Safe) depth 40
by_answer-Safe p held r now given accepted i allowed =
    search (steps, write_payment-Safe, allowed.by_system) depth 40

take_payment-Safe :
    (p : Move → Bool) (held : List Request) (gateway : Gateway) (r : Request) (now : ℕ)
    → Held r held
    → Allowed p
    → Safe p held (take_payment gateway r now)
unfolding take_payment
take_payment-Safe p held gateway r now i allowed =
    search (steps, ask_gateway-Safe, by_answer-Safe) depth 40

pub pay-Safe :
    (p : Move → Bool) (held : List Request) (gateway : Gateway) (actor : Actor) (id now : ℕ)
    → Allowed p
    → Safe p held (pay gateway actor id now)
unfolding pay
pay-Safe p held gateway actor id now allowed =
    search (require_own_request-Safe, require_permission-Safe, take_payment-Safe, steps) depth 40
