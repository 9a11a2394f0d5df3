-- ===== src/Service/World.antt =====
-- What the matching service reads and writes: the requests (`SupportRequestRecord` of
-- packages/domain/src/ports/request-repositories.ts, the fields that matching reads), the runs, the
-- attempts, the payments, and the calls of the job scheduler and of the payment gateway, in order.
-- The scheduler and the gateway themselves are outside.
use salesforce_expert_suppor.Prelude.{
  ℕ, Bool, Option, List, [], ◌∷◌, if◌then◌else◌, ◌==◌, find_first,
}
use salesforce_expert_suppor.Contracts.{RequestState, CurrencyCode}
use salesforce_expert_suppor.Checkout.Payments.{Payment}
use salesforce_expert_suppor.Dispatch.Store.{Store}

pub record RequestSkill : Type 0 where
  pub skill_id : ℕ
  pub slug : ℕ
  pub is_primary : Bool

pub record Request : Type 0 where
  pub id : ℕ
  pub customer_id : ℕ
  pub state : RequestState
  pub version : ℕ
  pub match_deadline_at : ℕ
  pub assigned_expert_id : Option ℕ
  pub created_at : ℕ
  pub quoted_price_cents : ℕ
  pub currency : CurrencyCode
  pub skills : List RequestSkill

pub record Run : Type 0 where
  pub id : ℕ
  pub support_request_id : ℕ
  pub round_number : ℕ
  pub relaxation_level : ℕ
  pub candidate_pool_size : ℕ
  pub started_at : ℕ
  pub completed_at : Option ℕ

pub data Queue : Type 0 where
  dispatch_queue timeout_queue deadline_queue interest_queue confirmation_queue : Queue

-- The `singletonKey` of a job, one constructor for each prefix.
pub data JobKey : Type 0 where
  no_key : JobKey
  deadline_key : ℕ → JobKey
  level_key : ℕ → ℕ → JobKey
  timeout_key : ℕ → JobKey
  retry_key : ℕ → JobKey
  interest_key : ℕ → JobKey
  confirm_key : ℕ → JobKey

pub record Job : Type 0 where
  pub queue : Queue
  pub request_id : ℕ
  pub attempt_id : Option ℕ
  pub run_after_seconds : Option ℕ
  pub key : JobKey

-- A call of the payment gateway's `authorize`: its key and what it asks for.
pub record Charge : Type 0 where
  pub request_id : ℕ
  pub amount_minor : ℕ
  pub currency : CurrencyCode

-- `counter` numbers runs and attempts, as `nextId` does.
pub record World : Type 0 where
  pub requests : List Request
  pub runs : List Run
  pub store : Store
  pub counter : ℕ
  pub jobs : List Job
  pub payments : List Payment
  pub charges : List Charge

abbrev pub find_in : ℕ → List Request → Option Request
find_in id requests = find_first (λ r. r.id == id) requests

-- `rows.set(id, …)` on an id that is there.
unfoldable pub update_request : ℕ → (Request → Request) → List Request → List Request
update_request id change [] = []
update_request id change (r ∷ rest) =
    if r.id == id then change r ∷ rest else r ∷ update_request id change rest
