-- ===== src/Lib.antt =====
-- A model of the domain package of this repository (packages/domain/src, TypeScript): the rules by
-- which a customer's support request finds a Salesforce expert, is dispatched, paid for and held.
--
-- The program is a set of services over pure modules. A service loads rows, asks the pure modules
-- what is allowed and what comes next, and writes the answer. This library models the pure modules,
-- which carry the rules, the operations that move the attempts of a request, and the services that
-- dispatch a request to experts and take its payment.
--
-- Parts, files and sources:
--   Contracts              the enumerations, packages/contracts/src/primitives.ts
--   Requests/Machine       the request's state machine, support-requests/state-machine.ts; `Lookup`
--                          and `Terminal` prove its lookups against its table, and `History` what a
--                          request can go through (`replay` is `assertTransition`, move after move)
--   Experts/Status         the application's states, experts/expert-status.ts
--   Experts/Availability   the toggle, presence and eligibility, experts/availability.ts; proofs in
--                          `Lifecycle` and `Eligibility`
--   Experts/Photos         what an upload must begin with, experts/photo-validation.ts; proofs in
--                          `Signatures`
--   Authorization/Policy   actors and permissions, authorization/actor.ts and policy.ts; proofs in
--                          `Permissions`
--   Billing/Money, Fees    shared/money.ts and billing/expert-fees.ts; proofs in `Split` and `Dues`
--   Sessions/Lifecycle     sessions/session-lifecycle.ts; proofs in `Clock`
--   Matching/Proficiency, Relaxation, Skills, Scoring, Filters, Hash, Rank, Shortlist
--                          matching/proficiency.ts, relaxation.ts, scoring.ts (its skill part
--                          apart, in `Skills`), filters.ts, rank.ts (its hash apart, in `Hash`)
--                          and shortlist.ts; `Candidate` has the records of
--                          ports/matching-repositories.ts that they compute on. Proofs: `Floors` on
--                          the ladder, `Competence` and `Permanent` on the filters, `Order`,
--                          `Admitted` and `Accounted` on the ranking, `Choice` on the shortlist
--   Dispatch/Attempts, Store, Pool
--                          the attempts of a request at its experts and the store's operations on
--                          them, matching/in-memory-matching-world.ts: offers in `Store`, interest
--                          and confirmations in `Pool`. Proofs: `Counting`, `Offers`,
--                          `Confirmations`, `Quiet`, and `Steps` on all series of calls
--   Service                the matching service, matching/matching-service.ts and
--                          interest-dispatch.ts, over the store that in-memory-matching-world.ts and
--                          support-requests/in-memory-request-world.ts keep:
--     World, Monad         the requests, runs, attempts and scheduled jobs, and a method as an action
--                          on them that may throw; what was written before a throw stays written
--     Requests, Runs       `transition`, `giveUp`, `returnToSearching`; runs and attempts as the store
--                          creates and finds them
--     Setup, Dispatch      the ranking's input, and `createRun`, `tryOfferFromRun`, `dispatchNextOffer`
--     Responses            accepting, declining and expiring offers, `expireMatching`
--     Interest, Confirmation, Admin
--                          the interest pool, selection and confirmation; manual dispatch, the entry
--                          points and the janitors
--     Calls                the public methods and `pay`, and any series of calls of them
--                          Proofs: `Refines` on the moves of requests (on `Follows`, `Moving` and
--                          `Safe`), `Ends` on the worlds that are kept and on the loops (on `Below`,
--                          `Valid`, `Fresh` and `Offering`), `Acceptance` (on `Inversion`),
--                          `Deadlines` and `Fallback` (on `Shortlisted`)
--   Checkout/Payments, Checkouts
--                          payments' rows, packages/adapters/src/persistence/prisma-payment-repository.ts,
--                          and payments/checkout-service.ts as methods of the same kind as Service's.
--                          Proofs: `Rows` and `Charges`
--   Prelude, Int           shared helpers: tests, lists, selection, lookup tables, a stable sort, and
--                          integers
-- Each part has a module `Tests` of runs at concrete inputs.
--
-- How the parts interact: the eligibility verdict of Experts is the first stage of the filters of
-- Matching; the filters and the scores make the ranking, and the ranking the shortlist; the states
-- of requests, attempts and sessions are those of Contracts; a ranking is stored as attempts, which
-- Dispatch offers and closes; the policy reads the expert's status. The service calls them all: it
-- asks the policy, the state machine and the ranking, and writes by the store's operations.
--
-- Names are the source's in snake case. Functions that throw give a result with a constructor per
-- error, or `none`. Instants are milliseconds since the epoch and durations natural numbers;
-- amounts of money, and counts that the source clamps at 0, are integers (`Int`). The number of the
-- scorer is a parameter (`Matching/Number`): any arithmetic whose `<` is asymmetric and negatively
-- transitive, as the machine's is on everything but NaN. Identifiers and slugs are natural numbers,
-- since the code only compares them; the text of an expert's id, which the tie-break hashes, is a
-- parameter. Sorting is insertion sort, which agrees with every stable sort on a consistent
-- comparator. Loops are recursions on the list they run over, but for two of the service's, which run
-- on fuel: `tryOfferFromRun` has as many turns as the run has ranked attempts, and one more, since
-- each turn that fails withdraws one; `dispatchNextOffer` has four, one for each relaxation level. A
-- loop that ran out would throw an error of its own, `out_of_fuel`. The query for candidates is a
-- parameter of the service, the payment gateway, which may throw, one of checkout, and the rows that
-- the janitors work on are arguments.
--
-- Not modelled: text for people (descriptions, messages, formatted amounts), notices, logs and audit
-- rows; the other services; the other repositories over the database, and the jobs; the web
-- application, the worker, the adapters of outside services, the database and the Salesforce
-- package. A transaction is not modelled either: a method that throws leaves what it had written, as
-- the in-memory store does.
pub mod Prelude
pub mod Checkout
pub mod Contracts
pub mod Requests
pub mod Experts
pub mod Authorization
pub mod Int
pub mod Billing
pub mod Sessions
pub mod Matching
pub mod Dispatch
pub mod Service
