-- ===== src/Lib.antt =====
-- Verification library of Atlas Rail, payments by software agents under signed mandates.
--
-- The program. An organization signs a mandate for an agent (packages/mandate/src/mandate.ts): limits,
-- allowed recipients and resources, and a delegation chain of an owner, approvers and the agent. For
-- each payment that the agent is asked for, the policy gate (gate.ts) answers ALLOW, DENY or ESCALATE
-- from the mandate, the offer and a context that holds the clock, the spend so far, the simulation
-- and a human's approval. The decision is recorded and signed, and a wallet signs a payment only on
-- an authorization that refers to such a decision (decision.ts). The gate service (service/gate-service.ts)
-- runs the gate over stores of mandates, decisions, approvals and spend (service/memory.ts), and the
-- lifecycle service (service/lifecycle.ts) changes mandates and approvals beside it. Under the same
-- mandates an agent has vouchers of payment channels signed (packages/x402-client/src/voucher.ts). Beside
-- it the organization has payouts (packages/domain/src) with a lifecycle, a policy and roles. Receipts
-- of payments are anchored by Merkle roots (packages/receipt/src/merkle.ts).
--
-- The files.
-- Common: shared helpers. Common/Tests has Boolean tests and `==` as an instance, Common/Lists lists
--   measured by native numbers, Common/Results the results of code that may throw, Common/Decimal the
--   decimal text of a number.
-- Mandate/Types, Mandate/Schema: packages/mandate/src/schema.ts and offer.ts. The types are the parsed
--   shapes, `mandate_body_issues`, `agent_mandate_issues` and `offer_issues` the tests of
--   `mandateBodySchema`, `agentMandateSchema` and `x402OfferSchema`, and `parse_with` is `safeParse`.
-- Mandate/Records, Mandate/Documents: the interfaces of gate.ts, decision.ts, owner-approval.ts and
--   mandate.ts, and `Platform`, the functions that the code takes from its platform.
-- Mandate/Resource: resource.ts. Mandate/Crypto: the signing part of crypto.ts.
-- Mandate/OwnerApproval: owner-approval.ts.
-- Mandate/Chain: mandate.ts. Roles has `signMandate` and `linkHash`, Verify has `verifyMandateChain`
--   and `verifyMandate`, Shape what they accept, Signing the chains that `signMandate` builds.
-- Mandate/Gate: gate.ts. Rules has a function for each rule, Evaluate composes them to
--   `evaluate_gate`. Terms states what a payment must satisfy without the code; Limits, Fresh,
--   Meaning and Verdict relate it to the rules; Authority and Approvals draw the conclusions;
--   Samples and Examples run the gate.
-- Mandate/Decision: decision.ts. Record builds and signs, Verify verifies, Replay and Authority say
--   what a verified decision and an accepted authorization mean, Examples runs them.
-- Mandate/Service: packages/mandate/src/service. Ports has the records, World the state and the monad of
--   steps, Store a module for each in-memory store. Assess, Branches and Evaluate are `evaluate` and
--   `evaluateFresh`, Resolve is `resolveSpend`, Audit, Draft, Lifecycle and ApprovalDecision are
--   lifecycle.ts. Same, Assessed, Effects, Carried, Refused and Answered say what an evaluation does
--   to the stores, Budget, Limits, Extends, Steady, Spending and Settling what each operation does to
--   the limits. System has the steps and runs, with requests that wait for the lock; Invariant,
--   Idempotence, Revocation, Issue, Sound and Soundness draw the conclusions, and Examples runs the
--   services.
-- Domain/PayoutStatus, Domain/Lifecycle: packages/domain/src/payout-state-machine.ts.
-- Domain/Policy: policy-types.ts and policy-engine.ts, `evaluatePolicy` as `evaluate_policy`.
-- Domain/Rbac, Domain/Duties: rbac.ts.
-- Receipt/Merkle, Receipt/Inclusion: packages/receipt/src/merkle.ts, `merkleRoot`, `merkleProof` and
--   `verifyMerkleProof`.
-- Voucher: packages/x402-client/src. Ledger is `VoucherBudgetLedger` and `encodeVoucherMessage`, Request is
--   `requestVoucher`, from its checks to the signature, and Signer `signVoucherWithAuthorization`
--   (gated-signer.ts). Creation is its `signMandateCreation`, Wallet its `signWithAuthorization`
--   and what that and vouchers need, Created what a co-signed creation is. Charging and Encoding state what reservations and messages do, Charged what one
--   request does to the budget, and Runs what requests do one after the other; Examples runs them.
--
-- Representation. An amount in base units is the natural number that its decimal string denotes, so
-- amounts are not negative; `compareBaseUnits` and `addBaseUnits` are the order and the sum of numbers.
-- Times are seconds as natural numbers. A message for people is a constructor with the values that
-- the text is made of. A function that throws returns a result or an option. What zod finds wrong with
-- the shape of an untyped document is the parameter of `misshapen`; its tests on values are modelled,
-- in the order in which it reports them. `tolerancePct` occurs as `Math.trunc(tolerancePct * 100)`, the
-- whole hundredths that the code computes with: documents that differ below a hundredth are one, and the
-- test that the percentage is at most 1000 is that of its whole hundredths.
--
-- Parameters. The URL parser, SHA-256 over the canonical JSON of a document, the canonical JSON of rule
-- results, Ed25519 verification and the text of a date are fields of `Platform`; the hash of a policy
-- evaluation is an argument; SHA-256 and hex of the Merkle trees are the fields of `Hashing`. What is
-- assumed of them is named where it is: that a signer's own signatures verify (`Honest`), and that a
-- digest has 32 bytes and survives its text in hex (`IsSound` of Receipt/Merkle). What the gate service
-- is built with, the simulator, the reading of the chain, the subscriber to events and the generators
-- of ids and nonces, are fields of `Deps`; that the chain never reports a payment as landed whose hold
-- was released is `IsFinal`. `Bytes` has SHA-256 of bytes and base58, the wallet inside a gated signer is
-- `sign_message`, `settled_watermark` reads the chain for a voucher at the time of the request and may
-- throw, and `TransactionWallet` has what the signer takes from the Solana library. The examples give
-- concrete functions.
--
-- State. The statuses of a payout change here only as `canTransitionPayoutStatus` accepts; the worker
-- also writes statuses without asking it, which is not modelled. A step of the services takes the
-- stores to a result and the stores after it; what was written before a throw stays written.
-- `runExclusive` makes the part of an evaluation that runs with the lock one step of a system; the
-- part before it is another, and other steps may come between. A request for a voucher is one step of
-- an authorizer: `runChannel` orders the requests of a channel, and requests on different channels
-- are taken one after the other as well, though they may overlap in the program.
--
-- Termination. Every function is structurally recursive. Fuel occurs where the code loops on numbers:
-- `decimal_rounds` has one round more than the number, which each round divides by ten; `split_rounds`
-- has as many as there are leaves, and each doubles a positive number; `mth` and `build_path` have as
-- many calls as there are leaves, and each call below has at least one leaf fewer.
--
-- Not modelled: the serialiser of canonical JSON (jcs.ts), random ids and nonces, the offers made from
-- payment requirements, the receipts, also those of vouchers, the other x402 client code, the
-- API server and its database, the Solana transactions, and the user interfaces. Of the stores, the
-- list of approvals in the order of their requests serves display only.
pub mod Common
pub mod Mandate
pub mod Domain
pub mod Receipt
pub mod Voucher
