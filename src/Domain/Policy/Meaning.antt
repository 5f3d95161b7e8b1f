-- ===== src/Domain/Policy/Meaning.antt =====
-- What a decision of `evaluatePolicy` (packages/domain/src/policy-engine.ts) says of the payout, stated
-- without the code.
use atlas_rail.Common.{
  ℕ, ◌+◌, ◌≤◌, ◌<◌, ◌≡◌, ◌≢◌, ◌↔◌, ◌⊎◌, refl, String, Bool, true, false, not, ◌||◌, Option, none,
  some, List, [], ◌∷◌, ◌++◌, length, filterb, any, All, Member, contains, contains_iff, ltb,
  string_eq, arith,
}
use atlas_rail.Domain.Policy.Types.{
  TreasuryStatus, RecipientStatus, PayoutEvaluationInput, Simulation, PolicyRules, PolicyDecision,
  PolicyEvaluationOutput, Reason, Severity, severity,
}
use atlas_rail.Domain.Policy.Evaluate.{
  is_active, is_verified, is_blocked_status, is_high_risk, memo_missing, simulation_fails,
  unknown_programs, Findings, block_if, checks, run_checks, findings, nothing_found, decide,
  with_approval, evaluate_policy,
}

-- The simulation, where there is one, satisfies the rules on transactions.
abbrev pub SimulationPasses : PolicyRules → Option Simulation → Type 0
SimulationPasses rules none = Unit {0}
SimulationPasses rules (some s) =
    ((rules.transaction.require_successful_simulation ≡ false) ⊎ (s.success ≡ true))
    × ((rules.transaction.block_unknown_program_ids ≡ false)
        ⊎ All (λ id. Member id rules.transaction.allow_program_ids) s.program_ids)

-- What a payout must satisfy in order not to be blocked.
pub record IsAcceptable (i : PayoutEvaluationInput) : Type 0 where
  pub treasury : i.treasury_status ≡ TreasuryStatus.active
  pub network : i.treasury_network ≡ "DEVNET"
  pub mint : Member i.payout.mint_address i.rules.allowed_mint_addresses
  pub verified :
      (i.rules.recipients.require_verified_recipient ≡ false)
      ⊎ (i.recipient.status ≡ RecipientStatus.verified)
  pub status : i.recipient.status ≢ RecipientStatus.blocked
  pub unblocked : ¬ Member i.recipient.id i.rules.recipients.blocked_recipient_ids
  pub listed :
      (i.rules.recipients.allowed_recipient_ids ≡ [])
      ⊎ Member i.recipient.id i.rules.recipients.allowed_recipient_ids
  pub positive : 0 < i.payout.amount
  pub single : i.payout.amount ≤ i.rules.limits.max_single_payout
  pub daily : i.daily_total + i.payout.amount ≤ i.rules.limits.daily_limit
  pub monthly : i.monthly_total + i.payout.amount ≤ i.rules.limits.monthly_limit
  pub risk :
      (i.rules.risk.block_high_risk_recipients ≡ false)
      ⊎ (is_high_risk i.recipient.risk_level ≡ false)
  pub simulated : SimulationPasses i.rules i.simulation
  pub memo :
      (i.rules.transaction.block_memo_required ≡ false) ⊎ (memo_missing i.payout.memo ≡ false)

abbrev Passed : List (Bool × Reason) → Type 0
Passed cs = All (λ c. c.0 ≡ false) cs

run_checks-unblocked :
    (cs : List (Bool × Reason)) (f : Findings)
    → ((run_checks cs f).is_blocked ≡ false) ↔ ((f.is_blocked ≡ false) × Passed cs)
unfolding run_checks
run_checks-unblocked [] f = ground arith
run_checks-unblocked ((true, r) ∷ cs) f =
    ground (arith, run_checks-unblocked cs (block_if true r f))
run_checks-unblocked ((false, r) ∷ cs) f = ground (arith, run_checks-unblocked cs f)

unknown_iff :
    (allowed ids : List String)
    → (ltb 0 (length (filterb (λ id. not (contains id allowed)) ids)) ≡ false)
      ↔ All (λ id. Member id allowed) ids
unknown_iff allowed [] = (λ h. tt, λ h. refl)
unknown_iff allowed (id ∷ ids) = ground (arith, contains_iff id allowed, unknown_iff allowed ids)

simulation_iff :
    (rules : PolicyRules) (s : Option Simulation)
    → ((simulation_fails rules s ≡ false) × (ltb 0 (length (unknown_programs rules s)) ≡ false))
      ↔ SimulationPasses rules s
simulation_iff rules none = (λ h. tt, λ h. (refl, refl))
simulation_iff rules (some s) =
    ground (arith, unknown_iff rules.transaction.allow_program_ids s.program_ids)

active_iff : (s : TreasuryStatus) → (not (is_active s) ≡ false) ↔ (s ≡ TreasuryStatus.active)
active_iff s = ground arith

verified_iff : (s : RecipientStatus) → (is_verified s ≡ true) ↔ (s ≡ RecipientStatus.verified)
verified_iff s = ground arith

blocked_iff : (s : RecipientStatus) → (is_blocked_status s ≡ true) ↔ (s ≡ RecipientStatus.blocked)
blocked_iff s = ground arith

nonempty_iff : (xs : List String) → (ltb 0 (length xs) ≡ false) ↔ (xs ≡ [])
nonempty_iff xs = ground arith

module _ (i : PayoutEvaluationInput) where
  Passed-IsAcceptable : Passed (checks i) → IsAcceptable i
  unfolding checks
  Passed-IsAcceptable p = record {
    treasury = ground arith;
    network = ground (arith, string_eq.beq_iff i.treasury_network "DEVNET");
    mint = ground (arith, contains_iff i.payout.mint_address i.rules.allowed_mint_addresses);
    verified = ground (arith, verified_iff i.recipient.status);
    status = ground (arith, blocked_iff i.recipient.status);
    unblocked =
        ground (arith, contains_iff i.recipient.id i.rules.recipients.blocked_recipient_ids);
    listed = ground (
      arith,
      nonempty_iff i.rules.recipients.allowed_recipient_ids,
      contains_iff i.recipient.id i.rules.recipients.allowed_recipient_ids,
    );
    positive = ground arith;
    single = ground arith;
    daily = ground arith;
    monthly = ground arith;
    risk = ground arith;
    simulated = ground (arith, simulation_iff i.rules i.simulation);
    memo = ground arith;
  }

  IsAcceptable-Passed : IsAcceptable i → Passed (checks i)
  unfolding checks
  IsAcceptable-Passed a = (
    ground (arith, a.treasury),
    (
      ground (arith, a.network, string_eq.beq_iff i.treasury_network "DEVNET"),
      (
        ground (arith, a.mint, contains_iff i.payout.mint_address i.rules.allowed_mint_addresses),
        (
          ground (arith, a.verified, verified_iff i.recipient.status),
          (
            ground (
              arith,
              a.status,
              a.unblocked,
              blocked_iff i.recipient.status,
              contains_iff i.recipient.id i.rules.recipients.blocked_recipient_ids,
            ),
            (
              ground (
                arith,
                a.listed,
                nonempty_iff i.rules.recipients.allowed_recipient_ids,
                contains_iff i.recipient.id i.rules.recipients.allowed_recipient_ids,
              ),
              (
                ground (arith, a.positive),
                (
                  ground (arith, a.single),
                  (
                    ground (arith, a.daily),
                    (
                      ground (arith, a.monthly),
                      (
                        ground (arith, a.risk),
                        (
                          ground (arith, a.simulated, simulation_iff i.rules i.simulation),
                          (
                            ground (arith, a.simulated, simulation_iff i.rules i.simulation),
                            (ground (arith, a.memo), tt),
                          ),
                        ),
                      ),
                    ),
                  ),
                ),
              ),
            ),
          ),
        ),
      ),
    ),
  )

  unblocked_iff : ((findings i).is_blocked ≡ false) ↔ IsAcceptable i
  unfolding findings
  unblocked_iff = ground (
    arith,
    run_checks-unblocked (checks i) nothing_found,
    Passed-IsAcceptable,
    IsAcceptable-Passed,
  )

abbrev pub is_blocking : Reason → Bool
is_blocking r = elim (severity r) [ Severity.blocking ↦ true | _ ↦ false ]

-- Every reason that a check can push blocks.
abbrev Blocking : List (Bool × Reason) → Type 0
Blocking cs = All (λ c. is_blocking c.1 ≡ true) cs

any_last :
    (p : Reason → Bool) (rs : List Reason) (r : Reason) → any p (rs ++ r ∷ []) ≡ (any p rs || p r)
any_last p [] r = ground arith
any_last p (s ∷ rs) r = ground (arith, any_last p rs r)

run_checks-reasons :
    (cs : List (Bool × Reason)) (f : Findings)
    → Blocking cs
    → any is_blocking f.reasons ≡ f.is_blocked
    → any is_blocking (run_checks cs f).reasons ≡ (run_checks cs f).is_blocked
unfolding run_checks
run_checks-reasons [] f b h = h
run_checks-reasons ((true, r) ∷ cs) f b h =
    run_checks-reasons cs (block_if true r f) b.1
      (ground (arith, b.0, any_last is_blocking f.reasons r))
run_checks-reasons ((false, r) ∷ cs) f b h = run_checks-reasons cs f b.1 h

checks-Blocking : (i : PayoutEvaluationInput) → Blocking (checks i)
unfolding checks severity
checks-Blocking i = (
  refl,
  (
    refl,
    (
      refl,
      (refl, (refl, (refl, (refl, (refl, (refl, (refl, (refl, (refl, (refl, (refl, tt))))))))))),
    ),
  ),
)

findings-reasons :
    (i : PayoutEvaluationInput) → any is_blocking (findings i).reasons ≡ (findings i).is_blocked
unfolding findings
findings-reasons i = run_checks-reasons (checks i) nothing_found (checks-Blocking i) refl

not_empty : (rs : List Reason) (r : Reason) → (rs ++ r ∷ []) ≢ []
not_empty [] r h = cc
not_empty (s ∷ rs) r h = cc

findings-silent :
    (cs : List (Bool × Reason)) (f : Findings)
    → (f.is_blocked ≡ false → f.reasons ≡ [])
    → (run_checks cs f).is_blocked ≡ false
    → (run_checks cs f).reasons ≡ []
unfolding run_checks
findings-silent [] f h e = h e
findings-silent ((true, r) ∷ cs) f h e =
    findings-silent cs (block_if true r f) (λ b. ground arith) e
findings-silent ((false, r) ∷ cs) f h e = findings-silent cs f h e

module _ (hash_payload : ℕ → PolicyDecision → List Reason → ℕ → String)
    (i : PayoutEvaluationInput) where
  abbrev output : PolicyEvaluationOutput
  output = evaluate_policy hash_payload i

  abbrev required : ℕ
  required = i.rules.approval.required_approvals

  -- A payout is blocked exactly when it is not acceptable; an acceptable one requires approval where
  -- the policy asks for approvals, and is else allowed.
  pub decision_iff :
      ((output.decision ≡ PolicyDecision.block) ↔ (¬ IsAcceptable i))
      × ((output.decision ≡ PolicyDecision.require_approval) ↔ (IsAcceptable i × (0 < required)))
      × ((output.decision ≡ PolicyDecision.allow) ↔ (IsAcceptable i × (required ≡ 0)))
  unfolding evaluate_policy decide
  decision_iff = ground (arith, unblocked_iff i)

  -- The output of a policy agrees with itself: one of the reasons blocks exactly when the payout is
  -- blocked, there is no reason exactly when it is allowed, and approvals are asked for exactly when
  -- the decision is to require them.
  pub reasons-decision :
      ((any is_blocking output.reasons ≡ true) ↔ (output.decision ≡ PolicyDecision.block))
      × ((output.reasons ≡ []) ↔ (output.decision ≡ PolicyDecision.allow))
      × ((0 < output.required_approvals) ↔ (output.decision ≡ PolicyDecision.require_approval))
  unfolding evaluate_policy decide with_approval severity findings
  reasons-decision = ground (
    arith,
    findings-reasons i,
    findings-silent (checks i) nothing_found (λ e. refl),
    not_empty (findings i).reasons (Reason.approval_required required),
    any_last is_blocking (findings i).reasons (Reason.approval_required required),
  )
