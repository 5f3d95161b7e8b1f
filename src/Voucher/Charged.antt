-- ===== src/Voucher/Charged.antt =====
-- What a request for a voucher does to the budget (packages/x402-client/src/voucher.ts,
-- `requestOnChannel`).
use mathlib.Core.Path.{subst}
use atlas_rail.Common.{
  is_some, String, Option, none, false, ◌<◌, true, string_eq, ℕ, suc, ◌+◌, ◌-◌, ◌≤◌, some,
  Bool-cases, inl, inr, ◌∷◌, Member, ◌==◌, Result, ok, err, Result-cases, ◌>>=◌, >>=-eq-ok, ◌≡◌,
  refl, sym, ap, ◌∙◌, arith,
}
use atlas_rail.Mandate.Types.{shaped}
use atlas_rail.Mandate.Records.{GateVerdict, verdict_eq, GateResult}
use atlas_rail.Mandate.Documents.{Platform, SignedDecision}
use atlas_rail.Mandate.Gate.Evaluate.{evaluate_gate}
use atlas_rail.Mandate.Gate.Terms.{}
use atlas_rail.Mandate.Gate.Authority.{shaped-IsAllowed}
use atlas_rail.Mandate.Decision.Record.{}
use atlas_rail.Voucher.Ledger.{
  Ledger, known_watermark, Reservation, reserve_voucher, commit, remember,
}
use atlas_rail.Voucher.Charging.{reserve_iff, rollback-reserve, reserved-parts}
use atlas_rail.Voucher.Signer.{Bytes}
use atlas_rail.Voucher.Request.{
  VoucherRequest, VoucherOptions, VoucherError, Authorizer, VoucherAllow, voucher_offer, Quote,
  quote, voucher_context, voucher_decision, sign_allowed, reserve_input, give_back, charge_voucher,
  refuse_voucher, request_on_channel,
}

-- A signed voucher is charged, within the total, and cannot be presented again.
pub record IsCharged (options : VoucherOptions) (i : VoucherRequest) (s : Authorizer)
    (a : VoucherAllow) (t : Authorizer) : Type 0 where
  pub charged : t.budget.spent_total ≡ s.budget.spent_total + a.delta
  pub within : t.budget.spent_total ≤ options.mandate.scope.limits.max_total
  pub moved : known_watermark t.budget i.channel ≡ some i.cumulative
  pub rose :
      (m : ℕ)
      → known_watermark s.budget i.channel ≡ some m
      → (m < i.cumulative) × (i.cumulative ≡ m + a.delta)
  pub others :
      (channel : String)
      → (i.channel == channel) ≡ false
      → known_watermark t.budget channel ≡ known_watermark s.budget channel
  pub fresh : ¬ Member a.message_hash s.budget.seen
  pub remembered : t.budget.seen ≡ a.message_hash ∷ s.budget.seen
  pub in_flight : t.budget.in_flight ≡ s.budget.in_flight

-- The answers to a request: a signature that is charged, or an error that leaves the budget.
pub data IsAnswer (options : VoucherOptions) (i : VoucherRequest) (s : Authorizer)
    : Result VoucherError VoucherAllow × Authorizer → Type 0 where
  signed :
      (a : VoucherAllow) (t : Authorizer)
      → IsCharged options i s a t
      → IsAnswer options i s (ok a, t)
  thrown :
      (e : VoucherError) (t : Authorizer) → t.budget ≡ s.budget → IsAnswer options i s (err e, t)

-- A voucher above what is settled, which is what was last accepted where that is known.
above_watermark :
    (m settled cumulative delta : ℕ) (o : Option ℕ)
    → o ≡ some m
    → (is_some o ≡ true → o ≡ some settled)
    → settled < cumulative
    → delta ≡ cumulative - settled
    → (m < cumulative) × (cumulative ≡ m + delta)
above_watermark m settled cumulative delta none h last above e = absurd (ground arith)
above_watermark m settled cumulative delta (some n) h last above e = ground (arith, h, last refl)

module _ ⦃env : Platform⦄ (bytes : Bytes) (options : VoucherOptions) (now later : ℕ)
    (i : VoucherRequest) where
  signed-parts :
      (q : Quote) (d : SignedDecision) (a : VoucherAllow)
      → sign_allowed bytes options now later i q d ≡ ok a
      → (a.delta ≡ i.cumulative - q.settled) × (a.message_hash ≡ bytes.sha256_hex q.message)
  unfolding sign_allowed
  signed-parts q d a h = ground arith

  module _ (s : Authorizer) (q : Quote) (r : Reservation) (l : Ledger)
      (reserved : reserve_voucher s.budget (reserve_input bytes options now later i q s.budget)
        ≡ ok (r, l)) where
    give_back-IsAnswer :
        (e : VoucherError) → IsAnswer options i s (give_back bytes options now later i s l r e)
    give_back-IsAnswer e =
        let (_, _, _, back) =
          rollback-reserve s.budget l (reserve_input bytes options now later i q s.budget) r
            reserved in
        subst (IsAnswer options i s) (ground (arith, back))
          (IsAnswer.thrown e (record s { sequence = suc s.sequence }) refl)

    allowed-IsCharged :
        (result : GateResult)
        → evaluate_gate
            (shaped options.mandate)
            (shaped (voucher_offer i (i.cumulative - q.settled)))
            (voucher_context options now s.budget)
          ≡ ok result
        → result.decision ≡ GateVerdict.allow
        → (a : VoucherAllow) (t : Authorizer) → a.delta ≡ i.cumulative - q.settled
        → a.message_hash ≡ bytes.sha256_hex q.message
        → t.budget ≡ remember (commit l) a.message_hash
        → IsCharged options i s a t
    allowed-IsCharged result answered allow a t same_delta same_hash same_budget =
        let input = reserve_input bytes options now later i q s.budget in
        let (same_r, same_l, above) = reserved-parts s.budget l input r reserved in
        let (spent, known, frame, _) = rollback-reserve s.budget l input r reserved in
        let (unseen, at_last, _) = (reserve_iff s.budget input).0 (r, l, reserved) in
        let budget = same_budget ∙ ap (λ x. remember (commit x) a.message_hash) same_l in
        let allowed =
          shaped-IsAllowed options.mandate (voucher_offer i (i.cumulative - q.settled))
            (voucher_context options now s.budget) result answered (λ h. ground (arith, allow)) in
        record {
          charged =
              ap (λ x. x.spent_total) budget ∙ ap (λ x. s.budget.spent_total + x) (sym same_delta);
          within =
              subst (λ x. x ≤ options.mandate.scope.limits.max_total)
                (sym (ap (λ x. x.spent_total) budget)) allowed.permitted.lifetime;
          moved = ap (λ x. known_watermark x i.channel) (same_budget) ∙ known;
          rose = λ m k.
              above_watermark m q.settled i.cumulative a.delta (known_watermark s.budget i.channel)
                k at_last above same_delta;
          others = λ c n. ap (λ x. known_watermark x c) same_budget ∙ frame c n;
          fresh = λ m. unseen (subst (λ x. Member x s.budget.seen) same_hash m);
          remembered = ap (λ x. x.seen) budget;
          in_flight = omega (arith, ap (λ x. x.in_flight) budget);
        }

  module _ (s : Authorizer) (q : Quote) (result : GateResult)
      (answered : evaluate_gate
          (shaped options.mandate)
          (shaped (voucher_offer i (i.cumulative - q.settled)))
          (voucher_context options now s.budget)
        ≡ ok result) where
    charge-IsAnswer :
        result.decision ≡ GateVerdict.allow
        → IsAnswer options i s (charge_voucher bytes options now later i q result s)
    unfolding charge_voucher
    charge-IsAnswer allow =
        elim (Result-cases
          (reserve_voucher s.budget (reserve_input bytes options now later i q s.budget))) [
            | inr (e, h) ↦
                subst (IsAnswer options i s) (ground (arith, h))
                  (IsAnswer.thrown (VoucherError.ledger e) s refl)
            | inl ((r, l), h) ↦
                elim (Result-cases (
                  voucher_decision bytes options now later i s.sequence q s.budget result
                  >>= sign_allowed bytes options now later i q)) [
                    | inr (e, g) ↦
                        subst (IsAnswer options i s) (ground (arith, h, g))
                          (give_back-IsAnswer s q r l h e)
                    | inl (a, g) ↦
                        let (d, _, made) =
                          >>=-eq-ok
                            (voucher_decision bytes options now later i s.sequence q s.budget
                              result)
                            (sign_allowed bytes options now later i q) g in
                        let (same_delta, same_hash) = signed-parts q d a made in
                        let t = record s {
                          budget = remember (commit l) a.message_hash;
                          sequence = suc s.sequence;
                        } in
                        subst (IsAnswer options i s) (ground (arith, h, g)) (
                          IsAnswer.signed a t (
                            allowed-IsCharged s q r l h result answered allow a t same_delta
                              same_hash refl))
                  ]
          ]

    refuse-IsAnswer : IsAnswer options i s (refuse_voucher bytes options now later i q result s)
    unfolding refuse_voucher
    refuse-IsAnswer =
        elim (Result-cases
          (voucher_decision bytes options now later i s.sequence q s.budget result)) [
            | inr (e, h) ↦
                subst (IsAnswer options i s) (ground (arith, h))
                  (IsAnswer.thrown e (record s { sequence = suc s.sequence }) refl)
            | inl (d, h) ↦ elim (Bool-cases (result.decision == GateVerdict.escalate)) [
              | inl g ↦ subst (IsAnswer options i s) (ground (arith, h, g)) (
                  IsAnswer.thrown (VoucherError.escalation_required d)
                    (record s { sequence = suc s.sequence }) refl)
              | inr g ↦ subst (IsAnswer options i s) (ground (arith, h, g)) (
                  IsAnswer.thrown (VoucherError.mandate_denied d)
                    (record s { sequence = suc s.sequence; denials = d ∷ s.denials }) refl)
            ]
          ]

  -- A request for a voucher either throws and leaves the budget exactly as it was, whatever failed on
  -- the way, or it returns a voucher that was not presented before; then the total spent has grown by
  -- the voucher's amount and is within the lifetime limit of the mandate, the watermark of the channel
  -- is the voucher's cumulative amount, which is the last watermark, where there was one, and the
  -- voucher's amount, no other channel has a new watermark, and the voucher is remembered.
  pub request-IsAnswer :
      (s : Authorizer) → IsAnswer options i s (request_on_channel bytes options now later i s)
  unfolding request_on_channel
  request-IsAnswer s = elim (Result-cases (quote bytes options now i s.budget)) [
    | inr (e, h) ↦ subst (IsAnswer options i s) (ground (arith, h)) (IsAnswer.thrown e s refl)
    | inl (q, h) ↦
        elim (Result-cases (
          evaluate_gate (shaped options.mandate)
            (shaped (voucher_offer i (i.cumulative - q.settled)))
            (voucher_context options now s.budget))) [
              | inr (e, g) ↦
                  subst (IsAnswer options i s) (ground (arith, h, g))
                    (IsAnswer.thrown (VoucherError.gate_threw e) s refl)
              | inl (result, g) ↦ elim (Bool-cases (result.decision == GateVerdict.allow)) [
                | inl a ↦ subst (IsAnswer options i s) (ground (arith, h, g, a)) (
                    charge-IsAnswer s q result g
                      (ground (arith, a, verdict_eq.beq_iff result.decision GateVerdict.allow)))
                | inr a ↦
                    subst (IsAnswer options i s) (ground (arith, h, g, a))
                      (refuse-IsAnswer s q result g)
              ]
            ]
  ]
