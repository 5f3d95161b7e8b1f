-- ===== src/Voucher/Runs.antt =====
-- Requests for vouchers one after the other (packages/x402-client/src/voucher.ts, `VoucherAuthorizer`):
-- what all of them together charge.
use mathlib.Core.Path.{subst}
use atlas_rail.Common.{
  ℕ, ◌+◌, ◌≤◌, String, List, [], ◌∷◌, map, Member, Distinct, ok, err, ◌≡◌, refl, sym, ap, ◌∙◌,
  arith,
}
use atlas_rail.Mandate.Types.{}
use atlas_rail.Mandate.Documents.{Platform}
use atlas_rail.Voucher.Ledger.{}
use atlas_rail.Voucher.Signer.{Bytes}
use atlas_rail.Voucher.Request.{
  VoucherRequest, VoucherOptions, VoucherError, Authorizer, new_authorizer, VoucherAllow,
  request_on_channel,
}
use atlas_rail.Voucher.Charged.{IsCharged, IsAnswer, request-IsAnswer}

-- The runs of an authorizer that starts with a spend, with the vouchers signed in them, the latest
-- first. Each request comes at its own times.
pub data Run ⦃env : Platform⦄ (bytes : Bytes) (options : VoucherOptions) (window total : ℕ)
    : Authorizer → List VoucherAllow → Type 0 where
  start : Run bytes options window total (new_authorizer window total) []
  sign :
      (now later : ℕ) (i : VoucherRequest) (s t : Authorizer) (a : VoucherAllow)
      (signed : List VoucherAllow)
      → Run bytes options window total s signed
      → request_on_channel bytes options now later i s ≡ (ok a, t)
      → Run bytes options window total t (a ∷ signed)
  refuse :
      (now later : ℕ) (i : VoucherRequest) (s t : Authorizer) (e : VoucherError)
      (signed : List VoucherAllow)
      → Run bytes options window total s signed
      → request_on_channel bytes options now later i s ≡ (err e, t)
      → Run bytes options window total t signed

-- The amounts of vouchers, each above what was settled, together.
abbrev pub amounts : List VoucherAllow → ℕ
amounts [] = 0
amounts (a ∷ signed) = a.delta + amounts signed

abbrev pub hashes : List VoucherAllow → List String
hashes signed = map (λ a. a.message_hash) signed

charge_of :
    {options : VoucherOptions} {i : VoucherRequest} {s t : Authorizer} {a : VoucherAllow}
    → IsAnswer options i s (ok a, t)
    → IsCharged options i s a t
charge_of (IsAnswer.signed a t c) = c

same_budget :
    {options : VoucherOptions} {i : VoucherRequest} {s t : Authorizer} {e : VoucherError}
    → IsAnswer options i s (err e, t)
    → t.budget ≡ s.budget
same_budget (IsAnswer.thrown e t c) = c

-- What the ledger knows of the vouchers signed so far.
record IsTally (options : VoucherOptions) (total : ℕ) (s : Authorizer) (signed : List VoucherAllow)
    : Type 0 where
  spent : s.budget.spent_total ≡ total + amounts signed
  within : s.budget.spent_total ≤ options.mandate.scope.limits.max_total
  seen : s.budget.seen ≡ hashes signed
  once : Distinct (hashes signed)
  idle : s.budget.in_flight ≡ 0

module _ ⦃env : Platform⦄ (bytes : Bytes) (options : VoucherOptions) (window total : ℕ)
    (fits : total ≤ options.mandate.scope.limits.max_total) where
  run-IsTally :
      (s : Authorizer) (signed : List VoucherAllow)
      → Run bytes options window total s signed
      → IsTally options total s signed
  run-IsTally s signed Run.start = record {
    spent = omega arith;
    within = fits;
    seen = refl;
    once = tt;
    idle = refl;
  }
  run-IsTally t _ (Run.sign now later i s _ a signed run h) =
      let before = run-IsTally s signed run in
      let charge =
        charge_of (subst (IsAnswer options i s) h (request-IsAnswer bytes options now later i s)) in
      record {
        spent = omega (arith, charge.charged, before.spent);
        within = charge.within;
        seen = charge.remembered ∙ ap (λ x. a.message_hash ∷ x) before.seen;
        once = (λ m. charge.fresh (subst (Member a.message_hash) (sym before.seen) m), before.once);
        idle = charge.in_flight ∙ before.idle;
      }
  run-IsTally t _ (Run.refuse now later i s _ e signed run h) =
      let before = run-IsTally s signed run in
      let same =
        same_budget
          (subst (IsAnswer options i s) h (request-IsAnswer bytes options now later i s)) in
      record {
        spent = ap (λ x. x.spent_total) same ∙ before.spent;
        within =
            subst (λ x. x.spent_total ≤ options.mandate.scope.limits.max_total) (sym same)
              before.within;
        seen = ap (λ x. x.seen) same ∙ before.seen;
        once = before.once;
        idle = ap (λ x. x.in_flight) same ∙ before.idle;
      }

  -- In every run of requests, of which each is signed or fails, the amounts of all the signed vouchers
  -- and the initial spend are together within the lifetime limit of the mandate and are what the
  -- ledger has as spent, and no two signed vouchers have the same hash, if the initial spend is within
  -- the limit.
  pub run-amounts :
      (s : Authorizer) (signed : List VoucherAllow)
      → Run bytes options window total s signed
      → (total + amounts signed ≤ options.mandate.scope.limits.max_total)
        × (s.budget.spent_total ≡ total + amounts signed)
        × Distinct (hashes signed)
  run-amounts s signed run =
      let tally = run-IsTally s signed run in
      (omega (arith, tally.spent, tally.within), tally.spent, tally.once)
