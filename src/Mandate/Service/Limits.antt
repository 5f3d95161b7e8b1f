-- ===== src/Mandate/Service/Limits.antt =====
-- The spend of every mandate stays within its limits (packages/mandate/src/service): what each change
-- of the stores does to it.
use mathlib.Core.Path.{subst}
use atlas_rail.Common.{
  ℕ, ◌+◌, ◌≤◌, String, Bool, true, Option, none, some, List, [], ◌∷◌, ◌++◌, find, string_eq,
  Bool-cases, inl, inr, ◌≡◌, refl, sym, ◌∙◌, ap, arith,
}
use atlas_rail.Mandate.Types.{}
use atlas_rail.Mandate.Records.{GateVerdict, DecisionKind}
use atlas_rail.Mandate.Documents.{Platform}
use atlas_rail.Mandate.Gate.Evaluate.{}
use atlas_rail.Mandate.Gate.Terms.{}
use atlas_rail.Mandate.Gate.Authority.{IsAllowed, shaped-IsAllowed, IsAllowed-kind}
use atlas_rail.Mandate.Service.Ports.{MandateRecord, SpendEntry}
use atlas_rail.Mandate.Service.World.{World, Deps}
use atlas_rail.Mandate.Service.Store.Table.{change_first}
use atlas_rail.Mandate.Service.Store.Mandates.{keyed}
use atlas_rail.Mandate.Service.Store.Spend.{counts}
use atlas_rail.Mandate.Service.Assess.{Admitted, Assessment}
use atlas_rail.Mandate.Service.Branches.{spend_entry, is_autonomous}
use atlas_rail.Mandate.Service.Assessed.{Assessed}
use atlas_rail.Mandate.Service.Budget.{
  sum_of, sum_of-append, sum_of-change_first, totals_lem, spent_on, autonomous_on, spent_on-counts,
  autonomous_on-window, counts_in_window,
}

-- The limits of a mandate that may be missing: without one nothing may be spent.
abbrev pub total_limit : Option MandateRecord → ℕ
total_limit none = 0
total_limit (some r) = r.mandate.scope.limits.max_total

abbrev pub window_limit : Option MandateRecord → ℕ
window_limit none = 0
window_limit (some r) = r.mandate.scope.limits.max_per_window

abbrev pub window_of : Option MandateRecord → ℕ
window_of none = 0
window_of (some r) = r.mandate.scope.limits.window_seconds

-- Under every mandate of an organization no more is spent than its total, and in no window of its
-- length more than its window limit without a human.
pub record Within (mandates : List MandateRecord) (spend : List SpendEntry) : Type 0 where
  pub total :
      (organization_id mandate_id : String)
      → sum_of (spent_on organization_id mandate_id) spend
        ≤ total_limit (find (keyed organization_id mandate_id) mandates)
  pub window :
      (organization_id mandate_id : String) (since : ℕ)
      → let r = find (keyed organization_id mandate_id) mandates in
        sum_of (autonomous_on organization_id mandate_id since (since + window_of r)) spend
        ≤ window_limit r

-- The mandate of a waiting request is the stored one, but for its signatures and its revocation.
pub record IsStored (mandates : List MandateRecord) (a : Admitted) : Type 0 where
  pub stored : MandateRecord
  pub found : find (keyed a.organization_id a.stored.mandate.id) mandates ≡ some stored
  pub same_body : stored.mandate.body ≡ a.stored.mandate.body
  pub same_id : a.request.mandate_id ≡ a.stored.mandate.id

autonomous-kind :
    (k : Option DecisionKind) → is_autonomous k ≡ true → k ≡ some DecisionKind.autonomous
autonomous-kind none h = absurd (ground arith)
autonomous-kind (some DecisionKind.autonomous) h = refl
autonomous-kind (some DecisionKind.approved) h = absurd (ground arith)

module _ ⦃env : Platform⦄ (deps : Deps) (a : Admitted) (s : Assessment) (w : World)
    (assessed : Assessed deps a w s) (allow : s.result.decision ≡ GateVerdict.allow) where
  allowed : IsAllowed a.stored.mandate a.request.offer s.context
  allowed =
      shaped-IsAllowed a.stored.mandate a.request.offer s.context s.result assessed.answered
        (λ h. ground (arith, allow))

  -- An allowed payment fits into the rest of the total.
  fits_total :
      sum_of (counts a.stored.mandate.id) w.spend + a.request.offer.amount
      ≤ a.stored.mandate.scope.limits.max_total
  fits_total =
      let limits = a.stored.mandate.scope.limits in
      let (t, _) = totals_lem a.stored.mandate.id a.now limits.window_seconds w in
      omega (arith, allowed.permitted.lifetime, ap (λ x. x.total) assessed.given.spend, t)

  -- An autonomous one fits into the rest of the window.
  fits_window :
      s.result.kind ≡ some DecisionKind.autonomous
      → sum_of
            (counts_in_window a.stored.mandate.id a.now
              a.stored.mandate.scope.limits.window_seconds)
            w.spend
          + a.request.offer.amount
        ≤ a.stored.mandate.scope.limits.max_per_window
  fits_window k =
      let limits = a.stored.mandate.scope.limits in
      let (_, t) = totals_lem a.stored.mandate.id a.now limits.window_seconds w in
      let autonomous =
        (IsAllowed-kind a.stored.mandate a.request.offer s.context s.result assessed.answered
            allowed).0.0
          k in
      omega (arith, autonomous.window, ap (λ x. x.window_autonomous) assessed.given.spend, t)

  module _ (id entry_id : String) (stored : IsStored w.mandates a)
      (within : Within w.mandates w.spend) where
    limit-stored :
        total_limit (find (keyed a.organization_id a.stored.mandate.id) w.mandates)
        ≡ a.stored.mandate.scope.limits.max_total
    limit-stored = ap total_limit stored.found ∙ ap (λ b. b.scope.limits.max_total) stored.same_body

    own-total :
        sum_of
          (spent_on a.organization_id a.stored.mandate.id)
          (w.spend ++ spend_entry a s.result id entry_id ∷ [])
        ≤ total_limit (find (keyed a.organization_id a.stored.mandate.id) w.mandates)
    own-total =
        let e = spend_entry a s.result id entry_id in
        ground (
          arith,
          sum_of-append (spent_on a.organization_id a.stored.mandate.id) w.spend e,
          spent_on-counts a.organization_id a.stored.mandate.id w.spend,
          fits_total,
          limit-stored,
        )

    spend-total :
        (organization_id mandate_id : String)
        → sum_of
            (spent_on organization_id mandate_id)
            (w.spend ++ spend_entry a s.result id entry_id ∷ [])
          ≤ total_limit (find (keyed organization_id mandate_id) w.mandates)
    spend-total o m =
        let e = spend_entry a s.result id entry_id in
        elim (Bool-cases (spent_on o m e)) [
          | inr h ↦ ground (arith, sum_of-append (spent_on o m) w.spend e, within.total o m)
          | inl h ↦
              let same_o = (string_eq.beq_iff a.organization_id o).0 (ground arith) in
              let same_m = (string_eq.beq_iff a.stored.mandate.id m).0 (ground arith) in
              subst
                (λ x.
                  sum_of (spent_on x m) (w.spend ++ e ∷ [])
                  ≤ total_limit (find (keyed x m) w.mandates))
                same_o
                (subst
                  (λ x.
                    sum_of (spent_on a.organization_id x) (w.spend ++ e ∷ [])
                    ≤ total_limit (find (keyed a.organization_id x) w.mandates))
                  same_m own-total)
        ]

    window-stored :
        let r = find (keyed a.organization_id a.stored.mandate.id) w.mandates in
        let limits = a.stored.mandate.scope.limits in
        (window_limit r ≡ limits.max_per_window) × (window_of r ≡ limits.window_seconds)
    window-stored = (
      ap window_limit stored.found ∙ ap (λ b. b.scope.limits.max_per_window) stored.same_body,
      ap window_of stored.found ∙ ap (λ b. b.scope.limits.window_seconds) stored.same_body,
    )

    own-window :
        (since : ℕ)
        → let limits = a.stored.mandate.scope.limits in
          let e = spend_entry a s.result id entry_id in
          autonomous_on a.organization_id a.stored.mandate.id since
              (since + limits.window_seconds)
              e
            ≡ true
          → sum_of
              (autonomous_on a.organization_id a.stored.mandate.id since
                (since + limits.window_seconds))
              (w.spend ++ e ∷ [])
            ≤ limits.max_per_window
    own-window since h =
        let e = spend_entry a s.result id entry_id in
        let limits = a.stored.mandate.scope.limits in
        ground (
          arith,
          sum_of-append
              (autonomous_on a.organization_id a.stored.mandate.id since
                (since + limits.window_seconds))
              w.spend e,
          autonomous_on-window a.organization_id a.stored.mandate.id since a.now
              limits.window_seconds w.spend (ground arith),
          fits_window (autonomous-kind s.result.kind (ground arith)),
        )

    -- What the entry must keep of a window that it falls in.
    abbrev FitsIn : String → String → ℕ → ℕ → ℕ → Type 0
    FitsIn o m since length limit =
        let e = spend_entry a s.result id entry_id in
        autonomous_on o m since (since + length) e ≡ true
        → sum_of (autonomous_on o m since (since + length)) (w.spend ++ e ∷ []) ≤ limit

    abbrev FitsUnder : ℕ → String → String → Type 0
    FitsUnder since o m =
        let r = find (keyed o m) w.mandates in FitsIn o m since (window_of r) (window_limit r)

    own-FitsUnder : (since : ℕ) → FitsUnder since a.organization_id a.stored.mandate.id
    own-FitsUnder since =
        let r = find (keyed a.organization_id a.stored.mandate.id) w.mandates in
        let fits = FitsIn a.organization_id a.stored.mandate.id since in
        let (same_limit, same_window) = window-stored in
        subst (λ x. fits x (window_limit r)) (sym same_window)
          (subst (fits a.stored.mandate.scope.limits.window_seconds) (sym same_limit)
            (own-window since))

    spend-window :
        (organization_id mandate_id : String) (since : ℕ)
        → let r = find (keyed organization_id mandate_id) w.mandates in
          sum_of
            (autonomous_on organization_id mandate_id since (since + window_of r))
            (w.spend ++ spend_entry a s.result id entry_id ∷ [])
          ≤ window_limit r
    spend-window o m since =
        let e = spend_entry a s.result id entry_id in
        let r = find (keyed o m) w.mandates in
        let p = autonomous_on o m since (since + window_of r) in
        elim (Bool-cases (p e)) [
          | inr h ↦ ground (arith, sum_of-append p w.spend e, within.window o m since)
          | inl h ↦
              let same_o = (string_eq.beq_iff a.organization_id o).0 (ground arith) in
              let same_m = (string_eq.beq_iff a.stored.mandate.id m).0 (ground arith) in
              subst (λ x. FitsUnder since x m) same_o
                (subst (FitsUnder since a.organization_id) same_m (own-FitsUnder since)) h
        ]

    -- A payment that the gate allows keeps the limits.
    pub allowed-Within : Within w.mandates (w.spend ++ spend_entry a s.result id entry_id ∷ [])
    allowed-Within = record { total = spend-total; window = spend-window }

module _ (mandates : List MandateRecord) (same : SpendEntry → Bool)
    (change : SpendEntry → SpendEntry) (spend : List SpendEntry) where
  -- A change of one entry that brings nothing to count keeps the limits.
  pub change-Within :
      ((e : SpendEntry) → (change e).amount ≡ e.amount)
      → ((o m : String) (e : SpendEntry) → spent_on o m (change e) ≡ true → spent_on o m e ≡ true)
      → ((o m : String) (since until : ℕ) (e : SpendEntry)
          → autonomous_on o m since until (change e) ≡ true
          → autonomous_on o m since until e ≡ true)
      → Within mandates spend
      → Within mandates (change_first same change spend)
  change-Within k h g within = record {
    total = λ o m.
        ground
          (arith, within.total o m, sum_of-change_first (spent_on o m) same change spend k (h o m));
    window = λ o m since.
        let until = since + window_of (find (keyed o m) mandates) in
        ground (
          arith,
          within.window o m since,
          sum_of-change_first (autonomous_on o m since until) same change spend k
              (g o m since until),
        );
  }
