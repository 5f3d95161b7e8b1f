-- ===== src/Domain/Lifecycle.antt =====
-- The life of a payout as a sequence of accepted status changes
-- (packages/domain/src/payout-state-machine.ts).
use atlas_rail.Common.{
  ◌≡◌, ◌↔◌, ◌⊎◌, inl, inr, refl, Bool, true, false, not, ◌||◌, List, [], ◌∷◌, all, contains,
  contains_iff, Member, ◌==◌, arith, sym, Bool-cases,
}
use atlas_rail.Domain.PayoutStatus.{
  PayoutStatus, payout_status_eq, valid_status_transitions, can_transition_payout_status,
  is_terminal_payout_status,
}

-- A life that starts at the first status, goes through the list, and ends at the last.
pub data Life : PayoutStatus → List PayoutStatus → PayoutStatus → Type 0 where
  stays : (s : PayoutStatus) → Life s [] s
  moves :
      (s t : PayoutStatus) {ts : List PayoutStatus} {u : PayoutStatus}
      → can_transition_payout_status s t ≡ true
      → Life t ts u
      → Life s (t ∷ ts) u

abbrev statuses : List PayoutStatus
statuses =
    PayoutStatus.draft ∷ PayoutStatus.pending_approval ∷ PayoutStatus.approved
    ∷ PayoutStatus.rejected ∷ PayoutStatus.queued_for_execution ∷ PayoutStatus.simulating
    ∷ PayoutStatus.simulation_failed ∷ PayoutStatus.ready_to_sign ∷ PayoutStatus.submitted
    ∷ PayoutStatus.confirmed ∷ PayoutStatus.failed ∷ PayoutStatus.cancelled ∷ PayoutStatus.blocked
    ∷ []

-- Every transition out of the region leads back into it or to the status `gate`.
abbrev guards : (PayoutStatus → Bool) → PayoutStatus → PayoutStatus → Bool
guards region gate s =
    not (region s) || all (λ t. region t || t == gate) (valid_status_transitions s)

all-Member :
    (p : PayoutStatus → Bool) (t : PayoutStatus) (ts : List PayoutStatus)
    → all p ts ≡ true
    → contains t ts ≡ true
    → p t ≡ true
unfolding contains
all-Member p t [] h m = cc
all-Member p t (x ∷ ts) h m = ground (arith, all-Member p t ts, payout_status_eq.beq_iff x t)

module _ (region : PayoutStatus → Bool) (gate : PayoutStatus) where
  module _ (guarded : (s : PayoutStatus) → guards region gate s ≡ true) where
    leaves :
        (s t : PayoutStatus)
        → region s ≡ true
        → can_transition_payout_status s t ≡ true
        → (region t ≡ true) ⊎ (t ≡ gate)
    unfolding can_transition_payout_status
    leaves s t r h = ground (
      arith,
      guarded s,
      payout_status_eq.beq_iff s t,
      payout_status_eq.beq_iff t gate,
      all-Member (λ u. region u || u == gate) t (valid_status_transitions s),
    )

    -- A life that starts in the region and ends outside has passed the gate.
    pub passes :
        {s u : PayoutStatus} {ts : List PayoutStatus}
        → Life s ts u
        → region s ≡ true
        → region u ≡ false
        → Member gate ts
    passes (stays s) r e = cc
    passes (moves s t h life) r e = elim (leaves s t r h) [
      | inl inside ↦ inr (passes life inside e)
      | inr at_gate ↦ inl at_gate
    ]

listed : (s : PayoutStatus) → contains s statuses ≡ true
unfolding contains
listed PayoutStatus.draft = refl
listed PayoutStatus.pending_approval = refl
listed PayoutStatus.approved = refl
listed PayoutStatus.rejected = refl
listed PayoutStatus.queued_for_execution = refl
listed PayoutStatus.simulating = refl
listed PayoutStatus.simulation_failed = refl
listed PayoutStatus.ready_to_sign = refl
listed PayoutStatus.submitted = refl
listed PayoutStatus.confirmed = refl
listed PayoutStatus.failed = refl
listed PayoutStatus.cancelled = refl
listed PayoutStatus.blocked = refl

-- The statuses that a payout can have before each step of its execution.
abbrev unapproved_statuses : List PayoutStatus
unapproved_statuses =
    PayoutStatus.draft ∷ PayoutStatus.pending_approval ∷ PayoutStatus.rejected
    ∷ PayoutStatus.blocked ∷ PayoutStatus.cancelled ∷ []

abbrev unqueued_statuses : List PayoutStatus
unqueued_statuses = PayoutStatus.approved ∷ unapproved_statuses

abbrev unsimulated_statuses : List PayoutStatus
unsimulated_statuses = PayoutStatus.queued_for_execution ∷ unqueued_statuses

abbrev unready_statuses : List PayoutStatus
unready_statuses = PayoutStatus.simulating ∷ PayoutStatus.simulation_failed ∷ unsimulated_statuses

abbrev unsubmitted_statuses : List PayoutStatus
unsubmitted_statuses = PayoutStatus.ready_to_sign ∷ unready_statuses

abbrev pub dead_statuses : List PayoutStatus
dead_statuses =
    PayoutStatus.rejected ∷ PayoutStatus.simulation_failed ∷ PayoutStatus.blocked
    ∷ PayoutStatus.cancelled ∷ []

module _ (region : List PayoutStatus) (gate : PayoutStatus) where
  abbrev within : PayoutStatus → Bool
  within s = contains s region

  passes_listed :
      {s u : PayoutStatus} {ts : List PayoutStatus}
      → all (guards within gate) statuses ≡ true
      → Life s ts u
      → within s ≡ true
      → within u ≡ false
      → Member gate ts
  passes_listed closed =
      passes within gate (λ t. all-Member (guards within gate) t statuses closed (listed t))

-- Changes that `canTransitionPayoutStatus` accepts lead a draft to confirmed only through approved,
-- queued for execution, simulating, ready to sign and submitted.
pub confirmed-passes :
    (ts : List PayoutStatus)
    → Life PayoutStatus.draft ts PayoutStatus.confirmed
    → Member PayoutStatus.approved ts
      × Member PayoutStatus.queued_for_execution ts
      × Member PayoutStatus.simulating ts
      × Member PayoutStatus.ready_to_sign ts
      × Member PayoutStatus.submitted ts
unfolding contains valid_status_transitions
confirmed-passes ts life = (
  passes_listed unapproved_statuses PayoutStatus.approved refl life refl refl,
  passes_listed unqueued_statuses PayoutStatus.queued_for_execution refl life refl refl,
  passes_listed unsimulated_statuses PayoutStatus.simulating refl life refl refl,
  passes_listed unready_statuses PayoutStatus.ready_to_sign refl life refl refl,
  passes_listed unsubmitted_statuses PayoutStatus.submitted refl life refl refl,
)

-- Changes that `canTransitionPayoutStatus` accepts never lead from one of the statuses rejected,
-- blocked, cancelled and simulation failed to any other status.
pub dead-Life :
    {s u : PayoutStatus} {ts : List PayoutStatus}
    → Member s dead_statuses
    → Life s ts u
    → Member u dead_statuses
unfolding contains valid_status_transitions
dead-Life m (stays s) = m
dead-Life m (moves s t h life) =
    let dead = within dead_statuses PayoutStatus.cancelled in
    let inside = (contains_iff s dead_statuses).1 m in
    dead-Life
      (elim (leaves dead PayoutStatus.cancelled
        (λ r. all-Member (guards dead PayoutStatus.cancelled) r statuses refl (listed r)) s t inside
        h) [ inl d ↦ (contains_iff t dead_statuses).0 d | inr e ↦ inr (inr (inr (inl (sym e)))) ])
      life

only_itself :
    (s : PayoutStatus) → is_terminal_payout_status s ≡ true → valid_status_transitions s ≡ []
unfolding is_terminal_payout_status valid_status_transitions
only_itself PayoutStatus.draft h = absurd (ground arith)
only_itself PayoutStatus.pending_approval h = absurd (ground arith)
only_itself PayoutStatus.approved h = absurd (ground arith)
only_itself PayoutStatus.rejected h = refl
only_itself PayoutStatus.queued_for_execution h = absurd (ground arith)
only_itself PayoutStatus.simulating h = absurd (ground arith)
only_itself PayoutStatus.simulation_failed h = absurd (ground arith)
only_itself PayoutStatus.ready_to_sign h = absurd (ground arith)
only_itself PayoutStatus.submitted h = absurd (ground arith)
only_itself PayoutStatus.confirmed h = refl
only_itself PayoutStatus.failed h = absurd (ground arith)
only_itself PayoutStatus.cancelled h = refl
only_itself PayoutStatus.blocked h = absurd (ground arith)

way_out :
    (s : PayoutStatus)
    → is_terminal_payout_status s ≡ false
    → (t : PayoutStatus) × (can_transition_payout_status s t ≡ true) × (¬ (t ≡ s))
unfolding is_terminal_payout_status can_transition_payout_status
way_out PayoutStatus.draft h = (PayoutStatus.pending_approval, refl, λ e. cc)
way_out PayoutStatus.pending_approval h = (PayoutStatus.approved, refl, λ e. cc)
way_out PayoutStatus.approved h = (PayoutStatus.queued_for_execution, refl, λ e. cc)
way_out PayoutStatus.rejected h = absurd (ground arith)
way_out PayoutStatus.queued_for_execution h = (PayoutStatus.simulating, refl, λ e. cc)
way_out PayoutStatus.simulating h = (PayoutStatus.simulation_failed, refl, λ e. cc)
way_out PayoutStatus.simulation_failed h = (PayoutStatus.blocked, refl, λ e. cc)
way_out PayoutStatus.ready_to_sign h = (PayoutStatus.submitted, refl, λ e. cc)
way_out PayoutStatus.submitted h = (PayoutStatus.confirmed, refl, λ e. cc)
way_out PayoutStatus.confirmed h = absurd (ground arith)
way_out PayoutStatus.failed h = (PayoutStatus.queued_for_execution, refl, λ e. cc)
way_out PayoutStatus.cancelled h = absurd (ground arith)
way_out PayoutStatus.blocked h = (PayoutStatus.cancelled, refl, λ e. cc)

-- A status is terminal exactly when the only change that is accepted from it is to itself.
pub terminal_iff :
    (s : PayoutStatus)
    → (is_terminal_payout_status s ≡ true)
      ↔ ((t : PayoutStatus) → can_transition_payout_status s t ≡ true → t ≡ s)
unfolding can_transition_payout_status contains
terminal_iff s = (
  λ h. λ t. λ c. ground (arith, only_itself s h, payout_status_eq.beq_iff s t),
  λ h. elim (Bool-cases (is_terminal_payout_status s)) [
    | inl e ↦ e
    | inr e ↦ let (t, c, n) = way_out s e in absurd (n (h t c))
  ],
)
