-- ===== src/Domain/PayoutStatus.antt =====
-- packages/domain/src/payout-state-machine.ts: the statuses of a payout and their transitions.
use atlas_rail.Common.{
  ℕ, zero, suc, ◌≡◌, refl, Bool, not, ◌||◌, List, [], ◌∷◌, contains, Eq, eq_by_rank, ◌==◌, Result,
  throw_if,
}

pub data PayoutStatus : Type 0 where
  draft pending_approval approved rejected queued_for_execution simulating : PayoutStatus
  simulation_failed ready_to_sign submitted confirmed failed cancelled blocked : PayoutStatus

abbrev payout_rank : PayoutStatus → ℕ
payout_rank draft = 0
payout_rank pending_approval = 1
payout_rank approved = 2
payout_rank rejected = 3
payout_rank queued_for_execution = 4
payout_rank simulating = 5
payout_rank simulation_failed = 6
payout_rank ready_to_sign = 7
payout_rank submitted = 8
payout_rank confirmed = 9
payout_rank failed = 10
payout_rank cancelled = 11
payout_rank blocked = 12

abbrev payout_unrank : ℕ → PayoutStatus
payout_unrank zero = draft
payout_unrank (suc zero) = pending_approval
payout_unrank (suc (suc zero)) = approved
payout_unrank (suc (suc (suc zero))) = rejected
payout_unrank (suc (suc (suc (suc zero)))) = queued_for_execution
payout_unrank (suc (suc (suc (suc (suc zero))))) = simulating
payout_unrank (suc (suc (suc (suc (suc (suc zero)))))) = simulation_failed
payout_unrank (suc (suc (suc (suc (suc (suc (suc zero))))))) = ready_to_sign
payout_unrank (suc (suc (suc (suc (suc (suc (suc (suc zero)))))))) = submitted
payout_unrank (suc (suc (suc (suc (suc (suc (suc (suc (suc zero))))))))) = confirmed
payout_unrank (suc (suc (suc (suc (suc (suc (suc (suc (suc (suc zero)))))))))) = failed
payout_unrank (suc (suc (suc (suc (suc (suc (suc (suc (suc (suc (suc zero))))))))))) = cancelled
payout_unrank (suc (suc (suc (suc (suc (suc (suc (suc (suc (suc (suc (suc n)))))))))))) = blocked

pub payout_retract : (a : PayoutStatus) → payout_unrank (payout_rank a) ≡ a
payout_retract draft = refl
payout_retract pending_approval = refl
payout_retract approved = refl
payout_retract rejected = refl
payout_retract queued_for_execution = refl
payout_retract simulating = refl
payout_retract simulation_failed = refl
payout_retract ready_to_sign = refl
payout_retract submitted = refl
payout_retract confirmed = refl
payout_retract failed = refl
payout_retract cancelled = refl
payout_retract blocked = refl

instance abbrev pub payout_status_eq : Eq PayoutStatus
payout_status_eq = eq_by_rank payout_rank payout_unrank payout_retract

-- `TERMINAL_PAYOUT_STATUSES`
abbrev pub terminal_payout_statuses : List PayoutStatus
terminal_payout_statuses = confirmed ∷ rejected ∷ cancelled ∷ []

-- `VALID_STATUS_TRANSITIONS`
unfoldable pub valid_status_transitions : PayoutStatus → List PayoutStatus
valid_status_transitions draft = pending_approval ∷ cancelled ∷ []
valid_status_transitions pending_approval = approved ∷ rejected ∷ blocked ∷ cancelled ∷ []
valid_status_transitions approved = queued_for_execution ∷ cancelled ∷ []
valid_status_transitions rejected = []
valid_status_transitions queued_for_execution = simulating ∷ []
valid_status_transitions simulating = simulation_failed ∷ ready_to_sign ∷ []
valid_status_transitions simulation_failed = blocked ∷ cancelled ∷ []
valid_status_transitions ready_to_sign = submitted ∷ blocked ∷ []
valid_status_transitions submitted = confirmed ∷ failed ∷ []
valid_status_transitions failed = queued_for_execution ∷ []
valid_status_transitions cancelled = []
valid_status_transitions blocked = cancelled ∷ []
valid_status_transitions confirmed = []

unfoldable pub can_transition_payout_status : PayoutStatus → PayoutStatus → Bool
unfolding valid_status_transitions contains
can_transition_payout_status from to = from == to || contains to (valid_status_transitions from)

pub data TransitionError : Type 0 where
  invalid_transition : PayoutStatus → PayoutStatus → TransitionError

unfoldable pub assert_valid_transition :
    PayoutStatus → PayoutStatus → Result TransitionError (Unit {0})
unfolding can_transition_payout_status
assert_valid_transition from to =
    throw_if (not (can_transition_payout_status from to)) (invalid_transition from to)

unfoldable pub is_terminal_payout_status : PayoutStatus → Bool
unfolding contains
is_terminal_payout_status status = contains status terminal_payout_statuses
