-- ===== src/Mandate/Service/Store/Spend.antt =====
-- packages/mandate/src/service/memory.ts: InMemorySpendStore.
use atlas_rail.Common.{
  ℕ, ◌+◌, String, Bool, not, ◌&&◌, ◌||◌, some, List, [], ◌∷◌, ◌++◌, ltb, ◌==◌, string_eq,
  if◌then◌else◌,
}
use atlas_rail.Mandate.Records.{SpendTotals}
use atlas_rail.Mandate.Service.Ports.{SpendStatus, spend_status_eq, SpendEntry}
use atlas_rail.Mandate.Service.World.{World, Action, write}
use atlas_rail.Mandate.Service.Store.Table.{change_first}

-- The entries that `totals` does not skip.
abbrev pub counts : String → SpendEntry → Bool
counts mandate_id e = e.mandate_id == mandate_id && not (e.status == SpendStatus.released)

-- One entry added to the totals.
abbrev pub tally_entry : String → ℕ → ℕ → SpendTotals → SpendEntry → SpendTotals
tally_entry mandate_id now window_seconds t e =
    if not (e.mandate_id == mandate_id) || e.status == SpendStatus.released then t else record {
      window_autonomous =
          if e.autonomous && ltb now (e.created_at + window_seconds)
          then t.window_autonomous + e.amount
          else t.window_autonomous;
      total = t.total + e.amount;
    }

-- The loop over the entries.
unfoldable pub totals_from : String → ℕ → ℕ → SpendTotals → List SpendEntry → SpendTotals
totals_from mandate_id now window_seconds t [] = t
totals_from mandate_id now window_seconds t (e ∷ es) =
    totals_from mandate_id now window_seconds (tally_entry mandate_id now window_seconds t e) es

unfoldable pub totals : String → ℕ → ℕ → World → SpendTotals
totals mandate_id now window_seconds w =
    totals_from mandate_id now window_seconds (record { window_autonomous = 0; total = 0 }) w.spend

abbrev pub reserve : SpendEntry → Action (Unit {0})
reserve e = write (λ w. record w { spend = w.spend ++ e ∷ [] })

abbrev pub settle_entry : String → SpendEntry → SpendEntry
settle_entry signature e = record e { status = SpendStatus.settled; tx_signature = some signature }

abbrev pub release_entry : SpendEntry → SpendEntry
release_entry e =
    if e.status == SpendStatus.reserved then record e { status = SpendStatus.released } else e

abbrev pub mark_settled : String → String → Action (Unit {0})
mark_settled decision_id signature = write (λ w. record w {
  spend = change_first (λ e. e.decision_id == decision_id) (settle_entry signature) w.spend;
})

abbrev pub release : String → Action (Unit {0})
release decision_id = write (λ w. record w {
  spend = change_first (λ e. e.decision_id == decision_id) release_entry w.spend;
})
