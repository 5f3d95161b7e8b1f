-- ===== src/Mandate/Service/Budget.antt =====
-- What is spent under a mandate, as sums over the entries of the spend store
-- (packages/mandate/src/service/memory.ts, InMemorySpendStore).
use atlas_rail.Common.{
  ℕ, ◌+◌, ◌≤◌, String, Bool, true, ◌&&◌, List, [], ◌∷◌, ◌++◌, ltb, leb, ◌==◌, string_eq,
  if◌then◌else◌, ◌≡◌, arith,
}
use atlas_rail.Mandate.Records.{SpendTotals}
use atlas_rail.Mandate.Service.Ports.{spend_status_eq, SpendEntry}
use atlas_rail.Mandate.Service.World.{World}
use atlas_rail.Mandate.Service.Store.Table.{change_first}
use atlas_rail.Mandate.Service.Store.Spend.{counts, tally_entry, totals_from, totals}

module _ (p : SpendEntry → Bool) where
  -- The amounts of the entries that pass the test.
  abbrev pub sum_of : List SpendEntry → ℕ
  sum_of [] = 0
  sum_of (e ∷ es) = (if p e then e.amount else 0) + sum_of es

  pub sum_of-append :
      (es : List SpendEntry) (e : SpendEntry)
      → sum_of (es ++ e ∷ []) ≡ sum_of es + (if p e then e.amount else 0)
  sum_of-append [] e = omega arith
  sum_of-append (x ∷ es) e = omega (arith, sum_of-append es e)

pub sum_of_mono :
    (p q : SpendEntry → Bool) (es : List SpendEntry)
    → ((e : SpendEntry) → p e ≡ true → q e ≡ true)
    → sum_of p es ≤ sum_of q es
sum_of_mono p q [] h = omega arith
sum_of_mono p q (e ∷ es) h = ground (arith, h e, sum_of_mono p q es h)

-- A change of one entry that keeps its amount, and that does not bring it to pass the test.
pub sum_of-change_first :
    (p same : SpendEntry → Bool) (change : SpendEntry → SpendEntry) (es : List SpendEntry)
    → ((e : SpendEntry) → (change e).amount ≡ e.amount)
    → ((e : SpendEntry) → p (change e) ≡ true → p e ≡ true)
    → sum_of p (change_first same change es) ≤ sum_of p es
sum_of-change_first p same change [] k h = omega arith
sum_of-change_first p same change (e ∷ es) k h =
    ground (arith, k e, h e, sum_of-change_first p same change es k h)

-- The entry counts towards the window that ends now.
abbrev pub counts_in_window : String → ℕ → ℕ → SpendEntry → Bool
counts_in_window mandate_id now window_seconds e =
    counts mandate_id e && (e.autonomous && ltb now (e.created_at + window_seconds))

totals_from_lem :
    (mandate_id : String) (now window_seconds : ℕ) (t : SpendTotals) (es : List SpendEntry)
    → let r = totals_from mandate_id now window_seconds t es in
      (r.total ≡ t.total + sum_of (counts mandate_id) es)
      × (r.window_autonomous
          ≡ t.window_autonomous + sum_of (counts_in_window mandate_id now window_seconds) es)
unfolding totals_from
totals_from_lem mandate_id now window_seconds t [] = (omega arith, omega arith)
totals_from_lem mandate_id now window_seconds t (e ∷ es) = ground (
  arith,
  totals_from_lem mandate_id now window_seconds (tally_entry mandate_id now window_seconds t e) es,
)

-- The totals of a mandate are the sums over its entries that are not released: of all of them, and of
-- the autonomous ones that are less than a window old.
pub totals_lem :
    (mandate_id : String) (now window_seconds : ℕ) (w : World)
    → ((totals mandate_id now window_seconds w).total ≡ sum_of (counts mandate_id) w.spend)
      × ((totals mandate_id now window_seconds w).window_autonomous
          ≡ sum_of (counts_in_window mandate_id now window_seconds) w.spend)
unfolding totals
totals_lem mandate_id now window_seconds w =
    let (t, a) =
      totals_from_lem mandate_id now window_seconds (record { window_autonomous = 0; total = 0 })
        w.spend in
    (omega (arith, t), omega (arith, a))

-- The entry is spent under the mandate of an organization.
abbrev pub spent_on : String → String → SpendEntry → Bool
spent_on organization_id mandate_id e = e.organization_id == organization_id && counts mandate_id e

-- It was spent without a human, after one time and not after another.
abbrev pub autonomous_on : String → String → ℕ → ℕ → SpendEntry → Bool
autonomous_on organization_id mandate_id since until e =
    spent_on organization_id mandate_id e
    && (e.autonomous && (ltb since e.created_at && leb e.created_at until))

pub spent_on-counts :
    (organization_id mandate_id : String) (es : List SpendEntry)
    → sum_of (spent_on organization_id mandate_id) es ≤ sum_of (counts mandate_id) es
spent_on-counts organization_id mandate_id es = sum_of_mono _ _ es (λ e h. ground arith)

-- What lies in a window that holds a time also lies in the window that ends then.
pub autonomous_on-window :
    (organization_id mandate_id : String) (since now window_seconds : ℕ) (es : List SpendEntry)
    → now ≤ since + window_seconds
    → sum_of (autonomous_on organization_id mandate_id since (since + window_seconds)) es
      ≤ sum_of (counts_in_window mandate_id now window_seconds) es
autonomous_on-window organization_id mandate_id since now window_seconds es h =
    sum_of_mono _ _ es (λ e k. ground arith)

pub autonomous_on-spent_on :
    (organization_id mandate_id : String) (since until : ℕ) (es : List SpendEntry)
    → sum_of (autonomous_on organization_id mandate_id since until) es
      ≤ sum_of (spent_on organization_id mandate_id) es
autonomous_on-spent_on organization_id mandate_id since until es =
    sum_of_mono _ _ es (λ e h. ground arith)
