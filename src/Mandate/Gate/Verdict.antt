-- ===== src/Mandate/Gate/Verdict.antt =====
-- How the results of the rules and the presented approval make the verdict.
use atlas_rail.Common.{
  ◌≡◌, refl, Bool, false, not, ◌&&◌, ◌||◌, Option, none, some, List, [], ◌∷◌, ◌++◌, map, arith,
  ◌==◌, is_some, if◌then◌else◌,
}
use atlas_rail.Mandate.Records.{RuleStatus, status_eq, RuleResult, GateVerdict, DecisionKind}
use atlas_rail.Mandate.Gate.Rules.{has_status}
use atlas_rail.Mandate.Gate.Evaluate.{
  Presented, has_problems, override, apply_approval, verdict_of, kind_of,
}

override-failed :
    (rules : List RuleResult)
    → has_status RuleStatus.failed (map override rules) ≡ has_status RuleStatus.failed rules
override-failed [] = refl
override-failed (r ∷ rules) = ground (arith, override-failed rules)

override-escalated :
    (rules : List RuleResult) → has_status RuleStatus.escalated (map override rules) ≡ false
override-escalated [] = refl
override-escalated (r ∷ rules) = ground (arith, override-escalated rules)

override-overridden :
    (rules : List RuleResult)
    → has_status RuleStatus.overridden (map override rules)
      ≡ (has_status RuleStatus.overridden rules || has_status RuleStatus.escalated rules)
override-overridden [] = refl
override-overridden (r ∷ rules) = ground (arith, override-overridden rules)

module _ (rules : List RuleResult) where
  abbrev pub fails : Bool
  fails = has_status RuleStatus.failed rules

  abbrev pub asks : Bool
  asks = has_status RuleStatus.escalated rules

has_status-concat :
    (s : RuleStatus) (rules : List RuleResult) (r : RuleResult)
    → has_status s (rules ++ r ∷ []) ≡ (has_status s rules || r.status == s)
has_status-concat s [] r = ground arith
has_status-concat s (x ∷ rules) r = ground (arith, has_status-concat s rules r)

-- A problem with the approval is one more failure.
fails-apply_approval :
    (p : Option Presented) (rules : List RuleResult)
    → fails (apply_approval p rules) ≡ (fails rules || has_problems p)
unfolding apply_approval
fails-apply_approval none rules = ground arith
fails-apply_approval (some p) rules =
    grind (arith, has_status-concat RuleStatus.failed, override-failed rules)

-- With an approval and no failure nothing asks any more.
asks-apply_approval :
    (p : Option Presented) (rules : List RuleResult)
    → fails rules ≡ false
    → has_problems p ≡ false
    → asks (apply_approval p rules) ≡ (asks rules && not (is_some p))
unfolding apply_approval
asks-apply_approval none rules f h = ground arith
asks-apply_approval (some p) rules f h =
    grind (arith, has_status-concat RuleStatus.escalated, override-escalated rules)

overridden-apply_approval :
    (p : Option Presented) (rules : List RuleResult)
    → fails rules ≡ false
    → has_problems p ≡ false
    → has_status RuleStatus.overridden rules ≡ false
    → has_status RuleStatus.overridden (apply_approval p rules) ≡ (asks rules && is_some p)
unfolding apply_approval
overridden-apply_approval none rules f h e = ground arith
overridden-apply_approval (some p) rules f h e =
    grind (arith, has_status-concat RuleStatus.overridden, override-overridden rules)

-- The verdict: a failed rule or a problem with the approval denies; else an approvable rule asks,
-- unless an approval is presented; else the payment is allowed.
pub verdict-apply_approval :
    (p : Option Presented) (rules : List RuleResult)
    → verdict_of (apply_approval p rules) ≡ (
        if fails rules || has_problems p
        then GateVerdict.deny
        else if asks rules && not (is_some p)
        then GateVerdict.escalate
        else GateVerdict.allow)
unfolding verdict_of
verdict-apply_approval p rules =
    ground (arith, fails-apply_approval p rules, asks-apply_approval p rules)

-- An allowed payment is approved where an approvable rule was overridden, else autonomous.
pub kind-apply_approval :
    (p : Option Presented) (rules : List RuleResult)
    → has_status RuleStatus.overridden rules ≡ false
    → verdict_of (apply_approval p rules) ≡ GateVerdict.allow
    → kind_of (apply_approval p rules)
      ≡ some (if asks rules then DecisionKind.approved else DecisionKind.autonomous)
unfolding kind_of verdict_of
kind-apply_approval p rules e v = ground (
  arith,
  fails-apply_approval p rules,
  asks-apply_approval p rules,
  overridden-apply_approval p rules,
)
