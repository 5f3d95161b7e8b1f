-- ===== src/Mandate/Service/Same.antt =====
-- Steps of the services that leave the stores as they are, and how a throw or a value of a step is
-- taken apart.
use atlas_rail.Common.{◌≡◌, refl, ◌∙◌}
use atlas_rail.Mandate.Service.Ports.{}
use atlas_rail.Mandate.Service.World.{World}

-- Two worlds with the same stores and the same time.
pub record Same (w v : World) : Type 0 where
  pub mandates : v.mandates ≡ w.mandates
  pub decisions : v.decisions ≡ w.decisions
  pub spend : v.spend ≡ w.spend
  pub approvals : v.approvals ≡ w.approvals
  pub clock : v.clock ≡ w.clock

pub Same-refl : (w : World) → Same w w
Same-refl w = record {
  mandates = refl;
  decisions = refl;
  spend = refl;
  approvals = refl;
  clock = refl;
}

pub Same-trans : {u v w : World} → Same u v → Same v w → Same u w
Same-trans p q = record {
  mandates = q.mandates ∙ p.mandates;
  decisions = q.decisions ∙ p.decisions;
  spend = q.spend ∙ p.spend;
  approvals = q.approvals ∙ p.approvals;
  clock = q.clock ∙ p.clock;
}
