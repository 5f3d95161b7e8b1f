-- ===== src/Mandate/Service/World.antt =====
-- What the services of packages/mandate/src/service work on: the stores, the clock, the ids and
-- nonces drawn, and a monad of steps on them. What was written stays written after a throw.
use atlas_rail.Common.{
  ℕ, suc, String, Bool, Option, none, some, true, false, List, [], ◌∷◌, ◌++◌, Result, ok, err, ◌≡◌,
  refl, if◌then◌else◌,
}
use atlas_rail.Mandate.Types.{X402Offer}
use atlas_rail.Mandate.Records.{GateSimulation, Revocation}
use atlas_rail.Mandate.Crypto.{MessageSigner}
use atlas_rail.Mandate.Service.Ports.{
  MandateRecord, StoredDecision, SpendEntry, ApprovalRecord, AuditEntry, AgentEvent, PaymentOutcome,
  Thrown,
}

-- `InMemoryAgentStore`, with the clock that `clock()` reads, the number of ids drawn so far, and the
-- events that reached the subscriber.
pub record World : Type 0 where
  pub mandates : List MandateRecord
  pub decisions : List StoredDecision
  pub spend : List SpendEntry
  pub approvals : List ApprovalRecord
  pub audit : List AuditEntry
  pub clock : ℕ
  pub drawn : ℕ
  pub events : List AgentEvent

-- The transaction, the offer and the payer that a simulation is asked about.
pub record SimulationInput : Type 0 where
  pub transaction : String
  pub offer : X402Offer
  pub payer : String

pub record LookupInput : Type 0 where
  pub transaction : String
  pub expected_message_hash : String
  pub payer : String
  pub not_before : ℕ

-- `GateServiceOptions`, with the defaults of the constructor filled in. The simulator and the lookup
-- give none where they throw; the chain is read at a time of the clock. `new_id`, `new_mandate_id` and
-- `new_nonce` give what the generators return at each draw, and `notify` tells whether the
-- subscriber takes the event.
pub record Deps : Type 0 where
  pub instance_signer : MessageSigner
  pub simulator : Option (ℕ → SimulationInput → Option GateSimulation)
  pub onchain_revocation_check : Option (ℕ → String → Option Revocation)
  pub payment_lookup : Option (ℕ → LookupInput → Option PaymentOutcome)
  pub notify : Option (AgentEvent → Bool)
  pub new_id : String → ℕ → String
  pub new_mandate_id : ℕ → String
  pub new_nonce : ℕ → String
  pub require_simulation : Bool
  pub request_skew_seconds : ℕ
  pub authorization_ttl_seconds : ℕ

abbrev pub Action : Type 0 → Type 0
Action A = World → Result Thrown A × World

module _ {A : Type 0} where
  abbrev pub pure : A → Action A
  pure a w = (ok a, w)

  abbrev pub throw : Thrown → Action A
  throw e w = (err e, w)

  abbrev pub read : (World → A) → Action A
  read f w = (ok (f w), w)

  -- A value, or a throw where there is none.
  abbrev pub or_throw : Option A → Thrown → Action A
  or_throw none e = throw e
  or_throw (some a) e = pure a

  abbrev pub lift : Result Thrown A → Action A
  lift r w = (r, w)

abbrev pub write : (World → World) → Action (Unit {0})
write f w = (ok tt, f w)

-- `if (test) throw error`
abbrev pub guard : Bool → Thrown → Action (Unit {0})
guard test e w = (if test then err e else ok tt, w)

infixl 5 ◌>>=◌ ◌>>◌
abbrev pub ◌>>=◌ : {A B : Type 0} → Action A → (A → Action B) → Action B
◌>>=◌ first next w = let (r, v) = first w in elim r [ ok a ↦ next a v | err e ↦ (err e, v) ]

abbrev pub ◌>>◌ : {B : Type 0} → Action (Unit {0}) → Action B → Action B
first >> next = first >>= λ done. next

-- What holds of a step and what follows it, from what holds after either outcome of the step.
pub >>=-intro :
    {A B : Type 0} (Q : Result Thrown B × World → Type 0) (m : Action A) (f : A → Action B)
    (w : World)
    → ((e : Thrown) (v : World) → m w ≡ (err e, v) → Q (err e, v))
    → ((a : A) (v : World) → m w ≡ (ok a, v) → Q (f a v))
    → Q ((m >>= f) w)
>>=-intro Q m f w on_err on_ok = helper (m w) refl
  where
    helper :
        (p : Result Thrown _ × World)
        → m w ≡ p
        → Q (let (r, v) = p in elim r [ ok a ↦ f a v | err e ↦ (err e, v) ])
    helper (ok a, v) h = on_ok a v h
    helper (err e, v) h = on_err e v h

-- A generator's next value.
abbrev pub draw : (ℕ → String) → Action String
draw generator w = (ok (generator w.drawn), record w { drawn = suc w.drawn })

-- The events in order, up to the first that the subscriber does not take.
unfoldable pub taken : (AgentEvent → Bool) → List AgentEvent → List AgentEvent
taken takes [] = []
taken takes (event ∷ events) =
    let rest = taken takes events in elim (takes event) [ true ↦ event ∷ rest | false ↦ [] ]

unfoldable pub delivered : Option (AgentEvent → Bool) → List AgentEvent → List AgentEvent
delivered none events = []
delivered (some takes) events = taken takes events

-- `emit`, which never throws.
abbrev pub emit : Deps → List AgentEvent → Action (Unit {0})
emit deps events = write (λ w. record w { events = w.events ++ delivered deps.notify events })
