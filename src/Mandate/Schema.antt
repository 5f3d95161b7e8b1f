-- ===== src/Mandate/Schema.antt =====
-- The tests of packages/mandate/src/schema.ts and of the schema in offer.ts on a document that has
-- the right shape: patterns, ranges, sizes and the cross-field rules of `refineBody`. The issues come
-- in the order of the fields, the cross-field ones last.
use Prim.Native.Char.{code}
use atlas_rail.Common.{
  ℕ, suc, ◌+◌, ◌*◌, ◌/◌, ◌^◌, String, Bool, true, false, not, ◌&&◌, ◌||◌, Option, none, some, List,
  [], ◌∷◌, ◌++◌, length, contains, leb, ltb, ◌==◌, string_eq, nat_eq, if◌then◌else◌, is_some,
  Result, ok, err,
}
use atlas_rail.Mandate.Types.{
  DelegationLink, MandateLimits, ResourcePriceLimit, MandateScope, MandateEscalation,
  AgentMandateBody, AgentMandate, X402Offer, PathSegment, key, index, Issue, Untyped, misshapen,
  shaped,
}
use atlas_rail.Mandate.Documents.{Platform}
use atlas_rail.Mandate.Resource.{parse_resource_pattern, utf16_length}

abbrev pub solana_devnet_caip2 : String
solana_devnet_caip2 = "solana:EtWTRABZaYq6iMfeYKouRu166VU2xqa1"

abbrev pub supported_networks : List String
supported_networks = solana_devnet_caip2 ∷ []

abbrev pub max_base_units : ℕ
max_base_units = 18446744073709551615

abbrev pub max_epoch_seconds : ℕ
max_epoch_seconds = 4102444800

abbrev between : ℕ → ℕ → ℕ → Bool
between lo hi n = leb lo n && leb n hi

is_digit : ℕ → Bool
is_digit c = between b'0' b'9' c

is_alphanumeric : ℕ → Bool
unfolding is_digit
is_alphanumeric c = is_digit c || between b'a' b'z' c || between b'A' b'Z' c

-- `[1-9A-HJ-NP-Za-km-z]`
unfoldable pub is_base58 : ℕ → Bool
is_base58 c =
    between b'1' b'9' c
    || between b'A' b'H' c
    || between b'J' b'N' c
    || between b'P' b'Z' c
    || between b'a' b'k' c
    || between b'm' b'z' c

-- `[0-9a-f]`
unfoldable pub is_lower_hex : ℕ → Bool
is_lower_hex c = between b'0' b'9' c || between b'a' b'f' c

-- Every character satisfies the test.
unfoldable pub all_chars : (ℕ → Bool) → String → Bool
all_chars p String.[] = true
all_chars p (String.◌∷◌ c s) = p (code c) && all_chars p s

-- The text is of a class of ASCII characters, and its length lies in a range.
unfoldable pub matches_class : (ℕ → Bool) → ℕ → ℕ → String → Bool
unfolding all_chars utf16_length
matches_class p lo hi s = all_chars p s && between lo hi (utf16_length s)

abbrev is_address : String → Bool
is_address = matches_class is_base58 32 44

abbrev is_signature : String → Bool
is_signature = matches_class is_base58 64 90

-- `/^mnd_[A-Za-z0-9]{10,40}$/`
is_mandate_id : String → Bool
unfolding matches_class is_alphanumeric
is_mandate_id (String.◌∷◌ a (String.◌∷◌ b (String.◌∷◌ c (String.◌∷◌ d s)))) =
    code a == b'm'
    && code b == b'n'
    && code c == b'd'
    && code d == b'_'
    && matches_class is_alphanumeric 10 40 s
is_mandate_id _ = false

abbrev issue_unless : Bool → List PathSegment → Option String → List Issue
issue_unless true path message = []
issue_unless false path message = record { path = path; message = message } ∷ []

abbrev plain : Bool → String → List Issue
plain test field = issue_unless test (key field ∷ []) none

-- The issues of the members of a list, from position `i` on.
indexed {ℓ} : {A : Type ℓ} → (ℕ → A → List Issue) → ℕ → List A → List Issue
indexed f i [] = []
indexed f i (x ∷ xs) = f i x ++ indexed f (suc i) xs

abbrev at : List PathSegment → List Issue → List Issue
at path [] = []
at path (i ∷ is) = record { path = path ++ i.path; message = i.message } ∷ at path is

-- `BASE_UNITS_PATTERN` on the decimal text of a number: at most twenty digits.
unfoldable pub base_units_pattern : ℕ → Bool
base_units_pattern n = ltb n (10 ^ 20)

units_issues : String → ℕ → List Issue
unfolding base_units_pattern
units_issues field n =
    issue_unless (base_units_pattern n) (key field ∷ [])
      (some "must be a non-negative integer string without leading zeros")
    ++ issue_unless (leb n max_base_units) (key field ∷ []) (some "exceeds u64")

link_issues : ℕ → DelegationLink → List Issue
link_issues i link = at (key "delegationChain" ∷ index i ∷ []) (
    issue_unless (is_address link.public_key) (key "publicKey" ∷ [])
      (some "must be a base58 Solana address")
    ++ issue_unless (is_signature link.signature) (key "signature" ∷ [])
        (some "must be a base58 Ed25519 signature")
    ++ plain (elim link.scheme [ none ↦ true | some s ↦ s == "ed25519" ]) "scheme")

limits_issues : MandateLimits → List Issue
unfolding units_issues
limits_issues l = at (key "limits" ∷ []) (
    issue_unless (is_address l.mint) (key "mint" ∷ []) (some "must be a base58 Solana address")
    ++ units_issues "maxPerPayment" l.max_per_payment
    ++ units_issues "maxPerWindow" l.max_per_window
    ++ plain (between 60 31536000 l.window_seconds) "windowSeconds"
    ++ units_issues "maxTotal" l.max_total)

-- The highest amount at or within tolerance of the reference price. The gate computes it again.
unfoldable pub tolerated_price : ResourcePriceLimit → ℕ
tolerated_price l = l.expected_price + l.expected_price * l.tolerance_centipct / 10000

module _ ⦃env : Platform⦄ where
  pattern_issues : ℕ → String → List Issue
  pattern_issues i pattern =
      issue_unless (is_some (parse_resource_pattern pattern)) (index i ∷ [])
        (some "must be <origin><path> with an optional trailing /*")

  price_limit_issues : ℕ → ResourcePriceLimit → List Issue
  unfolding units_issues
  price_limit_issues i l = at (index i ∷ []) (
      issue_unless (is_some (parse_resource_pattern l.resource)) (key "resource" ∷ [])
        (some "must be <origin><path> with an optional trailing /*")
      ++ units_issues "expectedPriceBaseUnits" l.expected_price
      ++ plain (leb l.tolerance_centipct 100000) "tolerancePct"
      ++ units_issues "hardMaxBaseUnits" l.hard_max)

  sized {ℓ} : {A : Type ℓ} → String → ℕ → ℕ → (ℕ → A → List Issue) → List A → List Issue
  unfolding indexed
  sized field lo hi f xs =
      at (key field ∷ []) (issue_unless (between lo hi (length xs)) [] none ++ indexed f 0 xs)

  address_issues : ℕ → String → List Issue
  address_issues i a =
      issue_unless (is_address a) (index i ∷ []) (some "must be a base58 Solana address")

  scope_issues : MandateScope → List Issue
  unfolding sized address_issues pattern_issues limits_issues price_limit_issues
  scope_issues s = at (key "scope" ∷ []) (
      sized "allowedNetworks" 1 4
        (λ i n. issue_unless (contains n supported_networks) (index i ∷ []) none) s.allowed_networks
      ++ sized "allowedAssets" 1 16 address_issues s.allowed_assets
      ++ sized "allowedPayTo" 1 256 address_issues s.allowed_pay_to
      ++ sized "allowedResources" 1 256 pattern_issues s.allowed_resources
      ++ limits_issues s.limits
      ++ sized "priceLimits" 0 64 price_limit_issues s.price_limits)

  escalation_issues : MandateEscalation → List Issue
  unfolding sized units_issues pattern_issues
  escalation_issues e = at (key "escalation" ∷ []) (
      units_issues "thresholdBaseUnits" e.threshold
      ++ sized "approverRoles" 1 3
          (λ i r.
            issue_unless (contains r ("OWNER" ∷ "ADMIN" ∷ "APPROVER" ∷ [])) (index i ∷ []) none)
          e.approver_roles
      ++ sized "resources" 0 256 pattern_issues e.resources
      ++ plain (between 30 86400 e.approval_ttl_seconds) "approvalTtlSeconds")

-- `a > b` on two amounts, false where one of them is no base-unit text.
exceeds : ℕ → ℕ → Bool
unfolding base_units_pattern
exceeds a b = base_units_pattern a && base_units_pattern b && ltb b a

refine_price_limit : ℕ → ResourcePriceLimit → List Issue
unfolding base_units_pattern tolerated_price
refine_price_limit i l =
    let path = key "scope" ∷ key "priceLimits" ∷ index i ∷ key "hardMaxBaseUnits" ∷ [] in
    if not (base_units_pattern l.expected_price) || not (base_units_pattern l.hard_max)
    then []
    else if ltb l.hard_max l.expected_price
    then issue_unless false path (some "hardMaxBaseUnits cannot be below expectedPriceBaseUnits")
    else issue_unless (leb (tolerated_price l) l.hard_max) path (
        some
          "hardMaxBaseUnits cannot be below the tolerated price (expectedPriceBaseUnits + tolerancePct)")

refine_body : AgentMandateBody → List Issue
unfolding exceeds refine_price_limit indexed
refine_body b =
    issue_unless (ltb b.not_before b.expires_at) (key "expiresAt" ∷ [])
      (some "expiresAt must be after notBefore")
    ++ issue_unless (contains b.scope.limits.mint b.scope.allowed_assets)
        (key "scope" ∷ key "limits" ∷ key "mint" ∷ [])
        (some "limits.mint must be listed in allowedAssets")
    ++ issue_unless (not (exceeds b.scope.limits.max_per_payment b.scope.limits.max_total))
        (key "scope" ∷ key "limits" ∷ key "maxPerPayment" ∷ [])
        (some "maxPerPayment cannot exceed maxTotal")
    ++ issue_unless (not (exceeds b.escalation.threshold b.scope.limits.max_per_payment))
        (key "escalation" ∷ key "thresholdBaseUnits" ∷ [])
        (some "escalation threshold cannot exceed the hard per-payment ceiling")
    ++ indexed refine_price_limit 0 b.scope.price_limits

module _ ⦃env : Platform⦄ where
  -- The issues of the fields of `bodyShape`.
  shape_issues : AgentMandateBody → List Issue
  unfolding is_mandate_id scope_issues escalation_issues
  shape_issues b =
      plain (b.kind == "atlasrail.agent-mandate") "type"
      ++ plain (b.version == "0.1") "version"
      ++ plain (is_mandate_id b.id) "id"
      ++ at (key "issuer" ∷ []) (
          plain (between 1 64 (utf16_length b.issuer.organization_id)) "organizationId"
          ++ plain (between 1 120 (utf16_length b.issuer.name)) "name")
      ++ at (key "agent" ∷ []) (
          issue_unless (is_address b.agent.public_key) (key "publicKey" ∷ [])
            (some "must be a base58 Solana address")
          ++ plain (between 1 120 (utf16_length b.agent.label)) "label")
      ++ at (key "delegation" ∷ []) (
          plain (between 1 5 b.delegation.required_approvals) "requiredApprovals"
          ++ plain b.delegation.prevent_issuer_approval "preventIssuerApproval")
      ++ scope_issues b.scope
      ++ escalation_issues b.escalation
      ++ plain (leb b.not_before max_epoch_seconds) "notBefore"
      ++ plain (leb b.expires_at max_epoch_seconds) "expiresAt"
      ++ plain (matches_class is_lower_hex 32 32 b.nonce) "nonce"
      ++ plain b.revocable "revocable"

  -- `mandateBodySchema`
  unfoldable pub mandate_body_issues : AgentMandateBody → List Issue
  unfolding shape_issues refine_body
  mandate_body_issues b = shape_issues b ++ refine_body b

  -- `agentMandateSchema`
  unfoldable pub agent_mandate_issues : AgentMandate → List Issue
  unfolding shape_issues sized link_issues refine_body parse_resource_pattern
  agent_mandate_issues m =
      shape_issues m.body
      ++ sized "delegationChain" 0 8 (λ i link. link_issues i link) m.delegation_chain
      ++ refine_body m.body

  -- `x402OfferSchema`
  unfoldable pub offer_issues : X402Offer → List Issue
  unfolding units_issues
  offer_issues o =
      plain (o.x402_version == 2) "x402Version"
      ++ plain (o.scheme == "exact") "scheme"
      ++ plain (between 3 64 (utf16_length o.network)) "network"
      ++ issue_unless (is_address o.asset) (key "asset" ∷ [])
          (some "must be a base58 Solana address")
      ++ issue_unless (is_address o.pay_to) (key "payTo" ∷ [])
          (some "must be a base58 Solana address")
      ++ units_issues "amount" o.amount
      ++ plain (is_some (env.parse_url o.resource_url) && leb (utf16_length o.resource_url) 2048)
          "resourceUrl"
      ++ issue_unless (elim o.fee_payer [ none ↦ true | some a ↦ is_address a ])
          (key "feePayer" ∷ []) (some "must be a base58 Solana address")
      ++ plain (elim o.memo [ none ↦ true | some m ↦ leb (utf16_length m) 256 ]) "memo"

-- What `safeParse` returns: the first issue, or the document itself.
abbrev pub parse_with : {A : Type 0} → (A → List Issue) → Untyped A → Result Issue A
parse_with issues (misshapen i) = err i
parse_with issues (shaped a) = elim (issues a) [ [] ↦ ok a | i ∷ is ↦ err i ]
