-- ===== src/Mandate/Gate/Samples.antt =====
-- A platform, a mandate, offers and contexts to run the gate on (packages/mandate/src/gate.ts).
use atlas_rail.Common.{ℕ, String, true, false, Option, none, some, [], ◌∷◌}
use atlas_rail.Mandate.Types.{DelegationRole, DelegationLink, AgentMandate, X402Offer}
use atlas_rail.Mandate.Records.{ApprovalStatus, GateApproval, GateContext}
use atlas_rail.Mandate.Documents.{Platform, Document}
use atlas_rail.Mandate.Schema.{solana_devnet_caip2}

abbrev mandate_digest : String
mandate_digest = "aaaaaaaaaaaaaaaaaaaaaaaaaaaaaaaaaaaaaaaaaaaaaaaaaaaaaaaaaaaaaaaa"

abbrev offer_digest : String
offer_digest = "bbbbbbbbbbbbbbbbbbbbbbbbbbbbbbbbbbbbbbbbbbbbbbbbbbbbbbbbbbbbbbbb"

abbrev other_digest : String
other_digest = "cccccccccccccccccccccccccccccccccccccccccccccccccccccccccccccccc"

abbrev digest : Document → String
digest (Document.mandate_body b) = mandate_digest
digest (Document.offer o) = offer_digest
digest _ = other_digest

-- Every text is a URL of one host with the path `/v1/data`, and every signature verifies.
instance abbrev pub platform : Platform
platform = record {
  parse_url = λ text. some (record {
    protocol = "https:";
    username = "";
    password = "";
    origin = "https://api.example";
    pathname = "/v1/data";
  });
  hash_document = digest;
  canonicalize = λ rules. "";
  verify_ed25519 = λ key message signature. true;
  iso_date = λ seconds. "";
}

abbrev pub owner_key : String
owner_key = "owner111111111111111111111111111111"

abbrev pub approver_key : String
approver_key = "approver11111111111111111111111111"

abbrev pub agent_key : String
agent_key = "agent1111111111111111111111111111111"

abbrev usdc : String
usdc = "usdc1111111111111111111111111111111111"

abbrev merchant : String
merchant = "merchant1111111111111111111111111111"

abbrev resource : String
resource = "https://api.example/v1/data"

abbrev pub signature_text : String
signature_text = "5555555555555555555555555555555555555555555555555555555555555555"

abbrev pub link : DelegationRole → String → DelegationLink
link role key = record {
  role = role;
  public_key = key;
  signature = signature_text;
  scheme = some "ed25519";
}

-- At most 1000 a payment, 2500 a window, 5000 in all; above 600 a human is asked.
abbrev pub mandate : AgentMandate
mandate = record {
  body = record {
    kind = "atlasrail.agent-mandate";
    version = "0.1";
    id = "mnd_0123456789";
    issuer = record { organization_id = "org_1"; name = "Atlas" };
    agent = record { public_key = agent_key; label = "buyer" };
    delegation = record { required_approvals = 1; prevent_issuer_approval = true };
    scope = record {
      allowed_networks = solana_devnet_caip2 ∷ [];
      allowed_assets = usdc ∷ [];
      allowed_pay_to = merchant ∷ [];
      allowed_resources = resource ∷ [];
      limits = record {
        mint = usdc;
        max_per_payment = 1000;
        max_per_window = 2500;
        window_seconds = 3600;
        max_total = 5000;
      };
      price_limits = [];
    };
    escalation = record {
      threshold = 600;
      approver_roles = "APPROVER" ∷ [];
      resources = [];
      approval_ttl_seconds = 600;
    };
    not_before = 1000;
    expires_at = 2000;
    nonce = "0123456789abcdef0123456789abcdef";
    revocable = true;
  };
  delegation_chain =
      link DelegationRole.owner owner_key
      ∷ link DelegationRole.approver approver_key
      ∷ link DelegationRole.agent agent_key
      ∷ [];
}

abbrev pub offer : ℕ → X402Offer
offer amount = record {
  x402_version = 2;
  scheme = "exact";
  network = solana_devnet_caip2;
  asset = usdc;
  pay_to = merchant;
  amount = amount;
  resource_url = resource;
  fee_payer = none;
  memo = none;
}

-- A human's approval of an offer, signed by the approver's wallet.
abbrev pub approval : GateApproval
approval = record {
  id = "apr_1";
  offer_hash = offer_digest;
  status = ApprovalStatus.approved;
  expires_at = 1700;
  approver = some (record { user_id = "usr_1"; role = "APPROVER" });
  terms = some (record {
    approval_id = "apr_1";
    mandate_hash = mandate_digest;
    kind = "data";
    amount = "800";
    recipient = merchant;
    request_hash = other_digest;
    offer_hash = offer_digest;
    expires_at = 1700;
  });
  owner_signature =
      some (record { scheme = "ed25519"; signer = approver_key; signature = signature_text });
}

abbrev pub context : ℕ → Option GateApproval → GateContext
context now given = record {
  now = now;
  revoked = none;
  channel_payer = none;
  spend = record { window_autonomous = 700; total = 900 };
  simulation = none;
  require_simulation = false;
  approval = given;
  review = none;
}
