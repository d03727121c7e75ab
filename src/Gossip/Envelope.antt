-- ===== src/Gossip/Envelope.antt =====
-- src/cks_runtime/gossip/envelope.py: the signed form in which a session travels. The dictionaries of
-- the wire, and encoding as UTF-8, are left out: a payload is a list of code points.
mod Binding
mod Tests
use cks_runtime.Prelude.{
  ℕ, String, List, [], ◌∷◌, ◌++◌, Bool, true, false, Option, none, some, string_eq, ◌==◌,
  if◌then◌else◌,
}
use cks_runtime.Prelude.Int.{ℤ}
use cks_runtime.Prelude.Text.{codes, is_ascii}
use cks_runtime.Core.{Core}
use cks_runtime.Json.{Metadata}
use cks_runtime.Result.{Result, ok, raise, type_error, core_failed}
use cks_runtime.Session.{RuntimeSession}

-- What the signing takes from libraries: the engine's text, `json.dumps` with sorted keys, `str` of
-- a number, and the hexadecimal digest of the HMAC.
pub record Signing (c : Core) : Type 1 where
  pub serialize : c.Structure → String
  -- `none` where the engine refuses a text
  pub parse : String → Option c.Structure
  pub dumps : Metadata → List ℕ
  pub str : ℤ → List ℕ
  pub Secret : Type 0
  pub hexdigest : Secret → List ℕ → String

pub record GossipEnvelope : Type 0 where
  pub sender_replica_id : String
  pub session_id : String
  pub knowledge_structure_json : String
  pub metadata : Metadata
  pub parent_session_id : Option String
  pub parent_version_id : Option String
  pub nonce : String
  pub seq_no : ℤ
  pub timestamp_ms : ℤ
  pub signature : String
  pub version : String

-- `_SIGNING_SEPARATOR`, "\x1f"
abbrev pub signing_separator : ℕ
signing_separator = 31

abbrev pub gossip_envelope_version : String
gossip_envelope_version = "1.0"

-- separator.join(parts)
unfoldable pub join : List (List ℕ) → List ℕ
join [] = []
join (part ∷ []) = part
join (part ∷ next ∷ parts) = part ++ signing_separator ∷ join (next ∷ parts)

-- x or ""
abbrev pub or_empty : Option String → List ℕ
or_empty none = []
or_empty (some s) = codes s

-- secrets.compare_digest, which takes ASCII texts only
abbrev pub compare_digest : String → String → Result Bool
compare_digest a b = if is_ascii b then ok (a == b) else raise type_error

module _ {c : Core} (s : Signing c) where
  unfoldable pub signed_parts : GossipEnvelope → List (List ℕ)
  signed_parts e =
      codes e.sender_replica_id
      ∷ codes e.session_id
      ∷ codes e.knowledge_structure_json
      ∷ s.dumps e.metadata
      ∷ or_empty e.parent_session_id
      ∷ or_empty e.parent_version_id
      ∷ codes e.nonce
      ∷ s.str e.seq_no
      ∷ s.str e.timestamp_ms
      ∷ []

  -- `_sign` of the fields of an envelope; its own signature is none of them.
  unfoldable pub sign : GossipEnvelope → s.Secret → String
  sign e secret = s.hexdigest secret (join (signed_parts e))

  -- The envelope before it is signed. The nonce and the time are arguments.
  abbrev pub unsigned : RuntimeSession c → String → ℤ → String → ℤ → GossipEnvelope
  unsigned session sender_replica_id seq_no nonce timestamp_ms = record {
    sender_replica_id = sender_replica_id;
    session_id = session.session_id;
    knowledge_structure_json = s.serialize session.knowledge_structure;
    metadata = session.metadata;
    parent_session_id = session.parent_session_id;
    parent_version_id = session.parent_version_id;
    nonce = nonce;
    seq_no = seq_no;
    timestamp_ms = timestamp_ms;
    signature = "";
    version = gossip_envelope_version;
  }

  unfoldable pub from_session :
      RuntimeSession c → String → ℤ → s.Secret → String → ℤ → GossipEnvelope
  from_session session sender_replica_id seq_no secret nonce timestamp_ms =
      let e = unsigned session sender_replica_id seq_no nonce timestamp_ms in
      record e { signature = sign e secret }

  -- The session, from what `cks.parse` gave for its text.
  abbrev pub parsed : GossipEnvelope → Option c.Structure → Result (RuntimeSession c)
  parsed e none = raise core_failed
  parsed e (some structure) = ok (record {
    knowledge_structure = structure;
    session_id = e.session_id;
    metadata = e.metadata;
    snapshot_interval = 10;
    diagnostics = [];
    version_history = [];
    active_transaction = none;
    closed = false;
    parent_session_id = e.parent_session_id;
    parent_version_id = e.parent_version_id;
  })

  unfoldable pub to_session : GossipEnvelope → Result (RuntimeSession c)
  to_session e = parsed e (s.parse e.knowledge_structure_json)

  unfoldable pub verify : GossipEnvelope → s.Secret → Result Bool
  verify e secret =
      if e.signature == "" then ok false else compare_digest (sign e secret) e.signature
