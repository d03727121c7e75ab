-- ===== src/Gossip/Server/Tests.antt =====
-- Requests to the server at concrete inputs.
use cks_runtime.Prelude.{ℕ, List, [], ◌∷◌, String, ◌≡◌, refl, none, some, true, false, string_eq}
use cks_runtime.Prelude.Text.{strip}
use cks_runtime.Prelude.Int.{ℤ, pos, negsuc}
use cks_runtime.Core.Small.{text_core, quoting}
use cks_runtime.Result.{ok}
use cks_runtime.Gossip.Filter.{init, check}
use cks_runtime.Dict.{get, get_or, put, has}
use cks_runtime.Gossip.Filter.Window.{Distinct}
use cks_runtime.Gossip.Envelope.{Signing, GossipEnvelope, sign, verify, to_session}
use cks_runtime.Gossip.Server.{Host, Request, envelope, handle_gossip}
use cks_runtime.Gossip.Server.Replay.{admitted, serve, serve-Distinct}

abbrev digits : ℤ → List ℕ
digits (pos n) = 49 ∷ n ∷ []
digits (negsuc n) = 45 ∷ n ∷ []

abbrev signing : Signing text_core
signing = record {
  serialize = quoting.serialize;
  parse = λ t. some (quoting.parse t);
  dumps = λ metadata. 123 ∷ 125 ∷ [];
  str = digits;
  Secret = String;
  hexdigest = λ secret payload. "f00d";
}

-- The adapter counts what it was given, and tracks no session.
abbrev counting : Host text_core
counting = record {
  State = List String;
  replica_id = "r1";
  apply_remote_session = λ ids session. (session.session_id ∷ ids, ok true);
  get_session = λ ids id. none;
}

abbrev signed : String → GossipEnvelope
signed signature = record {
  sender_replica_id = "r2";
  session_id = "s";
  knowledge_structure_json = ".state";
  metadata = [];
  parent_session_id = none;
  parent_version_id = none;
  nonce = "n";
  seq_no = pos 7;
  timestamp_ms = pos 1000;
  signature = signature;
  version = "1.0";
}

abbrev request : String → Request
request signature = record {
  session_id = "s";
  body = envelope (signed signature);
  now_ms = 1000;
  reply_nonce = "m";
  reply_seq_no = pos 1;
  reply_timestamp_ms = pos 1000;
}

abbrev requests : List Request
requests = request "f00d" ∷ request "f00d" ∷ request "beef" ∷ []

serve-Distinct_example :
    let (self, log) =
      serve signing counting "secret"
        (record { filter = init (pos 500) (pos 10) (pos 64); state = [] })
        []
        requests in
    Distinct log
    × (admitted signing counting "secret" self (request "f00d") ≡ false
        → (handle_gossip signing counting "secret" self (request "f00d")).0.state ≡ self.state)
serve-Distinct_example =
    serve-Distinct signing counting "secret" (pos 500) (pos 10) (pos 64) [] requests
      (request "f00d")

-- The second request repeats the first, and the third has another signature.
handed_over_once :
    (serve signing counting "secret"
      (record { filter = init (pos 500) (pos 10) (pos 64); state = [] })
      []
      requests).0.state
    ≡ "s" ∷ []
unfolding serve handle_gossip check init strip get get_or put has sign verify to_session
handed_over_once = refl
