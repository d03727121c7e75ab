-- ===== src/Gossip/Server.antt =====
-- src/cks_runtime/gossip/http_transport.py, `GossipServer._handle_gossip`, over the filter and the
-- envelope. The adapter behind it is a parameter here; Gossip/Adapter models it. The clock, the fresh
-- nonce and the number of the reply are arguments.
mod Replay
mod Tests
use cks_runtime.Prelude.{
  ℕ, String, Bool, true, false, Option, none, some, string_eq, ◌==◌, if◌then◌else◌,
}
use cks_runtime.Prelude.Int.{ℤ, int}
use cks_runtime.Core.{Core}
use cks_runtime.Result.{Result, ok, raise}
use cks_runtime.Session.{RuntimeSession}
use cks_runtime.Gossip.Filter.{Filter, Message, check}
use cks_runtime.Gossip.Envelope.{Signing, GossipEnvelope, from_session, to_session, verify}

-- The adapter and its runtime.
pub record Host (c : Core) : Type 1 where
  pub State : Type 0
  pub replica_id : String
  pub apply_remote_session : State → RuntimeSession c → State × Result Bool
  pub get_session : State → String → Option (RuntimeSession c)

-- 400, 401, 409, 500 where the handler raised, 404 and 200.
pub data Response : Type 0 where
  bad_request unauthorized rejected failed not_tracked : Response
  reply : GossipEnvelope → Response

-- What reading the body and `GossipEnvelope.from_dict` give: one of the errors that are caught (no JSON, a
-- missing key, a value of a wrong type), another one, as for a list or a number that is infinite, or
-- an envelope.
pub data Body : Type 0 where
  malformed unreadable : Body
  envelope : GossipEnvelope → Body

pub record Request : Type 0 where
  pub session_id : String
  pub body : Body
  pub now_ms : ℕ
  pub reply_nonce : String
  pub reply_seq_no : ℤ
  pub reply_timestamp_ms : ℤ

module _ {c : Core} (s : Signing c) (host : Host c) where
  pub record GossipServer : Type 0 where
    pub filter : Filter
    pub state : host.State

  -- The call `self._filter.check(...)`, without a time to live.
  abbrev pub message_of : GossipEnvelope → Message
  message_of e = record {
    sender_replica_id = e.sender_replica_id;
    nonce = some e.nonce;
    seq_no = some (int e.seq_no);
    timestamp_ms = some (int e.timestamp_ms);
    ttl_ms = none;
  }

  abbrev pub answer : s.Secret → Request → Option (RuntimeSession c) → Response
  answer secret r none = not_tracked
  answer secret r (some session) = reply (
      from_session s session host.replica_id r.reply_seq_no secret r.reply_nonce
        r.reply_timestamp_ms)

  abbrev pub concluded :
      s.Secret → Request → Filter → host.State × Result Bool → GossipServer × Response
  concluded secret r f (state, raise e) = (record { filter = f; state = state }, failed)
  concluded secret r f (state, ok applied) =
      (record { filter = f; state = state }, answer secret r (host.get_session state r.session_id))

  -- The session of the envelope goes to the adapter, where it can be read.
  abbrev pub received :
      s.Secret → Request → Filter → host.State → Result (RuntimeSession c) → GossipServer × Response
  received secret r f state (raise e) = (record { filter = f; state = state }, failed)
  received secret r f state (ok session) =
      concluded secret r f (host.apply_remote_session state session)

  abbrev pub filtered :
      s.Secret → Request → GossipEnvelope → GossipServer → Filter × Bool → GossipServer × Response
  filtered secret r e self (f, false) = (record self { filter = f }, rejected)
  filtered secret r e self (f, true) = received secret r f self.state (to_session s e)

  abbrev pub verified :
      s.Secret → Request → GossipEnvelope → GossipServer → Result Bool → GossipServer × Response
  verified secret r e self (raise error) = (self, failed)
  verified secret r e self (ok false) = (self, unauthorized)
  verified secret r e self (ok true) =
      filtered secret r e self (check self.filter (message_of e) r.now_ms)

  abbrev pub handle_envelope : s.Secret → GossipServer → Request → Body → GossipServer × Response
  handle_envelope secret self r malformed = (self, bad_request)
  handle_envelope secret self r unreadable = (self, failed)
  handle_envelope secret self r (envelope e) =
      if e.session_id == r.session_id
      then verified secret r e self (verify s e secret)
      else (self, bad_request)

  unfoldable pub handle_gossip : s.Secret → GossipServer → Request → GossipServer × Response
  handle_gossip secret self r = handle_envelope secret self r r.body
