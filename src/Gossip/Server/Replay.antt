-- ===== src/Gossip/Server/Replay.antt =====
-- What a run of requests to src/cks_runtime/gossip/http_transport.py hands to the adapter.
use cks_runtime.Prelude.{
  ℕ, String, List, [], ◌∷◌, Bool, true, false, Option, none, some, string_eq, ◌==◌, ◌≡◌, refl, sym,
  inl, inr, arith, Bool-cases, if◌then◌else◌,
}
use cks_runtime.Prelude.Int.{ℤ, int}
use mathlib.Core.Path.{subst}
use cks_runtime.Prelude.Text.{strip}
use cks_runtime.Core.{Core}
use cks_runtime.Result.{Result, ok, raise}
use cks_runtime.Session.{RuntimeSession}
use cks_runtime.Gossip.Filter.{Filter, init, check}
use cks_runtime.Gossip.Filter.Sequence.{Log, init-Tracks}
use cks_runtime.Gossip.Filter.Window.{Distinct, IsSound, check-IsSound, note_wire, seq_of}
use cks_runtime.Gossip.Envelope.{Signing, GossipEnvelope, verify, to_session}
use cks_runtime.Gossip.Server.{
  Host, Body, malformed, unreadable, envelope, Request, GossipServer, message_of, concluded,
  received, filtered, verified, handle_envelope, handle_gossip,
}

unnoted : (x : String) (seq : Option ℕ) (log : Log) → note_wire false x seq log ≡ log
unnoted x none log = refl
unnoted x (some seq) log = refl

module _ {c : Core} (s : Signing c) (host : Host c) where
  -- An envelope may go on to the adapter: its signature holds and the filter lets it pass.
  abbrev pub passes : Result Bool → Bool → Bool
  passes (raise e) fresh = false
  passes (ok false) fresh = false
  passes (ok true) fresh = fresh

  abbrev pub admits_envelope : s.Secret → GossipServer s host → Request → GossipEnvelope → Bool
  admits_envelope secret self r e =
      if e.session_id == r.session_id
      then passes (verify s e secret) (check self.filter (message_of s host e) r.now_ms).1
      else false

  abbrev pub admits_body : s.Secret → GossipServer s host → Request → Body → Bool
  admits_body secret self r malformed = false
  admits_body secret self r unreadable = false
  admits_body secret self r (envelope e) = admits_envelope secret self r e

  -- The request carries such an envelope, of the session that its address names.
  abbrev pub admitted : s.Secret → GossipServer s host → Request → Bool
  admitted secret self r = admits_body secret self r r.body

  abbrev pub note_envelope : Bool → Body → Log → Log
  note_envelope b malformed log = log
  note_envelope b unreadable log = log
  note_envelope b (envelope e) log =
      note_wire b (strip e.sender_replica_id) (seq_of (some (int e.seq_no))) log

  -- A run of the handler, with the senders and numbers of the envelopes that it admits.
  unfoldable pub serve :
      s.Secret → GossipServer s host → Log → List Request → GossipServer s host × Log
  serve secret self log [] = (self, log)
  serve secret self log (r ∷ requests) =
      serve secret (handle_gossip s host secret self r).0
        (note_envelope (admitted secret self r) r.body log) requests

  concluded-filter :
      (secret : s.Secret) (r : Request) (f : Filter) (outcome : host.State × Result Bool)
      → (concluded s host secret r f outcome).0.filter ≡ f
  concluded-filter secret r f (state, raise e) = refl
  concluded-filter secret r f (state, ok applied) = refl

  received-filter :
      (secret : s.Secret) (r : Request) (f : Filter) (state : host.State)
      (session : Result (RuntimeSession c))
      → (received s host secret r f state session).0.filter ≡ f
  received-filter secret r f state (raise e) = refl
  received-filter secret r f state (ok session) =
      concluded-filter secret r f (host.apply_remote_session state session)

  filtered-IsSound :
      (secret : s.Secret) (r : Request) (e : GossipEnvelope) (self : GossipServer s host)
      (log : Log) (checked : Filter × Bool)
      → IsSound checked.0 (note_envelope checked.1 (envelope e) log)
      → IsSound
          (filtered s host secret r e self checked).0.filter
          (note_envelope checked.1 (envelope e) log)
  filtered-IsSound secret r e self log (f, false) h = h
  filtered-IsSound secret r e self log (f, true) h =
      subst (λ g. IsSound g (note_envelope true (envelope e) log))
        (sym (received-filter secret r f self.state (to_session s e))) h

  verified-IsSound :
      (secret : s.Secret) (r : Request) (e : GossipEnvelope) (self : GossipServer s host)
      (log : Log) (result : Result Bool)
      → IsSound self.filter log
      → IsSound (verified s host secret r e self result).0.filter (
          note_envelope
            (passes result (check self.filter (message_of s host e) r.now_ms).1)
            (envelope e)
            log)
  verified-IsSound secret r e self log (raise error) h =
      subst (IsSound self.filter)
        (sym (unnoted (strip e.sender_replica_id) (seq_of (some (int e.seq_no))) log)) h
  verified-IsSound secret r e self log (ok false) h =
      subst (IsSound self.filter)
        (sym (unnoted (strip e.sender_replica_id) (seq_of (some (int e.seq_no))) log)) h
  verified-IsSound secret r e self log (ok true) h =
      filtered-IsSound secret r e self log (check self.filter (message_of s host e) r.now_ms)
        (check-IsSound self.filter log (message_of s host e) r.now_ms h)

  handle-IsSound :
      (secret : s.Secret) (r : Request) (self : GossipServer s host) (log : Log) (body : Body)
      → IsSound self.filter log
      → IsSound
          (handle_envelope s host secret self r body).0.filter
          (note_envelope (admits_body secret self r body) body log)
  handle-IsSound secret r self log malformed h = h
  handle-IsSound secret r self log unreadable h = h
  handle-IsSound secret r self log (envelope e) h =
      elim (Bool-cases (e.session_id == r.session_id)) [
        | inl same ↦ rw same (verified-IsSound secret r e self log (verify s e secret) h)
        | inr other ↦ rw other (
            subst (IsSound self.filter)
              (sym (unnoted (strip e.sender_replica_id) (seq_of (some (int e.seq_no))) log)) h)
      ]

  serve-IsSound :
      (secret : s.Secret) (self : GossipServer s host) (log : Log) (requests : List Request)
      → IsSound self.filter log
      → IsSound (serve secret self log requests).0.filter (serve secret self log requests).1
  unfolding serve handle_gossip
  serve-IsSound secret self log [] h = h
  serve-IsSound secret self log (r ∷ requests) h =
      serve-IsSound secret (handle_gossip s host secret self r).0
        (note_envelope (admitted secret self r) r.body log) requests
        (handle-IsSound secret r self log r.body h)

  filtered-state :
      (secret : s.Secret) (r : Request) (e : GossipEnvelope) (self : GossipServer s host)
      (checked : Filter × Bool)
      → checked.1 ≡ false
      → (filtered s host secret r e self checked).0.state ≡ self.state
  filtered-state secret r e self (f, false) h = refl
  filtered-state secret r e self (f, true) h = absurd (ground arith)

  verified-state :
      (secret : s.Secret) (r : Request) (e : GossipEnvelope) (self : GossipServer s host)
      (result : Result Bool)
      → passes result (check self.filter (message_of s host e) r.now_ms).1 ≡ false
      → (verified s host secret r e self result).0.state ≡ self.state
  verified-state secret r e self (raise error) h = refl
  verified-state secret r e self (ok false) h = refl
  verified-state secret r e self (ok true) h =
      filtered-state secret r e self (check self.filter (message_of s host e) r.now_ms) h

  handle-state :
      (secret : s.Secret) (r : Request) (self : GossipServer s host) (body : Body)
      → admits_body secret self r body ≡ false
      → (handle_envelope s host secret self r body).0.state ≡ self.state
  handle-state secret r self malformed h = refl
  handle-state secret r self unreadable h = refl
  handle-state secret r self (envelope e) h = elim (Bool-cases (e.session_id == r.session_id)) [
    | inl same ↦ rw same (verified-state secret r e self (verify s e secret) (rw same at h))
    | inr other ↦ rw other refl
  ]

  -- Whatever requests arrive, in whatever order and at whatever times, a server with a new filter
  -- lets no pair of a sender and a number through to the adapter twice, and a request that it does
  -- not admit (no envelope, one of another session than the address names, with a signature that does not
  -- hold, or one that the filter rejects) leaves the state behind the adapter as it was.
  pub serve-Distinct :
      (secret : s.Secret) (skew cache window : ℤ) (state : host.State) (requests : List Request)
      (r : Request)
      → let (self, log) =
          serve secret (record { filter = init skew cache window; state = state }) [] requests in
        Distinct log
        × (admitted secret self r ≡ false
            → (handle_gossip s host secret self r).0.state ≡ self.state)
  unfolding handle_gossip
  serve-Distinct secret skew cache window state requests r =
      let start : GossipServer s host = record { filter = init skew cache window; state = state } in
      (
        (serve-IsSound secret start [] requests
            (record { tracks = init-Tracks skew cache window; distinct = tt })).distinct,
        handle-state secret r (serve secret start [] requests).0 r.body,
      )
