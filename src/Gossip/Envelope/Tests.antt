-- ===== src/Gossip/Envelope/Tests.antt =====
-- Envelopes at concrete inputs.
use cks_runtime.Prelude.{ℕ, List, [], ◌∷◌, String, ◌≡◌, refl, ap, none, some, true, false, arith}
use cks_runtime.Prelude.Int.{ℤ, pos, negsuc}
use cks_runtime.Result.{ok}
use cks_runtime.Session.{RuntimeSession}
use cks_runtime.Gossip.Envelope.{
  Signing, GossipEnvelope, signed_parts, from_session, to_session, verify,
}
use cks_runtime.Gossip.Envelope.Binding.{
  IsNumeral, SameFields, carried, join-signed_parts, verify-from_session,
}
use cks_runtime.Core.Small.{text_core, quoting, quoting-Exact}

abbrev digits : ℤ → List ℕ
digits (pos n) = 49 ∷ n ∷ []
digits (negsuc n) = 45 ∷ n ∷ []

abbrev signing : Signing text_core
signing = record {
  serialize = quoting.serialize;
  parse = λ t. some (quoting.parse t);
  dumps = λ metadata. 123 ∷ 125 ∷ [];
  str = digits;
  Secret = String;
  hexdigest = λ secret payload. "f00d";
}

abbrev session : RuntimeSession text_core
session = record {
  knowledge_structure = "state";
  session_id = "s";
  metadata = [];
  snapshot_interval = 5;
  diagnostics = "note" ∷ [];
  version_history = [];
  active_transaction = none;
  closed = false;
  parent_session_id = some "p";
  parent_version_id = none;
}

abbrev sent : GossipEnvelope
sent = from_session signing session "r1" (pos 7) "secret" "nonce" (pos 1000)

verify-from_session_example :
    let e = from_session signing session "r1" (pos 7) "secret" "nonce" (pos 1000) in
    (verify signing e "secret" ≡ ok true) × (to_session signing e ≡ ok (carried signing session))
verify-from_session_example =
    verify-from_session signing session "r1" (pos 7) "secret" "nonce" (pos 1000)
      (λ ks. ap some (quoting-Exact.parse-serialize ks)) (λ secret payload. (refl, refl))

-- The version of the format is no part of what is signed.
abbrev renumbered : GossipEnvelope
renumbered = record sent { version = "2.0" }

abbrev magnitude : ℤ → ℕ
magnitude (pos n) = n
magnitude (negsuc n) = n

abbrev sign_of : List ℕ → ℕ
sign_of [] = 0
sign_of (n ∷ ns) = n

abbrev rest_of : List ℕ → ℕ
rest_of (n ∷ m ∷ ns) = m
rest_of ns = 0

digits-IsNumeral : IsNumeral signing
digits-IsNumeral (pos n) (pos m) h = ap pos (ap rest_of h)
digits-IsNumeral (negsuc n) (negsuc m) h = ap negsuc (ap rest_of h)
digits-IsNumeral (pos n) (negsuc m) h = absurd (omega (arith, ap sign_of h))
digits-IsNumeral (negsuc n) (pos m) h = absurd (omega (arith, ap sign_of h))

join-signed_parts_example : SameFields signing sent renumbered
unfolding from_session signed_parts
join-signed_parts_example =
    join-signed_parts signing sent renumbered digits-IsNumeral (ground arith) (ground arith) refl
