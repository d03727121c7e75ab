-- ===== src/Gossip/Envelope/Binding.antt =====
-- What a signature of src/cks_runtime/gossip/envelope.py vouches for.
use Prim.Native.String.{String}
use text.Mathlib.TextEquality.{Char-path}
use cks_runtime.Prelude.{
  ℕ, zero, suc, Option, some, arith, List, [], ◌∷◌, ◌++◌, true, false, none, string_eq, ◌==◌,
  ==_refl, eqb, ◌≡◌, refl, sym, ap, ◌∙◌, All, if◌then◌else◌,
}
use cks_runtime.Prelude.Int.{ℤ}
use cks_runtime.Prelude.Text.{codes, is_ascii}
use cks_runtime.Core.{Core}
use cks_runtime.Result.{ok}
use cks_runtime.Session.{RuntimeSession}
use cks_runtime.Gossip.Envelope.{
  Signing, GossipEnvelope, signing_separator, join, signed_parts, sign, from_session, to_session,
  verify, compare_digest, or_empty, parsed,
}

-- A part without the separator.
abbrev pub IsClean : List ℕ → Type 0
IsClean part = All (λ n. eqb n signing_separator ≡ false) part

-- What reads a payload back.
abbrev glue : ℕ → List (List ℕ) → List (List ℕ)
glue n [] = (n ∷ []) ∷ []
glue n (part ∷ parts) = (n ∷ part) ∷ parts

split : List ℕ → List (List ℕ)
split [] = [] ∷ []
split (n ∷ ns) = let rest = split ns in if eqb n signing_separator then [] ∷ rest else glue n rest

abbrev head_or : ℕ → List ℕ → ℕ
head_or n [] = n
head_or n (m ∷ ms) = m

abbrev tail : List ℕ → List ℕ
tail [] = []
tail (m ∷ ms) = ms

split-clean : (part : List ℕ) → IsClean part → split part ≡ part ∷ []
unfolding split
split-clean [] h = refl
split-clean (n ∷ ns) h = rw (h.0, split-clean ns h.1) refl

split-append :
    (part rest : List ℕ)
    → IsClean part
    → split (part ++ signing_separator ∷ rest) ≡ part ∷ split rest
unfolding split
split-append [] rest h = refl
split-append (n ∷ ns) rest h = rw (h.0, split-append ns rest h.1) refl

split-join :
    (part : List ℕ) (parts : List (List ℕ))
    → IsClean part
    → All IsClean parts
    → split (join (part ∷ parts)) ≡ part ∷ parts
unfolding join
split-join part [] h k = split-clean part h
split-join part (next ∷ parts) h k =
    split-append part (join (next ∷ parts)) h ∙ ap (λ r. part ∷ r) (split-join next parts k.0 k.1)

-- The text with given code points is told by them.
codes_injective : (a b : String) → codes a ≡ codes b → a ≡ b
codes_injective String.[] String.[] h = refl
codes_injective String.[] (String.◌∷◌ d t) h = absurd (ground (arith, h))
codes_injective (String.◌∷◌ c r) String.[] h = absurd (ground (arith, h))
codes_injective (String.◌∷◌ c r) (String.◌∷◌ d t) h =
    ap (λ x. String.◌∷◌ x r) (Char-path c d (ap (head_or 0) h))
    ∙ ap (String.◌∷◌ d) (codes_injective r t (ap tail h))

-- x or "", as a text
abbrev pub text_or_empty : Option String → String
text_or_empty none = ""
text_or_empty (some x) = x

or_empty-codes : (a : Option String) → or_empty a ≡ codes (text_or_empty a)
or_empty-codes none = refl
or_empty-codes (some x) = refl

or_empty_injective :
    (a b : Option String) → or_empty a ≡ or_empty b → text_or_empty a ≡ text_or_empty b
or_empty_injective a b h =
    codes_injective (text_or_empty a) (text_or_empty b)
      (sym (or_empty-codes a) ∙ h ∙ or_empty-codes b)

-- A part of a payload by its number.
abbrev part : ℕ → List (List ℕ) → List ℕ
part n [] = []
part zero (p ∷ ps) = p
part (suc n) (p ∷ ps) = part n ps

digest-verified :
    (h : String)
    → is_ascii h ≡ true
    → h == "" ≡ false
    → (if h == "" then ok false else compare_digest h h) ≡ ok true
digest-verified h ascii nonempty = rw (nonempty, ascii, ==_refl h) refl

module _ {c : Core} (s : Signing c) where
  -- Two different numbers have different texts.
  abbrev pub IsNumeral : Type 0
  IsNumeral = (a b : ℤ) → s.str a ≡ s.str b → a ≡ b

  -- The nine fields that are signed.
  pub record SameFields (e d : GossipEnvelope) : Type 0 where
    pub sender_replica_id : e.sender_replica_id ≡ d.sender_replica_id
    pub session_id : e.session_id ≡ d.session_id
    pub structure : e.knowledge_structure_json ≡ d.knowledge_structure_json
    pub metadata : s.dumps e.metadata ≡ s.dumps d.metadata
    pub parent_session_id : text_or_empty e.parent_session_id ≡ text_or_empty d.parent_session_id
    pub parent_version_id : text_or_empty e.parent_version_id ≡ text_or_empty d.parent_version_id
    pub nonce : e.nonce ≡ d.nonce
    pub seq_no : e.seq_no ≡ d.seq_no
    pub timestamp_ms : e.timestamp_ms ≡ d.timestamp_ms

  same_parts :
      (e d : GossipEnvelope)
      → All IsClean (signed_parts s e)
      → All IsClean (signed_parts s d)
      → join (signed_parts s e) ≡ join (signed_parts s d)
      → signed_parts s e ≡ signed_parts s d
  unfolding signed_parts
  same_parts e d he hd same =
      sym (split-join (codes e.sender_replica_id) _ he.0 he.1)
      ∙ ap split same
      ∙ split-join (codes d.sender_replica_id) _ hd.0 hd.1

  same_fields :
      (e d : GossipEnvelope) → IsNumeral → signed_parts s e ≡ signed_parts s d → SameFields e d
  unfolding signed_parts
  same_fields e d numeral h =
      let at : (n : ℕ) → part n (signed_parts s e) ≡ part n (signed_parts s d) =
        λ n. ap (part n) h in
      record {
        sender_replica_id = codes_injective e.sender_replica_id d.sender_replica_id (at 0);
        session_id = codes_injective e.session_id d.session_id (at 1);
        structure = codes_injective e.knowledge_structure_json d.knowledge_structure_json (at 2);
        metadata = at 3;
        parent_session_id = or_empty_injective e.parent_session_id d.parent_session_id (at 4);
        parent_version_id = or_empty_injective e.parent_version_id d.parent_version_id (at 5);
        nonce = codes_injective e.nonce d.nonce (at 6);
        seq_no = numeral e.seq_no d.seq_no (at 7);
        timestamp_ms = numeral e.timestamp_ms d.timestamp_ms (at 8);
      }

  -- Where different numbers have different texts, and none of the signed texts holds the separator:
  -- two envelopes have the same payload for the signature only if all nine signed fields agree, the
  -- metadata in their JSON text with sorted keys, and the parents with a missing one taken for an
  -- empty one. So no text can be moved from one field to the next under a signature.
  pub join-signed_parts :
      (e d : GossipEnvelope)
      → IsNumeral
      → All IsClean (signed_parts s e)
      → All IsClean (signed_parts s d)
      → join (signed_parts s e) ≡ join (signed_parts s d)
      → SameFields e d
  join-signed_parts e d numeral he hd same = same_fields e d numeral (same_parts e d he hd same)

  -- What is promised of a digest: it is ASCII, and not empty.
  abbrev pub IsDigest : Type 0
  IsDigest =
      (secret : s.Secret) (payload : List ℕ)
      → (is_ascii (s.hexdigest secret payload) ≡ true) × (s.hexdigest secret payload == "" ≡ false)

  -- What is promised of the engine's text: it parses what it has serialized.
  abbrev pub IsReadable : Type 0
  IsReadable = (ks : c.Structure) → s.parse (s.serialize ks) ≡ some ks

  -- The session as it arrives.
  abbrev pub carried : RuntimeSession c → RuntimeSession c
  carried session = record session {
    snapshot_interval = 10;
    diagnostics = [];
    version_history = [];
    active_transaction = none;
    closed = false;
  }

  -- Where a digest is ASCII text and not empty, and the engine parses what it has serialized: an envelope
  -- that was made of a session passes the verification under the same secret, and the session that is
  -- read from it, without an error, has the structure, the id, the metadata and the parents of the one
  -- that was sent. The rest does not travel: the snapshot interval becomes 10, the history and the
  -- diagnostics are empty, and the session is open and without a transaction.
  pub verify-from_session :
      (session : RuntimeSession c) (sender_replica_id : String) (seq_no : ℤ) (secret : s.Secret)
      (nonce : String) (timestamp_ms : ℤ)
      → IsReadable
      → IsDigest
      → let e = from_session s session sender_replica_id seq_no secret nonce timestamp_ms in
        (verify s e secret ≡ ok true) × (to_session s e ≡ ok (carried session))
  unfolding verify from_session to_session sign signed_parts
  verify-from_session session sender_replica_id seq_no secret nonce timestamp_ms readable digest =
      let e = from_session s session sender_replica_id seq_no secret nonce timestamp_ms in
      let (ascii, nonempty) = digest secret (join (signed_parts s e)) in
      (
        digest-verified (sign s e secret) ascii nonempty,
        ap (parsed s e) (readable session.knowledge_structure),
      )
