-- ===== src/Gossip/Filter.antt =====
-- src/cks_runtime/gossip/filter.py: replay, order and clock-skew protection for incoming envelopes.
-- The clock is read once per call and is the argument `now_ms`. An ordered dictionary from keys to
-- `None` is the list of its keys. Log lines are left out.
pub mod Sequence
pub mod Window
use cks_runtime.Prelude.{
  ℕ, ◌+◌, ◌-◌, max, String, List, [], ◌∷◌, ◌++◌, Bool, true, false, Option, none, some, ltb, leb,
  not, length, select, contains, ◌==◌, string_eq, nat_eq, if◌then◌else◌,
}
use cks_runtime.Prelude.Text.{strip}
use cks_runtime.Prelude.Int.{ℤ, pos, negsuc, Wire, int, malformed}
use cks_runtime.Dict.{Dict, get, get_or, put, remove, set_default, values}

pub record Filter : Type 0 where
  pub max_clock_skew_ms : ℕ
  pub max_nonce_cache : ℕ
  pub max_seq_reorder_window : ℕ
  pub seen_nonces : Dict String (List String)
  pub last_seq : Dict String ℕ
  pub seen_seq : Dict String (List ℕ)

-- max(low, z)
abbrev pub at_least : ℕ → ℤ → ℕ
at_least low (pos n) = max low n
at_least low (negsuc n) = low

unfoldable pub init : ℤ → ℤ → ℤ → Filter
init max_clock_skew_ms max_nonce_cache max_seq_reorder_window = record {
  max_clock_skew_ms = at_least 0 max_clock_skew_ms;
  max_nonce_cache = at_least 1 max_nonce_cache;
  max_seq_reorder_window = at_least 1 max_seq_reorder_window;
  seen_nonces = [];
  last_seq = [];
  seen_seq = [];
}

-- abs(now_ms - ts)
unfoldable pub skew : ℕ → ℤ → ℕ
skew now_ms (pos ts) = (now_ms - ts) + (ts - now_ms)
skew now_ms (negsuc n) = now_ms + n + 1

-- now_ms > ts + ttl, for a `ttl` that is not negative
unfoldable pub is_expired : ℕ → ℤ → ℕ → Bool
is_expired now_ms (pos ts) ttl = ltb (ts + ttl) now_ms
is_expired now_ms (negsuc n) ttl = ltb ttl (now_ms + n + 1)

unfoldable pub check_ttl : ℕ → ℤ → Option Wire → Bool
unfolding is_expired
check_ttl now_ms ts none = true
check_ttl now_ms ts (some malformed) = false
check_ttl now_ms ts (some (int (negsuc n))) = false
check_ttl now_ms ts (some (int (pos ttl))) = not (is_expired now_ms ts ttl)

unfoldable pub check_timestamp : Filter → Wire → Option Wire → ℕ → Bool
unfolding skew check_ttl
check_timestamp self malformed ttl_ms now_ms = false
check_timestamp self (int ts) ttl_ms now_ms =
    if ltb self.max_clock_skew_ms (skew now_ms ts) then false else check_ttl now_ms ts ttl_ms

-- `while len(seen) > max_nonce_cache: seen.popitem(last=False)`
unfoldable pub evict : ℕ → List String → List String
evict cap [] = []
evict cap (nonce ∷ seen) = if ltb cap (length (nonce ∷ seen)) then evict cap seen else nonce ∷ seen

unfoldable pub check_nonce : Filter → String → String → Filter × Bool
unfolding evict
check_nonce self sender nonce =
    let clean_nonce = strip nonce in
    if clean_nonce == ""
    then (self, false)
    else let nonces = set_default self.seen_nonces sender [] in
      let seen = get_or nonces sender [] in
      if contains seen clean_nonce then (record self { seen_nonces = nonces }, false) else (
        record self {
          seen_nonces = put nonces sender (evict self.max_nonce_cache (seen ++ clean_nonce ∷ []));
        },
        true,
      )

-- seq <= last_seq - max_seq_reorder_window, where a sender that was never seen has last_seq = -1
abbrev pub too_old : ℕ → Option ℕ → ℕ → Bool
too_old window none seq = false
too_old window (some last) seq = leb (seq + window) last

-- seq > last_seq
abbrev pub is_newer : Option ℕ → ℕ → Bool
is_newer none seq = true
is_newer (some last) seq = ltb last seq

-- The clean-up at the end of `_check_sequence`: what is at or below the new floor goes.
unfoldable pub prune : ℕ → ℕ → List ℕ → List ℕ
prune window high_water = select (λ seq. not (leb (seq + window) high_water))

unfoldable pub check_sequence : Filter → String → Wire → Filter × Bool
unfolding prune
check_sequence self sender malformed = (self, false)
check_sequence self sender (int (negsuc n)) = (self, false)
check_sequence self sender (int (pos seq)) =
    let last = get self.last_seq sender in
    let window = self.max_seq_reorder_window in
    if too_old window last seq
    then (self, false)
    else let sets = set_default self.seen_seq sender [] in
      let seen = get_or sets sender [] in
      if contains seen seq
      then (record self { seen_seq = sets }, false)
      else let lasts = if is_newer last seq then put self.last_seq sender seq else self.last_seq in
        (
          record self {
            last_seq = lasts;
            seen_seq = put sets sender (prune window (get_or lasts sender 0) (seen ++ seq ∷ []));
          },
          true,
        )

-- What `check` is given. A sender or a nonce that is missing or empty is the empty text.
pub record Message : Type 0 where
  pub sender_replica_id : String
  pub nonce : Option String
  pub seq_no : Option Wire
  pub timestamp_ms : Option Wire
  pub ttl_ms : Option Wire

unfoldable pub timestamp_passes : Filter → Message → ℕ → Bool
unfolding check_timestamp
timestamp_passes self m now_ms = elim m.timestamp_ms [
  | none ↦ true
  | some ts ↦ check_timestamp self ts m.ttl_ms now_ms
]

unfoldable pub nonce_step : Filter → String → Option String → Filter × Bool
unfolding check_nonce
nonce_step self sender none = (self, true)
nonce_step self sender (some nonce) = check_nonce self sender nonce

unfoldable pub sequence_step : Filter → String → Option Wire → Filter × Bool
unfolding check_sequence
sequence_step self sender none = (self, true)
sequence_step self sender (some seq_no) = check_sequence self sender seq_no

unfoldable pub check : Filter → Message → ℕ → Filter × Bool
unfolding timestamp_passes nonce_step sequence_step
check self m now_ms =
    let sender = strip m.sender_replica_id in
    if sender == ""
    then (self, false)
    else if timestamp_passes self m now_ms
    then (let (after_nonce, fresh) = nonce_step self sender m.nonce in
        if fresh then sequence_step after_nonce sender m.seq_no else (after_nonce, false))
    else (self, false)

unfoldable pub reset : Filter → String → Filter
reset self sender_replica_id =
    let sender = strip sender_replica_id in
    if sender == "" then self else record self {
      seen_nonces = remove self.seen_nonces sender;
      last_seq = remove self.last_seq sender;
      seen_seq = remove self.seen_seq sender;
    }

unfoldable pub clear : Filter → Filter
clear self = record self { seen_nonces = []; last_seq = []; seen_seq = [] }

abbrev pub total_length : List (List String) → ℕ
total_length [] = 0
total_length (items ∷ rest) = length items + total_length rest

-- `stats`: senders with nonces, senders with sequences, and the number of cached nonces. The other
-- three entries are fields of the filter.
unfoldable pub stats : Filter → ℕ × ℕ × ℕ
stats self = (length self.seen_nonces, length self.last_seq, total_length (values self.seen_nonces))
