-- ===== src/Gossip/Scheduling/Backoff.antt =====
-- Backoff, recovery and the choice of a peer.
use cks_runtime.Prelude.{
  ℕ, ◌+◌, ◌-◌, ◌*◌, ◌^◌, ◌≤◌, min, String, List, [], ◌∷◌, ◌≡◌, refl, ap, true, false, none, some,
  leb, ◌==◌, string_eq, ==_refl, if◌then◌else◌, arith, contains, ◌↔◌, length, ◌∙◌,
}
use mathlib.Core.Option.{some-injective}
use native.Mathlib.Nat.{one-le-pow, two-pow-succ}
use cks_runtime.Dict.{Dict, get, get_or, put, IsDict}
use cks_runtime.Dict.Laws.{get-put, get_or-put, get_or-set_default, put-IsDict, set_default-IsDict}
use cks_runtime.Gossip.Scheduling.{
  PeerStats, new_stats, PeerScheduler, record_success, backoff, record_failure, eligible,
  eligible_peers, choose_peer,
}

abbrev pub stats_of : PeerScheduler → String → PeerStats
stats_of s peer = get_or s.stats peer new_stats

-- The record that `record_failure` writes.
abbrev failed : PeerScheduler → PeerStats → ℕ → PeerStats
failed s stats now_ms = record stats {
  failures = stats.failures + 1;
  consecutive_failures = stats.consecutive_failures + 1;
  last_attempt_ms = some now_ms;
  backoff_until_ms = now_ms + backoff s.base_ms s.max_ms (stats.consecutive_failures + 1);
}

stats_of-record_failure :
    (s : PeerScheduler) (peer other : String) (now_ms : ℕ)
    → stats_of (record_failure s peer now_ms) other
      ≡ (if peer == other then failed s (stats_of s peer) now_ms else stats_of s other)
unfolding record_failure
stats_of-record_failure s peer other now_ms =
    rw (get_or-put, get_or-set_default s.stats peer other new_stats)

record_failure_self :
    (s : PeerScheduler) (peer : String) (now_ms : ℕ)
    → stats_of (record_failure s peer now_ms) peer ≡ failed s (stats_of s peer) now_ms
record_failure_self s peer now_ms =
    ground (arith, stats_of-record_failure s peer peer now_ms, ==_refl peer)

durations-record_failure :
    (s : PeerScheduler) (peer : String) (now_ms : ℕ)
    → ((record_failure s peer now_ms).base_ms ≡ s.base_ms)
      × ((record_failure s peer now_ms).max_ms ≡ s.max_ms)
unfolding record_failure
durations-record_failure s peer now_ms = (refl, refl)

backoff_bounds :
    (base_ms max_ms n : ℕ)
    → base_ms ≤ max_ms
    → (base_ms ≤ backoff base_ms max_ms n) × (backoff base_ms max_ms n ≤ max_ms)
unfolding backoff
backoff_bounds base_ms max_ms n h =
    let one : 1 ≤ 2 ^ (n - 1) = one-le-pow (n - 1) 2 (omega arith) in
    let grows : base_ms ≤ base_ms * 2 ^ (n - 1) = grind arith in (omega arith, omega arith)

-- One more failure doubles the backoff, up to the maximum.
pub backoff_doubles :
    (base_ms max_ms n : ℕ)
    → backoff base_ms max_ms (n + 2) ≡ min (2 * backoff base_ms max_ms (n + 1)) max_ms
unfolding backoff
backoff_doubles base_ms max_ms n =
    let p : 2 ^ (n + 2 - 1) ≡ 2 ^ n + 2 ^ n =
      ap (λ (k : ℕ). 2 ^ k) (omega arith) ∙ two-pow-succ n in
    let q : 2 ^ (n + 1 - 1) ≡ 2 ^ n = ap (λ (k : ℕ). 2 ^ k) (omega arith) in rw (p, q) (omega arith)

-- A failure starts a backoff from now: at least the base duration and at most the maximal one. The
-- other peers keep their records.
pub record_failure-backoff :
    (s : PeerScheduler) (peer other : String) (now_ms : ℕ)
    → s.base_ms ≤ s.max_ms
    → (now_ms + s.base_ms ≤ (stats_of (record_failure s peer now_ms) peer).backoff_until_ms)
      × ((stats_of (record_failure s peer now_ms) peer).backoff_until_ms ≤ now_ms + s.max_ms)
      × ((peer == other) ≡ false → stats_of (record_failure s peer now_ms) other ≡ stats_of s other)
record_failure-backoff s peer other now_ms h =
    let (low, high) =
      backoff_bounds s.base_ms s.max_ms ((stats_of s peer).consecutive_failures + 1) h in
    let e = record_failure_self s peer now_ms in
    (
      rw e (omega arith),
      rw e (omega arith),
      λ other_peer. stats_of-record_failure s peer other now_ms ∙ rw other_peer,
    )

-- Failures of one peer in a row, at the given times.
pub fail_all : PeerScheduler → String → List ℕ → PeerScheduler
fail_all s peer [] = s
fail_all s peer (t ∷ times) = fail_all (record_failure s peer t) peer times

failures-fail_all :
    (s : PeerScheduler) (peer : String) (times : List ℕ)
    → ((stats_of (fail_all s peer times) peer).consecutive_failures
        ≡ (stats_of s peer).consecutive_failures + length times)
      × ((fail_all s peer times).base_ms ≡ s.base_ms)
      × ((fail_all s peer times).max_ms ≡ s.max_ms)
unfolding fail_all
failures-fail_all s peer [] = omega arith
failures-fail_all s peer (t ∷ times) =
    let (n, b, m) = failures-fail_all (record_failure s peer t) peer times in
    let (b', m') = durations-record_failure s peer t in
    let c : (stats_of (record_failure s peer t) peer).consecutive_failures
        ≡ (stats_of s peer).consecutive_failures + 1 =
      ap (λ (r : PeerStats). r.consecutive_failures) (record_failure_self s peer t) in
    (omega arith, b ∙ b', m ∙ m')

-- A peer that failed at each of the given times and then once more is left alone for the
-- base duration times two to the power of the number of failures before the last in this row, or
-- for the maximal duration if that is less.
pub fail_all-backoff :
    (s : PeerScheduler) (peer : String) (times : List ℕ) (now_ms : ℕ)
    → (stats_of s peer).consecutive_failures ≡ 0
    → (stats_of (record_failure (fail_all s peer times) peer now_ms) peer).backoff_until_ms
      ≡ now_ms + min (s.base_ms * 2 ^ length times) s.max_ms
unfolding backoff
fail_all-backoff s peer times now_ms h =
    let (n, b, m) = failures-fail_all s peer times in
    let exponent : (stats_of (fail_all s peer times) peer).consecutive_failures + 1 - 1
        ≡ length times =
      omega arith in
    rw (record_failure_self (fail_all s peer times) peer now_ms, exponent, b, m)

get_cong : (d : Dict String PeerStats) (p q : String) → p ≡ q → get d p ≡ get d q
get_cong d p q e = ap (λ k. get d k) e

-- Exactly the known peers whose backoff is over are eligible.
pub contains-eligible :
    (d : Dict String PeerStats) (peer : String) (now_ms : ℕ)
    → IsDict d
    → contains (eligible d now_ms) peer
      ≡ (elim (get d peer) [ none ↦ false | some stats ↦ leb stats.backoff_until_ms now_ms ])
unfolding eligible get
contains-eligible [] peer now_ms h = refl
contains-eligible ((p, st) ∷ d) peer now_ms h =
    ground
      (arith, contains-eligible d peer now_ms h.1, string_eq.agrees_iff p peer, get_cong d p peer)

put-eligible :
    (d : Dict String PeerStats) (peer : String) (stats : PeerStats) (now_ms : ℕ)
    → IsDict d
    → stats.backoff_until_ms ≡ 0
    → contains (eligible (put d peer stats) now_ms) peer ≡ true
put-eligible d peer stats now_ms h e = ground (
  arith,
  contains-eligible (put d peer stats) peer now_ms (put-IsDict d peer stats h),
  get-put d peer peer stats,
  ==_refl peer,
)

-- A success makes the peer eligible at once, whatever happened before.
pub record_success-eligible :
    (s : PeerScheduler) (peer : String) (now_ms later : ℕ)
    → IsDict s.stats
    → contains (eligible_peers (record_success s peer now_ms) later) peer ≡ true
unfolding eligible_peers record_success
record_success-eligible s peer now_ms later h =
    put-eligible _ peer _ later (set_default-IsDict s.stats peer new_stats h) refl

-- If the random generator returns one of the candidates, the chosen peer is eligible, and no peer is
-- chosen only if none is eligible.
pub choose_peer-eligible :
    (choices : String → List String → List (ℕ × ℕ) → String)
    → ((p : String) (ps : List String) (ws : List (ℕ × ℕ))
        → contains (p ∷ ps) (choices p ps ws) ≡ true)
    → (s : PeerScheduler) (now_ms : ℕ)
    → ((peer : String)
        → choose_peer choices s now_ms ≡ some peer
        → contains (eligible_peers s now_ms) peer ≡ true)
      × ((choose_peer choices s now_ms ≡ none) ↔ (eligible_peers s now_ms ≡ []))
unfolding choose_peer
choose_peer-eligible choices member s now_ms = split (eligible_peers s now_ms) refl
  where
    split :
        (candidates : List String)
        → eligible_peers s now_ms ≡ candidates
        → ((peer : String)
            → choose_peer choices s now_ms ≡ some peer
            → contains (eligible_peers s now_ms) peer ≡ true)
          × ((choose_peer choices s now_ms ≡ none) ↔ (eligible_peers s now_ms ≡ []))
    split [] e = rw (e, choose_peer) (λ peer h. cc, (λ h. refl, λ h. refl))
    split (p ∷ ps) e =
        rw (e, choose_peer)
          (λ peer h. rw (← some-injective _ _ h) (member p ps _), (λ h. cc, λ h. cc))
