-- ===== src/Gossip/Scheduling.antt =====
-- src/cks_runtime/gossip/scheduling.py: which peer is gossiped with next, and when a failing peer
-- is left alone. The two durations are whole numbers of milliseconds, where the program has floats
-- of seconds; `base_ms` is base_backoff_s * 1000 and `max_ms` is max_backoff_s * 1000. The weight of
-- a peer is the fraction that the program divides. The random choice is a parameter.
pub mod Backoff
use cks_runtime.Prelude.{
  ℕ, ◌+◌, ◌-◌, ◌*◌, ◌^◌, min, String, List, [], ◌∷◌, Bool, Option, none, some, ltb, leb, eqb,
  string_eq, if◌then◌else◌,
}
use cks_runtime.Dict.{Dict, get, get_or, put, remove, set_default, keys}

pub record PeerStats : Type 0 where
  pub successes : ℕ
  pub failures : ℕ
  pub consecutive_failures : ℕ
  pub last_attempt_ms : Option ℕ
  pub backoff_until_ms : ℕ

abbrev pub new_stats : PeerStats
new_stats = record {
  successes = 0;
  failures = 0;
  consecutive_failures = 0;
  last_attempt_ms = none;
  backoff_until_ms = 0;
}

-- Numerator and denominator.
unfoldable pub weight : PeerStats → ℕ × ℕ
weight self = (self.successes + 1, self.successes + self.failures + 2)

pub record PeerScheduler : Type 0 where
  pub stats : Dict String PeerStats
  pub base_ms : ℕ
  pub max_ms : ℕ

-- {peer: PeerStats() for peer in peers}
unfoldable pub fresh : List String → Dict String PeerStats → Dict String PeerStats
fresh [] d = d
fresh (peer ∷ peers) d = fresh peers (put d peer new_stats)

-- The constructor; `none` is its `ValueError`.
unfoldable pub init : List String → ℕ → ℕ → Option PeerScheduler
unfolding fresh
init peers base_ms max_ms =
    if eqb base_ms 0
    then none
    else if ltb max_ms base_ms
    then none
    else some (record { stats = fresh peers []; base_ms = base_ms; max_ms = max_ms })

abbrev pub peers : PeerScheduler → List String
peers self = keys self.stats

unfoldable pub add_peer : PeerScheduler → String → PeerScheduler
add_peer self peer = record self { stats = set_default self.stats peer new_stats }

unfoldable pub remove_peer : PeerScheduler → String → PeerScheduler
remove_peer self peer = record self { stats = remove self.stats peer }

-- The record of a peer; the caller goes on with the scheduler in which the peer is known.
unfoldable pub stats_for : PeerScheduler → String → PeerScheduler × PeerStats
unfolding add_peer
stats_for self peer = (add_peer self peer, get_or self.stats peer new_stats)

-- Writes through the object that `stats_for` returns.
abbrev pub set_stats : PeerScheduler → String → PeerStats → PeerScheduler
set_stats self peer stats = record self { stats = put self.stats peer stats }

unfoldable pub record_success : PeerScheduler → String → ℕ → PeerScheduler
unfolding stats_for
record_success self peer now_ms =
    let (self', stats) = stats_for self peer in
    set_stats self' peer (record stats {
      successes = stats.successes + 1;
      consecutive_failures = 0;
      backoff_until_ms = 0;
      last_attempt_ms = some now_ms;
    })

-- The backoff after a number of failures in a row.
unfoldable pub backoff : ℕ → ℕ → ℕ → ℕ
backoff base_ms max_ms consecutive_failures = min (base_ms * 2 ^ (consecutive_failures - 1)) max_ms

unfoldable pub record_failure : PeerScheduler → String → ℕ → PeerScheduler
unfolding stats_for backoff
record_failure self peer now_ms =
    let (self', stats) = stats_for self peer in
    set_stats self' peer (record stats {
      failures = stats.failures + 1;
      consecutive_failures = stats.consecutive_failures + 1;
      last_attempt_ms = some now_ms;
      backoff_until_ms = now_ms + backoff self.base_ms self.max_ms (stats.consecutive_failures + 1);
    })

-- The comprehension of `eligible_peers`.
unfoldable pub eligible : Dict String PeerStats → ℕ → List String
eligible [] now_ms = []
eligible ((peer, stats) ∷ items) now_ms =
    if leb stats.backoff_until_ms now_ms
    then peer ∷ eligible items now_ms
    else eligible items now_ms

unfoldable pub eligible_peers : PeerScheduler → ℕ → List String
unfolding eligible
eligible_peers self now_ms = eligible self.stats now_ms

abbrev pub weights : PeerScheduler → List String → List (ℕ × ℕ)
weights self [] = []
weights self (peer ∷ candidates) =
    weight (get_or self.stats peer new_stats) ∷ weights self candidates

-- `choices` stands for the random generator: it picks one of the candidates by their weights.
unfoldable pub choose_peer :
    (String → List String → List (ℕ × ℕ) → String) → PeerScheduler → ℕ → Option String
unfolding eligible_peers weight
choose_peer choices self now_ms = elim (eligible_peers self now_ms) [
  | [] ↦ none
  | peer ∷ candidates ↦ some (choices peer candidates (weights self (peer ∷ candidates)))
]
