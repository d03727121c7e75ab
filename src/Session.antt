-- ===== src/Session.antt =====
-- src/cks_runtime/session/session.py: a session, and the reconstruction of its versions.
-- Diagnostics are counted by nobody here and stay abstract texts; log lines are left out.
pub mod Replay
pub mod Reconstruct
use cks_runtime.Prelude.{
  ℕ, zero, suc, ◌+◌, ◌-◌, String, List, [], ◌∷◌, ◌++◌, Bool, true, false, Option, none, some, eqb,
  ◌==◌, string_eq, get_elem?, is_some, if◌then◌else◌,
}
use cks_runtime.Dict.{Dict, get, put, remove}
use cks_runtime.Json.{Metadata}
use cks_runtime.Core.{Core, Operator, add_object, remove_object, other, Patch, by_id}
use cks_runtime.Result.{
  Result, ok, raise, ◌>>=◌, unknown_version, no_core_bridge, no_snapshot, no_patch, hash_mismatch,
  core_failed, bad_snapshot_interval,
}
use cks_runtime.Versioning.Version.{RuntimeVersion, is_snapshot}

module _ (c : Core) where
  abbrev pub Existing : Type 0
  Existing = Dict String c.Object

  unfoldable pub has_add : Patch c → Bool
  has_add [] = false
  has_add (add_object obj ∷ ops) = true
  has_add (remove_object id ∷ ops) = has_add ops
  has_add (other x ∷ ops) = has_add ops

  -- The loop of `_dedupe_replayed_add_objects`. An object that exists is dropped, whether it is the
  -- same or not; the two cases differ in the warning.
  unfoldable pub dedupe_from : Existing → Patch c → Patch c
  dedupe_from existing [] = []
  dedupe_from existing (remove_object id ∷ ops) =
      remove_object id ∷ dedupe_from (remove existing id) ops
  dedupe_from existing (add_object obj ∷ ops) = elim (get existing (c.object_id obj)) [
    | some current ↦ dedupe_from existing ops
    | none ↦ add_object obj ∷ dedupe_from (put existing (c.object_id obj) obj) ops
  ]
  dedupe_from existing (other x ∷ ops) = other x ∷ dedupe_from existing ops

  unfoldable pub dedupe_replayed_add_objects : c.Structure → Patch c → Patch c
  dedupe_replayed_add_objects state patch =
      if has_add patch then dedupe_from (by_id c (c.objects state) []) patch else patch

pub record RuntimeSession (c : Core) : Type 0 where
  pub knowledge_structure : c.Structure
  pub session_id : String
  pub metadata : Metadata
  pub snapshot_interval : ℕ
  pub diagnostics : List String
  pub version_history : List (RuntimeVersion c)
  pub active_transaction : Option String
  pub closed : Bool
  pub parent_session_id : Option String
  pub parent_version_id : Option String

module _ {c : Core} where
  -- The dataclass constructor with its `__post_init__`, for the fields that callers give.
  unfoldable pub new_session :
      c.Structure
      → String
      → Metadata
      → ℕ
      → Option String
      → Option String
      → Result (RuntimeSession c)
  new_session knowledge_structure session_id metadata snapshot_interval parent_session_id
        parent_version_id =
      if eqb snapshot_interval 0
      then raise bad_snapshot_interval
      else ok (record {
        knowledge_structure = knowledge_structure;
        session_id = session_id;
        metadata = metadata;
        snapshot_interval = snapshot_interval;
        diagnostics = [];
        version_history = [];
        active_transaction = none;
        closed = false;
        parent_session_id = parent_session_id;
        parent_version_id = parent_version_id;
      })

  abbrev pub has_active_transaction : RuntimeSession c → Bool
  has_active_transaction self = elim self.active_transaction [ none ↦ false | some _ ↦ true ]

  abbrev pub add_version : RuntimeSession c → RuntimeVersion c → RuntimeSession c
  add_version self version = record self { version_history = self.version_history ++ version ∷ [] }

  abbrev pub close : RuntimeSession c → RuntimeSession c
  close self = record self { closed = true }

  -- The loop of `_version_index`; `none` is its `ValueError`.
  unfoldable pub version_index : List (RuntimeVersion c) → String → Option ℕ
  version_index [] version_id = none
  version_index (version ∷ versions) version_id =
      if version.version_id == version_id
      then some 0
      else (elim (version_index versions version_id) [ none ↦ none | some i ↦ some (suc i) ])

  -- `verify_checkpoint`, with a bridge where `with_core` is true.
  unfoldable pub verify_checkpoint : Bool → RuntimeVersion c → c.Structure → Result (Unit {0})
  verify_checkpoint false version structure = ok tt
  verify_checkpoint true version structure = elim version.state_hash [
    | none ↦ ok tt
    | some expected ↦ (elim (c.hash structure) [
      | none ↦ ok tt
      | some actual ↦ if actual == expected then ok tt else raise hash_mismatch
    ])
  ]

  abbrev pub snapshot_at : List (RuntimeVersion c) → ℕ → Option c.Structure
  snapshot_at history i = elim (get_elem? history i) [
    | none ↦ none
    | some version ↦ version.knowledge_structure
  ]

  -- The `while` loop back to the nearest snapshot; `none` is its `ValueError`.
  unfoldable pub walk_back : List (RuntimeVersion c) → ℕ → Option ℕ
  walk_back history zero = if is_some (snapshot_at history 0) then some 0 else none
  walk_back history (suc i) =
      let earlier = walk_back history i in
      if is_some (snapshot_at history (suc i)) then some (suc i) else earlier

  -- One round of the loop that replays patches.
  unfoldable pub replay_version : c.Structure → RuntimeVersion c → Result c.Structure
  replay_version state version = elim version.patch [
    | none ↦ raise no_patch
    | some patch ↦ (elim (c.evolve state (dedupe_replayed_add_objects c state patch)) [
      | none ↦ raise core_failed
      | some state' ↦ verify_checkpoint true version state' >>= λ _. ok state'
    ])
  ]

  abbrev pub replay_at : List (RuntimeVersion c) → ℕ → c.Structure → Result c.Structure
  replay_at history i state = elim (get_elem? history i) [
    | none ↦ raise unknown_version
    | some version ↦ replay_version state version
  ]

  -- for i in range(first, first + rounds)
  unfoldable pub replay : List (RuntimeVersion c) → ℕ → ℕ → c.Structure → Result c.Structure
  replay history first zero state = ok state
  replay history first (suc rounds) state =
      replay history first rounds state >>= replay_at history (first + rounds)

  unfoldable pub replay_from_snapshot : List (RuntimeVersion c) → ℕ → ℕ → Result c.Structure
  replay_from_snapshot history snapshot_index index = elim (get_elem? history snapshot_index) [
    | none ↦ raise unknown_version
    | some version ↦ (elim version.knowledge_structure [
      | none ↦ raise no_snapshot
      | some state ↦ verify_checkpoint true version state >>= λ _.
          replay history (snapshot_index + 1) (index - snapshot_index) state
    ])
  ]

  unfoldable pub state_at : List (RuntimeVersion c) → ℕ → Bool → Result c.Structure
  state_at history index with_core = elim (get_elem? history index) [
    | none ↦ raise unknown_version
    | some target ↦ (elim target.knowledge_structure [
      | some state ↦ verify_checkpoint with_core target state >>= λ _. ok state
      | none ↦
          if with_core
          then (elim (walk_back history index) [
            | none ↦ raise no_snapshot
            | some snapshot_index ↦ replay_from_snapshot history snapshot_index index
          ])
          else raise no_core_bridge
    ])
  ]

  unfoldable pub get_version_state : RuntimeSession c → String → Bool → Result c.Structure
  get_version_state self version_id with_core =
      elim (version_index self.version_history version_id) [
        | none ↦ raise unknown_version
        | some index ↦ state_at self.version_history index with_core
      ]
