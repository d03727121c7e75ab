-- ===== src/Events/Tests.antt =====
-- Deliveries at concrete inputs.
use cks_runtime.Prelude.{ℕ, [], ◌∷◌, true, String, nat_eq, string_eq}
use cks_runtime.Events.{EventBus, Behaviour}

abbrev bus : EventBus String ℕ
bus = record {
  subscribers = ("VersionCreated", 1 ∷ 2 ∷ []) ∷ ("RuntimeEvent", 3 ∷ []) ∷ [];
  history = [];
}

abbrev quiet : Behaviour String ℕ
quiet handler event b = (b, true)
