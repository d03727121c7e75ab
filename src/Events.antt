-- ===== src/Events.antt =====
-- src/cks_runtime/events/event_bus.py: subscriptions and the delivery of events. Types of events are
-- their names. A handler may use the bus, so a call of it gives the bus afterwards, and `false`
-- where it raises; the handlers that were called stand beside the bus in their order.
mod Delivery
mod Tests
use cks_runtime.Prelude.{
  ℕ, zero, suc, ◌+◌, String, string_eq, List, [], ◌∷◌, ◌++◌, Bool, true, false, Option, none, some,
  Eq, ◌==◌, not, contains, get_elem?, length, if◌then◌else◌,
}
use cks_runtime.Dict.{Dict, get_or, put, set_default}

pub record EventBus (Event Handler : Type 0) : Type 0 where
  pub subscribers : Dict String (List Handler)
  pub history : List Event

-- What a handler does.
abbrev pub Behaviour : (Event Handler : Type 0) → Type 0
Behaviour Event Handler = Handler → Event → EventBus Event Handler → EventBus Event Handler × Bool

-- The type of the base class.
abbrev pub runtime_event : String
runtime_event = "RuntimeEvent"

module _ {Event Handler : Type 0} where
  -- self._subscribers[event_type]
  abbrev pub handlers_of : EventBus Event Handler → String → List Handler
  handlers_of bus event_type = get_or bus.subscribers event_type []

  -- The default that such an access puts there.
  abbrev pub accessed : EventBus Event Handler → String → EventBus Event Handler
  accessed bus event_type = record bus { subscribers = set_default bus.subscribers event_type [] }

module _ {Handler : Type 0} ⦃e : Eq Handler⦄ where
  -- list.remove
  unfoldable pub remove_first : Handler → List Handler → List Handler
  remove_first handler [] = []
  remove_first handler (h ∷ hs) = if h == handler then hs else h ∷ remove_first handler hs

module _ {Event Handler : Type 0} ⦃e : Eq Handler⦄ where
  unfoldable pub subscribe : String → Handler → EventBus Event Handler → EventBus Event Handler
  subscribe event_type handler bus =
      if contains (handlers_of bus event_type) handler then bus else record bus {
        subscribers = put bus.subscribers event_type (handlers_of bus event_type ++ handler ∷ []);
      }

  unfoldable pub unsubscribe : String → Handler → EventBus Event Handler → EventBus Event Handler
  unsubscribe event_type handler bus =
      if contains (handlers_of bus event_type) handler
      then record bus {
        subscribers =
            put bus.subscribers event_type (remove_first handler (handlers_of bus event_type));
      }
      else accessed bus event_type

-- The bus, the handlers that were called, and whether the loop came to its end.
abbrev pub Delivered : (Event Handler : Type 0) → Type 0
Delivered Event Handler = EventBus Event Handler × List Handler × Bool

module _ {Event Handler : Type 0} (run : Behaviour Event Handler) where
  -- A call of a handler, and the rest of the loop where it returned.
  abbrev pub called :
      Handler
      → EventBus Event Handler × Bool
      → (EventBus Event Handler → Delivered Event Handler)
      → Delivered Event Handler
  called handler (bus, false) rest = (bus, handler ∷ [], false)
  called handler (bus, true) rest =
      let (after, handlers, done) = rest bus in (after, handler ∷ handlers, done)

  abbrev pub take_next :
      Option Handler
      → Event
      → EventBus Event Handler
      → (EventBus Event Handler → Delivered Event Handler)
      → Delivered Event Handler
  take_next none event bus rest = (bus, [], true)
  take_next (some handler) event bus rest = called handler (run handler event bus) rest

  -- The loop over the list of the bus, which the handlers may change while it runs: it takes the
  -- element at the next index, until there is none. The rounds bound it.
  unfoldable pub deliver : ℕ → String → Event → ℕ → EventBus Event Handler → Delivered Event Handler
  deliver zero event_type event i bus = (bus, [], false)
  deliver (suc rounds) event_type event i bus =
      take_next (get_elem? (handlers_of bus event_type) i) event bus
        (λ after. deliver rounds event_type event (1 + i) after)

  -- The second loop, where the first came to its end.
  abbrev pub and_then :
      Delivered Event Handler
      → (EventBus Event Handler → Delivered Event Handler)
      → Delivered Event Handler
  and_then (bus, handlers, false) rest = (bus, handlers, false)
  and_then (bus, handlers, true) rest =
      let (after, more, done) = rest bus in (after, handlers ++ more, done)

  -- What follows the first loop: the test of the class of the event, and the second loop.
  abbrev pub deliver_global :
      (Event → Bool) → ℕ → Event → EventBus Event Handler → Delivered Event Handler
  deliver_global is_runtime_event rounds event bus =
      if not (is_runtime_event event)
      then (bus, [], true)
      else deliver rounds runtime_event event 0 (accessed bus runtime_event)

  -- `is_runtime_event` stands for isinstance(event, RuntimeEvent).
  unfoldable pub publish :
      (is_runtime_event : Event → Bool)
      → ℕ
      → String
      → Event
      → EventBus Event Handler
      → Delivered Event Handler
  publish is_runtime_event rounds event_type event bus =
      let noted = accessed (record bus { history = bus.history ++ event ∷ [] }) event_type in
      and_then (deliver rounds event_type event 0 noted)
        (λ after. deliver_global is_runtime_event rounds event after)

module _ {Event Handler : Type 0} where
  unfoldable pub history_of : EventBus Event Handler → List Event
  history_of bus = bus.history

  unfoldable pub clear : EventBus Event Handler → EventBus Event Handler
  clear bus = record bus { history = [] }

  unfoldable pub subscribers_of :
      EventBus Event Handler → String → EventBus Event Handler × List Handler
  subscribers_of bus event_type = (accessed bus event_type, handlers_of bus event_type)

  abbrev pub event_count : EventBus Event Handler → ℕ
  event_count bus = length bus.history
