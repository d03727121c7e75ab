-- ===== src/Events/Delivery.antt =====
-- Which handlers src/cks_runtime/events/event_bus.py calls.
use mathlib.Core.Path.{subst}
use cks_runtime.Prelude.{
  ℕ, zero, suc, ◌+◌, ◌<◌, String, string_eq, List, [], ◌∷◌, ◌++◌, true, none, some, Eq, ◌==◌,
  ==_refl, contains, get_elem?, length, if◌then◌else◌, ◌≡◌, refl, sym, ap, ◌∙◌, arith, if_true,
  ◌||◌, All, append_assoc, length-append,
}
use cks_runtime.Dict.{put}
use cks_runtime.Dict.Laws.{get_or-put}
use cks_runtime.Events.{
  EventBus, Behaviour, Delivered, handlers_of, accessed, remove_first, unsubscribe, called, deliver,
  take_next,
}

get_elem?-middle {ℓ} :
    {A : Type ℓ} (xs ys : List A) (y : A) → get_elem? (xs ++ y ∷ ys) (length xs) ≡ some y
get_elem?-middle [] ys y = refl
get_elem?-middle (x ∷ xs) ys y = get_elem?-middle xs ys y

get_elem?-end {ℓ} : {A : Type ℓ} (xs : List A) → get_elem? (xs ++ []) (length xs) ≡ none
get_elem?-end [] = refl
get_elem?-end (x ∷ xs) = get_elem?-end xs

module _ {Event Handler : Type 0} (run : Behaviour Event Handler) where
  -- A handler that returns and leaves the bus alone.
  abbrev pub IsQuiet : Event → Handler → Type 0
  IsQuiet event handler = (bus : EventBus Event Handler) → run handler event bus ≡ (bus, true)

  deliver-quiet :
      (event_type : String) (event : Event) (bus : EventBus Event Handler)
      (before rest : List Handler) (rounds : ℕ)
      → All (IsQuiet event) rest
      → handlers_of bus event_type ≡ before ++ rest
      → length rest < rounds
      → deliver run rounds event_type event (length before) bus ≡ (bus, rest, true)
  unfolding deliver
  deliver-quiet event_type event bus before rest zero quiet same enough =
      absurd (omega (arith, enough))
  deliver-quiet event_type event bus before [] (suc rounds) quiet same enough =
      ap
        (λ found.
          take_next run found event bus
            (λ after. deliver run rounds event_type event (1 + length before) after))
        (ap (λ handlers. get_elem? handlers (length before)) same ∙ get_elem?-end before)
  deliver-quiet event_type event bus before (h ∷ hs) (suc rounds) quiet same enough =
      let rest = λ (after : EventBus Event Handler).
        deliver run rounds event_type event (1 + length before) after in
      let later : deliver run rounds event_type event (1 + length before) bus ≡ (bus, hs, true) =
        subst (λ i. deliver run rounds event_type event i bus ≡ (bus, hs, true))
          (length-append before (h ∷ []) ∙ omega arith)
          (deliver-quiet event_type event bus (before ++ h ∷ []) hs rounds quiet.1
            (same ∙ sym (append_assoc before (h ∷ []) hs)) (omega (arith, enough))) in
      ap (λ found. take_next run found event bus rest)
        (ap (λ handlers. get_elem? handlers (length before)) same ∙ get_elem?-middle before hs h)
      ∙ ap (λ outcome. called run h outcome rest) (quiet.0 bus)
      ∙ ap (λ (d : Delivered Event Handler). (d.0, h ∷ d.1, d.2)) later

module _ {Event Handler : Type 0} ⦃e : Eq Handler⦄ (run : Behaviour Event Handler) where
  unsubscribe-head :
      (event_type : String) (bus : EventBus Event Handler) (h : Handler) (hs : List Handler)
      → handlers_of bus event_type ≡ h ∷ hs
      → handlers_of (unsubscribe event_type h bus) event_type ≡ hs
  unfolding unsubscribe remove_first
  unsubscribe-head event_type bus h hs same =
      let old = handlers_of bus event_type in
      let left : EventBus Event Handler = record bus {
        subscribers = put bus.subscribers event_type (remove_first h old);
      } in
      let there : contains old h ≡ true =
        ap (λ l. contains l h) same ∙ ap (λ b. b || contains hs h) (==_refl h) in
      ap (λ b. handlers_of (if b then left else accessed bus event_type) event_type) there
      ∙ get_or-put bus.subscribers event_type event_type (remove_first h old) []
      ∙ if_true (event_type == event_type) (remove_first h old) old (==_refl event_type)
      ∙ ap (remove_first h) same
      ∙ if_true (h == h) hs (h ∷ remove_first h hs) (==_refl h)

  -- A handler that unsubscribes itself while it is called makes the loop pass over the one behind it:
  -- of the handlers h, k and the quiet ones of the rest, k is not called.
  pub deliver-skips :
      (rounds : ℕ) (event_type : String) (event : Event) (bus : EventBus Event Handler)
      (h k : Handler) (rest : List Handler)
      → handlers_of bus event_type ≡ h ∷ k ∷ rest
      → run h event bus ≡ (unsubscribe event_type h bus, true)
      → All (IsQuiet run event) rest
      → length rest < rounds
      → deliver run (suc rounds) event_type event 0 bus
        ≡ (unsubscribe event_type h bus, h ∷ rest, true)
  unfolding deliver
  deliver-skips rounds event_type event bus h k rest same leaves quiet enough =
      let after = unsubscribe event_type h bus in
      let loop = λ (b : EventBus Event Handler). deliver run rounds event_type event 1 b in
      ap (λ handlers. take_next run (get_elem? handlers 0) event bus loop) same
      ∙ ap (λ outcome. called run h outcome loop) leaves
      ∙ ap (λ (d : Delivered Event Handler). (d.0, h ∷ d.1, d.2))
          (deliver-quiet run event_type event after (k ∷ []) rest rounds quiet
            (unsubscribe-head event_type bus h (k ∷ rest) same) enough)
