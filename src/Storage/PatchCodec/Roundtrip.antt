-- ===== src/Storage/PatchCodec/Roundtrip.antt =====
-- A patch that is written and read by src/cks_runtime/storage/patch_codec.py.
use cks_runtime.Prelude.{
  String, Option, none, some, sym, false, string_eq, List, [], ◌∷◌, true, ◌≡◌, refl, ap, ◌∙◌, All,
}
use cks_runtime.Result.{ok, ◌>>=◌}
use cks_runtime.Storage.PatchCodec.{
  Value, scalar, mapping, sequence, Entries, end, entry, Values, nil, cons, thaw, thaw_entries,
  thaw_values, Operator, add_object, add_relation, remove_object, remove_relation, unknown, Item,
  serialize_operator, serialize_operators, deserialize_operator, deserialize_operators,
}

-- A structure as the engine's objects hold it.
unfoldable mutual
  pub IsFrozen : Value → Type 0
  IsFrozen (scalar s) = Unit
  IsFrozen (mapping frozen entries) = (frozen ≡ true) × AllEntries entries
  IsFrozen (sequence frozen values) = (frozen ≡ true) × AllValues values

  pub AllEntries : Entries → Type 0
  AllEntries end = Unit
  AllEntries (entry k v entries) = IsFrozen v × AllEntries entries

  pub AllValues : Values → Type 0
  AllValues nil = Unit
  AllValues (cons v values) = IsFrozen v × AllValues values

-- An operator of one of the four classes, with a frozen structure.
abbrev pub IsKnown : Operator → Type 0
IsKnown (add_object identity structure) = IsFrozen structure
IsKnown (add_relation identity participants relation_type structure) = IsFrozen structure
IsKnown (remove_object object_id) = Unit
IsKnown (remove_relation relation_id) = Unit
IsKnown unknown = ⊥

-- What is left of a structure without the kinds of its mappings and sequences.
mutual
  pub data Bare : Type 0 where
    leaf : String → Bare
    fields : BareEntries → Bare
    elements : BareValues → Bare

  pub data BareEntries : Type 0 where
    none_left : BareEntries
    field : String → Bare → BareEntries → BareEntries

  pub data BareValues : Type 0 where
    empty : BareValues
    item_of : Bare → BareValues → BareValues

unfoldable mutual
  pub bare : Value → Bare
  bare (scalar s) = leaf s
  bare (mapping frozen entries) = fields (bare_entries entries)
  bare (sequence frozen values) = elements (bare_values values)

  pub bare_entries : Entries → BareEntries
  bare_entries end = none_left
  bare_entries (entry k v entries) = field k (bare v) (bare_entries entries)

  pub bare_values : Values → BareValues
  bare_values nil = empty
  bare_values (cons v values) = item_of (bare v) (bare_values values)

-- A JSON value: nothing in it is frozen, at any depth.
unfoldable mutual
  pub IsThawed : Value → Type 0
  IsThawed (scalar s) = Unit
  IsThawed (mapping frozen entries) = (frozen ≡ false) × ThawedEntries entries
  IsThawed (sequence frozen values) = (frozen ≡ false) × ThawedValues values

  pub ThawedEntries : Entries → Type 0
  ThawedEntries end = Unit
  ThawedEntries (entry k v entries) = IsThawed v × ThawedEntries entries

  pub ThawedValues : Values → Type 0
  ThawedValues nil = Unit
  ThawedValues (cons v values) = IsThawed v × ThawedValues values

-- What the engine documents of its constructors: of a JSON value they make a structure that is frozen
-- at every depth and has the same content.
pub record Freezes (freeze : Value → Value) : Type 0 where
  pub frozen : (v : Value) → IsThawed v → IsFrozen (freeze v)
  pub content : (v : Value) → IsThawed v → bare (freeze v) ≡ bare v

-- What the JSON text of an item needs.
abbrev pub IsJsonValue : Option Value → Type 0
IsJsonValue none = Unit
IsJsonValue (some v) = IsThawed v

abbrev pub IsJson : Item → Type 0
IsJson i = IsJsonValue i.structure

-- The frozen structure with a content.
unfoldable mutual
  frozen_of : Bare → Value
  frozen_of (leaf s) = scalar s
  frozen_of (fields entries) = mapping true (frozen_entries entries)
  frozen_of (elements values) = sequence true (frozen_values values)

  frozen_entries : BareEntries → Entries
  frozen_entries none_left = end
  frozen_entries (field k v entries) = entry k (frozen_of v) (frozen_entries entries)

  frozen_values : BareValues → Values
  frozen_values empty = nil
  frozen_values (item_of v values) = cons (frozen_of v) (frozen_values values)

-- A frozen structure is told by its content.
mutual
  unfolding bare IsFrozen frozen_of

  frozen_of-bare : (v : Value) → IsFrozen v → frozen_of (bare v) ≡ v
  frozen_of-bare (scalar s) h = refl
  frozen_of-bare (mapping frozen entries) h =
      ap (mapping true) (frozen_entries-bare entries h.1) ∙ ap (λ b. mapping b entries) (sym h.0)
  frozen_of-bare (sequence frozen values) h =
      ap (sequence true) (frozen_values-bare values h.1) ∙ ap (λ b. sequence b values) (sym h.0)

  frozen_entries-bare :
      (entries : Entries) → AllEntries entries → frozen_entries (bare_entries entries) ≡ entries
  frozen_entries-bare end h = refl
  frozen_entries-bare (entry k v entries) h =
      ap (λ w. entry k w (frozen_entries (bare_entries entries))) (frozen_of-bare v h.0)
      ∙ ap (entry k v) (frozen_entries-bare entries h.1)

  frozen_values-bare :
      (values : Values) → AllValues values → frozen_values (bare_values values) ≡ values
  frozen_values-bare nil h = refl
  frozen_values-bare (cons v values) h =
      ap (λ w. cons w (frozen_values (bare_values values))) (frozen_of-bare v h.0)
      ∙ ap (cons v) (frozen_values-bare values h.1)

mutual
  unfolding bare thaw

  bare-thaw : (v : Value) → bare (thaw v) ≡ bare v
  bare-thaw (scalar s) = refl
  bare-thaw (mapping frozen entries) = ap fields (bare-thaw_entries entries)
  bare-thaw (sequence frozen values) = ap elements (bare-thaw_values values)

  bare-thaw_entries :
      (entries : Entries) → bare_entries (thaw_entries entries) ≡ bare_entries entries
  bare-thaw_entries end = refl
  bare-thaw_entries (entry k v entries) =
      ap (λ w. field k w (bare_entries (thaw_entries entries))) (bare-thaw v)
      ∙ ap (field k (bare v)) (bare-thaw_entries entries)

  bare-thaw_values : (values : Values) → bare_values (thaw_values values) ≡ bare_values values
  bare-thaw_values nil = refl
  bare-thaw_values (cons v values) =
      ap (λ w. item_of w (bare_values (thaw_values values))) (bare-thaw v)
      ∙ ap (item_of (bare v)) (bare-thaw_values values)

-- Thawing leaves no wrapper at any depth, so that the value can be written as JSON.
mutual
  unfolding thaw IsThawed

  pub thaw-IsThawed : (v : Value) → IsThawed (thaw v)
  thaw-IsThawed (scalar s) = tt
  thaw-IsThawed (mapping frozen entries) = (refl, thaw_entries-ThawedEntries entries)
  thaw-IsThawed (sequence frozen values) = (refl, thaw_values-ThawedValues values)

  thaw_entries-ThawedEntries : (entries : Entries) → ThawedEntries (thaw_entries entries)
  thaw_entries-ThawedEntries end = tt
  thaw_entries-ThawedEntries (entry k v entries) =
      (thaw-IsThawed v, thaw_entries-ThawedEntries entries)

  thaw_values-ThawedValues : (values : Values) → ThawedValues (thaw_values values)
  thaw_values-ThawedValues nil = tt
  thaw_values-ThawedValues (cons v values) = (thaw-IsThawed v, thaw_values-ThawedValues values)

module _ (freeze : Value → Value) (freezing : Freezes freeze) where
  freezes : (v : Value) → IsFrozen v → freeze (thaw v) ≡ v
  freezes v h =
      sym (frozen_of-bare (freeze (thaw v)) (freezing.frozen (thaw v) (thaw-IsThawed v)))
      ∙ ap frozen_of (freezing.content (thaw v) (thaw-IsThawed v) ∙ bare-thaw v)
      ∙ frozen_of-bare v h

  operator-back :
      (op : Operator)
      → IsKnown op
      → (i : Item) × (serialize_operator op ≡ ok i)
        × IsJson i
        × (deserialize_operator freeze i ≡ ok op)
  unfolding serialize_operator deserialize_operator
  operator-back (add_object identity structure) h =
      (_, refl, thaw-IsThawed structure, ap (λ v. ok (add_object identity v)) (freezes structure h))
  operator-back (add_relation identity participants relation_type structure) h = (
    _,
    refl,
    thaw-IsThawed structure,
    ap (λ v. ok (add_relation identity participants relation_type v)) (freezes structure h),
  )
  operator-back (remove_object object_id) h = (_, refl, tt, refl)
  operator-back (remove_relation relation_id) h = (_, refl, tt, refl)
  operator-back unknown h = absurd h

  patch-back :
      (ops : List Operator)
      → All IsKnown ops
      → (items : List Item) × (serialize_operators ops ≡ ok items)
        × All IsJson items
        × (deserialize_operators freeze items ≡ ok ops)
  unfolding serialize_operators deserialize_operators
  patch-back [] h = ([], refl, tt, refl)
  patch-back (op ∷ ops) h =
      let (i, written, json, read) = operator-back op h.0 in
      let (items, all_written, all_json, all_read) = patch-back ops h.1 in
      (
        i ∷ items,
        ap (λ r. r >>= λ j. serialize_operators ops >>= λ js. ok (j ∷ js)) written
            ∙ ap (λ r. r >>= λ js. ok (i ∷ js)) all_written,
        (json, all_json),
        ap (λ r. r >>= λ o. deserialize_operators freeze items >>= λ os. ok (o ∷ os)) read
            ∙ ap (λ r. r >>= λ os. ok (op ∷ os)) all_read,
      )

  -- A patch that is serialized reads back as it was: where each operator is of one of the four
  -- classes, the structures of its objects and relations are frozen at every depth, and the engine's
  -- constructors freeze a JSON value at every depth and keep its content, serializing the patch
  -- succeeds, what it gives holds JSON values only, and deserializing that is the patch again.
  pub deserialize_operators-serialize_operators :
      (ops : List Operator)
      → All IsKnown ops
      → (items : List Item) × (serialize_operators ops ≡ ok items)
        × All IsJson items
        × (deserialize_operators freeze items ≡ ok ops)
  deserialize_operators-serialize_operators ops h = patch-back ops h
