-- ===== src/Storage/PatchCodec/Small.antt =====
-- A freezing of structures, as the engine does it (src/cks_runtime/storage/patch_codec.py thaws them).
use cks_runtime.Prelude.{true, ◌≡◌, refl, ap, ◌∙◌}
use cks_runtime.Storage.PatchCodec.{
  Value, scalar, mapping, sequence, Entries, end, entry, Values, nil, cons,
}
use cks_runtime.Storage.PatchCodec.Roundtrip.{
  IsFrozen, AllEntries, AllValues, Freezes, bare, bare_entries, bare_values, fields, field,
  elements, item_of,
}

-- `_freeze` of the engine on dictionaries and lists
mutual
  pub freeze : Value → Value
  freeze (scalar s) = scalar s
  freeze (mapping frozen entries) = mapping true (freeze_entries entries)
  freeze (sequence frozen values) = sequence true (freeze_values values)

  freeze_entries : Entries → Entries
  freeze_entries end = end
  freeze_entries (entry k v entries) = entry k (freeze v) (freeze_entries entries)

  freeze_values : Values → Values
  freeze_values nil = nil
  freeze_values (cons v values) = cons (freeze v) (freeze_values values)

mutual
  unfolding freeze IsFrozen

  freeze-IsFrozen : (v : Value) → IsFrozen (freeze v)
  freeze-IsFrozen (scalar s) = tt
  freeze-IsFrozen (mapping frozen entries) = (refl, freeze_entries-AllEntries entries)
  freeze-IsFrozen (sequence frozen values) = (refl, freeze_values-AllValues values)

  freeze_entries-AllEntries : (entries : Entries) → AllEntries (freeze_entries entries)
  freeze_entries-AllEntries end = tt
  freeze_entries-AllEntries (entry k v entries) =
      (freeze-IsFrozen v, freeze_entries-AllEntries entries)

  freeze_values-AllValues : (values : Values) → AllValues (freeze_values values)
  freeze_values-AllValues nil = tt
  freeze_values-AllValues (cons v values) = (freeze-IsFrozen v, freeze_values-AllValues values)

mutual
  unfolding freeze bare

  bare-freeze : (v : Value) → bare (freeze v) ≡ bare v
  bare-freeze (scalar s) = refl
  bare-freeze (mapping frozen entries) = ap fields (bare-freeze_entries entries)
  bare-freeze (sequence frozen values) = ap elements (bare-freeze_values values)

  bare-freeze_entries :
      (entries : Entries) → bare_entries (freeze_entries entries) ≡ bare_entries entries
  bare-freeze_entries end = refl
  bare-freeze_entries (entry k v entries) =
      ap (λ w. field k w (bare_entries (freeze_entries entries))) (bare-freeze v)
      ∙ ap (field k (bare v)) (bare-freeze_entries entries)

  bare-freeze_values : (values : Values) → bare_values (freeze_values values) ≡ bare_values values
  bare-freeze_values nil = refl
  bare-freeze_values (cons v values) =
      ap (λ w. item_of w (bare_values (freeze_values values))) (bare-freeze v)
      ∙ ap (item_of (bare v)) (bare-freeze_values values)

pub freeze-Freezes : Freezes freeze
freeze-Freezes = record { frozen = λ v h. freeze-IsFrozen v; content = λ v h. bare-freeze v }
