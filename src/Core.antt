-- ===== src/Core.antt =====
-- The semantic engine behind `CoreBridge`. It is a package of its own (cks-core), so its types and
-- functions are parameters, and so is what the code relies on.
pub mod Small
use cks_runtime.Prelude.{String, List, [], ◌∷◌, ◌≡◌, Option, none, some, string_eq, ◌==◌, false}
use cks_runtime.Dict.{Dict, get, put, remove}

-- The operators of a patch; `other` stands for those on relations.
pub data Operator (Object Other : Type 0) : Type 0 where
  add_object : Object → Operator Object Other
  remove_object : String → Operator Object Other
  other : Other → Operator Object Other

pub record Core : Type 1 where
  pub Structure : Type 0
  pub Object : Type 0
  pub Other : Type 0
  pub object_id : Object → String
  pub objects : Structure → List Object
  -- `none` where the engine raises
  pub evolve : Structure → List (Operator Object Other) → Option Structure
  pub diff : Structure → Structure → List (Operator Object Other)
  -- `none` where the engine cannot hash
  pub hash : Structure → Option String

abbrev pub Patch : Core → Type 0
Patch c = List (Operator c.Object c.Other)

-- {obj.identity.id: obj for obj in objects}
abbrev pub by_id : (c : Core) → List c.Object → Dict String c.Object → Dict String c.Object
by_id c [] d = d
by_id c (obj ∷ objs) d = by_id c objs (put d (c.object_id obj) obj)

-- Every object that the patch adds is new where it is added.
abbrev pub AddsNew : (c : Core) → Dict String c.Object → Patch c → Type 0
AddsNew c existing [] = Unit
AddsNew c existing (add_object obj ∷ ops) =
    (get existing (c.object_id obj) ≡ none) × AddsNew c (put existing (c.object_id obj) obj) ops
AddsNew c existing (remove_object id ∷ ops) = AddsNew c (remove existing id) ops
AddsNew c existing (other x ∷ ops) = AddsNew c existing ops

-- What the documentation of the engine promises of `diff` and `evolve`: the difference of two
-- structures takes the one to the other, and an object that it replaces is removed before it is added.
pub record Faithful (c : Core) : Type 0 where
  pub evolve-diff : (a b : c.Structure) → c.evolve a (c.diff a b) ≡ some b
  pub diff-AddsNew : (a b : c.Structure) → AddsNew c (by_id c (c.objects a) []) (c.diff a b)

-- `cks.serialize` and `cks.parse`. The texts that are parsed come from the first, so the second does
-- not refuse them.
pub record Codec (c : Core) : Type 0 where
  pub serialize : c.Structure → String
  pub parse : String → c.Structure

-- What the documentation of the engine promises of its text.
pub record Exact {c : Core} (codec : Codec c) : Type 0 where
  pub parse-serialize : (ks : c.Structure) → codec.parse (codec.serialize ks) ≡ ks
  pub serialize_nonempty : (ks : c.Structure) → codec.serialize ks == "" ≡ false
