-- ===== src/Core/Small.antt =====
-- Small engines for runs at concrete inputs. In the first, a structure is the list of its object ids, and a patch
-- replaces it as a whole.
use Prim.Native.String.{String}
use cks_runtime.Prelude.{
  Bool, true, false, Bool-cases, false≢true, ap, inl, inr, ◌==◌, ◌≡◌, refl, string_eq, List, [],
  ◌∷◌, ◌++◌, Option, none, some,
}
use cks_runtime.Core.{Core, Codec, Exact, Operator, add_object, remove_object, other}

abbrev pub run_patch : List String → List (Operator String (List String)) → Option (List String)
run_patch s [] = some s
run_patch s (add_object id ∷ ops) = run_patch (s ++ id ∷ []) ops
run_patch s (remove_object id ∷ ops) = run_patch s ops
run_patch s (other t ∷ ops) = run_patch t ops

abbrev pub first_id : List String → Option String
first_id [] = none
first_id (id ∷ ids) = some id

abbrev pub small_core : Core
small_core = record {
  Structure = List String;
  Object = String;
  Other = List String;
  object_id = λ id. id;
  objects = λ s. s;
  evolve = run_patch;
  diff = λ a b. other b ∷ [];
  hash = first_id;
}

-- An engine whose structures are texts, with a text form that is never empty.
abbrev pub text_core : Core
text_core = record {
  Structure = String;
  Object = String;
  Other = String;
  object_id = λ id. id;
  objects = λ s. s ∷ [];
  evolve = λ s p. some s;
  diff = λ a b. [];
  hash = λ s. some s;
}

abbrev pub quote : String → String
quote s = String.◌∷◌ "." s

abbrev pub unquote : String → String
unquote String.[] = String.[]
unquote (String.◌∷◌ c s) = s

abbrev pub quoting : Codec text_core
quoting = record { serialize = quote; parse = unquote }

abbrev pub is_empty : String → Bool
is_empty String.[] = true
is_empty (String.◌∷◌ c s) = false

quote_nonempty : (s : String) → quote s == "" ≡ false
quote_nonempty s = elim (Bool-cases (quote s == "")) [
  | inl e ↦ absurd (false≢true (ap is_empty ((string_eq.agrees_iff (quote s) "").0 e)))
  | inr e ↦ e
]

pub quoting-Exact : Exact quoting
quoting-Exact = record { parse-serialize = λ s. refl; serialize_nonempty = quote_nonempty }
