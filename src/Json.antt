-- ===== src/Json.antt =====
-- The values of a session's metadata, which every storage backend keeps as JSON.
-- Numbers are the counts that the program writes; it reads no others.
use cks_runtime.Prelude.{ℕ, String, Bool}
use cks_runtime.Dict.{Dict}

mutual
  pub data Json : Type 0 where
    null : Json
    boolean : Bool → Json
    number : ℕ → Json
    text : String → Json
    array : Items → Json
    object : Fields → Json

  pub data Items : Type 0 where
    nil : Items
    cons : Json → Items → Items

  pub data Fields : Type 0 where
    end : Fields
    field : String → Json → Fields → Fields

abbrev pub Metadata : Type 0
Metadata = Dict String Json
