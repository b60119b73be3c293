-- ===== src/Json.antt =====
-- JSON values as Python keeps them: the content of events, the values of evidence and contexts. A
-- dict is the list of its fields in the order of insertion.
use soulmate.Prelude.{String, Bool}
use soulmate.Float.{ℤ, Float}

mutual
  pub data Json : Type 0 where
    null : Json
    bool : Bool → Json
    int : ℤ → Json
    real : Float → Json
    text : String → Json
    array : JsonItems → Json
    object : JsonFields → Json

  pub data JsonItems : Type 0 where
    no_items : JsonItems
    item : Json → JsonItems → JsonItems

  pub data JsonFields : Type 0 where
    no_fields : JsonFields
    field : String → Json → JsonFields → JsonFields
