-- ===== src/Json.antt =====
-- JSON values as `JSON.parse` gives them. Numbers keep the decimal literal that JSON writes.
use agent_os_test.Prelude.{Bool, Text}

abbrev pub Number : Type 0
Number = Text

mutual
  pub data Value : Type 0 where
    null : Value
    bool : Bool → Value
    num : Number → Value
    str : Text → Value
    arr : Items → Value
    obj : Fields → Value

  pub data Items : Type 0 where
    nil : Items
    cons : Value → Items → Items

  pub data Fields : Type 0 where
    end : Fields
    field : Text → Value → Fields → Fields
