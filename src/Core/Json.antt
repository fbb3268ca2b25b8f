-- ===== src/Core/Json.antt =====
-- A value of unknown type, as `JSON.stringify` and a `jsonb` column see it.
use mathlib.Core.Bool.{Bool}
use haikit.Prelude.Strings.{Text}

-- A number is kept by its JSON spelling: the code that handles unknown values computes with none.
mutual
  pub data Json : Type 0 where
    null : Json
    bool : Bool → Json
    num : Text → Json
    str : Text → Json
    arr : Items → Json
    obj : Fields → Json

  pub data Items : Type 0 where
    nil : Items
    cons : Json → Items → Items

  pub data Fields : Type 0 where
    end : Fields
    field : Text → Json → Fields → Fields
