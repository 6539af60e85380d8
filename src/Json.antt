-- ===== src/Json.antt =====
-- JSON values, as the program handles them after decoding.
use the_brain.Prelude.{if◌then◌else◌, Bool, Option, none, some, ◌==◌}
use the_brain.Prelude.Int.{ℤ}
use the_brain.Text.{Text, text_eq}

-- A number that is no integer is carried as its literal.
mutual
  pub data Json : Type 0 where
    null : Json
    bool : Bool → Json
    int : ℤ → Json
    real : Text → Json
    str : Text → Json
    arr : Items → Json
    obj : Fields → Json

  pub data Items : Type 0 where
    nil : Items
    cons : Json → Items → Items

  pub data Fields : Type 0 where
    end : Fields
    field : Text → Json → Fields → Fields

abbrev or_else_first : Option Json → Option Json → Option Json
or_else_first (some j) o = some j
or_else_first none o = o

-- `d.get(key)`: of two equal keys in an object the decoder keeps the last.
unfoldable pub get_field : Text → Fields → Option Json
get_field key end = none
get_field key (field k v rest) =
    or_else_first (get_field key rest) (if k == key then some v else none)
