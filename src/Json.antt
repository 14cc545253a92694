-- ===== src/Json.antt =====
-- encoding/json as the frames use it: JSON values, and `json.Unmarshal` into the types that
-- internal/ocpp/j16/frame.go names. Unmarshal is about structs.
pub mod Unmarshal
use charger_simulator.Common.{
  String, Bool, List, [], ◌∷◌, Option, none, some, ◌≡◌, refl, ltb, if◌then◌else◌, ap,
}
use charger_simulator.Common.Int.{ℤ, pos, negsuc}

-- `num` is a number literal with an integer value, `real` the text of one with a fraction or an
-- exponent. An object keeps its members in order.
mutual
  pub data Json : Type 0 where
    null : Json
    bool : Bool → Json
    num : ℤ → Json
    real : String → Json
    str : String → Json
    arr : Items → Json
    obj : Members → Json

  pub data Items : Type 0 where
    nil : Items
    cons : Json → Items → Items

  pub data Members : Type 0 where
    end : Members
    member : String → Json → Members → Members

abbrev pub items_of : List Json → Items
items_of [] = nil
items_of (j ∷ js) = cons j (items_of js)

abbrev pub list_of : Items → List Json
list_of nil = []
list_of (cons j js) = j ∷ list_of js

pub list_of-items_of : (js : List Json) → list_of (items_of js) ≡ js
list_of-items_of [] = refl
list_of-items_of (j ∷ js) = ap (◌∷◌ j) (list_of-items_of js)

-- An integer that a Go `int` of 64 bits holds.
abbrev pub fits_int : ℤ → Bool
fits_int (pos n) = ltb n 9223372036854775808
fits_int (negsuc n) = ltb n 9223372036854775808

-- Into a Go `int` that is 0: a `null` leaves it so, and no error.
abbrev pub to_int : Json → Option ℤ
to_int (num i) = if fits_int i then some i else none
to_int null = some (pos 0)
to_int _ = none

-- Into a Go `string` that is empty.
abbrev pub to_string : Json → Option String
to_string (str s) = some s
to_string null = some ""
to_string _ = none

-- Into a Go slice of `json.RawMessage` that is nil.
abbrev pub to_array : Json → Option (List Json)
to_array (arr js) = some (list_of js)
to_array null = some []
to_array _ = none
