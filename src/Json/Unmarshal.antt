-- ===== src/Json/Unmarshal.antt =====
-- encoding/json: `json.Unmarshal` into a struct, as internal/ocpp/j16/messages.go names them. A target
-- is what a field held before and holds afterwards, with whether the value had the field's type; a
-- value of another type leaves the field and does not stop the decoding.
use Prim.Native.Char.{code}
use charger_simulator.Common.{
  ℕ, ◌+◌, String, Bool, true, false, ◌&&◌, leb, ◌==◌, Option, none, some, if◌then◌else◌,
}
use charger_simulator.Common.Int.{ℤ, pos}
use charger_simulator.Json.{Json, Members, null, num, str, obj, end, member, fits_int}

abbrev pub Target {ℓ} : Type ℓ → Type ℓ
Target A = A × Bool

-- The case folding of the letters that field names have: capitals, the long s, the Kelvin sign.
abbrev fold_case : ℕ → ℕ
fold_case c =
    if leb 65 c && leb c 90 then c + 32 else if c == 383 then 115 else if c == 8490 then 107 else c

-- A member is taken for a field of its name, whatever the case of its letters.
abbrev pub same_name : String → String → Bool
same_name String.[] String.[] = true
same_name (String.◌∷◌ c s) (String.◌∷◌ d t) =
    let rest = same_name s t in (fold_case (code c) == fold_case (code d)) && rest
same_name _ _ = false

abbrev pub into_string : Json → String → Target String
into_string (str s) old = (s, true)
into_string null old = (old, true)
into_string _ old = (old, false)

abbrev pub into_int : Json → ℤ → Target ℤ
into_int (num i) old = if fits_int i then (i, true) else (old, false)
into_int null old = (old, true)
into_int _ old = (old, false)

-- Into a pointer: `null` makes it nil, any other value first makes it point to something.
abbrev pub into_int_pointer : Json → Option ℤ → Target (Option ℤ)
into_int_pointer null old = (none, true)
into_int_pointer j none = let r = into_int j (pos 0) in (some r.0, r.1)
into_int_pointer j (some old) = let r = into_int j old in (some r.0, r.1)

module _ {ℓ} {A : Type ℓ} (field : String → Json → A → Target A) where
  -- The members in order; one that names no field is skipped by `field`.
  abbrev pub into_fields : Members → A → Target A
  into_fields end a = (a, true)
  into_fields (member k j ms) a =
      let r = field k j a in let rest = into_fields ms r.0 in (rest.0, r.1 && rest.1)

  abbrev pub into_struct : Json → A → Target A
  into_struct (obj ms) a = into_fields ms a
  into_struct null a = (a, true)
  into_struct _ a = (a, false)

-- The caller gives up on an error.
abbrev pub checked {ℓ} : {A : Type ℓ} → Target A → Option A
checked (a, true) = some a
checked (a, false) = none

-- The caller ignores the error, and uses what was decoded.
abbrev pub unchecked {ℓ} : {A : Type ℓ} → Target A → A
unchecked r = r.0
