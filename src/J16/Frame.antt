-- ===== src/J16/Frame.antt =====
-- internal/ocpp/j16/frame.go. The bytes of a frame are the JSON value that they spell, `none` where
-- they spell none; a `json.RawMessage` of length 0 is `none`.
use charger_simulator.Common.{ℕ, zero, suc, String, List, [], ◌∷◌, Option, none, some, length}
use charger_simulator.Common.Int.{ℤ, pos}
use charger_simulator.Json.{Json, num, str, arr, obj, end, items_of, to_int, to_string, to_array}

pub data MessageType : Type 0 where
  call call_result call_error : MessageType

abbrev pub type_id : MessageType → ℤ
type_id call = pos 2
type_id call_result = pos 3
type_id call_error = pos 4

pub record Call : Type 0 where
  pub message_id : String
  pub action : String
  pub payload : Option Json

pub record CallResult : Type 0 where
  pub message_id : String
  pub payload : Option Json

pub record CallError : Type 0 where
  pub message_id : String
  pub error_code : String
  pub error_description : String
  pub error_details : Option Json

-- An empty payload is sent as `{}`.
abbrev pub or_empty : Option Json → Json
or_empty none = obj end
or_empty (some j) = j

unfoldable pub marshal_call : Call → Json
marshal_call c =
    arr (items_of (num (type_id call) ∷ str c.message_id ∷ str c.action ∷ or_empty c.payload ∷ []))

unfoldable pub marshal_result : CallResult → Json
marshal_result r =
    arr (items_of (num (type_id call_result) ∷ str r.message_id ∷ or_empty r.payload ∷ []))

unfoldable pub marshal_error : CallError → Json
marshal_error e = arr (
    items_of (
      num (type_id call_error)
      ∷ str e.message_id
      ∷ str e.error_code
      ∷ str e.error_description
      ∷ or_empty e.error_details
      ∷ []))

-- Exactly one of the three is there.
pub data DecodedFrame : Type 0 where
  a_call : Call → DecodedFrame
  a_result : CallResult → DecodedFrame
  an_error : CallError → DecodedFrame

pub data FrameError : Type 0 where
  not_array too_short bad_type_id bad_unique_id bad_action bad_error_code : FrameError
  bad_error_description : FrameError
  wrong_length : MessageType → ℕ → FrameError
  unknown_type : ℤ → FrameError

pub data Result {ℓ} (A : Type ℓ) : Type ℓ where
  ok : A → Result A
  err : FrameError → Result A

infixl 5 ◌>>=◌
abbrev pub ◌>>=◌ {ℓ κ} : {A : Type ℓ} {B : Type κ} → Result A → (A → Result B) → Result B
ok a >>= f = f a
err e >>= f = err e

abbrev pub or_fail {ℓ} : {A : Type ℓ} → Option A → FrameError → Result A
or_fail none e = err e
or_fail (some a) e = ok a

-- The three cases of the `switch`, over the elements behind the message id.
unfoldable pub decode_call : String → List Json → Result DecodedFrame
decode_call id (a ∷ p ∷ []) = do
  action ← or_fail (to_string a) bad_action
  ok (a_call (record { message_id = id; action = action; payload = some p }))
decode_call id rest = err (wrong_length call (suc (suc (length rest))))

unfoldable pub decode_result : String → List Json → Result DecodedFrame
decode_result id (p ∷ []) = ok (a_result (record { message_id = id; payload = some p }))
decode_result id rest = err (wrong_length call_result (suc (suc (length rest))))

unfoldable pub decode_error : String → List Json → Result DecodedFrame
decode_error id (c ∷ d ∷ details ∷ []) = do
  code ← or_fail (to_string c) bad_error_code
  desc ← or_fail (to_string d) bad_error_description
  ok (
      an_error (record {
        message_id = id;
        error_code = code;
        error_description = desc;
        error_details = some details;
      }))
decode_error id rest = err (wrong_length call_error (suc (suc (length rest))))

unfoldable pub dispatch : ℤ → String → List Json → Result DecodedFrame
unfolding decode_call decode_result decode_error
dispatch (pos (suc (suc zero))) id rest = decode_call id rest
dispatch (pos (suc (suc (suc zero)))) id rest = decode_result id rest
dispatch (pos (suc (suc (suc (suc zero))))) id rest = decode_error id rest
dispatch mt id rest = err (unknown_type mt)

unfoldable pub decode_elements : List Json → Result DecodedFrame
unfolding dispatch
decode_elements (t ∷ u ∷ v ∷ rest) = do
  mt ← or_fail (to_int t) bad_type_id
  id ← or_fail (to_string u) bad_unique_id
  dispatch mt id (v ∷ rest)
decode_elements _ = err too_short

unfoldable pub decode : Option Json → Result DecodedFrame
unfolding decode_elements
decode none = err not_array
decode (some w) = do elements ← or_fail (to_array w) not_array; decode_elements elements
