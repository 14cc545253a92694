-- ===== src/Tests/Frames.antt =====
-- internal/ocpp/j16/frame.go at concrete inputs.
use charger_simulator.Common.{[], ◌∷◌, none, some, ◌≡◌, ◌↔◌}
use charger_simulator.Json.{items_of, list_of, num, str}
use charger_simulator.Common.Int.{pos}
use charger_simulator.Json.{Items, arr}
use charger_simulator.J16.Frame.{DecodedFrame, a_call, a_result, ok, decode}
use charger_simulator.J16.RoundTrip.{marshal, filled, decode-marshal, Spells, decode_lem}

abbrev a_heartbeat : DecodedFrame
a_heartbeat = a_call (record { message_id = "7"; action = "Heartbeat"; payload = none })

decode-marshal_example : decode (some (marshal a_heartbeat)) ≡ ok (filled a_heartbeat)
decode-marshal_example = decode-marshal a_heartbeat

abbrev an_array : Items
an_array = items_of (num (pos 3) ∷ str "7" ∷ str "x" ∷ [])

abbrev an_answer : DecodedFrame
an_answer = a_result (record { message_id = "7"; payload = some (str "x") })

decode_lem_example :
    (decode (some (arr an_array)) ≡ ok an_answer) ↔ Spells (list_of an_array) an_answer
decode_lem_example = decode_lem an_array an_answer
