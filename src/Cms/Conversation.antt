-- ===== src/Cms/Conversation.antt =====
-- internal/actor/charger.go against cmd/stub-cms/main.go: what a charger writes, the CMS reads, and the
-- charger reads the answer.
use charger_simulator.Common.{ℕ, String, List, [], ◌∷◌, Option, none, some}
use charger_simulator.Json.{Json, obj, end}
use charger_simulator.J16.Frame.{marshal_call}
use charger_simulator.J16.Marshal.{
  TimeText, boot_req_json, authorize_req_json, status_req_json, start_req_json, stop_req_json,
  meter_values_req_json,
}
use charger_simulator.J16.Unmarshal.{
  boot_resp_of, authorize_resp_of, start_resp_of, remote_start_of, remote_stop_of, trigger_of,
}
use charger_simulator.Meter.Float.{Float}
use charger_simulator.Actor.State.{
  Payload, boot_notification, heartbeat, status_notification, authorize, start_transaction,
  stop_transaction, Frame, call, result, error, Charger, Env,
}
use charger_simulator.Actor.Send.{action_of}
use charger_simulator.Actor.Inbound.{handle_inbound}
use charger_simulator.Cms.Server.{Cms, Reply, reply_frame, answer}

-- The environment whose decoders are `json.Unmarshal` into the structs of messages.go.
abbrev pub wired : TimeText → Env → Env
wired times env = record env {
  boot_resp = boot_resp_of times;
  authorize_resp = authorize_resp_of times;
  start_resp = start_resp_of times;
  remote_start = remote_start_of;
  remote_stop = remote_stop_of;
  trigger = trigger_of;
}

module _ (times : TimeText) where
  -- `json.Marshal` of the request that `call` is given.
  unfoldable pub payload_json : Payload → Json
  payload_json (boot_notification r) = boot_req_json r
  payload_json heartbeat = obj end
  payload_json (status_notification r) = status_req_json times r
  payload_json (authorize r) = authorize_req_json r
  payload_json (start_transaction r) = start_req_json times r
  payload_json (stop_transaction r) = stop_req_json times r
  payload_json (Payload.meter_values r) = meter_values_req_json times r

  -- The bytes of a call.
  unfoldable pub call_bytes : String → Payload → Json
  call_bytes id p =
      marshal_call
        (record { message_id = id; action = action_of p; payload = some (payload_json p) })

module _ {F : Type 0} ⦃fl : Float F⦄ (times : TimeText) (env : Env) where
  hear : Option (String × Reply) → Charger F → Charger F
  hear none c = c
  hear (some (id, reply)) c = handle_inbound (wired times env) (some (reply_frame id reply)) c

  ask : ℕ → Frame → Cms → Charger F → Cms × Charger F
  unfolding hear
  ask now (call id p) s c =
      let r = answer times now (some (call_bytes times id p)) s in (r.0, hear r.1 c)
  ask now (result _ _) s c = (s, c)
  ask now (error _ _) s c = (s, c)

  exchange_on : ℕ → List Frame → Cms → Charger F → Cms × Charger F
  unfolding ask
  exchange_on now [] s c = (s, c)
  exchange_on now (f ∷ _) s c = ask now f s c

  -- The CMS answers the newest frame of the charger, and the charger handles the answer.
  unfoldable pub exchange : ℕ → Cms → Charger F → Cms × Charger F
  unfolding exchange_on
  exchange now s c = exchange_on now c.wire s c
