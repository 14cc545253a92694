-- ===== src/Actor/Inbound.antt =====
-- internal/actor/charger.go: meter values, frames from the CMS, and the calls that the CMS makes.
use charger_simulator.Common.{
  ℕ, String, str_eq, Bool, true, false, List, [], ◌∷◌, Option, none, some, is_some, if◌then◌else◌,
}
use charger_simulator.Common.Int.{ℤ, pos, eq_ℤ}
use charger_simulator.Json.{Json, null}
use charger_simulator.J16.Messages.{
  MeterValue, RemoteStartTransactionReq, RemoteStopTransactionReq, TriggerMessageReq,
}
use charger_simulator.J16.Frame.{
  Call, DecodedFrame, a_call, a_result, an_error, Result, ok, err, decode,
}
use charger_simulator.Meter.Float.{Float}
use charger_simulator.Meter.Engine.{Snapshot, sample}
use charger_simulator.Meter.Ocpp.{to_ocpp}
use charger_simulator.Meter.Fault.{apply_fault}
use charger_simulator.Actor.State.{
  Command, start_charging, stop_charging, Connector, Payload, no_result, no_error_handler,
  PendingCall, ocpp_event, Charger, Env,
}
use charger_simulator.Actor.Connectors.{find_connector, with_connector, with_engine}
use charger_simulator.Actor.Snapshot.{offer, emit, emit_log, publish_snapshot}
use charger_simulator.Actor.Send.{
  find_call, delete_call, send_call, reply_result, reply_error, send_boot, send_heartbeat,
  send_status,
}
use charger_simulator.Actor.Results.{store_update_meter, run_result, run_error}
use charger_simulator.Actor.Commands.{can_start_charging}

-- The actions that the CMS may call.
pub data CmsAction : Type 0 where
  remote_start remote_stop reset change_availability trigger_message unlock_connector : CmsAction
  not_implemented : CmsAction

unfoldable pub cms_action : String → CmsAction
cms_action s =
    if str_eq s "RemoteStartTransaction"
    then remote_start
    else if str_eq s "RemoteStopTransaction"
    then remote_stop
    else if str_eq s "Reset"
    then reset
    else if str_eq s "ChangeAvailability"
    then change_availability
    else if str_eq s "TriggerMessage"
    then trigger_message
    else if str_eq s "UnlockConnector"
    then unlock_connector
    else not_implemented

-- A decoded frame has a payload.
abbrev pub payload_of : Option Json → Json
payload_of none = null
payload_of (some j) = j

abbrev pub id_or_1 : Option ℤ → ℤ
id_or_1 none = pos 1
id_or_1 (some id) = id

abbrev pub command_cap : ℕ
command_cap = 32

module _ {F : Type 0} where
  -- `enqueue`: a full channel drops the command.
  unfoldable pub enqueue : Command F → Charger F → Charger F
  enqueue cmd c = record c { cmd_ch = offer command_cap cmd c.cmd_ch }

  -- The connector of a transaction, the first that the iteration meets; 0 if there is none.
  unfoldable pub connector_of_tx : ℤ → List (Connector F) → ℤ
  connector_of_tx tx [] = pos 0
  connector_of_tx tx (cn ∷ cns) = if eq_ℤ cn.tx_id tx then cn.id else connector_of_tx tx cns

module _ {F : Type 0} ⦃fl : Float F⦄ (env : Env) where
  abbrev meter_values_call : ℤ → ℤ → MeterValue → Charger F → Charger F
  meter_values_call id tx mv =
      send_call env
        (Payload.meter_values (record { connector_id = id; transaction_id = tx; meter_value = mv }))
        no_result no_error_handler

  unfoldable pub report : ℤ → ℤ → MeterValue × Bool → Charger F → Charger F
  report id tx (mv, false) c =
      publish_snapshot env (emit_log "warn" "energy-meter fault — MeterValues suppressed" c)
  report id tx (mv, true) c = publish_snapshot env (meter_values_call id tx mv c)

  meter_values_on : ℤ → Charger F → Option (Connector F) → Charger F
  unfolding report
  meter_values_on id c none = c
  meter_values_on id c (some cn) =
      let now : ℕ = env.now c.ticks in
      let snap : Snapshot F = (sample now cn.meter_eng).last_snap in
      let c' : Charger F =
        store_update_meter env id (fl.to_int snap.energy_wh) now
          (with_connector id (with_engine (sample now)) c) in
      if eq_ℤ cn.tx_id (pos 0)
      then c
      else report id cn.tx_id (apply_fault (to_ocpp snap) cn.meter_fault) c'

  unfoldable pub send_meter_values : ℤ → Charger F → Charger F
  unfolding meter_values_on
  send_meter_values id c = meter_values_on id c (find_connector id c.connectors)

  status_of : ℤ → Charger F → Option (Connector F) → Charger F
  status_of id c none = c
  status_of id c (some cn) = send_status env id cn.status cn.error_code c

  unfoldable pub handle_trigger : TriggerMessageReq → Charger F → Charger F
  unfolding status_of
  handle_trigger req c =
      let id : ℤ = id_or_1 req.connector_id in
      if str_eq req.requested_message "BootNotification"
      then send_boot env c
      else if str_eq req.requested_message "Heartbeat"
      then send_heartbeat env c
      else if str_eq req.requested_message "StatusNotification"
      then status_of id c (find_connector id c.connectors)
      else if str_eq req.requested_message "MeterValues"
      then send_meter_values id c
      else c

  unfoldable pub handle_remote_start : String → RemoteStartTransactionReq → Charger F → Charger F
  handle_remote_start msg req c =
      let id : ℤ = id_or_1 req.connector_id in
      if is_some (can_start_charging id c)
      then reply_result env msg "Rejected" (emit_log "warn" "remote start rejected" c)
      else enqueue (start_charging id req.id_tag) (reply_result env msg "Accepted" c)

  unfoldable pub handle_remote_stop : String → RemoteStopTransactionReq → Charger F → Charger F
  handle_remote_stop msg req c =
      let id : ℤ = connector_of_tx req.transaction_id c.connectors in
      if eq_ℤ id (pos 0)
      then reply_result env msg "Rejected" c
      else enqueue (stop_charging id) (reply_result env msg "Accepted" c)

  unfoldable pub run_action : CmsAction → String → Json → Charger F → Charger F
  run_action remote_start msg p c = handle_remote_start msg (env.remote_start p) c
  run_action remote_stop msg p c = handle_remote_stop msg (env.remote_stop p) c
  run_action reset msg p c =
      emit_log "warn" "reset received (no-op in slice 2)" (reply_result env msg "Accepted" c)
  run_action change_availability msg p c = reply_result env msg "Accepted" c
  run_action trigger_message msg p c =
      handle_trigger (env.trigger p) (reply_result env msg "Accepted" c)
  run_action unlock_connector msg p c = reply_result env msg "Unlocked" c
  run_action not_implemented msg p c = reply_error env msg "NotImplemented" c

  unfoldable pub handle_incoming_call : Call → Charger F → Charger F
  handle_incoming_call call c =
      run_action (cms_action call.action) call.message_id (payload_of call.payload)
        (emit (ocpp_event "in" "CALL" call.action call.message_id) c)

  -- The answer to a call in flight: it is forgotten before its callback runs.
  settle_result : String → Json → Charger F → Option PendingCall → Charger F
  settle_result msg p c none = c
  settle_result msg p c (some pc) = run_result env pc.on_result p (
      emit (ocpp_event "in" "CALLRESULT" pc.action msg)
        (record c { pending = delete_call msg c.pending }))

  settle_error : String → Charger F → Option PendingCall → Charger F
  settle_error msg c none = c
  settle_error msg c (some pc) = run_error env pc.on_error (
      emit (ocpp_event "in" "CALLERROR" pc.action msg)
        (record c { pending = delete_call msg c.pending }))

  unfoldable pub handle_frame : Result DecodedFrame → Charger F → Charger F
  unfolding settle_result settle_error
  handle_frame (err _) c = c
  handle_frame (ok (a_result r)) c =
      settle_result r.message_id (payload_of r.payload) c (find_call r.message_id c.pending)
  handle_frame (ok (an_error e)) c = settle_error e.message_id c (find_call e.message_id c.pending)
  handle_frame (ok (a_call call)) c = handle_incoming_call call c

  unfoldable pub handle_inbound : Option Json → Charger F → Charger F
  handle_inbound bytes = handle_frame (decode bytes)
