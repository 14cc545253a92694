-- ===== src/Actor/Send.antt =====
-- internal/actor/charger.go: outbound calls and replies.
use charger_simulator.Common.{
  ℕ, suc, String, str_eq, Bool, not, ◌&&◌, List, [], ◌∷◌, Option, none, some, if◌then◌else◌,
}
use charger_simulator.Common.Int.{ℤ, pos, eq_ℤ}
use charger_simulator.J16.Enums.{
  ChargePointStatus, ChargePointErrorCode, available, finishing, faulted, no_error, other_error,
  StopReason,
}
use charger_simulator.Meter.Float.{Float}
use charger_simulator.Meter.Engine.{sample}
use charger_simulator.Actor.State.{
  Connector, Payload, boot_notification, heartbeat, status_notification, authorize,
  start_transaction, stop_transaction, AfterStop, make_available, make_faulted, OnResult,
  boot_result, heartbeat_result, no_result, authorize_result, start_result, stop_result, OnError,
  boot_failed, no_error_handler, authorize_failed, PendingCall, Frame, call, result, error, Event,
  ocpp_event, Charger, Env,
}
use charger_simulator.Actor.Connectors.{
  find_connector, modify, with_status, with_engine, begin_session,
}
use charger_simulator.Actor.Snapshot.{emit, publish_snapshot}

-- The map of the calls in flight.
unfoldable pub find_call : String → List (String × PendingCall) → Option PendingCall
find_call id [] = none
find_call id ((k, p) ∷ m) = if str_eq k id then some p else find_call id m

unfoldable pub delete_call : String → List (String × PendingCall) → List (String × PendingCall)
delete_call id [] = []
delete_call id ((k, p) ∷ m) =
    let rest = delete_call id m in if str_eq k id then rest else (k, p) ∷ rest

abbrev pub put_call :
    String → PendingCall → List (String × PendingCall) → List (String × PendingCall)
put_call id p m = (id, p) ∷ delete_call id m

abbrev pub action_of : Payload → String
action_of (boot_notification _) = "BootNotification"
action_of heartbeat = "Heartbeat"
action_of (status_notification _) = "StatusNotification"
action_of (authorize _) = "Authorize"
action_of (start_transaction _) = "StartTransaction"
action_of (stop_transaction _) = "StopTransaction"
action_of (Payload.meter_values _) = "MeterValues"

module _ {F : Type 0} ⦃fl : Float F⦄ (env : Env) where
  -- `ws.Send` has no error: the client is dialled, we have not closed it, and the write succeeds.
  abbrev pub sends : Charger F → Bool
  sends c = c.ws.dialled && (not c.ws.closed && env.writes c.ticks)

  -- `call`; its error is `not (sends c)`.
  unfoldable pub send_call : Payload → OnResult → OnError → Charger F → Charger F
  send_call p on_result on_error c =
      let id : String = env.uuid c.ticks in
      let pc : PendingCall = record {
        action = action_of p;
        sent_at = env.now c.ticks;
        on_result = on_result;
        on_error = on_error;
      } in
      let registered = put_call id pc c.pending in
      let c' : Charger F = emit (ocpp_event "out" "CALL" (action_of p) id) c in
      record c' {
        pending = if sends c then registered else delete_call id registered;
        wire = if sends c then call id p ∷ c.wire else c.wire;
        ticks = suc c.ticks;
      }

  -- `replyResult` and `replyError`: the event is emitted only if the frame was written.
  unfoldable pub reply : Frame → Event F → Charger F → Charger F
  reply frame e c =
      let c' : Charger F = emit e c in
      record c {
        events = if sends c then c'.events else c.events;
        wire = if sends c then frame ∷ c.wire else c.wire;
        ticks = suc c.ticks;
      }

  abbrev pub reply_result : String → String → Charger F → Charger F
  reply_result id status = reply (result id status) (ocpp_event "out" "CALLRESULT" "" id)

  abbrev pub reply_error : String → String → Charger F → Charger F
  reply_error id code = reply (error id code) (ocpp_event "out" "CALLERROR" "" id)

  unfoldable pub send_boot : Charger F → Charger F
  send_boot c =
      send_call
        (boot_notification (record {
          charge_point_vendor = c.cfg.vendor;
          charge_point_model = c.cfg.model;
          charge_point_serial_number = c.cfg.cpid;
          firmware_version = c.cfg.firmware_version;
        }))
        boot_result boot_failed c

  unfoldable pub send_heartbeat : Charger F → Charger F
  send_heartbeat = send_call heartbeat heartbeat_result no_error_handler

  unfoldable pub send_status_with_info :
      ℤ → ChargePointStatus → ChargePointErrorCode → String → Charger F → Charger F
  send_status_with_info id status code info c =
      let c' : Charger F = record c {
        connectors = modify id (with_status status code) c.connectors;
      } in
      send_call
        (status_notification (record {
          connector_id = id;
          error_code = code;
          status = status;
          info = info;
          timestamp = env.now c.ticks;
        }))
        no_result no_error_handler (publish_snapshot env c')

  unfoldable pub send_status : ℤ → ChargePointStatus → ChargePointErrorCode → Charger F → Charger F
  send_status id status code c =
      let req = status_notification (record {
        connector_id = id;
        error_code = code;
        status = status;
        info = "";
        timestamp = env.now c.ticks;
      }) in
      let updated = modify id (with_status status code) c.connectors in
      let c' : Charger F = record c {
        connectors = if eq_ℤ id (pos 0) then c.connectors else updated;
      } in
      send_call req no_result no_error_handler (publish_snapshot env c')

  unfoldable pub send_authorize : ℤ → String → Charger F → Charger F
  send_authorize id tag =
      send_call (authorize (record { id_tag = tag })) (authorize_result id tag)
        (authorize_failed id)

  start_on : ℤ → String → Charger F → Option (Connector F) → Charger F
  start_on id tag c none = c
  start_on id tag c (some cn) =
      let now : ℕ = env.now c.ticks in
      let wh : ℤ = fl.to_int cn.meter_eng.current_wh in
      send_call
        (start_transaction
          (record { connector_id = id; id_tag = tag; meter_start = wh; timestamp = now }))
        (start_result id tag now wh) no_error_handler
        (record c { connectors = modify id (begin_session now wh tag) c.connectors })

  unfoldable pub send_start_transaction : ℤ → String → Charger F → Charger F
  unfolding start_on
  send_start_transaction id tag c = start_on id tag c (find_connector id c.connectors)

  unfoldable pub run_after : ℤ → AfterStop → Charger F → Charger F
  run_after id make_available = send_status id available no_error
  run_after id make_faulted = send_status_with_info id faulted other_error "EmergencyStop"

  -- With a transaction: sample the meter, show Finishing, and send the stop.
  unfoldable pub stop_transaction_of :
      ℤ → StopReason → AfterStop → Connector F → Charger F → Charger F
  stop_transaction_of id reason after cn c =
      let now : ℕ = env.now c.ticks in
      let req = stop_transaction (record {
        id_tag = cn.session_id_tag;
        meter_stop = fl.to_int (sample now cn.meter_eng).last_snap.energy_wh;
        timestamp = now;
        transaction_id = cn.tx_id;
        reason = reason;
      }) in
      send_call req (stop_result id after) no_error_handler (
        send_status id finishing no_error
          (record c { connectors = modify id (with_engine (sample now)) c.connectors }))

  stop_on : ℤ → StopReason → AfterStop → Charger F → Option (Connector F) → Charger F
  stop_on id reason after c none = run_after id after c
  stop_on id reason after c (some cn) =
      if eq_ℤ cn.tx_id (pos 0)
      then run_after id after c
      else stop_transaction_of id reason after cn c

  unfoldable pub send_stop_transaction : ℤ → StopReason → AfterStop → Charger F → Charger F
  unfolding stop_on
  send_stop_transaction id reason after c =
      stop_on id reason after c (find_connector id c.connectors)
