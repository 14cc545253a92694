-- ===== src/Actor/Commands.antt =====
-- internal/actor/charger.go: the handlers of the user's commands, but for going on- and offline.
use charger_simulator.Common.{
  String, str_eq, Bool, true, false, not, ◌||◌, map, Option, none, some, is_some, if◌then◌else◌,
}
use charger_simulator.Common.Int.{ℤ, pos, eq_ℤ}
use charger_simulator.J16.Enums.{
  ChargePointStatus, available, preparing, charging, finishing, faulted, no_error, local,
  StopReason,
}
use charger_simulator.Meter.Float.{Float}
use charger_simulator.Meter.Engine.{set_max_power}
use charger_simulator.Meter.Fault.{Fault, healthy, unset, valid_fault}
use charger_simulator.Actor.State.{CpState, Connector, make_available, make_faulted, Charger, Env}
use charger_simulator.Actor.Connectors.{find_connector, with_connector, with_engine, set_pending}
use charger_simulator.Actor.Snapshot.{is_online, emit_log, publish_snapshot}
use charger_simulator.Actor.Send.{send_status, send_authorize, send_stop_transaction, run_after}

unfoldable pub eq_status : ChargePointStatus → ChargePointStatus → Bool
eq_status available available = true
eq_status preparing preparing = true
eq_status charging charging = true
eq_status ChargePointStatus.suspended_ev ChargePointStatus.suspended_ev = true
eq_status ChargePointStatus.suspended_evse ChargePointStatus.suspended_evse = true
eq_status finishing finishing = true
eq_status ChargePointStatus.reserved ChargePointStatus.reserved = true
eq_status ChargePointStatus.unavailable ChargePointStatus.unavailable = true
eq_status faulted faulted = true
eq_status _ _ = false

-- Why a start is refused; the text is `reason_text`.
pub data Refusal : Type 0 where
  unknown_connector session_in_progress not_plugged_in already_processed : Refusal
  not_online : CpState → Refusal
  not_ready : ChargePointStatus → Refusal

abbrev pub connectivity_reason : CpState → String
connectivity_reason CpState.offline = "charger is offline"
connectivity_reason CpState.booting = "charger not online yet"
connectivity_reason CpState.reconnecting = "charger reconnecting to CMS"
connectivity_reason CpState.disconnected = "charger disconnected"
connectivity_reason CpState.online = "charger not online"

abbrev pub default_tag : String → String
default_tag tag = if str_eq tag "" then "TESTRFID0001" else tag

abbrev pub default_fault : Fault → Fault
default_fault unset = healthy
default_fault f = f

abbrev pub has_tx : {F : Type 0} → Option (Connector F) → Bool
has_tx none = false
has_tx (some cn) = not (eq_ℤ cn.tx_id (pos 0))

module _ {F : Type 0} ⦃fl : Float F⦄ where
  abbrev connector_refusal : Connector F → Option Refusal
  connector_refusal cn =
      if not (eq_ℤ cn.tx_id (pos 0))
        || (eq_status cn.status charging || eq_status cn.status finishing)
      then some session_in_progress
      else if eq_status cn.status available
      then some not_plugged_in
      else if not (eq_status cn.status preparing)
      then some (not_ready cn.status)
      else if cn.start_pending
      then some already_processed
      else none

  abbrev refusal_of : CpState → Option (Connector F) → Option Refusal
  refusal_of state none = some unknown_connector
  refusal_of state (some cn) =
      if not (is_online state) then some (not_online state) else connector_refusal cn

  -- `canStartCharging`: `none` if a start would be honoured.
  unfoldable pub can_start_charging : ℤ → Charger F → Option Refusal
  can_start_charging id c = refusal_of c.cp_state (find_connector id c.connectors)

module _ {F : Type 0} ⦃fl : Float F⦄ (env : Env) where
  plug_in_on : ℤ → Charger F → Option (Connector F) → Charger F
  plug_in_on id c none = c
  plug_in_on id c (some cn) =
      if not (is_online c.cp_state)
      then emit_log "warn" "plug-in ignored: charger not online" c
      else if not (eq_status cn.status available)
      then emit_log "warn" "plug-in ignored: connector not Available" c
      else send_status env id preparing no_error (emit_log "info" "gun plugged in" c)

  unfoldable pub handle_plug_in : ℤ → Charger F → Charger F
  unfolding plug_in_on
  handle_plug_in id c = plug_in_on id c (find_connector id c.connectors)

  unplug_on : ℤ → Charger F → Option (Connector F) → Charger F
  unplug_on id c none = c
  unplug_on id c (some cn) =
      if not (is_online c.cp_state)
      then emit_log "warn" "unplug ignored: charger not online" c
      else if not (eq_status cn.status preparing)
      then emit_log "warn" "unplug ignored: connector not Preparing" c
      else send_status env id available no_error (emit_log "info" "gun unplugged" c)

  unfoldable pub handle_unplug : ℤ → Charger F → Charger F
  unfolding unplug_on
  handle_unplug id c = unplug_on id c (find_connector id c.connectors)

  unfoldable pub start_unless : ℤ → String → Charger F → Option Refusal → Charger F
  start_unless id tag c (some _) = emit_log "warn" "start rejected" c
  start_unless id tag c none =
      send_authorize env id (default_tag tag)
        (emit_log "info" "start charging requested" (with_connector id set_pending c))

  unfoldable pub handle_start_charging : ℤ → String → Charger F → Charger F
  unfolding start_unless
  handle_start_charging id tag c =
      if is_some (find_connector id c.connectors)
      then start_unless id tag c (can_start_charging id c)
      else c

  unfoldable pub handle_stop_charging : ℤ → Charger F → Charger F
  handle_stop_charging id c =
      if has_tx (find_connector id c.connectors)
      then send_stop_transaction env id local make_available
          (emit_log "info" "stop charging requested" c)
      else emit_log "warn" "stop ignored: no active transaction" c

  emergency_on : ℤ → Charger F → Option (Connector F) → Charger F
  emergency_on id c none = c
  emergency_on id c (some cn) =
      let c' : Charger F = emit_log "warn" "EMERGENCY STOP triggered" c in
      if not (eq_ℤ cn.tx_id (pos 0))
      then send_stop_transaction env id StopReason.emergency_stop make_faulted c'
      else run_after env id make_faulted c'

  unfoldable pub handle_emergency_stop : ℤ → Charger F → Charger F
  unfolding emergency_on
  handle_emergency_stop id c = emergency_on id c (find_connector id c.connectors)

  clear_fault_on : ℤ → Charger F → Option (Connector F) → Charger F
  clear_fault_on id c none = c
  clear_fault_on id c (some cn) =
      if not (eq_status cn.status faulted)
      then c
      else send_status env id available no_error (emit_log "info" "fault cleared" c)

  unfoldable pub handle_clear_fault : ℤ → Charger F → Charger F
  unfolding clear_fault_on
  handle_clear_fault id c = clear_fault_on id c (find_connector id c.connectors)

  abbrev pub clamp_power : F → F → F
  clamp_power top w =
      let w' : F = if fl.lt w (fl.of_ℕ 0) then fl.of_ℕ 0 else w in if fl.lt top w' then top else w'

  unfoldable pub handle_set_power : F → Charger F → Charger F
  handle_set_power w c = publish_snapshot env (
      emit_log "info" "power limit changed" (record c {
        connectors =
            map (with_engine (set_max_power (clamp_power c.cfg.max_power_w w))) c.connectors;
      }))

  set_fault : ℤ → Fault → Charger F → Charger F
  set_fault id mode c =
      if not (valid_fault mode)
      then emit_log "warn" "meter fault ignored: unknown mode" c
      else publish_snapshot env (
          emit_log "info" "energy-meter fault set"
            (with_connector id (λ cn. record cn { meter_fault = mode }) c))

  unfoldable pub handle_set_meter_fault : ℤ → Fault → Charger F → Charger F
  unfolding set_fault
  handle_set_meter_fault id mode c =
      if is_some (find_connector id c.connectors) then set_fault id (default_fault mode) c else c
