-- ===== src/Actor/Run.antt =====
-- internal/actor/charger.go: the Run loop as a step function. Each `Input` is what one round of the
-- `select` receives, or a command that a caller pushes; their order is the schedule.
use charger_simulator.Common.{
  ℕ, Bool, true, false, not, List, [], ◌∷◌, Option, none, some, if◌then◌else◌,
}
use charger_simulator.Common.Int.{ℤ}
use charger_simulator.Json.{Json}
use charger_simulator.J16.Enums.{charging}
use charger_simulator.Meter.Float.{Float}
use charger_simulator.Actor.State.{
  CpState, Command, plug_in, start_charging, stop_charging, unplug, emergency_stop, clear_fault,
  set_power, set_meter_fault, go_offline, go_online, Connector, Charger, Env,
}
use charger_simulator.Actor.Connectors.{find_connector, ids_of}
use charger_simulator.Actor.Snapshot.{is_online, emit_log, publish_snapshot}
use charger_simulator.Actor.Send.{sends, send_boot, send_heartbeat}
use charger_simulator.Actor.Commands.{
  eq_status, handle_plug_in, handle_unplug, handle_start_charging, handle_stop_charging,
  handle_emergency_stop, handle_clear_fault, handle_set_power, handle_set_meter_fault,
}
use charger_simulator.Actor.Inbound.{enqueue, send_meter_values, handle_inbound}
use charger_simulator.Actor.Link.{
  close_link, dial_ok, dial_and_swap, handle_go_offline, handle_go_online, on_unexpected_drop,
  reconnect_with_backoff, Outcome, connected, cancelled, out_of_fuel,
}

pub data Input (F : Type 0) : Type 0 where
  -- A caller pushes a command.
  submit : Command F → Input F
  -- The loop takes the oldest command.
  take_command : Input F
  -- The bytes of a frame, or the end of the inbound channel.
  frame : Option Json → Input F
  inbound_closed : Input F
  heartbeat_tick meter_tick : Input F
  -- The context is cancelled.
  cancel : Input F

-- The loop runs, has returned, or is still redialling when the given number of attempts is used up.
pub data Mode : Type 0 where
  running returned redialling : Mode

-- `listening`: the loop has an inbound channel that is not nil.
pub record Loop (F : Type 0) : Type 0 where
  pub charger : Charger F
  pub listening : Bool
  pub mode : Mode

module _ {F : Type 0} ⦃fl : Float F⦄ (env : Env) where
  charging_on : Option (Connector F) → Bool
  charging_on none = false
  charging_on (some cn) = eq_status cn.status charging

  unfoldable pub is_charging : ℤ → Charger F → Bool
  unfolding charging_on
  is_charging id c = charging_on (find_connector id c.connectors)

  -- The sweep over the connectors of one meter tick.
  unfoldable pub sweep : List ℤ → Charger F → Charger F
  sweep [] c = c
  sweep (id ∷ ids) c = sweep ids (if is_charging id c then send_meter_values env id c else c)

  -- `GoOnline` does not get here: the loop handles it.
  unfoldable pub handle_command : Command F → Charger F → Charger F
  handle_command (plug_in id) c = handle_plug_in env id c
  handle_command (start_charging id tag) c = handle_start_charging env id tag c
  handle_command (stop_charging id) c = handle_stop_charging env id c
  handle_command (unplug id) c = handle_unplug env id c
  handle_command (emergency_stop id) c = handle_emergency_stop env id c
  handle_command (clear_fault id) c = handle_clear_fault env id c
  handle_command (set_power w) c = handle_set_power env w c
  handle_command (set_meter_fault id mode) c = handle_set_meter_fault env id mode c
  handle_command go_offline c = handle_go_offline env c
  handle_command go_online c = c

  -- The deferred function of `Run`.
  unfoldable pub shut_down : Charger F → Charger F
  shut_down c =
      emit_log "info" "charger disconnected"
        (publish_snapshot env (record (close_link env c) { cp_state = CpState.disconnected }))

  abbrev return : Charger F → Loop F
  return c = record { charger = shut_down c; listening = false; mode = returned }

  -- `Run` up to the loop: dial, then boot.
  unfoldable pub start_run : Charger F → Loop F
  start_run c =
      let dialled : Charger F = dial_and_swap env c in
      let failed : Loop F = record {
        charger = emit_log "error" "ws connect failed" dialled;
        listening = false;
        mode = returned;
      } in
      let booted : Charger F = send_boot env dialled in
      if not (dial_ok env c)
      then failed
      else if not (sends env dialled)
      then return booted
      else record { charger = booted; listening = true; mode = running }

  unfoldable pub after_reconnect : Outcome F → Loop F
  after_reconnect (connected c) = record { charger = c; listening = true; mode = running }
  after_reconnect (cancelled c) = return c
  after_reconnect (out_of_fuel c) = record { charger = c; listening = false; mode = redialling }

  unfoldable pub take_from : Command F → Charger F → Bool → Loop F
  take_from go_online c listening =
      let (c', heard) = handle_go_online env c in
      record { charger = c'; listening = heard; mode = running }
  take_from cmd c listening = record {
    charger = handle_command cmd c;
    listening = listening;
    mode = running;
  }

module _ {F : Type 0} ⦃fl : Float F⦄ (env : Env) (stop : ℕ → Bool) (fuel : ℕ) where
  unfoldable pub take_oldest : List (Command F) → Loop F → Loop F
  take_oldest [] l = l
  take_oldest (cmd ∷ cmds) l = take_from env cmd (record l.charger { cmd_ch = cmds }) l.listening

  -- One round of the loop, `fuel` attempts for a reconnection.
  unfoldable pub running_step : Input F → Loop F → Loop F
  running_step (submit cmd) l = record l { charger = enqueue cmd l.charger }
  running_step take_command l = take_oldest l.charger.cmd_ch l
  running_step (frame bytes) l =
      if not l.listening
      then l
      else if l.charger.offline
      then l
      else record l { charger = handle_inbound env bytes l.charger }
  running_step inbound_closed l =
      if not l.listening
      then l
      else if l.charger.offline
      then record l { listening = false }
      else after_reconnect env
          (reconnect_with_backoff env stop fuel (on_unexpected_drop env l.charger)).0
  running_step heartbeat_tick l =
      if is_online l.charger.cp_state
      then record l { charger = send_heartbeat env l.charger }
      else l
  running_step meter_tick l =
      if is_online l.charger.cp_state
      then record l { charger = sweep env (ids_of l.charger.connectors) l.charger }
      else l
  running_step cancel l = return env l.charger

  -- A loop that has returned takes no input; a command pushed to it stays in the channel.
  unfoldable pub step_mode : Mode → Input F → Loop F → Loop F
  step_mode running i l = running_step i l
  step_mode _ (submit cmd) l = record l { charger = enqueue cmd l.charger }
  step_mode _ _ l = l

  unfoldable pub step : Input F → Loop F → Loop F
  step i l = step_mode l.mode i l

  unfoldable pub run : List (Input F) → Loop F → Loop F
  run [] l = l
  run (i ∷ is) l = run is (step i l)
