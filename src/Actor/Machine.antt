-- ===== src/Actor/Machine.antt =====
-- internal/actor/charger.go: what each command does to the state machine of the connectors.
use charger_simulator.Common.{
  String, not, is_some, refl, inl, inr, Option-cases, Bool-cases, if_cases, not-true,
}
use charger_simulator.Common.Int.{ℤ, pos, eq_ℤ}
use charger_simulator.J16.Enums.{available, preparing, faulted, other_error, StopReason, local}
use charger_simulator.Meter.Float.{Float}
use charger_simulator.Meter.Fault.{Fault, valid_fault}
use charger_simulator.Actor.State.{
  Command, plug_in, start_charging, stop_charging, unplug, emergency_stop, clear_fault, set_power,
  set_meter_fault, go_offline, go_online, make_available, make_faulted, Charger, Env,
}
use charger_simulator.Actor.Connectors.{find_connector, with_status, set_pending}
use charger_simulator.Actor.Snapshot.{is_online, emit_log}
use charger_simulator.Actor.Send.{
  send_call, send_authorize, send_status_with_info, run_after, send_stop_transaction,
}
use charger_simulator.Actor.Commands.{
  eq_status, default_fault, can_start_charging, start_unless, handle_plug_in, handle_unplug,
  handle_start_charging, handle_stop_charging, handle_emergency_stop, handle_clear_fault,
  handle_set_power, handle_set_meter_fault,
}
use charger_simulator.Actor.Link.{handle_go_offline}
use charger_simulator.Actor.Run.{handle_command}
use charger_simulator.Actor.Shown.Sends.{AllShow}
use charger_simulator.Actor.Moves.{
  stays, plugged, unplugged, stops, stops_at_once, faults, cleared, AllMove, none-AllMove,
  write-AllMove, map-AllMove, guarded-AllMove, stop-AllMove, open_shows, send_stop_open,
}

module _ {F : Type 0} ⦃fl : Float F⦄ (env : Env) where
  plug_in-AllMove :
      (id : ℤ) (c : Charger F)
      → AllMove (plug_in id) c.connectors (handle_plug_in env id c).connectors
  unfolding handle_plug_in
  plug_in-AllMove id c = elim (Option-cases (find_connector id c.connectors)) [
    | inl e ↦ rw (e, handle_plug_in) (none-AllMove (plug_in id) c.connectors)
    | inr (cn, e) ↦
        rw (e, handle_plug_in)
          (if_cases (λ (c' : Charger F). AllMove (plug_in id) c.connectors c'.connectors)
            (not (is_online c.cp_state)) (λ _. none-AllMove (plug_in id) c.connectors)
            λ _.
              if_cases (λ (c' : Charger F). AllMove (plug_in id) c.connectors c'.connectors)
                (not (eq_status cn.status available)) (λ _. none-AllMove (plug_in id) c.connectors)
                λ is.
                  guarded-AllMove env (plug_in id) id available preparing c _ cn e (not-true _ is)
                    plugged refl)
  ]

  unplug-AllMove :
      (id : ℤ) (c : Charger F)
      → AllMove (unplug id) c.connectors (handle_unplug env id c).connectors
  unfolding handle_unplug
  unplug-AllMove id c = elim (Option-cases (find_connector id c.connectors)) [
    | inl e ↦ rw (e, handle_unplug) (none-AllMove (unplug id) c.connectors)
    | inr (cn, e) ↦
        rw (e, handle_unplug)
          (if_cases (λ (c' : Charger F). AllMove (unplug id) c.connectors c'.connectors)
            (not (is_online c.cp_state)) (λ _. none-AllMove (unplug id) c.connectors)
            λ _.
              if_cases (λ (c' : Charger F). AllMove (unplug id) c.connectors c'.connectors)
                (not (eq_status cn.status preparing)) (λ _. none-AllMove (unplug id) c.connectors)
                λ is.
                  guarded-AllMove env (unplug id) id preparing available c _ cn e (not-true _ is)
                    unplugged refl)
  ]

  clear_fault-AllMove :
      (id : ℤ) (c : Charger F)
      → AllMove (clear_fault id) c.connectors (handle_clear_fault env id c).connectors
  unfolding handle_clear_fault
  clear_fault-AllMove id c = elim (Option-cases (find_connector id c.connectors)) [
    | inl e ↦ rw (e, handle_clear_fault) (none-AllMove (clear_fault id) c.connectors)
    | inr (cn, e) ↦
        rw (e, handle_clear_fault)
          (if_cases (λ (c' : Charger F). AllMove (clear_fault id) c.connectors c'.connectors)
            (not (eq_status cn.status faulted)) (λ _. none-AllMove (clear_fault id) c.connectors)
            λ is.
              guarded-AllMove env (clear_fault id) id faulted available c _ cn e (not-true _ is)
                cleared refl)
  ]

  stop_charging-AllMove :
      (id : ℤ) (c : Charger F)
      → AllShow c
      → AllMove (stop_charging id) c.connectors (handle_stop_charging env id c).connectors
  unfolding handle_stop_charging send_stop_transaction
  stop_charging-AllMove id c all = elim (Option-cases (find_connector id c.connectors)) [
    | inl e ↦ rw e (none-AllMove (stop_charging id) c.connectors)
    | inr (cn, e) ↦ elim (Bool-cases (eq_ℤ cn.tx_id (pos 0))) [
      | inl idle ↦ rw (e, idle) (none-AllMove (stop_charging id) c.connectors)
      | inr busy ↦
          rw (e, busy)
            (stop-AllMove env (stop_charging id) id local make_available _ cn e
              (stops (open_shows env id c cn all e busy)))
    ]
  ]

  emergency_stop-AllMove :
      (id : ℤ) (c : Charger F)
      → AllShow c
      → AllMove (emergency_stop id) c.connectors (handle_emergency_stop env id c).connectors
  unfolding handle_emergency_stop send_stop_transaction run_after send_status_with_info send_call
  emergency_stop-AllMove id c all = elim (Option-cases (find_connector id c.connectors)) [
    | inl e ↦ rw (e, handle_emergency_stop) (none-AllMove (emergency_stop id) c.connectors)
    | inr (cn, e) ↦ elim (Bool-cases (eq_ℤ cn.tx_id (pos 0))) [
      | inl idle ↦
          rw (e, handle_emergency_stop, idle)
            (write-AllMove (emergency_stop id) id (with_status faulted other_error) c.connectors
              (λ x. refl) (λ cn' found. faults))
      | inr busy ↦
          rw (e, handle_emergency_stop, busy)
            (rw
              (send_stop_open env id StopReason.emergency_stop make_faulted
                (emit_log "warn" "EMERGENCY STOP triggered" c) cn e busy)
              (stop-AllMove env (emergency_stop id) id StopReason.emergency_stop make_faulted
                (emit_log "warn" "EMERGENCY STOP triggered" c) cn e
                (stops_at_once (open_shows env id c cn all e busy))))
    ]
  ]

  start_charging-AllMove :
      (id : ℤ) (tag : String) (c : Charger F)
      → AllMove (start_charging id tag) c.connectors (handle_start_charging env id tag c).connectors
  unfolding handle_start_charging start_unless send_authorize send_call
  start_charging-AllMove id tag c =
      if_cases (λ (c' : Charger F). AllMove (start_charging id tag) c.connectors c'.connectors)
        (is_some (find_connector id c.connectors))
        (λ _. elim (Option-cases (can_start_charging id c)) [
          | inl e ↦ rw e (
              write-AllMove (start_charging id tag) id set_pending c.connectors (λ x. refl)
                (λ cn found. stays))
          | inr (r, e) ↦ rw e (none-AllMove (start_charging id tag) c.connectors)
        ])
        (λ _. none-AllMove (start_charging id tag) c.connectors)

  meter_fault-AllMove :
      (id : ℤ) (mode : Fault) (c : Charger F)
      → AllMove
          (set_meter_fault id mode)
          c.connectors
          (handle_set_meter_fault env id mode c).connectors
  unfolding handle_set_meter_fault
  meter_fault-AllMove id mode c =
      if_cases (λ (c' : Charger F). AllMove (set_meter_fault id mode) c.connectors c'.connectors)
        (is_some (find_connector id c.connectors))
        (λ _.
          if_cases
            (λ (c' : Charger F). AllMove (set_meter_fault id mode) c.connectors c'.connectors)
            (not (valid_fault (default_fault mode)))
            (λ _. none-AllMove (set_meter_fault id mode) c.connectors)
            (λ _.
              write-AllMove (set_meter_fault id mode) id _ c.connectors (λ x. refl)
                (λ cn found. stays)))
        (λ _. none-AllMove (set_meter_fault id mode) c.connectors)

  -- The state machine. In a charger whose connectors with an open transaction show Charging or
  -- Finishing, a command loses no connector, and changes the status of one along an edge for that
  -- command only: plugging in takes Available to Preparing and unplugging takes it back; a stop takes
  -- Charging or Finishing to Finishing, an emergency stop does too or faults the connector, and
  -- clearing takes Faulted to Available. Every other connector, and every other command, stays.
  pub handle_command_lem :
      (cmd : Command F) (c : Charger F)
      → AllShow c
      → AllMove cmd c.connectors (handle_command env cmd c).connectors
  unfolding handle_command handle_set_power handle_go_offline
  handle_command_lem (plug_in id) c all = plug_in-AllMove id c
  handle_command_lem (start_charging id tag) c all = start_charging-AllMove id tag c
  handle_command_lem (stop_charging id) c all = stop_charging-AllMove id c all
  handle_command_lem (unplug id) c all = unplug-AllMove id c
  handle_command_lem (emergency_stop id) c all = emergency_stop-AllMove id c all
  handle_command_lem (clear_fault id) c all = clear_fault-AllMove id c
  handle_command_lem (set_power w) c all = map-AllMove (set_power w) _ c.connectors
  handle_command_lem (set_meter_fault id mode) c all = meter_fault-AllMove id mode c
  handle_command_lem go_offline c all =
      if_cases (λ (c' : Charger F). AllMove go_offline c.connectors c'.connectors) c.offline
        (λ _. none-AllMove go_offline c.connectors) (λ _. none-AllMove go_offline c.connectors)
  handle_command_lem go_online c all = none-AllMove go_online c.connectors
