-- ===== src/Actor/Settled.antt =====
-- internal/actor/charger.go: the handlers bring no answered call back.
use charger_simulator.Common.{
  ℕ, Bool, true, false, String, str_eq, not, is_some, refl, inl, inr, Option-cases, if_cases,
}
use charger_simulator.Common.Int.{ℤ, pos, eq_ℤ}
use charger_simulator.Json.{Json}
use charger_simulator.J16.Enums.{
  available, preparing, faulted, finishing, no_error, StopReason, local,
}
use charger_simulator.Meter.Fault.{valid_fault}
use charger_simulator.J16.Messages.{MeterValue, TriggerMessageReq}
use charger_simulator.J16.Frame.{DecodedFrame, a_call, a_result, an_error, Result, ok, err}
use charger_simulator.Meter.Float.{Float}
use charger_simulator.Actor.State.{
  Command, plug_in, start_charging, stop_charging, unplug, emergency_stop, clear_fault, set_power,
  set_meter_fault, go_offline, go_online, Charger, Env, AfterStop, make_available, make_faulted,
}
use charger_simulator.Actor.Connectors.{find_connector}
use charger_simulator.Actor.Snapshot.{is_online}
use charger_simulator.Actor.Send.{
  find_call, reply, send_boot, send_heartbeat, send_authorize, send_stop_transaction,
  stop_transaction_of,
}
use charger_simulator.Actor.Commands.{
  eq_status, can_start_charging, start_unless, handle_plug_in, handle_unplug, handle_start_charging,
  handle_stop_charging, handle_emergency_stop, handle_clear_fault, handle_set_power,
  handle_set_meter_fault, has_tx, default_fault,
}
use charger_simulator.Actor.Results.{store_update_meter}
use charger_simulator.Actor.Inbound.{
  CmsAction, remote_start, remote_stop, reset, change_availability, trigger_message,
  unlock_connector, not_implemented, enqueue, connector_of_tx, report, send_meter_values,
  handle_trigger, handle_remote_start, handle_remote_stop, run_action, handle_incoming_call,
  handle_frame, id_or_1,
}
use charger_simulator.Actor.Link.{handle_go_offline}
use charger_simulator.Actor.Run.{handle_command}
use charger_simulator.Actor.Answers.{
  IsForgotten, AreFresh, later, send_call-IsForgotten, send_status-IsForgotten,
  run_after-IsForgotten, result-IsForgotten, error-IsForgotten,
}

module _ {F : Type 0} ⦃fl : Float F⦄ (env : Env) (base : ℕ) (msg : String)
    (fresh : AreFresh env base msg) where
  abbrev Gone : Charger F → Type 0
  Gone c = IsForgotten base msg c

  plug_in-IsForgotten : (id : ℤ) (c : Charger F) → Gone c → Gone (handle_plug_in env id c)
  unfolding handle_plug_in
  plug_in-IsForgotten id c h = elim (Option-cases (find_connector id c.connectors)) [
    | inl e ↦ rw (e, handle_plug_in) h
    | inr (cn, e) ↦
        rw (e, handle_plug_in)
          (if_cases Gone (not (is_online c.cp_state)) (λ _. h)
            (λ _.
              if_cases Gone (not (eq_status cn.status available)) (λ _. h)
                (λ _. send_status-IsForgotten env base msg fresh id preparing no_error _ h)))
  ]

  unplug-IsForgotten : (id : ℤ) (c : Charger F) → Gone c → Gone (handle_unplug env id c)
  unfolding handle_unplug
  unplug-IsForgotten id c h = elim (Option-cases (find_connector id c.connectors)) [
    | inl e ↦ rw (e, handle_unplug) h
    | inr (cn, e) ↦
        rw (e, handle_unplug)
          (if_cases Gone (not (is_online c.cp_state)) (λ _. h)
            (λ _.
              if_cases Gone (not (eq_status cn.status preparing)) (λ _. h)
                (λ _. send_status-IsForgotten env base msg fresh id available no_error _ h)))
  ]

  start-IsForgotten :
      (id : ℤ) (tag : String) (c : Charger F) → Gone c → Gone (handle_start_charging env id tag c)
  unfolding handle_start_charging start_unless send_authorize
  start-IsForgotten id tag c h =
      if_cases Gone (is_some (find_connector id c.connectors))
        (λ _. elim (Option-cases (can_start_charging id c)) [
          | inl e ↦ rw (e, start_unless) (send_call-IsForgotten env base msg fresh _ _ _ _ h)
          | inr (r, e) ↦ rw (e, start_unless) h
        ])
        (λ _. h)

  stop_transaction-IsForgotten :
      (id : ℤ) (reason : StopReason) (after : AfterStop) (c : Charger F)
      → Gone c
      → Gone (send_stop_transaction env id reason after c)
  unfolding send_stop_transaction stop_transaction_of
  stop_transaction-IsForgotten id reason after c h =
      elim (Option-cases (find_connector id c.connectors)) [
        | inl e ↦
            rw (e, send_stop_transaction) (run_after-IsForgotten env base msg fresh id after c h)
        | inr (cn, e) ↦
            rw (e, send_stop_transaction)
              (if_cases Gone (eq_ℤ cn.tx_id (pos 0))
                (λ _. run_after-IsForgotten env base msg fresh id after c h)
                (λ _.
                  send_call-IsForgotten env base msg fresh _ _ _ _
                    (send_status-IsForgotten env base msg fresh id finishing no_error _ h)))
      ]

  emergency-IsForgotten : (id : ℤ) (c : Charger F) → Gone c → Gone (handle_emergency_stop env id c)
  unfolding handle_emergency_stop
  emergency-IsForgotten id c h = elim (Option-cases (find_connector id c.connectors)) [
    | inl e ↦ rw (e, handle_emergency_stop) h
    | inr (cn, e) ↦
        rw (e, handle_emergency_stop)
          (if_cases Gone (not (eq_ℤ cn.tx_id (pos 0)))
            (λ _. stop_transaction-IsForgotten id StopReason.emergency_stop make_faulted _ h)
            (λ _. run_after-IsForgotten env base msg fresh id make_faulted _ h))
  ]

  clear_fault-IsForgotten : (id : ℤ) (c : Charger F) → Gone c → Gone (handle_clear_fault env id c)
  unfolding handle_clear_fault
  clear_fault-IsForgotten id c h = elim (Option-cases (find_connector id c.connectors)) [
    | inl e ↦ rw (e, handle_clear_fault) h
    | inr (cn, e) ↦
        rw (e, handle_clear_fault)
          (if_cases Gone (not (eq_status cn.status faulted)) (λ _. h)
            (λ _. send_status-IsForgotten env base msg fresh id available no_error _ h))
  ]

  pub handle_command-IsForgotten :
      (cmd : Command F) (c : Charger F) → Gone c → Gone (handle_command env cmd c)
  unfolding handle_command handle_stop_charging handle_set_power handle_set_meter_fault
      handle_go_offline find_call
  handle_command-IsForgotten (plug_in id) c h = plug_in-IsForgotten id c h
  handle_command-IsForgotten (start_charging id tag) c h = start-IsForgotten id tag c h
  handle_command-IsForgotten (stop_charging id) c h =
      if_cases Gone (has_tx (find_connector id c.connectors))
        (λ _. stop_transaction-IsForgotten id local make_available _ h) (λ _. h)
  handle_command-IsForgotten (unplug id) c h = unplug-IsForgotten id c h
  handle_command-IsForgotten (emergency_stop id) c h = emergency-IsForgotten id c h
  handle_command-IsForgotten (clear_fault id) c h = clear_fault-IsForgotten id c h
  handle_command-IsForgotten (set_power w) c h = h
  handle_command-IsForgotten (set_meter_fault id mode) c h =
      if_cases Gone (is_some (find_connector id c.connectors))
        (λ _. if_cases Gone (not (valid_fault (default_fault mode))) (λ _. h) (λ _. h)) (λ _. h)
  handle_command-IsForgotten go_offline c h = if_cases Gone c.offline (λ _. h) (λ _. (refl, h.1))
  handle_command-IsForgotten go_online c h = h

  report-IsForgotten :
      (id tx : ℤ) (mv : MeterValue × Bool) (c : Charger F) → Gone c → Gone (report env id tx mv c)
  unfolding report
  report-IsForgotten id tx (mv, false) c h = h
  report-IsForgotten id tx (mv, true) c h = send_call-IsForgotten env base msg fresh _ _ _ _ h

  pub send_meter_values-IsForgotten :
      (id : ℤ) (c : Charger F) → Gone c → Gone (send_meter_values env id c)
  unfolding send_meter_values store_update_meter
  send_meter_values-IsForgotten id c h = elim (Option-cases (find_connector id c.connectors)) [
    | inl e ↦ rw (e, send_meter_values) h
    | inr (cn, e) ↦
        rw (e, send_meter_values)
          (if_cases Gone (eq_ℤ cn.tx_id (pos 0)) (λ _. h)
            (λ _. report-IsForgotten id cn.tx_id _ _ (h.0, later h.1)))
  ]

  trigger-IsForgotten :
      (req : TriggerMessageReq) (c : Charger F) → Gone c → Gone (handle_trigger env req c)
  unfolding handle_trigger send_boot send_heartbeat
  trigger-IsForgotten req c h =
      let id : ℤ = id_or_1 req.connector_id in
      if_cases Gone (str_eq req.requested_message "BootNotification")
        (λ _. send_call-IsForgotten env base msg fresh _ _ _ _ h)
        (λ _.
          if_cases Gone (str_eq req.requested_message "Heartbeat")
            (λ _. send_call-IsForgotten env base msg fresh _ _ _ _ h)
            (λ _.
              if_cases Gone (str_eq req.requested_message "StatusNotification")
                (λ _. elim (Option-cases (find_connector id c.connectors)) [
                  | inl e ↦ rw (e) h
                  | inr (cn, e) ↦
                      rw (e)
                        (send_status-IsForgotten env base msg fresh id cn.status cn.error_code c h)
                ])
                (λ _.
                  if_cases Gone (str_eq req.requested_message "MeterValues")
                    (λ _. send_meter_values-IsForgotten id c h) (λ _. h))))

  run_action-IsForgotten :
      (a : CmsAction) (m : String) (p : Json) (c : Charger F)
      → Gone c
      → Gone (run_action env a m p c)
  unfolding run_action handle_remote_start handle_remote_stop enqueue reply
  run_action-IsForgotten remote_start m p c h =
      if_cases Gone (is_some (can_start_charging (id_or_1 (env.remote_start p).connector_id) c))
        (λ _. (h.0, later h.1)) (λ _. (h.0, later h.1))
  run_action-IsForgotten remote_stop m p c h =
      if_cases Gone (eq_ℤ (connector_of_tx (env.remote_stop p).transaction_id c.connectors) (pos 0))
        (λ _. (h.0, later h.1)) (λ _. (h.0, later h.1))
  run_action-IsForgotten reset m p c h = (h.0, later h.1)
  run_action-IsForgotten change_availability m p c h = (h.0, later h.1)
  run_action-IsForgotten trigger_message m p c h =
      trigger-IsForgotten (env.trigger p) _ (h.0, later h.1)
  run_action-IsForgotten unlock_connector m p c h = (h.0, later h.1)
  run_action-IsForgotten not_implemented m p c h = (h.0, later h.1)

  pub handle_frame-IsForgotten :
      (r : Result DecodedFrame) (c : Charger F) → Gone c → Gone (handle_frame env r c)
  unfolding handle_frame handle_incoming_call
  handle_frame-IsForgotten (err e) c h = h
  handle_frame-IsForgotten (ok (a_result r)) c h = result-IsForgotten env base msg r c fresh h
  handle_frame-IsForgotten (ok (an_error e)) c h = error-IsForgotten env base msg e c fresh h
  handle_frame-IsForgotten (ok (a_call call)) c h = run_action-IsForgotten _ _ _ _ h
