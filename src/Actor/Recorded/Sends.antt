-- ===== src/Actor/Recorded/Sends.antt =====
-- internal/actor/charger.go: the sends, the store's operations and the commands keep every open
-- transaction on record.
use charger_simulator.Common.{
  String, not, is_some, refl, inl, inr, Option-cases, Bool-cases, if_cases,
}
use charger_simulator.Common.Int.{ℤ, pos, eq_ℤ}
use charger_simulator.J16.Enums.{
  ChargePointStatus, ChargePointErrorCode, StopReason, available, preparing, faulted, finishing,
  no_error, local,
}
use charger_simulator.Meter.Float.{Float}
use charger_simulator.Meter.Fault.{valid_fault}
use charger_simulator.Actor.State.{
  Command, plug_in, start_charging, stop_charging, unplug, emergency_stop, clear_fault, set_power,
  set_meter_fault, go_offline, go_online, Connector, AfterStop, make_available, make_faulted,
  Charger, Env,
}
use charger_simulator.Actor.Connectors.{find_connector, modify, set_pending, with_status}
use charger_simulator.Actor.Snapshot.{is_online}
use charger_simulator.Actor.Send.{
  send_call, send_status, send_status_with_info, send_authorize, send_start_transaction, run_after,
  stop_transaction_of, send_stop_transaction,
}
use charger_simulator.Actor.Commands.{
  eq_status, can_start_charging, default_fault, has_tx, handle_plug_in, handle_unplug,
  handle_start_charging, handle_stop_charging, handle_emergency_stop, handle_clear_fault,
  handle_set_power, handle_set_meter_fault,
}
use charger_simulator.Actor.Link.{handle_go_offline}
use charger_simulator.Actor.Run.{handle_command}
use charger_simulator.Actor.Recorded.Base.{
  AreRecorded, KeepsTx, modify-AreRecorded, map-AreRecorded,
}

abbrev pub IsRecorded : {F : Type 0} → Env → Charger F → Type 0
IsRecorded env c = AreRecorded env c.cfg c.store c.connectors

module _ {F : Type 0} ⦃fl : Float F⦄ (env : Env) where
  -- A write to a connector that keeps its transaction.
  pub kept :
      (id : ℤ) (f : Connector F → Connector F) (c : Charger F)
      → KeepsTx f
      → IsRecorded env c
      → AreRecorded env c.cfg c.store (modify id f c.connectors)
  kept id f c keeps rec = modify-AreRecorded env c.cfg c.store id f c.connectors keeps rec

  pub send_status-IsRecorded :
      (id : ℤ) (status : ChargePointStatus) (code : ChargePointErrorCode) (c : Charger F)
      → IsRecorded env c
      → IsRecorded env (send_status env id status code c)
  unfolding send_status send_call
  send_status-IsRecorded id status code c rec = elim (Bool-cases (eq_ℤ id (pos 0))) [
    | inl e ↦ rw e rec
    | inr e ↦ rw e (kept id (with_status status code) c (λ x. (refl, refl)) rec)
  ]

  pub run_after-IsRecorded :
      (id : ℤ) (after : AfterStop) (c : Charger F)
      → IsRecorded env c
      → IsRecorded env (run_after env id after c)
  unfolding run_after send_status_with_info send_call
  run_after-IsRecorded id make_available c rec = send_status-IsRecorded id available no_error c rec
  run_after-IsRecorded id make_faulted c rec = kept id _ c (λ x. (refl, refl)) rec

  pub send_start_transaction-IsRecorded :
      (id : ℤ) (tag : String) (c : Charger F)
      → IsRecorded env c
      → IsRecorded env (send_start_transaction env id tag c)
  unfolding send_start_transaction send_call
  send_start_transaction-IsRecorded id tag c rec =
      elim (Option-cases (find_connector id c.connectors)) [
        | inl e ↦ rw (e, send_start_transaction) rec
        | inr (cn, e) ↦ rw (e, send_start_transaction) (kept id _ c (λ x. (refl, refl)) rec)
      ]

  stop_transaction_of-IsRecorded :
      (id : ℤ) (reason : StopReason) (after : AfterStop) (cn : Connector F) (c : Charger F)
      → IsRecorded env c
      → IsRecorded env (stop_transaction_of env id reason after cn c)
  unfolding stop_transaction_of send_call
  stop_transaction_of-IsRecorded id reason after cn c rec =
      send_status-IsRecorded id finishing no_error _ (kept id _ c (λ x. (refl, refl)) rec)

  pub send_stop_transaction-IsRecorded :
      (id : ℤ) (reason : StopReason) (after : AfterStop) (c : Charger F)
      → IsRecorded env c
      → IsRecorded env (send_stop_transaction env id reason after c)
  unfolding send_stop_transaction
  send_stop_transaction-IsRecorded id reason after c rec =
      elim (Option-cases (find_connector id c.connectors)) [
        | inl e ↦ rw (e, send_stop_transaction) (run_after-IsRecorded id after c rec)
        | inr (cn, e) ↦
            rw (e, send_stop_transaction)
              (if_cases (IsRecorded env) (eq_ℤ cn.tx_id (pos 0))
                (λ _. run_after-IsRecorded id after c rec)
                (λ _. stop_transaction_of-IsRecorded id reason after cn c rec))
      ]

  pub handle_command-IsRecorded :
      (cmd : Command F) (c : Charger F)
      → IsRecorded env c
      → IsRecorded env (handle_command env cmd c)
  unfolding handle_command handle_go_offline handle_plug_in handle_unplug handle_start_charging
      handle_stop_charging handle_emergency_stop handle_clear_fault handle_set_power
      handle_set_meter_fault send_authorize send_call
  handle_command-IsRecorded (plug_in id) c rec =
      elim (Option-cases (find_connector id c.connectors)) [
        | inl e ↦ rw (e, handle_plug_in) rec
        | inr (cn, e) ↦
            rw (e, handle_plug_in)
              (if_cases (IsRecorded env) (not (is_online c.cp_state)) (λ _. rec)
                λ _.
                  if_cases (IsRecorded env) (not (eq_status cn.status available)) (λ _. rec)
                    λ _. send_status-IsRecorded id preparing no_error _ rec)
      ]
  handle_command-IsRecorded (unplug id) c rec =
      elim (Option-cases (find_connector id c.connectors)) [
        | inl e ↦ rw (e, handle_unplug) rec
        | inr (cn, e) ↦
            rw (e, handle_unplug)
              (if_cases (IsRecorded env) (not (is_online c.cp_state)) (λ _. rec)
                λ _.
                  if_cases (IsRecorded env) (not (eq_status cn.status preparing)) (λ _. rec)
                    λ _. send_status-IsRecorded id available no_error _ rec)
      ]
  handle_command-IsRecorded (start_charging id tag) c rec =
      if_cases (IsRecorded env) (is_some (find_connector id c.connectors))
        (λ _. elim (Option-cases (can_start_charging id c)) [
          | inl e ↦ rw (e, handle_start_charging) (kept id set_pending c (λ x. (refl, refl)) rec)
          | inr (r, e) ↦ rw (e, handle_start_charging) rec
        ])
        λ _. rec
  handle_command-IsRecorded (stop_charging id) c rec =
      if_cases (IsRecorded env) (has_tx (find_connector id c.connectors))
        (λ _. send_stop_transaction-IsRecorded id local make_available _ rec) (λ _. rec)
  handle_command-IsRecorded (emergency_stop id) c rec =
      elim (Option-cases (find_connector id c.connectors)) [
        | inl e ↦ rw (e, handle_emergency_stop) rec
        | inr (cn, e) ↦
            rw (e, handle_emergency_stop)
              (if_cases (IsRecorded env) (not (eq_ℤ cn.tx_id (pos 0)))
                (λ _.
                  send_stop_transaction-IsRecorded id StopReason.emergency_stop make_faulted _ rec)
                (λ _. run_after-IsRecorded id make_faulted _ rec))
      ]
  handle_command-IsRecorded (clear_fault id) c rec =
      elim (Option-cases (find_connector id c.connectors)) [
        | inl e ↦ rw (e, handle_clear_fault) rec
        | inr (cn, e) ↦
            rw (e, handle_clear_fault)
              (if_cases (IsRecorded env) (not (eq_status cn.status faulted)) (λ _. rec)
                (λ _. send_status-IsRecorded id available no_error _ rec))
      ]
  handle_command-IsRecorded (set_power w) c rec =
      map-AreRecorded env c.cfg c.store _ c.connectors rec
  handle_command-IsRecorded (set_meter_fault id mode) c rec =
      if_cases (IsRecorded env) (is_some (find_connector id c.connectors))
        (λ _.
          if_cases (IsRecorded env) (not (valid_fault (default_fault mode))) (λ _. rec)
            λ _. kept id _ c (λ x. (refl, refl)) rec)
        λ _. rec
  handle_command-IsRecorded go_offline c rec =
      if_cases (IsRecorded env) c.offline (λ _. rec) (λ _. rec)
  handle_command-IsRecorded go_online c rec = rec
