-- ===== src/Actor/Shown/Commands.antt =====
-- internal/actor/charger.go: a connector with an open transaction shows Charging or Finishing: the
-- user's commands keep it so.
use charger_simulator.Common.{
  String, true, not, List, [], ◌∷◌, map, some, is_some, ◌≡◌, refl, inl, inr, All, Option-cases,
  arith, if_cases, not-true,
}
use charger_simulator.Common.Int.{ℤ, pos, eq_ℤ, eq_ℤ_iff}
use charger_simulator.J16.Enums.{
  ChargePointStatus, available, preparing, faulted, no_error, StopReason, local,
}
use charger_simulator.Meter.Float.{Float}
use charger_simulator.Meter.Engine.{Engine}
use charger_simulator.Meter.Fault.{Fault, valid_fault}
use charger_simulator.Actor.State.{Connector, make_available, make_faulted, Charger, Env}
use charger_simulator.Actor.Connectors.{find_connector, find-All, with_engine, set_pending}
use charger_simulator.Actor.Snapshot.{is_online}
use charger_simulator.Actor.Send.{send_call, send_authorize}
use charger_simulator.Actor.Commands.{
  eq_status, has_tx, default_fault, can_start_charging, handle_plug_in, handle_unplug,
  handle_start_charging, handle_stop_charging, handle_emergency_stop, handle_clear_fault,
  handle_set_power, handle_set_meter_fault,
}
use charger_simulator.Actor.Shown.Sends.{
  ShowsTx, AllShow, eq_status-eq, IsIdle, MayCharge, IsIdle-some, send_status-AllShow,
  send_stop_transaction-AllShow, run_after-AllShow, keep-AllShow,
}

-- Where the status is another one, there is no transaction.
pub idle_of_status :
    {F : Type 0} (cn : Connector F) (status : ChargePointStatus)
    → ShowsTx cn
    → cn.status ≡ status
    → ¬ MayCharge status
    → cn.tx_id ≡ pos 0
idle_of_status cn status (_, inl idle) e other = idle
idle_of_status cn status (_, inr may) e other = absurd (other (rw (← e) may))

module _ {F : Type 0} ⦃fl : Float F⦄ (env : Env) where
  -- The connector of an id that shows a status for no transaction is idle.
  pub IsIdle-by_status :
      (id : ℤ) (status : ChargePointStatus) (c : Charger F) (cn : Connector F)
      → find_connector id c.connectors ≡ some cn
      → eq_status cn.status status ≡ true
      → ¬ MayCharge status
      → AllShow c
      → IsIdle id c
  IsIdle-by_status id status c cn e is other all = IsIdle-some env id c e (
      idle_of_status cn status (find-All ShowsTx id c.connectors cn e all)
        (eq_status-eq cn.status status is) other)

  pub handle_plug_in-AllShow :
      (id : ℤ) (c : Charger F) → AllShow c → AllShow (handle_plug_in env id c)
  unfolding handle_plug_in
  handle_plug_in-AllShow id c all = elim (Option-cases (find_connector id c.connectors)) [
    | inl e ↦ rw (e, handle_plug_in) all
    | inr (cn, e) ↦
        rw (e, handle_plug_in)
          (if_cases AllShow (not (is_online c.cp_state)) (λ _. all)
            λ _.
              if_cases AllShow (not (eq_status cn.status available)) (λ _. all)
                λ is.
                  send_status-AllShow env id preparing no_error _
                    (inr (
                      IsIdle-by_status id available c cn e (not-true _ is) (λ m. ground arith) all))
                    all)
  ]

  pub handle_unplug-AllShow :
      (id : ℤ) (c : Charger F) → AllShow c → AllShow (handle_unplug env id c)
  unfolding handle_unplug
  handle_unplug-AllShow id c all = elim (Option-cases (find_connector id c.connectors)) [
    | inl e ↦ rw (e, handle_unplug) all
    | inr (cn, e) ↦
        rw (e, handle_unplug)
          (if_cases AllShow (not (is_online c.cp_state)) (λ _. all)
            λ _.
              if_cases AllShow (not (eq_status cn.status preparing)) (λ _. all)
                λ is.
                  send_status-AllShow env id available no_error _
                    (inr (
                      IsIdle-by_status id preparing c cn e (not-true _ is) (λ m. ground arith) all))
                    all)
  ]

  pub handle_clear_fault-AllShow :
      (id : ℤ) (c : Charger F) → AllShow c → AllShow (handle_clear_fault env id c)
  unfolding handle_clear_fault
  handle_clear_fault-AllShow id c all = elim (Option-cases (find_connector id c.connectors)) [
    | inl e ↦ rw (e, handle_clear_fault) all
    | inr (cn, e) ↦
        rw (e, handle_clear_fault)
          (if_cases AllShow (not (eq_status cn.status faulted)) (λ _. all)
            λ is.
              send_status-AllShow env id available no_error _
                (inr (IsIdle-by_status id faulted c cn e (not-true _ is) (λ m. ground arith) all))
                all)
  ]

  pub handle_start_charging-AllShow :
      (id : ℤ) (tag : String) (c : Charger F)
      → AllShow c
      → AllShow (handle_start_charging env id tag c)
  unfolding handle_start_charging send_authorize send_call
  handle_start_charging-AllShow id tag c all =
      if_cases AllShow (is_some (find_connector id c.connectors))
        (λ _. elim (Option-cases (can_start_charging id c)) [
          | inl e ↦
              rw (e, handle_start_charging)
                (keep-AllShow env id set_pending c.connectors (λ x. (refl, refl, refl)) all)
          | inr (r, e) ↦ rw (e, handle_start_charging) all
        ])
        λ _. all

  pub handle_stop_charging-AllShow :
      (id : ℤ) (c : Charger F) → AllShow c → AllShow (handle_stop_charging env id c)
  unfolding handle_stop_charging
  handle_stop_charging-AllShow id c all =
      if_cases AllShow (has_tx (find_connector id c.connectors))
        (λ _. send_stop_transaction-AllShow env id local make_available _ all) (λ _. all)

  pub handle_emergency_stop-AllShow :
      (id : ℤ) (c : Charger F) → AllShow c → AllShow (handle_emergency_stop env id c)
  unfolding handle_emergency_stop
  handle_emergency_stop-AllShow id c all = elim (Option-cases (find_connector id c.connectors)) [
    | inl e ↦ rw (e, handle_emergency_stop) all
    | inr (cn, e) ↦
        rw (e, handle_emergency_stop)
          (if_cases AllShow (not (eq_ℤ cn.tx_id (pos 0)))
            (λ _. send_stop_transaction-AllShow env id StopReason.emergency_stop make_faulted _ all)
            λ idle.
              run_after-AllShow env id make_faulted _
                (IsIdle-some env id c e ((eq_ℤ_iff cn.tx_id (pos 0)).0 (not-true _ idle))) all)
  ]

  map-AllShow :
      (f : Engine F → Engine F) (cns : List (Connector F))
      → All ShowsTx cns
      → All ShowsTx (map (with_engine f) cns)
  map-AllShow f [] all = tt
  map-AllShow f (cn ∷ cns) all = (all.0, map-AllShow f cns all.1)

  pub handle_set_power-AllShow :
      (w : F) (c : Charger F) → AllShow c → AllShow (handle_set_power env w c)
  unfolding handle_set_power
  handle_set_power-AllShow w c all = map-AllShow _ c.connectors all

  pub handle_set_meter_fault-AllShow :
      (id : ℤ) (mode : Fault) (c : Charger F)
      → AllShow c
      → AllShow (handle_set_meter_fault env id mode c)
  unfolding handle_set_meter_fault
  handle_set_meter_fault-AllShow id mode c all =
      if_cases AllShow (is_some (find_connector id c.connectors))
        (λ _.
          if_cases AllShow (not (valid_fault (default_fault mode))) (λ _. all)
            λ _. keep-AllShow env id _ c.connectors (λ x. (refl, refl, refl)) all)
        λ _. all
