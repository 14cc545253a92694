-- ===== src/Actor/Shown/Run.antt =====
-- internal/actor/charger.go: a connector with an open transaction shows Charging or Finishing: so it
-- is after every schedule of the Run loop.
use charger_simulator.Common.{
  ℕ, zero, suc, Bool, List, Option, some, ◌≡◌, refl, inl, inr, All, Option-cases, arith, if_cases,
}
use charger_simulator.Common.Int.{ℤ}
use charger_simulator.Config.{ChargerConfig}
use charger_simulator.Meter.Float.{Float}
use charger_simulator.Meter.Engine.{sample}
use charger_simulator.Session.Store.{FileStore}
use charger_simulator.Actor.State.{
  Command, plug_in, start_charging, stop_charging, unplug, emergency_stop, clear_fault, set_power,
  set_meter_fault, go_offline, go_online, Connector, Charger, Env,
}
use charger_simulator.Actor.Connectors.{find_connector, find-All, with_engine}
use charger_simulator.Actor.Send.{send_call, send_status}
use charger_simulator.Actor.Results.{store_update_meter}
use charger_simulator.Actor.Inbound.{send_meter_values}
use charger_simulator.Actor.Link.{handle_go_offline}
use charger_simulator.Actor.New.{clamp_count, new_connectors, new_charger}
use charger_simulator.Actor.Run.{Input, handle_command, start_run, run}
use charger_simulator.Actor.Induction.{Keeps, schedule-Holds}
use charger_simulator.Actor.Shown.Sends.{
  ShowsTx, AllShow, IsIdle-some, send_status-AllShow, keep-AllShow,
}
use charger_simulator.Actor.Shown.Commands.{
  handle_plug_in-AllShow, handle_unplug-AllShow, handle_clear_fault-AllShow,
  handle_start_charging-AllShow, handle_stop_charging-AllShow, handle_emergency_stop-AllShow,
  handle_set_power-AllShow, handle_set_meter_fault-AllShow,
}
use charger_simulator.Actor.Shown.Results.{run_result-AllShow, run_error-AllShow}

module _ {F : Type 0} ⦃fl : Float F⦄ (env : Env) where
  send_meter_values-AllShow :
      (id : ℤ) (c : Charger F) → AllShow c → AllShow (send_meter_values env id c)
  unfolding send_meter_values store_update_meter send_call
  send_meter_values-AllShow id c all = elim (Option-cases (find_connector id c.connectors)) [
    | inl e ↦ rw (e, send_meter_values) all
    | inr (cn, e) ↦
        rw (e, send_meter_values)
          (ground (
            arith,
            all,
            keep-AllShow env id (with_engine (sample (env.now c.ticks))) c.connectors
                (λ x. (refl, refl, refl)) all,
          ))
  ]

  -- A connector may show its own status again.
  own_status-AllShow :
      (id : ℤ) (c : Charger F) (cn : Connector F)
      → find_connector id c.connectors ≡ some cn
      → AllShow c
      → AllShow (send_status env id cn.status cn.error_code c)
  own_status-AllShow id c cn e all =
      send_status-AllShow env id cn.status cn.error_code c
        (elim (find-All ShowsTx id c.connectors cn e all).1 [
          | inl idle ↦ inr (IsIdle-some env id c e idle)
          | inr may ↦ inl may
        ])
        all

  handle_command-AllShow :
      (cmd : Command F) (c : Charger F) → AllShow c → AllShow (handle_command env cmd c)
  unfolding handle_command handle_go_offline
  handle_command-AllShow (plug_in id) c all = handle_plug_in-AllShow env id c all
  handle_command-AllShow (start_charging id tag) c all =
      handle_start_charging-AllShow env id tag c all
  handle_command-AllShow (stop_charging id) c all = handle_stop_charging-AllShow env id c all
  handle_command-AllShow (unplug id) c all = handle_unplug-AllShow env id c all
  handle_command-AllShow (emergency_stop id) c all = handle_emergency_stop-AllShow env id c all
  handle_command-AllShow (clear_fault id) c all = handle_clear_fault-AllShow env id c all
  handle_command-AllShow (set_power w) c all = handle_set_power-AllShow env w c all
  handle_command-AllShow (set_meter_fault id mode) c all =
      handle_set_meter_fault-AllShow env id mode c all
  handle_command-AllShow go_offline c all = if_cases AllShow c.offline (λ _. all) (λ _. all)
  handle_command-AllShow go_online c all = all

  shown_kept : Keeps {F = F} (λ cfg store cns. All ShowsTx cns) env
  shown_kept = record {
    on_command = handle_command-AllShow;
    on_result = run_result-AllShow env;
    on_error = run_error-AllShow env;
    on_meter = send_meter_values-AllShow;
    on_status = own_status-AllShow;
  }

module _ {F : Type 0} ⦃fl : Float F⦄ (env : Env) (stop : ℕ → Bool) (fuel : ℕ) where
  new_connectors-AllShow :
      (cfg : ChargerConfig F) (i n : ℕ) → All ShowsTx (new_connectors cfg (suc i) n)
  unfolding new_connectors
  new_connectors-AllShow cfg i zero = tt
  new_connectors-AllShow cfg i (suc n) =
      ((ground arith, inl refl), new_connectors-AllShow cfg (suc i) n)

  -- Whatever the CMS, the network, the disk and the callers do, in any order: a charger that was
  -- started keeps every connector with an open transaction in Charging or Finishing.
  pub transaction_shown :
      (cfg : ChargerConfig F) (store : Option FileStore) (is : List (Input F))
      → AllShow (run env stop fuel is (start_run env (new_charger env cfg store))).charger
  unfolding new_charger
  transaction_shown cfg store is =
      schedule-Holds (λ cfg store cns. All ShowsTx cns) env (shown_kept env) stop fuel cfg store is
        (new_connectors-AllShow cfg 0 (clamp_count cfg.num_connectors))
