-- ===== src/Actor/Induction.antt =====
-- internal/actor/charger.go: what every schedule of the Run loop keeps. A property of the
-- configuration, the store and the connectors is kept by the loop if the handlers that write one of
-- these keep it; the rest of the loop is done here once.
use charger_simulator.Common.{
  ℕ, zero, suc, String, str_eq, Bool, not, List, [], ◌∷◌, Option, some, is_some, ◌≡◌, inl, inr,
  Option-cases, arith, if_cases,
}
use charger_simulator.Common.Int.{ℤ, pos, eq_ℤ}
use charger_simulator.Json.{Json}
use charger_simulator.Config.{ChargerConfig}
use charger_simulator.J16.Messages.{TriggerMessageReq}
use charger_simulator.J16.Frame.{DecodedFrame, a_call, a_result, an_error, Result, ok, err, decode}
use charger_simulator.Meter.Float.{Float}
use charger_simulator.Session.Store.{FileStore}
use charger_simulator.Actor.State.{Command, go_online, Connector, Charger, Env, OnResult, OnError}
use charger_simulator.Actor.Connectors.{find_connector, ids_of}
use charger_simulator.Actor.Send.{
  find_call, send_call, reply, send_boot, send_heartbeat, send_status,
}
use charger_simulator.Actor.Results.{run_result, run_error}
use charger_simulator.Actor.Commands.{can_start_charging}
use charger_simulator.Actor.Inbound.{
  CmsAction, remote_start, remote_stop, reset, change_availability, trigger_message,
  unlock_connector, not_implemented, enqueue, connector_of_tx, send_meter_values, handle_trigger,
  handle_remote_start, handle_remote_stop, run_action, handle_incoming_call, handle_frame,
  handle_inbound, id_or_1,
}
use charger_simulator.Actor.Link.{
  dial_and_swap, handle_go_online, on_unexpected_drop, attempt, next_backoff, reconnect_loop,
  reconnect_with_backoff, Outcome, connected, cancelled, out_of_fuel,
}
use charger_simulator.Actor.New.{clamp_count, new_connectors, new_charger}
use charger_simulator.Actor.Run.{
  Input, submit, take_command, frame, inbound_closed, heartbeat_tick, meter_tick, cancel, Loop,
  Mode, running, after_reconnect, take_from, take_oldest, step_mode, is_charging, sweep,
  handle_command, shut_down, start_run, running_step, step, run,
}

-- The charger in an outcome.
abbrev charger_of : {F : Type 0} → Outcome F → Charger F
charger_of (connected c) = c
charger_of (cancelled c) = c
charger_of (out_of_fuel c) = c

module _ {F : Type 0} ⦃fl : Float F⦄
    (P : ChargerConfig F → Option FileStore → List (Connector F) → Type 0) where
  abbrev pub Holds : Charger F → Type 0
  Holds c = P c.cfg c.store c.connectors

  -- The handlers that write connectors or the store keep the property.
  pub record Keeps (env : Env) : Type 0 where
    pub on_command : (cmd : Command F) (c : Charger F) → Holds c → Holds (handle_command env cmd c)
    pub on_result :
        (r : OnResult) (payload : Json) (c : Charger F)
        → Holds c
        → Holds (run_result env r payload c)
    pub on_error : (r : OnError) (c : Charger F) → Holds c → Holds (run_error env r c)
    pub on_meter : (id : ℤ) (c : Charger F) → Holds c → Holds (send_meter_values env id c)
    -- A connector shows its own status again.
    pub on_status :
        (id : ℤ) (c : Charger F) (cn : Connector F)
        → find_connector id c.connectors ≡ some cn
        → Holds c
        → Holds (send_status env id cn.status cn.error_code c)

module _ {F : Type 0} ⦃fl : Float F⦄
    (P : ChargerConfig F → Option FileStore → List (Connector F) → Type 0) (env : Env)
    (keeps : Keeps P env) where
  handle_trigger-Holds :
      (req : TriggerMessageReq) (c : Charger F) → Holds P c → Holds P (handle_trigger env req c)
  unfolding handle_trigger send_boot send_heartbeat send_call
  handle_trigger-Holds req c all =
      let id : ℤ = id_or_1 req.connector_id in
      if_cases (Holds P) (str_eq req.requested_message "BootNotification") (λ _. all)
        λ _.
          if_cases (Holds P) (str_eq req.requested_message "Heartbeat") (λ _. all)
            λ _.
              if_cases (Holds P) (str_eq req.requested_message "StatusNotification")
                (λ _. elim (Option-cases (find_connector id c.connectors)) [
                  | inl e ↦ rw (e) all
                  | inr (cn, e) ↦ rw (e) (keeps.on_status id c cn e all)
                ])
                λ _.
                  if_cases (Holds P) (str_eq req.requested_message "MeterValues")
                    (λ _. keeps.on_meter id c all) λ _. all

  run_action-Holds :
      (a : CmsAction) (msg : String) (p : Json) (c : Charger F)
      → Holds P c
      → Holds P (run_action env a msg p c)
  unfolding run_action handle_remote_start handle_remote_stop enqueue reply
  run_action-Holds remote_start msg p c all =
      if_cases (Holds P)
        (is_some (can_start_charging (id_or_1 (env.remote_start p).connector_id) c)) (λ _. all)
        (λ _. all)
  run_action-Holds remote_stop msg p c all =
      if_cases (Holds P)
        (eq_ℤ (connector_of_tx (env.remote_stop p).transaction_id c.connectors) (pos 0)) (λ _. all)
        (λ _. all)
  run_action-Holds reset msg p c all = all
  run_action-Holds change_availability msg p c all = all
  run_action-Holds trigger_message msg p c all = handle_trigger-Holds (env.trigger p) _ all
  run_action-Holds unlock_connector msg p c all = all
  run_action-Holds not_implemented msg p c all = all

  handle_frame-Holds :
      (r : Result DecodedFrame) (c : Charger F) → Holds P c → Holds P (handle_frame env r c)
  unfolding handle_frame handle_incoming_call
  handle_frame-Holds (err e) c all = all
  handle_frame-Holds (ok (a_result r)) c all =
      elim (Option-cases (find_call r.message_id c.pending)) [
        | inl e ↦ rw (e, handle_frame) all
        | inr (pc, e) ↦ rw (e, handle_frame) (keeps.on_result pc.on_result _ _ all)
      ]
  handle_frame-Holds (ok (an_error r)) c all =
      elim (Option-cases (find_call r.message_id c.pending)) [
        | inl e ↦ rw (e, handle_frame) all
        | inr (pc, e) ↦ rw (e, handle_frame) (keeps.on_error pc.on_error _ all)
      ]
  handle_frame-Holds (ok (a_call call)) c all = run_action-Holds _ _ _ _ all

  handle_go_online-Holds : (c : Charger F) → Holds P c → Holds P (handle_go_online env c).0
  unfolding handle_go_online dial_and_swap send_boot send_call
  handle_go_online-Holds c all = ground (arith, all)

  attempt-Holds : (c : Charger F) → Holds P c → Holds P (attempt env c).0
  unfolding attempt dial_and_swap send_boot send_call
  attempt-Holds c all = ground (arith, all)

  sweep-Holds : (ids : List ℤ) (c : Charger F) → Holds P c → Holds P (sweep env ids c)
  unfolding sweep
  sweep-Holds [] c all = all
  sweep-Holds (id ∷ ids) c all =
      sweep-Holds ids _
        (if_cases (Holds P) (is_charging env id c) (λ _. keeps.on_meter id c all) (λ _. all))

module _ {F : Type 0} ⦃fl : Float F⦄
    (P : ChargerConfig F → Option FileStore → List (Connector F) → Type 0) (env : Env)
    (keeps : Keeps P env) (stop : ℕ → Bool) where
  reconnect_loop-Holds :
      (fuel top backoff : ℕ) (c : Charger F)
      → Holds P c
      → Holds P (charger_of (reconnect_loop env stop fuel top backoff c).0)
  unfolding reconnect_loop
  reconnect_loop-Holds zero top backoff c all = all
  reconnect_loop-Holds (suc fuel) top backoff c all = ground (
    arith,
    all,
    attempt-Holds P env keeps c all,
    reconnect_loop-Holds fuel top (next_backoff top backoff) (attempt env c).0
        (attempt-Holds P env keeps c all),
  )

  after_reconnect-Holds :
      (o : Outcome F) → Holds P (charger_of o) → Holds P (after_reconnect env o).charger
  unfolding after_reconnect shut_down
  after_reconnect-Holds (connected c) all = all
  after_reconnect-Holds (cancelled c) all = all
  after_reconnect-Holds (out_of_fuel c) all = all

module _ {F : Type 0} ⦃fl : Float F⦄
    (P : ChargerConfig F → Option FileStore → List (Connector F) → Type 0) (env : Env)
    (keeps : Keeps P env) (stop : ℕ → Bool) (fuel : ℕ) where
  take_from-Holds :
      (cmd : Command F) (c : Charger F) (listening : Bool)
      → Holds P c
      → Holds P (take_from env cmd c listening).charger
  unfolding take_from
  take_from-Holds go_online c listening all = handle_go_online-Holds P env keeps c all
  take_from-Holds cmd c listening all = keeps.on_command cmd c all

  take_oldest-Holds :
      (cmds : List (Command F)) (l : Loop F)
      → Holds P l.charger
      → Holds P (take_oldest env stop fuel cmds l).charger
  unfolding take_oldest
  take_oldest-Holds [] l all = all
  take_oldest-Holds (cmd ∷ cmds) l all = take_from-Holds cmd _ l.listening all

  running_step-Holds :
      (i : Input F) (l : Loop F)
      → Holds P l.charger
      → Holds P (running_step env stop fuel i l).charger
  unfolding running_step enqueue handle_inbound send_heartbeat send_call shut_down
      on_unexpected_drop reconnect_with_backoff
  running_step-Holds (submit cmd) l all = all
  running_step-Holds take_command l all = take_oldest-Holds l.charger.cmd_ch l all
  running_step-Holds (frame bytes) l all =
      ground (arith, all, handle_frame-Holds P env keeps (decode bytes) l.charger all)
  running_step-Holds inbound_closed l all =
      if_cases (λ (l : Loop F). Holds P l.charger) (not l.listening) (λ _. all)
        λ _.
          if_cases (λ (l : Loop F). Holds P l.charger) l.charger.offline (λ _. all)
            λ _. after_reconnect-Holds P env keeps stop _ (
              reconnect_loop-Holds P env keeps stop fuel _ _ (on_unexpected_drop env l.charger)
                dropped)
    where
      dropped : Holds P (on_unexpected_drop env l.charger)
      dropped = all
  running_step-Holds heartbeat_tick l all = ground (arith, all)
  running_step-Holds meter_tick l all =
      ground (arith, all, sweep-Holds P env keeps (ids_of l.charger.connectors) l.charger all)
  running_step-Holds cancel l all = all

  step_mode-Holds :
      (m : Mode) (i : Input F) (l : Loop F)
      → Holds P l.charger
      → Holds P (step_mode env stop fuel m i l).charger
  unfolding step_mode enqueue
  step_mode-Holds running i l all = running_step-Holds i l all
  step_mode-Holds _ (submit cmd) l all = all
  step_mode-Holds _ _ l all = all

  step-Holds :
      (i : Input F) (l : Loop F) → Holds P l.charger → Holds P (step env stop fuel i l).charger
  unfolding step
  step-Holds i l all = step_mode-Holds l.mode i l all

  -- The property holds after every schedule.
  pub run-Holds :
      (is : List (Input F)) (l : Loop F)
      → Holds P l.charger
      → Holds P (run env stop fuel is l).charger
  unfolding run
  run-Holds [] l all = all
  run-Holds (i ∷ is) l all = run-Holds is (step env stop fuel i l) (step-Holds i l all)

  pub start_run-Holds : (c : Charger F) → Holds P c → Holds P (start_run env c).charger
  unfolding start_run dial_and_swap send_boot send_call shut_down
  start_run-Holds c all = ground (arith, all)

  -- What holds of a charger that was just made holds after it was started and every schedule.
  pub schedule-Holds :
      (cfg : ChargerConfig F) (store : Option FileStore) (is : List (Input F))
      → P cfg store (new_connectors cfg 1 (clamp_count cfg.num_connectors))
      → Holds P (run env stop fuel is (start_run env (new_charger env cfg store))).charger
  unfolding new_charger
  schedule-Holds cfg store is new =
      run-Holds is (start_run env (new_charger env cfg store))
        (start_run-Holds (new_charger env cfg store) new)
