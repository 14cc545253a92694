-- ===== src/Actor/Once.antt =====
-- internal/actor/charger.go: the Run loop handles no call's answer twice, whatever comes in between.
use charger_simulator.Common.{
  ℕ, zero, suc, Bool, true, false, String, not, List, [], ◌∷◌, ◌≡◌, refl, arith, if_cases,
  if◌then◌else◌, sym, subst,
}
use charger_simulator.Common.Int.{ℤ}
use charger_simulator.J16.Frame.{CallResult, CallError, a_result, an_error, ok, decode}
use charger_simulator.Meter.Float.{Float}
use charger_simulator.Actor.State.{Command, go_online, CpState, Charger, Env}
use charger_simulator.Actor.Connectors.{ids_of}
use charger_simulator.Actor.Snapshot.{is_online, emit_log, publish_snapshot}
use charger_simulator.Actor.Send.{find_call, sends, send_boot, send_heartbeat}
use charger_simulator.Actor.Inbound.{enqueue, handle_frame, handle_inbound}
use charger_simulator.Actor.Link.{
  dial_ok, dial_and_swap, handle_go_online, on_unexpected_drop, attempt, next_backoff,
  reconnect_loop, reconnect_with_backoff, Outcome, connected, cancelled, out_of_fuel,
}
use charger_simulator.Actor.Run.{
  Input, submit, take_command, frame, inbound_closed, heartbeat_tick, meter_tick, cancel, Loop,
  Mode, running, after_reconnect, take_from, take_oldest, step_mode, is_charging, sweep, shut_down,
  running_step, step, run,
}
use charger_simulator.Actor.Answers.{
  IsForgotten, AreFresh, later, send_call-IsForgotten, unmatched, answered_result, answered_error,
}
use charger_simulator.Actor.Settled.{
  handle_command-IsForgotten, send_meter_values-IsForgotten, handle_frame-IsForgotten,
}

module _ {F : Type 0} ⦃fl : Float F⦄ (env : Env) (base : ℕ) (msg : String)
    (fresh : AreFresh env base msg) where
  abbrev Gone : Charger F → Type 0
  Gone c = IsForgotten base msg c

  abbrev GoneAfter : Outcome F → Type 0
  GoneAfter (connected c) = Gone c
  GoneAfter (cancelled c) = Gone c
  GoneAfter (out_of_fuel c) = Gone c

  boot-IsForgotten : (c : Charger F) → Gone c → Gone (send_boot env c)
  unfolding send_boot
  boot-IsForgotten c h = send_call-IsForgotten env base msg fresh _ _ _ _ h

  logged :
      (b : Bool) (level text : String) (c : Charger F)
      → Gone c
      → Gone (if b then c else emit_log level text c)
  logged true level text c h = h
  logged false level text c h = h

  go_online-IsForgotten : (c : Charger F) → Gone c → Gone (handle_go_online env c).0
  unfolding handle_go_online dial_and_swap
  go_online-IsForgotten c h =
      let up : Charger F =
        emit_log "info" "reconnected — sending BootNotification"
          (record (dial_and_swap env (
            publish_snapshot env (record (emit_log "info" "charger reconnecting to CMS" c) {
              cp_state = CpState.booting;
            }))) { offline = false }) in
      if_cases (λ (r : Charger F × Bool). Gone r.0) (not c.offline) (λ _. h)
        (λ _.
          if_cases (λ (r : Charger F × Bool). Gone r.0) (not (env.dials c.ticks))
            (λ _. (h.0, later h.1))
            (λ _.
              logged (sends env up) "error" "boot after reconnect failed" (send_boot env up)
                (boot-IsForgotten up (h.0, later h.1))))

  attempt-IsForgotten : (c : Charger F) → Gone c → Gone (attempt env c).0
  unfolding attempt dial_and_swap
  attempt-IsForgotten c h =
      if_cases (λ (r : Charger F × Bool). Gone r.0) (not (dial_ok env c)) (λ _. (h.0, later h.1))
        (λ _.
          if_cases (λ (r : Charger F × Bool). Gone r.0) (sends env (dial_and_swap env c))
            (λ _. boot-IsForgotten _ (h.0, later h.1)) (λ _. boot-IsForgotten _ (h.0, later h.1)))

  reconnect_loop-IsForgotten :
      (stop : ℕ → Bool) (fuel top backoff : ℕ) (c : Charger F)
      → Gone c
      → GoneAfter (reconnect_loop env stop fuel top backoff c).0
  unfolding reconnect_loop
  reconnect_loop-IsForgotten stop zero top backoff c h = h
  reconnect_loop-IsForgotten stop (suc fuel) top backoff c h =
      let tried : Gone (attempt env c).0 = attempt-IsForgotten c h in
      if_cases (λ (r : Outcome F × List ℕ). GoneAfter r.0) (attempt env c).1 (λ _. tried)
        (λ _.
          if_cases (λ (r : Outcome F × List ℕ). GoneAfter r.0) (stop (attempt env c).0.ticks)
            (λ _. tried)
            (λ _. reconnect_loop-IsForgotten stop fuel top (next_backoff top backoff) _ tried))

  after_reconnect-IsForgotten : (o : Outcome F) → GoneAfter o → Gone (after_reconnect env o).charger
  unfolding after_reconnect shut_down
  after_reconnect-IsForgotten (connected c) h = h
  after_reconnect-IsForgotten (cancelled c) h = h
  after_reconnect-IsForgotten (out_of_fuel c) h = h

  sweep-IsForgotten : (ids : List ℤ) (c : Charger F) → Gone c → Gone (sweep env ids c)
  unfolding sweep
  sweep-IsForgotten [] c h = h
  sweep-IsForgotten (id ∷ ids) c h = sweep-IsForgotten ids _ (
      if_cases Gone (is_charging env id c)
        (λ _. send_meter_values-IsForgotten env base msg fresh id c h) (λ _. h))

  take_from-IsForgotten :
      (cmd : Command F) (c : Charger F) (listening : Bool)
      → Gone c
      → Gone (take_from env cmd c listening).charger
  unfolding take_from
  take_from-IsForgotten go_online c listening h = go_online-IsForgotten c h
  take_from-IsForgotten cmd c listening h = handle_command-IsForgotten env base msg fresh cmd c h

module _ {F : Type 0} ⦃fl : Float F⦄ (env : Env) (base : ℕ) (msg : String)
    (fresh : AreFresh env base msg) (stop : ℕ → Bool) (fuel : ℕ) where
  abbrev LoopGone : Loop F → Type 0
  LoopGone l = IsForgotten base msg l.charger

  take_oldest-IsForgotten :
      (cmds : List (Command F)) (l : Loop F)
      → LoopGone l
      → LoopGone (take_oldest env stop fuel cmds l)
  unfolding take_oldest
  take_oldest-IsForgotten [] l h = h
  take_oldest-IsForgotten (cmd ∷ cmds) l h =
      take_from-IsForgotten env base msg fresh cmd _ l.listening h

  running_step-IsForgotten :
      (i : Input F) (l : Loop F) → LoopGone l → LoopGone (running_step env stop fuel i l)
  unfolding running_step enqueue handle_inbound send_heartbeat shut_down on_unexpected_drop
      reconnect_with_backoff find_call
  running_step-IsForgotten (submit cmd) l h = h
  running_step-IsForgotten take_command l h = take_oldest-IsForgotten l.charger.cmd_ch l h
  running_step-IsForgotten (frame bytes) l h =
      if_cases LoopGone (not l.listening) (λ _. h)
        (λ _.
          if_cases LoopGone l.charger.offline (λ _. h)
            (λ _. handle_frame-IsForgotten env base msg fresh (decode bytes) l.charger h))
  running_step-IsForgotten inbound_closed l h =
      if_cases LoopGone (not l.listening) (λ _. h)
        (λ _.
          if_cases LoopGone l.charger.offline (λ _. h)
            (λ _.
              after_reconnect-IsForgotten env base msg fresh _
                (reconnect_loop-IsForgotten env base msg fresh stop fuel _ _ _ (refl, h.1))))
  running_step-IsForgotten heartbeat_tick l h =
      if_cases LoopGone (is_online l.charger.cp_state)
        (λ _. send_call-IsForgotten env base msg fresh _ _ _ _ h) (λ _. h)
  running_step-IsForgotten meter_tick l h =
      if_cases LoopGone (is_online l.charger.cp_state)
        (λ _. sweep-IsForgotten env base msg fresh (ids_of l.charger.connectors) l.charger h)
        (λ _. h)
  running_step-IsForgotten cancel l h = h

  step_mode-IsForgotten :
      (m : Mode) (i : Input F) (l : Loop F) → LoopGone l → LoopGone (step_mode env stop fuel m i l)
  unfolding step_mode enqueue
  step_mode-IsForgotten running i l h = running_step-IsForgotten i l h
  step_mode-IsForgotten _ (submit cmd) l h = h
  step_mode-IsForgotten _ _ l h = h

  run-IsForgotten :
      (is : List (Input F)) (l : Loop F) → LoopGone l → LoopGone (run env stop fuel is l)
  unfolding run step
  run-IsForgotten [] l h = h
  run-IsForgotten (i ∷ is) l h =
      run-IsForgotten is (step env stop fuel i l) (step_mode-IsForgotten l.mode i l h)

module _ {F : Type 0} ⦃fl : Float F⦄ (env : Env) (stop : ℕ → Bool) (fuel : ℕ) where
  -- An answer, result or error, changes nothing.
  abbrev pub IsIgnored : CallResult → CallError → Charger F → Type 0
  IsIgnored r e c =
      (handle_frame env (ok (a_result r)) c ≡ c) × (handle_frame env (ok (an_error e)) c ≡ c)

  -- The charger after a schedule of the loop, from the charger `c` on.
  abbrev pub ends_as : List (Input F) → Loop F → Charger F → Charger F
  ends_as is l c = (run env stop fuel is (record l { charger = c })).charger

  -- A call is answered once. Take a loop, and an id that none of the calls sent from now on gets, as
  -- that of every call in flight. After an answer to that id, result or error, and after whatever the
  -- CMS, the network, the disk and the callers do next, in any order: a further result or error with
  -- the id changes nothing.
  pub answered_once :
      (r : CallResult) (e : CallError) (l : Loop F) (is : List (Input F))
      → e.message_id ≡ r.message_id
      → AreFresh env l.charger.ticks r.message_id
      → IsIgnored r e (ends_as is l (handle_frame env (ok (a_result r)) l.charger))
        × IsIgnored r e (ends_as is l (handle_frame env (ok (an_error e)) l.charger))
  answered_once r e l is same fresh =
      let base : ℕ = l.charger.ticks in
      (
        unmatched env base r e _ same (
            run-IsForgotten env base r.message_id fresh stop fuel is _
              (answered_result env base r l.charger fresh (omega arith))),
        unmatched env base r e _ same (
            run-IsForgotten env base r.message_id fresh stop fuel is _ (
              subst (λ m. IsForgotten base m (handle_frame env (ok (an_error e)) l.charger)) same
                (answered_error env base e l.charger (subst (AreFresh env base) (sym same) fresh)
                  (omega arith)))),
      )
