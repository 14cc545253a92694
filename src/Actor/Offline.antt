-- ===== src/Actor/Offline.antt =====
-- internal/actor/charger.go: what an offline charger does.
use charger_simulator.Common.{
  ℕ, eq_iff, Bool, true, false, not, List, [], ◌∷◌, none, is_some, ◌≡◌, ◌≢◌, refl, sym, subst, inl,
  inr, Option-cases, arith, if_cases, ap, ltb, length, All, All-append,
}
use charger_simulator.Common.Int.{ℤ, pos, eq_ℤ}
use charger_simulator.J16.Enums.{
  ChargePointStatus, ChargePointErrorCode, available, finishing, faulted, no_error, StopReason,
  local,
}
use charger_simulator.Meter.Float.{Float}
use charger_simulator.Meter.Fault.{valid_fault}
use charger_simulator.Actor.State.{
  CpState, Command, plug_in, start_charging, stop_charging, unplug, emergency_stop, clear_fault,
  set_power, set_meter_fault, go_offline, go_online, Payload, AfterStop, make_available,
  make_faulted, OnResult, OnError, Frame, Charger, Env,
}
use charger_simulator.Actor.Connectors.{find_connector}
use charger_simulator.Actor.Snapshot.{is_online, offer}
use charger_simulator.Actor.Send.{
  delete_call, sends, send_call, send_status, send_status_with_info, run_after, stop_transaction_of,
  send_stop_transaction,
}
use charger_simulator.Actor.Commands.{
  eq_status, has_tx, default_fault, can_start_charging, handle_plug_in, handle_unplug,
  handle_start_charging, handle_stop_charging, handle_emergency_stop, handle_clear_fault,
  handle_set_power, handle_set_meter_fault,
}
use charger_simulator.Actor.Inbound.{command_cap, enqueue}
use charger_simulator.Actor.Link.{handle_go_offline}
use charger_simulator.Actor.Run.{
  Input, submit, take_command, frame, inbound_closed, heartbeat_tick, meter_tick, cancel, Loop,
  running, handle_command, take_from, take_oldest, running_step, step_mode, step, run,
}

-- The charger is offline: it has closed its client, waits for no answer, has written
-- `wire` so far, and has the commands `cmds` in its channel.
abbrev pub IsQuiet : {F : Type 0} → List Frame → List (Command F) → Charger F → Type 0
IsQuiet wire cmds c =
    (c.offline ≡ true)
    × (c.cp_state ≡ CpState.offline)
    × (c.pending ≡ [])
    × (c.ws.closed ≡ true)
    × (c.wire ≡ wire)
    × (c.cmd_ch ≡ cmds)

can_start-offline :
    {F : Type 0} ⦃fl : Float F⦄ (id : ℤ) (c : Charger F)
    → c.cp_state ≡ CpState.offline
    → can_start_charging id c ≢ none
unfolding can_start_charging
can_start-offline id c state = ground (arith, state)

offline_not_online :
    {P : Type 0} {state : CpState} → state ≡ CpState.offline → not (is_online state) ≡ false → P
offline_not_online off on = ground (arith, off, on)

module _ {F : Type 0} ⦃fl : Float F⦄ (env : Env) {wire : List Frame} {cmds : List (Command F)} where
  send_call-IsQuiet :
      (p : Payload) (r : OnResult) (e : OnError) (c : Charger F)
      → IsQuiet wire cmds c
      → IsQuiet wire cmds (send_call env p r e c)
  unfolding send_call delete_call
  send_call-IsQuiet p r e c (off, state, idle, shut, silent, queued) = (
    off,
    state,
    rw (closed_link, idle) (ground (arith, eq_iff (env.uuid c.ticks) (env.uuid c.ticks))),
    shut,
    rw closed_link silent,
    queued,
  )
    where
      closed_link : sends env c ≡ false
      closed_link = ground (arith, shut)

  send_status-IsQuiet :
      (id : ℤ) (status : ChargePointStatus) (code : ChargePointErrorCode) (c : Charger F)
      → IsQuiet wire cmds c
      → IsQuiet wire cmds (send_status env id status code c)
  unfolding send_status
  send_status-IsQuiet id status code c q = send_call-IsQuiet _ _ _ _ q

  run_after-IsQuiet :
      (id : ℤ) (after : AfterStop) (c : Charger F)
      → IsQuiet wire cmds c
      → IsQuiet wire cmds (run_after env id after c)
  unfolding run_after send_status_with_info
  run_after-IsQuiet id make_available c q = send_status-IsQuiet id _ _ c q
  run_after-IsQuiet id make_faulted c q = send_call-IsQuiet _ _ _ _ q

  send_stop_transaction-IsQuiet :
      (id : ℤ) (reason : StopReason) (after : AfterStop) (c : Charger F)
      → IsQuiet wire cmds c
      → IsQuiet wire cmds (send_stop_transaction env id reason after c)
  unfolding send_stop_transaction stop_transaction_of
  send_stop_transaction-IsQuiet id reason after c q =
      elim (Option-cases (find_connector id c.connectors)) [
        | inl e ↦ rw (e, send_stop_transaction) (run_after-IsQuiet id after c q)
        | inr (cn, e) ↦
            rw (e, send_stop_transaction)
              (if_cases (IsQuiet wire cmds) (eq_ℤ cn.tx_id (pos 0))
                (λ _. run_after-IsQuiet id after c q)
                λ _. send_call-IsQuiet _ _ _ _ (send_status-IsQuiet id finishing no_error _ q))
      ]

  handle_command-IsQuiet :
      (cmd : Command F) (c : Charger F)
      → IsQuiet wire cmds c
      → IsQuiet wire cmds (handle_command env cmd c)
  unfolding handle_command
  handle_command-IsQuiet (plug_in id) c q =
      unfold handle_plug_in in
      elim (Option-cases (find_connector id c.connectors)) [
        | inl e ↦ rw (e, handle_plug_in) q
        | inr (cn, e) ↦
            rw (e, handle_plug_in)
              (if_cases (IsQuiet wire cmds) (not (is_online c.cp_state)) (λ _. q)
                (λ on. offline_not_online q.1 on))
      ]
  handle_command-IsQuiet (start_charging id tag) c q =
      unfold handle_start_charging in
      if_cases (IsQuiet wire cmds) (is_some (find_connector id c.connectors))
        (λ _. elim (Option-cases (can_start_charging id c)) [
          | inl e ↦ absurd (can_start-offline id c q.1 e)
          | inr (r, e) ↦ rw (e, handle_start_charging) q
        ])
        λ _. q
  handle_command-IsQuiet (stop_charging id) c q =
      unfold handle_stop_charging in
      if_cases (IsQuiet wire cmds) (has_tx (find_connector id c.connectors))
        (λ _. send_stop_transaction-IsQuiet id local make_available _ q) (λ _. q)
  handle_command-IsQuiet (unplug id) c q =
      unfold handle_unplug in
      elim (Option-cases (find_connector id c.connectors)) [
        | inl e ↦ rw (e, handle_unplug) q
        | inr (cn, e) ↦
            rw (e, handle_unplug)
              (if_cases (IsQuiet wire cmds) (not (is_online c.cp_state)) (λ _. q)
                (λ on. offline_not_online q.1 on))
      ]
  handle_command-IsQuiet (emergency_stop id) c q =
      unfold handle_emergency_stop in
      elim (Option-cases (find_connector id c.connectors)) [
        | inl e ↦ rw (e, handle_emergency_stop) q
        | inr (cn, e) ↦
            rw (e, handle_emergency_stop)
              (if_cases (IsQuiet wire cmds) (not (eq_ℤ cn.tx_id (pos 0)))
                (λ _. send_stop_transaction-IsQuiet id StopReason.emergency_stop make_faulted _ q)
                λ _. run_after-IsQuiet id make_faulted _ q)
      ]
  handle_command-IsQuiet (clear_fault id) c q =
      unfold handle_clear_fault in
      elim (Option-cases (find_connector id c.connectors)) [
        | inl e ↦ rw (e, handle_clear_fault) q
        | inr (cn, e) ↦
            rw (e, handle_clear_fault)
              (if_cases (IsQuiet wire cmds) (not (eq_status cn.status faulted)) (λ _. q)
                λ _. send_status-IsQuiet id available no_error _ q)
      ]
  handle_command-IsQuiet (set_power w) c q = unfold handle_set_power in q
  handle_command-IsQuiet (set_meter_fault id mode) c q =
      unfold handle_set_meter_fault in
      if_cases (IsQuiet wire cmds) (is_some (find_connector id c.connectors))
        (λ _.
          if_cases (IsQuiet wire cmds) (not (valid_fault (default_fault mode))) (λ _. q) (λ _. q))
        λ _. q
  handle_command-IsQuiet go_offline c q =
      unfold handle_go_offline in if_cases (IsQuiet wire cmds) c.offline (λ _. q) (λ on. cc (q.0))
  handle_command-IsQuiet go_online c q = q

abbrev pub is_go_online : {F : Type 0} → Command F → Bool
is_go_online go_online = true
is_go_online _ = false

-- An input that neither asks for the link nor ends the loop.
abbrev pub leaves_offline : {F : Type 0} → Input F → Bool
leaves_offline (submit cmd) = is_go_online cmd
leaves_offline cancel = true
leaves_offline _ = false

abbrev NoGoOnline : {F : Type 0} → List (Command F) → Type 0
NoGoOnline {F} = All (λ (cmd : Command F). is_go_online cmd ≡ false)

-- The loop runs, its charger is quiet, and no command in the channel asks for the link.
abbrev pub StaysQuiet : {F : Type 0} → List Frame → Loop F → Type 0
StaysQuiet {F} wire l =
    (cmds : List (Command F)) × (l.mode ≡ running) × NoGoOnline cmds × IsQuiet wire cmds l.charger

offer-NoGoOnline :
    {F : Type 0} (n : ℕ) (cmd : Command F) (cmds : List (Command F))
    → is_go_online cmd ≡ false
    → NoGoOnline cmds
    → NoGoOnline (offer n cmd cmds)
unfolding offer
offer-NoGoOnline n cmd cmds no_go none_go =
    if_cases NoGoOnline (ltb (length cmds) n)
      (λ _. All-append _ cmds (cmd ∷ []) none_go (no_go, tt)) (λ _. none_go)

module _ {F : Type 0} ⦃fl : Float F⦄ (env : Env) (stop : ℕ → Bool) (fuel : ℕ)
    {wire : List Frame} where
  take_from-StaysQuiet :
      (cmd : Command F) (c : Charger F) (listening : Bool) (cmds : List (Command F))
      → is_go_online cmd ≡ false
      → NoGoOnline cmds
      → IsQuiet wire cmds c
      → StaysQuiet wire (take_from env cmd c listening)
  unfolding take_from
  take_from-StaysQuiet go_online c listening cmds no_go none_go q = cc
  take_from-StaysQuiet cmd c listening cmds no_go none_go q =
      (cmds, refl, none_go, handle_command-IsQuiet env cmd c q)

  take_oldest-StaysQuiet :
      (cmds : List (Command F)) (l : Loop F)
      → l.mode ≡ running
      → NoGoOnline cmds
      → IsQuiet wire cmds l.charger
      → StaysQuiet wire (take_oldest env stop fuel cmds l)
  unfolding take_oldest
  take_oldest-StaysQuiet [] l m none_go q = ([], m, none_go, q)
  take_oldest-StaysQuiet (cmd ∷ cmds) l m none_go (off, state, idle, shut, silent, _) =
      take_from-StaysQuiet cmd _ l.listening cmds none_go.0 none_go.1
        (off, state, idle, shut, silent, refl)

  running_step-StaysQuiet :
      (i : Input F) (l : Loop F)
      → leaves_offline i ≡ false
      → StaysQuiet wire l
      → StaysQuiet wire (running_step env stop fuel i l)
  unfolding running_step enqueue
  running_step-StaysQuiet (submit cmd) l stays (cmds, m, none_go, q) = (
    offer command_cap cmd cmds,
    m,
    offer-NoGoOnline command_cap cmd cmds stays none_go,
    (q.0, q.1, q.2, q.3, q.4, ap (offer command_cap cmd) q.5),
  )
  running_step-StaysQuiet take_command l stays (cmds, m, none_go, q) =
      subst (λ cs. StaysQuiet wire (take_oldest env stop fuel cs l)) (sym q.5)
        (take_oldest-StaysQuiet cmds l m none_go q)
  running_step-StaysQuiet (frame bytes) l stays (cmds, m, none_go, q) =
      if_cases (StaysQuiet wire) (not l.listening) (λ _. (cmds, m, none_go, q))
        λ _.
          if_cases (StaysQuiet wire) l.charger.offline (λ _. (cmds, m, none_go, q)) (λ on. cc (q.0))
  running_step-StaysQuiet inbound_closed l stays (cmds, m, none_go, q) =
      if_cases (StaysQuiet wire) (not l.listening) (λ _. (cmds, m, none_go, q))
        λ _.
          if_cases (StaysQuiet wire) l.charger.offline (λ _. (cmds, m, none_go, q)) (λ on. cc (q.0))
  running_step-StaysQuiet heartbeat_tick l stays (cmds, m, none_go, q) =
      if_cases (StaysQuiet wire) (is_online l.charger.cp_state) (λ on. ground (arith, on, q.1))
        (λ _. (cmds, m, none_go, q))
  running_step-StaysQuiet meter_tick l stays (cmds, m, none_go, q) =
      if_cases (StaysQuiet wire) (is_online l.charger.cp_state) (λ on. ground (arith, on, q.1))
        (λ _. (cmds, m, none_go, q))
  running_step-StaysQuiet cancel l stays quiet = cc

  step-StaysQuiet :
      (i : Input F) (l : Loop F)
      → leaves_offline i ≡ false
      → StaysQuiet wire l
      → StaysQuiet wire (step env stop fuel i l)
  unfolding step step_mode
  step-StaysQuiet i l stays quiet =
      subst (λ m. StaysQuiet wire (step_mode env stop fuel m i l)) (sym quiet.1)
        (running_step-StaysQuiet i l stays quiet)

  -- An offline charger stays silent: whatever frames, ticks and commands arrive, as long as no command
  -- to go online is pushed or waits in the channel and the context is not cancelled, it stays offline,
  -- writes nothing to the wire, waits for no answer, and its loop keeps running.
  pub offline_silence :
      (is : List (Input F)) (l : Loop F)
      → All (λ i. leaves_offline i ≡ false) is
      → StaysQuiet wire l
      → StaysQuiet wire (run env stop fuel is l)
  unfolding run
  offline_silence [] l stays quiet = quiet
  offline_silence (i ∷ is) l stays quiet =
      offline_silence is (step env stop fuel i l) stays.1 (step-StaysQuiet i l stays.0 quiet)
