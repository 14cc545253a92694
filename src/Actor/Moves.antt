-- ===== src/Actor/Moves.antt =====
-- internal/actor/charger.go: the state machine of a connector, as the commands drive it.
use charger_simulator.Common.{
  true, false, List, [], ◌∷◌, map, some, ◌≡◌, refl, sym, ap, subst, ◌∙◌, inl, inr, Bool-cases,
  arith, if_cases,
}
use charger_simulator.Common.Int.{ℤ, pos, eq_ℤ, eq_ℤ_iff}
use charger_simulator.J16.Enums.{
  ChargePointStatus, ChargePointErrorCode, available, preparing, faulted, finishing, no_error,
  StopReason,
}
use charger_simulator.Meter.Float.{Float}
use charger_simulator.Meter.Engine.{Engine, sample}
use charger_simulator.Actor.State.{
  Command, plug_in, stop_charging, unplug, emergency_stop, clear_fault, AfterStop, Connector,
  Charger, Env,
}
use charger_simulator.Actor.Connectors.{
  find_connector, modify, find-modify, modify-modify, find-All, KeepsId, with_engine, with_status,
}
use charger_simulator.Actor.Send.{
  send_call, send_status, stop_transaction_of, send_stop_transaction,
}
use charger_simulator.Actor.Commands.{eq_status}
use charger_simulator.Actor.Shown.Sends.{ShowsTx, AllShow, MayCharge, eq_status-eq}

-- The edges of the machine: the status of connector `j` before and after a command.
pub data Moves {F : Type 0} : Command F → ℤ → ChargePointStatus → ChargePointStatus → Type 0 where
  stays : {cmd : Command F} {j : ℤ} {s : ChargePointStatus} → Moves cmd j s s
  plugged : {j : ℤ} → Moves (plug_in j) j available preparing
  unplugged : {j : ℤ} → Moves (unplug j) j preparing available
  stops : {j : ℤ} {s : ChargePointStatus} → MayCharge s → Moves (stop_charging j) j s finishing
  stops_at_once :
      {j : ℤ} {s : ChargePointStatus} → MayCharge s → Moves (emergency_stop j) j s finishing
  faults : {j : ℤ} {s : ChargePointStatus} → Moves (emergency_stop j) j s faulted
  cleared : {j : ℤ} → Moves (clear_fault j) j faulted available

module _ {F : Type 0} where
  -- No connector is lost, and each moves along an edge.
  abbrev pub AllMove : Command F → List (Connector F) → List (Connector F) → Type 0
  AllMove cmd cns cns' =
      (j : ℤ) (cn : Connector F)
      → find_connector j cns ≡ some cn
      → (cn' : Connector F) × (find_connector j cns' ≡ some cn') × Moves cmd j cn.status cn'.status

  pub none-AllMove : (cmd : Command F) (cns : List (Connector F)) → AllMove cmd cns cns
  none-AllMove cmd cns j cn found = (cn, found, stays)

  -- A write to the connector of an id.
  pub write-AllMove :
      (cmd : Command F) (id : ℤ) (f : Connector F → Connector F) (cns : List (Connector F))
      → KeepsId f
      → ((cn : Connector F)
          → find_connector id cns ≡ some cn
          → Moves cmd id cn.status (f cn).status)
      → AllMove cmd cns (modify id f cns)
  write-AllMove cmd id f cns keeps moves j cn found = elim (Bool-cases (eq_ℤ id j)) [
    | inl hit ↦
        let same : id ≡ j = (eq_ℤ_iff id j).0 hit in
        let found' : find_connector id cns ≡ some cn =
          ap (λ k. find_connector k cns) same ∙ found in
        (
          f cn,
          rw (find-modify id j f cns keeps, hit, found) refl,
          subst (λ k. Moves cmd k cn.status (f cn).status) same (moves cn found'),
        )
    | inr miss ↦ (cn, rw (find-modify id j f cns keeps, miss, found) refl, stays)
  ]

  pub map-AllMove :
      (cmd : Command F) (f : Engine F → Engine F) (cns : List (Connector F))
      → AllMove cmd cns (map (with_engine f) cns)
  unfolding find_connector
  map-AllMove cmd f [] j cn found = cc found
  map-AllMove cmd f (x ∷ cns) j cn found = elim (Bool-cases (eq_ℤ x.id j)) [
    | inl hit ↦
        let same : x ≡ cn = ground (arith, hit, found) in
        (with_engine f cn, rw hit (ap (λ c. some (with_engine f c)) same), stays)
    | inr miss ↦
        let (cn', e, m) = map-AllMove cmd f cns j cn (rw miss at found) in (cn', rw miss e, m)
  ]

module _ {F : Type 0} ⦃fl : Float F⦄ (env : Env) where
  pub status-AllMove :
      (cmd : Command F) (id : ℤ) (status : ChargePointStatus) (code : ChargePointErrorCode)
      (c : Charger F)
      → ((cn : Connector F)
          → find_connector id c.connectors ≡ some cn
          → Moves cmd id cn.status status)
      → AllMove cmd c.connectors (send_status env id status code c).connectors
  unfolding send_status send_call
  status-AllMove cmd id status code c moves =
      if_cases (AllMove cmd c.connectors) (eq_ℤ id (pos 0)) (λ _. none-AllMove cmd c.connectors)
        (λ _. write-AllMove cmd id (with_status status code) c.connectors (λ x. refl) moves)

  -- Of two connectors found under one id, the second has the first one's status.
  status_found :
      (id : ℤ) (c : Charger F) (a b : Connector F) (s : ChargePointStatus)
      → find_connector id c.connectors ≡ some a
      → eq_status a.status s ≡ true
      → find_connector id c.connectors ≡ some b
      → s ≡ b.status
  status_found id c a b s ea is eb =
      let same : a ≡ b = ground (arith, ea, eb) in
      sym (eq_status-eq a.status s is) ∙ ap (λ (x : Connector F). x.status) same

  -- A connector that shows one status, and then another.
  pub guarded-AllMove :
      (cmd : Command F) (id : ℤ) (from to : ChargePointStatus) (c c' : Charger F) (cn : Connector F)
      → find_connector id c.connectors ≡ some cn
      → eq_status cn.status from ≡ true
      → Moves cmd id from to
      → c'.connectors ≡ c.connectors
      → AllMove cmd c.connectors (send_status env id to no_error c').connectors
  guarded-AllMove cmd id from to c c' cn e is moves same =
      subst (λ cns. AllMove cmd cns (send_status env id to no_error c').connectors) same
        (status-AllMove cmd id to no_error c' (λ cn' found.
          subst (λ s. Moves cmd id s to)
            (status_found id c cn cn' from e is (ap (find_connector id) (sym same) ∙ found)) moves))

  -- A stop of a connector with a transaction shows Finishing.
  pub stop-AllMove :
      (cmd : Command F) (id : ℤ) (reason : StopReason) (after : AfterStop) (c : Charger F)
      (cn : Connector F)
      → find_connector id c.connectors ≡ some cn
      → Moves cmd id cn.status finishing
      → AllMove cmd c.connectors (stop_transaction_of env id reason after cn c).connectors
  unfolding stop_transaction_of send_status send_call
  stop-AllMove cmd id reason after c cn e moves =
      let engine = with_engine {F = F} (sample (env.now c.ticks)) in
      let moves' : (cn' : Connector F)
          → find_connector id c.connectors ≡ some cn'
          → Moves cmd id cn'.status finishing =
        λ cn' found.
          let same : cn ≡ cn' = ground (arith, e, found) in
          subst (λ (x : Connector F). Moves cmd id x.status finishing) same moves in
      if_cases (AllMove cmd c.connectors) (eq_ℤ id (pos 0))
        (λ _. write-AllMove cmd id engine c.connectors (λ x. refl) (λ cn' found. stays))
        (λ _.
          rw (modify-modify id engine (with_status finishing no_error) c.connectors (λ x. refl)) (
            write-AllMove cmd id (λ x. with_status finishing no_error (engine x)) c.connectors
              (λ x. refl) moves'))

  -- An open transaction shows Charging or Finishing.
  pub open_shows :
      (id : ℤ) (c : Charger F) (cn : Connector F)
      → AllShow c
      → find_connector id c.connectors ≡ some cn
      → eq_ℤ cn.tx_id (pos 0) ≡ false
      → MayCharge cn.status
  open_shows id c cn all e busy = elim (find-All ShowsTx id c.connectors cn e all).1 [
    | inl idle ↦ cc (busy, (eq_ℤ_iff cn.tx_id (pos 0)).1 idle)
    | inr may ↦ may
  ]

  pub send_stop_open :
      (id : ℤ) (reason : StopReason) (after : AfterStop) (c : Charger F) (cn : Connector F)
      → find_connector id c.connectors ≡ some cn
      → eq_ℤ cn.tx_id (pos 0) ≡ false
      → send_stop_transaction env id reason after c ≡ stop_transaction_of env id reason after cn c
  unfolding send_stop_transaction
  send_stop_open id reason after c cn e busy = rw (e, busy) refl
