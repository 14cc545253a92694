-- ===== src/Actor/Starting.antt =====
-- internal/actor/charger.go: when a start is honoured. `canStartCharging`, `handleStartCharging` and
-- the remote start must agree.
use charger_simulator.Common.{
  String, true, false, ◌∷◌, none, some, ◌≡◌, refl, ◌↔◌, ◌⊎◌, inl, inr, arith, Option-cases, is_some,
  if_cases,
}
use charger_simulator.Common.Int.{ℤ, pos, eq_ℤ, eq_ℤ_refl}
use charger_simulator.J16.Enums.{ChargePointStatus, preparing}
use charger_simulator.J16.Messages.{RemoteStartTransactionReq}
use charger_simulator.Meter.Float.{Float}
use charger_simulator.Actor.State.{Connector, call, result, start_charging, authorize, Charger, Env}
use charger_simulator.Actor.Connectors.{find_connector, modify, find-modify, set_pending}
use charger_simulator.Actor.Snapshot.{is_online, offer}
use charger_simulator.Actor.Send.{sends, reply, send_authorize, send_call}
use charger_simulator.Actor.Commands.{
  Refusal, already_processed, eq_status, default_tag, start_unless, can_start_charging,
  handle_start_charging,
}
use charger_simulator.Actor.Inbound.{id_or_1, command_cap, enqueue, handle_remote_start}

-- Online, and a connector that is plugged in, without a transaction, with no start under way.
abbrev pub Startable : {F : Type 0} → ℤ → Charger F → Type 0
Startable {F} id c =
    (cn : Connector F) × (find_connector id c.connectors ≡ some cn)
    × (is_online c.cp_state ≡ true)
    × (eq_ℤ cn.tx_id (pos 0) ≡ true)
    × (cn.status ≡ preparing)
    × (cn.start_pending ≡ false)

eq_preparing : (s : ChargePointStatus) → eq_status s preparing ≡ true → s ≡ preparing
unfolding eq_status
eq_preparing preparing e = refl
eq_preparing _ e = cc

module _ {F : Type 0} ⦃fl : Float F⦄ where
  allowed-Startable : (id : ℤ) (c : Charger F) → can_start_charging id c ≡ none → Startable id c
  unfolding can_start_charging
  allowed-Startable id c e = elim (Option-cases (find_connector id c.connectors)) [
    | inl missing ↦ ground (arith, e, missing)
    | inr (cn, found) ↦
        let free = rw found at e in
        (
          cn,
          found,
          ground (arith, free),
          ground (arith, free),
          eq_preparing cn.status (ground (arith, free)),
          ground (arith, free),
        )
  ]

  pub Startable-allowed : (id : ℤ) (c : Charger F) → Startable id c → can_start_charging id c ≡ none
  unfolding can_start_charging eq_status
  Startable-allowed id c (cn, found, on, idle, plugged, free) =
      rw (found, on, idle, plugged, free) refl

  -- A start is allowed exactly if the charger is online and the connector exists, is Preparing, has no
  -- transaction and no start under way.
  pub can_start_charging_lem :
      (id : ℤ) (c : Charger F) → (can_start_charging id c ≡ none) ↔ Startable id c
  can_start_charging_lem id c = (allowed-Startable id c, Startable-allowed id c)

module _ {F : Type 0} ⦃fl : Float F⦄ (env : Env) where
  -- While the link is up, the answer to a remote start tells the truth. `Accepted` is written, and the
  -- command queued (if the channel has room), exactly if the start command would now be honoured and
  -- send Authorize. Otherwise `Rejected` is written, nothing is queued, and the start command would
  -- write nothing.
  pub handle_remote_start_lem :
      (msg : String) (req : RemoteStartTransactionReq) (c : Charger F)
      → sends env c ≡ true
      → (Startable (id_or_1 req.connector_id) c
          × ((handle_remote_start env msg req c).wire ≡ result msg "Accepted" ∷ c.wire)
          × ((handle_remote_start env msg req c).cmd_ch
              ≡ offer command_cap (start_charging (id_or_1 req.connector_id) req.id_tag) c.cmd_ch)
          × ((handle_start_charging env (id_or_1 req.connector_id) req.id_tag c).wire
              ≡ call (env.uuid c.ticks) (authorize (record { id_tag = default_tag req.id_tag }))
                ∷ c.wire))
        ⊎ ((¬ Startable (id_or_1 req.connector_id) c)
            × ((handle_remote_start env msg req c).wire ≡ result msg "Rejected" ∷ c.wire)
            × ((handle_remote_start env msg req c).cmd_ch ≡ c.cmd_ch)
            × ((handle_start_charging env (id_or_1 req.connector_id) req.id_tag c).wire ≡ c.wire))
  unfolding handle_remote_start reply enqueue handle_start_charging start_unless send_authorize
      send_call
  handle_remote_start_lem msg req c up =
      let id = id_or_1 req.connector_id in
      elim (Option-cases (can_start_charging id c)) [
        | inl free ↦
            let ready = allowed-Startable id c free in
            inl (ready, rw (free, up) refl, rw free refl, rw (ready.1, free, up) refl)
        | inr (why, refused) ↦ inr (
          λ ready. cc (refused, Startable-allowed id c ready),
          rw (refused, up) refl,
          rw refused refl,
          if_cases (λ (c' : Charger F). c'.wire ≡ c.wire) (is_some (find_connector id c.connectors))
              (λ _. rw refused refl) (λ _. refl),
        )
      ]

  refused_start :
      (id : ℤ) (tag : String) (c : Charger F) (why : Refusal)
      → can_start_charging id c ≡ some why
      → ((handle_start_charging env id tag c).wire ≡ c.wire)
        × ((handle_start_charging env id tag c).connectors ≡ c.connectors)
  unfolding handle_start_charging start_unless
  refused_start id tag c why refused =
      if_cases (λ (c' : Charger F). (c'.wire ≡ c.wire) × (c'.connectors ≡ c.connectors))
        (is_some (find_connector id c.connectors)) (λ _. rw refused (refl, refl))
        (λ _. (refl, refl))

  -- What an honoured start leaves of the connectors and the state.
  honoured_start :
      (id : ℤ) (tag : String) (c : Charger F)
      → Startable id c
      → ((handle_start_charging env id tag c).connectors ≡ modify id set_pending c.connectors)
        × ((handle_start_charging env id tag c).cp_state ≡ c.cp_state)
  unfolding handle_start_charging start_unless send_authorize send_call
  honoured_start id tag c ready = rw (ready.1, Startable-allowed id c ready) (refl, refl)

  started_refused :
      (id : ℤ) (tag : String) (c : Charger F)
      → Startable id c
      → can_start_charging id (handle_start_charging env id tag c) ≡ some already_processed
  unfolding can_start_charging eq_status
  started_refused id tag c ready =
      let (same, state) = honoured_start id tag c ready in
      let (cn, found, on, idle, plugged, free) = ready in
      rw
        (
          same,
          state,
          find-modify id id set_pending c.connectors (λ x. refl),
          eq_ℤ_refl id,
          found,
          on,
          idle,
          plugged,
        )
        refl

  -- Once a start has been honoured, the connector waits for the CMS: the same start, pushed again with
  -- whatever id tag, writes nothing and changes no connector.
  pub handle_start_charging_once :
      (id : ℤ) (tag again : String) (c : Charger F)
      → Startable id c
      → ((handle_start_charging env id again (handle_start_charging env id tag c)).wire
          ≡ (handle_start_charging env id tag c).wire)
        × ((handle_start_charging env id again (handle_start_charging env id tag c)).connectors
            ≡ (handle_start_charging env id tag c).connectors)
  handle_start_charging_once id tag again c ready =
      refused_start id again (handle_start_charging env id tag c) already_processed
        (started_refused id tag c ready)
