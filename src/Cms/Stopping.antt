-- ===== src/Cms/Stopping.antt =====
-- A charger of internal/actor/charger.go with the CMS of cmd/stub-cms/main.go: the end of a session.
use charger_simulator.Common.{ℕ, false, none, some, ◌≡◌, refl, ◌∙◌, ap, sym, subst}
use charger_simulator.Common.Int.{ℤ, pos, eq_ℤ}
use charger_simulator.J16.Enums.{local, finishing, no_error}
use charger_simulator.J16.Messages.{StopTransactionReq}
use charger_simulator.J16.Marshal.{TimeText, stop_resp_json}
use charger_simulator.Meter.Float.{Float}
use charger_simulator.Meter.Engine.{sample}
use charger_simulator.Session.Store.{FileStore}
use charger_simulator.Session.Lookup.{AreDistinct}
use charger_simulator.Actor.State.{
  Connector, stop_transaction, stop_result, no_error_handler, make_available, Charger, Env,
}
use charger_simulator.Actor.Connectors.{find_connector, modify, with_status, with_engine}
use charger_simulator.Actor.Snapshot.{emit_log}
use charger_simulator.Actor.Send.{
  send_call, send_status, send_stop_transaction, stop_transaction_of,
}
use charger_simulator.Actor.Results.{run_result}
use charger_simulator.Actor.Commands.{handle_stop_charging}
use charger_simulator.Actor.Lifecycle.{IsClosed, record_of, on_stop_lem, written_twice}
use charger_simulator.Cms.Server.{Cms, payload, accepted_info, known_action, handle_call, reply_to}
use charger_simulator.Cms.Conversation.{wired, exchange}
use charger_simulator.Cms.Exchange.{IsUp, link-IsUp, round_trip}

stop_reply :
    (times : TimeText) (now : ℕ) (s : Cms)
    → handle_call times now "StopTransaction" s
      ≡ (s, payload (stop_resp_json times (record { id_tag_info = some accepted_info })))
unfolding handle_call known_action reply_to
stop_reply times now s = refl

module _ {F : Type 0} ⦃fl : Float F⦄ (times : TimeText) (env : Env) where
  -- StopTransaction is sent by a charger whose connector is there.
  abbrev Stopped : ℤ → Charger F → Charger F → Type 0
  Stopped id c after =
      (req : StopTransactionReq) × (c' : Charger F) × (cn : Connector F) × (find_connector id
          c'.connectors
        ≡ some cn)
      × (c'.store ≡ c.store)
      × (c'.ws ≡ c.ws)
      × (after
          ≡ send_call (wired times env) (stop_transaction req) (stop_result id make_available)
              no_error_handler c')

  stop_sent :
      (id : ℤ) (c : Charger F) (cn : Connector F)
      → find_connector id c.connectors ≡ some cn
      → eq_ℤ cn.tx_id (pos 0) ≡ false
      → eq_ℤ id (pos 0) ≡ false
      → Stopped id c (handle_stop_charging (wired times env) id c)
  unfolding handle_stop_charging send_stop_transaction stop_transaction_of send_status send_call
  stop_sent id c cn found in_tx known =
      let c₀ : Charger F = emit_log "info" "stop charging requested" c in
      let now : ℕ = env.now c.ticks in
      let sampled : Charger F = record c₀ {
        connectors = modify id (with_engine (sample now)) c₀.connectors;
      } in
      (
        record {
          id_tag = cn.session_id_tag;
          meter_stop = fl.to_int (sample now cn.meter_eng).last_snap.energy_wh;
          timestamp = now;
          transaction_id = cn.tx_id;
          reason = local;
        },
        send_status (wired times env) id finishing no_error sampled,
        with_status finishing no_error (with_engine (sample now) cn),
        rw known (
            written_twice id (with_engine (sample now)) (with_status finishing no_error)
              c.connectors cn (λ x. refl) (λ x. refl) found),
        refl,
        refl,
        rw (found, in_tx) refl,
      )

  -- A charger whose link is up and takes what is written, with a store whose keys are distinct, and the
  -- CMS that answers at once: a stop command for a connector in a transaction leads, in one exchange,
  -- to an Available connector with nothing left of the session, in memory and in the store, and
  -- changes nothing of the CMS.
  pub stop_charge :
      (now : ℕ) (id : ℤ) (s : Cms) (c : Charger F) (cn : Connector F) (fs : FileStore)
      → find_connector id c.connectors ≡ some cn
      → eq_ℤ cn.tx_id (pos 0) ≡ false
      → eq_ℤ id (pos 0) ≡ false
      → c.store ≡ some fs
      → AreDistinct fs.records
      → IsUp times env c
      → let after = exchange times env now s (handle_stop_charging (wired times env) id c) in
        IsClosed make_available (find_connector id after.1.connectors)
        × (record_of id after.1 ≡ none)
        × (after.0 ≡ s)
  unfolding run_result
  stop_charge now id s c cn fs found in_tx known store distinct up =
      let (req, c', cn', found', st, ws, e) = stop_sent id c cn found in_tx known in
      let (heard, cns', st', ws', cfg', e') =
        round_trip times env now s s (stop_transaction req) (stop_result id make_available)
          no_error_handler c' _ (link-IsUp times env c c' ws up) (stop_reply times now s) in
      let (closed, forgotten) =
        on_stop_lem (wired times env) id make_available heard cn' fs
          (ap (find_connector id) cns' ∙ found') known (st' ∙ st ∙ store) distinct in
      subst
        (λ (r : Cms × Charger F).
          IsClosed make_available (find_connector id r.1.connectors)
          × (record_of id r.1 ≡ none)
          × (r.0 ≡ s))
        (sym (ap (exchange times env now s) e ∙ e')) (closed, forgotten, refl)
