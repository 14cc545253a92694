-- ===== src/Cms/Charging.antt =====
-- A charger of internal/actor/charger.go with the CMS of cmd/stub-cms/main.go: a session.
use charger_simulator.Common.{
  ℕ, suc, ◌<◌, String, false, List, Option, none, some, ◌≡◌, refl, ◌∙◌, ap, sym, subst,
}
use charger_simulator.Common.Int.{ℤ, pos, eq_ℤ, eq_ℤ_refl}
use charger_simulator.J16.Messages.{StartTransactionReq, StartTransactionResp}
use charger_simulator.J16.Marshal.{TimeText, authorize_resp_json, start_resp_json}
use charger_simulator.J16.Payloads.{authorize_read, start_read}
use charger_simulator.Cms.Transactions.{next-Small, int_of-Small, fits_int-Small}
use charger_simulator.Meter.Float.{Float}
use charger_simulator.Session.Disk.{OpenSession}
use charger_simulator.Session.Store.{FileStore}
use charger_simulator.Actor.State.{
  Connector, authorize, authorize_failed, start_transaction, authorize_result, start_result,
  no_error_handler, Charger, Env,
}
use charger_simulator.Actor.Connectors.{
  find_connector, with_connector, set_pending, begin_session, find-modify, modify, KeepsId,
}
use charger_simulator.Actor.Snapshot.{emit_log}
use charger_simulator.Actor.Send.{send_call, send_authorize, send_start_transaction}
use charger_simulator.Actor.Results.{run_result, on_start, on_authorize}
use charger_simulator.Actor.Commands.{default_tag, start_unless, handle_start_charging}
use charger_simulator.Actor.Starting.{Startable, Startable-allowed}
use charger_simulator.Actor.Lifecycle.{IsCharging, record_of, on_start_lem}
use charger_simulator.Cms.Server.{Cms, payload, known_action, handle_call, reply_to, accepted_info}
use charger_simulator.Cms.Conversation.{wired, exchange}
use charger_simulator.Cms.Exchange.{IsUp, link-IsUp, round_trip}

module _ (times : TimeText) where
  -- The answers of the CMS.
  authorize_reply :
      (now : ℕ) (s : Cms)
      → handle_call times now "Authorize" s
        ≡ (s, payload (authorize_resp_json times (record { id_tag_info = accepted_info })))
  unfolding handle_call known_action reply_to
  authorize_reply now s = refl

  start_reply :
      (now : ℕ) (s : Cms)
      → suc s.next_tx < 9223372036854775808
      → handle_call times now "StartTransaction" s ≡ (
        record s { next_tx = suc s.next_tx },
        payload (
            start_resp_json times
              (record { id_tag_info = accepted_info; transaction_id = pos (suc s.next_tx) })),
      )
  unfolding handle_call known_action reply_to
  start_reply now s small = rw (next-Small s.next_tx small, int_of-Small (suc s.next_tx) small) refl

found_after :
    {F : Type 0} (id : ℤ) (f : Connector F → Connector F) (cns : List (Connector F))
    (cn : Connector F)
    → KeepsId f
    → find_connector id cns ≡ some cn
    → find_connector id (modify id f cns) ≡ some (f cn)
found_after id f cns cn keeps found = rw (find-modify id id f cns keeps, eq_ℤ_refl id, found) refl

-- The record of a session that has just been opened.
abbrev pub IsOpened : ℤ → String → ℤ → Option OpenSession → Type 0
IsOpened tx tag wh none = ⊥
IsOpened tx tag wh (some rec) =
    (rec.tx_id ≡ tx) × (rec.id_tag ≡ tag) × (rec.meter_start_wh ≡ wh) × (rec.last_meter_wh ≡ wh)

module _ {F : Type 0} ⦃fl : Float F⦄ (times : TimeText) (env : Env) where
  -- A start that is honoured is an Authorize.
  honoured :
      (id : ℤ) (tag : String) (c : Charger F)
      → Startable id c
      → handle_start_charging (wired times env) id tag c
        ≡ send_authorize
            (wired times env)
            id
            (default_tag tag)
            (emit_log "info" "start charging requested" (with_connector id set_pending c))
  unfolding handle_start_charging start_unless
  honoured id tag c ready = rw (ready.1, Startable-allowed id c ready) refl

  -- `sendStartTransaction` for a connector that is there.
  start_sent :
      (id : ℤ) (tag : String) (c : Charger F) (cn : Connector F)
      → find_connector id c.connectors ≡ some cn
      → send_start_transaction (wired times env) id tag c
        ≡ send_call
            (wired times env)
            (start_transaction (record {
              connector_id = id;
              id_tag = tag;
              meter_start = fl.to_int cn.meter_eng.current_wh;
              timestamp = env.now c.ticks;
            }))
            (start_result id tag (env.now c.ticks) (fl.to_int cn.meter_eng.current_wh))
            no_error_handler
            (with_connector id
              (begin_session (env.now c.ticks) (fl.to_int cn.meter_eng.current_wh) tag)
              c)
  unfolding send_start_transaction
  start_sent id tag c cn found = rw found refl

  authorized :
      (id : ℤ) (tag : String) (c : Charger F)
      → run_result
          (wired times env)
          (authorize_result id tag)
          (authorize_resp_json times (record { id_tag_info = accepted_info }))
          c
        ≡ send_start_transaction (wired times env) id tag (emit_log "info" "authorize accepted" c)
  unfolding run_result on_authorize
  authorized id tag c = rw (authorize_read times (record { id_tag_info = accepted_info }) refl) refl

  started_with :
      (id : ℤ) (tag : String) (now : ℕ) (wh : ℤ) (tx : ℕ) (c : Charger F)
      → tx < 9223372036854775808
      → run_result
          (wired times env)
          (start_result id tag now wh)
          (start_resp_json times (record { id_tag_info = accepted_info; transaction_id = pos tx }))
          c
        ≡ on_start
            (wired times env)
            id
            tag
            now
            wh
            (some (record { id_tag_info = accepted_info; transaction_id = pos tx }))
            c
  unfolding run_result
  started_with id tag now wh tx c small =
      rw
        (start_read times (record { id_tag_info = accepted_info; transaction_id = pos tx }) refl
          (fits_int-Small tx small))
        refl

  -- The connector's session has begun, and StartTransaction is on the wire.
  abbrev Asked : ℤ → String → Cms → Charger F → Connector F → Cms × Charger F → Type 0
  Asked id tag s c cn after =
      let wh : ℤ = fl.to_int cn.meter_eng.current_wh in
      (t : ℕ) × (req : StartTransactionReq) × (c' : Charger F) × (c'.connectors
        ≡ modify id (begin_session t wh tag) (modify id set_pending c.connectors))
      × (c'.store ≡ c.store)
      × (c'.ws ≡ c.ws)
      × (after ≡ (
        s,
        send_call (wired times env) (start_transaction req) (start_result id tag t wh)
            no_error_handler c',
      ))

  asked :
      (now : ℕ) (id : ℤ) (tag : String) (s : Cms) (c : Charger F) (ready : Startable id c)
      → IsUp times env c
      → Asked id
          (default_tag tag)
          s
          c
          ready.0
          (exchange times env now s (handle_start_charging (wired times env) id tag c))
  unfolding send_authorize
  asked now id tag s c ready up =
      let tag' : String = default_tag tag in
      let c₁ : Charger F =
        emit_log "info" "start charging requested" (with_connector id set_pending c) in
      let (heard, cns, st, ws, cfg, e) =
        round_trip times env now s s (authorize (record { id_tag = tag' }))
          (authorize_result id tag') (authorize_failed id) c₁ _ up (authorize_reply times now s) in
      let c₂ : Charger F = emit_log "info" "authorize accepted" heard in
      let found : find_connector id c₂.connectors ≡ some (set_pending ready.0) =
        ap (find_connector id) cns
        ∙ found_after id set_pending c.connectors ready.0 (λ x. refl) ready.1 in
      let wh : ℤ = fl.to_int ready.0.meter_eng.current_wh in
      (
        env.now c₂.ticks,
        _,
        with_connector id (begin_session (env.now c₂.ticks) wh tag') c₂,
        ap (modify id (begin_session (env.now c₂.ticks) wh tag')) cns,
        st,
        ws,
        ap (exchange times env now s) (honoured id tag c ready)
            ∙ e
            ∙ ap (λ x. (s, x))
                (authorized id tag' heard ∙ start_sent id tag' c₂ (set_pending ready.0) found),
      )

  -- A charger whose link is up and takes what is written, with a store, and the CMS that answers at
  -- once: a start command that is honoured leads, in two exchanges, Authorize and StartTransaction, to
  -- a connector that charges in the transaction whose id is the counter's next value, from the meter's
  -- reading on, with a record of it in the store; and the counter has moved on by one.
  pub charge :
      (now now' : ℕ) (id : ℤ) (tag : String) (s : Cms) (c : Charger F) (fs : FileStore)
      (ready : Startable id c)
      → IsUp times env c
      → eq_ℤ id (pos 0) ≡ false
      → c.store ≡ some fs
      → suc s.next_tx < 9223372036854775808
      → let first = exchange times env now s (handle_start_charging (wired times env) id tag c) in
        let second = exchange times env now' first.0 first.1 in
        let wh : ℤ = fl.to_int ready.0.meter_eng.current_wh in
        IsCharging (pos (suc s.next_tx)) (fl.of_int wh) (find_connector id second.1.connectors)
        × IsOpened (pos (suc s.next_tx)) (default_tag tag) wh (record_of id second.1)
        × (second.0.next_tx ≡ suc s.next_tx)
  charge now now' id tag s c fs ready up known store small =
      let cn : Connector F = ready.0 in
      let wh : ℤ = fl.to_int cn.meter_eng.current_wh in
      let resp : StartTransactionResp = record {
        id_tag_info = accepted_info;
        transaction_id = pos (suc s.next_tx);
      } in
      let s' : Cms = record s { next_tx = suc s.next_tx } in
      let (t, req, c', cns, st, ws, e) = asked now id tag s c ready up in
      let (heard, cns', st', ws', cfg', e') =
        round_trip times env now' s s' (start_transaction req)
          (start_result id (default_tag tag) t wh) no_error_handler c' _
          (link-IsUp times env c c' ws up) (start_reply times now' s small) in
      let found : find_connector id heard.connectors
          ≡ some (begin_session t wh (default_tag tag) (set_pending cn)) =
        ap (find_connector id) (cns' ∙ cns)
        ∙ found_after id (begin_session t wh (default_tag tag)) (modify id set_pending c.connectors)
            (set_pending cn) (λ x. refl)
            (found_after id set_pending c.connectors cn (λ x. refl) ready.1) in
      let (charging, recorded) =
        on_start_lem (wired times env) id (default_tag tag) t wh resp heard _ fs refl found known
          (st' ∙ st ∙ store) in
      let whole =
        ap (λ (r : Cms × Charger F). exchange times env now' r.0 r.1) e
        ∙ e'
        ∙ ap (λ x. (s', x)) (started_with id (default_tag tag) t wh (suc s.next_tx) heard small) in
      subst
        (λ (r : Cms × Charger F).
          IsCharging (pos (suc s.next_tx)) (fl.of_int wh) (find_connector id r.1.connectors)
          × IsOpened (pos (suc s.next_tx)) (default_tag tag) wh (record_of id r.1)
          × (r.0.next_tx ≡ suc s.next_tx))
        (sym whole) (charging, rw recorded (refl, refl, refl, refl), refl)
