-- ===== src/Actor/Results.antt =====
-- internal/actor/charger.go: the callbacks of the calls, run when the CMS answers.
use charger_simulator.Common.{
  ℕ, suc, zero, String, Bool, true, false, not, List, [], ◌∷◌, Option, none, some, if◌then◌else◌,
}
use charger_simulator.Common.Int.{ℤ, pos, negsuc, eq_ℤ, in_seconds}
use charger_simulator.Json.{Json}
use charger_simulator.J16.Enums.{
  AuthorizationStatus, RegistrationStatus, available, charging, no_error, power_loss,
}
use charger_simulator.J16.Messages.{BootNotificationResp, AuthorizeResp, StartTransactionResp}
use charger_simulator.Meter.Float.{Float}
use charger_simulator.Session.Disk.{OpenSession}
use charger_simulator.Session.Store.{FileStore, put, delete, update_meter, load_open}
use charger_simulator.Actor.State.{
  CpState, Connector, stop_transaction, AfterStop, OnResult, boot_result, heartbeat_result,
  no_result, authorize_result, start_result, stop_result, record_result, OnError, boot_failed,
  no_error_handler, authorize_failed, Charger, Env,
}
use charger_simulator.Actor.Connectors.{
  find_connector, ids_of, with_connector, clear_start, started, closed_session, recovered,
}
use charger_simulator.Actor.Snapshot.{emit_log, publish_snapshot}
use charger_simulator.Actor.Send.{send_call, send_status, send_start_transaction, run_after}

abbrev pub is_accepted : AuthorizationStatus → Bool
is_accepted AuthorizationStatus.accepted = true
is_accepted _ = false

-- The records of the store, if there is one.
abbrev pub records_of : Option FileStore → List OpenSession
records_of none = []
records_of (some fs) = fs.records

-- An interval of 0 or less leaves the configured one.
abbrev interval_or : ℤ → ℤ → ℤ
interval_or old (pos zero) = old
interval_or old (pos n) = in_seconds n
interval_or old (negsuc _) = old

module _ {F : Type 0} ⦃fl : Float F⦄ (env : Env) where
  -- The store's operations on the actor's store. An error of the disk is only logged.
  unfoldable pub store_put : OpenSession → Charger F → Charger F
  store_put s c = record c {
    store = elim c.store [ none ↦ none | some fs ↦ some (put (env.io c.ticks) s fs).0 ];
    ticks = suc c.ticks;
  }

  unfoldable pub store_delete : String → ℤ → Charger F → Charger F
  store_delete cpid id c = record c {
    store = elim c.store [ none ↦ none | some fs ↦ some (delete (env.io c.ticks) cpid id fs).0 ];
    ticks = suc c.ticks;
  }

  unfoldable pub store_update_meter : ℤ → ℤ → ℕ → Charger F → Charger F
  store_update_meter id wh at c = record c {
    store = elim c.store [
      | none ↦ none
      | some fs ↦ some (update_meter (env.io c.ticks) c.cfg.cpid id wh at fs).0
    ];
    ticks = suc c.ticks;
  }

  -- `stopTransactionFromRecord`: a stop built from the record alone.
  unfoldable pub stop_transaction_from_record : OpenSession → Charger F → Charger F
  stop_transaction_from_record rec =
      send_call env
        (stop_transaction (record {
          id_tag = rec.id_tag;
          meter_stop = rec.last_meter_wh;
          timestamp = rec.last_meter_at;
          transaction_id = rec.tx_id;
          reason = power_loss;
        }))
        (record_result rec) no_error_handler

  unfoldable pub recover_all : List OpenSession → Charger F → Charger F
  recover_all [] c = c
  recover_all (rec ∷ recs) c = recover_all recs (
      stop_transaction_from_record rec
        (emit_log "warn" "recovering session interrupted by outage (PowerLoss)" c))

  unfoldable pub recover_interrupted_sessions : Charger F → Charger F
  recover_interrupted_sessions c = recover_all (load_open c.cfg.cpid (records_of c.store)) c

  announce_on : ℤ → Charger F → Option (Connector F) → Charger F
  announce_on id c none = c
  announce_on id c (some cn) =
      if not (eq_ℤ cn.tx_id (pos 0)) then c else send_status env id cn.status cn.error_code c

  unfoldable pub announce_one : ℤ → Charger F → Charger F
  unfolding announce_on
  announce_one id c = announce_on id c (find_connector id c.connectors)

  -- Each connector's current status, but for those with a transaction.
  unfoldable pub announce : List ℤ → Charger F → Charger F
  announce [] c = c
  announce (id ∷ ids) c = announce ids (announce_one id c)

  unfoldable pub boot_accepted : ℤ → Charger F → Charger F
  boot_accepted interval c =
      let up : Charger F = record c {
        cp_state = CpState.online;
        boot_interval = interval_or c.boot_interval interval;
      } in
      recover_interrupted_sessions (
        announce (ids_of c.connectors) (
          send_status env (pos 0) available no_error
            (publish_snapshot env (emit_log "info" "boot accepted" up))))

  unfoldable pub on_boot : Option BootNotificationResp → Charger F → Charger F
  on_boot none c = c
  on_boot (some resp) c = elim resp.status [
    | RegistrationStatus.accepted ↦ boot_accepted resp.interval c
    | RegistrationStatus.pending ↦ emit_log "warn" "boot pending" c
    | RegistrationStatus.rejected ↦ emit_log "error" "boot rejected" c
    | RegistrationStatus.unknown _ ↦ c
  ]

  unfoldable pub on_authorize : ℤ → String → Option AuthorizeResp → Charger F → Charger F
  on_authorize id tag none c = clear_start id c
  on_authorize id tag (some resp) c =
      if is_accepted resp.id_tag_info.status
      then send_start_transaction env id tag (emit_log "info" "authorize accepted" c)
      else publish_snapshot env (clear_start id (emit_log "warn" "authorize denied" c))

  abbrev pub open_session : Charger F → ℤ → ℤ → String → ℕ → ℤ → OpenSession
  open_session c id tx tag now wh = record {
    cpid = c.cfg.cpid;
    connector_id = id;
    tx_id = tx;
    id_tag = tag;
    meter_start_wh = wh;
    started_at = now;
    last_meter_wh = wh;
    last_meter_at = now;
  }

  unfoldable pub transaction_started : ℤ → String → ℕ → ℤ → ℤ → Charger F → Charger F
  transaction_started id tag now wh tx c = publish_snapshot env (
      emit_log "info" "transaction started" (
        send_status env id charging no_error
          (store_put (open_session c id tx tag now wh) (with_connector id (started tx now wh) c))))

  -- A response that cannot be decoded is only logged: the start stays pending.
  unfoldable pub on_start : ℤ → String → ℕ → ℤ → Option StartTransactionResp → Charger F → Charger F
  on_start id tag now wh none c = c
  on_start id tag now wh (some resp) c =
      if is_accepted resp.id_tag_info.status
      then transaction_started id tag now wh resp.transaction_id c
      else publish_snapshot env (clear_start id (emit_log "warn" "startTx denied" c))

  -- The payload is not read.
  unfoldable pub on_stop : ℤ → AfterStop → Charger F → Charger F
  on_stop id after c = run_after env id after (
      publish_snapshot env (
        with_connector id closed_session
          (emit_log "info" "transaction stopped" (store_delete c.cfg.cpid id c))))

  abbrev pub reconciled : ℤ → Charger F → Option (Connector F) → Charger F
  reconciled id c none = publish_snapshot env c
  reconciled id c (some _) = send_status env id available no_error (with_connector id recovered c)

  unfoldable pub on_record : OpenSession → Charger F → Charger F
  on_record rec c =
      let c' : Charger F =
        emit_log "info" "interrupted session closed on CMS"
          (store_delete rec.cpid rec.connector_id c) in
      reconciled rec.connector_id c' (find_connector rec.connector_id c.connectors)

  unfoldable pub run_result : OnResult → Json → Charger F → Charger F
  run_result boot_result payload c = on_boot (env.boot_resp payload) c
  run_result heartbeat_result payload c = c
  run_result no_result payload c = c
  run_result (authorize_result id tag) payload c =
      on_authorize id tag (env.authorize_resp payload) c
  run_result (start_result id tag now wh) payload c =
      on_start id tag now wh (env.start_resp payload) c
  run_result (stop_result id after) payload c = on_stop id after c
  run_result (record_result rec) payload c = on_record rec c

  unfoldable pub run_error : OnError → Charger F → Charger F
  run_error boot_failed c = emit_log "error" "boot error" c
  run_error no_error_handler c = c
  run_error (authorize_failed id) c =
      publish_snapshot env (clear_start id (emit_log "warn" "authorize error" c))
