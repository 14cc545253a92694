-- ===== src/Actor/Recorded/Handlers.antt =====
-- internal/actor/charger.go: the callbacks of the answers keep every open transaction on record.
use charger_simulator.Common.{
  ℕ, String, Bool, true, false, not, List, [], ◌∷◌, Option, none, some, ◌≡◌, refl, inl, inr, arith,
  Option-cases, if_cases, subst,
}
use charger_simulator.Common.Int.{ℤ, pos, eq_ℤ}
use charger_simulator.Json.{Json}
use charger_simulator.J16.Enums.{available, charging, no_error}
use charger_simulator.J16.Messages.{
  BootNotificationResp, AuthorizeResp, StartTransactionResp, MeterValue,
}
use charger_simulator.Meter.Float.{Float}
use charger_simulator.Meter.Engine.{sample}
use charger_simulator.Session.Disk.{OpenSession}
use charger_simulator.Actor.State.{
  Connector, AfterStop, OnResult, boot_result, heartbeat_result, no_result, authorize_result,
  start_result, stop_result, record_result, OnError, boot_failed, no_error_handler,
  authorize_failed, Charger, Env,
}
use charger_simulator.Actor.Connectors.{
  find_connector, modify, KeepsId, not_pending, started, closed_session, recovered, with_engine,
}
use charger_simulator.Actor.Send.{send_call}
use charger_simulator.Actor.Results.{
  is_accepted, store_put, store_delete, store_update_meter, stop_transaction_from_record,
  recover_all, recover_interrupted_sessions, announce_one, announce, boot_accepted, on_boot,
  on_authorize, open_session, transaction_started, on_start, on_stop, on_record, run_result,
  run_error,
}
use charger_simulator.Actor.Inbound.{report, send_meter_values}
use charger_simulator.Actor.Recorded.Base.{
  AreRecorded, put-AreRecorded, delete-AreRecorded, update_meter-AreRecorded, modify_missing,
}
use charger_simulator.Actor.Recorded.Sends.{
  IsRecorded, kept, send_status-IsRecorded, run_after-IsRecorded, send_start_transaction-IsRecorded,
}

module _ {F : Type 0} ⦃fl : Float F⦄ (env : Env) where
  store_put-IsRecorded :
      (s : OpenSession) (f : Connector F → Connector F) (c : Charger F)
      → s.cpid ≡ c.cfg.cpid
      → KeepsId f
      → ((cn : Connector F) → (f cn).tx_id ≡ s.tx_id)
      → IsRecorded env c
      → AreRecorded env c.cfg (store_put env s c).store (modify s.connector_id f c.connectors)
  unfolding store_put
  store_put-IsRecorded s f c own keeps sets rec = elim (Option-cases c.store) [
    | inl e ↦ rw e tt
    | inr (fs, e) ↦
        rw e (put-AreRecorded env c.cfg fs c.ticks s f c.connectors own keeps sets (rw e at rec))
  ]

  store_delete-IsRecorded :
      (cpid : String) (id : ℤ) (f : Connector F → Connector F) (c : Charger F)
      → KeepsId f
      → ((cn : Connector F) → (f cn).tx_id ≡ pos 0)
      → IsRecorded env c
      → AreRecorded env c.cfg (store_delete env cpid id c).store (modify id f c.connectors)
  unfolding store_delete
  store_delete-IsRecorded cpid id f c keeps clears rec = elim (Option-cases c.store) [
    | inl e ↦ rw e tt
    | inr (fs, e) ↦
        rw e (
          delete-AreRecorded env c.cfg fs c.ticks cpid id f c.connectors keeps clears (rw e at rec))
  ]

  store_update_meter-IsRecorded :
      (id wh : ℤ) (at : ℕ) (c : Charger F)
      → IsRecorded env c
      → IsRecorded env (store_update_meter env id wh at c)
  unfolding store_update_meter
  store_update_meter-IsRecorded id wh at c rec = elim (Option-cases c.store) [
    | inl e ↦ rw e tt
    | inr (fs, e) ↦ rw e (
        update_meter-AreRecorded env c.cfg fs c.ticks c.cfg.cpid id wh at c.connectors
          (rw e at rec))
  ]

  recover_all-IsRecorded :
      (recs : List OpenSession) (c : Charger F)
      → IsRecorded env c
      → IsRecorded env (recover_all env recs c)
  unfolding recover_all stop_transaction_from_record send_call
  recover_all-IsRecorded [] c rec = rec
  recover_all-IsRecorded (r ∷ recs) c rec = recover_all-IsRecorded recs _ rec

  announce-IsRecorded :
      (ids : List ℤ) (c : Charger F) → IsRecorded env c → IsRecorded env (announce env ids c)
  unfolding announce announce_one
  announce-IsRecorded [] c rec = rec
  announce-IsRecorded (id ∷ ids) c rec =
      announce-IsRecorded ids (announce_one env id c)
        (elim (Option-cases (find_connector id c.connectors)) [
          | inl e ↦ rw (e, announce_one) rec
          | inr (cn, e) ↦
              rw (e, announce_one)
                (if_cases (IsRecorded env) (not (eq_ℤ cn.tx_id (pos 0))) (λ _. rec)
                  λ _. send_status-IsRecorded env id cn.status cn.error_code c rec)
        ])

  boot_accepted-IsRecorded :
      (interval : ℤ) (c : Charger F)
      → IsRecorded env c
      → IsRecorded env (boot_accepted env interval c)
  unfolding boot_accepted recover_interrupted_sessions
  boot_accepted-IsRecorded interval c rec =
      recover_all-IsRecorded _ _
        (announce-IsRecorded _ _ (send_status-IsRecorded env (pos 0) available no_error _ rec))

  on_boot-IsRecorded :
      (resp : Option BootNotificationResp) (c : Charger F)
      → IsRecorded env c
      → IsRecorded env (on_boot env resp c)
  unfolding on_boot
  on_boot-IsRecorded none c rec = rec
  on_boot-IsRecorded (some resp) c rec =
      ground (arith, rec, boot_accepted-IsRecorded resp.interval c rec)

  on_authorize-IsRecorded :
      (id : ℤ) (tag : String) (resp : Option AuthorizeResp) (c : Charger F)
      → IsRecorded env c
      → IsRecorded env (on_authorize env id tag resp c)
  unfolding on_authorize
  on_authorize-IsRecorded id tag none c rec = kept env id not_pending c (λ x. (refl, refl)) rec
  on_authorize-IsRecorded id tag (some resp) c rec =
      if_cases (IsRecorded env) (is_accepted resp.id_tag_info.status)
        (λ _. send_start_transaction-IsRecorded env id tag _ rec)
        λ _. kept env id not_pending c (λ x. (refl, refl)) rec

  -- The record is put together with the transaction.
  transaction_started-IsRecorded :
      (id : ℤ) (tag : String) (now : ℕ) (wh tx : ℤ) (c : Charger F)
      → IsRecorded env c
      → IsRecorded env (transaction_started env id tag now wh tx c)
  unfolding transaction_started store_put
  transaction_started-IsRecorded id tag now wh tx c rec =
      send_status-IsRecorded env id charging no_error _ (
        store_put-IsRecorded (open_session env c id tx tag now wh) (started tx now wh) c refl
          (λ x. refl) (λ x. refl) rec)

  on_start-IsRecorded :
      (id : ℤ) (tag : String) (now : ℕ) (wh : ℤ) (resp : Option StartTransactionResp)
      (c : Charger F)
      → IsRecorded env c
      → IsRecorded env (on_start env id tag now wh resp c)
  unfolding on_start
  on_start-IsRecorded id tag now wh none c rec = rec
  on_start-IsRecorded id tag now wh (some resp) c rec =
      if_cases (IsRecorded env) (is_accepted resp.id_tag_info.status)
        (λ _. transaction_started-IsRecorded id tag now wh resp.transaction_id c rec)
        λ _. kept env id not_pending c (λ x. (refl, refl)) rec

  on_stop-IsRecorded :
      (id : ℤ) (after : AfterStop) (c : Charger F)
      → IsRecorded env c
      → IsRecorded env (on_stop env id after c)
  unfolding on_stop store_delete
  on_stop-IsRecorded id after c rec =
      run_after-IsRecorded env id after _
        (store_delete-IsRecorded c.cfg.cpid id closed_session c (λ x. refl) (λ x. refl) rec)

  on_record-IsRecorded :
      (r : OpenSession) (c : Charger F) → IsRecorded env c → IsRecorded env (on_record env r c)
  unfolding on_record store_delete
  on_record-IsRecorded r c rec = elim (Option-cases (find_connector r.connector_id c.connectors)) [
    | inl e ↦
        rw (e, on_record)
          (subst (AreRecorded env c.cfg (store_delete env r.cpid r.connector_id c).store)
            (modify_missing r.connector_id recovered c.connectors e) deleted)
    | inr (cn, e) ↦
        rw (e, on_record) (send_status-IsRecorded env r.connector_id available no_error _ deleted)
  ]
    where
      deleted :
          AreRecorded env c.cfg
            (store_delete env r.cpid r.connector_id c).store
            (modify r.connector_id recovered c.connectors)
      deleted =
          store_delete-IsRecorded r.cpid r.connector_id recovered c (λ x. refl) (λ x. refl) rec

  pub run_result-IsRecorded :
      (r : OnResult) (payload : Json) (c : Charger F)
      → IsRecorded env c
      → IsRecorded env (run_result env r payload c)
  unfolding run_result
  run_result-IsRecorded boot_result payload c rec = on_boot-IsRecorded _ c rec
  run_result-IsRecorded heartbeat_result payload c rec = rec
  run_result-IsRecorded no_result payload c rec = rec
  run_result-IsRecorded (authorize_result id tag) payload c rec =
      on_authorize-IsRecorded id tag _ c rec
  run_result-IsRecorded (start_result id tag now wh) payload c rec =
      on_start-IsRecorded id tag now wh _ c rec
  run_result-IsRecorded (stop_result id after) payload c rec = on_stop-IsRecorded id after c rec
  run_result-IsRecorded (record_result r) payload c rec = on_record-IsRecorded r c rec

  pub run_error-IsRecorded :
      (r : OnError) (c : Charger F) → IsRecorded env c → IsRecorded env (run_error env r c)
  unfolding run_error
  run_error-IsRecorded boot_failed c rec = rec
  run_error-IsRecorded no_error_handler c rec = rec
  run_error-IsRecorded (authorize_failed id) c rec =
      kept env id not_pending c (λ x. (refl, refl)) rec

  report-IsRecorded :
      (id tx : ℤ) (r : MeterValue × Bool) (c : Charger F)
      → IsRecorded env c
      → IsRecorded env (report env id tx r c)
  unfolding report send_call
  report-IsRecorded id tx (mv, false) c rec = rec
  report-IsRecorded id tx (mv, true) c rec = rec

  pub send_meter_values-IsRecorded :
      (id : ℤ) (c : Charger F) → IsRecorded env c → IsRecorded env (send_meter_values env id c)
  unfolding send_meter_values
  send_meter_values-IsRecorded id c rec = elim (Option-cases (find_connector id c.connectors)) [
    | inl e ↦ rw (e, send_meter_values) rec
    | inr (cn, e) ↦
        rw (e, send_meter_values)
          (if_cases (IsRecorded env) (eq_ℤ cn.tx_id (pos 0)) (λ _. rec)
            λ _. report-IsRecorded id cn.tx_id _ _ (
              store_update_meter-IsRecorded id _ _ _
                (kept env id (with_engine (sample (env.now c.ticks))) c (λ x. (refl, refl)) rec)))
  ]
