-- ===== src/Actor/Shown/Results.antt =====
-- internal/actor/charger.go: a connector with an open transaction shows Charging or Finishing: the
-- callbacks of the calls keep it so.
use charger_simulator.Common.{
  ℕ, String, true, not, List, [], ◌∷◌, Option, none, some, ◌≡◌, refl, inl, inr, All, Bool-cases,
  Option-cases, arith, if_cases, not-true,
}
use charger_simulator.Common.Int.{ℤ, pos, eq_ℤ, eq_ℤ_iff}
use charger_simulator.Json.{Json}
use charger_simulator.J16.Enums.{available, charging, no_error}
use charger_simulator.J16.Messages.{BootNotificationResp, AuthorizeResp, StartTransactionResp}
use charger_simulator.Meter.Float.{Float}
use charger_simulator.Session.Disk.{OpenSession}
use charger_simulator.Actor.State.{
  Connector, AfterStop, OnResult, boot_result, heartbeat_result, no_result, authorize_result,
  start_result, stop_result, record_result, OnError, boot_failed, no_error_handler,
  authorize_failed, Charger, Env,
}
use charger_simulator.Actor.Connectors.{
  find_connector, find-modify, find-id, modify, modify-All, modify-modify, with_connector,
  not_pending, started, with_status, closed_session, recovered,
}
use charger_simulator.Actor.Send.{send_call, send_status}
use charger_simulator.Actor.Results.{
  is_accepted, store_put, store_delete, stop_transaction_from_record, recover_all,
  recover_interrupted_sessions, announce, announce_one, boot_accepted, on_boot, on_authorize,
  transaction_started, on_start, on_stop, on_record, run_result, run_error,
}
use charger_simulator.Actor.Shown.Sends.{
  ShowsTx, AllShow, IsIdle, IsIdle-some, send_status-AllShow, send_start_transaction-AllShow,
  run_after-AllShow, keep-AllShow,
}

module _ {F : Type 0} ⦃fl : Float F⦄ (env : Env) where
  -- A write that clears the transaction of a connector, and what it leaves.
  cleared-AllShow :
      (id : ℤ) (f : Connector F → Connector F) (cns : List (Connector F))
      → ((cn : Connector F) → ((f cn).id ≡ cn.id) × ((f cn).tx_id ≡ pos 0))
      → All ShowsTx cns
      → All ShowsTx (modify id f cns)
  cleared-AllShow id f cns clears all =
      modify-All ShowsTx id f cns (λ cn _ shows. (rw (clears cn).0 shows.0, inl (clears cn).1)) all

  cleared-IsIdle :
      (id : ℤ) (f : Connector F → Connector F) (c : Charger F)
      → ((cn : Connector F) → ((f cn).id ≡ cn.id) × ((f cn).tx_id ≡ pos 0))
      → IsIdle id (with_connector id f c)
  cleared-IsIdle id f c clears cn found = elim (Option-cases (find_connector id c.connectors)) [
    | inl e ↦
        ground
          (arith, found, e, find-modify id id f c.connectors (λ y. (clears y).0), eq_ℤ_iff id id)
    | inr (x, e) ↦ ground (
      arith,
      found,
      e,
      find-modify id id f c.connectors (λ y. (clears y).0),
      eq_ℤ_iff id id,
      clears x,
    )
  ]

  recover_all-AllShow :
      (recs : List OpenSession) (c : Charger F) → AllShow c → AllShow (recover_all env recs c)
  unfolding recover_all stop_transaction_from_record send_call
  recover_all-AllShow [] c all = all
  recover_all-AllShow (rec ∷ recs) c all = recover_all-AllShow recs _ all

  send_cp_status-AllShow :
      (c : Charger F) → AllShow c → AllShow (send_status env (pos 0) available no_error c)
  unfolding send_status send_call
  send_cp_status-AllShow c all = all

  announce_one-AllShow : (id : ℤ) (c : Charger F) → AllShow c → AllShow (announce_one env id c)
  unfolding announce_one
  announce_one-AllShow id c all = elim (Option-cases (find_connector id c.connectors)) [
    | inl e ↦ rw (e, announce_one) all
    | inr (cn, e) ↦
        rw (e, announce_one)
          (if_cases AllShow (not (eq_ℤ cn.tx_id (pos 0))) (λ _. all)
            λ idle.
              send_status-AllShow env id cn.status cn.error_code c
                (inr (IsIdle-some env id c e ((eq_ℤ_iff cn.tx_id (pos 0)).0 (not-true _ idle))))
                all)
  ]

  announce-AllShow : (ids : List ℤ) (c : Charger F) → AllShow c → AllShow (announce env ids c)
  unfolding announce
  announce-AllShow [] c all = all
  announce-AllShow (id ∷ ids) c all =
      announce-AllShow ids (announce_one env id c) (announce_one-AllShow id c all)

  pub boot_accepted-AllShow :
      (interval : ℤ) (c : Charger F) → AllShow c → AllShow (boot_accepted env interval c)
  unfolding boot_accepted recover_interrupted_sessions
  boot_accepted-AllShow interval c all =
      recover_all-AllShow _ _ (announce-AllShow _ _ (send_cp_status-AllShow _ all))

  pub on_boot-AllShow :
      (resp : Option BootNotificationResp) (c : Charger F)
      → AllShow c
      → AllShow (on_boot env resp c)
  unfolding on_boot
  on_boot-AllShow none c all = all
  on_boot-AllShow (some resp) c all = ground (arith, all, boot_accepted-AllShow resp.interval c all)

  pub on_authorize-AllShow :
      (id : ℤ) (tag : String) (resp : Option AuthorizeResp) (c : Charger F)
      → AllShow c
      → AllShow (on_authorize env id tag resp c)
  unfolding on_authorize
  on_authorize-AllShow id tag none c all =
      keep-AllShow env id not_pending c.connectors (λ x. (refl, refl, refl)) all
  on_authorize-AllShow id tag (some resp) c all =
      if_cases AllShow (is_accepted resp.id_tag_info.status)
        (λ _. send_start_transaction-AllShow env id tag _ all)
        λ _. keep-AllShow env id not_pending c.connectors (λ x. (refl, refl, refl)) all

  -- The transaction is set together with the status.
  transaction_started-AllShow :
      (id : ℤ) (tag : String) (now : ℕ) (wh tx : ℤ) (c : Charger F)
      → AllShow c
      → AllShow (transaction_started env id tag now wh tx c)
  unfolding transaction_started store_put send_status send_call
  transaction_started-AllShow id tag now wh tx c all = elim (Bool-cases (eq_ℤ id (pos 0))) [
    | inl e ↦ rw e (modify-All ShowsTx id (started tx now wh) c.connectors (absent e) all)
    | inr e ↦
        rw
          (
            e,
            modify-modify id (started tx now wh) (with_status charging no_error) c.connectors
                (λ _. refl),
          )
          (modify-All ShowsTx id _ c.connectors (λ cn _ shows. (shows.0, inr (inl refl))) all)
  ]
    where
      absent :
          eq_ℤ id (pos 0) ≡ true
          → (cn : Connector F) → find_connector id c.connectors ≡ some cn
          → ShowsTx cn
          → ShowsTx (started tx now wh cn)
      absent e cn found shows = absurd (
          ground (
            arith,
            e,
            shows.0,
            find-id id c.connectors cn found,
            eq_ℤ_iff id (pos 0),
            eq_ℤ_iff cn.id id,
            eq_ℤ_iff cn.id (pos 0),
          ))

  pub on_start-AllShow :
      (id : ℤ) (tag : String) (now : ℕ) (wh : ℤ) (resp : Option StartTransactionResp)
      (c : Charger F)
      → AllShow c
      → AllShow (on_start env id tag now wh resp c)
  unfolding on_start
  on_start-AllShow id tag now wh none c all = all
  on_start-AllShow id tag now wh (some resp) c all =
      if_cases AllShow (is_accepted resp.id_tag_info.status)
        (λ _. transaction_started-AllShow id tag now wh resp.transaction_id c all)
        λ _. keep-AllShow env id not_pending c.connectors (λ x. (refl, refl, refl)) all

  pub on_stop-AllShow :
      (id : ℤ) (after : AfterStop) (c : Charger F) → AllShow c → AllShow (on_stop env id after c)
  unfolding on_stop store_delete
  on_stop-AllShow id after c all =
      run_after-AllShow env id after _ (cleared-IsIdle id closed_session c (λ x. (refl, refl)))
        (cleared-AllShow id closed_session c.connectors (λ x. (refl, refl)) all)

  pub on_record-AllShow :
      (rec : OpenSession) (c : Charger F) → AllShow c → AllShow (on_record env rec c)
  unfolding on_record store_delete
  on_record-AllShow rec c all = elim (Option-cases (find_connector rec.connector_id c.connectors)) [
    | inl e ↦ rw (e, on_record) all
    | inr (cn, e) ↦
        rw (e, on_record)
          (send_status-AllShow env rec.connector_id available no_error _
            (inr (cleared-IsIdle rec.connector_id recovered c (λ x. (refl, refl))))
            (cleared-AllShow rec.connector_id recovered c.connectors (λ x. (refl, refl)) all))
  ]

  pub run_result-AllShow :
      (r : OnResult) (payload : Json) (c : Charger F)
      → AllShow c
      → AllShow (run_result env r payload c)
  unfolding run_result
  run_result-AllShow boot_result payload c all = on_boot-AllShow _ c all
  run_result-AllShow heartbeat_result payload c all = all
  run_result-AllShow no_result payload c all = all
  run_result-AllShow (authorize_result id tag) payload c all = on_authorize-AllShow id tag _ c all
  run_result-AllShow (start_result id tag now wh) payload c all =
      on_start-AllShow id tag now wh _ c all
  run_result-AllShow (stop_result id after) payload c all = on_stop-AllShow id after c all
  run_result-AllShow (record_result rec) payload c all = on_record-AllShow rec c all

  pub run_error-AllShow : (r : OnError) (c : Charger F) → AllShow c → AllShow (run_error env r c)
  unfolding run_error
  run_error-AllShow boot_failed c all = all
  run_error-AllShow no_error_handler c all = all
  run_error-AllShow (authorize_failed id) c all =
      keep-AllShow env id not_pending c.connectors (λ x. (refl, refl, refl)) all
