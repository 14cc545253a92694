-- ===== src/Cms/Booting.antt =====
-- A charger of internal/actor/charger.go with the CMS of cmd/stub-cms/main.go: the boot.
use charger_simulator.Common.{
  ℕ, true, false, List, [], ◌∷◌, ◌≡◌, refl, ◌∙◌, ap, sym, subst, if_cases, not, inl, inr,
  Option-cases,
}
use charger_simulator.Common.Int.{ℤ, pos, eq_ℤ, in_seconds}
use charger_simulator.J16.Enums.{RegistrationStatus, available, no_error}
use charger_simulator.J16.Messages.{BootNotificationReq}
use charger_simulator.J16.Marshal.{TimeText, boot_resp_json}
use charger_simulator.J16.Payloads.{boot_read}
use charger_simulator.Meter.Float.{Float}
use charger_simulator.Session.Disk.{OpenSession}
use charger_simulator.Actor.State.{
  CpState, Client, Payload, boot_notification, boot_result, boot_failed, Charger, Env,
}
use charger_simulator.Actor.Connectors.{find_connector, ids_of}
use charger_simulator.Actor.Snapshot.{emit_log, publish_snapshot}
use charger_simulator.Config.{ChargerConfig}
use charger_simulator.Actor.Send.{send_call, send_boot, send_status}
use charger_simulator.Actor.Results.{
  records_of, run_result, on_boot, boot_accepted, announce, announce_one, recover_all,
  recover_interrupted_sessions, stop_transaction_from_record,
}
use charger_simulator.Session.Store.{load_open}
use charger_simulator.Actor.Lifecycle.{
  records_for, calls_of, stops_before, recover_interrupted_sessions_lem,
}
use charger_simulator.Cms.Server.{Cms, payload, known_action, handle_call, reply_to}
use charger_simulator.Cms.Conversation.{wired, exchange}
use charger_simulator.Cms.Exchange.{IsUp, link-IsUp, round_trip}

boot_reply :
    (times : TimeText) (now : ℕ) (s : Cms)
    → handle_call times now "BootNotification" s ≡ (
      s,
      payload (
          boot_resp_json times (record {
            current_time = now;
            interval = pos 30;
            status = RegistrationStatus.accepted;
          })),
    )
unfolding handle_call known_action reply_to
boot_reply times now s = refl

module _ {F : Type 0} ⦃fl : Float F⦄ (env : Env) where
  -- What announcing the connectors keeps: the state, the interval, the store, the link and the
  -- configuration.
  abbrev Kept : Charger F → Charger F → Type 0
  Kept c c' =
      (c'.cp_state ≡ c.cp_state)
      × (c'.boot_interval ≡ c.boot_interval)
      × (c'.store ≡ c.store)
      × (c'.ws ≡ c.ws)
      × (c'.cfg ≡ c.cfg)

  trans-Kept : (a b c : Charger F) → Kept a b → Kept b c → Kept a c
  trans-Kept a b c (s, i, st, w, g) (s', i', st', w', g') =
      (s' ∙ s, i' ∙ i, st' ∙ st, w' ∙ w, g' ∙ g)

  status-Kept : (id : ℤ) (c : Charger F) → Kept c (announce_one env id c)
  unfolding announce_one send_status send_call
  status-Kept id c = elim (Option-cases (find_connector id c.connectors)) [
    | inl none_there ↦ rw none_there (refl, refl, refl, refl, refl)
    | inr (cn, there) ↦ rw there (
        if_cases (Kept c) (not (eq_ℤ cn.tx_id (pos 0))) (λ _. (refl, refl, refl, refl, refl))
          (λ _. (refl, refl, refl, refl, refl)))
  ]

  announce-Kept : (ids : List ℤ) (c : Charger F) → Kept c (announce env ids c)
  unfolding announce
  announce-Kept [] c = (refl, refl, refl, refl, refl)
  announce-Kept (id ∷ ids) c =
      trans-Kept c (announce_one env id c) (announce env ids (announce_one env id c))
        (status-Kept id c) (announce-Kept ids (announce_one env id c))

  recover-Kept : (recs : List OpenSession) (c : Charger F) → Kept c (recover_all env recs c)
  unfolding recover_all stop_transaction_from_record send_call
  recover-Kept [] c = (refl, refl, refl, refl, refl)
  recover-Kept (rec ∷ recs) c = recover-Kept recs _

  -- The calls written end with a stop for each session of the store.
  abbrev pub ReportsAll : Charger F → Charger F → Type 0
  ReportsAll c c' =
      (before : List Payload) × (calls_of c'.wire
        ≡ stops_before (records_for c.cfg.cpid (records_of c.store)) before)

  booted : Charger F → Charger F
  booted c = send_status env (pos 0) available no_error (
      publish_snapshot env (
        emit_log "info" "boot accepted"
          (record c { cp_state = CpState.online; boot_interval = in_seconds 30 })))

  announced-Kept :
      (c : Charger F)
      → Kept
          (record c { cp_state = CpState.online; boot_interval = in_seconds 30 })
          (announce env (ids_of c.connectors) (booted c))
  unfolding booted send_status send_call
  announced-Kept c = announce-Kept (ids_of c.connectors) (booted c)

  accepted_lem :
      (c : Charger F)
      → ((k : ℕ) → env.writes k ≡ true)
      → c.ws.dialled ≡ true
      → c.ws.closed ≡ false
      → ((boot_accepted env (pos 30) c).cp_state ≡ CpState.online)
        × ((boot_accepted env (pos 30) c).boot_interval ≡ in_seconds 30)
        × ((boot_accepted env (pos 30) c).store ≡ c.store)
        × ReportsAll c (boot_accepted env (pos 30) c)
  unfolding boot_accepted recover_interrupted_sessions booted
  accepted_lem c writes dialled open_ =
      let up : Charger F = record c { cp_state = CpState.online; boot_interval = in_seconds 30 } in
      let c₂ : Charger F = announce env (ids_of c.connectors) (booted c) in
      let kept : Kept up c₂ = announced-Kept c in
      let (_, _, st, w, g) = kept in
      let all = recover-Kept (load_open c₂.cfg.cpid (records_of c₂.store)) c₂ in
      let (state, interval, same, _, _) =
        trans-Kept up c₂ (boot_accepted env (pos 30) c) kept all in
      let (reported, _) =
        recover_interrupted_sessions_lem env c₂ writes (ap (λ (x : Client). x.dialled) w ∙ dialled)
          (ap (λ (x : Client). x.closed) w ∙ open_) in
      (
        state,
        interval,
        same,
        (
          calls_of c₂.wire,
          reported
              ∙ ap
                  (λ (x : ChargerConfig F).
                    stops_before (records_for x.cpid (records_of c₂.store)) (calls_of c₂.wire))
                  g
              ∙ ap (λ x. stops_before (records_for c.cfg.cpid (records_of x)) (calls_of c₂.wire))
                  st,
        ),
      )

module _ {F : Type 0} ⦃fl : Float F⦄ (times : TimeText) (env : Env) where
  boot_heard :
      (now : ℕ) (c : Charger F)
      → run_result
          (wired times env)
          boot_result
          (boot_resp_json times (record {
            current_time = now;
            interval = pos 30;
            status = RegistrationStatus.accepted;
          }))
          c
        ≡ boot_accepted (wired times env) (pos 30) c
  unfolding run_result on_boot
  boot_heard now c =
      rw
        (boot_read times
          (record { current_time = now; interval = pos 30; status = RegistrationStatus.accepted })
          refl refl)
        refl

  pub boot_exchange :
      (now : ℕ) (s : Cms) (c : Charger F)
      → IsUp times env c
      → let after = exchange times env now s (send_boot (wired times env) c) in
        (after.1.cp_state ≡ CpState.online)
        × (after.1.boot_interval ≡ in_seconds 30)
        × (after.1.store ≡ c.store)
        × ReportsAll (wired times env) c after.1
        × (after.0 ≡ s)
  unfolding send_boot
  boot_exchange now s c up =
      let req : BootNotificationReq = record {
        charge_point_vendor = c.cfg.vendor;
        charge_point_model = c.cfg.model;
        charge_point_serial_number = c.cfg.cpid;
        firmware_version = c.cfg.firmware_version;
      } in
      let (heard, _, st, w, g, e) =
        round_trip times env now s s (boot_notification req) boot_result boot_failed c _ up
          (boot_reply times now s) in
      let (writes, dialled, open_) = link-IsUp times env c heard w up in
      let (state, interval, same, (before, reported)) =
        accepted_lem (wired times env) heard writes dialled open_ in
      let sessions =
        ap
          (λ (x : ChargerConfig F).
            stops_before (records_for x.cpid (records_of heard.store)) before)
          g
        ∙ ap (λ x. stops_before (records_for c.cfg.cpid (records_of x)) before) st in
      subst
        (λ (r : Cms × Charger F).
          (r.1.cp_state ≡ CpState.online)
          × (r.1.boot_interval ≡ in_seconds 30)
          × (r.1.store ≡ c.store)
          × ReportsAll (wired times env) c r.1
          × (r.0 ≡ s))
        (sym (e ∙ ap (λ x. (s, x)) (boot_heard now heard)))
        (state, interval, same ∙ st, (before, reported ∙ sessions), refl)
