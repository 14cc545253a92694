-- ===== src/Actor/Lifecycle.antt =====
-- internal/actor/charger.go: a session from its start to its end, in memory and in the store.
use charger_simulator.Common.{
  ℕ, String, true, false, List, [], ◌∷◌, Option, none, some, ◌≡◌, refl, ◌∙◌, ap, arith, str_eq,
  eq_iff, filterb,
}
use charger_simulator.Common.Int.{ℤ, pos, eq_ℤ, eq_ℤ_refl}
use charger_simulator.J16.Enums.{
  charging, available, faulted, no_error, other_error, power_loss, ChargePointStatus,
}
use charger_simulator.J16.Messages.{StartTransactionResp}
use charger_simulator.Meter.Float.{Float}
use charger_simulator.Meter.Engine.{start}
use charger_simulator.Session.Disk.{OpenSession}
use charger_simulator.Session.Store.{FileStore, lookup, load_open, put, flush}
use charger_simulator.Session.Lookup.{AreDistinct, lookup-insert, delete-lookup}
use charger_simulator.Actor.State.{
  Connector, Payload, stop_transaction, AfterStop, make_available, make_faulted, Frame, call,
  Charger, Env,
}
use charger_simulator.Actor.Connectors.{
  find_connector, modify, find-modify, KeepsId, with_status, closed_session, started,
}
use charger_simulator.Actor.Snapshot.{emit_log}
use charger_simulator.Actor.Send.{sends, send_call, send_status, send_status_with_info, run_after}
use charger_simulator.Actor.Results.{
  is_accepted, records_of, store_put, store_delete, stop_transaction_from_record, recover_all,
  recover_interrupted_sessions, open_session, transaction_started, on_start, on_stop,
}

pub same_string : (s : String) → str_eq s s ≡ true
same_string s = ground (arith, eq_iff s s)

-- The calls written, the newest first.
abbrev pub calls_of : List Frame → List Payload
calls_of [] = []
calls_of (call _ p ∷ frames) = p ∷ calls_of frames
calls_of (_ ∷ frames) = calls_of frames

-- The stop that closes a session as its record knows it.
abbrev pub stop_of : OpenSession → Payload
stop_of rec = stop_transaction (record {
  id_tag = rec.id_tag;
  meter_stop = rec.last_meter_wh;
  timestamp = rec.last_meter_at;
  transaction_id = rec.tx_id;
  reason = power_loss;
})

-- The stops of a list of records in front of what was written before, the last stop first.
abbrev pub stops_before : List OpenSession → List Payload → List Payload
stops_before [] ps = ps
stops_before (rec ∷ recs) ps = stops_before recs (stop_of rec ∷ ps)

-- The records of a charge point, in order.
abbrev pub records_for : String → List OpenSession → List OpenSession
records_for cpid = filterb (λ (r : OpenSession). str_eq r.cpid cpid)

pub load_open_filters :
    (cpid : String) (recs : List OpenSession) → load_open cpid recs ≡ records_for cpid recs
unfolding load_open
load_open_filters cpid [] = refl
load_open_filters cpid (r ∷ recs) = rw (load_open_filters cpid recs) refl

module _ {F : Type 0} ⦃fl : Float F⦄ (env : Env) where
  stop_written :
      (rec : OpenSession) (c : Charger F)
      → sends env c ≡ true
      → (stop_transaction_from_record env rec c).wire
        ≡ call (env.uuid c.ticks) (stop_of rec) ∷ c.wire
  unfolding stop_transaction_from_record send_call
  stop_written rec c up = rw up refl

  recover_all_lem :
      (recs : List OpenSession) (c : Charger F)
      → ((k : ℕ) → env.writes k ≡ true)
      → c.ws.dialled ≡ true
      → c.ws.closed ≡ false
      → (calls_of (recover_all env recs c).wire ≡ stops_before recs (calls_of c.wire))
        × ((recover_all env recs c).store ≡ c.store)
  unfolding recover_all stop_transaction_from_record send_call
  recover_all_lem [] c w d o = (refl, refl)
  recover_all_lem (rec ∷ recs) c w d o =
      let c' : Charger F =
        emit_log "warn" "recovering session interrupted by outage (PowerLoss)" c in
      let (all, same) = recover_all_lem recs (stop_transaction_from_record env rec c') w d o in
      (
        all
            ∙ ap (λ frames. stops_before recs (calls_of frames))
                (stop_written rec c' (rw (d, o, w c.ticks) refl)),
        same,
      )

  -- After a boot, the sessions that an outage interrupted are reported to the CMS. If the link is up
  -- and takes what is written, one StopTransaction with reason PowerLoss is written for each record
  -- of this charge point in the store, in order, with the record's tag, transaction, last meter
  -- reading and its time, and no other call. The store keeps every record.
  pub recover_interrupted_sessions_lem :
      (c : Charger F)
      → ((k : ℕ) → env.writes k ≡ true)
      → c.ws.dialled ≡ true
      → c.ws.closed ≡ false
      → (calls_of (recover_interrupted_sessions env c).wire
          ≡ stops_before (records_for c.cfg.cpid (records_of c.store)) (calls_of c.wire))
        × ((recover_interrupted_sessions env c).store ≡ c.store)
  unfolding recover_interrupted_sessions
  recover_interrupted_sessions_lem c w d o =
      let (all, same) = recover_all_lem (load_open c.cfg.cpid (records_of c.store)) c w d o in
      (
        all
            ∙ ap (λ recs. stops_before recs (calls_of c.wire))
                (load_open_filters c.cfg.cpid (records_of c.store)),
        same,
      )

-- The status that a connector shows after a stop.
abbrev pub status_after : AfterStop → ChargePointStatus
status_after make_available = available
status_after make_faulted = faulted

module _ {F : Type 0} where
  -- The connector has no transaction, no tag, start time or start reading of a session, and the status
  -- of `after`.
  abbrev pub IsClosed : AfterStop → Option (Connector F) → Type 0
  IsClosed after none = ⊥
  IsClosed after (some cn) =
      (cn.tx_id ≡ pos 0)
      × (cn.session_id_tag ≡ "")
      × (cn.session_started_at ≡ none)
      × (cn.session_start_wh ≡ pos 0)
      × (cn.status ≡ status_after after)

  -- The connector charges in a transaction, from the meter reading `wh` on.
  abbrev pub IsCharging : ℤ → F → Option (Connector F) → Type 0
  IsCharging tx wh none = ⊥
  IsCharging tx wh (some cn) =
      (cn.tx_id ≡ tx)
      × (cn.start_pending ≡ false)
      × (cn.status ≡ charging)
      × (cn.meter_eng.start_energy_wh ≡ wh)

  -- The record of a connector in the store.
  abbrev pub record_of : ℤ → Charger F → Option OpenSession
  record_of id c = lookup c.cfg.cpid id (records_of c.store)

  pub written_twice :
      (id : ℤ) (f g : Connector F → Connector F) (cns : List (Connector F)) (cn : Connector F)
      → KeepsId f
      → KeepsId g
      → find_connector id cns ≡ some cn
      → find_connector id (modify id g (modify id f cns)) ≡ some (g (f cn))
  written_twice id f g cns cn keep keep' found =
      rw
        (
          find-modify id id g (modify id f cns) keep',
          eq_ℤ_refl id,
          find-modify id id f cns keep,
          eq_ℤ_refl id,
          found,
        )
        refl

module _ {F : Type 0} ⦃fl : Float F⦄ (env : Env) where
  -- When the CMS accepts a StartTransaction of a connector that is there, in a charger with a store,
  -- the connector charges in the transaction that the CMS named, the start is no longer pending, the
  -- meter counts from the reading sent, and the store has a record of the session under the connector's
  -- key: the charge point, the connector, the transaction that the CMS named, the tag, and as both
  -- the first and the last reading the one sent, with its time.
  pub on_start_lem :
      (id : ℤ) (tag : String) (now : ℕ) (wh : ℤ) (resp : StartTransactionResp) (c : Charger F)
      (cn : Connector F) (fs : FileStore)
      → is_accepted resp.id_tag_info.status ≡ true
      → find_connector id c.connectors ≡ some cn
      → eq_ℤ id (pos 0) ≡ false
      → c.store ≡ some fs
      → IsCharging resp.transaction_id
          (fl.of_int wh)
          (find_connector id (on_start env id tag now wh (some resp) c).connectors)
        × (record_of id (on_start env id tag now wh (some resp) c)
            ≡ some (record {
              cpid = c.cfg.cpid;
              connector_id = id;
              tx_id = resp.transaction_id;
              id_tag = tag;
              meter_start_wh = wh;
              started_at = now;
              last_meter_wh = wh;
              last_meter_at = now;
            }))
  unfolding on_start transaction_started send_status send_call store_put put flush start
  on_start_lem id tag now wh resp c cn fs accepted found known store =
      let tx : ℤ = resp.transaction_id in
      (
        rw
            (
              accepted,
              known,
              written_twice id (started tx now wh) (with_status charging no_error) c.connectors cn
                  (λ x. refl) (λ x. refl) found,
            )
            (refl, refl, refl, refl),
        rw
            (
              accepted,
              store,
              lookup-insert (open_session env c id tx tag now wh) c.cfg.cpid id fs.records,
              same_string c.cfg.cpid,
              eq_ℤ_refl id,
            )
            refl,
      )

  -- When the CMS answers the StopTransaction of a connector that is there, in a charger with a store
  -- whose keys are distinct, the connector's session is over, in memory and in the
  -- store, and the connector is Available, or Faulted after an emergency stop.
  pub on_stop_lem :
      (id : ℤ) (after : AfterStop) (c : Charger F) (cn : Connector F) (fs : FileStore)
      → find_connector id c.connectors ≡ some cn
      → eq_ℤ id (pos 0) ≡ false
      → c.store ≡ some fs
      → AreDistinct fs.records
      → IsClosed after (find_connector id (on_stop env id after c).connectors)
        × (record_of id (on_stop env id after c) ≡ none)
  unfolding on_stop run_after send_status send_status_with_info send_call store_delete
  on_stop_lem id make_available c cn fs found known store distinct = (
    rw
        (
          known,
          written_twice id closed_session (with_status available no_error) c.connectors cn
              (λ x. refl) (λ x. refl) found,
        )
        (refl, refl, refl, refl, refl),
    rw
        (
          store,
          delete-lookup (env.io c.ticks) c.cfg.cpid id c.cfg.cpid id fs distinct,
          same_string c.cfg.cpid,
          eq_ℤ_refl id,
        )
        refl,
  )
  on_stop_lem id make_faulted c cn fs found known store distinct = (
    rw
        (written_twice id closed_session (with_status faulted other_error) c.connectors cn
          (λ x. refl) (λ x. refl) found)
        (refl, refl, refl, refl, refl),
    rw
        (
          store,
          delete-lookup (env.io c.ticks) c.cfg.cpid id c.cfg.cpid id fs distinct,
          same_string c.cfg.cpid,
          eq_ℤ_refl id,
        )
        refl,
  )
