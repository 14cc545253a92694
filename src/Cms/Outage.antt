-- ===== src/Cms/Outage.antt =====
-- internal/actor/charger.go, internal/session/store.go and cmd/stub-cms/main.go: a process that ends in
-- the middle of a session, and its successor.
use mathlib.Core.Option
use mathlib.Core.List.{Mem, mem-cons_self, mem-cons_of_mem}
use charger_simulator.Common.{
  ℕ, String, Bool, true, List, [], ◌∷◌, Option, some, ◌≡◌, ◌≢◌, refl, ◌∙◌, ap, sym, subst, inl, inr,
  Option-cases, Bool-cases, arith,
}
use charger_simulator.Common.Int.{ℤ, pos}
use charger_simulator.Config.{ChargerConfig}
use charger_simulator.J16.Enums.{power_loss}
use charger_simulator.J16.Messages.{StopTransactionReq}
use charger_simulator.J16.Marshal.{TimeText}
use charger_simulator.Meter.Float.{Float}
use charger_simulator.Session.Disk.{OpenSession, Dir}
use charger_simulator.Session.Store.{FileStore, lookup, has_key, new_file_store}
use charger_simulator.Session.Reload.{load_open_lem}
use charger_simulator.Actor.State.{Connector, Payload, stop_transaction, Charger, Env}
use charger_simulator.Actor.Connectors.{find_connector}
use charger_simulator.Actor.New.{new_charger}
use charger_simulator.Actor.Link.{dial_and_swap}
use charger_simulator.Actor.Send.{send_boot}
use charger_simulator.Actor.Run.{Input, run, start_run}
use charger_simulator.Actor.Lifecycle.{
  records_for, load_open_filters, calls_of, stop_of, stops_before,
}
use charger_simulator.Actor.Recorded.Base.{AreRecorded, DiskWorks, tx_on_record, Covered}
use charger_simulator.Actor.Recorded.Run.{transaction-IsRecorded}
use charger_simulator.Cms.Server.{Cms}
use charger_simulator.Cms.Conversation.{wired, exchange}
use charger_simulator.Cms.Exchange.{IsUp}
use charger_simulator.Cms.Booting.{boot_exchange}

stops_before-Mem :
    (recs : List OpenSession) (ps : List Payload) (p : Payload)
    → Mem p ps
    → Mem p (stops_before recs ps)
stops_before-Mem [] ps p m = m
stops_before-Mem (rec ∷ recs) ps p m =
    stops_before-Mem recs (stop_of rec ∷ ps) p (mem-cons_of_mem (stop_of rec) m)

-- A stop is written for a record that is found.
found-stopped :
    (cpid : String) (id : ℤ) (recs : List OpenSession) (ps : List Payload) (r : OpenSession)
    → lookup cpid id recs ≡ some r
    → Mem (stop_of r) (stops_before recs ps)
unfolding lookup
found-stopped cpid id [] ps r e = cc e
found-stopped cpid id (x ∷ recs) ps r e = elim (Bool-cases (has_key cpid id x)) [
  | inl hit ↦
      let same : x ≡ r = ground (arith, hit, e) in
      stops_before-Mem recs (stop_of x ∷ ps) (stop_of r)
        (subst (λ y. Mem (stop_of y) (stop_of x ∷ ps)) same mem-cons_self)
  | inr miss ↦ found-stopped cpid id recs (stop_of x ∷ ps) r (rw miss at e)
]

on_record-lookup :
    (tx : ℤ) (cpid : String) (id : ℤ) (fs : FileStore)
    → tx_on_record cpid id fs ≡ some tx
    → (r : OpenSession) × (lookup cpid id fs.records ≡ some r) × (r.tx_id ≡ tx)
on_record-lookup tx cpid id fs e = elim (Option-cases (lookup cpid id fs.records)) [
  | inl missing ↦ cc (rw missing at e)
  | inr (r, found) ↦ (r, found, ground (arith, rw found at e))
]

-- A StopTransaction for a transaction, with the reason PowerLoss, is among the calls.
abbrev pub ReportsLoss : ℤ → List Payload → Type 0
ReportsLoss tx calls =
    (req : StopTransactionReq) × (req.transaction_id ≡ tx)
    × (req.reason ≡ power_loss)
    × Mem (stop_transaction req) calls

module _ {F : Type 0} ⦃fl : Float F⦄ (times : TimeText) (env : Env) where
  -- A charger that is started where every dial and every write succeeds has sent its boot.
  started_up :
      (cfg : ChargerConfig F) (store : Option FileStore)
      → ((k : ℕ) → env.writes k ≡ true)
      → ((k : ℕ) → env.dials k ≡ true)
      → (start_run (wired times env) (new_charger (wired times env) cfg store)).charger
        ≡ send_boot
            (wired times env)
            (dial_and_swap (wired times env) (new_charger (wired times env) cfg store))
  unfolding start_run new_charger dial_and_swap
  started_up cfg store writes dials = rw (dials 0, writes 1) refl

  dialled-IsUp :
      (cfg : ChargerConfig F) (store : Option FileStore)
      → ((k : ℕ) → env.writes k ≡ true)
      → ((k : ℕ) → env.dials k ≡ true)
      → IsUp times env (dial_and_swap (wired times env) (new_charger (wired times env) cfg store))
  unfolding new_charger dial_and_swap
  dialled-IsUp cfg store writes dials = (writes, rw (dials 0) refl, rw (dials 0) refl)

  -- A charger started over a store reports every session of its charge point.
  restarted :
      (now : ℕ) (s : Cms) (cfg : ChargerConfig F) (fs : FileStore) (id tx : ℤ)
      → ((k : ℕ) → env.writes k ≡ true)
      → ((k : ℕ) → env.dials k ≡ true)
      → tx_on_record cfg.cpid id fs ≡ some tx
      → ReportsLoss tx (
          calls_of
            (exchange times env now s
              (start_run
                (wired times env)
                (new_charger (wired times env) cfg (some fs))).charger).1.wire)
  unfolding new_charger dial_and_swap
  restarted now s cfg fs id tx writes dials on_record =
      let c : Charger F =
        dial_and_swap (wired times env) (new_charger (wired times env) cfg (some fs)) in
      let (_, _, _, (before, calls), _) =
        boot_exchange times env now s c (dialled-IsUp cfg (some fs) writes dials) in
      let (r, found, same) = on_record-lookup tx cfg.cpid id fs on_record in
      let (_, open_found) = load_open_lem cfg.cpid fs.records in
      rw (started_up cfg (some fs) writes dials) (
        _,
        same,
        refl,
        subst (λ ps. Mem (stop_of r) ps) (sym calls)
            (found-stopped cfg.cpid id (records_for cfg.cpid fs.records) before r (
              ap (lookup cfg.cpid id) (sym (load_open_filters cfg.cpid fs.records))
              ∙ (open_found id ∙ found))),
      )

  -- No transaction is lost to an outage. Take a charger that was started with a store made from any
  -- file, after any schedule, no call of the disk having failed, and a connector of it in a transaction.
  -- If the process ends there, and a new one is started with the same configuration over what the old
  -- one left on the disk, where dials and writes succeed, then once the CMS has answered its boot it has
  -- written a StopTransaction for that transaction, with the reason PowerLoss.
  pub outage :
      (old : Env) (stop : ℕ → Bool) (fuel : ℕ) (cfg : ChargerConfig F) (made : Bool) (d : Dir)
      (is : List (Input F)) (now : ℕ) (s : Cms) (id : ℤ) (cn : Connector F) (fs : FileStore)
      → let c =
          (run old stop fuel is
            (start_run old (new_charger old cfg (new_file_store made d)))).charger in
        DiskWorks old
        → find_connector id c.connectors ≡ some cn
        → cn.tx_id ≢ pos 0
        → c.store ≡ some fs
        → ((k : ℕ) → env.writes k ≡ true)
        → ((k : ℕ) → env.dials k ≡ true)
        → ReportsLoss cn.tx_id (
            calls_of
              (exchange times env now s
                (start_run (wired times env) (
                  new_charger
                    (wired times env)
                    c.cfg
                    (new_file_store true fs.dir))).charger).1.wire)
  outage old stop fuel cfg made d is now s id cn fs works found in_tx store writes dials =
      let c : Charger F =
        (run old stop fuel is
          (start_run old (new_charger old cfg (new_file_store made d)))).charger in
      let recorded = transaction-IsRecorded old stop fuel cfg made d is in
      let (sound, covered) = subst (λ st. AreRecorded old c.cfg st c.connectors) store recorded in
      let synced : new_file_store true fs.dir ≡ some fs = sound.1 works in
      let covers : Covered (some cn.tx_id) (tx_on_record c.cfg.cpid id fs) =
        subst (λ o. Covered o (tx_on_record c.cfg.cpid id fs))
          (ap (Option.map (λ (x : Connector F). x.tx_id)) found) (covered id) in
      rw synced (elim covers [
        | inl none_open ↦ absurd (in_tx none_open)
        | inr on_record ↦ restarted now s c.cfg fs id cn.tx_id writes dials on_record
      ])
