-- ===== src/Actor/Recorded/Run.antt =====
-- internal/actor/charger.go: every open transaction is on record after every schedule of the Run loop.
use charger_simulator.Common.{
  ℕ, zero, suc, Bool, true, false, List, [], ◌∷◌, Option, none, some, refl, arith,
}
use charger_simulator.Common.Int.{ℤ}
use charger_simulator.Config.{ChargerConfig}
use charger_simulator.Meter.Float.{Float}
use charger_simulator.Session.Disk.{
  OpenSession, Contents, missing, unreadable, corrupt, sessions, Dir,
}
use charger_simulator.Session.Store.{FileStore, insert, insert_all, new_file_store}
use charger_simulator.Session.Lookup.{AreDistinct, insert-AreDistinct}
use charger_simulator.Session.Reload.{InSync}
use charger_simulator.Actor.State.{Env}
use charger_simulator.Actor.Connectors.{find_connector}
use charger_simulator.Actor.New.{clamp_count, new_connectors, new_charger}
use charger_simulator.Actor.Run.{Input, start_run, run}
use charger_simulator.Actor.Induction.{Keeps, schedule-Holds}
use charger_simulator.Actor.Recorded.Base.{AreRecorded, tx_of, tx_on_record, Covered}
use charger_simulator.Actor.Recorded.Sends.{
  IsRecorded, handle_command-IsRecorded, send_status-IsRecorded,
}
use charger_simulator.Actor.Recorded.Handlers.{
  run_result-IsRecorded, run_error-IsRecorded, send_meter_values-IsRecorded,
}

-- The store that a charger is given has distinct keys and is what its file holds.
abbrev IsFresh : Option FileStore → Type 0
IsFresh none = Unit
IsFresh (some fs) = AreDistinct fs.records × InSync fs

insert_all-AreDistinct : (m rs : List OpenSession) → AreDistinct m → AreDistinct (insert_all m rs)
unfolding insert_all
insert_all-AreDistinct m [] distinct = distinct
insert_all-AreDistinct m (r ∷ rs) distinct =
    insert_all-AreDistinct (insert r m) rs (insert-AreDistinct r m distinct)

file-IsFresh :
    (c : Contents) (temp : Option Contents)
    → IsFresh (new_file_store true (record { path = c; temp = temp }))
unfolding new_file_store
file-IsFresh missing temp = (tt, refl)
file-IsFresh unreadable temp = (tt, refl)
file-IsFresh corrupt temp = (tt, refl)
file-IsFresh (sessions rs) temp = (insert_all-AreDistinct [] rs tt, refl)

new_file_store-IsFresh : (made : Bool) (d : Dir) → IsFresh (new_file_store made d)
unfolding new_file_store
new_file_store-IsFresh false d = tt
new_file_store-IsFresh true d = file-IsFresh d.path d.temp

module _ {F : Type 0} ⦃fl : Float F⦄ (env : Env) where
  records_kept : Keeps {F = F} (AreRecorded env) env
  records_kept = record {
    on_command = handle_command-IsRecorded env;
    on_result = run_result-IsRecorded env;
    on_error = run_error-IsRecorded env;
    on_meter = send_meter_values-IsRecorded env;
    on_status = λ id c cn found rec. send_status-IsRecorded env id cn.status cn.error_code c rec;
  }

  new_connectors-Covered :
      (cfg : ChargerConfig F) (i n : ℕ) (j : ℤ) (on_record : Option ℤ)
      → Covered (tx_of j (new_connectors cfg i n)) on_record
  unfolding new_connectors find_connector
  new_connectors-Covered cfg i zero j on_record = tt
  new_connectors-Covered cfg i (suc n) j on_record =
      ground (arith, new_connectors-Covered cfg (suc i) n j on_record)

  new_connectors-AreRecorded :
      (cfg : ChargerConfig F) (store : Option FileStore) (i n : ℕ)
      → IsFresh store
      → AreRecorded env cfg store (new_connectors cfg i n)
  new_connectors-AreRecorded cfg none i n distinct = tt
  new_connectors-AreRecorded cfg (some fs) i n distinct = (
    (distinct.0, λ _. distinct.1),
    λ j. new_connectors-Covered cfg i n j (tx_on_record cfg.cpid j fs),
  )

  -- Whatever the CMS, the network, the disk and the callers do, in any order: in a charger that was
  -- started with a store made from any file, every open transaction is on record, under the charge
  -- point's id and the connector's, with its transaction id. If moreover no call of the disk fails, a
  -- new process that reads the file at any moment has exactly these records.
  pub transaction-IsRecorded :
      (stop : ℕ → Bool) (fuel : ℕ) (cfg : ChargerConfig F) (made : Bool) (d : Dir)
      (is : List (Input F))
      → IsRecorded env
          (run env stop fuel is
            (start_run env (new_charger env cfg (new_file_store made d)))).charger
  transaction-IsRecorded stop fuel cfg made d is =
      schedule-Holds (AreRecorded env) env records_kept stop fuel cfg (new_file_store made d) is (
        new_connectors-AreRecorded cfg (new_file_store made d) 1 (clamp_count cfg.num_connectors)
          (new_file_store-IsFresh made d))
