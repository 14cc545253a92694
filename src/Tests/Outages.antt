-- ===== src/Tests/Outages.antt =====
-- cmd/stub-cms/main.go and internal/actor/charger.go: an outage at a concrete input.
use charger_simulator.Common.{ℕ, String, Bool, true, false, List, [], ◌∷◌, none, some, ◌≡◌, refl}
use charger_simulator.Common.Int.{pos}
use charger_simulator.J16.Frame.{marshal_result}
use charger_simulator.Session.Disk.{Dir, missing}
use charger_simulator.Session.Store.{FileStore, new_file_store}
use charger_simulator.Actor.State.{Connector, Charger, plug_in, start_charging}
use charger_simulator.Actor.Connectors.{find_connector}
use charger_simulator.Actor.New.{new_charger}
use charger_simulator.Actor.Run.{Input, submit, take_command, frame, start_run, run}
use charger_simulator.Actor.Connectors.{find_connector, modify}
use charger_simulator.Actor.Send.{
  send_boot, send_call, find_call, delete_call, send_status, send_authorize, send_start_transaction,
}
use charger_simulator.Actor.Run.{
  step, step_mode, running_step, take_oldest, take_from, start_run, handle_command,
}
use charger_simulator.Actor.New.{new_charger, new_connectors}
use charger_simulator.Session.Store.{new_file_store, load_open}
use charger_simulator.Actor.Link.{dial_and_swap}
use charger_simulator.Actor.Snapshot.{offer}
use charger_simulator.Actor.Inbound.{handle_inbound, handle_frame, enqueue}
use charger_simulator.J16.Frame.{decode, decode_elements, dispatch, decode_result, marshal_result}
use charger_simulator.Actor.Results.{
  run_result, on_boot, boot_accepted, announce, announce_one, recover_interrupted_sessions,
  recover_all, on_authorize, on_start, transaction_started, store_put,
}
use charger_simulator.Actor.Commands.{
  handle_plug_in, eq_status, handle_start_charging, start_unless, can_start_charging,
}
use charger_simulator.Common.Itoa.{itoa}
use charger_simulator.Actor.Lifecycle.{calls_of}
use charger_simulator.Cms.Server.{new_cms}
use charger_simulator.Cms.Conversation.{wired, exchange}
use charger_simulator.Cms.Outage.{ReportsLoss, outage}
use charger_simulator.Tests.Values.{nat_float, test_env, test_cfg, unary}

abbrev answer_to : String → Input ℕ
answer_to id = frame (some (marshal_result (record { message_id = id; payload = none })))

abbrev never_stops : ℕ → Bool
never_stops n = false

-- A boot, a plug-in, a start, and the answers of the CMS.
abbrev a_session_starts : List (Input ℕ)
a_session_starts =
    answer_to "1"
    ∷ submit (plug_in (pos 1))
    ∷ take_command
    ∷ submit (start_charging (pos 1) "TAG")
    ∷ take_command
    ∷ answer_to "6"
    ∷ answer_to "7"
    ∷ []

abbrev no_file : Dir
no_file = record { path = missing; temp = none }

abbrev before_outage : Charger ℕ
before_outage =
    (run test_env never_stops 5 a_session_starts
      (start_run test_env (new_charger test_env test_cfg (new_file_store true no_file)))).charger

-- The first connector charges in transaction 77, and there is a store.
in_session-found :
    (cn : Connector ℕ) × (fs : FileStore) × (find_connector (pos 1) before_outage.connectors
      ≡ some cn)
    × (cn.tx_id ≡ pos 77)
    × (before_outage.store ≡ some fs)
unfolding find_connector modify run step step_mode running_step take_oldest take_from start_run
    new_charger new_connectors new_file_store dial_and_swap send_boot send_call offer find_call
    delete_call handle_inbound handle_frame decode decode_elements dispatch decode_result
    marshal_result run_result on_boot boot_accepted announce announce_one send_status
    recover_interrupted_sessions recover_all load_open enqueue handle_command handle_plug_in
    eq_status handle_start_charging start_unless can_start_charging send_authorize on_authorize
    send_start_transaction on_start transaction_started store_put itoa
in_session-found = (_, _, refl, refl, refl)

outage_example :
    let (cn, fs, _, _, _) = in_session-found in
    ReportsLoss cn.tx_id (
      calls_of
        (exchange unary test_env 3 new_cms
          (start_run (wired unary test_env) (
            new_charger
              (wired unary test_env)
              before_outage.cfg
              (new_file_store true fs.dir))).charger).1.wire)
outage_example =
    let (cn, fs, found, in_tx, store) = in_session-found in
    outage unary test_env test_env never_stops 5 test_cfg true no_file a_session_starts 3 new_cms
      (pos 1) cn fs (λ k. refl) found (λ z. cc (z, in_tx)) store (λ k. refl) (λ k. refl)
