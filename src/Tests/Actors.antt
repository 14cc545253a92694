-- ===== src/Tests/Actors.antt =====
-- internal/actor/charger.go at concrete inputs.
use charger_simulator.Common.{
  ℕ, Bool, true, false, List, [], ◌∷◌, none, some, ◌≡◌, inl, refl, ◌⊎◌, ◌≤◌, arith, length,
}
use charger_simulator.Common.Int.{pos}
use charger_simulator.J16.Messages.{RemoteStartTransactionReq, StartTransactionResp}
use charger_simulator.Session.Store.{lookup, load_open, new_file_store}
use charger_simulator.Actor.State.{
  Env, plug_in, unplug, start_charging, make_available, call, result, authorize,
}
use charger_simulator.Actor.Connectors.{find_connector}
use charger_simulator.Actor.Snapshot.{offer}
use charger_simulator.Actor.New.{new_charger, new_connector}
use charger_simulator.J16.Enums.{charging}
use charger_simulator.Actor.Commands.{handle_start_charging, handle_stop_charging}
use charger_simulator.Actor.Inbound.{
  handle_incoming_call, handle_frame, command_cap, handle_remote_start,
}
use charger_simulator.Actor.Link.{
  handle_go_offline, attempt, reconnect_loop, next_backoff, dial_and_swap,
}
use charger_simulator.Actor.Results.{on_start, on_stop, recover_interrupted_sessions}
use charger_simulator.Actor.Run.{
  Input, submit, take_command, heartbeat_tick, Loop, running, start_run, run, handle_command,
}
use charger_simulator.Actor.Shown.Sends.{AllShow}
use charger_simulator.Actor.Shown.Run.{transaction_shown}
use charger_simulator.Actor.Offline.{StaysQuiet, offline_silence}
use charger_simulator.Actor.Starting.{
  Startable, handle_remote_start_lem, handle_start_charging_once,
}
use charger_simulator.Actor.Reconnect.{backoff_at, reconnect_waits, IsLinked, reconnect_connects}
use charger_simulator.Actor.Lifecycle.{
  calls_of, stops_before, recover_interrupted_sessions_lem, IsClosed, IsCharging, record_of,
  on_start_lem, on_stop_lem,
}
use charger_simulator.Actor.Recorded.Sends.{IsRecorded}
use charger_simulator.Actor.Recorded.Run.{transaction-IsRecorded}
use charger_simulator.J16.Frame.{Call, CallResult, CallError, a_result, an_error, ok}
use charger_simulator.Actor.Moves.{AllMove}
use charger_simulator.Actor.Machine.{handle_command_lem}
use charger_simulator.Actor.Replied.{RepliedOnce, handle_incoming_call_lem}
use charger_simulator.Actor.Once.{IsIgnored, ends_as, answered_once}
use charger_simulator.Common.Decimal.{atoi, atoi-itoa}
use charger_simulator.Common.Itoa.{itoa}
use charger_simulator.Common.{is_some}
use charger_simulator.Actor.Send.{
  find_call, send_stop_transaction, stop_transaction_of, send_call, send_status,
}
use charger_simulator.Actor.Answers.{AreFresh}
use charger_simulator.Common.{ap, sym, subst, ◌≢◌, ◌∙◌}
use charger_simulator.Tests.Values.{
  nat_float, test_env, test_cfg, a_session, a_store, plugged_in, accepted_tag,
}

abbrev never : ℕ → Bool
never n = false

abbrev a_schedule : List (Input ℕ)
a_schedule = submit (plug_in (pos 1)) ∷ take_command ∷ heartbeat_tick ∷ []

transaction_shown_example :
    AllShow
      (run test_env never 5 a_schedule
        (start_run test_env (new_charger test_env test_cfg (some a_store)))).charger
transaction_shown_example = transaction_shown test_env never 5 test_cfg (some a_store) a_schedule

abbrev gone_offline : Loop ℕ
gone_offline = record {
  charger = handle_go_offline test_env plugged_in;
  listening = true;
  mode = running;
}

offline_silence_example : StaysQuiet [] (run test_env never 5 a_schedule gone_offline)
unfolding handle_go_offline new_charger
offline_silence_example =
    offline_silence test_env never 5 a_schedule gone_offline (refl, (refl, (refl, tt)))
      ([], refl, tt, (refl, refl, refl, refl, refl, refl))

pub plugged_in-Startable : Startable (pos 1) plugged_in
unfolding new_charger find_connector
plugged_in-Startable = (_, refl, refl, refl, refl, refl)

handle_start_charging_once_example :
    ((handle_start_charging test_env
        (pos 1)
        "B"
        (handle_start_charging test_env (pos 1) "A" plugged_in)).wire
      ≡ (handle_start_charging test_env (pos 1) "A" plugged_in).wire)
    × ((handle_start_charging test_env
          (pos 1)
          "B"
          (handle_start_charging test_env (pos 1) "A" plugged_in)).connectors
        ≡ (handle_start_charging test_env (pos 1) "A" plugged_in).connectors)
handle_start_charging_once_example =
    handle_start_charging_once test_env (pos 1) "A" "B" plugged_in plugged_in-Startable

abbrev a_request : RemoteStartTransactionReq
a_request = record { connector_id = none; id_tag = "TAG" }

handle_remote_start_lem_example :
    (Startable (pos 1) plugged_in
      × ((handle_remote_start test_env "m" a_request plugged_in).wire
          ≡ result "m" "Accepted" ∷ plugged_in.wire)
      × ((handle_remote_start test_env "m" a_request plugged_in).cmd_ch
          ≡ offer command_cap (start_charging (pos 1) "TAG") plugged_in.cmd_ch)
      × ((handle_start_charging test_env (pos 1) "TAG" plugged_in).wire
          ≡ call (test_env.uuid plugged_in.ticks) (authorize (record { id_tag = "TAG" }))
            ∷ plugged_in.wire))
    ⊎ ((¬ Startable (pos 1) plugged_in)
        × ((handle_remote_start test_env "m" a_request plugged_in).wire
            ≡ result "m" "Rejected" ∷ plugged_in.wire)
        × ((handle_remote_start test_env "m" a_request plugged_in).cmd_ch ≡ plugged_in.cmd_ch)
        × ((handle_start_charging test_env (pos 1) "TAG" plugged_in).wire ≡ plugged_in.wire))
unfolding new_charger
handle_remote_start_lem_example = handle_remote_start_lem test_env "m" a_request plugged_in refl

-- No dial succeeds.
abbrev dark_env : Env
dark_env = record test_env { dials = λ n. false }

reconnect_waits_example : 3000000000 ≡ backoff_at 3000000000 2000000000 1
unfolding reconnect_loop attempt next_backoff
reconnect_waits_example =
    reconnect_waits dark_env never 5 3000000000 2000000000 1 3000000000 plugged_in refl

reconnect_connects_example :
    IsLinked (reconnect_loop test_env never 5 3000000000 1000000000 plugged_in).0
    × (length (reconnect_loop test_env never 5 3000000000 1000000000 plugged_in).1 ≤ 0)
unfolding new_charger attempt dial_and_swap
reconnect_connects_example =
    reconnect_connects test_env never 0 5 3000000000 1000000000 plugged_in (λ k. refl) (omega arith)
      refl

recover_interrupted_sessions_lem_example :
    (calls_of (recover_interrupted_sessions test_env plugged_in).wire
      ≡ stops_before (a_session ∷ []) (calls_of plugged_in.wire))
    × ((recover_interrupted_sessions test_env plugged_in).store ≡ plugged_in.store)
unfolding new_charger load_open
recover_interrupted_sessions_lem_example =
    recover_interrupted_sessions_lem test_env plugged_in (λ k. refl) refl refl

abbrev a_response : StartTransactionResp
a_response = record { id_tag_info = accepted_tag; transaction_id = pos 77 }

on_start_lem_example :
    IsCharging (pos 77) 100 (
      find_connector
        (pos 1)
        (on_start test_env (pos 1) "TAG" 5 (pos 100) (some a_response) plugged_in).connectors)
    × (record_of (pos 1) (on_start test_env (pos 1) "TAG" 5 (pos 100) (some a_response) plugged_in)
        ≡ some (record {
          cpid = test_cfg.cpid;
          connector_id = pos 1;
          tx_id = pos 77;
          id_tag = "TAG";
          meter_start_wh = pos 100;
          started_at = 5;
          last_meter_wh = pos 100;
          last_meter_at = 5;
        }))
unfolding new_charger find_connector
on_start_lem_example =
    on_start_lem test_env (pos 1) "TAG" 5 (pos 100) a_response plugged_in _ a_store refl refl refl
      refl

on_stop_lem_example :
    IsClosed make_available
      (find_connector (pos 1) (on_stop test_env (pos 1) make_available plugged_in).connectors)
    × (record_of (pos 1) (on_stop test_env (pos 1) make_available plugged_in) ≡ none)
unfolding new_charger find_connector lookup
on_stop_lem_example =
    on_stop_lem test_env (pos 1) make_available plugged_in _ a_store refl refl refl (refl, tt)

transaction-IsRecorded_example :
    IsRecorded test_env
      (run test_env never 5 a_schedule (
        start_run test_env
          (new_charger test_env test_cfg (new_file_store true a_store.dir)))).charger
transaction-IsRecorded_example =
    transaction-IsRecorded test_env never 5 test_cfg true a_store.dir a_schedule

-- A charger that has sent a stop, its second call, and waits for the answer.
abbrev waiting : Loop ℕ
waiting = record {
  charger = handle_stop_charging test_env (pos 1) (record plugged_in {
    connectors = record (new_connector test_cfg (pos 1)) { status = charging; tx_id = pos 77 } ∷ [];
  });
  listening = true;
  mode = running;
}

abbrev an_answer : CallResult
an_answer = record { message_id = "1"; payload = none }

abbrev a_failure : CallError
a_failure = record {
  message_id = "1";
  error_code = "InternalError";
  error_description = "";
  error_details = none;
}

waits_for_stop : is_some (find_call "1" waiting.charger.pending) ≡ true
unfolding find_call handle_stop_charging find_connector send_stop_transaction stop_transaction_of
    send_call send_status itoa new_charger
waits_for_stop = refl

waiting_ticks : waiting.charger.ticks ≡ 2
unfolding handle_stop_charging find_connector send_stop_transaction stop_transaction_of send_call
    send_status new_charger
waiting_ticks = refl

not_second : (k : ℕ) → 2 ≤ k → pos k ≢ pos 1
not_second k h same = ground (arith, h, same)

later_ids : AreFresh test_env waiting.charger.ticks "1"
unfolding atoi
later_ids k later same =
    not_second k (subst (λ n. n ≤ k) waiting_ticks later) (sym (atoi-itoa (pos k)) ∙ ap atoi same)

answered_once_example :
    IsIgnored test_env never 5 an_answer a_failure (
      ends_as test_env never 5 a_schedule waiting
        (handle_frame test_env (ok (a_result an_answer)) waiting.charger))
    × IsIgnored test_env never 5 an_answer a_failure (
        ends_as test_env never 5 a_schedule waiting
          (handle_frame test_env (ok (an_error a_failure)) waiting.charger))
answered_once_example =
    answered_once test_env never 5 an_answer a_failure waiting a_schedule refl later_ids

handle_command_lem_example :
    AllMove
      (unplug (pos 1))
      plugged_in.connectors
      (handle_command test_env (unplug (pos 1)) plugged_in).connectors
unfolding new_charger
handle_command_lem_example =
    handle_command_lem test_env (unplug (pos 1)) plugged_in ((refl, inl refl), tt)

abbrev a_trigger : Call
a_trigger = record { message_id = "m"; action = "TriggerMessage"; payload = none }

handle_incoming_call_lem_example :
    RepliedOnce a_trigger plugged_in.wire (handle_incoming_call test_env a_trigger plugged_in).wire
unfolding new_charger
handle_incoming_call_lem_example = handle_incoming_call_lem test_env a_trigger plugged_in refl
