-- ===== src/Tests/Cms.antt =====
-- cmd/stub-cms/main.go, and a charger that talks to it, at concrete inputs.
use charger_simulator.Common.{ℕ, ◌<◌, true, [], ◌∷◌, none, some, ◌≡◌, refl, arith}
use charger_simulator.Common.Int.{pos}
use charger_simulator.Json.{obj, end}
use charger_simulator.J16.Enums.{RegistrationStatus, charging}
use charger_simulator.J16.Messages.{BootNotificationResp, AuthorizeResp, StartTransactionResp}
use charger_simulator.J16.Frame.{Call, decode, marshal_call, decode_elements, dispatch, decode_call}
use charger_simulator.J16.Marshal.{boot_resp_json, authorize_resp_json, start_resp_json}
use charger_simulator.J16.Unmarshal.{boot_resp_of, authorize_resp_of, start_resp_of}
use charger_simulator.J16.Payloads.{responses_read}
use charger_simulator.Session.Store.{lookup}
use charger_simulator.Actor.State.{Charger, make_available}
use charger_simulator.Actor.Connectors.{find_connector}
use charger_simulator.Actor.New.{new_charger, new_connector}
use charger_simulator.Actor.Commands.{handle_start_charging, handle_stop_charging}
use charger_simulator.Actor.Lifecycle.{IsCharging, IsClosed, record_of}
use charger_simulator.Cms.Server.{new_cms, known_action, Arrival, receive, receive_all}
use charger_simulator.Cms.Replies.{Round, receive_lem}
use charger_simulator.Cms.Transactions.{Starts, granted, transaction_ids}
use charger_simulator.Cms.Conversation.{wired, exchange}
use charger_simulator.Cms.Exchange.{IsUp}
use charger_simulator.Cms.Charging.{IsOpened, charge}
use charger_simulator.Cms.Stopping.{stop_charge}
use charger_simulator.Tests.Values.{
  nat_float, test_env, test_cfg, a_store, plugged_in, accepted_tag, unary,
}
use charger_simulator.Tests.Actors.{plugged_in-Startable}

abbrev a_boot : BootNotificationResp
a_boot = record { current_time = 3; interval = pos 30; status = RegistrationStatus.accepted }

abbrev an_authorization : AuthorizeResp
an_authorization = record { id_tag_info = accepted_tag }

abbrev a_grant : StartTransactionResp
a_grant = record { id_tag_info = accepted_tag; transaction_id = pos 1001 }

responses_read_example :
    (boot_resp_of unary (boot_resp_json unary a_boot) ≡ some a_boot)
    × (authorize_resp_of unary (authorize_resp_json unary an_authorization) ≡ some an_authorization)
    × (start_resp_of unary (start_resp_json unary a_grant) ≡ some a_grant)
responses_read_example =
    responses_read unary a_boot an_authorization a_grant refl refl refl refl refl

abbrev a_start_call : Call
a_start_call = record { message_id = "m"; action = "StartTransaction"; payload = some (obj end) }

abbrev start_on : ℕ → Arrival
start_on n = record { conn = n; bytes = some (marshal_call a_start_call); at = 7; written = true }

receive_lem_example : Round unary (start_on 0) new_cms (receive unary (start_on 0) new_cms)
receive_lem_example = receive_lem unary (start_on 0) new_cms refl refl

start_on-Starts : (n : ℕ) → Starts unary (start_on n)
unfolding decode marshal_call decode_elements dispatch decode_call known_action
start_on-Starts n = (a_start_call, refl, refl)

transaction_ids_example :
    (i j : ℕ) × (granted unary (start_on 0) new_cms ≡ some (pos i))
    × (granted unary
          (start_on 1)
          (receive_all unary (start_on 2 ∷ []) (receive unary (start_on 0) new_cms))
        ≡ some (pos j))
    × (i < j)
transaction_ids_example =
    transaction_ids unary (start_on 0) (start_on 1) (start_on 2 ∷ []) new_cms (start_on-Starts 0)
      (start_on-Starts 1) refl (omega arith)

pub plugged_in-IsUp : IsUp unary test_env plugged_in
unfolding new_charger
plugged_in-IsUp = (λ k. refl, refl, refl)

charge_example :
    let first =
      exchange unary test_env 3 new_cms
        (handle_start_charging (wired unary test_env) (pos 1) "TAG" plugged_in) in
    let second = exchange unary test_env 4 first.0 first.1 in
    IsCharging
      (pos 1001)
      (nat_float.of_int (nat_float.to_int plugged_in-Startable.0.meter_eng.current_wh))
      (find_connector (pos 1) second.1.connectors)
    × IsOpened
        (pos 1001)
        "TAG"
        (nat_float.to_int plugged_in-Startable.0.meter_eng.current_wh)
        (record_of (pos 1) second.1)
    × (second.0.next_tx ≡ 1001)
unfolding new_charger
charge_example =
    charge unary test_env 3 4 (pos 1) "TAG" new_cms plugged_in a_store plugged_in-Startable
      plugged_in-IsUp refl refl (omega arith)

-- The connector in a transaction.
abbrev in_session : Charger ℕ
in_session = record plugged_in {
  connectors = record (new_connector test_cfg (pos 1)) { status = charging; tx_id = pos 77 } ∷ [];
}

in_session-IsUp : IsUp unary test_env in_session
unfolding new_charger
in_session-IsUp = (λ k. refl, refl, refl)

stop_charge_example :
    let after =
      exchange unary test_env 5 new_cms
        (handle_stop_charging (wired unary test_env) (pos 1) in_session) in
    IsClosed make_available (find_connector (pos 1) after.1.connectors)
    × (record_of (pos 1) after.1 ≡ none)
    × (after.0 ≡ new_cms)
unfolding new_charger find_connector lookup
stop_charge_example =
    stop_charge unary test_env 5 (pos 1) new_cms in_session _ a_store refl refl refl refl (refl, tt)
      in_session-IsUp
