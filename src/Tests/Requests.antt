-- ===== src/Tests/Requests.antt =====
-- internal/api/server.go, and what its requests lead to, at concrete inputs.
use charger_simulator.Common.{
  ℕ, String, true, false, [], ◌∷◌, Option, none, some, ◌≡◌, refl, arith, inl,
}
use charger_simulator.Common.Int.{pos}
use charger_simulator.Json.{Json, num}
use charger_simulator.Actor.State.{plug_in}
use charger_simulator.Actor.New.{new_charger}
use charger_simulator.Actor.Run.{running, take_command, step}
use charger_simulator.Api.Server.{
  Server, whole, new_server, start_charger, tear_down, restart, restore_persisted_charger,
}
use charger_simulator.Api.Handlers.{
  plugs_in, handle_connector_action, push_checked, read_connector_id,
}
use charger_simulator.Api.Routes.{
  index_route, static_route, static_root, action_route, route, serve_http, respond, code,
}
use charger_simulator.Api.Routed.{Effect, serve_http_lem}
use charger_simulator.Api.Commanded.{post_json, start_body, start_tag, on_request}
use charger_simulator.Common.{List}
use charger_simulator.Json.{str, obj, end, member}
use charger_simulator.Api.Bodies.{configure_request_of}
use charger_simulator.Api.Requests.{
  check_configure, charger_type_of, check_electrical, connector_count,
}
use charger_simulator.Api.Restarted.{last_configured, restart_lem}
use charger_simulator.Api.One.{Request, http, process_restart, serve_all, OwnsOne, one_charger}
use charger_simulator.Tests.Servers.{a_request, a_config, a_server}
use charger_simulator.Cms.Server.{new_cms}
use charger_simulator.Cms.Conversation.{wired}
use charger_simulator.Cms.Requested.{IsBegun, start_from_dashboard}
use charger_simulator.Tests.Values.{nat_float, test_env, test_cfg, a_store, plugged_in, unary}
use charger_simulator.Tests.Actors.{plugged_in-Startable}
use charger_simulator.Tests.Cms.{plugged_in-IsUp}

-- Numbers without a fraction, and no embedded files.
abbrev read_nat : Json → Option ℕ
read_nat (num (pos n)) = some n
read_nat _ = none

abbrev no_files : String → Option String
no_files _ = none

abbrev serving : Server ℕ
serving = start_charger test_cfg (new_server true none)

routes :
    (route "/" ≡ index_route)
    × (route "/nowhere" ≡ index_route)
    × (route "/static/app.js" ≡ static_route)
    × (route "/static" ≡ static_root)
    × (route "/api/plug-in" ≡ action_route plugs_in)
unfolding route
routes = (refl, refl, refl, refl, refl)

-- A POST without a body is for connector 1.
plug_in_pushed :
    (serve_http whole true read_nat no_files
      (λ n. n)
      (record { post = true; path = "/api/plug-in"; sized = false; body = none })
      serving).0.pushed
    ≡ (0, plug_in (pos 1)) ∷ []
unfolding serve_http respond route handle_connector_action push_checked read_connector_id
    start_charger tear_down
plug_in_pushed = refl

serve_http_lem_example :
    Effect whole true read_nat (post_json "/api/start-charging" (start_body (pos 2) "")) serving (
      serve_http whole true read_nat no_files
        (λ n. n)
        (post_json "/api/start-charging" (start_body (pos 2) ""))
        serving)
serve_http_lem_example =
    serve_http_lem whole true read_nat no_files (λ n. n)
      (post_json "/api/start-charging" (start_body (pos 2) "")) serving

start_from_dashboard_example :
    let served =
      on_request whole true read_nat no_files
        (post_json "/api/start-charging" (start_body (pos 1) " TAG "))
        serving
        (λ n. plugged_in) in
    let after =
      step
        (wired unary test_env)
        (λ n. false)
        1
        take_command
        (record { charger = served.0.1 0; listening = true; mode = running }) in
    (code served.1 ≡ 204)
    × IsBegun unary test_env 3 4
        (pos 1)
        (start_tag " TAG ")
        (nat_float.to_int plugged_in-Startable.0.meter_eng.current_wh)
        new_cms
        after.charger
unfolding new_charger start_charger
start_from_dashboard_example =
    start_from_dashboard whole true read_nat no_files unary test_env (λ n. false) 1 3 4 (pos 1)
      " TAG " 0 true serving new_cms (λ n. plugged_in) a_store plugged_in-Startable (inl refl) refl
      refl plugged_in-IsUp refl (omega arith)

-- A member that is missing leaves the zero value; the case of a name does not count.
abbrev a_body : Json
a_body = obj (
    member "CMS_URL" (str "ws://cms/") (
      member "cp_id" (str " CP1") (
        member "max_kw" (num (pos 60)) (
          member "voltage" (num (pos 400)) (
            member "meter_s" (num (pos 5)) (
              member "charger_type" (str "dc ") (
                member "num_connectors" (num (pos 2)) (
                  member "battery_capacity_kwh" (num (pos 50))
                    (member "initial_soc" (num (pos 20)) end)))))))))

a_body_read : configure_request_of read_nat a_body ≡ some a_request
unfolding configure_request_of
a_body_read = refl

abbrev some_requests : List Request
some_requests =
    http whole true (post_json "/api/configure" a_body)
    ∷ http whole true (post_json "/api/start-charging" (start_body (pos 2) ""))
    ∷ http whole true (post_json "/api/configure" a_body)
    ∷ process_restart true
    ∷ http whole true (record { post = true; path = "/api/disconnect"; sized = false; body = none })
    ∷ []

one_charger_example : OwnsOne (serve_all read_nat no_files (λ n. n) some_requests a_server)
one_charger_example = one_charger read_nat no_files (λ n. n) true none some_requests

restart_lem_example :
    let s =
      serve_all read_nat no_files
        (λ n. n)
        some_requests
        (restore_persisted_charger (new_server true none)) in
    ((restart false s).current_cfg ≡ last_configured read_nat some_requests none)
    × OwnsOne (restart false s)
restart_lem_example =
    restart_lem read_nat no_files (λ n. n) none some_requests false
      ((refl, refl), ((refl, refl), ((refl, refl), (tt, ((refl, refl), tt)))))

-- Configured, and then restarted.
comes_back :
    last_configured read_nat (http whole true (post_json "/api/configure" a_body) ∷ []) none
    ≡ some a_config
unfolding configure_request_of check_configure charger_type_of check_electrical connector_count
comes_back = refl
