-- ===== src/Api/Routed.antt =====
-- internal/api/server.go: what the requests to all routes change.
use charger_simulator.Common.{
  ℕ, String, Bool, true, false, ◌∷◌, Option, none, some, ◌≡◌, refl, subst,
}
use charger_simulator.Config.{ChargerConfig}
use charger_simulator.Json.{Json}
use charger_simulator.Meter.Float.{Float}
use charger_simulator.Actor.State.{Command}
use charger_simulator.Api.Server.{
  Server, Written, tear_down, start_charger, persist_config, clear_persisted_config,
}
use charger_simulator.Api.Requests.{Checked, accepted, refused, check_configure, ◌>>=◌}
use charger_simulator.Api.Handlers.{
  success, no_content, push_to, checked_push, push_checked, decoded, handle_connector_action,
  handle_start_charging, handle_set_power, handle_meter_fault, handle_action, handle_disconnect,
  handle_configure, configured,
}
use charger_simulator.Api.Bodies.{configure_request_of}
use charger_simulator.Api.Routes.{
  Route, index_route, static_route, static_root, health_route, state_route, config_route,
  configure_route, disconnect_route, start_route, power_route, fault_route, events_route,
  action_route, link_route, HttpRequest, Reply, answered, route, respond, serve_http, body_as,
  answer,
}
use charger_simulator.Api.Reads.{handle_state, handle_config}
use charger_simulator.Api.Paths.{IsPathOf, route-IsPathOf}
use charger_simulator.Api.Wanted.{Commands, goes_offline, goes_online}
use charger_simulator.Api.Named.{
  is_done, accepted-inj, action_named, start_named, power_named, fault_named, state_reply_lem,
  config_reply_lem,
}

module _ {F S B : Type 0} ⦃fl : Float F⦄ (written : Written) (removed : Bool)
    (float_of : Json → Option F) where
  -- How a request ends: nothing has changed, and it was not carried out; or it is a POST, and one
  -- command, the one that its path and its body stand for, was pushed to the current charger, or the charger was torn down, or a new one
  -- was started with a configuration that passed the checks.
  pub data Effect (q : HttpRequest) (s : Server F) : Server F × Reply F S B → Type 0 where
    unchanged : (r : Reply F S B) → is_done r ≡ false → Effect q s (s, r)
    commanded :
        (n : ℕ) (cmd : Command F)
        → q.post ≡ true
        → s.current ≡ some n
        → Commands float_of q cmd
        → Effect q s (record s { pushed = (n, cmd) ∷ s.pushed }, answered no_content)
    disconnected :
        q.post ≡ true
        → q.path ≡ "/api/disconnect"
        → Effect q s (clear_persisted_config removed (tear_down s), answered no_content)
    reconfigured :
        (cfg : ChargerConfig F)
        → q.post ≡ true
        → q.path ≡ "/api/configure"
        → decoded (body_as (configure_request_of float_of) q.body) >>= check_configure
          ≡ accepted cfg
        → Effect q s (persist_config written cfg (start_charger cfg s), answered success)

  push_to_lem :
      (q : HttpRequest) (s : Server F) (cmd : Command F)
      → q.post ≡ true
      → Commands float_of q cmd
      → (cur : Option ℕ) → s.current ≡ cur
      → Effect q s (answer (push_to cur cmd s))
  unfolding push_to
  push_to_lem q s cmd posted named none e = unchanged _ refl
  push_to_lem q s cmd posted named (some n) e = commanded n cmd posted e named

  checked_push_lem :
      (q : HttpRequest) (s : Server F)
      → q.post ≡ true
      → (body : Checked (Command F))
      → ((cmd : Command F) → body ≡ accepted cmd → Commands float_of q cmd)
      → Effect q s (answer (checked_push s body))
  unfolding checked_push
  checked_push_lem q s posted (refused e) named = unchanged _ refl
  checked_push_lem q s posted (accepted cmd) named =
      push_to_lem q s cmd posted (named cmd refl) s.current refl

  push_checked_lem :
      (q : HttpRequest) (s : Server F) (body : Checked (Command F))
      → ((cmd : Command F) → body ≡ accepted cmd → Commands float_of q cmd)
      → (post : Bool) → q.post ≡ post
      → Effect q s (answer (push_checked post body s))
  unfolding push_checked
  push_checked_lem q s body named false e = unchanged _ refl
  push_checked_lem q s body named true e = checked_push_lem q s e body named

  configured_lem :
      (q : HttpRequest) (s : Server F)
      → q.post ≡ true
      → q.path ≡ "/api/configure"
      → (body : Checked (ChargerConfig F))
      → (decoded (body_as (configure_request_of float_of) q.body) >>= check_configure) ≡ body
      → Effect q s (answer (configured written s body))
  unfolding configured
  configured_lem q s posted at (refused e) read = unchanged _ refl
  configured_lem q s posted at (accepted cfg) read = reconfigured cfg posted at read

  handle_configure-Effect :
      (q : HttpRequest) (s : Server F)
      → q.path ≡ "/api/configure"
      → (post : Bool) → q.post ≡ post
      → Effect q s (
          answer (handle_configure post written (body_as (configure_request_of float_of) q.body) s))
  unfolding handle_configure
  handle_configure-Effect q s at false e = unchanged _ refl
  handle_configure-Effect q s at true e = configured_lem q s e at _ refl

  handle_disconnect-Effect :
      (q : HttpRequest) (s : Server F)
      → q.path ≡ "/api/disconnect"
      → (post : Bool) → q.post ≡ post
      → Effect q s (answer (handle_disconnect post removed s))
  unfolding handle_disconnect
  handle_disconnect-Effect q s at false e = unchanged _ refl
  handle_disconnect-Effect q s at true e = disconnected e at

module _ {F S B : Type 0} ⦃fl : Float F⦄ (written : Written) (removed : Bool)
    (float_of : Json → Option F) (files : String → Option B) (states : ℕ → S) where
  abbrev Responds : HttpRequest → Server F → Route → Type 0
  Responds q s r =
      Effect written removed float_of q s (respond written removed float_of files states r q s)

  respond-Responds :
      (q : HttpRequest) (s : Server F) (r : Route) → IsPathOf r q.path → Responds q s r
  unfolding respond handle_connector_action handle_start_charging handle_set_power
      handle_meter_fault handle_action
  respond-Responds q s index_route at = unchanged _ refl
  respond-Responds q s static_route at = unchanged _ refl
  respond-Responds q s static_root at = unchanged _ refl
  respond-Responds q s health_route at = unchanged _ refl
  respond-Responds q s state_route at = unchanged _ (state_reply_lem F S B (handle_state states s))
  respond-Responds q s config_route at = unchanged _ (config_reply_lem F S B (handle_config s))
  respond-Responds q s configure_route at =
      handle_configure-Effect written removed float_of q s at q.post refl
  respond-Responds q s disconnect_route at =
      handle_disconnect-Effect written removed float_of q s at q.post refl
  respond-Responds q s start_route at =
      push_checked_lem written removed float_of q s _ (λ cmd. start_named float_of q cmd at) q.post
        refl
  respond-Responds q s power_route at =
      push_checked_lem written removed float_of q s _ (λ cmd. power_named float_of q cmd at) q.post
        refl
  respond-Responds q s fault_route at =
      push_checked_lem written removed float_of q s _ (λ cmd. fault_named float_of q cmd at) q.post
        refl
  respond-Responds q s events_route at = unchanged _ refl
  respond-Responds q s (action_route a) at =
      push_checked_lem written removed float_of q s _ (λ cmd. action_named float_of q a cmd at)
        q.post refl
  respond-Responds q s (link_route true) at =
      push_checked_lem written removed float_of q s _
        (λ cmd e. subst (Commands float_of q) (accepted-inj _ cmd e) (goes_online at)) q.post refl
  respond-Responds q s (link_route false) at =
      push_checked_lem written removed float_of q s _
        (λ cmd e. subst (Commands float_of q) (accepted-inj _ cmd e) (goes_offline at)) q.post refl

  -- Whatever request arrives, on whatever path and with whatever body: either the server is unchanged
  -- and the reply is neither 204 nor that of a configuration; or the request is a POST, and one command
  -- was pushed to the current charger, the one that its path and its body stand for: which of the ten
  -- commands is said by the path, and the connector (1 if there is none), the id tag, the power limit
  -- and the fault are those of the body; or it is a POST to /api/disconnect, or to /api/configure with
  -- a body that passes the checks, and that was done.
  pub serve_http_lem :
      (q : HttpRequest) (s : Server F)
      → Effect written removed float_of q s (serve_http written removed float_of files states q s)
  unfolding serve_http
  serve_http_lem q s = respond-Responds q s (route q.path) (route-IsPathOf q.path)
