-- ===== src/Api/Routes.antt =====
-- internal/api/server.go: the table of routes, and what is answered on each. A request's path is the
-- clean one that `http.ServeMux` passes on. The texts of errors are left out.
use charger_simulator.Common.{
  ℕ, String, str_eq, Bool, true, false, not, Option, none, some, if◌then◌else◌,
}
use charger_simulator.Config.{ChargerConfig}
use charger_simulator.Json.{Json}
use charger_simulator.Meter.Float.{Float}
use charger_simulator.Api.Strings.{trim_prefix}
use charger_simulator.Api.Server.{Server, Written}
use charger_simulator.Api.Handlers.{
  Response, success, no_content, method_not_allowed, conflict, bad_request, Action, plugs_in, stops,
  unplugs, stops_at_once, clears, Body, empty, filled_with, handle_connector_action,
  handle_start_charging, handle_set_power, handle_meter_fault, handle_action, handle_disconnect,
  handle_configure,
}
use charger_simulator.Api.Bodies.{
  connector_request_of, start_request_of, fault_request_of, power_request_of, configure_request_of,
}
use charger_simulator.Api.Reads.{
  Asset, not_found, unavailable, served, handle_config, handle_state, serve_index, serve_static,
}

pub data Route : Type 0 where
  index_route static_route static_root health_route state_route config_route : Route
  configure_route disconnect_route start_route power_route fault_route events_route : Route
  action_route : Action → Route
  -- Whether it goes online.
  link_route : Bool → Route

-- "/static/" stands for all paths below it, "/" for those that have no other pattern; the mux itself
-- redirects "/static".
abbrev other_route : String → Route
other_route path =
    if str_eq path "/static"
    then static_root
    else if not (str_eq (trim_prefix "/static/" path) path)
    then static_route
    else index_route

abbrev pub command_route : String → Route
command_route path =
    if str_eq path "/api/plug-in"
    then action_route plugs_in
    else if str_eq path "/api/unplug"
    then action_route unplugs
    else if str_eq path "/api/start-charging"
    then start_route
    else if str_eq path "/api/stop-charging"
    then action_route stops
    else if str_eq path "/api/emergency-stop"
    then action_route stops_at_once
    else if str_eq path "/api/clear-fault"
    then action_route clears
    else if str_eq path "/api/set-power"
    then power_route
    else if str_eq path "/api/meter-fault"
    then fault_route
    else if str_eq path "/api/go-offline"
    then link_route false
    else if str_eq path "/api/go-online"
    then link_route true
    else if str_eq path "/api/events"
    then events_route
    else other_route path

-- The pattern that the mux selects.
unfoldable pub route : String → Route
route path =
    if str_eq path "/healthz"
    then health_route
    else if str_eq path "/api/state"
    then state_route
    else if str_eq path "/api/config"
    then config_route
    else if str_eq path "/api/configure"
    then configure_route
    else if str_eq path "/api/disconnect"
    then disconnect_route
    else command_route path

-- `sized`: the content length is more than 0. `body` is `none` if it does not start with a JSON value.
pub record HttpRequest : Type 0 where
  pub post : Bool
  pub path : String
  pub sized : Bool
  pub body : Option Json

pub data Reply (F S B : Type 0) : Type 0 where
  answered : Response → Reply F S B
  state_json : S → Reply F S B
  config_json : ChargerConfig F → Reply F S B
  -- 404 with the JSON error "charger not configured".
  not_configured : Reply F S B
  healthy_text : Reply F S B
  asset : Asset B → Reply F S B
  -- The mux's redirect to the path with a slash.
  redirected : Reply F S B
  -- The connection is handed to `handleWS`.
  upgraded : Reply F S B

abbrev pub status_code : Response → ℕ
status_code success = 200
status_code no_content = 204
status_code method_not_allowed = 405
status_code conflict = 409
status_code (bad_request e) = 400

abbrev asset_code : {B : Type 0} → Asset B → ℕ
asset_code not_found = 404
asset_code unavailable = 500
asset_code (served type b) = 200

unfoldable pub code : {F S B : Type 0} → Reply F S B → ℕ
code (answered r) = status_code r
code (state_json s) = 200
code (config_json cfg) = 200
code not_configured = 404
code healthy_text = 200
code (asset a) = asset_code a
code redirected = 301
code upgraded = 101

abbrev pub answer : {F S B : Type 0} → Server F × Response → Server F × Reply F S B
answer (s, r) = (s, answered r)

abbrev pub state_reply : {F S B : Type 0} → Option S → Reply F S B
state_reply none = not_configured
state_reply (some st) = state_json st

abbrev pub config_reply : {F S B : Type 0} → Option (ChargerConfig F) → Reply F S B
config_reply none = not_configured
config_reply (some cfg) = config_json cfg

abbrev pub body_as {ℓ} : {A : Type ℓ} → (Json → Option A) → Option Json → Option A
body_as f none = none
body_as f (some j) = f j

abbrev pub sized_as : {A : Type 0} → (Json → Option A) → HttpRequest → Body A
sized_as f q = if q.sized then filled_with (body_as f q.body) else empty

-- How the write and the removal of charger.json end, how floats are read, the embedded files, and the
-- states that the chargers publish.
module _ {F S B : Type 0} ⦃fl : Float F⦄ (written : Written) (removed : Bool)
    (float_of : Json → Option F) (files : String → Option B) (states : ℕ → S) where
  unfoldable pub respond : Route → HttpRequest → Server F → Server F × Reply F S B
  respond index_route q s = (s, asset (serve_index files q.path))
  respond static_route q s = (s, asset (serve_static files q.path))
  respond static_root q s = (s, redirected)
  respond health_route q s = (s, healthy_text)
  respond state_route q s = (s, state_reply (handle_state states s))
  respond config_route q s = (s, config_reply (handle_config s))
  respond configure_route q s =
      answer (handle_configure q.post written (body_as (configure_request_of float_of) q.body) s)
  respond disconnect_route q s = answer (handle_disconnect q.post removed s)
  respond start_route q s = answer (handle_start_charging q.post (sized_as start_request_of q) s)
  respond power_route q s =
      answer (handle_set_power q.post (body_as (power_request_of float_of) q.body) s)
  respond fault_route q s = answer (handle_meter_fault q.post (body_as fault_request_of q.body) s)
  respond events_route q s = (s, upgraded)
  respond (action_route a) q s =
      answer (handle_connector_action a q.post (sized_as connector_request_of q) s)
  respond (link_route online) q s = answer (handle_action online q.post s)

  -- `Routes`, for one request.
  unfoldable pub serve_http : HttpRequest → Server F → Server F × Reply F S B
  serve_http q s = respond (route q.path) q s
