-- ===== src/Api/Handlers.antt =====
-- internal/api/server.go: the handlers that change the server or push a command. A body is what its
-- JSON decodes to, `none` if it does not; `post` tells the method.
use charger_simulator.Common.{ℕ, String, Bool, not, ◌∷◌, Option, none, some, if◌then◌else◌}
use charger_simulator.Common.Int.{ℤ, pos}
use charger_simulator.Config.{ChargerConfig}
use charger_simulator.Meter.Float.{Float}
use charger_simulator.Meter.Fault.{Fault, unset, healthy, fault_of, valid_fault}
use charger_simulator.Actor.State.{
  Command, plug_in, start_charging, stop_charging, unplug, emergency_stop, clear_fault, set_power,
  set_meter_fault, go_offline, go_online,
}
use charger_simulator.Api.Strings.{trim_space}
use charger_simulator.Api.Server.{
  Server, Written, tear_down, start_charger, persist_config, clear_persisted_config,
}
use charger_simulator.Api.Requests.{
  ConfigureRequest, BadRequest, invalid_json, unknown_fault, Checked, accepted, refused, ◌>>=◌,
  or_text, check_configure, check_connector_id,
}

pub data Response : Type 0 where
  success no_content method_not_allowed conflict : Response
  bad_request : BadRequest → Response

-- The actions of the connector routes.
pub data Action : Type 0 where
  plugs_in stops unplugs stops_at_once clears : Action

abbrev pub action_command : {F : Type 0} → Action → ℤ → Command F
action_command plugs_in id = plug_in id
action_command stops id = stop_charging id
action_command unplugs id = unplug id
action_command stops_at_once id = emergency_stop id
action_command clears id = clear_fault id

pub record StartRequest : Type 0 where
  pub id_tag : String
  pub connector_id : ℤ

pub record FaultRequest : Type 0 where
  pub connector_id : ℤ
  pub mode : String

abbrev pub or_healthy : Fault → Fault
or_healthy unset = healthy
or_healthy f = f

abbrev pub decoded {ℓ} : {A : Type ℓ} → Option A → Checked A
decoded none = refused invalid_json
decoded (some a) = accepted a

-- A body of length 0 is not read.
pub data Body (A : Type 0) : Type 0 where
  empty : Body A
  filled_with : Option A → Body A

abbrev pub body_or : {A : Type 0} → A → Body A → Checked A
body_or a empty = accepted a
body_or a (filled_with o) = decoded o

unfoldable pub read_connector_id : Body ℤ → Checked ℤ
read_connector_id empty = accepted (pos 1)
read_connector_id (filled_with o) = decoded o >>= check_connector_id

abbrev pub check_fault : Fault → Checked Fault
check_fault f = if valid_fault f then accepted f else refused unknown_fault

module _ {F : Type 0} where
  unfoldable pub push_to : Option ℕ → Command F → Server F → Server F × Response
  push_to none cmd s = (s, conflict)
  push_to (some n) cmd s = (record s { pushed = (n, cmd) ∷ s.pushed }, no_content)

  unfoldable pub checked_push : Server F → Checked (Command F) → Server F × Response
  unfolding push_to
  checked_push s (refused e) = (s, bad_request e)
  checked_push s (accepted cmd) = push_to s.current cmd s

  -- The method, then the body, then whether there is a charger.
  unfoldable pub push_checked : Bool → Checked (Command F) → Server F → Server F × Response
  unfolding checked_push
  push_checked post body s = if not post then (s, method_not_allowed) else checked_push s body

  unfoldable pub handle_connector_action : Action → Bool → Body ℤ → Server F → Server F × Response
  handle_connector_action action post body =
      push_checked post (read_connector_id body >>= λ id. accepted (action_command action id))

  unfoldable pub start_command : StartRequest → Checked (Command F)
  start_command req = do
    id ← check_connector_id req.connector_id
    accepted (start_charging id (or_text (trim_space req.id_tag) "TESTRFID0001"))

  unfoldable pub handle_start_charging : Bool → Body StartRequest → Server F → Server F × Response
  unfolding start_command
  handle_start_charging post body =
      push_checked post
        (body_or (record { id_tag = ""; connector_id = pos 0 }) body >>= start_command)

  unfoldable pub handle_set_power : Bool → Option F → Server F → Server F × Response
  handle_set_power post watts = push_checked post (decoded watts >>= λ w. accepted (set_power w))

  unfoldable pub fault_command : FaultRequest → Checked (Command F)
  fault_command req = do
    id ← check_connector_id req.connector_id
    mode ← check_fault (or_healthy (fault_of (trim_space req.mode)))
    accepted (set_meter_fault id mode)

  unfoldable pub handle_meter_fault : Bool → Option FaultRequest → Server F → Server F × Response
  unfolding fault_command
  handle_meter_fault post body = push_checked post (decoded body >>= fault_command)

  -- `handleAction`, for going off- and online.
  unfoldable pub handle_action : Bool → Bool → Server F → Server F × Response
  handle_action online post =
      push_checked post (accepted (if online then go_online else go_offline))

  unfoldable pub handle_disconnect : Bool → Bool → Server F → Server F × Response
  handle_disconnect post removed s =
      if not post
      then (s, method_not_allowed)
      else (clear_persisted_config removed (tear_down s), no_content)

  unfoldable pub configured : Written → Server F → Checked (ChargerConfig F) → Server F × Response
  configured w s (refused e) = (s, bad_request e)
  configured w s (accepted cfg) = (persist_config w cfg (start_charger cfg s), success)

module _ {F : Type 0} ⦃fl : Float F⦄ where
  unfoldable pub handle_configure :
      Bool → Written → Option (ConfigureRequest F) → Server F → Server F × Response
  unfolding configured
  handle_configure post w body s =
      if not post
      then (s, method_not_allowed)
      else configured w s (decoded body >>= check_configure)
