-- ===== src/Tests/Servers.antt =====
-- internal/api at concrete inputs.
use charger_simulator.Api.Fanout.{
  Dashboard, FanStep, event, writes_one, fan_all, follow_all, out_cap, got, IsThinned, events_of,
  fan_all_lem,
}
use charger_simulator.Common.{
  All, map, length, ◌≤◌, ◌++◌, arith, ℕ, true, List, [], ◌∷◌, none, some, ◌≡◌, refl,
}
use charger_simulator.Common.Int.{pos}
use charger_simulator.Config.{ChargerConfig}
use charger_simulator.Meter.EngineLaws.{IsValid}
use charger_simulator.Actor.New.{new_engine_for_cfg}
use charger_simulator.Api.Server.{Server, new_server}
use charger_simulator.Api.Requests.{
  ConfigureRequest, accepted, check_configure, config_of, charger_type_of, check_electrical,
  connector_count,
}
use charger_simulator.Api.Configured.{configured_engine-IsValid}
use charger_simulator.Config.{dc}
use charger_simulator.Api.Hub.{
  Tab, HubStep, joins, registers, broadcasts, writes, shuts_down, hub_step, hub_run,
}
use charger_simulator.Api.HubSafety.{TabOpen, TabShut, Goes, hub_run_lem}
use charger_simulator.Tests.Values.{nat_float, nat_laws}

abbrev pub a_request : ConfigureRequest ℕ
a_request = record {
  cms_url = "ws://cms/";
  cpid = " CP1";
  user = "";
  pass = "";
  vendor = "";
  model = "";
  firmware_ver = "";
  max_kw = 60;
  voltage = 400;
  heartbeat_s = pos 0;
  meter_s = pos 5;
  charger_type = "dc ";
  num_connectors = pos 2;
  phases = pos 0;
  battery_capacity_kwh = 50;
  initial_soc = 20;
}

abbrev pub a_config : ChargerConfig ℕ
a_config = config_of a_request dc (pos 0) (pos 2)

a_request_accepted : check_configure a_request ≡ accepted a_config
unfolding check_configure charger_type_of check_electrical connector_count
a_request_accepted = refl

a_url : a_config.cms_url ≡ "ws://cms/CP1"
unfolding config_of
a_url = refl

abbrev pub a_server : Server ℕ
a_server = new_server true none

configured_engine-IsValid_example : IsValid nat_laws (new_engine_for_cfg a_config)
configured_engine-IsValid_example =
    configured_engine-IsValid nat_laws a_request a_config a_request_accepted

abbrev a_dashboard : Dashboard ℕ
a_dashboard = record { key = 0; out_ch = 7 ∷ []; written = [] }

abbrev some_steps : List (FanStep ℕ)
some_steps = event 8 ∷ writes_one 0 ∷ event 9 ∷ []

fan_all_lem_example :
    (fan_all some_steps (a_dashboard ∷ []) ≡ map (follow_all some_steps) (a_dashboard ∷ []))
    × (length (follow_all some_steps a_dashboard).out_ch ≤ out_cap)
    × (kept : List ℕ) × (got (follow_all some_steps a_dashboard) ≡ got a_dashboard ++ kept)
    × IsThinned kept (events_of some_steps)
fan_all_lem_example = fan_all_lem some_steps (a_dashboard ∷ []) a_dashboard (omega arith)

abbrev some_visits : List (HubStep ℕ)
some_visits =
    joins (some 1)
    ∷ registers 0
    ∷ broadcasts 2
    ∷ joins none
    ∷ writes 0 true
    ∷ shuts_down
    ∷ registers 1
    ∷ writes 0 true
    ∷ writes 0 true
    ∷ []

hub_run_lem_example :
    (ts : List (Tab ℕ)) × (hub_run some_visits [] ≡ some ts)
    × All TabOpen ts
    × Goes (All TabShut) (hub_step shuts_down ts)
hub_run_lem_example = hub_run_lem some_visits
