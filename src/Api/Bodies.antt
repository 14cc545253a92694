-- ===== src/Api/Bodies.antt =====
-- internal/api/server.go: the bodies of the requests, decoded by the tags of the structs. A struct
-- starts as its zero value. `float_of` reads a JSON number as a float64.
use charger_simulator.Common.{String, true, false, Option, none, some, if◌then◌else◌}
use charger_simulator.Common.Int.{ℤ, pos}
use charger_simulator.Json.{Json, null}
use charger_simulator.Json.Unmarshal.{
  Target, same_name, into_string, into_int, into_struct, checked,
}
use charger_simulator.Meter.Float.{Float}
use charger_simulator.Api.Requests.{ConfigureRequest}
use charger_simulator.Api.Handlers.{StartRequest, FaultRequest}

abbrev pub connector_field : String → Json → ℤ → Target ℤ
connector_field k j id =
    let r = into_int j id in if same_name k "connector_id" then r else (id, true)

unfoldable pub connector_request_of : Json → Option ℤ
connector_request_of j = checked (into_struct connector_field j (pos 0))

abbrev pub start_field : String → Json → StartRequest → Target StartRequest
start_field k j r =
    let tag = into_string j r.id_tag in
    let id = into_int j r.connector_id in
    if same_name k "id_tag"
    then (record r { id_tag = tag.0 }, tag.1)
    else if same_name k "connector_id"
    then (record r { connector_id = id.0 }, id.1)
    else (r, true)

unfoldable pub start_request_of : Json → Option StartRequest
start_request_of j =
    checked (into_struct start_field j (record { id_tag = ""; connector_id = pos 0 }))

abbrev fault_field : String → Json → FaultRequest → Target FaultRequest
fault_field k j r =
    let id = into_int j r.connector_id in
    let mode = into_string j r.mode in
    if same_name k "connector_id"
    then (record r { connector_id = id.0 }, id.1)
    else if same_name k "mode"
    then (record r { mode = mode.0 }, mode.1)
    else (r, true)

unfoldable pub fault_request_of : Json → Option FaultRequest
fault_request_of j =
    checked (into_struct fault_field j (record { connector_id = pos 0; mode = "" }))

module _ {F : Type 0} ⦃fl : Float F⦄ (float_of : Json → Option F) where
  abbrev read_float : F → Option F → Target F
  read_float old none = (old, false)
  read_float old (some x) = (x, true)

  abbrev into_float : Json → F → Target F
  into_float null old = (old, true)
  into_float j old = read_float old (float_of j)

  abbrev power_field : String → Json → F → Target F
  power_field k j w = let r = into_float j w in if same_name k "watts" then r else (w, true)

  unfoldable pub power_request_of : Json → Option F
  power_request_of j = checked (into_struct power_field j (fl.of_ℕ 0))

  abbrev stored {ℓ} :
      {A : Type ℓ} → Target A → (A → ConfigureRequest F) → Target (ConfigureRequest F)
  stored t f = (f t.0, t.1)

  -- The fields that are float64, int and string.
  abbrev real_field : String → Json → ConfigureRequest F → Target (ConfigureRequest F)
  real_field k j r =
      if same_name k "max_kw"
      then stored (into_float j r.max_kw) (λ x. record r { max_kw = x })
      else if same_name k "voltage"
      then stored (into_float j r.voltage) (λ x. record r { voltage = x })
      else if same_name k "battery_capacity_kwh"
      then stored (into_float j r.battery_capacity_kwh) (λ x. record r { battery_capacity_kwh = x })
      else if same_name k "initial_soc"
      then stored (into_float j r.initial_soc) (λ x. record r { initial_soc = x })
      else (r, true)

  abbrev whole_field : String → Json → ConfigureRequest F → Target (ConfigureRequest F)
  whole_field k j r =
      if same_name k "heartbeat_s"
      then stored (into_int j r.heartbeat_s) (λ x. record r { heartbeat_s = x })
      else if same_name k "meter_s"
      then stored (into_int j r.meter_s) (λ x. record r { meter_s = x })
      else if same_name k "num_connectors"
      then stored (into_int j r.num_connectors) (λ x. record r { num_connectors = x })
      else if same_name k "phases"
      then stored (into_int j r.phases) (λ x. record r { phases = x })
      else real_field k j r

  abbrev text_field : String → Json → ConfigureRequest F → Target (ConfigureRequest F)
  text_field k j r =
      if same_name k "cms_url"
      then stored (into_string j r.cms_url) (λ x. record r { cms_url = x })
      else if same_name k "cp_id"
      then stored (into_string j r.cpid) (λ x. record r { cpid = x })
      else if same_name k "user"
      then stored (into_string j r.user) (λ x. record r { user = x })
      else if same_name k "pass"
      then stored (into_string j r.pass) (λ x. record r { pass = x })
      else if same_name k "vendor"
      then stored (into_string j r.vendor) (λ x. record r { vendor = x })
      else if same_name k "model"
      then stored (into_string j r.model) (λ x. record r { model = x })
      else if same_name k "firmware_version"
      then stored (into_string j r.firmware_ver) (λ x. record r { firmware_ver = x })
      else if same_name k "charger_type"
      then stored (into_string j r.charger_type) (λ x. record r { charger_type = x })
      else whole_field k j r

  abbrev blank_request : ConfigureRequest F
  blank_request = record {
    cms_url = "";
    cpid = "";
    user = "";
    pass = "";
    vendor = "";
    model = "";
    firmware_ver = "";
    max_kw = fl.of_ℕ 0;
    voltage = fl.of_ℕ 0;
    heartbeat_s = pos 0;
    meter_s = pos 0;
    charger_type = "";
    num_connectors = pos 0;
    phases = pos 0;
    battery_capacity_kwh = fl.of_ℕ 0;
    initial_soc = fl.of_ℕ 0;
  }

  unfoldable pub configure_request_of : Json → Option (ConfigureRequest F)
  configure_request_of j = checked (into_struct text_field j blank_request)
