-- ===== src/Api/Requests.antt =====
-- internal/api/server.go: the requests, and the checks of handleConfigure.
use charger_simulator.Common.{
  ℕ, suc, zero, String, str_eq, Bool, true, false, not, ◌||◌, if◌then◌else◌,
}
use Prim.Native.String.{◌++◌}
use charger_simulator.Common.Int.{ℤ, pos, negsuc, eq_ℤ, in_seconds}
use charger_simulator.Config.{ChargerConfig, ChargerType, ac, dc}
use charger_simulator.Meter.Float.{Float}
use charger_simulator.Api.Strings.{trim_space, trim_slashes, upper_is_ac, upper_is_dc}

pub record ConfigureRequest (F : Type 0) : Type 0 where
  pub cms_url : String
  pub cpid : String
  pub user : String
  pub pass : String
  pub vendor : String
  pub model : String
  pub firmware_ver : String
  pub max_kw : F
  pub voltage : F
  pub heartbeat_s : ℤ
  pub meter_s : ℤ
  pub charger_type : String
  pub num_connectors : ℤ
  pub phases : ℤ
  pub battery_capacity_kwh : F
  pub initial_soc : F

-- Why a body is refused.
pub data BadRequest : Type 0 where
  invalid_json no_cms_url no_cpid bad_max_kw bad_voltage bad_charger_type bad_phases bad_battery :
      BadRequest
  bad_initial_soc bad_num_connectors bad_connector_id unknown_fault : BadRequest

pub data Checked {ℓ} (A : Type ℓ) : Type ℓ where
  accepted : A → Checked A
  refused : BadRequest → Checked A

infixl 5 ◌>>=◌
abbrev pub ◌>>=◌ {ℓ κ} : {A : Type ℓ} {B : Type κ} → Checked A → (A → Checked B) → Checked B
accepted a >>= f = f a
refused e >>= f = refused e

-- An early return.
abbrev pub refuse_if : Bool → BadRequest → Checked {0} Unit
refuse_if true e = refused e
refuse_if false e = accepted tt

abbrev pub or_text : String → String → String
or_text s default = if str_eq s "" then default else s

-- An interval of 0 seconds or less is replaced.
abbrev pub or_seconds : ℤ → ℕ → ℤ
or_seconds (pos zero) default = in_seconds default
or_seconds (pos (suc n)) default = in_seconds (suc n)
or_seconds (negsuc n) default = in_seconds default

-- No type is AC.
unfoldable pub charger_type_of : String → Checked ChargerType
charger_type_of text =
    let s : String = trim_space text in
    if str_eq s ""
    then accepted ac
    else if upper_is_ac s
    then accepted ac
    else if upper_is_dc s
    then accepted dc
    else refused bad_charger_type

-- No number is 1.
unfoldable pub connector_count : ℤ → Checked ℤ
connector_count n =
    if eq_ℤ n (pos 0)
    then accepted (pos 1)
    else if eq_ℤ n (pos 1) || eq_ℤ n (pos 2)
    then accepted n
    else refused bad_num_connectors

abbrev pub default_model : ChargerType → String
default_model dc = "Virtual DC 60kW"
default_model ac = "Virtual AC 22kW"

module _ {F : Type 0} ⦃fl : Float F⦄ where
  abbrev pub positive : F → Bool
  positive x = fl.lt (fl.of_ℕ 0) x

  -- The phases of the configuration.
  unfoldable pub check_electrical : ChargerType → ConfigureRequest F → Checked ℤ
  check_electrical ac req =
      if eq_ℤ req.phases (pos 1) || eq_ℤ req.phases (pos 3)
      then accepted req.phases
      else refused bad_phases
  check_electrical dc req =
      if not (positive req.battery_capacity_kwh)
      then refused bad_battery
      else if fl.lt req.initial_soc (fl.of_ℕ 0) || fl.lt (fl.of_ℕ 100) req.initial_soc
      then refused bad_initial_soc
      else accepted (pos 0)

  unfoldable pub config_of : ConfigureRequest F → ChargerType → ℤ → ℤ → ChargerConfig F
  config_of req type phases n = record {
    cpid = trim_space req.cpid;
    vendor = or_text (trim_space req.vendor) "TobOR Sim";
    model = or_text (trim_space req.model) (default_model type);
    firmware_version = or_text (trim_space req.firmware_ver) "0.1.0-sim";
    cms_url = trim_slashes (trim_space req.cms_url) ++ ("/" ++ trim_space req.cpid);
    basic_auth_user = req.user;
    basic_auth_pass = req.pass;
    heartbeat_interval = or_seconds req.heartbeat_s 30;
    meter_interval = or_seconds req.meter_s 5;
    reconnect_initial_backoff = 0;
    reconnect_max_backoff = 0;
    charger_type = type;
    num_connectors = n;
    max_power_w = fl.mul req.max_kw (fl.of_ℕ 1000);
    nominal_voltage_v = req.voltage;
    phases = phases;
    power_factor = fl.decimal 99 2;
    battery_capacity_kwh = req.battery_capacity_kwh;
    initial_soc = req.initial_soc;
  }

  -- The checks in order, and the configuration that they let through.
  unfoldable pub check_configure : ConfigureRequest F → Checked (ChargerConfig F)
  check_configure req = do
    _ ← refuse_if (str_eq (trim_space req.cms_url) "") no_cms_url
    _ ← refuse_if (str_eq (trim_space req.cpid) "") no_cpid
    _ ← refuse_if (not (positive req.max_kw)) bad_max_kw
    _ ← refuse_if (not (positive req.voltage)) bad_voltage
    type ← charger_type_of req.charger_type
    phases ← check_electrical type req
    n ← connector_count req.num_connectors
    accepted (config_of req type phases n)

-- A connector id of a body: 0 is 1.
unfoldable pub check_connector_id : ℤ → Checked ℤ
check_connector_id id =
    if eq_ℤ id (pos 0)
    then accepted (pos 1)
    else if eq_ℤ id (pos 1) || eq_ℤ id (pos 2)
    then accepted id
    else refused bad_connector_id
