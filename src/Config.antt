-- ===== src/Config.antt =====
-- internal/config/config.go. A duration is a number of nanoseconds.
use charger_simulator.Common.{ℕ, String, Bool, true, false}
use charger_simulator.Common.Int.{ℤ}

pub data ChargerType : Type 0 where
  ac dc : ChargerType

pub record ChargerConfig (F : Type 0) : Type 0 where
  pub cpid : String
  pub vendor : String
  pub model : String
  pub firmware_version : String
  pub cms_url : String
  pub basic_auth_user : String
  pub basic_auth_pass : String
  pub heartbeat_interval : ℤ
  pub meter_interval : ℤ
  pub reconnect_initial_backoff : ℕ
  pub reconnect_max_backoff : ℕ
  pub charger_type : ChargerType
  pub num_connectors : ℤ
  pub max_power_w : F
  pub nominal_voltage_v : F
  pub phases : ℤ
  pub power_factor : F
  pub battery_capacity_kwh : F
  pub initial_soc : F

abbrev type_is_dc : ChargerType → Bool
type_is_dc dc = true
type_is_dc ac = false

abbrev pub is_dc : {F : Type 0} → ChargerConfig F → Bool
is_dc c = type_is_dc c.charger_type
