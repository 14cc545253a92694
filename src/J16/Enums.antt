-- ===== src/J16/Enums.antt =====
-- internal/ocpp/j16/enums.go. Each enumeration is a Go string with constants; where a value comes
-- from the wire and may be another string, `unknown` holds it.
use charger_simulator.Common.{String}

pub data ChargePointStatus : Type 0 where
  available preparing charging suspended_ev suspended_evse finishing reserved unavailable faulted :
      ChargePointStatus

pub data ChargePointErrorCode : Type 0 where
  no_error connector_lock_failure ev_communication_error ground_failure high_temperature :
      ChargePointErrorCode
  internal_error local_list_conflict other_error over_current_failure over_voltage :
      ChargePointErrorCode
  power_meter_failure power_switch_failure reader_failure reset_failure under_voltage :
      ChargePointErrorCode
  weak_signal : ChargePointErrorCode

pub data AuthorizationStatus : Type 0 where
  accepted blocked expired invalid concurrent_tx : AuthorizationStatus
  unknown : String → AuthorizationStatus

pub data RegistrationStatus : Type 0 where
  accepted pending rejected : RegistrationStatus
  unknown : String → RegistrationStatus

pub data StopReason : Type 0 where
  emergency_stop ev_disconnected hard_reset local other power_loss reboot remote soft_reset :
      StopReason
  unlock_command de_authorized : StopReason

pub data Measurand : Type 0 where
  energy_active_import_register power_active_import voltage current_import soc temperature :
      Measurand
  frequency power_factor : Measurand

pub data ReadingContext : Type 0 where
  sample_periodic sample_clock transaction_begin transaction_end interruption_begin : ReadingContext
  interruption_end : ReadingContext

pub data Location : Type 0 where
  body cable ev inlet outlet : Location

pub data UnitOfMeasure : Type 0 where
  wh kwh w kw v a celsius percent hertz : UnitOfMeasure

pub data Phase : Type 0 where
  l1 l2 l3 n l1_n l2_n l3_n : Phase

abbrev pub status_text : ChargePointStatus → String
status_text ChargePointStatus.available = "Available"
status_text ChargePointStatus.preparing = "Preparing"
status_text ChargePointStatus.charging = "Charging"
status_text ChargePointStatus.suspended_ev = "SuspendedEV"
status_text ChargePointStatus.suspended_evse = "SuspendedEVSE"
status_text ChargePointStatus.finishing = "Finishing"
status_text ChargePointStatus.reserved = "Reserved"
status_text ChargePointStatus.unavailable = "Unavailable"
status_text ChargePointStatus.faulted = "Faulted"
