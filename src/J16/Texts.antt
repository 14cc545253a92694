-- ===== src/J16/Texts.antt =====
-- internal/ocpp/j16/enums.go: the string that each constant is.
use charger_simulator.Common.{String, str_eq, if◌then◌else◌}
use charger_simulator.J16.Enums.{
  ChargePointErrorCode, AuthorizationStatus, RegistrationStatus, StopReason, Measurand,
  ReadingContext, Location, UnitOfMeasure, Phase,
}

abbrev pub error_code_text : ChargePointErrorCode → String
error_code_text ChargePointErrorCode.no_error = "NoError"
error_code_text ChargePointErrorCode.connector_lock_failure = "ConnectorLockFailure"
error_code_text ChargePointErrorCode.ev_communication_error = "EVCommunicationError"
error_code_text ChargePointErrorCode.ground_failure = "GroundFailure"
error_code_text ChargePointErrorCode.high_temperature = "HighTemperature"
error_code_text ChargePointErrorCode.internal_error = "InternalError"
error_code_text ChargePointErrorCode.local_list_conflict = "LocalListConflict"
error_code_text ChargePointErrorCode.other_error = "OtherError"
error_code_text ChargePointErrorCode.over_current_failure = "OverCurrentFailure"
error_code_text ChargePointErrorCode.over_voltage = "OverVoltage"
error_code_text ChargePointErrorCode.power_meter_failure = "PowerMeterFailure"
error_code_text ChargePointErrorCode.power_switch_failure = "PowerSwitchFailure"
error_code_text ChargePointErrorCode.reader_failure = "ReaderFailure"
error_code_text ChargePointErrorCode.reset_failure = "ResetFailure"
error_code_text ChargePointErrorCode.under_voltage = "UnderVoltage"
error_code_text ChargePointErrorCode.weak_signal = "WeakSignal"

abbrev pub authorization_text : AuthorizationStatus → String
authorization_text AuthorizationStatus.accepted = "Accepted"
authorization_text AuthorizationStatus.blocked = "Blocked"
authorization_text AuthorizationStatus.expired = "Expired"
authorization_text AuthorizationStatus.invalid = "Invalid"
authorization_text AuthorizationStatus.concurrent_tx = "ConcurrentTx"
authorization_text (AuthorizationStatus.unknown s) = s

abbrev pub authorization_of : String → AuthorizationStatus
authorization_of s =
    if str_eq s "Accepted"
    then AuthorizationStatus.accepted
    else if str_eq s "Blocked"
    then AuthorizationStatus.blocked
    else if str_eq s "Expired"
    then AuthorizationStatus.expired
    else if str_eq s "Invalid"
    then AuthorizationStatus.invalid
    else if str_eq s "ConcurrentTx"
    then AuthorizationStatus.concurrent_tx
    else AuthorizationStatus.unknown s

abbrev pub registration_text : RegistrationStatus → String
registration_text RegistrationStatus.accepted = "Accepted"
registration_text RegistrationStatus.pending = "Pending"
registration_text RegistrationStatus.rejected = "Rejected"
registration_text (RegistrationStatus.unknown s) = s

abbrev pub registration_of : String → RegistrationStatus
registration_of s =
    if str_eq s "Accepted"
    then RegistrationStatus.accepted
    else if str_eq s "Pending"
    then RegistrationStatus.pending
    else if str_eq s "Rejected"
    then RegistrationStatus.rejected
    else RegistrationStatus.unknown s

abbrev pub reason_text : StopReason → String
reason_text StopReason.emergency_stop = "EmergencyStop"
reason_text StopReason.ev_disconnected = "EVDisconnected"
reason_text StopReason.hard_reset = "HardReset"
reason_text StopReason.local = "Local"
reason_text StopReason.other = "Other"
reason_text StopReason.power_loss = "PowerLoss"
reason_text StopReason.reboot = "Reboot"
reason_text StopReason.remote = "Remote"
reason_text StopReason.soft_reset = "SoftReset"
reason_text StopReason.unlock_command = "UnlockCommand"
reason_text StopReason.de_authorized = "DeAuthorized"

abbrev pub measurand_text : Measurand → String
measurand_text Measurand.energy_active_import_register = "Energy.Active.Import.Register"
measurand_text Measurand.power_active_import = "Power.Active.Import"
measurand_text Measurand.voltage = "Voltage"
measurand_text Measurand.current_import = "Current.Import"
measurand_text Measurand.soc = "SoC"
measurand_text Measurand.temperature = "Temperature"
measurand_text Measurand.frequency = "Frequency"
measurand_text Measurand.power_factor = "Power.Factor"

abbrev pub context_text : ReadingContext → String
context_text ReadingContext.sample_periodic = "Sample.Periodic"
context_text ReadingContext.sample_clock = "Sample.Clock"
context_text ReadingContext.transaction_begin = "Transaction.Begin"
context_text ReadingContext.transaction_end = "Transaction.End"
context_text ReadingContext.interruption_begin = "Interruption.Begin"
context_text ReadingContext.interruption_end = "Interruption.End"

abbrev pub location_text : Location → String
location_text Location.body = "Body"
location_text Location.cable = "Cable"
location_text Location.ev = "EV"
location_text Location.inlet = "Inlet"
location_text Location.outlet = "Outlet"

abbrev pub unit_text : UnitOfMeasure → String
unit_text UnitOfMeasure.wh = "Wh"
unit_text UnitOfMeasure.kwh = "kWh"
unit_text UnitOfMeasure.w = "W"
unit_text UnitOfMeasure.kw = "kW"
unit_text UnitOfMeasure.v = "V"
unit_text UnitOfMeasure.a = "A"
unit_text UnitOfMeasure.celsius = "Celsius"
unit_text UnitOfMeasure.percent = "Percent"
unit_text UnitOfMeasure.hertz = "Hertz"

abbrev pub phase_text : Phase → String
phase_text Phase.l1 = "L1"
phase_text Phase.l2 = "L2"
phase_text Phase.l3 = "L3"
phase_text Phase.n = "N"
phase_text Phase.l1_n = "L1-N"
phase_text Phase.l2_n = "L2-N"
phase_text Phase.l3_n = "L3-N"
