-- ===== src/J16/Messages.antt =====
-- internal/ocpp/j16/messages.go: the payloads that the charger sends and reads. An optional field
-- that the code leaves empty in all it sends is left out, and said so in the manifest. A time is
-- the number of nanoseconds since some origin.
use charger_simulator.Common.{ℕ, String, List, Option}
use charger_simulator.Common.Int.{ℤ}
use charger_simulator.J16.Enums.{
  ChargePointStatus, ChargePointErrorCode, AuthorizationStatus, RegistrationStatus, StopReason,
  Measurand, ReadingContext, Location, UnitOfMeasure, Phase,
}

pub record IdTagInfo : Type 0 where
  pub status : AuthorizationStatus
  pub expiry_date : Option ℕ
  pub parent_id_tag : String

pub record BootNotificationReq : Type 0 where
  pub charge_point_vendor : String
  pub charge_point_model : String
  pub charge_point_serial_number : String
  pub firmware_version : String

pub record BootNotificationResp : Type 0 where
  pub current_time : ℕ
  pub interval : ℤ
  pub status : RegistrationStatus

pub record HeartbeatResp : Type 0 where
  pub current_time : ℕ

pub record StatusNotificationReq : Type 0 where
  pub connector_id : ℤ
  pub error_code : ChargePointErrorCode
  pub status : ChargePointStatus
  pub info : String
  pub timestamp : ℕ

pub record AuthorizeReq : Type 0 where
  pub id_tag : String

pub record AuthorizeResp : Type 0 where
  pub id_tag_info : IdTagInfo

pub record StartTransactionReq : Type 0 where
  pub connector_id : ℤ
  pub id_tag : String
  pub meter_start : ℤ
  pub timestamp : ℕ

pub record StartTransactionResp : Type 0 where
  pub id_tag_info : IdTagInfo
  pub transaction_id : ℤ

pub record StopTransactionReq : Type 0 where
  pub id_tag : String
  pub meter_stop : ℤ
  pub timestamp : ℕ
  pub transaction_id : ℤ
  pub reason : StopReason

pub record StopTransactionResp : Type 0 where
  pub id_tag_info : Option IdTagInfo

pub record SampledValue : Type 0 where
  pub value : String
  pub context : ReadingContext
  pub measurand : Measurand
  pub phase : Option Phase
  pub location : Location
  pub unit : UnitOfMeasure

pub record MeterValue : Type 0 where
  pub timestamp : ℕ
  pub sampled_value : List SampledValue

pub record MeterValuesReq : Type 0 where
  pub connector_id : ℤ
  pub transaction_id : ℤ
  pub meter_value : MeterValue

pub record RemoteStartTransactionReq : Type 0 where
  pub connector_id : Option ℤ
  pub id_tag : String

pub record RemoteStopTransactionReq : Type 0 where
  pub transaction_id : ℤ

pub record TriggerMessageReq : Type 0 where
  pub requested_message : String
  pub connector_id : Option ℤ
