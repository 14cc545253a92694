-- ===== src/J16/Marshal.antt =====
-- internal/ocpp/j16/messages.go: the JSON of the payloads, as the tags of the structs give it.
use charger_simulator.Common.{
  ℕ, String, str_eq, [], ◌∷◌, Option, none, some, if◌then◌else◌, ◌≡◌, map,
}
use charger_simulator.Json.{Json, Members, num, str, arr, obj, end, member, items_of}
use charger_simulator.J16.Enums.{status_text}
use charger_simulator.J16.Texts.{
  error_code_text, authorization_text, registration_text, reason_text, measurand_text, context_text,
  location_text, unit_text, phase_text,
}
use charger_simulator.J16.Messages.{
  IdTagInfo, BootNotificationReq, BootNotificationResp, HeartbeatResp, StatusNotificationReq,
  AuthorizeReq, AuthorizeResp, StartTransactionReq, StartTransactionResp, StopTransactionReq,
  StopTransactionResp, MeterValuesReq, MeterValue, SampledValue,
}

-- `MarshalJSON` and `UnmarshalJSON` of time.Time, for the years that RFC 3339 can write: a string with
-- every nanosecond, so a time is read back.
pub record TimeText : Type 0 where
  pub to_text : ℕ → String
  pub of_text : String → Option ℕ
  pub of_text-to_text : (t : ℕ) → of_text (to_text t) ≡ some t

abbrev pub time_json : TimeText → ℕ → Json
time_json times t = str (times.to_text t)

-- `omitempty`, for a string and for a pointer.
abbrev text_field : String → String → Members → Members
text_field k s ms = if str_eq s "" then ms else member k (str s) ms

abbrev pointer_field {ℓ} : {A : Type ℓ} → String → (A → Json) → Option A → Members → Members
pointer_field k f none ms = ms
pointer_field k f (some a) ms = member k (f a) ms

module _ (times : TimeText) where
  unfoldable pub id_tag_info_json : IdTagInfo → Json
  id_tag_info_json info = obj (
      member "status" (str (authorization_text info.status)) (
        pointer_field "expiryDate" (time_json times) info.expiry_date
          (text_field "parentIdTag" info.parent_id_tag end)))

  unfoldable pub boot_resp_json : BootNotificationResp → Json
  boot_resp_json r = obj (
      member "currentTime" (time_json times r.current_time) (
        member "interval" (num r.interval)
          (member "status" (str (registration_text r.status)) end)))

  unfoldable pub heartbeat_resp_json : HeartbeatResp → Json
  heartbeat_resp_json r = obj (member "currentTime" (time_json times r.current_time) end)

  unfoldable pub authorize_resp_json : AuthorizeResp → Json
  authorize_resp_json r = obj (member "idTagInfo" (id_tag_info_json r.id_tag_info) end)

  unfoldable pub start_resp_json : StartTransactionResp → Json
  start_resp_json r = obj (
      member "idTagInfo" (id_tag_info_json r.id_tag_info)
        (member "transactionId" (num r.transaction_id) end))

  unfoldable pub stop_resp_json : StopTransactionResp → Json
  stop_resp_json r = obj (pointer_field "idTagInfo" id_tag_info_json r.id_tag_info end)

  unfoldable pub status_req_json : StatusNotificationReq → Json
  status_req_json r = obj (
      member "connectorId" (num r.connector_id) (
        member "errorCode" (str (error_code_text r.error_code)) (
          member "status" (str (status_text r.status))
            (text_field "info" r.info (member "timestamp" (time_json times r.timestamp) end)))))

  unfoldable pub start_req_json : StartTransactionReq → Json
  start_req_json r = obj (
      member "connectorId" (num r.connector_id) (
        member "idTag" (str r.id_tag) (
          member "meterStart" (num r.meter_start)
            (member "timestamp" (time_json times r.timestamp) end))))

  unfoldable pub stop_req_json : StopTransactionReq → Json
  stop_req_json r = obj (
      text_field "idTag" r.id_tag (
        member "meterStop" (num r.meter_stop) (
          member "timestamp" (time_json times r.timestamp) (
            member "transactionId" (num r.transaction_id)
              (member "reason" (str (reason_text r.reason)) end)))))

  unfoldable pub sampled_value_json : SampledValue → Json
  sampled_value_json v = obj (
      member "value" (str v.value) (
        member "context" (str (context_text v.context)) (
          member "measurand" (str (measurand_text v.measurand)) (
            pointer_field "phase" (λ p. str (phase_text p)) v.phase
              (member "location" (str (location_text v.location))
                (member "unit" (str (unit_text v.unit)) end))))))

  unfoldable pub meter_value_json : MeterValue → Json
  unfolding sampled_value_json
  meter_value_json mv = obj (
      member "timestamp" (time_json times mv.timestamp)
        (member "sampledValue" (arr (items_of (map sampled_value_json mv.sampled_value))) end))

  unfoldable pub meter_values_req_json : MeterValuesReq → Json
  meter_values_req_json r = obj (
      member "connectorId" (num r.connector_id) (
        member "transactionId" (num r.transaction_id)
          (member "meterValue" (arr (items_of (meter_value_json r.meter_value ∷ []))) end)))

unfoldable pub boot_req_json : BootNotificationReq → Json
boot_req_json r = obj (
    member "chargePointVendor" (str r.charge_point_vendor) (
      member "chargePointModel" (str r.charge_point_model) (
        text_field "chargePointSerialNumber" r.charge_point_serial_number
          (text_field "firmwareVersion" r.firmware_version end))))

unfoldable pub authorize_req_json : AuthorizeReq → Json
authorize_req_json r = obj (member "idTag" (str r.id_tag) end)
