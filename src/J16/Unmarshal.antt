-- ===== src/J16/Unmarshal.antt =====
-- internal/ocpp/j16/messages.go: the payloads that the charger reads, decoded by the tags of the
-- structs. A struct starts as its zero value.
use charger_simulator.Common.{ℕ, String, true, false, Option, none, some, if◌then◌else◌}
use charger_simulator.Common.Int.{pos}
use charger_simulator.Json.{Json, null, str}
use charger_simulator.Json.Unmarshal.{
  Target, same_name, into_string, into_int, into_int_pointer, into_struct, checked, unchecked,
}
use charger_simulator.J16.Texts.{
  authorization_text, authorization_of, registration_text, registration_of,
}
use charger_simulator.J16.Messages.{
  IdTagInfo, BootNotificationResp, AuthorizeResp, StartTransactionResp, RemoteStartTransactionReq,
  RemoteStopTransactionReq, TriggerMessageReq,
}
use charger_simulator.J16.Marshal.{TimeText}

module _ (times : TimeText) where
  -- A string that is no time, and any other value, is an error.
  abbrev time_of : Json → Option ℕ
  time_of (str s) = times.of_text s
  time_of _ = none

  abbrev timed {ℓ} : {A : Type ℓ} → A → (ℕ → A) → Option ℕ → Target A
  timed old f none = (old, false)
  timed old f (some t) = (f t, true)

  abbrev into_time : Json → ℕ → Target ℕ
  into_time null old = (old, true)
  into_time j old = timed old (λ t. t) (time_of j)

  abbrev into_time_pointer : Json → Option ℕ → Target (Option ℕ)
  into_time_pointer null old = (none, true)
  into_time_pointer j old = timed old (λ t. some t) (time_of j)

  abbrev pub id_tag_info_field : String → Json → IdTagInfo → Target IdTagInfo
  id_tag_info_field k j i =
      let status = into_string j (authorization_text i.status) in
      let expiry = into_time_pointer j i.expiry_date in
      let parent = into_string j i.parent_id_tag in
      if same_name k "status"
      then (record i { status = authorization_of status.0 }, status.1)
      else if same_name k "expiryDate"
      then (record i { expiry_date = expiry.0 }, expiry.1)
      else if same_name k "parentIdTag"
      then (record i { parent_id_tag = parent.0 }, parent.1)
      else (i, true)

  abbrev boot_resp_field : String → Json → BootNotificationResp → Target BootNotificationResp
  boot_resp_field k j r =
      let time = into_time j r.current_time in
      let interval = into_int j r.interval in
      let status = into_string j (registration_text r.status) in
      if same_name k "currentTime"
      then (record r { current_time = time.0 }, time.1)
      else if same_name k "interval"
      then (record r { interval = interval.0 }, interval.1)
      else if same_name k "status"
      then (record r { status = registration_of status.0 }, status.1)
      else (r, true)

  abbrev authorize_resp_field : String → Json → AuthorizeResp → Target AuthorizeResp
  authorize_resp_field k j r =
      let info = into_struct id_tag_info_field j r.id_tag_info in
      if same_name k "idTagInfo" then (record r { id_tag_info = info.0 }, info.1) else (r, true)

  abbrev start_resp_field : String → Json → StartTransactionResp → Target StartTransactionResp
  start_resp_field k j r =
      let info = into_struct id_tag_info_field j r.id_tag_info in
      let tx = into_int j r.transaction_id in
      if same_name k "idTagInfo"
      then (record r { id_tag_info = info.0 }, info.1)
      else if same_name k "transactionId"
      then (record r { transaction_id = tx.0 }, tx.1)
      else (r, true)

  abbrev pub no_info : IdTagInfo
  no_info = record { status = authorization_of ""; expiry_date = none; parent_id_tag = "" }

  unfoldable pub boot_resp_of : Json → Option BootNotificationResp
  boot_resp_of j = checked (
      into_struct boot_resp_field j
        (record { current_time = 0; interval = pos 0; status = registration_of "" }))

  unfoldable pub authorize_resp_of : Json → Option AuthorizeResp
  authorize_resp_of j =
      checked (into_struct authorize_resp_field j (record { id_tag_info = no_info }))

  unfoldable pub start_resp_of : Json → Option StartTransactionResp
  start_resp_of j =
      checked
        (into_struct start_resp_field j (record { id_tag_info = no_info; transaction_id = pos 0 }))

abbrev remote_start_field :
    String → Json → RemoteStartTransactionReq → Target RemoteStartTransactionReq
remote_start_field k j r =
    let id = into_int_pointer j r.connector_id in
    let tag = into_string j r.id_tag in
    if same_name k "connectorId"
    then (record r { connector_id = id.0 }, id.1)
    else if same_name k "idTag"
    then (record r { id_tag = tag.0 }, tag.1)
    else (r, true)

unfoldable pub remote_start_of : Json → RemoteStartTransactionReq
remote_start_of j =
    unchecked (into_struct remote_start_field j (record { connector_id = none; id_tag = "" }))

abbrev remote_stop_field :
    String → Json → RemoteStopTransactionReq → Target RemoteStopTransactionReq
remote_stop_field k j r =
    let tx = into_int j r.transaction_id in
    if same_name k "transactionId" then (record r { transaction_id = tx.0 }, tx.1) else (r, true)

unfoldable pub remote_stop_of : Json → RemoteStopTransactionReq
remote_stop_of j = unchecked (into_struct remote_stop_field j (record { transaction_id = pos 0 }))

abbrev trigger_field : String → Json → TriggerMessageReq → Target TriggerMessageReq
trigger_field k j r =
    let msg = into_string j r.requested_message in
    let id = into_int_pointer j r.connector_id in
    if same_name k "requestedMessage"
    then (record r { requested_message = msg.0 }, msg.1)
    else if same_name k "connectorId"
    then (record r { connector_id = id.0 }, id.1)
    else (r, true)

unfoldable pub trigger_of : Json → TriggerMessageReq
trigger_of j =
    unchecked (into_struct trigger_field j (record { requested_message = ""; connector_id = none }))
