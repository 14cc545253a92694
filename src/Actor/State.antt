-- ===== src/Actor/State.antt =====
-- internal/actor/charger.go: the state of the actor, its commands, and what it sends and emits.
-- Callbacks of calls in flight are data (`OnResult`, `OnError`), one constructor for each closure of
-- the code, with the variables that the closure captures.
use charger_simulator.Common.{ℕ, String, Bool, List, Option}
use charger_simulator.Common.Int.{ℤ}
use charger_simulator.Json.{Json}
use charger_simulator.Config.{ChargerConfig, ChargerType}
use charger_simulator.J16.Enums.{ChargePointStatus, ChargePointErrorCode}
use charger_simulator.J16.Messages.{
  BootNotificationReq, BootNotificationResp, StatusNotificationReq, AuthorizeReq, AuthorizeResp,
  StartTransactionReq, StartTransactionResp, StopTransactionReq, MeterValuesReq,
  RemoteStartTransactionReq, RemoteStopTransactionReq, TriggerMessageReq,
}
use charger_simulator.Meter.Engine.{Engine}
use charger_simulator.Meter.Fault.{Fault}
use charger_simulator.Session.Disk.{OpenSession, Io}
use charger_simulator.Session.Store.{FileStore}

pub data CpState : Type 0 where
  booting online disconnected offline reconnecting : CpState

pub data Command (F : Type 0) : Type 0 where
  plug_in : ℤ → Command F
  start_charging : ℤ → String → Command F
  stop_charging : ℤ → Command F
  unplug : ℤ → Command F
  emergency_stop : ℤ → Command F
  clear_fault : ℤ → Command F
  set_power : F → Command F
  set_meter_fault : ℤ → Fault → Command F
  go_offline : Command F
  go_online : Command F

pub record Connector (F : Type 0) : Type 0 where
  pub id : ℤ
  pub status : ChargePointStatus
  pub error_code : ChargePointErrorCode
  -- 0: no transaction.
  pub tx_id : ℤ
  pub start_pending : Bool
  -- The zero time is `none`.
  pub session_started_at : Option ℕ
  pub session_start_wh : ℤ
  pub session_id_tag : String
  pub meter_eng : Engine F
  pub meter_fault : Fault

-- The payloads of the calls.
pub data Payload : Type 0 where
  boot_notification : BootNotificationReq → Payload
  heartbeat : Payload
  status_notification : StatusNotificationReq → Payload
  authorize : AuthorizeReq → Payload
  start_transaction : StartTransactionReq → Payload
  stop_transaction : StopTransactionReq → Payload
  meter_values : MeterValuesReq → Payload

-- The `afterStop` closures: connector to Available, or to Faulted.
pub data AfterStop : Type 0 where
  make_available make_faulted : AfterStop

pub data OnResult : Type 0 where
  boot_result heartbeat_result no_result : OnResult
  -- The connector, the id tag.
  authorize_result : ℤ → String → OnResult
  -- The connector, the id tag, the time and the meter reading at the request.
  start_result : ℤ → String → ℕ → ℤ → OnResult
  stop_result : ℤ → AfterStop → OnResult
  record_result : OpenSession → OnResult

pub data OnError : Type 0 where
  boot_failed no_error_handler : OnError
  authorize_failed : ℤ → OnError

pub record PendingCall : Type 0 where
  pub action : String
  pub sent_at : ℕ
  pub on_result : OnResult
  pub on_error : OnError

-- A frame written to the socket. A response is known by its `status` text.
pub data Frame : Type 0 where
  call : String → Payload → Frame
  result : String → String → Frame
  error : String → String → Frame

-- The zero value of a connector's view has no session and no reading.
pub record ConnectorSnapshot (F : Type 0) : Type 0 where
  pub id : ℤ
  pub status : ChargePointStatus
  pub error_code : Option ChargePointErrorCode
  pub transaction_id : ℤ
  pub id_tag : String
  pub energy_wh : ℤ
  pub power_w : F
  pub voltage_v : F
  pub current_a : F
  pub soc : F
  pub session_start_unix : ℕ
  pub session_energy_wh : ℤ
  pub max_power_w_configured : F
  pub max_power_w_current : F
  pub meter_fault : Option Fault

pub record StateSnapshot (F : Type 0) : Type 0 where
  pub cpid : String
  pub vendor : String
  pub model : String
  pub cms_url : String
  pub charger_type : ChargerType
  pub num_connectors : ℕ
  pub phases : ℤ
  pub nominal_v : F
  pub connected : Bool
  pub cp_state : CpState
  pub connectors : List (ConnectorSnapshot F)
  -- The fields that mirror connector 1; `none` if there is no connector 1.
  pub mirror : Option (ConnectorSnapshot F)
  pub updated_at : ℕ

pub data Event (F : Type 0) : Type 0 where
  state_event : StateSnapshot F → Event F
  -- Direction, kind of frame, action, message id.
  ocpp_event : String → String → String → String → Event F
  -- Level and message.
  log_event : String → String → Event F

-- The WebSocket client: dialled, and closed by us.
pub record Client : Type 0 where
  pub dialled : Bool
  pub closed : Bool

pub record Charger (F : Type 0) : Type 0 where
  pub cfg : ChargerConfig F
  pub ws : Client
  pub cp_state : CpState
  pub boot_interval : ℤ
  pub offline : Bool
  -- The map from ids to connectors, in the order of one iteration.
  pub connectors : List (Connector F)
  pub pending : List (String × PendingCall)
  pub cmd_ch : List (Command F)
  pub events : List (Event F)
  pub snapshot : Option (StateSnapshot F)
  pub store : Option FileStore
  -- The frames written so far, the newest first, and the number of calls into the environment.
  pub wire : List Frame
  pub ticks : ℕ

-- What the actor does not decide, by the number of calls into the environment made so far: the time,
-- the ids that `uuid.NewString` makes, which frames reach the socket, which disk writes succeed,
-- which dials succeed. The decoders are `json.Unmarshal` into the response and request types; a
-- request of the CMS is read with errors ignored.
pub record Env : Type 0 where
  pub now : ℕ → ℕ
  pub uuid : ℕ → String
  pub writes : ℕ → Bool
  pub io : ℕ → Io
  pub dials : ℕ → Bool
  pub boot_resp : Json → Option BootNotificationResp
  pub authorize_resp : Json → Option AuthorizeResp
  pub start_resp : Json → Option StartTransactionResp
  pub remote_start : Json → RemoteStartTransactionReq
  pub remote_stop : Json → RemoteStopTransactionReq
  pub trigger : Json → TriggerMessageReq
