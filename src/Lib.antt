-- ===== src/Lib.antt =====
-- A simulator of an OCPP 1.6 charge point, as a model of its Go code.
--
-- The program. A charger is an actor (internal/actor/charger.go): one goroutine that selects on the
-- frames of the CMS, the commands of the dashboard, two tickers and the context, and owns the state
-- of one or two connectors. It speaks OCPP-J (internal/ocpp/j16) over a WebSocket client
-- (internal/transport/ws/client.go), reads a simulated meter per connector
-- (internal/sim/meter/meter.go), and keeps the open transactions in a file
-- (internal/session/store.go), from which they are closed after an outage. The HTTP server around it
-- (internal/api/server.go) owns at most one charger, pushes the dashboard's commands to it, and keeps
-- its configuration in a file (internal/api/persist.go) for the next start of the worker
-- (cmd/worker/main.go). A central system for development (cmd/stub-cms/main.go) answers a charger's
-- calls. The web page and the test client cmd/wstest are not modelled.
--
-- Common, Json: shared helpers, strconv.Itoa among them; JSON values as encoding/json reads them
--   into ints, strings and slices. Json.Unmarshal is json.Unmarshal into structs.
-- J16: Enums and Texts (enums.go), Messages (messages.go), Marshal and Unmarshal (the JSON of the
--   messages, by the tags of the structs), Frame (frame.go: Marshal, Decode), RoundTrip, Payloads.
-- Config: ChargerConfig of internal/config/config.go.
-- Meter: Float, the interface that stands for float64 with its laws; Engine (Engine.Start, Sample,
--   SetMaxPower, power), Ocpp (ToOCPP), Fault (ApplyFault and its filters), EngineLaws, FaultLaws.
-- Session: Disk (atomicWrite, each call of the operating system failing or not, and what a crash
--   leaves), Store (Put, UpdateMeter, Delete, LoadOpen, NewFileStore), Key, Lookup, Reload.
-- Actor: State (the Charger struct, commands, calls, frames), Connectors (the map of connectors and
--   the writes through its pointers), Snapshot (emit, publishSnapshot), Send (call, replyResult and
--   the send functions), Results (the callbacks of the answers), Commands (the handlers of the
--   commands), Inbound (handleInbound, handleIncomingCall, sendMeterValues), Link (handleGoOffline,
--   handleGoOnline, reconnectWithBackoff), New (NewCharger), Run (the select loop). Induction lifts
--   a property from the handlers to the loop. Shown, Recorded, Offline, Starting, Reconnect,
--   Lifecycle, Moves, Machine, Replied, Answers, Settled and Once are about them.
-- Api: Strings (the package strings), Server (the Server struct, startCharger, the persisted
--   configuration), Requests (the checks of the bodies), Bodies (their JSON), Handlers, Reads (the
--   handlers that only read), Routes (Server.Routes, and what each route answers), Commanded (a
--   request and the command that it leaves with a charger), Fanout (fanout and the write loop of
--   handleWS), Hub (handleWS, the broadcast and Close, over dashboards that come and go), One,
--   Configured, Shown, Paths and Wanted (the commands that requests stand for, said apart from the
--   handlers), Named, Routed, Lasting (the configuration that requests leave, said apart from the
--   handlers), Restarted, HubSafety.
-- Ws: Client (New, Connect, readLoop, Send, Close of client.go), Delivery, Shutdown.
-- Cms: Handshake and Server (handleWS and handleCall of cmd/stub-cms/main.go), Replies,
--   Transactions; Conversation (a charger's frames as bytes, and the exchange of a call and its
--   answer), Exchange, Booting, Charging, Stopping, Outage; Requested, from a request of the
--   dashboard to the CMS.
-- Tests: the theorems at concrete inputs.
--
-- State is passed explicitly: a handler is a function from a Charger to a Charger. A callback is a
-- constructor with the variables that its closure captures, so the map of pending calls is data.
-- What the actor does not decide is an Env, indexed by the number of calls into it so far: the time,
-- the ids of uuid.NewString, which writes, dials and disk calls succeed; the decoders of payloads are
-- in it too, and Cms.Conversation fills them with those of J16.Unmarshal. The Run loop is a function
-- of a schedule, a list of inputs in any order. The loop of reconnectWithBackoff runs on fuel, one
-- unit for each attempt; when it is used up, the loop is `redialling`, and a run stays there. The
-- statement about its end says how much fuel is enough.
--
-- Integers have no width: the code only compares transaction and connector ids, and subtracts meter
-- readings for display. Seconds made into a duration wrap in 64 bits; a ticker of a duration that is
-- not positive panics in Go, which the start of the loop leaves out. A backoff doubles only below its
-- cap, so it stays far below 2 ^ 63 for any configured maximum that does. The map of connectors is a
-- list in the order of one iteration, and so is the map of the store. A JSON file is the value that it
-- spells. The lines of the logger, and
-- times and fields of events, are left out.
pub mod Common
pub mod Json
pub mod J16
pub mod Config
pub mod Meter
pub mod Session
pub mod Actor
pub mod Api
pub mod Ws
pub mod Cms
mod Tests
