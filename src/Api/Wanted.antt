-- ===== src/Api/Wanted.antt =====
-- internal/api/server.go: the commands that requests stand for, by their paths and bodies, said apart
-- from the handlers.
use charger_simulator.Common.{String, true, false, Option, some, ◌≡◌, ◌≢◌, ◌⊎◌}
use charger_simulator.Common.Int.{ℤ, pos}
use charger_simulator.Json.{Json}
use charger_simulator.Meter.Float.{Float}
use charger_simulator.Meter.Fault.{Fault, healthy, valid_fault, fault_of}
use charger_simulator.Actor.State.{
  Command, plug_in, start_charging, stop_charging, unplug, emergency_stop, clear_fault, set_power,
  set_meter_fault, go_offline, go_online,
}
use charger_simulator.Api.Strings.{trim_space}
use charger_simulator.Api.Handlers.{StartRequest, FaultRequest}
use charger_simulator.Api.Bodies.{
  connector_request_of, start_request_of, fault_request_of, power_request_of,
}
use charger_simulator.Api.Routes.{HttpRequest}

-- A connector that a body may name.
abbrev pub IsOneOrTwo : ℤ → Type 0
IsOneOrTwo id = (id ≡ pos 1) ⊎ (id ≡ pos 2)

-- The connector that a number stands for: 0, as a missing one, for connector 1.
abbrev pub Means : ℤ → ℤ → Type 0
Means n id = ((n ≡ pos 0) × (id ≡ pos 1)) ⊎ ((id ≡ n) × IsOneOrTwo n)

-- The id tag that a text stands for.
abbrev pub IsTagOf : String → String → Type 0
IsTagOf text tag =
    ((trim_space text ≡ "") × (tag ≡ "TESTRFID0001"))
    ⊎ ((trim_space text ≢ "") × (tag ≡ trim_space text))

-- The fault that a text stands for.
abbrev pub IsFaultOf : String → Fault → Type 0
IsFaultOf text f =
    (valid_fault f ≡ true)
    × (((trim_space text ≡ "") × (f ≡ healthy))
        ⊎ ((trim_space text ≢ "") × (f ≡ fault_of (trim_space text))))

-- What the body is read as, and the same where an empty body stands for a default.
abbrev pub IsRead : {A : Type 0} → (Json → Option A) → HttpRequest → A → Type 0
IsRead read q a = (j : Json) × (q.body ≡ some j) × (read j ≡ some a)

abbrev pub IsReadOr : {A : Type 0} → A → (Json → Option A) → HttpRequest → A → Type 0
IsReadOr default read q a =
    ((q.sized ≡ false) × (a ≡ default)) ⊎ ((q.sized ≡ true) × IsRead read q a)

-- The connector that a request is about.
abbrev pub IsAbout : HttpRequest → ℤ → Type 0
IsAbout q id = (n : ℤ) × IsReadOr (pos 0) connector_request_of q n × Means n id

abbrev pub no_tag : StartRequest
no_tag = record { id_tag = ""; connector_id = pos 0 }

-- The command that a request stands for, by its path and its body.
pub data Commands {F : Type 0} ⦃fl : Float F⦄ (float_of : Json → Option F) (q : HttpRequest)
    : Command F → Type 0 where
  plugs_in_at : (id : ℤ) → q.path ≡ "/api/plug-in" → IsAbout q id → Commands float_of q (plug_in id)
  unplugs_at : (id : ℤ) → q.path ≡ "/api/unplug" → IsAbout q id → Commands float_of q (unplug id)
  stops_at :
      (id : ℤ)
      → q.path ≡ "/api/stop-charging"
      → IsAbout q id
      → Commands float_of q (stop_charging id)
  emergency_at :
      (id : ℤ)
      → q.path ≡ "/api/emergency-stop"
      → IsAbout q id
      → Commands float_of q (emergency_stop id)
  clears_at :
      (id : ℤ) → q.path ≡ "/api/clear-fault" → IsAbout q id → Commands float_of q (clear_fault id)
  starts_at :
      (id : ℤ) (tag : String) (r : StartRequest)
      → q.path ≡ "/api/start-charging"
      → IsReadOr no_tag start_request_of q r
      → Means r.connector_id id
      → IsTagOf r.id_tag tag
      → Commands float_of q (start_charging id tag)
  limits_to :
      (w : F)
      → q.path ≡ "/api/set-power"
      → IsRead (power_request_of float_of) q w
      → Commands float_of q (set_power w)
  sets_fault :
      (id : ℤ) (f : Fault) (r : FaultRequest)
      → q.path ≡ "/api/meter-fault"
      → IsRead fault_request_of q r
      → Means r.connector_id id
      → IsFaultOf r.mode f
      → Commands float_of q (set_meter_fault id f)
  goes_offline : q.path ≡ "/api/go-offline" → Commands float_of q go_offline
  goes_online : q.path ≡ "/api/go-online" → Commands float_of q go_online
