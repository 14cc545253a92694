-- ===== src/Api/Commanded.antt =====
-- internal/api/server.go and internal/actor/charger.go: a request to the server, and the command that
-- it leaves in the channel of a charger.
use charger_simulator.Common.{
  ℕ, String, Bool, true, List, [], ◌∷◌, Option, some, inl, inr, ◌≡◌, refl, ◌==◌, if◌then◌else◌,
}
use charger_simulator.Common.Int.{ℤ}
use charger_simulator.Json.{Json, num, str, obj, end, member}
use charger_simulator.Api.Strings.{trim_space}
use charger_simulator.Api.Requests.{accepted, or_text, check_connector_id}
use charger_simulator.Api.Bodies.{start_request_of}
use charger_simulator.Api.Handlers.{
  no_content, push_to, push_checked, checked_push, start_command, handle_start_charging,
}
use charger_simulator.Api.Wanted.{IsOneOrTwo}
use charger_simulator.Meter.Float.{Float}
use charger_simulator.Actor.State.{Command, start_charging, Charger, StateSnapshot}
use charger_simulator.Actor.Inbound.{enqueue}
use charger_simulator.Api.Server.{Server, Written}
use charger_simulator.Api.Routes.{HttpRequest, Reply, answered, route, respond, serve_http}

-- A POST with a JSON body.
abbrev pub post_json : String → Json → HttpRequest
post_json path body = record { post = true; path = path; sized = true; body = some body }

-- What the dashboard sends.
abbrev pub start_body : ℤ → String → Json
start_body id tag = obj (member "connector_id" (num id) (member "id_tag" (str tag) end))

-- The id tag that the server passes on.
abbrev pub start_tag : String → String
start_tag tag = or_text (trim_space tag) "TESTRFID0001"

start_body_read :
    (id : ℤ) (tag : String)
    → IsOneOrTwo id
    → start_request_of (start_body id tag) ≡ some (record { id_tag = tag; connector_id = id })
unfolding start_request_of
start_body_read id tag (inl e) = rw e refl
start_body_read id tag (inr e) = rw e refl

checked_id : (id : ℤ) → IsOneOrTwo id → check_connector_id id ≡ accepted id
unfolding check_connector_id
checked_id id (inl e) = rw e refl
checked_id id (inr e) = rw e refl

module _ {F : Type 0} where
  -- The public methods of the charger, called in order, the oldest command last in the list.
  unfoldable pub hand_over : List (ℕ × Command F) → (ℕ → Charger F) → ℕ → Charger F
  hand_over [] cs m = cs m
  hand_over ((n, cmd) ∷ ps) cs m =
      let rest = hand_over ps cs m in if n == m then enqueue cmd rest else rest

module _ {F B : Type 0} ⦃fl : Float F⦄ (written : Written) (removed : Bool)
    (float_of : Json → Option F) (files : String → Option B) where
  -- A request is served, and its command is in the channel when the reply is written.
  unfoldable pub on_request :
      HttpRequest
      → Server F
      → (ℕ → Charger F)
      → (Server F × (ℕ → Charger F)) × Reply F (Option (StateSnapshot F)) B
  on_request q s cs =
      let (s', r) =
        serve_http written removed float_of files (λ m. (cs m).snapshot) q
          (record s { pushed = [] }) in
      ((s', hand_over s'.pushed cs), r)

  pub start_requested :
      (id : ℤ) (tag : String) (n : ℕ) (s : Server F) (cs : ℕ → Charger F)
      → IsOneOrTwo id
      → s.current ≡ some n
      → on_request (post_json "/api/start-charging" (start_body id tag)) s cs ≡ (
        (
          record s { pushed = (n, start_charging id (start_tag tag)) ∷ [] },
          hand_over ((n, start_charging id (start_tag tag)) ∷ []) cs,
        ),
        answered no_content,
      )
  unfolding on_request serve_http route respond handle_start_charging push_checked checked_push
      push_to start_command
  start_requested id tag n s cs one current =
      rw (start_body_read id tag one, checked_id id one, current) refl
