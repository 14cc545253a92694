-- ===== src/Api/Reads.antt =====
-- internal/api/server.go: the handlers that only read. A body of `none` is the answer 404.
use charger_simulator.Common.{ℕ, String, str_eq, not, ◌||◌, Option, none, some, if◌then◌else◌}
use charger_simulator.Config.{ChargerConfig}
use charger_simulator.Actor.State.{Charger, StateSnapshot}
use charger_simulator.Api.Strings.{trim_prefix, has_slash}
use charger_simulator.Api.Server.{Server}

-- An embedded file as it is served, with its content type; 404; or 500.
pub data Asset (B : Type 0) : Type 0 where
  not_found unavailable : Asset B
  served : String → B → Asset B

abbrev state_of {ℓ} : {S : Type ℓ} → (ℕ → S) → Option ℕ → Option S
state_of states none = none
state_of states (some n) = some (states n)

module _ {F : Type 0} where
  -- `State`: the snapshot published last. Before the first one the zero value is returned, here `none`.
  abbrev pub state : Charger F → Option (StateSnapshot F)
  state c = c.snapshot

  -- The password is blanked.
  abbrev pub without_password : ChargerConfig F → ChargerConfig F
  without_password cfg = record cfg { basic_auth_pass = "" }

  abbrev pub shown : Option (ChargerConfig F) → Option (ChargerConfig F)
  shown none = none
  shown (some cfg) = some (without_password cfg)

  unfoldable pub handle_config : Server F → Option (ChargerConfig F)
  handle_config s = shown s.current_cfg

  -- The states are those of the chargers that were started.
  unfoldable pub handle_state : {S : Type 0} → (ℕ → S) → Server F → Option S
  handle_state states s = state_of states s.current

module _ {B : Type 0} (files : String → Option B) where
  abbrev or_unavailable : String → Option B → Asset B
  or_unavailable type none = unavailable
  or_unavailable type (some b) = served type b

  abbrev or_not_found : String → Option B → Asset B
  or_not_found type none = not_found
  or_not_found type (some b) = served type b

  unfoldable pub serve_index : String → Asset B
  serve_index path =
      if not (str_eq path "/")
      then not_found
      else or_unavailable "text/html; charset=utf-8" (files "index.html")

  unfoldable pub serve_named : String → Asset B
  serve_named name =
      if str_eq name "" || has_slash name
      then not_found
      else if str_eq name "styles.css"
      then or_not_found "text/css; charset=utf-8" (files name)
      else if str_eq name "app.js"
      then or_not_found "application/javascript; charset=utf-8" (files name)
      else not_found

  unfoldable pub serve_static : String → Asset B
  serve_static path = serve_named (trim_prefix "/static/" path)
