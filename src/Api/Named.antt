-- ===== src/Api/Named.antt =====
-- internal/api/server.go: the commands that the handlers push are those that the requests stand for.
use charger_simulator.Common.{
  String, str_eq, eq_iff, Bool, true, false, Option, none, some, ◌≡◌, refl, sym, subst, inl, inr,
  arith, if◌then◌else◌,
}
use charger_simulator.Common.Int.{ℤ, pos, eq_ℤ_iff}
use charger_simulator.Config.{ChargerConfig}
use charger_simulator.Json.{Json}
use charger_simulator.Meter.Float.{Float}
use charger_simulator.Meter.Fault.{Fault, valid_fault, fault_of}
use charger_simulator.Actor.State.{Command, set_power}
use charger_simulator.Api.Requests.{accepted, check_connector_id, ◌>>=◌, or_text}
use charger_simulator.Api.Strings.{trim_space}
use charger_simulator.Api.Configured.{bound}
use charger_simulator.Api.Handlers.{
  success, no_content, Action, plugs_in, stops, unplugs, stops_at_once, clears, action_command,
  empty, filled_with, decoded, body_or, check_fault, or_healthy, StartRequest, start_command,
  fault_command, read_connector_id,
}
use charger_simulator.Api.Bodies.{
  connector_request_of, start_request_of, fault_request_of, power_request_of,
}
use charger_simulator.Api.Routes.{
  HttpRequest, Reply, answered, state_reply, config_reply, body_as, sized_as,
}
use charger_simulator.Api.Paths.{action_path}
use charger_simulator.Api.Wanted.{
  Means, IsTagOf, IsFaultOf, IsRead, IsReadOr, IsAbout, no_tag, Commands, plugs_in_at, unplugs_at,
  stops_at, emergency_at, clears_at, starts_at, limits_to, sets_fault,
}

-- A request that was carried out.
abbrev pub is_done : {F S B : Type 0} → Reply F S B → Bool
is_done (answered success) = true
is_done (answered no_content) = true
is_done _ = false

check_connector_id_lem : (n id : ℤ) → check_connector_id n ≡ accepted id → Means n id
unfolding check_connector_id
check_connector_id_lem n id e =
    ground (arith, e, eq_ℤ_iff n (pos 0), eq_ℤ_iff n (pos 1), eq_ℤ_iff n (pos 2))

pub state_reply_lem :
    (F S B : Type 0) (o : Option S) → is_done (state_reply {F = F} {S = S} {B = B} o) ≡ false
state_reply_lem F S B none = refl
state_reply_lem F S B (some st) = refl

pub config_reply_lem :
    (F S B : Type 0) (o : Option (ChargerConfig F))
    → is_done (config_reply {F = F} {S = S} {B = B} o) ≡ false
config_reply_lem F S B none = refl
config_reply_lem F S B (some cfg) = refl

pub accepted-inj {ℓ} : {A : Type ℓ} (a b : A) → accepted a ≡ accepted b → a ≡ b
accepted-inj a b e = cc e

pub chosen_text :
    (s : String) (b : Bool) → str_eq s "" ≡ b → str_eq (if b then "TESTRFID0001" else s) "" ≡ false
chosen_text s true e = refl
chosen_text s false e = e

decoded-IsRead :
    {A : Type 0} (read : Json → Option A) (q : HttpRequest) (a : A) (b : Option Json)
    → q.body ≡ b
    → decoded (body_as read b) ≡ accepted a
    → IsRead read q a
decoded-IsRead read q a none same e = cc e
decoded-IsRead read q a (some j) same e = (j, same, found (read j) e)
  where
    found : {A : Type 0} {a : A} (o : Option A) → decoded o ≡ accepted a → o ≡ some a
    found none e = cc e
    found (some x) e = cc e

connector-IsAbout :
    (q : HttpRequest) (id : ℤ) (sized : Bool)
    → q.sized ≡ sized
    → read_connector_id (if sized then filled_with (body_as connector_request_of q.body) else empty)
      ≡ accepted id
    → IsAbout q id
unfolding read_connector_id
connector-IsAbout q id false sized e =
    (pos 0, inl (sized, refl), inl (refl, sym (accepted-inj (pos 1) id e)))
connector-IsAbout q id true sized e =
    let (n, read, e') =
      bound (decoded (body_as connector_request_of q.body)) check_connector_id id e in
    (
      n,
      inr (sized, decoded-IsRead connector_request_of q n q.body refl read),
      check_connector_id_lem n id e',
    )

start-IsReadOr :
    (q : HttpRequest) (r : StartRequest) (sized : Bool)
    → q.sized ≡ sized
    → body_or no_tag (if sized then filled_with (body_as start_request_of q.body) else empty)
      ≡ accepted r
    → IsReadOr no_tag start_request_of q r
start-IsReadOr q r false sized e = inl (sized, sym (accepted-inj no_tag r e))
start-IsReadOr q r true sized e = inr (sized, decoded-IsRead start_request_of q r q.body refl e)

tag-IsTagOf : (text : String) → IsTagOf text (or_text (trim_space text) "TESTRFID0001")
tag-IsTagOf text = ground (arith, eq_iff (trim_space text) "")

fault-IsFaultOf :
    (text : String) (f : Fault)
    → check_fault (or_healthy (fault_of (trim_space text))) ≡ accepted f
    → IsFaultOf text f
unfolding fault_of valid_fault
fault-IsFaultOf text f e = ground (arith, e, eq_iff (trim_space text) "")

module _ {F : Type 0} ⦃fl : Float F⦄ (float_of : Json → Option F) (q : HttpRequest) where
  action-Commands :
      (a : Action) (id : ℤ)
      → q.path ≡ action_path a
      → IsAbout q id
      → Commands float_of q (action_command a id)
  action-Commands plugs_in id at about = plugs_in_at id at about
  action-Commands unplugs id at about = unplugs_at id at about
  action-Commands stops id at about = stops_at id at about
  action-Commands stops_at_once id at about = emergency_at id at about
  action-Commands clears id at about = clears_at id at about

  pub action_named :
      (a : Action) (cmd : Command F)
      → q.path ≡ action_path a
      → (read_connector_id (sized_as connector_request_of q) >>= λ id.
          accepted (action_command a id))
        ≡ accepted cmd
      → Commands float_of q cmd
  action_named a cmd at e =
      let (id, read, e') = bound (read_connector_id (sized_as connector_request_of q)) _ cmd e in
      subst (Commands float_of q) (accepted-inj _ cmd e')
        (action-Commands a id at (connector-IsAbout q id q.sized refl read))

  pub start_named :
      (cmd : Command F)
      → q.path ≡ "/api/start-charging"
      → (body_or no_tag (sized_as start_request_of q) >>= start_command) ≡ accepted cmd
      → Commands float_of q cmd
  unfolding start_command
  start_named cmd at e =
      let (r, read, e₁) =
        bound (body_or no_tag (sized_as start_request_of q)) start_command cmd e in
      let (id, one, e₂) = bound (check_connector_id r.connector_id) _ cmd e₁ in
      subst (Commands float_of q) (accepted-inj _ cmd e₂) (
        starts_at id _ r at (start-IsReadOr q r q.sized refl read)
          (check_connector_id_lem r.connector_id id one) (tag-IsTagOf r.id_tag))

  pub power_named :
      (cmd : Command F)
      → q.path ≡ "/api/set-power"
      → (decoded (body_as (power_request_of float_of) q.body) >>= λ x. accepted (set_power x))
        ≡ accepted cmd
      → Commands float_of q cmd
  power_named cmd at e =
      let (w, read, e') = bound (decoded (body_as (power_request_of float_of) q.body)) _ cmd e in
      subst (Commands float_of q) (accepted-inj _ cmd e')
        (limits_to w at (decoded-IsRead (power_request_of float_of) q w q.body refl read))

  pub fault_named :
      (cmd : Command F)
      → q.path ≡ "/api/meter-fault"
      → (decoded (body_as fault_request_of q.body) >>= fault_command) ≡ accepted cmd
      → Commands float_of q cmd
  unfolding fault_command
  fault_named cmd at e =
      let (r, read, e₁) = bound (decoded (body_as fault_request_of q.body)) fault_command cmd e in
      let (id, one, e₂) = bound (check_connector_id r.connector_id) _ cmd e₁ in
      let (f, valid, e₃) =
        bound (check_fault (or_healthy (fault_of (trim_space r.mode)))) _ cmd e₂ in
      subst (Commands float_of q) (accepted-inj _ cmd e₃) (
        sets_fault id f r at (decoded-IsRead fault_request_of q r q.body refl read)
          (check_connector_id_lem r.connector_id id one) (fault-IsFaultOf r.mode f valid))
