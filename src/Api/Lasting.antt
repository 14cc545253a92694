-- ===== src/Api/Lasting.antt =====
-- internal/api/server.go: the configuration that requests leave, said apart from the handlers.
use charger_simulator.Common.{
  ℕ, String, str_eq, eq_iff, Bool, true, false, Option, none, some, ◌≡◌, ◌≢◌, refl, arith, inl, inr,
  Bool-cases, if◌then◌else◌,
}
use charger_simulator.Config.{ChargerConfig}
use charger_simulator.Json.{Json}
use charger_simulator.Meter.Float.{Float}
use charger_simulator.Api.Server.{
  Server, Written, tear_down, start_charger, persist_config, clear_persisted_config,
}
use charger_simulator.Api.Requests.{Checked, accepted, refused, ◌>>=◌, check_configure}
use charger_simulator.Api.Handlers.{decoded, handle_configure, configured, handle_disconnect}
use charger_simulator.Api.Bodies.{configure_request_of}
use charger_simulator.Api.Routes.{HttpRequest, Reply, route, respond, serve_http, body_as}
use charger_simulator.Api.Routed.{
  Effect, unchanged, commanded, disconnected, reconfigured, serve_http_lem,
}

module _ {F : Type 0} ⦃fl : Float F⦄ (float_of : Json → Option F) where
  abbrev pub or_old :
      Checked (ChargerConfig F) → Option (ChargerConfig F) → Option (ChargerConfig F)
  or_old (accepted cfg) old = some cfg
  or_old (refused e) old = old

  -- A POST to /api/configure sets the configuration, if the body passes the checks, and one to
  -- /api/disconnect clears it.
  abbrev pub configured_by : HttpRequest → Option (ChargerConfig F) → Option (ChargerConfig F)
  configured_by q old =
      if str_eq q.path "/api/configure"
      then (if q.post
          then or_old (decoded (body_as (configure_request_of float_of) q.body) >>= check_configure)
              old
          else old)
      else if str_eq q.path "/api/disconnect"
      then (if q.post then none else old)
      else old

module _ {F S B : Type 0} ⦃fl : Float F⦄ (float_of : Json → Option F) (files : String → Option B)
    (states : ℕ → S) (written : Written) (removed : Bool) where
  configure_current :
      (post : Bool) (b : Option Json) (s : Server F)
      → (handle_configure post written (body_as (configure_request_of float_of) b) s).0.current_cfg
        ≡ (if post
            then or_old float_of
                (decoded (body_as (configure_request_of float_of) b) >>= check_configure)
                s.current_cfg
            else s.current_cfg)
  unfolding handle_configure configured persist_config start_charger
  configure_current false b s = refl
  configure_current true b s =
      ended (decoded (body_as (configure_request_of float_of) b) >>= check_configure)
    where
      ended :
          (c : Checked (ChargerConfig F))
          → (configured written s c).0.current_cfg ≡ or_old float_of c s.current_cfg
      ended (accepted cfg) = refl
      ended (refused e) = refl

  disconnect_current :
      (post : Bool) (s : Server F)
      → (handle_disconnect post removed s).0.current_cfg ≡ (if post then none else s.current_cfg)
  unfolding handle_disconnect clear_persisted_config tear_down
  disconnect_current false s = refl
  disconnect_current true s = refl

  -- On another path, the configuration stays.
  same_elsewhere :
      (q : HttpRequest) (s : Server F) (out : Server F × Reply F S B)
      → q.path ≢ "/api/configure"
      → q.path ≢ "/api/disconnect"
      → Effect written removed float_of q s out
      → out.0.current_cfg ≡ s.current_cfg
  same_elsewhere q s _ other other' (unchanged r not_done) = refl
  same_elsewhere q s _ other other' (commanded n cmd posted current named) = refl
  same_elsewhere q s _ other other' (disconnected posted at) = elim (other' at) [ ]
  same_elsewhere q s _ other other' (reconfigured cfg posted at read) = elim (other at) [ ]

  at_configure :
      (q : HttpRequest) (s : Server F)
      → q.path ≡ "/api/configure"
      → (serve_http written removed float_of files states q s).0.current_cfg ≡ (
          if q.post
          then or_old float_of
              (decoded (body_as (configure_request_of float_of) q.body) >>= check_configure)
              s.current_cfg
          else s.current_cfg)
  unfolding serve_http respond route
  at_configure q s at = rw at (configure_current q.post q.body s)

  at_disconnect :
      (q : HttpRequest) (s : Server F)
      → q.path ≡ "/api/disconnect"
      → (serve_http written removed float_of files states q s).0.current_cfg
        ≡ (if q.post then none else s.current_cfg)
  unfolding serve_http respond route
  at_disconnect q s at = rw at (disconnect_current q.post s)

  pub serve_http_current :
      (q : HttpRequest) (s : Server F)
      → (serve_http written removed float_of files states q s).0.current_cfg
        ≡ configured_by float_of q s.current_cfg
  serve_http_current q s = elim (Bool-cases (str_eq q.path "/api/configure")) [
    | inl e ↦ rw e (at_configure q s ((eq_iff q.path "/api/configure").0 e))
    | inr e ↦ rw e (elim (Bool-cases (str_eq q.path "/api/disconnect")) [
      | inl e' ↦ rw e' (at_disconnect q s ((eq_iff q.path "/api/disconnect").0 e'))
      | inr e' ↦ rw e' (
          same_elsewhere q s _ (λ same. ground (arith, e, same, eq_iff q.path "/api/configure"))
            (λ same. ground (arith, e', same, eq_iff q.path "/api/disconnect"))
            (serve_http_lem written removed float_of files states q s))
    ])
  ]
