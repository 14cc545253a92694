-- ===== src/Api/Shown.antt =====
-- internal/api/server.go: what the dashboard is shown of the configuration.
use charger_simulator.Common.{Bool, true, Option, none, some, ◌≡◌, refl, arith}
use charger_simulator.Config.{ChargerConfig}
use charger_simulator.Meter.Float.{Float}
use charger_simulator.Api.Server.{
  Server, Written, tear_down, start_charger, persist_config, clear_persisted_config,
}
use charger_simulator.Api.Requests.{ConfigureRequest, accepted, check_configure}
use charger_simulator.Api.Handlers.{handle_configure, configured, handle_disconnect}
use charger_simulator.Api.Reads.{handle_config, shown}

module _ {F : Type 0} ⦃fl : Float F⦄ where
  no_password :
      (o : Option (ChargerConfig F)) (cfg : ChargerConfig F)
      → shown o ≡ some cfg
      → cfg.basic_auth_pass ≡ ""
  no_password none cfg e = cc e
  no_password (some c) cfg e = ground (arith, e)

  -- The dashboard is shown no password, whatever the server's state. After a body that passes the
  -- checks it is shown the body's configuration with the password blanked, whether or not it
  -- could be saved; and after a disconnect, none.
  pub handle_config_lem :
      (s : Server F) (req : ConfigureRequest F) (cfg : ChargerConfig F) (w : Written)
      (removed : Bool)
      → check_configure req ≡ accepted cfg
      → ((c : ChargerConfig F) → handle_config s ≡ some c → c.basic_auth_pass ≡ "")
        × (handle_config (handle_configure true w (some req) s).0
            ≡ some (record cfg { basic_auth_pass = "" }))
        × (handle_config (handle_disconnect true removed s).0 ≡ none)
  unfolding handle_config handle_configure configured persist_config start_charger handle_disconnect
      clear_persisted_config tear_down
  handle_config_lem s req cfg w removed e = (λ c h. no_password s.current_cfg c h, rw e refl, refl)
