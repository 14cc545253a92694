-- ===== src/Api/Restarted.antt =====
-- internal/api/server.go, internal/api/persist.go and cmd/worker/main.go: what a new process takes over
-- from the one before it.
use charger_simulator.Common.{
  ℕ, String, Bool, true, false, List, [], ◌∷◌, Option, none, some, All, ◌≡◌, refl, ◌∙◌, ap,
}
use charger_simulator.Config.{ChargerConfig}
use charger_simulator.Json.{Json}
use charger_simulator.Meter.Float.{Float}
use charger_simulator.Api.Server.{
  Server, whole, new_server, tear_down, start_charger, persist_config, clear_persisted_config,
  restore_persisted_charger, load_persisted_config, restore, restart,
}
use charger_simulator.Api.Routes.{HttpRequest, Reply}
use charger_simulator.Api.Routed.{
  Effect, unchanged, commanded, disconnected, reconfigured, serve_http_lem,
}
use charger_simulator.Api.Lasting.{configured_by, serve_http_current}
use charger_simulator.Api.One.{
  Request, http, process_restart, serve, serve_all, OwnsOne, restart-OwnsOne,
}

-- The file is written whole, and removed, whenever a request asks for it.
abbrev pub Lands : Request → Type 0
Lands (http written removed q) = (written ≡ whole) × (removed ≡ true)
Lands (process_restart graceful) = Unit

-- The server keeps a file, which holds its current configuration, or is missing if there is none.
abbrev pub IsSaved : {F : Type 0} → Server F → Type 0
IsSaved s = (s.has_dir ≡ true) × (s.saved ≡ s.current_cfg)

module _ {F : Type 0} where
  restored-IsSaved :
      (saved : Option (ChargerConfig F))
      → IsSaved (restore_persisted_charger (new_server true saved))
  unfolding restore_persisted_charger load_persisted_config restore start_charger tear_down
  restored-IsSaved none = (refl, refl)
  restored-IsSaved (some cfg) = (refl, refl)

  restored-current :
      (saved : Option (ChargerConfig F))
      → (restore_persisted_charger (new_server true saved)).current_cfg ≡ saved
  unfolding restore_persisted_charger load_persisted_config restore start_charger tear_down
  restored-current none = refl
  restored-current (some cfg) = refl

  -- A new process has the current configuration of the old one, and keeps it.
  restart-kept :
      (graceful : Bool) (s : Server F)
      → IsSaved s
      → ((restart graceful s).current_cfg ≡ s.current_cfg) × IsSaved (restart graceful s)
  unfolding restart tear_down
  restart-kept true s (dir, saved) =
      rw dir (restored-current s.saved ∙ saved, restored-IsSaved s.saved)
  restart-kept false s (dir, saved) =
      rw dir (restored-current s.saved ∙ saved, restored-IsSaved s.saved)

module _ {F : Type 0} ⦃fl : Float F⦄ (float_of : Json → Option F) where
  -- The configuration that a list of requests asks for in the end; a restart asks for nothing.
  abbrev pub last_configured : List Request → Option (ChargerConfig F) → Option (ChargerConfig F)
  last_configured [] old = old
  last_configured (http written removed q ∷ rs) old =
      last_configured rs (configured_by float_of q old)
  last_configured (process_restart graceful ∷ rs) old = last_configured rs old

module _ {F S B : Type 0} ⦃fl : Float F⦄ (float_of : Json → Option F) where
  Effect-IsSaved :
      (q : HttpRequest) (s : Server F) (out : Server F × Reply F S B)
      → Effect whole true float_of q s out
      → IsSaved s
      → IsSaved out.0
  unfolding clear_persisted_config persist_config start_charger tear_down
  Effect-IsSaved q s _ (unchanged r not_done) kept = kept
  Effect-IsSaved q s _ (commanded n cmd posted current named) kept = kept
  Effect-IsSaved q s _ (disconnected posted at) (dir, saved) = (dir, rw dir refl)
  Effect-IsSaved q s _ (reconfigured cfg posted at read) (dir, saved) = (dir, rw dir refl)

module _ {F S B : Type 0} ⦃fl : Float F⦄ (float_of : Json → Option F) (files : String → Option B)
    (states : ℕ → S) where
  serve-IsSaved :
      (r : Request) (s : Server F) → Lands r → IsSaved s → IsSaved (serve float_of files states r s)
  unfolding serve
  serve-IsSaved (http w removed q) s (all, gone) kept =
      rw (all, gone)
        (Effect-IsSaved float_of q s _ (serve_http_lem whole true float_of files states q s) kept)
  serve-IsSaved (process_restart graceful) s _ kept = (restart-kept graceful s kept).1

  serve_all-IsSaved :
      (rs : List Request) (s : Server F)
      → All Lands rs
      → IsSaved s
      → IsSaved (serve_all float_of files states rs s)
  unfolding serve_all
  serve_all-IsSaved [] s lands kept = kept
  serve_all-IsSaved (r ∷ rs) s (one, rest) kept =
      serve_all-IsSaved rs (serve float_of files states r s) rest (serve-IsSaved r s one kept)

  serve_all_current :
      (rs : List Request) (s : Server F)
      → All Lands rs
      → IsSaved s
      → (serve_all float_of files states rs s).current_cfg
        ≡ last_configured float_of rs s.current_cfg
  unfolding serve_all serve
  serve_all_current [] s lands kept = refl
  serve_all_current (http w removed q ∷ rs) s (one, rest) kept =
      serve_all_current rs (serve float_of files states (http w removed q) s) rest
        (serve-IsSaved (http w removed q) s one kept)
      ∙ ap (last_configured float_of rs) (serve_http_current float_of files states w removed q s)
  serve_all_current (process_restart graceful ∷ rs) s (_, rest) kept =
      serve_all_current rs (restart graceful s) rest (restart-kept graceful s kept).1
      ∙ ap (last_configured float_of rs) (restart-kept graceful s kept).0

  -- A restart brings back what was last configured. Take a server with a directory, started over any
  -- file, and whatever requests and restarts followed, with the file written whole and removed
  -- whenever that was asked for. Then after a further restart, gracefully or not, the current
  -- configuration is the one of the last POST to /api/configure whose body passes the checks, or none
  -- if a POST to /api/disconnect came after it; without either it is that of the first file. It is that
  -- of the one charger that runs, and none runs if it is none.
  pub restart_lem :
      (saved : Option (ChargerConfig F)) (rs : List Request) (graceful : Bool)
      → All Lands rs
      → let s =
          serve_all float_of files states rs (restore_persisted_charger (new_server true saved)) in
        ((restart graceful s).current_cfg ≡ last_configured float_of rs saved)
        × OwnsOne (restart graceful s)
  restart_lem saved rs graceful lands =
      let fresh : Server F = restore_persisted_charger (new_server true saved) in
      let s : Server F = serve_all float_of files states rs fresh in
      (
        (restart-kept graceful s (serve_all-IsSaved rs fresh lands (restored-IsSaved saved))).0
            ∙ serve_all_current rs fresh lands (restored-IsSaved saved)
            ∙ ap (last_configured float_of rs) (restored-current saved),
        restart-OwnsOne graceful s,
      )
