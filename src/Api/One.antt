-- ===== src/Api/One.antt =====
-- internal/api/server.go: the server runs at most one charger, whatever the requests.
use charger_simulator.Common.{
  ℕ, String, Bool, List, [], ◌∷◌, Option, none, some, ◌≡◌, refl, ◌∙◌, arith, ap,
}
use charger_simulator.Config.{ChargerConfig}
use charger_simulator.Meter.Float.{Float}
use charger_simulator.Api.Server.{
  Server, Written, new_server, tear_down, start_charger, persist_config, clear_persisted_config,
  restore_persisted_charger, load_persisted_config, restore, restart, cancel, made_from,
}
use charger_simulator.Json.{Json}
use charger_simulator.Api.Configured.{same_number}
use charger_simulator.Api.Routes.{HttpRequest, Reply, serve_http}
use charger_simulator.Api.Routed.{
  Effect, unchanged, commanded, disconnected, reconfigured, serve_http_lem,
}

-- A request, with how the write and the removal of charger.json end; or the end of the process and its
-- successor.
pub data Request : Type 0 where
  http : Written → Bool → HttpRequest → Request
  -- Whether it ends by a signal.
  process_restart : Bool → Request

module _ {F S B : Type 0} ⦃fl : Float F⦄ (float_of : Json → Option F) (files : String → Option B)
    (states : ℕ → S) where
  unfoldable pub serve : Request → Server F → Server F
  serve (http written removed q) s = (serve_http written removed float_of files states q s).0
  serve (process_restart graceful) s = restart graceful s

  unfoldable pub serve_all : List Request → Server F → Server F
  serve_all [] s = s
  serve_all (r ∷ rs) s = serve_all rs (serve r s)

-- No charger, no configuration; or one charger, with its configuration and its fanout.
pub data OwnsOne {F : Type 0} (s : Server F) : Type 0 where
  idle :
      s.current ≡ none
      → s.current_cfg ≡ none
      → s.alive ≡ []
      → s.fans ≡ []
      → s.cancel_charger ≡ none
      → s.fanout_cancel ≡ none
      → OwnsOne s
  owns :
      (n : ℕ) (cfg : ChargerConfig F)
      → s.current ≡ some n
      → s.current_cfg ≡ some cfg
      → made_from n s.chargers ≡ some cfg
      → s.alive ≡ n ∷ []
      → s.fans ≡ n ∷ []
      → s.cancel_charger ≡ some n
      → s.fanout_cancel ≡ some n
      → OwnsOne s

cancel_all : (n : ℕ) → cancel (some n) (n ∷ []) ≡ []
cancel_all n = ground arith

module _ {F : Type 0} where
  tear_down_all :
      (s : Server F) → OwnsOne s → ((tear_down s).alive ≡ []) × ((tear_down s).fans ≡ [])
  unfolding tear_down
  tear_down_all s (idle _ _ alive fans c f) = rw (alive, fans, c, f) (refl, refl)
  tear_down_all s (owns n cfg _ _ _ alive fans c f) =
      rw (alive, fans, c, f) (cancel_all n, cancel_all n)

  tear_down-OwnsOne : (s : Server F) → OwnsOne s → OwnsOne (tear_down s)
  tear_down-OwnsOne s one =
      let (alive, fans) = tear_down_all s one in
      unfold tear_down in idle refl refl alive fans refl refl

  start_charger-OwnsOne :
      (cfg : ChargerConfig F) (s : Server F) → OwnsOne s → OwnsOne (start_charger cfg s)
  start_charger-OwnsOne cfg s one =
      let (alive, fans) = tear_down_all s one in
      unfold start_charger in
      owns s.started cfg refl refl (rw (same_number s.started) refl) (rw alive refl) (rw fans refl)
        refl refl

  -- Only the pushed commands and the saved file differ.
  abbrev SameChargers : Server F → Server F → Type 0
  SameChargers s s' =
      (s'.current ≡ s.current)
      × (s'.current_cfg ≡ s.current_cfg)
      × (s'.chargers ≡ s.chargers)
      × (s'.alive ≡ s.alive)
      × (s'.fans ≡ s.fans)
      × (s'.cancel_charger ≡ s.cancel_charger)
      × (s'.fanout_cancel ≡ s.fanout_cancel)

  same-OwnsOne : (s s' : Server F) → SameChargers s s' → OwnsOne s → OwnsOne s'
  same-OwnsOne s s' (a, b, m, c, d, e, f) (idle a' b' c' d' e' f') =
      idle (a ∙ a') (b ∙ b') (c ∙ c') (d ∙ d') (e ∙ e') (f ∙ f')
  same-OwnsOne s s' (a, b, m, c, d, e, f) (owns n cfg a' b' m' c' d' e' f') =
      owns n cfg (a ∙ a') (b ∙ b') (ap (made_from n) m ∙ m') (c ∙ c') (d ∙ d') (e ∙ e') (f ∙ f')

  restore-OwnsOne :
      (o : Option (ChargerConfig F)) (s : Server F) → OwnsOne s → OwnsOne (restore o s)
  unfolding restore
  restore-OwnsOne none s one = one
  restore-OwnsOne (some cfg) s one = start_charger-OwnsOne cfg s one

  restored-OwnsOne :
      (has_dir : Bool) (saved : Option (ChargerConfig F))
      → OwnsOne (restore_persisted_charger (new_server has_dir saved))
  unfolding restore_persisted_charger
  restored-OwnsOne has_dir saved =
      let fresh : Server F = new_server has_dir saved in
      restore-OwnsOne (load_persisted_config fresh) fresh (idle refl refl refl refl refl refl)

  pub restart-OwnsOne : (graceful : Bool) (s : Server F) → OwnsOne (restart graceful s)
  unfolding restart
  restart-OwnsOne graceful s = restored-OwnsOne _ _

module _ {F S B : Type 0} ⦃fl : Float F⦄ (float_of : Json → Option F) where
  Effect-OwnsOne :
      (written : Written) (removed : Bool) (q : HttpRequest) (s : Server F)
      (out : Server F × Reply F S B)
      → Effect written removed float_of q s out
      → OwnsOne s
      → OwnsOne out.0
  unfolding clear_persisted_config persist_config
  Effect-OwnsOne w removed q s _ (unchanged r not_done) one = one
  Effect-OwnsOne w removed q s _ (commanded n cmd posted current named) one =
      same-OwnsOne s _ (refl, refl, refl, refl, refl, refl, refl) one
  Effect-OwnsOne w removed q s _ (disconnected posted at) one =
      same-OwnsOne (tear_down s) _ (refl, refl, refl, refl, refl, refl, refl)
        (tear_down-OwnsOne s one)
  Effect-OwnsOne w removed q s _ (reconfigured cfg posted at read) one =
      same-OwnsOne (start_charger cfg s) _ (refl, refl, refl, refl, refl, refl, refl)
        (start_charger-OwnsOne cfg s one)

module _ {F S B : Type 0} ⦃fl : Float F⦄ (float_of : Json → Option F) (files : String → Option B)
    (states : ℕ → S) where
  serve-OwnsOne :
      (r : Request) (s : Server F) → OwnsOne s → OwnsOne (serve float_of files states r s)
  unfolding serve
  serve-OwnsOne (http w removed q) s one =
      Effect-OwnsOne float_of w removed q s _ (serve_http_lem w removed float_of files states q s)
        one
  serve-OwnsOne (process_restart graceful) s one = restart-OwnsOne graceful s

  serve_all-OwnsOne :
      (rs : List Request) (s : Server F)
      → OwnsOne s
      → OwnsOne (serve_all float_of files states rs s)
  unfolding serve_all
  serve_all-OwnsOne [] s one = one
  serve_all-OwnsOne (r ∷ rs) s one =
      serve_all-OwnsOne rs (serve float_of files states r s) (serve-OwnsOne r s one)

  -- Whatever requests a new server answers, on whatever paths and with whatever bodies, and however
  -- often the process is restarted, gracefully or not: it either has no charger, no
  -- configuration and nothing running, or exactly one charger whose context is not cancelled, with
  -- the one fanout, and as the current configuration the one that this charger was made from.
  pub one_charger :
      (has_dir : Bool) (saved : Option (ChargerConfig F)) (rs : List Request)
      → OwnsOne (serve_all float_of files states rs (new_server has_dir saved))
  one_charger has_dir saved rs =
      serve_all-OwnsOne rs (new_server has_dir saved) (idle refl refl refl refl refl refl)
