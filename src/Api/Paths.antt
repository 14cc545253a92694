-- ===== src/Api/Paths.antt =====
-- internal/api/server.go: the paths of the routes that change something.
use charger_simulator.Common.{
  String, str_eq, eq_iff, Bool, true, false, not, ◌≡◌, inl, inr, Bool-cases, if◌then◌else◌,
}
use charger_simulator.Api.Strings.{trim_prefix}
use charger_simulator.Api.Handlers.{Action, plugs_in, stops, unplugs, stops_at_once, clears}
use charger_simulator.Api.Routes.{
  Route, index_route, static_route, static_root, health_route, state_route, config_route,
  configure_route, disconnect_route, start_route, power_route, fault_route, events_route,
  action_route, link_route, command_route, route,
}

abbrev pub action_path : Action → String
action_path plugs_in = "/api/plug-in"
action_path unplugs = "/api/unplug"
action_path stops = "/api/stop-charging"
action_path stops_at_once = "/api/emergency-stop"
action_path clears = "/api/clear-fault"

-- The path of each route that changes something.
abbrev pub IsPathOf : Route → String → Type 0
IsPathOf configure_route p = p ≡ "/api/configure"
IsPathOf disconnect_route p = p ≡ "/api/disconnect"
IsPathOf start_route p = p ≡ "/api/start-charging"
IsPathOf power_route p = p ≡ "/api/set-power"
IsPathOf fault_route p = p ≡ "/api/meter-fault"
IsPathOf (action_route a) p = p ≡ action_path a
IsPathOf (link_route true) p = p ≡ "/api/go-online"
IsPathOf (link_route false) p = p ≡ "/api/go-offline"
IsPathOf _ p = Unit

if_at :
    (p t : String) (a r : Route)
    → (p ≡ t → IsPathOf a p)
    → IsPathOf r p
    → IsPathOf (if str_eq p t then a else r) p
if_at p t a r at rest = elim (Bool-cases (str_eq p t)) [
  | inl e ↦ rw e (at ((eq_iff p t).0 e))
  | inr e ↦ rw e rest
]

other-IsPathOf : (p : String) (b : Bool) → IsPathOf (if b then static_route else index_route) p
other-IsPathOf p true = tt
other-IsPathOf p false = tt

pub route-IsPathOf : (p : String) → IsPathOf (route p) p
unfolding route
route-IsPathOf p =
    if_at p "/healthz" health_route _ (λ e. tt)
      (if_at p "/api/state" state_route _ (λ e. tt)
        (if_at p "/api/config" config_route _ (λ e. tt)
          (if_at p "/api/configure" configure_route _ (λ e. e)
            (if_at p "/api/disconnect" disconnect_route _ (λ e. e) (commands p)))))
  where
    others :
        (p : String)
        → IsPathOf
            (if str_eq p "/static"
              then static_root
              else if not (str_eq (trim_prefix "/static/" p) p)
              then static_route
              else index_route)
            p
    others p = if_at p "/static" static_root _ (λ e. tt) (other-IsPathOf p _)

    commands : (p : String) → IsPathOf (command_route p) p
    commands p =
        if_at p "/api/plug-in" (action_route plugs_in) _ (λ e. e)
          (if_at p "/api/unplug" (action_route unplugs) _ (λ e. e)
            (if_at p "/api/start-charging" start_route _ (λ e. e)
              (if_at p "/api/stop-charging" (action_route stops) _ (λ e. e)
                (if_at p "/api/emergency-stop" (action_route stops_at_once) _ (λ e. e)
                  (if_at p "/api/clear-fault" (action_route clears) _ (λ e. e)
                    (if_at p "/api/set-power" power_route _ (λ e. e)
                      (if_at p "/api/meter-fault" fault_route _ (λ e. e)
                        (if_at p "/api/go-offline" (link_route false) _ (λ e. e)
                          (if_at p "/api/go-online" (link_route true) _ (λ e. e)
                            (if_at p "/api/events" events_route _ (λ e. tt) (others p)))))))))))
