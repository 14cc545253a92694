-- ===== src/Actor/Link.antt =====
-- internal/actor/charger.go: the link to the CMS: going offline and online, and the reconnection
-- after an unexpected drop. The client is internal/transport/ws/client.go.
use charger_simulator.Common.{
  ℕ, zero, suc, ◌*◌, Bool, true, false, not, List, [], ◌∷◌, if◌then◌else◌, ltb, ◌==◌,
}
use charger_simulator.Meter.Float.{Float}
use charger_simulator.Actor.State.{CpState, Client, Charger, Env}
use charger_simulator.Actor.Snapshot.{emit_log, publish_snapshot}
use charger_simulator.Actor.Send.{sends, send_boot}

-- `Close` is idempotent.
abbrev pub close : Client → Client
close ws = record ws { closed = true }

module _ {F : Type 0} ⦃fl : Float F⦄ (env : Env) where
  abbrev pub close_link : Charger F → Charger F
  close_link c = record c { ws = close c.ws }

  unfoldable pub handle_go_offline : Charger F → Charger F
  handle_go_offline c =
      let down : Charger F =
        record (emit_log "warn" "charger going offline (simulated wifi/power loss)" c) {
          offline = true;
          cp_state = CpState.offline;
          pending = [];
        } in
      if c.offline then c else close_link (publish_snapshot env down)

  abbrev pub dial_ok : Charger F → Bool
  dial_ok c = env.dials c.ticks

  -- `dialAndSwap`: a fresh client replaces the old one only if the dial succeeds.
  unfoldable pub dial_and_swap : Charger F → Charger F
  dial_and_swap c =
      let fresh : Client = record { dialled = true; closed = false } in
      record c { ws = if dial_ok c then fresh else c.ws; ticks = suc c.ticks }

  -- The charger afterwards, and whether the loop has a channel to select on.
  unfoldable pub handle_go_online : Charger F → Charger F × Bool
  handle_go_online c =
      let trying : Charger F =
        publish_snapshot env (record (emit_log "info" "charger reconnecting to CMS" c) {
          cp_state = CpState.booting;
        }) in
      let dialled : Charger F = dial_and_swap trying in
      let refused : Charger F =
        publish_snapshot env (record (emit_log "error" "reconnect failed — still offline" dialled) {
          cp_state = CpState.offline;
        }) in
      let up : Charger F =
        emit_log "info" "reconnected — sending BootNotification"
          (record dialled { offline = false }) in
      let booted : Charger F = send_boot env up in
      if not c.offline then (c, true) else if not (dial_ok trying) then (refused, false) else (
        if sends env up then booted else emit_log "error" "boot after reconnect failed" booted,
        true,
      )

  unfoldable pub on_unexpected_drop : Charger F → Charger F
  on_unexpected_drop c = publish_snapshot env (
      emit_log "warn" "CMS link lost — auto-reconnecting with backoff"
        (record c { cp_state = CpState.reconnecting; pending = [] }))

  -- One round of the loop in `reconnectWithBackoff`: dial, then boot. It is over if the boot was sent.
  unfoldable pub attempt : Charger F → Charger F × Bool
  attempt c =
      let dialled : Charger F = dial_and_swap c in
      let booted : Charger F = send_boot env dialled in
      if not (dial_ok c)
      then (emit_log "warn" "reconnect attempt failed" dialled, false)
      else if sends env dialled
      then (emit_log "info" "reconnected — BootNotification sent" booted, true)
      else (close_link booted, false)

-- Backoffs, in nanoseconds.
abbrev pub default_reconnect_initial : ℕ
default_reconnect_initial = 1000000000

abbrev pub default_reconnect_max : ℕ
default_reconnect_max = 30000000000

abbrev pub or_default : ℕ → ℕ → ℕ
or_default n d = if n == 0 then d else n

unfoldable pub next_backoff : ℕ → ℕ → ℕ
next_backoff top backoff = if ltb top (backoff * 2) then top else backoff * 2

-- How the loop ends.
pub data Outcome (F : Type 0) : Type 0 where
  connected : Charger F → Outcome F
  cancelled : Charger F → Outcome F
  out_of_fuel : Charger F → Outcome F

module _ {F : Type 0} ⦃fl : Float F⦄ (env : Env) (stop : ℕ → Bool) where
  -- `stop n`: the context is cancelled in the wait after the call number `n` into the environment.
  unfoldable pub reconnect_loop : ℕ → ℕ → ℕ → Charger F → Outcome F × List ℕ
  reconnect_loop zero top backoff c = (out_of_fuel c, [])
  reconnect_loop (suc fuel) top backoff c =
      let tried = attempt env c in
      let rest = reconnect_loop fuel top (next_backoff top backoff) tried.0 in
      if tried.1
      then (connected tried.0, [])
      else if stop tried.0.ticks
      then (cancelled tried.0, backoff ∷ [])
      else (rest.0, backoff ∷ rest.1)

  -- `reconnectWithBackoff`: its outcome, and the waits.
  unfoldable pub reconnect_with_backoff : ℕ → Charger F → Outcome F × List ℕ
  reconnect_with_backoff fuel c =
      reconnect_loop fuel (or_default c.cfg.reconnect_max_backoff default_reconnect_max)
        (or_default c.cfg.reconnect_initial_backoff default_reconnect_initial) c
