-- ===== src/Api/Hub.antt =====
-- internal/api/server.go: the dashboards that come and go (handleWS), the broadcast of the fanout to
-- the registered ones, and Close. A send on a closed channel and a second close of one panic in Go:
-- here the result is then `none`.
use charger_simulator.Common.{
  ℕ, Bool, true, false, not, List, [], ◌∷◌, ◌++◌, Option, none, some, ◌==◌, if◌then◌else◌, length,
}
use charger_simulator.Actor.Snapshot.{offer}
use charger_simulator.Api.Fanout.{out_cap}

-- Where the handler of a dashboard's request is: before the registration, in its write loop, or done.
pub data Phase : Type 0 where
  greeted serving left : Phase

-- `key` stands for the pointer; `registered`: it is in the server's set; `out_closed`: its channel is
-- closed; `written` is what its socket has got.
pub record Tab (E : Type 0) : Type 0 where
  pub key : ℕ
  pub phase : Phase
  pub registered : Bool
  pub out_ch : List E
  pub out_closed : Bool
  pub written : List E

-- What happens, in any order: a dashboard's handler queues its greeting, if a charger runs; it
-- registers; the fanout broadcasts; a write loop takes the next message, and its write succeeds or
-- not; a connection's context is done; the server is closed.
pub data HubStep (E : Type 0) : Type 0 where
  joins : Option E → HubStep E
  registers : ℕ → HubStep E
  broadcasts : E → HubStep E
  writes : ℕ → Bool → HubStep E
  disconnects : ℕ → HubStep E
  shuts_down : HubStep E

infixl 5 ◌>>=◌
abbrev pub ◌>>=◌ {ℓ κ} : {A : Type ℓ} {B : Type κ} → Option A → (A → Option B) → Option B
none >>= f = none
some a >>= f = f a

module _ {E : Type 0} where
  abbrev pub greeting : Option E → List E
  greeting none = []
  greeting (some e) = e ∷ []

  unfoldable pub join : Option E → ℕ → Tab E
  join greet key = record {
    key = key;
    phase = greeted;
    registered = false;
    out_ch = greeting greet;
    out_closed = false;
    written = [];
  }

  abbrev pub enter : Phase → Tab E → Tab E
  enter greeted t = record t { phase = serving; registered = true }
  enter _ t = t

  -- The deferred function of the handler.
  abbrev pub finish : Tab E → Tab E
  finish t = record t { phase = left; registered = false }

  abbrev pub leave : Phase → Tab E → Tab E
  leave serving t = finish t
  leave _ t = t

  -- The message is gone when its write fails. A closed channel is drained first.
  abbrev pub write_head : Bool → List E → Tab E → Tab E
  write_head ok [] t = if t.out_closed then finish t else t
  write_head true (e ∷ rest) t = record t { out_ch = rest; written = t.written ++ e ∷ [] }
  write_head false (e ∷ rest) t = finish (record t { out_ch = rest })

  abbrev pub write_phase : Bool → Phase → Tab E → Tab E
  write_phase ok serving t = write_head ok t.out_ch t
  write_phase ok _ t = t

  -- Non-blocking, to a registered dashboard.
  unfoldable pub send_event : E → Tab E → Option (Tab E)
  send_event e t =
      if not t.registered
      then some t
      else if t.out_closed
      then none
      else some (record t { out_ch = offer out_cap e t.out_ch })

  unfoldable pub close_tab : Tab E → Option (Tab E)
  close_tab t =
      if not t.registered
      then some t
      else if t.out_closed
      then none
      else some (record t { out_closed = true; registered = false })

  -- What a step does to one dashboard.
  unfoldable pub tab_step : HubStep E → Tab E → Option (Tab E)
  unfolding send_event close_tab
  tab_step (joins _) t = some t
  tab_step (registers k) t = some (if t.key == k then enter t.phase t else t)
  tab_step (broadcasts e) t = send_event e t
  tab_step (writes k ok) t = some (if t.key == k then write_phase ok t.phase t else t)
  tab_step (disconnects k) t = some (if t.key == k then leave t.phase t else t)
  tab_step shuts_down t = close_tab t

  abbrev pub joined : HubStep E → List (Tab E) → List (Tab E)
  joined (joins greet) ts = join greet (length ts) ∷ ts
  joined _ ts = ts

  unfoldable pub each : (Tab E → Option (Tab E)) → List (Tab E) → Option (List (Tab E))
  each f [] = some []
  each f (t ∷ ts) = do t' ← f t; ts' ← each f ts; some (t' ∷ ts')

  unfoldable pub hub_step : HubStep E → List (Tab E) → Option (List (Tab E))
  hub_step s ts = do ts' ← each (tab_step s) ts; some (joined s ts')

  unfoldable pub hub_run : List (HubStep E) → List (Tab E) → Option (List (Tab E))
  hub_run [] ts = some ts
  hub_run (s ∷ ss) ts = do ts' ← hub_step s ts; hub_run ss ts'
