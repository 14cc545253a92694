-- ===== src/Api/Server.antt =====
-- internal/api/server.go and internal/api/persist.go: the server's state, the start and the end of a
-- charger, and the file of the last configuration. Chargers and fanouts are known by the number of
-- the start that made them.
use charger_simulator.Common.{
  ℕ, suc, Bool, List, [], ◌∷◌, filterb, not, ◌==◌, Option, none, some, if◌then◌else◌,
}
use charger_simulator.Config.{ChargerConfig}
use charger_simulator.Actor.State.{Command}

pub record Server (F : Type 0) : Type 0 where
  -- `dataDir` is not empty.
  pub has_dir : Bool
  -- What charger.json is read as: `none` if it is missing, unreadable or corrupt.
  pub saved : Option (ChargerConfig F)
  pub started : ℕ
  -- The chargers that were made, with the configurations that they were made from, the newest first.
  pub chargers : List (ℕ × ChargerConfig F)
  -- The chargers and the fanouts whose contexts are not cancelled.
  pub alive : List ℕ
  pub fans : List ℕ
  pub current : Option ℕ
  pub current_cfg : Option (ChargerConfig F)
  pub cancel_charger : Option ℕ
  pub fanout_cancel : Option ℕ
  -- The commands pushed to chargers, the newest first.
  pub pushed : List (ℕ × Command F)

-- How a write of charger.json ends: whole, with the file as it was, or with a part of the text.
pub data Written : Type 0 where
  whole untouched truncated : Written

abbrev pub cancel : Option ℕ → List ℕ → List ℕ
cancel none ns = ns
cancel (some n) ns = filterb (λ m. not (m == n)) ns

module _ {F : Type 0} where
  -- `New`: an idle server over what a former process left.
  abbrev pub new_server : Bool → Option (ChargerConfig F) → Server F
  new_server has_dir saved = record {
    has_dir = has_dir;
    saved = saved;
    started = 0;
    chargers = [];
    alive = [];
    fans = [];
    current = none;
    current_cfg = none;
    cancel_charger = none;
    fanout_cancel = none;
    pushed = [];
  }

  -- The charger and its fanout are cancelled, and forgotten.
  unfoldable pub tear_down : Server F → Server F
  tear_down s = record s {
    alive = cancel s.cancel_charger s.alive;
    fans = cancel s.fanout_cancel s.fans;
    cancel_charger = none;
    fanout_cancel = none;
    current = none;
    current_cfg = none;
  }

  -- `Close`, as far as the charger goes; what it does to the dashboards is in Api.Hub.
  abbrev pub close_server : Server F → Server F
  close_server s = tear_down s

  unfoldable pub start_charger : ChargerConfig F → Server F → Server F
  start_charger cfg s =
      let idle : Server F = tear_down s in
      record idle {
        started = suc s.started;
        chargers = (s.started, cfg) ∷ s.chargers;
        alive = s.started ∷ idle.alive;
        fans = s.started ∷ idle.fans;
        current = some s.started;
        current_cfg = some cfg;
        cancel_charger = some s.started;
        fanout_cancel = some s.started;
      }

  abbrev write_saved :
      Written → ChargerConfig F → Option (ChargerConfig F) → Option (ChargerConfig F)
  write_saved whole cfg old = some cfg
  write_saved untouched cfg old = old
  write_saved truncated cfg old = none

  unfoldable pub persist_config : Written → ChargerConfig F → Server F → Server F
  persist_config w cfg s = record s {
    saved = if s.has_dir then write_saved w cfg s.saved else s.saved;
  }

  -- Whether the file could be removed.
  unfoldable pub clear_persisted_config : Bool → Server F → Server F
  clear_persisted_config removed s = record s {
    saved = if s.has_dir then (if removed then none else s.saved) else s.saved;
  }

  unfoldable pub load_persisted_config : Server F → Option (ChargerConfig F)
  load_persisted_config s = if s.has_dir then s.saved else none

  unfoldable pub restore : Option (ChargerConfig F) → Server F → Server F
  restore none s = s
  restore (some cfg) s = start_charger cfg s

  unfoldable pub restore_persisted_charger : Server F → Server F
  unfolding restore
  restore_persisted_charger s = restore (load_persisted_config s) s

  -- The end of the process: by a signal, upon which the server is closed, or at once.
  abbrev pub end_process : Bool → Server F → Server F
  end_process graceful s = if graceful then close_server s else s

  -- The process ends, and a new one comes up over what the old one left.
  unfoldable pub restart : Bool → Server F → Server F
  restart graceful s =
      let ended : Server F = end_process graceful s in
      restore_persisted_charger (new_server ended.has_dir ended.saved)

  -- The configuration that a charger was made from.
  abbrev pub made_from : ℕ → List (ℕ × ChargerConfig F) → Option (ChargerConfig F)
  made_from n [] = none
  made_from n ((m, cfg) ∷ cs) = if m == n then some cfg else made_from n cs
