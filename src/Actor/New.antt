-- ===== src/Actor/New.antt =====
-- internal/actor/charger.go: the construction of a charger.
use charger_simulator.Common.{ℕ, zero, suc, false, List, [], ◌∷◌, Option, none, if◌then◌else◌}
use charger_simulator.Common.Int.{ℤ, pos, negsuc}
use charger_simulator.Config.{ChargerConfig, is_dc}
use charger_simulator.J16.Enums.{available, no_error}
use charger_simulator.Meter.Float.{Float}
use charger_simulator.Meter.Engine.{Engine, mode_ac, mode_dc, zero_snapshot}
use charger_simulator.Meter.Fault.{healthy}
use charger_simulator.Session.Store.{FileStore}
use charger_simulator.Actor.State.{CpState, Connector, Charger, Env}
use charger_simulator.Actor.Snapshot.{publish_snapshot}

-- One or two connectors.
abbrev pub clamp_count : ℤ → ℕ
clamp_count (pos zero) = 1
clamp_count (pos (suc zero)) = 1
clamp_count (pos (suc (suc n))) = 2
clamp_count (negsuc n) = 1

module _ {F : Type 0} ⦃fl : Float F⦄ where
  unfoldable pub new_engine_for_cfg : ChargerConfig F → Engine F
  new_engine_for_cfg cfg = record {
    mode = if is_dc cfg then mode_dc else mode_ac;
    max_power_w = cfg.max_power_w;
    nominal_v = cfg.nominal_voltage_v;
    phases = cfg.phases;
    power_factor = cfg.power_factor;
    phase_sag_ohm = fl.decimal 2 2;
    battery_capacity_kwh = cfg.battery_capacity_kwh;
    initial_soc = cfg.initial_soc;
    started_at = none;
    start_energy_wh = fl.of_ℕ 0;
    current_wh = fl.of_ℕ 0;
    current_soc = fl.of_ℕ 0;
    last_sample_at = none;
    last_snap = zero_snapshot;
  }

  abbrev pub new_connector : ChargerConfig F → ℤ → Connector F
  new_connector cfg id = record {
    id = id;
    status = available;
    error_code = no_error;
    tx_id = pos 0;
    start_pending = false;
    session_started_at = none;
    session_start_wh = pos 0;
    session_id_tag = "";
    meter_eng = new_engine_for_cfg cfg;
    meter_fault = healthy;
  }

  -- Connectors `i` to `i + n - 1`.
  unfoldable pub new_connectors : ChargerConfig F → ℕ → ℕ → List (Connector F)
  new_connectors cfg i zero = []
  new_connectors cfg i (suc n) = new_connector cfg (pos i) ∷ new_connectors cfg (suc i) n

  unfoldable pub new_charger : Env → ChargerConfig F → Option FileStore → Charger F
  new_charger env cfg store = publish_snapshot env (record {
    cfg = cfg;
    ws = record { dialled = false; closed = false };
    cp_state = CpState.booting;
    boot_interval = cfg.heartbeat_interval;
    offline = false;
    connectors = new_connectors cfg 1 (clamp_count cfg.num_connectors);
    pending = [];
    cmd_ch = [];
    events = [];
    snapshot = none;
    store = store;
    wire = [];
    ticks = 0;
  })
