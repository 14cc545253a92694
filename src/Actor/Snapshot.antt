-- ===== src/Actor/Snapshot.antt =====
-- internal/actor/charger.go: the event stream and the published snapshot.
use charger_simulator.Common.{
  ℕ, ◌/◌, String, Bool, true, false, not, ◌&&◌, List, [], ◌∷◌, ◌++◌, map, Option, none, some,
  is_some, if◌then◌else◌, ltb, length,
}
use charger_simulator.Common.Int.{ℤ, pos, eq_ℤ, leb_ℤ, ◌-ℤ◌}
use charger_simulator.J16.Enums.{ChargePointErrorCode, no_error}
use charger_simulator.Meter.Float.{Float}
use charger_simulator.Meter.Fault.{Fault, healthy, unset}
use charger_simulator.Actor.State.{
  CpState, Connector, ConnectorSnapshot, StateSnapshot, Event, state_event, log_event, Charger, Env,
}
use charger_simulator.Actor.Connectors.{find_connector}

abbrev pub is_online : CpState → Bool
is_online CpState.online = true
is_online _ = false

-- A non-blocking send on a channel of capacity `cap`.
unfoldable pub offer {ℓ} : {A : Type ℓ} → ℕ → A → List A → List A
offer cap a queue = if ltb (length queue) cap then queue ++ a ∷ [] else queue

abbrev pub event_cap : ℕ
event_cap = 256

abbrev shown_error : ChargePointErrorCode → Option ChargePointErrorCode
shown_error no_error = none
shown_error e = some e

abbrev shown_fault : Fault → Option Fault
shown_fault healthy = none
shown_fault unset = none
shown_fault f = some f

abbrev unix : Option ℕ → ℕ
unix none = 0
unix (some t) = t / 1000000000

module _ {F : Type 0} ⦃fl : Float F⦄ where
  -- The reading of the last sample, or 0 before the first one.
  abbrev last_or_zero : Option ℕ → F → F
  last_or_zero none x = fl.of_ℕ 0
  last_or_zero (some _) x = x

  unfoldable pub connector_snapshot : F → Connector F → ConnectorSnapshot F
  connector_snapshot max_power_w cn =
      let energy : ℤ = fl.to_int cn.meter_eng.current_wh in
      let last = cn.meter_eng.last_snap in
      let in_session : Bool = not (eq_ℤ cn.tx_id (pos 0)) && is_some cn.session_started_at in
      record {
        id = cn.id;
        status = cn.status;
        error_code = shown_error cn.error_code;
        transaction_id = cn.tx_id;
        id_tag = if in_session then cn.session_id_tag else "";
        energy_wh = energy;
        power_w = last_or_zero last.at last.power_w;
        voltage_v = last_or_zero last.at last.voltage_v;
        current_a = last_or_zero last.at last.current_a;
        soc = last_or_zero last.at last.soc;
        session_start_unix = if in_session then unix cn.session_started_at else 0;
        session_energy_wh = if in_session then energy -ℤ cn.session_start_wh else pos 0;
        max_power_w_configured = max_power_w;
        max_power_w_current = cn.meter_eng.max_power_w;
        meter_fault = shown_fault cn.meter_fault;
      }

  -- `sort.Slice` by id; the ids are distinct.
  abbrev insert_by_id :
      ConnectorSnapshot F → List (ConnectorSnapshot F) → List (ConnectorSnapshot F)
  insert_by_id s [] = s ∷ []
  insert_by_id s (t ∷ ts) =
      let rest = insert_by_id s ts in if leb_ℤ s.id t.id then s ∷ t ∷ ts else t ∷ rest

  abbrev sort_by_id : List (ConnectorSnapshot F) → List (ConnectorSnapshot F)
  sort_by_id [] = []
  sort_by_id (s ∷ ss) = insert_by_id s (sort_by_id ss)

  -- `mirrorConnectorToTopLevel` copies the fields of connector 1's view.
  abbrev mirrored : F → Option (Connector F) → Option (ConnectorSnapshot F)
  mirrored w none = none
  mirrored w (some cn) = some (connector_snapshot w cn)

  unfoldable pub build_snapshot : Env → Charger F → StateSnapshot F
  build_snapshot env c = record {
    cpid = c.cfg.cpid;
    vendor = c.cfg.vendor;
    model = c.cfg.model;
    cms_url = c.cfg.cms_url;
    charger_type = c.cfg.charger_type;
    num_connectors = length c.connectors;
    phases = c.cfg.phases;
    nominal_v = c.cfg.nominal_voltage_v;
    connected = is_online c.cp_state;
    cp_state = c.cp_state;
    connectors = sort_by_id (map (connector_snapshot c.cfg.max_power_w) c.connectors);
    mirror = mirrored c.cfg.max_power_w (find_connector (pos 1) c.connectors);
    updated_at = env.now c.ticks / 1000000000;
  }

  abbrev pub emit : Event F → Charger F → Charger F
  emit e c = record c { events = offer event_cap e c.events }

  abbrev pub emit_log : String → String → Charger F → Charger F
  emit_log level msg = emit (log_event level msg)

  abbrev pub publish_snapshot : Env → Charger F → Charger F
  publish_snapshot env c =
      let snap : StateSnapshot F = build_snapshot env c in
      emit (state_event snap) (record c { snapshot = some snap })
