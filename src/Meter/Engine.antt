-- ===== src/Meter/Engine.antt =====
-- internal/sim/meter/meter.go: the engine of one connector's meter. Times are nanoseconds; the zero
-- `time.Time` is `none`.
use charger_simulator.Common.{
  ℕ, zero, suc, ◌/◌, ◌%◌, Bool, true, false, ◌&&◌, not, Option, none, some, if◌then◌else◌,
}
use charger_simulator.Common.Int.{ℤ, pos, negsuc, eq_ℤ, sub_ℕ}
use charger_simulator.Meter.Float.{Float}

pub data Mode : Type 0 where
  mode_ac mode_dc : Mode

abbrev pub is_mode_dc : Mode → Bool
is_mode_dc mode_dc = true
is_mode_dc mode_ac = false

-- The instantaneous reading produced by `sample`.
pub record Snapshot (F : Type 0) : Type 0 where
  pub at : Option ℕ
  pub mode : Mode
  pub energy_wh : F
  pub power_w : F
  pub voltage_v : F
  pub current_a : F
  pub soc : F
  pub phases : ℤ
  pub p_factor : F

pub record Engine (F : Type 0) : Type 0 where
  pub mode : Mode
  pub max_power_w : F
  pub nominal_v : F
  pub phases : ℤ
  pub power_factor : F
  pub phase_sag_ohm : F
  pub battery_capacity_kwh : F
  pub initial_soc : F
  pub started_at : Option ℕ
  pub start_energy_wh : F
  pub current_wh : F
  pub current_soc : F
  pub last_sample_at : Option ℕ
  pub last_snap : Snapshot F

abbrev minus : ℕ → ℤ
minus zero = pos 0
minus (suc n) = negsuc n

module _ {F : Type 0} ⦃fl : Float F⦄ where
  abbrev pub zero_snapshot : Snapshot F
  zero_snapshot = record {
    at = none;
    mode = mode_ac;
    energy_wh = fl.of_ℕ 0;
    power_w = fl.of_ℕ 0;
    voltage_v = fl.of_ℕ 0;
    current_a = fl.of_ℕ 0;
    soc = fl.of_ℕ 0;
    phases = pos 0;
    p_factor = fl.of_ℕ 0;
  }

  unfoldable pub clamp_soc : F → F
  clamp_soc v =
      if fl.lt v (fl.of_ℕ 0) then fl.of_ℕ 0 else if fl.lt (fl.of_ℕ 100) v then fl.of_ℕ 100 else v

  unfoldable pub start : ℕ → F → Engine F → Engine F
  start at wh e = record e {
    started_at = some at;
    start_energy_wh = wh;
    current_wh = wh;
    last_sample_at = some at;
    current_soc = if is_mode_dc e.mode then clamp_soc e.initial_soc else fl.of_ℕ 0;
  }

  unfoldable pub set_max_power : F → Engine F → Engine F
  set_max_power w e = record e { max_power_w = if fl.lt w (fl.of_ℕ 0) then fl.of_ℕ 0 else w }

  -- Constant power up to 80 % state of charge, then a linear taper to 0 at 100 %.
  unfoldable pub power : Engine F → F
  power e =
      if not (is_mode_dc e.mode)
      then e.max_power_w
      else if fl.lt e.current_soc (fl.of_ℕ 80)
      then e.max_power_w
      else if not (fl.lt e.current_soc (fl.of_ℕ 100))
      then fl.of_ℕ 0
      else fl.mul e.max_power_w (fl.div (fl.sub (fl.of_ℕ 100) e.current_soc) (fl.of_ℕ 20))

  unfoldable pub ac_snapshot : ℕ → F → Engine F → Snapshot F
  ac_snapshot at pw e =
      let phases : ℤ = if eq_ℤ e.phases (pos 0) then pos 1 else e.phases in
      let pf : F = if fl.eq e.power_factor (fl.of_ℕ 0) then fl.of_ℕ 1 else e.power_factor in
      let factor : F = if eq_ℤ phases (pos 3) then fl.sqrt (fl.of_ℕ 3) else fl.of_ℕ 1 in
      let current : F =
        if fl.lt (fl.of_ℕ 0) e.nominal_v && fl.lt (fl.of_ℕ 0) pf
        then fl.div pw (fl.mul (fl.mul e.nominal_v pf) factor)
        else fl.of_ℕ 0 in
      record {
        at = some at;
        mode = mode_ac;
        energy_wh = e.current_wh;
        power_w = pw;
        voltage_v = fl.sub e.nominal_v (fl.mul e.phase_sag_ohm current);
        current_a = current;
        soc = fl.of_ℕ 0;
        phases = phases;
        p_factor = pf;
      }

  unfoldable pub dc_snapshot : ℕ → F → Engine F → Snapshot F
  dc_snapshot at pw e =
      let frac : F =
        fl.add (fl.decimal 80 2) (fl.mul (fl.decimal 25 2) (fl.div e.current_soc (fl.of_ℕ 100))) in
      let voltage : F = fl.mul e.nominal_v frac in
      record {
        at = some at;
        mode = mode_dc;
        energy_wh = e.current_wh;
        power_w = pw;
        voltage_v = voltage;
        current_a = if fl.lt (fl.of_ℕ 0) voltage then fl.div pw voltage else fl.of_ℕ 0;
        soc = e.current_soc;
        phases = pos 0;
        p_factor = fl.of_ℕ 0;
      }

  -- `Duration.Seconds`: the whole seconds and the rest are both cut towards 0.
  abbrev pub seconds : ℤ → F
  seconds (pos d) =
      fl.add (fl.of_ℕ (d / 1000000000)) (fl.div (fl.of_ℕ (d % 1000000000)) (fl.of_ℕ 1000000000))
  seconds (negsuc d) =
      fl.add (fl.of_int (minus (suc d / 1000000000)))
        (fl.div (fl.of_int (minus (suc d % 1000000000))) (fl.of_ℕ 1000000000))

  -- The energy of `dt` seconds at power `pw`, and the state of charge that it gives a battery.
  unfoldable pub integrate : F → F → Engine F → Engine F
  integrate pw dt e =
      let wh : F = fl.add e.current_wh (fl.div (fl.mul pw dt) (fl.of_ℕ 3600)) in
      let delivered : F = fl.div (fl.sub wh e.start_energy_wh) (fl.of_ℕ 1000) in
      record e {
        current_wh = wh;
        current_soc =
            if is_mode_dc e.mode && fl.lt (fl.of_ℕ 0) e.battery_capacity_kwh
            then clamp_soc (
                fl.add e.initial_soc
                  (fl.mul (fl.div delivered e.battery_capacity_kwh) (fl.of_ℕ 100)))
            else e.current_soc;
      }

  -- `at.Sub(e.lastSampleAt)` is negative for a sample that lies before the last one. Spans of more than
  -- 2 ^ 63 nanoseconds, at which it saturates, are not cut.
  unfoldable pub advance : Option ℕ → ℕ → F → Engine F → Engine F
  advance none at pw e = e
  advance (some last) at pw e =
      let dt : F = seconds (sub_ℕ at last) in if fl.lt (fl.of_ℕ 0) dt then integrate pw dt e else e

  unfoldable pub sampled : ℕ → Engine F → Engine F
  sampled at e = record (advance e.last_sample_at at (power e) e) { last_sample_at = some at }

  unfoldable pub sample : ℕ → Engine F → Engine F
  sample at e =
      let e' : Engine F = sampled at e in
      record e' {
        last_snap =
            if is_mode_dc e.mode then dc_snapshot at (power e) e' else ac_snapshot at (power e) e';
      }
