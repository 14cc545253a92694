-- ===== src/Meter/Ocpp.antt =====
-- internal/sim/meter/meter.go: a reading as an OCPP MeterValue.
use charger_simulator.Common.{ℕ, String, List, [], ◌∷◌, ◌++◌, Option, none, some, if◌then◌else◌}
use charger_simulator.Common.Int.{pos, eq_ℤ}
use charger_simulator.Common.Itoa.{itoa}
use charger_simulator.J16.Enums.{
  Measurand, energy_active_import_register, power_active_import, voltage, current_import, soc,
  sample_periodic, Location, UnitOfMeasure, Phase, l1, l2, l3, l1_n,
}
use charger_simulator.J16.Messages.{SampledValue, MeterValue}
use charger_simulator.Meter.Float.{Float}
use charger_simulator.Meter.Engine.{Snapshot, is_mode_dc}

-- Every sample has the periodic context.
abbrev periodic : String → Measurand → Option Phase → UnitOfMeasure → Location → SampledValue
periodic value m phase unit location = record {
  value = value;
  context = sample_periodic;
  measurand = m;
  phase = phase;
  location = location;
  unit = unit;
}

-- The timestamp of a reading, which every sample has.
abbrev stamp : Option ℕ → ℕ
stamp none = 0
stamp (some t) = t

module _ {F : Type 0} ⦃fl : Float F⦄ where
  abbrev energy_power : Snapshot F → List SampledValue
  energy_power s =
      periodic (itoa (fl.to_int s.energy_wh)) energy_active_import_register none UnitOfMeasure.wh
        Location.outlet
      ∷ periodic (fl.format 1 s.power_w) power_active_import none UnitOfMeasure.w Location.outlet
      ∷ []

  abbrev volts : Snapshot F → Option Phase → SampledValue
  volts s p = periodic (fl.format 1 s.voltage_v) voltage p UnitOfMeasure.v Location.outlet

  abbrev amps : Snapshot F → Option Phase → SampledValue
  amps s p = periodic (fl.format 2 s.current_a) current_import p UnitOfMeasure.a Location.outlet

  abbrev per_phase : Snapshot F → List Phase → List SampledValue
  per_phase s [] = []
  per_phase s (p ∷ ps) = volts s (some p) ∷ amps s (some p) ∷ per_phase s ps

  unfoldable pub to_ocpp_ac : Snapshot F → List SampledValue
  to_ocpp_ac s =
      energy_power s
      ++ (if eq_ℤ s.phases (pos 1)
          then volts s (some l1_n) ∷ amps s (some l1) ∷ []
          else per_phase s (l1 ∷ l2 ∷ l3 ∷ []))

  unfoldable pub to_ocpp_dc : Snapshot F → List SampledValue
  to_ocpp_dc s =
      energy_power s
      ++ (volts s none
          ∷ amps s none
          ∷ periodic (fl.format 1 s.soc) soc none UnitOfMeasure.percent Location.ev
          ∷ [])

  unfoldable pub to_ocpp : Snapshot F → MeterValue
  unfolding to_ocpp_ac to_ocpp_dc
  to_ocpp s = record {
    timestamp = stamp s.at;
    sampled_value = if is_mode_dc s.mode then to_ocpp_dc s else to_ocpp_ac s;
  }
