-- ===== src/Tests/Meters.antt =====
-- internal/sim/meter/meter.go at concrete inputs.
use charger_simulator.Common.{ℕ, [], ◌∷◌, ◌≡◌, refl, not}
use charger_simulator.Meter.Float.{AtMost, IsNonneg}
use charger_simulator.J16.Enums.{voltage}
use charger_simulator.J16.Messages.{MeterValue}
use charger_simulator.Meter.Engine.{Engine, power, sample, start, clamp_soc}
use charger_simulator.Meter.Ocpp.{to_ocpp}
use charger_simulator.Meter.Fault.{no_vip, apply_fault}
use charger_simulator.Meter.FaultLaws.{samples_of, faulted, is_dead_silent, apply_fault_lem}
use charger_simulator.Meter.EngineLaws.{
  IsValid, sample_at, limit_to, run, session_bounds, sample_monotone,
}
use charger_simulator.Actor.New.{new_engine_for_cfg}
use charger_simulator.Tests.Values.{nat_float, nat_laws, test_cfg}

abbrev an_engine : Engine ℕ
an_engine = start 5 100 (new_engine_for_cfg test_cfg)

an_engine-IsValid : IsValid nat_laws an_engine
unfolding start new_engine_for_cfg clamp_soc
an_engine-IsValid = record { limit = refl; soc_low = refl; soc_high = refl }

sample_monotone_example :
    AtMost nat_float an_engine.current_wh (sample 3600000000000 an_engine).current_wh
    × IsValid nat_laws (sample 3600000000000 an_engine)
sample_monotone_example = sample_monotone nat_laws 3600000000000 an_engine an_engine-IsValid

session_bounds_example :
    let e' =
      run (start 9 200 an_engine) (sample_at 3600000000009 ∷ sample_at 5 ∷ limit_to 11000 ∷ []) in
    AtMost nat_float 200 e'.current_wh
    × (IsNonneg nat_float (power e') × AtMost nat_float (power e') e'.max_power_w)
    × (IsNonneg nat_float e'.current_soc × AtMost nat_float e'.current_soc 100)
session_bounds_example =
    session_bounds nat_laws an_engine 9 200
      (sample_at 3600000000009 ∷ sample_at 5 ∷ limit_to 11000 ∷ []) an_engine-IsValid

abbrev a_reading : MeterValue
a_reading = to_ocpp (sample 3600000000000 an_engine).last_snap

apply_fault_lem_example :
    ((apply_fault a_reading no_vip).1 ≡ not (is_dead_silent no_vip))
    × ((apply_fault a_reading no_vip).0.timestamp ≡ a_reading.timestamp)
    × (samples_of voltage (apply_fault a_reading no_vip).0.sampled_value
        ≡ faulted no_vip voltage (samples_of voltage a_reading.sampled_value))
apply_fault_lem_example = apply_fault_lem a_reading no_vip voltage
