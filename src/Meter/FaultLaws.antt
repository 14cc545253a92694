-- ===== src/Meter/FaultLaws.antt =====
-- internal/sim/meter/meter.go: what each fault does to the values of each measurand.
use charger_simulator.Common.{
  Bool, true, false, List, [], ◌∷◌, map, if◌then◌else◌, ◌≡◌, refl, arith, not,
}
use charger_simulator.J16.Enums.{Measurand, power_active_import, voltage, current_import}
use charger_simulator.J16.Messages.{SampledValue, MeterValue}
use charger_simulator.Meter.Fault.{
  Fault, dead_silent, dead_empty, dead_zero, no_current, no_vip, eq_measurand, contains_measurand,
  drop_measurands, zero_measurands, vip, apply_fault,
}

-- The samples of one measurand, in order.
pub samples_of : Measurand → List SampledValue → List SampledValue
samples_of m [] = []
samples_of m (sv ∷ rest) =
    let others = samples_of m rest in if eq_measurand sv.measurand m then sv ∷ others else others

-- Voltage, current and power: the channels of the meter that a fault may take down.
abbrev pub is_instant : Measurand → Bool
is_instant voltage = true
is_instant current_import = true
is_instant power_active_import = true
is_instant _ = false

abbrev zeroed : SampledValue → SampledValue
zeroed sv = record sv { value = "0" }

-- What is left of the samples of one measurand under a fault.
abbrev pub faulted : Fault → Measurand → List SampledValue → List SampledValue
faulted dead_empty m svs = []
faulted dead_zero m svs = if is_instant m then map zeroed svs else svs
faulted no_current m svs = if eq_measurand current_import m then [] else svs
faulted no_vip m svs = if is_instant m then [] else svs
faulted _ m svs = svs

abbrev pub is_dead_silent : Fault → Bool
is_dead_silent dead_silent = true
is_dead_silent _ = false

contains_vip : (m : Measurand) → contains_measurand vip m ≡ is_instant m
unfolding contains_measurand eq_measurand
contains_vip voltage = refl
contains_vip _ = refl

eq_measurand-eq : (a b : Measurand) → eq_measurand a b ≡ true → a ≡ b
unfolding eq_measurand
eq_measurand-eq a b h = ground arith

samples_of-drop :
    (drop : List Measurand) (m : Measurand) (svs : List SampledValue)
    → samples_of m (drop_measurands drop svs)
      ≡ (if contains_measurand drop m then [] else samples_of m svs)
unfolding samples_of drop_measurands
samples_of-drop drop m [] = ground arith
samples_of-drop drop m (sv ∷ svs) =
    ground (arith, samples_of-drop drop m svs, eq_measurand-eq sv.measurand m)

samples_of-zero :
    (zero : List Measurand) (m : Measurand) (svs : List SampledValue)
    → samples_of m (zero_measurands zero svs)
      ≡ (if contains_measurand zero m then map zeroed (samples_of m svs) else samples_of m svs)
unfolding samples_of zero_measurands
samples_of-zero zero m [] = ground arith
samples_of-zero zero m (sv ∷ svs) =
    ground (arith, samples_of-zero zero m svs, eq_measurand-eq sv.measurand m)

contains_current :
    (m : Measurand) → contains_measurand (current_import ∷ []) m ≡ eq_measurand current_import m
unfolding contains_measurand eq_measurand
contains_current voltage = refl
contains_current _ = refl

-- What each fault reports: it keeps the timestamp, sends nothing exactly if it is `dead_silent`, and
-- of the samples of every measurand leaves those that `faulted` tells: none under `dead_empty`;
-- voltage, current and power at "0" under `dead_zero` and gone under `no_vip`; current gone under
-- `no_current`; all else, the energy register and the state of charge with it, unchanged.
pub apply_fault_lem :
    (mv : MeterValue) (f : Fault) (m : Measurand)
    → ((apply_fault mv f).1 ≡ not (is_dead_silent f))
      × ((apply_fault mv f).0.timestamp ≡ mv.timestamp)
      × (samples_of m (apply_fault mv f).0.sampled_value
          ≡ faulted f m (samples_of m mv.sampled_value))
unfolding apply_fault
apply_fault_lem mv dead_zero m =
    (refl, refl, rw (samples_of-zero vip m mv.sampled_value, contains_vip m) refl)
apply_fault_lem mv no_vip m =
    (refl, refl, rw (samples_of-drop vip m mv.sampled_value, contains_vip m) refl)
apply_fault_lem mv no_current m = (
  refl,
  refl,
  rw (samples_of-drop (current_import ∷ []) m mv.sampled_value, contains_current m) refl,
)
apply_fault_lem mv dead_empty m = (refl, refl, unfold samples_of in refl)
apply_fault_lem mv _ m = (refl, refl, refl)
