-- ===== src/Meter/Fault.antt =====
-- internal/sim/meter/meter.go: energy-meter faults, a filter on the reported values.
use charger_simulator.Common.{
  String, Bool, true, false, ◌||◌, List, [], ◌∷◌, map, if◌then◌else◌, str_eq,
}
use charger_simulator.J16.Enums.{
  Measurand, energy_active_import_register, power_active_import, voltage, current_import, soc,
  temperature, frequency, power_factor,
}
use charger_simulator.J16.Messages.{SampledValue, MeterValue}

-- The string type `Fault`: its constants, the empty string (`unset`), and any other string.
pub data Fault : Type 0 where
  healthy dead_silent dead_empty dead_zero no_current no_vip unset : Fault
  unknown : String → Fault

unfoldable pub fault_of : String → Fault
fault_of s =
    if str_eq s ""
    then unset
    else if str_eq s "none"
    then healthy
    else if str_eq s "dead_silent"
    then dead_silent
    else if str_eq s "dead_empty"
    then dead_empty
    else if str_eq s "dead_zero"
    then dead_zero
    else if str_eq s "no_current"
    then no_current
    else if str_eq s "no_vip"
    then no_vip
    else unknown s

unfoldable pub valid_fault : Fault → Bool
valid_fault (unknown _) = false
valid_fault _ = true

-- `==` on measurands, by their position among the constants.
unfoldable pub eq_measurand : Measurand → Measurand → Bool
eq_measurand energy_active_import_register energy_active_import_register = true
eq_measurand power_active_import power_active_import = true
eq_measurand voltage voltage = true
eq_measurand current_import current_import = true
eq_measurand soc soc = true
eq_measurand temperature temperature = true
eq_measurand frequency frequency = true
eq_measurand power_factor power_factor = true
eq_measurand _ _ = false

unfoldable pub contains_measurand : List Measurand → Measurand → Bool
unfolding eq_measurand
contains_measurand [] m = false
contains_measurand (x ∷ xs) m = eq_measurand x m || contains_measurand xs m

unfoldable pub drop_measurands : List Measurand → List SampledValue → List SampledValue
drop_measurands drop [] = []
drop_measurands drop (sv ∷ rest) =
    let kept = drop_measurands drop rest in
    if contains_measurand drop sv.measurand then kept else sv ∷ kept

abbrev pub zero_value : List Measurand → SampledValue → SampledValue
zero_value zero sv = if contains_measurand zero sv.measurand then record sv { value = "0" } else sv

unfoldable pub zero_measurands : List Measurand → List SampledValue → List SampledValue
zero_measurands zero = map (zero_value zero)

abbrev pub vip : List Measurand
vip = voltage ∷ current_import ∷ power_active_import ∷ []

-- The values to report under a fault, and whether to send the message at all.
unfoldable pub apply_fault : MeterValue → Fault → MeterValue × Bool
apply_fault mv dead_silent = (mv, false)
apply_fault mv dead_empty = (record mv { sampled_value = [] }, true)
apply_fault mv dead_zero =
    (record mv { sampled_value = zero_measurands vip mv.sampled_value }, true)
apply_fault mv no_current =
    (record mv { sampled_value = drop_measurands (current_import ∷ []) mv.sampled_value }, true)
apply_fault mv no_vip = (record mv { sampled_value = drop_measurands vip mv.sampled_value }, true)
apply_fault mv _ = (mv, true)
