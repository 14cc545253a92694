-- ===== src/Api/Configured.antt =====
-- internal/api/server.go and internal/api/persist.go: what handleConfigure accepts, and what is left of
-- it after a restart.
use charger_simulator.Common.{
  ℕ, ◌==◌, String, str_eq, Bool, true, false, not, Option, some, ◌≡◌, ◌≢◌, refl, arith, ◌⊎◌, sym,
  ap, not-true, eq_iff,
}
use Prim.Native.String.{◌++◌}
use charger_simulator.Common.Int.{ℤ, pos}
use charger_simulator.Config.{ChargerConfig, ChargerType, ac, dc}
use charger_simulator.Meter.Float.{Float, FloatLaws, AtMost}
use charger_simulator.Meter.EngineLaws.{IsValid}
use charger_simulator.Actor.New.{new_engine_for_cfg}
use charger_simulator.Api.Strings.{trim_space, trim_slashes}
use charger_simulator.Api.Server.{Server, Written, whole, made_from}
use charger_simulator.Api.Requests.{
  ConfigureRequest, BadRequest, Checked, accepted, refused, ◌>>=◌, no_cms_url, no_cpid, bad_max_kw,
  bad_voltage, positive, check_configure, config_of, refuse_if, charger_type_of, check_electrical,
  connector_count,
}
use charger_simulator.Api.Handlers.{Response, success}

pub same_number : (n : ℕ) → (n == n) ≡ true
same_number n = ground arith

-- A step that is passed gives its value to the rest.
pub bound {ℓ κ} :
    {A : Type ℓ} {B : Type κ} (m : Checked A) (k : A → Checked B) (b : B)
    → (m >>= k) ≡ accepted b
    → (a : A) × (m ≡ accepted a) × (k a ≡ accepted b)
bound (accepted a) k b e = (a, refl, e)
bound (refused r) k b e = cc e

passed : (b : Bool) (r : BadRequest) → refuse_if b r ≡ accepted tt → b ≡ false
passed true r e = cc e
passed false r e = refl

accepted-inj : {F : Type 0} (a b : ChargerConfig F) → accepted a ≡ accepted b → a ≡ b
accepted-inj a b e = cc e

named : (s : String) → str_eq s "" ≡ false → s ≢ ""
named s e same = ground (arith, e, same, eq_iff s "")

module _ {F : Type 0} ⦃fl : Float F⦄ where
  -- What the electrical model of a charger needs, by its type.
  abbrev pub IsElectrical : ChargerType → ChargerConfig F → Type 0
  IsElectrical ac cfg = (cfg.phases ≡ pos 1) ⊎ (cfg.phases ≡ pos 3)
  IsElectrical dc cfg =
      (cfg.phases ≡ pos 0)
      × (positive cfg.battery_capacity_kwh ≡ true)
      × AtMost fl (fl.of_ℕ 0) cfg.initial_soc
      × AtMost fl cfg.initial_soc (fl.of_ℕ 100)

  -- The configuration that a request asks for: of a named charge point, at that point's address below
  -- the one of the CMS, with the power limit in watts, which the request gives in kilowatts, and all
  -- that its charger can be made from.
  abbrev pub IsUsable : ConfigureRequest F → ChargerConfig F → Type 0
  IsUsable req cfg =
      (cfg.cpid ≡ trim_space req.cpid)
      × (cfg.cpid ≢ "")
      × (trim_space req.cms_url ≢ "")
      × (cfg.cms_url ≡ trim_slashes (trim_space req.cms_url) ++ ("/" ++ cfg.cpid))
      × (positive req.max_kw ≡ true)
      × (cfg.max_power_w ≡ fl.mul req.max_kw (fl.of_ℕ 1000))
      × (positive cfg.nominal_voltage_v ≡ true)
      × (cfg.nominal_voltage_v ≡ req.voltage)
      × ((cfg.num_connectors ≡ pos 1) ⊎ (cfg.num_connectors ≡ pos 2))
      × IsElectrical cfg.charger_type cfg

  -- How a request to configure ends.
  abbrev pub IsConfigured :
      Bool → Written → Option (ConfigureRequest F) → Server F → Server F × Response → Type 0
  IsConfigured post w body s (s', r) =
      ((r ≡ success)
        × (post ≡ true)
        × (req : ConfigureRequest F) × (cfg : ChargerConfig F) × (body ≡ some req)
        × IsUsable req cfg
        × (s'.current_cfg ≡ some cfg)
        × (s'.current ≡ some s.started)
        × (made_from s.started s'.chargers ≡ some cfg)
        × (s.has_dir ≡ true → w ≡ whole → s'.saved ≡ some cfg))
      ⊎ ((r ≢ success) × (s' ≡ s))

  -- What each check has let through.
  checks_lem :
      (req : ConfigureRequest F) (cfg : ChargerConfig F)
      → check_configure req ≡ accepted cfg
      → (type : ChargerType) × (phases : ℤ) × (n : ℤ) × (trim_space req.cms_url ≢ "")
        × (trim_space req.cpid ≢ "")
        × (positive req.max_kw ≡ true)
        × (positive req.voltage ≡ true)
        × (check_electrical type req ≡ accepted phases)
        × (connector_count req.num_connectors ≡ accepted n)
        × (config_of req type phases n ≡ cfg)
  unfolding check_configure
  checks_lem req cfg e =
      let (_, url, e₁) =
        bound (refuse_if (str_eq (trim_space req.cms_url) "") no_cms_url) _ cfg e in
      let (_, id, e₂) = bound (refuse_if (str_eq (trim_space req.cpid) "") no_cpid) _ cfg e₁ in
      let (_, kw, e₃) = bound (refuse_if (not (positive req.max_kw)) bad_max_kw) _ cfg e₂ in
      let (_, volts, e₄) = bound (refuse_if (not (positive req.voltage)) bad_voltage) _ cfg e₃ in
      let (type, typed, e₅) = bound (charger_type_of req.charger_type) _ cfg e₄ in
      let (phases, electrical, e₆) = bound (check_electrical type req) _ cfg e₅ in
      let (n, counted, e₇) = bound (connector_count req.num_connectors) _ cfg e₆ in
      (
        type,
        phases,
        n,
        named (trim_space req.cms_url) (passed _ no_cms_url url),
        named (trim_space req.cpid) (passed _ no_cpid id),
        not-true (positive req.max_kw) (passed _ bad_max_kw kw),
        not-true (positive req.voltage) (passed _ bad_voltage volts),
        electrical,
        counted,
        accepted-inj (config_of req type phases n) cfg e₇,
      )

  limit_lem :
      (req : ConfigureRequest F) (cfg : ChargerConfig F)
      → check_configure req ≡ accepted cfg
      → (positive req.max_kw ≡ true) × (cfg.max_power_w ≡ fl.mul req.max_kw (fl.of_ℕ 1000))
  unfolding config_of
  limit_lem req cfg e =
      let (type, phases, n, _, _, kw, _, _, _, same) = checks_lem req cfg e in
      (kw, sym (ap (λ (c : ChargerConfig F). c.max_power_w) same))

  -- The meter of every connector that an accepted configuration makes starts out valid: its power
  -- limit is not negative, and its state of charge lies between 0 and 100.
  pub configured_engine-IsValid :
      (laws : FloatLaws fl) (req : ConfigureRequest F) (cfg : ChargerConfig F)
      → check_configure req ≡ accepted cfg
      → IsValid laws (new_engine_for_cfg cfg)
  unfolding new_engine_for_cfg
  configured_engine-IsValid laws req cfg e =
      let (kw, limit) = limit_lem req cfg e in
      record {
        limit =
            rw limit
              (laws.mul_nonneg _ _ (laws.lt_asymm _ _ kw) (laws.of_ℕ-le 0 1000 (omega arith)));
        soc_low = laws.le_refl _;
        soc_high = laws.of_ℕ-le 0 100 (omega arith);
      }
