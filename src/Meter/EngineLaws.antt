-- ===== src/Meter/EngineLaws.antt =====
-- internal/sim/meter/meter.go: power bounds, the monotone energy register, the range of the state of
-- charge.
use charger_simulator.Common.{
  ℕ, true, ◌&&◌, Option, none, some, List, [], ◌∷◌, ◌≡◌, arith, inl, inr, Bool-cases,
}
use charger_simulator.Common.Int.{sub_ℕ}
use charger_simulator.Meter.Float.{Float, FloatLaws, AtMost, IsNonneg}
use charger_simulator.Meter.Engine.{
  Engine, is_mode_dc, clamp_soc, start, set_max_power, power, integrate, advance, sampled, sample,
  seconds,
}

-- The calls that reach an engine within a session: samples at any times, new power limits.
pub data Call (F : Type 0) : Type 0 where
  sample_at : ℕ → Call F
  limit_to : F → Call F

abbrev pub run : {F : Type 0} ⦃fl : Float F⦄ → Engine F → List (Call F) → Engine F
run e [] = e
run e (sample_at at ∷ calls) = run (sample at e) calls
run e (limit_to w ∷ calls) = run (set_max_power w e) calls

module _ {F : Type 0} ⦃fl : Float F⦄ (laws : FloatLaws fl) where
  open laws use {lt_asymm, le_refl, le_trans, of_ℕ-le, le-add, sub_nonneg, mul_nonneg, mul-le}
  open laws use {div_nonneg, div-le_one, sub-le}

  InRange : F → Type 0
  InRange soc = IsNonneg fl soc × AtMost fl soc (fl.of_ℕ 100)

  clamp_soc-InRange : (v : F) → IsNonneg fl (clamp_soc v) × AtMost fl (clamp_soc v) (fl.of_ℕ 100)
  unfolding clamp_soc
  clamp_soc-InRange v = ground (arith, le_refl (fl.of_ℕ 0), le_refl (fl.of_ℕ 100), of_ℕ-le 0 100)

  -- The taper factor lies in [0, 1] between 80 % and 100 %.
  taper_bounds :
      (soc : F)
      → AtMost fl (fl.of_ℕ 80) soc
      → fl.lt soc (fl.of_ℕ 100) ≡ true
      → let factor = fl.div (fl.sub (fl.of_ℕ 100) soc) (fl.of_ℕ 20) in
        IsNonneg fl factor × AtMost fl factor (fl.of_ℕ 1)
  taper_bounds soc lo hi = (
    div_nonneg _ 20 (sub_nonneg _ _ (lt_asymm _ _ hi)) (omega arith),
    div-le_one _ 20 (sub-le 100 80 soc (omega arith) lo) (omega arith),
  )

  -- What holds of an engine between two operations: no negative power limit, and a state of charge
  -- between 0 and 100.
  pub record IsValid (e : Engine F) : Type 0 where
    pub limit : IsNonneg fl e.max_power_w
    pub soc_low : IsNonneg fl e.current_soc
    pub soc_high : AtMost fl e.current_soc (fl.of_ℕ 100)

  -- The power of a valid engine lies between 0 and its limit.
  pub power_bounds :
      (e : Engine F) → IsValid e → IsNonneg fl (power e) × AtMost fl (power e) e.max_power_w
  unfolding power
  power_bounds e v = elim (Bool-cases (is_mode_dc e.mode)) [
    | inr ac ↦ rw (ac) (v.limit, le_refl _)
    | inl dc ↦ rw (dc) (elim (Bool-cases (fl.lt e.current_soc (fl.of_ℕ 80))) [
      | inl low ↦ rw low (v.limit, le_refl _)
      | inr high ↦ rw high (elim (Bool-cases (fl.lt e.current_soc (fl.of_ℕ 100))) [
        | inr full ↦ rw full (le_refl _, v.limit)
        | inl taper ↦
            let bounds = taper_bounds e.current_soc high taper in
            rw taper (mul_nonneg _ _ v.limit bounds.0, mul-le _ _ v.limit bounds.1)
      ])
    ])
  ]

  integrate_lem :
      (pw dt : F) (e : Engine F)
      → IsNonneg fl pw
      → IsNonneg fl dt
      → IsValid e
      → AtMost fl e.current_wh (integrate pw dt e).current_wh × IsValid (integrate pw dt e)
  unfolding integrate
  integrate_lem pw dt e p d v = (
    le-add _ _ (div_nonneg _ 3600 (mul_nonneg _ _ p d) (omega arith)),
    record { limit = v.limit; soc_low = soc_range.0; soc_high = soc_range.1 },
  )
    where
      soc_range :
          IsNonneg fl (integrate pw dt e).current_soc
          × AtMost fl (integrate pw dt e).current_soc (fl.of_ℕ 100)
      soc_range =
          elim (Bool-cases (is_mode_dc e.mode && fl.lt (fl.of_ℕ 0) e.battery_capacity_kwh)) [
            | inl dc ↦ rw dc (clamp_soc-InRange _)
            | inr ac ↦ rw ac (v.soc_low, v.soc_high)
          ]

  advance_lem :
      (last : Option ℕ) (at : ℕ) (pw : F) (e : Engine F)
      → IsNonneg fl pw
      → IsValid e
      → AtMost fl e.current_wh (advance last at pw e).current_wh × IsValid (advance last at pw e)
  unfolding advance
  advance_lem none at pw e p v = (le_refl _, v)
  advance_lem (some last) at pw e p v =
      elim (Bool-cases (fl.lt (fl.of_ℕ 0) (seconds (sub_ℕ at last)))) [
        | inl later ↦ rw later (integrate_lem pw _ e p (lt_asymm _ _ later) v)
        | inr not_later ↦ rw not_later (le_refl _, v)
      ]

  -- Sampling a valid engine, at any time, never lowers the energy register, and keeps the engine valid.
  pub sample_monotone :
      (at : ℕ) (e : Engine F)
      → IsValid e
      → AtMost fl e.current_wh (sample at e).current_wh × IsValid (sample at e)
  unfolding sample sampled
  sample_monotone at e v =
      let (grows, valid) = advance_lem e.last_sample_at at (power e) e (power_bounds e v).0 v in
      (grows, record { limit = valid.limit; soc_low = valid.soc_low; soc_high = valid.soc_high })

  pub start-IsValid : (at : ℕ) (wh : F) (e : Engine F) → IsValid e → IsValid (start at wh e)
  unfolding start
  start-IsValid at wh e v = elim (Bool-cases (is_mode_dc e.mode)) [
    | inl dc ↦ record {
      limit = v.limit;
      soc_low = rw dc (clamp_soc-InRange e.initial_soc).0;
      soc_high = rw dc (clamp_soc-InRange e.initial_soc).1;
    }
    | inr ac ↦ record {
      limit = v.limit;
      soc_low = rw ac (le_refl _);
      soc_high = rw ac (of_ℕ-le 0 100 (omega arith));
    }
  ]

  pub set_max_power-IsValid : (w : F) (e : Engine F) → IsValid e → IsValid (set_max_power w e)
  unfolding set_max_power
  set_max_power-IsValid w e v = record {
    limit = ground (arith, le_refl (fl.of_ℕ 0));
    soc_low = v.soc_low;
    soc_high = v.soc_high;
  }

  run_monotone :
      (e : Engine F) (calls : List (Call F))
      → IsValid e
      → AtMost fl e.current_wh (run e calls).current_wh × IsValid (run e calls)
  unfolding set_max_power
  run_monotone e [] v = (le_refl _, v)
  run_monotone e (sample_at at ∷ calls) v =
      let (grows, valid) = sample_monotone at e v in
      let (rest, final) = run_monotone (sample at e) calls valid in
      (le_trans _ _ _ grows rest, final)
  run_monotone e (limit_to w ∷ calls) v =
      run_monotone (set_max_power w e) calls (set_max_power-IsValid w e v)

  -- Within a session of a valid engine, from its start on, under the laws of the arithmetic, the energy
  -- register never falls below the reading with which
  -- the session started, the power stays between 0 and the limit, and the state of charge between 0
  -- and 100, whatever the times of the samples (clock steps back included) and the limits set.
  pub session_bounds :
      (e : Engine F) (at : ℕ) (wh : F) (calls : List (Call F))
      → IsValid e
      → let e' = run (start at wh e) calls in
        AtMost fl wh e'.current_wh
        × (IsNonneg fl (power e') × AtMost fl (power e') e'.max_power_w)
        × (IsNonneg fl e'.current_soc × AtMost fl e'.current_soc (fl.of_ℕ 100))
  session_bounds e at wh calls v =
      let (grows, valid) = run_monotone (start at wh e) calls (start-IsValid at wh e v) in
      (unfold start in grows, power_bounds _ valid, (valid.soc_low, valid.soc_high))
