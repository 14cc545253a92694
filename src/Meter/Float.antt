-- ===== src/Meter/Float.antt =====
-- Go's float64 as an interface: the operations that the meter and the actor use, and the laws of
-- IEEE-754 arithmetic on finite values that the theorems rest on (rounding is monotone, and exact
-- at zero). The laws are stated for one type of finite values; NaN and infinities are outside it.
use charger_simulator.Common.{ℕ, String, Bool, true, false, ◌≡◌, ◌<◌, ◌≤◌, ◌-◌}
use charger_simulator.Common.Int.{ℤ}

pub record Float (F : Type 0) : Type 0 where
  pub of_ℕ : ℕ → F
  -- A decimal literal, given as numerator and power of ten.
  pub decimal : ℕ → ℕ → F
  pub add : F → F → F
  pub sub : F → F → F
  pub mul : F → F → F
  pub div : F → F → F
  pub sqrt : F → F
  pub lt : F → F → Bool
  pub eq : F → F → Bool
  -- The conversions `float64(i)` and `int(x)`.
  pub of_int : ℤ → F
  pub to_int : F → ℤ
  -- `fmt.Sprintf("%.<n>f", x)`.
  pub format : ℕ → F → String

abbrev pub AtMost : {F : Type 0} → Float F → F → F → Type 0
AtMost fl x y = fl.lt y x ≡ false

abbrev pub IsNonneg : {F : Type 0} → Float F → F → Type 0
IsNonneg fl x = AtMost fl (fl.of_ℕ 0) x

-- What the theorems need of the arithmetic.
pub record FloatLaws {F : Type 0} (fl : Float F) : Type 0 where
  pub lt_asymm : (x y : F) → fl.lt x y ≡ true → AtMost fl x y
  pub le_refl : (x : F) → AtMost fl x x
  pub le_trans : (x y z : F) → AtMost fl x y → AtMost fl y z → AtMost fl x z
  pub of_ℕ-le : (m n : ℕ) → m ≤ n → AtMost fl (fl.of_ℕ m) (fl.of_ℕ n)
  pub le-add : (x y : F) → IsNonneg fl y → AtMost fl x (fl.add x y)
  pub sub_nonneg : (x y : F) → AtMost fl y x → IsNonneg fl (fl.sub x y)
  pub mul_nonneg : (x y : F) → IsNonneg fl x → IsNonneg fl y → IsNonneg fl (fl.mul x y)
  -- A factor of at most 1 does not grow a product.
  pub mul-le : (x y : F) → IsNonneg fl x → AtMost fl y (fl.of_ℕ 1) → AtMost fl (fl.mul x y) x
  pub div_nonneg : (x : F) (n : ℕ) → IsNonneg fl x → 0 < n → IsNonneg fl (fl.div x (fl.of_ℕ n))
  pub div-le_one :
      (x : F) (n : ℕ)
      → AtMost fl x (fl.of_ℕ n)
      → 0 < n
      → AtMost fl (fl.div x (fl.of_ℕ n)) (fl.of_ℕ 1)
  pub sub-le :
      (m n : ℕ) (x : F)
      → m ≤ 9007199254740992
      → AtMost fl (fl.of_ℕ n) x
      → AtMost fl (fl.sub (fl.of_ℕ m) x) (fl.of_ℕ (m - n))
