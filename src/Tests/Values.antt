-- ===== src/Tests/Values.antt =====
-- Concrete parameters of the models: numbers for internal/sim/meter/meter.go, an environment and a
-- charger for internal/actor/charger.go.
use charger_simulator.Common.{
  ℕ, zero, suc, ◌+◌, ◌-◌, ◌*◌, ◌/◌, ◌≤◌, ◌<◌, true, false, [], ◌∷◌, none, some, ltb, ◌==◌, arith,
  String, Option, ◌≡◌, refl, ap,
}
use mathlib.Core.Option
use native.Mathlib.Nat.{div-lt_iff_lt-mul}
use charger_simulator.Common.Int.{ℤ, pos, negsuc}
use charger_simulator.Common.Itoa.{itoa}
use charger_simulator.Config.{ChargerConfig, dc}
use charger_simulator.J16.Enums.{AuthorizationStatus, RegistrationStatus, preparing}
use charger_simulator.J16.Messages.{IdTagInfo}
use charger_simulator.J16.Marshal.{TimeText}
use charger_simulator.Meter.Float.{Float, FloatLaws}
use charger_simulator.Session.Disk.{OpenSession, Io, sessions}
use charger_simulator.Session.Store.{FileStore}
use charger_simulator.Actor.State.{CpState, Charger, Env}
use charger_simulator.Actor.New.{new_charger, new_connector}

abbrev natural : ℤ → ℕ
natural (pos n) = n
natural (negsuc n) = 0

instance abbrev pub nat_float : Float ℕ
nat_float = record {
  of_ℕ = λ n. n;
  decimal = λ n e. n;
  add = λ a b. a + b;
  sub = λ a b. a - b;
  mul = λ a b. a * b;
  div = λ a b. a / b;
  sqrt = λ a. a;
  lt = ltb;
  eq = λ a b. a == b;
  of_int = natural;
  to_int = pos;
  format = λ n a. itoa (pos a);
}

div-le_one : (x n : ℕ) → x ≤ n → 0 < n → x / n ≤ 1
div-le_one x n le positive =
    let below : x / n < 2 = (div-lt_iff_lt-mul positive).1 (omega (arith, le, positive)) in
    omega (arith, below)

mul-le_left : (x y : ℕ) → y ≤ 1 → x * y ≤ x
mul-le_left x zero le = omega arith
mul-le_left x (suc zero) le = omega arith
mul-le_left x (suc (suc y)) le = absurd (omega (arith, le))

pub nat_laws : FloatLaws nat_float
nat_laws = record {
  lt_asymm = λ x y h. ground (arith, h);
  le_refl = λ x. ground arith;
  le_trans = λ x y z h k. ground (arith, h, k);
  of_ℕ-le = λ m n h. ground (arith, h);
  le-add = λ x y h. ground (arith, h);
  sub_nonneg = λ x y h. ground arith;
  mul_nonneg = λ x y h k. ground arith;
  mul-le = λ x y h k. let le : y ≤ 1 = ground (arith, k) in ground (arith, mul-le_left x y le);
  div_nonneg = λ x n h k. ground arith;
  div-le_one = λ x n h k. let le : x ≤ n = ground (arith, h) in ground (arith, div-le_one x n le k);
  sub-le = λ m n x h k. ground (arith, h, k);
}

abbrev pub disk_ok : Io
disk_ok = record {
  created = true;
  written = true;
  synced = true;
  closed = true;
  renamed = true;
  removed = true;
}

abbrev pub accepted_tag : IdTagInfo
accepted_tag = record {
  status = AuthorizationStatus.accepted;
  expiry_date = none;
  parent_id_tag = "";
}

abbrev pub test_env : Env
test_env = record {
  now = λ n. n * 1000000000;
  uuid = λ n. itoa (pos n);
  writes = λ n. true;
  io = λ n. disk_ok;
  dials = λ n. true;
  boot_resp = λ j.
      some (record { current_time = 0; interval = pos 300; status = RegistrationStatus.accepted });
  authorize_resp = λ j. some (record { id_tag_info = accepted_tag });
  start_resp = λ j. some (record { id_tag_info = accepted_tag; transaction_id = pos 77 });
  remote_start = λ j. record { connector_id = some (pos 1); id_tag = "TAG" };
  remote_stop = λ j. record { transaction_id = pos 77 };
  trigger = λ j. record { requested_message = "Heartbeat"; connector_id = none };
}

abbrev pub test_cfg : ChargerConfig ℕ
test_cfg = record {
  cpid = "CP1";
  vendor = "V";
  model = "M";
  firmware_version = "1";
  cms_url = "ws://cms";
  basic_auth_user = "";
  basic_auth_pass = "";
  heartbeat_interval = pos 60000000000;
  meter_interval = pos 10000000000;
  reconnect_initial_backoff = 1000000000;
  reconnect_max_backoff = 3000000000;
  charger_type = dc;
  num_connectors = pos 2;
  max_power_w = 22000;
  nominal_voltage_v = 400;
  phases = pos 3;
  power_factor = 1;
  battery_capacity_kwh = 50;
  initial_soc = 20;
}

abbrev pub a_session : OpenSession
a_session = record {
  cpid = "CP1";
  connector_id = pos 1;
  tx_id = pos 77;
  id_tag = "TAG";
  meter_start_wh = pos 100;
  started_at = 5;
  last_meter_wh = pos 150;
  last_meter_at = 9;
}

abbrev pub a_store : FileStore
a_store = record {
  records = a_session ∷ [];
  dir = record { path = sessions (a_session ∷ []); temp = none };
}

-- An online charger with a store, its one connector plugged in.
abbrev pub plugged_in : Charger ℕ
plugged_in = record (new_charger test_env test_cfg (some a_store)) {
  cp_state = CpState.online;
  ws = record { dialled = true; closed = false };
  connectors = record (new_connector test_cfg (pos 1)) { status = preparing } ∷ [];
}

-- A time as a string of that length.
abbrev unary_text : ℕ → String
unary_text zero = ""
unary_text (suc n) = String.◌∷◌ "x" (unary_text n)

abbrev unary_time : String → Option ℕ
unary_time String.[] = some 0
unary_time (String.◌∷◌ c s) = Option.map suc (unary_time s)

pub unary_read : (t : ℕ) → unary_time (unary_text t) ≡ some t
unary_read zero = refl
unary_read (suc n) = ap (Option.map suc) (unary_read n)

abbrev pub unary : TimeText
unary = record { to_text = unary_text; of_text = unary_time; of_text-to_text = unary_read }
