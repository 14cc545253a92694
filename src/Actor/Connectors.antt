-- ===== src/Actor/Connectors.antt =====
-- internal/actor/charger.go: the map of connectors, and the writes that the code makes through its
-- pointers.
use mathlib.Core.Option
use charger_simulator.Common.{
  ℕ, String, true, false, List, [], ◌∷◌, Option, none, some, if◌then◌else◌, ◌≡◌, refl, subst, All,
  inl, inr, Bool-cases, arith,
}
use charger_simulator.Common.Int.{ℤ, pos, eq_ℤ, eq_ℤ_iff}
use charger_simulator.J16.Enums.{ChargePointStatus, ChargePointErrorCode}
use charger_simulator.Meter.Float.{Float}
use charger_simulator.Meter.Engine.{Engine, start}
use charger_simulator.Actor.State.{Connector, Charger}

module _ {F : Type 0} where
  unfoldable pub find_connector : ℤ → List (Connector F) → Option (Connector F)
  find_connector id [] = none
  find_connector id (cn ∷ cns) = if eq_ℤ cn.id id then some cn else find_connector id cns

  -- The keys, in the order of one iteration.
  abbrev pub ids_of : List (Connector F) → List ℤ
  ids_of [] = []
  ids_of (cn ∷ cns) = cn.id ∷ ids_of cns

  -- A write through the pointer that the map holds for an id.
  unfoldable pub modify : ℤ → (Connector F → Connector F) → List (Connector F) → List (Connector F)
  modify id f [] = []
  modify id f (cn ∷ cns) = if eq_ℤ cn.id id then f cn ∷ cns else cn ∷ modify id f cns

  abbrev pub with_connector : ℤ → (Connector F → Connector F) → Charger F → Charger F
  with_connector id f c = record c { connectors = modify id f c.connectors }

  abbrev pub with_status : ChargePointStatus → ChargePointErrorCode → Connector F → Connector F
  with_status status code cn = record cn { status = status; error_code = code }

  abbrev pub with_engine : (Engine F → Engine F) → Connector F → Connector F
  with_engine f cn = record cn { meter_eng = f cn.meter_eng }

  abbrev pub set_pending : Connector F → Connector F
  set_pending cn = record cn { start_pending = true }

  abbrev pub not_pending : Connector F → Connector F
  not_pending cn = record cn { start_pending = false }

  -- `clearStart`.
  abbrev pub clear_start : ℤ → Charger F → Charger F
  clear_start id = with_connector id not_pending

  abbrev pub begin_session : ℕ → ℤ → String → Connector F → Connector F
  begin_session now wh tag cn = record cn {
    session_started_at = some now;
    session_start_wh = wh;
    session_id_tag = tag;
  }

  -- A closed session: no transaction, nothing of the session left.
  abbrev pub closed_session : Connector F → Connector F
  closed_session cn = record cn {
    tx_id = pos 0;
    session_id_tag = "";
    session_started_at = none;
    session_start_wh = pos 0;
  }

  abbrev pub recovered : Connector F → Connector F
  recovered cn = closed_session (not_pending cn)

module _ {F : Type 0} ⦃fl : Float F⦄ where
  abbrev pub started : ℤ → ℕ → ℤ → Connector F → Connector F
  started tx now wh cn = record cn {
    tx_id = tx;
    start_pending = false;
    meter_eng = start now (fl.of_int wh) cn.meter_eng;
  }

-- What a write through a pointer does to the map.
module _ {F : Type 0} where
  pub modify-All :
      (P : Connector F → Type 0) (id : ℤ) (f : Connector F → Connector F) (cns : List (Connector F))
      → ((cn : Connector F) → find_connector id cns ≡ some cn → P cn → P (f cn))
      → All P cns
      → All P (modify id f cns)
  unfolding modify find_connector
  modify-All P id f [] keep all = tt
  modify-All P id f (cn ∷ cns) keep all = elim (Bool-cases (eq_ℤ cn.id id)) [
    | inl hit ↦ rw hit (keep cn (rw hit refl) all.0, all.1)
    | inr miss ↦ rw miss (all.0, modify-All P id f cns (λ x e. keep x (rw miss e)) all.1)
  ]

  pub find-All :
      (P : Connector F → Type 0) (id : ℤ) (cns : List (Connector F)) (cn : Connector F)
      → find_connector id cns ≡ some cn
      → All P cns
      → P cn
  unfolding find_connector
  find-All P id [] cn e all = cc
  find-All P id (x ∷ cns) cn e all = elim (Bool-cases (eq_ℤ x.id id)) [
    | inl hit ↦ let same : x ≡ cn = ground (arith, hit, e) in subst P same all.0
    | inr miss ↦ find-All P id cns cn (rw miss at e) all.1
  ]

  -- A function that keeps the id of a connector.
  abbrev pub KeepsId : (Connector F → Connector F) → Type 0
  KeepsId f = (cn : Connector F) → (f cn).id ≡ cn.id

  pub find-id :
      (id : ℤ) (cns : List (Connector F)) (cn : Connector F)
      → find_connector id cns ≡ some cn
      → eq_ℤ cn.id id ≡ true
  unfolding find_connector
  find-id id [] cn e = cc
  find-id id (x ∷ cns) cn e = ground (arith, e, find-id id cns cn)

  -- Two writes through one pointer are one.
  pub modify-modify :
      (id : ℤ) (f g : Connector F → Connector F) (cns : List (Connector F))
      → KeepsId f
      → modify id g (modify id f cns) ≡ modify id (λ cn. g (f cn)) cns
  unfolding modify
  modify-modify id f g [] keeps = refl
  modify-modify id f g (cn ∷ cns) keeps = elim (Bool-cases (eq_ℤ cn.id id)) [
    | inl hit ↦ rw (hit, keeps cn, hit) refl
    | inr miss ↦ rw (miss, miss, modify-modify id f g cns keeps) refl
  ]

  pub find-modify :
      (id j : ℤ) (f : Connector F → Connector F) (cns : List (Connector F))
      → KeepsId f
      → find_connector j (modify id f cns)
        ≡ (if eq_ℤ id j then Option.map f (find_connector j cns) else find_connector j cns)
  unfolding modify find_connector
  find-modify id j f [] keeps = ground arith
  find-modify id j f (cn ∷ cns) keeps = ground (
    arith,
    find-modify id j f cns keeps,
    keeps cn,
    eq_ℤ_iff id j,
    eq_ℤ_iff cn.id id,
    eq_ℤ_iff cn.id j,
  )
