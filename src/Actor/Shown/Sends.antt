-- ===== src/Actor/Shown/Sends.antt =====
-- internal/actor/charger.go: a connector with an open transaction shows Charging or Finishing:
-- the sends keep it so.
use charger_simulator.Common.{
  String, true, false, List, none, some, ◌≡◌, refl, ◌⊎◌, inl, inr, All, Bool-cases, Option-cases,
  arith,
}
use charger_simulator.Common.Int.{ℤ, pos, eq_ℤ, eq_ℤ_iff}
use charger_simulator.J16.Enums.{
  ChargePointStatus, ChargePointErrorCode, charging, finishing, no_error, StopReason,
}
use charger_simulator.Meter.Float.{Float}
use charger_simulator.Actor.State.{Connector, AfterStop, make_available, make_faulted, Charger, Env}
use charger_simulator.Actor.Connectors.{find_connector, modify, modify-All, with_status}
use charger_simulator.Actor.Send.{
  send_call, send_status, send_status_with_info, send_start_transaction, run_after,
  stop_transaction_of, send_stop_transaction,
}
use charger_simulator.Actor.Commands.{eq_status}

-- A status that an open transaction may show.
abbrev pub MayCharge : ChargePointStatus → Type 0
MayCharge status = (status ≡ charging) ⊎ (status ≡ finishing)

-- The id is not 0, which stands for the whole charge point, and an open transaction shows.
abbrev pub ShowsTx : {F : Type 0} → Connector F → Type 0
ShowsTx cn = (eq_ℤ cn.id (pos 0) ≡ false) × ((cn.tx_id ≡ pos 0) ⊎ MayCharge cn.status)

abbrev pub AllShow : {F : Type 0} → Charger F → Type 0
AllShow c = All ShowsTx c.connectors

pub eq_status-eq : (a b : ChargePointStatus) → eq_status a b ≡ true → a ≡ b
unfolding eq_status
eq_status-eq a b h = ground arith

-- The connector of an id, if there is one, has no transaction.
abbrev pub IsIdle : {F : Type 0} → ℤ → Charger F → Type 0
IsIdle {F} id c = (cn : Connector F) → find_connector id c.connectors ≡ some cn → cn.tx_id ≡ pos 0

module _ {F : Type 0} ⦃fl : Float F⦄ (env : Env) where
  pub send_status-AllShow :
      (id : ℤ) (status : ChargePointStatus) (code : ChargePointErrorCode) (c : Charger F)
      → MayCharge status ⊎ IsIdle id c
      → AllShow c
      → AllShow (send_status env id status code c)
  unfolding send_status send_call
  send_status-AllShow id status code c may all = elim (Bool-cases (eq_ℤ id (pos 0))) [
    | inl e ↦ rw e all
    | inr e ↦ rw e (modify-All ShowsTx id (with_status status code) c.connectors keep all)
  ]
    where
      keep :
          (cn : Connector F)
          → find_connector id c.connectors ≡ some cn
          → ShowsTx cn
          → ShowsTx (with_status status code cn)
      keep cn found shows = (shows.0, elim may [ inl ok ↦ inr ok | inr idle ↦ inl (idle cn found) ])

  pub send_status_with_info-AllShow :
      (id : ℤ) (status : ChargePointStatus) (code : ChargePointErrorCode) (info : String)
      (c : Charger F)
      → IsIdle id c
      → AllShow c
      → AllShow (send_status_with_info env id status code info c)
  unfolding send_status_with_info send_call
  send_status_with_info-AllShow id status code info c idle all =
      modify-All ShowsTx id (with_status status code) c.connectors
        (λ cn found shows. (shows.0, inl (idle cn found))) all

  pub run_after-AllShow :
      (id : ℤ) (after : AfterStop) (c : Charger F)
      → IsIdle id c
      → AllShow c
      → AllShow (run_after env id after c)
  unfolding run_after
  run_after-AllShow id make_available c idle all = send_status-AllShow id _ _ c (inr idle) all
  run_after-AllShow id make_faulted c idle all = send_status_with_info-AllShow id _ _ _ c idle all

  -- A write that keeps the id, the transaction and the status.
  abbrev pub KeepsTx : (Connector F → Connector F) → Type 0
  KeepsTx f =
      (cn : Connector F)
      → ((f cn).id ≡ cn.id) × ((f cn).tx_id ≡ cn.tx_id) × ((f cn).status ≡ cn.status)

  pub keep-AllShow :
      (id : ℤ) (f : Connector F → Connector F) (cns : List (Connector F))
      → KeepsTx f
      → All ShowsTx cns
      → All ShowsTx (modify id f cns)
  keep-AllShow id f cns same all =
      modify-All ShowsTx id f cns
        (λ cn _ shows. (rw (same cn).0 shows.0, ground (arith, same cn, shows.1))) all

  pub send_start_transaction-AllShow :
      (id : ℤ) (tag : String) (c : Charger F)
      → AllShow c
      → AllShow (send_start_transaction env id tag c)
  unfolding send_start_transaction send_call
  send_start_transaction-AllShow id tag c all =
      elim (Option-cases (find_connector id c.connectors)) [
        | inl e ↦ rw (e, send_start_transaction) all
        | inr (cn, e) ↦
            rw (e, send_start_transaction)
              (keep-AllShow id _ c.connectors (λ x. (refl, refl, refl)) all)
      ]

  IsIdle-none : (id : ℤ) (c : Charger F) → find_connector id c.connectors ≡ none → IsIdle id c
  IsIdle-none id c e cn found = cc

  pub IsIdle-some :
      (id : ℤ) (c : Charger F) {cn : Connector F}
      → find_connector id c.connectors ≡ some cn
      → cn.tx_id ≡ pos 0
      → IsIdle id c
  IsIdle-some id c e idle cn found = ground (arith, e, found, idle)

  stop_transaction_of-AllShow :
      (id : ℤ) (reason : StopReason) (after : AfterStop) (cn : Connector F) (c : Charger F)
      → AllShow c
      → AllShow (stop_transaction_of env id reason after cn c)
  unfolding stop_transaction_of send_call
  stop_transaction_of-AllShow id reason after cn c all =
      send_status-AllShow id finishing no_error _ (inl (inr refl))
        (keep-AllShow id _ c.connectors (λ x. (refl, refl, refl)) all)

  pub send_stop_transaction-AllShow :
      (id : ℤ) (reason : StopReason) (after : AfterStop) (c : Charger F)
      → AllShow c
      → AllShow (send_stop_transaction env id reason after c)
  unfolding send_stop_transaction
  send_stop_transaction-AllShow id reason after c all =
      elim (Option-cases (find_connector id c.connectors)) [
        | inl e ↦
            rw (e, send_stop_transaction) (run_after-AllShow id after c (IsIdle-none id c e) all)
        | inr (cn, e) ↦
            rw (e, send_stop_transaction)
              (elim (Bool-cases (eq_ℤ cn.tx_id (pos 0))) [
                | inl idle ↦ rw idle (
                    run_after-AllShow id after c
                      (IsIdle-some id c e ((eq_ℤ_iff cn.tx_id (pos 0)).0 idle)) all)
                | inr busy ↦ rw busy (stop_transaction_of-AllShow id reason after cn c all)
              ])
      ]
