-- ===== src/Actor/Replied.antt =====
-- internal/actor/charger.go: every call of the CMS is answered, once.
use charger_simulator.Common.{
  String, str_eq, Bool, true, false, List, [], ◌∷◌, ◌++◌, is_some, ◌≡◌, ◌≢◌, refl, sym, ap, ◌∙◌,
  append_assoc, ◌⊎◌, inl, inr, All, All-append, Option-cases, Bool-cases, if_cases,
}
use charger_simulator.Common.Int.{ℤ, pos, eq_ℤ}
use charger_simulator.Json.{Json}
use charger_simulator.J16.Enums.{ChargePointStatus, ChargePointErrorCode}
use charger_simulator.J16.Frame.{Call}
use charger_simulator.J16.Messages.{TriggerMessageReq, MeterValue}
use charger_simulator.Meter.Float.{Float}
use charger_simulator.Actor.State.{
  Payload, OnResult, OnError, Frame, call, result, error, Charger, Env,
}
use charger_simulator.Actor.Connectors.{find_connector}
use charger_simulator.Actor.Send.{
  sends, send_call, reply, reply_result, send_boot, send_heartbeat, send_status,
}
use charger_simulator.Actor.Results.{store_update_meter}
use charger_simulator.Actor.Commands.{can_start_charging}
use charger_simulator.Actor.Inbound.{
  CmsAction, cms_action, remote_start, remote_stop, reset, change_availability, trigger_message,
  unlock_connector, not_implemented, enqueue, connector_of_tx, send_meter_values, report,
  handle_trigger, handle_remote_start, handle_remote_stop, run_action, handle_incoming_call,
  id_or_1, payload_of,
}

abbrev pub IsCall : Frame → Type 0
IsCall (call _ _) = Unit
IsCall (result _ _) = ⊥
IsCall (error _ _) = ⊥

-- The reply to a call: an error if the action is none that the charger knows.
abbrev pub Replies : Call → Frame → Type 0
Replies m f =
    ((cms_action m.action ≢ not_implemented) × (status : String) × (f ≡ result m.message_id status))
    ⊎ ((cms_action m.action ≡ not_implemented) × (f ≡ error m.message_id "NotImplemented"))

-- One reply, and calls after it.
abbrev pub RepliedOnce : Call → List Frame → List Frame → Type 0
RepliedOnce m w w' =
    (f : Frame) × (fs : List Frame) × Replies m f × All IsCall fs × (w' ≡ fs ++ f ∷ w)

-- A result, and nothing after it.
only_result :
    (m : Call) (status : String) (a : CmsAction) (w w' : List Frame)
    → cms_action m.action ≡ a
    → a ≢ not_implemented
    → w' ≡ result m.message_id status ∷ w
    → RepliedOnce m w w'
only_result m status a w w' e known written =
    (result m.message_id status, [], inl ((λ u. known (sym e ∙ u)), status, refl), tt, written)

module _ {F : Type 0} where
  -- Only calls were written.
  abbrev pub OnlyCalls : Charger F → Charger F → Type 0
  OnlyCalls c c' = (fs : List Frame) × All IsCall fs × (c'.wire ≡ fs ++ c.wire)

  trans-OnlyCalls : (a b c : Charger F) → OnlyCalls a b → OnlyCalls b c → OnlyCalls a c
  trans-OnlyCalls a b c (fs, calls, e) (gs, calls', e') = (
    gs ++ fs,
    All-append IsCall gs fs calls' calls,
    e' ∙ ap (λ w. gs ++ w) e ∙ sym (append_assoc gs fs a.wire),
  )

module _ {F : Type 0} ⦃fl : Float F⦄ (env : Env) where
  send_call-OnlyCalls :
      (p : Payload) (r : OnResult) (e : OnError) (c : Charger F)
      → OnlyCalls c (send_call env p r e c)
  unfolding send_call
  send_call-OnlyCalls p r e c = elim (Bool-cases (sends env c)) [
    | inl up ↦ (call (env.uuid c.ticks) p ∷ [], (tt, tt), rw up refl)
    | inr down ↦ ([], tt, rw down refl)
  ]

  send_status-OnlyCalls :
      (id : ℤ) (status : ChargePointStatus) (code : ChargePointErrorCode) (c : Charger F)
      → OnlyCalls c (send_status env id status code c)
  unfolding send_status
  send_status-OnlyCalls id status code c = send_call-OnlyCalls _ _ _ _

  report-OnlyCalls :
      (id tx : ℤ) (mv : MeterValue × Bool) (c : Charger F) → OnlyCalls c (report env id tx mv c)
  unfolding report
  report-OnlyCalls id tx (mv, false) c = ([], tt, refl)
  report-OnlyCalls id tx (mv, true) c = send_call-OnlyCalls _ _ _ _

  meter-OnlyCalls : (id : ℤ) (c : Charger F) → OnlyCalls c (send_meter_values env id c)
  unfolding send_meter_values store_update_meter
  meter-OnlyCalls id c = elim (Option-cases (find_connector id c.connectors)) [
    | inl e ↦ rw (e, send_meter_values) ([], tt, refl)
    | inr (cn, e) ↦
        rw (e, send_meter_values)
          (if_cases (OnlyCalls c) (eq_ℤ cn.tx_id (pos 0)) (λ _. ([], tt, refl))
            (λ _. report-OnlyCalls id cn.tx_id _ _))
  ]

  trigger-OnlyCalls :
      (req : TriggerMessageReq) (c : Charger F) → OnlyCalls c (handle_trigger env req c)
  unfolding handle_trigger send_boot send_heartbeat
  trigger-OnlyCalls req c =
      let id : ℤ = id_or_1 req.connector_id in
      if_cases (OnlyCalls c) (str_eq req.requested_message "BootNotification")
        (λ _. send_call-OnlyCalls _ _ _ _)
        λ _.
          if_cases (OnlyCalls c) (str_eq req.requested_message "Heartbeat")
            (λ _. send_call-OnlyCalls _ _ _ _)
            λ _.
              if_cases (OnlyCalls c) (str_eq req.requested_message "StatusNotification")
                (λ _. elim (Option-cases (find_connector id c.connectors)) [
                  | inl e ↦ rw e ([], tt, refl)
                  | inr (cn, e) ↦ rw e (send_status-OnlyCalls id cn.status cn.error_code c)
                ])
                λ _.
                  if_cases (OnlyCalls c) (str_eq req.requested_message "MeterValues")
                    (λ _. meter-OnlyCalls id c) λ _. ([], tt, refl)

  -- A reply over a link that is up, and the calls that follow it.
  replied :
      (m : Call) (f : Frame) (c c₁ c₂ : Charger F)
      → Replies m f
      → c₁.wire ≡ f ∷ c.wire
      → OnlyCalls c₁ c₂
      → RepliedOnce m c.wire c₂.wire
  replied m f c c₁ c₂ answers first (fs, calls, e) =
      (f, fs, answers, calls, e ∙ ap (λ w. fs ++ w) first)

  action-RepliedOnce :
      (a : CmsAction) (m : Call) (p : Json) (c : Charger F)
      → cms_action m.action ≡ a
      → sends env c ≡ true
      → RepliedOnce m c.wire (run_action env a m.message_id p c).wire
  unfolding run_action handle_remote_start handle_remote_stop enqueue reply
  action-RepliedOnce remote_start m p c e up =
      if_cases (λ (c' : Charger F). RepliedOnce m c.wire c'.wire)
        (is_some (can_start_charging (id_or_1 (env.remote_start p).connector_id) c))
        (λ _. only_result m "Rejected" remote_start c.wire _ e (λ u. cc u) (rw up refl))
        (λ _. only_result m "Accepted" remote_start c.wire _ e (λ u. cc u) (rw up refl))
  action-RepliedOnce remote_stop m p c e up =
      if_cases (λ (c' : Charger F). RepliedOnce m c.wire c'.wire)
        (eq_ℤ (connector_of_tx (env.remote_stop p).transaction_id c.connectors) (pos 0))
        (λ _. only_result m "Rejected" remote_stop c.wire _ e (λ u. cc u) (rw up refl))
        (λ _. only_result m "Accepted" remote_stop c.wire _ e (λ u. cc u) (rw up refl))
  action-RepliedOnce reset m p c e up =
      only_result m "Accepted" reset c.wire _ e (λ u. cc u) (rw up refl)
  action-RepliedOnce change_availability m p c e up =
      only_result m "Accepted" change_availability c.wire _ e (λ u. cc u) (rw up refl)
  action-RepliedOnce trigger_message m p c e up =
      let c₁ : Charger F = reply_result env m.message_id "Accepted" c in
      replied m (result m.message_id "Accepted") c c₁ (handle_trigger env (env.trigger p) c₁)
        (inl (λ u. cc (e, u), "Accepted", refl)) (rw up refl) (trigger-OnlyCalls (env.trigger p) c₁)
  action-RepliedOnce unlock_connector m p c e up =
      only_result m "Unlocked" unlock_connector c.wire _ e (λ u. cc u) (rw up refl)
  action-RepliedOnce not_implemented m p c e up =
      (error m.message_id "NotImplemented", [], inr (e, refl), tt, rw up refl)

  -- While the link is up and takes what is written, a call of the CMS is answered exactly once, with
  -- its message id, before anything else is written: by a result, or if its action is none that the
  -- charger knows, by the error NotImplemented. What is written after it are calls of the charger.
  pub handle_incoming_call_lem :
      (m : Call) (c : Charger F)
      → sends env c ≡ true
      → RepliedOnce m c.wire (handle_incoming_call env m c).wire
  unfolding handle_incoming_call
  handle_incoming_call_lem m c up =
      action-RepliedOnce (cms_action m.action) m (payload_of m.payload) _ refl up
