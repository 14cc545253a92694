-- ===== src/Cms/Exchange.antt =====
-- internal/actor/charger.go against cmd/stub-cms/main.go: one call and its answer.
use charger_simulator.Common.{ℕ, suc, String, true, false, List, ◌∷◌, some, ◌≡◌, refl, ◌∙◌, ap}
use charger_simulator.Json.{Json}
use charger_simulator.J16.Frame.{
  decode, decode_elements, dispatch, decode_call, decode_result, marshal_call, marshal_result,
}
use charger_simulator.J16.Marshal.{TimeText}
use charger_simulator.Meter.Float.{Float}
use charger_simulator.Actor.State.{
  Payload, OnResult, OnError, PendingCall, Frame, call, ocpp_event, Charger, Env,
}
use charger_simulator.Actor.Snapshot.{emit}
use charger_simulator.Actor.Send.{action_of, find_call, put_call, delete_call, send_call}
use charger_simulator.Actor.Results.{run_result}
use charger_simulator.Actor.Inbound.{handle_inbound, handle_frame}
use charger_simulator.Actor.Lifecycle.{same_string}
use charger_simulator.Cms.Server.{Cms, payload, handle_call, reply_frame, answer_frame, answer}
use charger_simulator.Cms.Conversation.{wired, call_bytes, exchange}

module _ {F : Type 0} ⦃fl : Float F⦄ (times : TimeText) (env : Env) where
  -- The charger after it has taken a call out of those in flight.
  abbrev taken : String → PendingCall → Charger F → Charger F
  taken id pc c =
      emit (ocpp_event "in" "CALLRESULT" pc.action id)
        (record c { pending = delete_call id c.pending })

  -- An exchange about a call in flight that the CMS answers with a result.
  pub exchange_lem :
      (now : ℕ) (s s' : Cms) (c : Charger F) (id : String) (p : Payload) (w : List Frame)
      (pc : PendingCall) (q : Json)
      → c.wire ≡ call id p ∷ w
      → find_call id c.pending ≡ some pc
      → handle_call times now (action_of p) s ≡ (s', payload q)
      → exchange times env now s c
        ≡ (s', run_result (wired times env) pc.on_result q (taken id pc c))
  unfolding exchange answer answer_frame call_bytes marshal_call decode decode_elements dispatch
      decode_call handle_inbound handle_frame reply_frame marshal_result decode_result
  exchange_lem now s s' c id p w pc q written pending replies = rw (written, replies, pending) refl

  -- The link is up and takes what is written.
  abbrev pub IsUp : Charger F → Type 0
  IsUp c = ((k : ℕ) → env.writes k ≡ true) × (c.ws.dialled ≡ true) × (c.ws.closed ≡ false)

  pub link-IsUp : (c c' : Charger F) → c'.ws ≡ c.ws → IsUp c → IsUp c'
  link-IsUp c c' same (writes, dialled, open_) =
      (writes, ap (λ w. w.dialled) same ∙ dialled, ap (λ w. w.closed) same ∙ open_)

  -- The charger with its call in flight and on the wire.
  abbrev called : Payload → OnResult → OnError → Charger F → Charger F
  called p on_result on_error c =
      let pc : PendingCall = record {
        action = action_of p;
        sent_at = env.now c.ticks;
        on_result = on_result;
        on_error = on_error;
      } in
      record (emit (ocpp_event "out" "CALL" (action_of p) (env.uuid c.ticks)) c) {
        pending = put_call (env.uuid c.ticks) pc c.pending;
        wire = call (env.uuid c.ticks) p ∷ c.wire;
        ticks = suc c.ticks;
      }

  send_up :
      (p : Payload) (r : OnResult) (e : OnError) (c : Charger F)
      → IsUp c
      → send_call (wired times env) p r e c ≡ called p r e c
  unfolding send_call
  send_up p r e c (writes, dialled, open_) = rw (dialled, open_, writes c.ticks) refl

  -- A call sent over a link that is up, and answered with a result at once.
  pub round_trip :
      (now : ℕ) (s s' : Cms) (p : Payload) (r : OnResult) (e : OnError) (c : Charger F) (q : Json)
      → IsUp c
      → handle_call times now (action_of p) s ≡ (s', payload q)
      → (heard : Charger F) × (heard.connectors ≡ c.connectors)
        × (heard.store ≡ c.store)
        × (heard.ws ≡ c.ws)
        × (heard.cfg ≡ c.cfg)
        × (exchange times env now s (send_call (wired times env) p r e c)
            ≡ (s', run_result (wired times env) r q heard))
  unfolding find_call
  round_trip now s s' p r e c q up replies =
      let id : String = env.uuid c.ticks in
      let c' : Charger F = called p r e c in
      let pc : PendingCall = record {
        action = action_of p;
        sent_at = env.now c.ticks;
        on_result = r;
        on_error = e;
      } in
      (
        taken id pc c',
        refl,
        refl,
        refl,
        refl,
        rw (send_up p r e c up)
            (exchange_lem now s s' c' id p c.wire pc q refl (rw (same_string id) refl) replies),
      )
