-- ===== src/Cms/Requested.antt =====
-- A start request of the dashboard, through internal/api/server.go and internal/actor/charger.go, to
-- the CMS of cmd/stub-cms/main.go and back.
use charger_simulator.Common.{
  ℕ, suc, ◌<◌, String, Bool, true, false, [], ◌∷◌, Option, some, ◌≡◌, refl, subst, arith, inl, inr,
  ◌==◌,
}
use charger_simulator.Common.Int.{ℤ, pos, eq_ℤ}
use charger_simulator.Meter.Float.{Float}
use charger_simulator.J16.Marshal.{TimeText}
use charger_simulator.Session.Store.{FileStore}
use charger_simulator.Actor.State.{start_charging, Charger, Env}
use charger_simulator.Actor.Connectors.{find_connector}
use charger_simulator.Actor.Snapshot.{offer}
use charger_simulator.Actor.Commands.{default_tag, handle_start_charging}
use charger_simulator.Actor.Inbound.{enqueue}
use charger_simulator.Actor.Starting.{Startable}
use charger_simulator.Actor.Lifecycle.{IsCharging, record_of}
use charger_simulator.Actor.Run.{
  running, take_command, step, step_mode, running_step, take_oldest, take_from, handle_command,
}
use charger_simulator.Cms.Server.{Cms}
use charger_simulator.Json.{Json}
use charger_simulator.Cms.Conversation.{wired, exchange}
use charger_simulator.Cms.Exchange.{IsUp}
use charger_simulator.Cms.Charging.{IsOpened, charge}
use charger_simulator.Api.Strings.{trim_space}
use charger_simulator.Api.Server.{Server, Written}
use charger_simulator.Api.Routes.{code}
use charger_simulator.Api.Wanted.{IsOneOrTwo}
use charger_simulator.Api.Named.{chosen_text}
use charger_simulator.Api.Commanded.{
  post_json, start_body, start_tag, hand_over, on_request, start_requested,
}

same_number : (n : ℕ) → (n == n) ≡ true
same_number n = ground arith

kept_tag : (tag : String) → default_tag (start_tag tag) ≡ start_tag tag
kept_tag tag = rw (chosen_text (trim_space tag) _ refl) refl

module _ {F : Type 0} ⦃fl : Float F⦄ (times : TimeText) (env : Env) where
  -- A charger takes the only command of its channel.
  taken :
      (stop : ℕ → Bool) (fuel : ℕ) (id : ℤ) (tag : String) (n : ℕ) (cs : ℕ → Charger F)
      (listening : Bool)
      → (cs n).cmd_ch ≡ []
      → (step (wired times env) stop fuel take_command (record {
        charger = hand_over ((n, start_charging id tag) ∷ []) cs n;
        listening = listening;
        mode = running;
      })).charger
        ≡ handle_start_charging (wired times env) id tag (cs n)
  unfolding step step_mode running_step take_oldest take_from handle_command hand_over enqueue offer
  taken stop fuel id tag n cs listening none_waits = rw (same_number n, none_waits) refl

  -- Both exchanges of a start have led to a session.
  abbrev pub IsBegun : ℕ → ℕ → ℤ → String → ℤ → Cms → Charger F → Type 0
  IsBegun now now' id tag wh s asking =
      let first = exchange times env now s asking in
      let second = exchange times env now' first.0 first.1 in
      IsCharging (pos (suc s.next_tx)) (fl.of_int wh) (find_connector id second.1.connectors)
      × IsOpened (pos (suc s.next_tx)) tag wh (record_of id second.1)
      × (second.0.next_tx ≡ suc s.next_tx)

  begun :
      (now now' : ℕ) (id : ℤ) (tag : String) (s : Cms) (c : Charger F) (fs : FileStore)
      (ready : Startable id c)
      → IsUp times env c
      → eq_ℤ id (pos 0) ≡ false
      → c.store ≡ some fs
      → suc s.next_tx < 9223372036854775808
      → IsBegun now now' id
          (start_tag tag)
          (fl.to_int ready.0.meter_eng.current_wh)
          s
          (handle_start_charging (wired times env) id (start_tag tag) c)
  begun now now' id tag s c fs ready up known store small =
      subst
        (λ t.
          IsBegun now now' id t (fl.to_int ready.0.meter_eng.current_wh) s
            (handle_start_charging (wired times env) id (start_tag tag) c))
        (kept_tag tag)
        (charge times env now now' id (start_tag tag) s c fs ready up known store small)

known_id : (id : ℤ) → IsOneOrTwo id → eq_ℤ id (pos 0) ≡ false
known_id id (inl e) = rw e refl
known_id id (inr e) = rw e refl

module _ {F B : Type 0} ⦃fl : Float F⦄ (written : Written) (removed : Bool)
    (float_of : Json → Option F) (files : String → Option B) (times : TimeText) (env : Env)
    (stop : ℕ → Bool) (fuel : ℕ) where
  -- From the button to the session. A server has a charger whose channel is empty, with a store, whose
  -- link is up and takes what is written, and of which the connector, 1 or 2, may be started; the CMS
  -- answers at once. Then the POST to start charging is answered with 204, and once the charger's loop
  -- has taken the command, two exchanges lead to a session: the connector charges in the transaction
  -- whose id is the counter's next value, under the trimmed id tag or the default one, with a record of
  -- it in the store, and the counter has moved on by one.
  pub start_from_dashboard :
      (now now' : ℕ) (id : ℤ) (tag : String) (n : ℕ) (listening : Bool) (s : Server F) (cms : Cms)
      (cs : ℕ → Charger F) (fs : FileStore) (ready : Startable id (cs n))
      → IsOneOrTwo id
      → s.current ≡ some n
      → (cs n).cmd_ch ≡ []
      → IsUp times env (cs n)
      → (cs n).store ≡ some fs
      → suc cms.next_tx < 9223372036854775808
      → let served =
          on_request written removed float_of files
            (post_json "/api/start-charging" (start_body id tag))
            s
            cs in
        let after =
          step
            (wired times env)
            stop
            fuel
            take_command
            (record { charger = served.0.1 n; listening = listening; mode = running }) in
        (code served.1 ≡ 204)
        × IsBegun times env now now' id
            (start_tag tag)
            (fl.to_int ready.0.meter_eng.current_wh)
            cms
            after.charger
  unfolding code
  start_from_dashboard now now' id tag n listening s cms cs fs ready one current waits up store
        small =
      rw
        (
          start_requested written removed float_of files id tag n s cs one current,
          taken times env stop fuel id (start_tag tag) n cs listening waits,
        )
        (refl, begun times env now now' id tag cms (cs n) fs ready up (known_id id one) store small)
