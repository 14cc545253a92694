-- ===== src/Actor/Answers.antt =====
-- internal/actor/charger.go: an answer of the CMS is handled at most once.
use charger_simulator.Common.{
  ℕ, suc, ◌≤◌, String, eq_iff, not, List, [], ◌∷◌, Option, none, some, ◌≡◌, ◌≢◌, refl, inl, inr,
  arith, Option-cases, if_cases,
}
use charger_simulator.Common.Int.{ℤ, pos, eq_ℤ}
use charger_simulator.Json.{Json}
use charger_simulator.J16.Enums.{
  ChargePointStatus, ChargePointErrorCode, available, charging, no_error,
}
use charger_simulator.J16.Messages.{BootNotificationResp, AuthorizeResp, StartTransactionResp}
use charger_simulator.J16.Frame.{CallResult, CallError, a_result, an_error, ok}
use charger_simulator.Meter.Float.{Float}
use charger_simulator.Session.Disk.{OpenSession}
use charger_simulator.Actor.State.{
  Payload, AfterStop, make_available, make_faulted, PendingCall, OnResult, boot_result,
  heartbeat_result, no_result, authorize_result, start_result, stop_result, record_result, OnError,
  boot_failed, no_error_handler, authorize_failed, Charger, Env,
}
use charger_simulator.Actor.Connectors.{find_connector}
use charger_simulator.Actor.Send.{
  find_call, delete_call, send_call, send_status, send_status_with_info, send_start_transaction,
  run_after,
}
use charger_simulator.Actor.Results.{
  is_accepted, store_put, store_delete, stop_transaction_from_record, recover_all,
  recover_interrupted_sessions, announce_one, announce, boot_accepted, on_boot, on_authorize,
  transaction_started, on_start, on_stop, on_record, run_result, run_error,
}
use charger_simulator.Actor.Inbound.{handle_frame}

delete_call-find_call :
    (msg : String) (m : List (String × PendingCall)) → find_call msg (delete_call msg m) ≡ none
unfolding find_call delete_call
delete_call-find_call msg [] = refl
delete_call-find_call msg ((k, p) ∷ m) = ground (arith, delete_call-find_call msg m)

other_call :
    (msg id : String) (m : List (String × PendingCall))
    → find_call msg m ≡ none
    → find_call msg (delete_call id m) ≡ none
unfolding find_call delete_call
other_call msg id [] h = refl
other_call msg id ((k, p) ∷ m) h = ground (arith, h, other_call msg id m)

-- No call with the id `msg` is in flight, and `base` calls into the environment have been made.
abbrev pub IsForgotten : {F : Type 0} → ℕ → String → Charger F → Type 0
IsForgotten base msg c = (find_call msg c.pending ≡ none) × (base ≤ c.ticks)

-- The ids that are made after `base` calls into the environment are others, as those that
-- `uuid.NewString` makes are.
abbrev pub AreFresh : Env → ℕ → String → Type 0
AreFresh env base msg = (k : ℕ) → base ≤ k → env.uuid k ≢ msg

pub later : {base n : ℕ} → base ≤ n → base ≤ suc n
later h = omega arith

module _ {F : Type 0} ⦃fl : Float F⦄ (env : Env) (base : ℕ) (msg : String)
    (fresh : AreFresh env base msg) where
  pub send_call-IsForgotten :
      (p : Payload) (r : OnResult) (e : OnError) (c : Charger F)
      → IsForgotten base msg c
      → IsForgotten base msg (send_call env p r e c)
  unfolding send_call find_call delete_call
  send_call-IsForgotten p r e c (gone, n) = (
    ground (
      arith,
      gone,
      other_call msg (env.uuid c.ticks) c.pending gone,
      other_call msg (env.uuid c.ticks) (delete_call (env.uuid c.ticks) c.pending),
      eq_iff (env.uuid c.ticks) msg,
      fresh c.ticks n,
    ),
    later n,
  )

  pub send_status-IsForgotten :
      (id : ℤ) (status : ChargePointStatus) (code : ChargePointErrorCode) (c : Charger F)
      → IsForgotten base msg c
      → IsForgotten base msg (send_status env id status code c)
  unfolding send_status
  send_status-IsForgotten id status code c h = send_call-IsForgotten _ _ _ _ h

  pub run_after-IsForgotten :
      (id : ℤ) (after : AfterStop) (c : Charger F)
      → IsForgotten base msg c
      → IsForgotten base msg (run_after env id after c)
  unfolding run_after send_status_with_info
  run_after-IsForgotten id make_available c h = send_status-IsForgotten _ _ _ _ h
  run_after-IsForgotten id make_faulted c h = send_call-IsForgotten _ _ _ _ h

  pub send_start_transaction-IsForgotten :
      (id : ℤ) (tag : String) (c : Charger F)
      → IsForgotten base msg c
      → IsForgotten base msg (send_start_transaction env id tag c)
  unfolding send_start_transaction
  send_start_transaction-IsForgotten id tag c h =
      elim (Option-cases (find_connector id c.connectors)) [
        | inl e ↦ rw (e, send_start_transaction) h
        | inr (cn, e) ↦ rw (e, send_start_transaction) (send_call-IsForgotten _ _ _ _ h)
      ]

  recover_all-IsForgotten :
      (recs : List OpenSession) (c : Charger F)
      → IsForgotten base msg c
      → IsForgotten base msg (recover_all env recs c)
  unfolding recover_all stop_transaction_from_record
  recover_all-IsForgotten [] c h = h
  recover_all-IsForgotten (r ∷ recs) c h =
      recover_all-IsForgotten recs _ (send_call-IsForgotten _ _ _ _ h)

  announce-IsForgotten :
      (ids : List ℤ) (c : Charger F)
      → IsForgotten base msg c
      → IsForgotten base msg (announce env ids c)
  unfolding announce announce_one
  announce-IsForgotten [] c h = h
  announce-IsForgotten (id ∷ ids) c h =
      announce-IsForgotten ids (announce_one env id c)
        (elim (Option-cases (find_connector id c.connectors)) [
          | inl e ↦ rw (e, announce_one) h
          | inr (cn, e) ↦
              rw (e, announce_one)
                (if_cases (IsForgotten base msg) (not (eq_ℤ cn.tx_id (pos 0))) (λ _. h)
                  λ _. send_status-IsForgotten id cn.status cn.error_code c h)
        ])

  boot_accepted-IsForgotten :
      (interval : ℤ) (c : Charger F)
      → IsForgotten base msg c
      → IsForgotten base msg (boot_accepted env interval c)
  unfolding boot_accepted recover_interrupted_sessions
  boot_accepted-IsForgotten interval c h =
      recover_all-IsForgotten _ _
        (announce-IsForgotten _ _ (send_status-IsForgotten (pos 0) available no_error _ h))

  on_boot-IsForgotten :
      (resp : Option BootNotificationResp) (c : Charger F)
      → IsForgotten base msg c
      → IsForgotten base msg (on_boot env resp c)
  unfolding on_boot
  on_boot-IsForgotten none c h = h
  on_boot-IsForgotten (some resp) c h =
      ground (arith, h, boot_accepted-IsForgotten resp.interval c h)

  on_authorize-IsForgotten :
      (id : ℤ) (tag : String) (resp : Option AuthorizeResp) (c : Charger F)
      → IsForgotten base msg c
      → IsForgotten base msg (on_authorize env id tag resp c)
  unfolding on_authorize
  on_authorize-IsForgotten id tag none c h = h
  on_authorize-IsForgotten id tag (some resp) c h =
      if_cases (IsForgotten base msg) (is_accepted resp.id_tag_info.status)
        (λ _. send_start_transaction-IsForgotten id tag _ h) λ _. h

  on_start-IsForgotten :
      (id : ℤ) (tag : String) (now : ℕ) (wh : ℤ) (resp : Option StartTransactionResp)
      (c : Charger F)
      → IsForgotten base msg c
      → IsForgotten base msg (on_start env id tag now wh resp c)
  unfolding on_start transaction_started store_put
  on_start-IsForgotten id tag now wh none c h = h
  on_start-IsForgotten id tag now wh (some resp) c h =
      if_cases (IsForgotten base msg) (is_accepted resp.id_tag_info.status)
        (λ _. send_status-IsForgotten id charging no_error _ (h.0, later h.1)) λ _. h

  on_record-IsForgotten :
      (r : OpenSession) (c : Charger F)
      → IsForgotten base msg c
      → IsForgotten base msg (on_record env r c)
  unfolding on_record store_delete
  on_record-IsForgotten r c h = elim (Option-cases (find_connector r.connector_id c.connectors)) [
    | inl e ↦ rw (e, on_record) (h.0, later h.1)
    | inr (cn, e) ↦
        rw (e, on_record)
          (send_status-IsForgotten r.connector_id available no_error _ (h.0, later h.1))
  ]

  pub run_result-IsForgotten :
      (r : OnResult) (payload : Json) (c : Charger F)
      → IsForgotten base msg c
      → IsForgotten base msg (run_result env r payload c)
  unfolding run_result on_stop store_delete
  run_result-IsForgotten boot_result payload c h = on_boot-IsForgotten _ c h
  run_result-IsForgotten heartbeat_result payload c h = h
  run_result-IsForgotten no_result payload c h = h
  run_result-IsForgotten (authorize_result id tag) payload c h =
      on_authorize-IsForgotten id tag _ c h
  run_result-IsForgotten (start_result id tag now wh) payload c h =
      on_start-IsForgotten id tag now wh _ c h
  run_result-IsForgotten (stop_result id after) payload c h =
      run_after-IsForgotten id after _ (h.0, later h.1)
  run_result-IsForgotten (record_result r) payload c h = on_record-IsForgotten r c h

  pub run_error-IsForgotten :
      (r : OnError) (c : Charger F)
      → IsForgotten base msg c
      → IsForgotten base msg (run_error env r c)
  unfolding run_error
  run_error-IsForgotten boot_failed c h = h
  run_error-IsForgotten no_error_handler c h = h
  run_error-IsForgotten (authorize_failed id) c h = h

module _ {F : Type 0} ⦃fl : Float F⦄ (env : Env) where
  pub unmatched :
      (base : ℕ) (r : CallResult) (e : CallError) (c : Charger F)
      → e.message_id ≡ r.message_id
      → IsForgotten base r.message_id c
      → (handle_frame env (ok (a_result r)) c ≡ c) × (handle_frame env (ok (an_error e)) c ≡ c)
  unfolding handle_frame
  unmatched base r e c same h = (rw h.0 refl, rw (same, h.0) refl)

  pub answered_result :
      (base : ℕ) (r : CallResult) (c : Charger F)
      → AreFresh env base r.message_id
      → base ≤ c.ticks
      → IsForgotten base r.message_id (handle_frame env (ok (a_result r)) c)
  unfolding handle_frame
  answered_result base r c fresh n = elim (Option-cases (find_call r.message_id c.pending)) [
    | inl e ↦ rw (e, handle_frame) (e, n)
    | inr (pc, e) ↦
        rw (e, handle_frame)
          (run_result-IsForgotten env base r.message_id fresh pc.on_result _ _
            (delete_call-find_call r.message_id c.pending, n))
  ]

  pub answered_error :
      (base : ℕ) (e : CallError) (c : Charger F)
      → AreFresh env base e.message_id
      → base ≤ c.ticks
      → IsForgotten base e.message_id (handle_frame env (ok (an_error e)) c)
  unfolding handle_frame
  answered_error base e c fresh n = elim (Option-cases (find_call e.message_id c.pending)) [
    | inl none_left ↦ rw (none_left, handle_frame) (none_left, n)
    | inr (pc, found) ↦
        rw (found, handle_frame)
          (run_error-IsForgotten env base e.message_id fresh pc.on_error _
            (delete_call-find_call e.message_id c.pending, n))
  ]

  -- A later answer, to this call or another one, leaves it forgotten.
  pub result-IsForgotten :
      (base : ℕ) (msg : String) (r : CallResult) (c : Charger F)
      → AreFresh env base msg
      → IsForgotten base msg c
      → IsForgotten base msg (handle_frame env (ok (a_result r)) c)
  unfolding handle_frame
  result-IsForgotten base msg r c fresh h = elim (Option-cases (find_call r.message_id c.pending)) [
    | inl e ↦ rw (e, handle_frame) h
    | inr (pc, e) ↦
        rw (e, handle_frame)
          (run_result-IsForgotten env base msg fresh pc.on_result _ _
            (other_call msg r.message_id c.pending h.0, h.1))
  ]

  pub error-IsForgotten :
      (base : ℕ) (msg : String) (e : CallError) (c : Charger F)
      → AreFresh env base msg
      → IsForgotten base msg c
      → IsForgotten base msg (handle_frame env (ok (an_error e)) c)
  unfolding handle_frame
  error-IsForgotten base msg e c fresh h = elim (Option-cases (find_call e.message_id c.pending)) [
    | inl none_left ↦ rw (none_left, handle_frame) h
    | inr (pc, found) ↦
        rw (found, handle_frame)
          (run_error-IsForgotten env base msg fresh pc.on_error _
            (other_call msg e.message_id c.pending h.0, h.1))
  ]
