-- ===== src/Cms/Replies.antt =====
-- cmd/stub-cms/main.go: every call is answered, and nothing else is.
use charger_simulator.Common.{ℕ, String, true, false, ◌∷◌, some, ◌≡◌, refl, ◌≢◌}
use Prim.Native.String.{◌++◌}
use charger_simulator.Json.{Json, obj, end}
use charger_simulator.J16.Frame.{
  Call, DecodedFrame, a_call, a_result, an_error, Result, ok, err, decode, decode_elements,
  dispatch, decode_result, decode_error, marshal_result, marshal_error,
}
use charger_simulator.J16.Marshal.{TimeText}
use charger_simulator.Cms.Server.{
  Cms, Known, known_action, unknown, boot, heartbeat, status_notification, authorize, start, stop,
  meter_values, data_transfer, reply_to, handle_call, reply_frame, answer_frame, answer, Arrival,
  elem, write_answer, receive,
}

-- A frame that answers a call: the result with its message id for an action that the server knows,
-- the error with its message id for another.
pub data Answers (c : Call) (frame : Json) : Type 0 where
  with_result :
      (p : Json)
      → known_action c.action ≢ unknown
      → decode (some frame) ≡ ok (a_result (record { message_id = c.message_id; payload = some p }))
      → Answers c frame
  with_error :
      known_action c.action ≡ unknown
      → decode (some frame)
        ≡ ok (
            an_error (record {
              message_id = c.message_id;
              error_code = "InternalError";
              error_description = "unknown action: " ++ c.action;
              error_details = some (obj end);
            }))
      → Answers c frame

module _ (times : TimeText) where
  reply_to-Answers :
      (k : Known) (now : ℕ) (c : Call) (s : Cms)
      → known_action c.action ≡ k
      → Answers c (reply_frame c.message_id (reply_to times k now c.action s).1)
  unfolding reply_to reply_frame marshal_result marshal_error decode decode_elements dispatch
      decode_result decode_error
  reply_to-Answers unknown now c s e = with_error e refl
  reply_to-Answers boot now c s e = with_result _ (λ u. cc (e, u)) refl
  reply_to-Answers heartbeat now c s e = with_result _ (λ u. cc (e, u)) refl
  reply_to-Answers status_notification now c s e = with_result _ (λ u. cc (e, u)) refl
  reply_to-Answers authorize now c s e = with_result _ (λ u. cc (e, u)) refl
  reply_to-Answers start now c s e = with_result _ (λ u. cc (e, u)) refl
  reply_to-Answers stop now c s e = with_result _ (λ u. cc (e, u)) refl
  reply_to-Answers meter_values now c s e = with_result _ (λ u. cc (e, u)) refl
  reply_to-Answers data_transfer now c s e = with_result _ (λ u. cc (e, u)) refl

  reply_keeps_sent :
      (k : Known) (now : ℕ) (action : String) (s : Cms)
      → (reply_to times k now action s).0.sent ≡ s.sent
  unfolding reply_to
  reply_keeps_sent unknown now action s = refl
  reply_keeps_sent boot now action s = refl
  reply_keeps_sent heartbeat now action s = refl
  reply_keeps_sent status_notification now action s = refl
  reply_keeps_sent authorize now action s = refl
  reply_keeps_sent start now action s = refl
  reply_keeps_sent stop now action s = refl
  reply_keeps_sent meter_values now action s = refl
  reply_keeps_sent data_transfer now action s = refl

  -- A round of the loop: a call gets one more frame, on its own connection, that answers it; anything
  -- else leaves the server as it was.
  pub data Round (a : Arrival) (s s' : Cms) : Type 0 where
    answers_call :
        (c : Call) (frame : Json)
        → decode a.bytes ≡ ok (a_call c)
        → s'.sent ≡ (a.conn, frame) ∷ s.sent
        → Answers c frame
        → Round a s s'
    ignores : ((c : Call) → decode a.bytes ≢ ok (a_call c)) → s' ≡ s → Round a s s'

  receive-Round :
      (a : Arrival) (s : Cms) (f : Result DecodedFrame)
      → decode a.bytes ≡ f
      → elem a.conn s.ended ≡ false
      → a.written ≡ true
      → Round a s (receive times a s)
  unfolding receive answer answer_frame write_answer handle_call
  receive-Round a s (ok (a_call c)) e live written =
      answers_call c (reply_frame c.message_id (handle_call times a.at c.action s).1) e
        (rw (live, e, written, reply_keeps_sent (known_action c.action) a.at c.action s) refl)
        (reply_to-Answers (known_action c.action) a.at c s refl)
  receive-Round a s (ok (a_result r)) e live written =
      ignores (λ c h. cc (e, h)) (rw (live, e) refl)
  receive-Round a s (ok (an_error r)) e live written =
      ignores (λ c h. cc (e, h)) (rw (live, e) refl)
  receive-Round a s (err r) e live written = ignores (λ c h. cc (e, h)) (rw (live, e) refl)

  -- On a connection whose loop runs, while its writes succeed, every frame that is a call is answered by
  -- exactly one frame on that connection, with its message id: a result if the action is known, else
  -- an InternalError. Any other frame, and anything that cannot be decoded, changes nothing.
  pub receive_lem :
      (a : Arrival) (s : Cms)
      → elem a.conn s.ended ≡ false
      → a.written ≡ true
      → Round a s (receive times a s)
  receive_lem a s live written = receive-Round a s (decode a.bytes) refl live written
