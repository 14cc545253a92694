-- ===== src/Cms/Server.antt =====
-- cmd/stub-cms/main.go: the server, its connections and its answers. A connection is known by a
-- number; an arrival is one frame that a connection reads, with the time of the answer and whether
-- its write succeeds. The order of the arrivals is the interleaving of the connections.
use Prim.Native.String.{◌++◌}
use charger_simulator.Common.{
  ℕ, ◌+◌, ◌-◌, ◌%◌, String, str_eq, Bool, true, false, ◌||◌, ◌==◌, ltb, List, [], ◌∷◌, Option, none,
  some, if◌then◌else◌,
}
use charger_simulator.Common.Int.{ℤ, pos, negsuc}
use charger_simulator.Json.{Json, str, obj, end, member}
use charger_simulator.J16.Enums.{AuthorizationStatus, RegistrationStatus}
use charger_simulator.J16.Messages.{IdTagInfo}
use charger_simulator.J16.Frame.{
  DecodedFrame, a_call, Result, ok, decode, marshal_result, marshal_error,
}
use charger_simulator.J16.Marshal.{
  TimeText, boot_resp_json, heartbeat_resp_json, authorize_resp_json, start_resp_json,
  stop_resp_json,
}

-- `nextTx`, an int64, is kept as its residue; `ended` are the connections whose loop has returned,
-- `sent` the frames written, the newest first.
pub record Cms : Type 0 where
  pub next_tx : ℕ
  pub ended : List ℕ
  pub sent : List (ℕ × Json)

abbrev pub new_cms : Cms
new_cms = record { next_tx = 1000; ended = []; sent = [] }

abbrev pub two_64 : ℕ
two_64 = 18446744073709551616

-- `nextTx.Add(1)`, and the int that a residue is.
abbrev pub next : ℕ → ℕ
next n = (n + 1) % two_64

abbrev pub int_of : ℕ → ℤ
int_of n = if ltb n 9223372036854775808 then pos n else negsuc (18446744073709551615 - n)

-- What `handleCall` returns: a payload, or the text of an error.
pub data Reply : Type 0 where
  payload : Json → Reply
  failure : String → Reply

abbrev pub accepted_info : IdTagInfo
accepted_info = record {
  status = AuthorizationStatus.accepted;
  expiry_date = none;
  parent_id_tag = "";
}

-- The actions of the `switch`.
pub data Known : Type 0 where
  boot heartbeat status_notification authorize start stop meter_values data_transfer : Known
  unknown : Known

unfoldable pub known_action : String → Known
known_action s =
    if str_eq s "BootNotification"
    then boot
    else if str_eq s "Heartbeat"
    then heartbeat
    else if str_eq s "StatusNotification"
    then status_notification
    else if str_eq s "Authorize"
    then authorize
    else if str_eq s "StartTransaction"
    then start
    else if str_eq s "StopTransaction"
    then stop
    else if str_eq s "MeterValues"
    then meter_values
    else if str_eq s "DataTransfer"
    then data_transfer
    else unknown

unfoldable pub reply_frame : String → Reply → Json
reply_frame id (payload p) = marshal_result (record { message_id = id; payload = some p })
reply_frame id (failure text) = marshal_error (record {
  message_id = id;
  error_code = "InternalError";
  error_description = text;
  error_details = some (obj end);
})

module _ (times : TimeText) where
  unfoldable pub reply_to : Known → ℕ → String → Cms → Cms × Reply
  reply_to boot now action s = (
    s,
    payload (
        boot_resp_json times
          (record { current_time = now; interval = pos 30; status = RegistrationStatus.accepted })),
  )
  reply_to heartbeat now action s =
      (s, payload (heartbeat_resp_json times (record { current_time = now })))
  reply_to status_notification now action s = (s, payload (obj end))
  reply_to authorize now action s =
      (s, payload (authorize_resp_json times (record { id_tag_info = accepted_info })))
  reply_to start now action s =
      let tx : ℕ = next s.next_tx in
      (
        record s { next_tx = tx },
        payload (
            start_resp_json times
              (record { id_tag_info = accepted_info; transaction_id = int_of tx })),
      )
  reply_to stop now action s =
      (s, payload (stop_resp_json times (record { id_tag_info = some accepted_info })))
  reply_to meter_values now action s = (s, payload (obj end))
  reply_to data_transfer now action s = (s, payload (obj (member "status" (str "Accepted") end)))
  reply_to unknown now action s = (s, failure ("unknown action: " ++ action))

  -- The payload of the call is not read.
  unfoldable pub handle_call : ℕ → String → Cms → Cms × Reply
  handle_call now action s = reply_to (known_action action) now action s

  -- The message id and the reply of the answer to a frame, if it has one: a frame that cannot be
  -- decoded or is no CALL has none.
  unfoldable pub answer_frame : ℕ → Result DecodedFrame → Cms → Cms × Option (String × Reply)
  answer_frame now (ok (a_call c)) s =
      let r = handle_call now c.action s in (r.0, some (c.message_id, r.1))
  answer_frame now _ s = (s, none)

  unfoldable pub answer : ℕ → Option Json → Cms → Cms × Option (String × Reply)
  answer now bytes s = answer_frame now (decode bytes) s

abbrev pub elem : ℕ → List ℕ → Bool
elem n [] = false
elem n (m ∷ ms) = let rest = elem n ms in (n == m) || rest

pub record Arrival : Type 0 where
  pub conn : ℕ
  pub bytes : Option Json
  pub at : ℕ
  pub written : Bool

-- A write that fails ends the loop after a CALLRESULT; its error is ignored after a CALLERROR.
abbrev end_loop : ℕ → Reply → List ℕ → List ℕ
end_loop n (payload _) ended = n ∷ ended
end_loop n (failure _) ended = ended

unfoldable pub write_answer : ℕ → Bool → Option (String × Reply) → Cms → Cms
write_answer n written none s = s
write_answer n true (some (id, reply)) s = record s { sent = (n, reply_frame id reply) ∷ s.sent }
write_answer n false (some (id, reply)) s = record s { ended = end_loop n reply s.ended }

module _ (times : TimeText) where
  -- One round of the loop of `handleWS`. A read that fails ends the loop.
  unfoldable pub receive : Arrival → Cms → Cms
  receive a s =
      let r = answer times a.at a.bytes s in
      if elem a.conn s.ended then s else write_answer a.conn a.written r.1 r.0

  unfoldable pub receive_all : List Arrival → Cms → Cms
  receive_all [] s = s
  receive_all (a ∷ rest) s = receive_all rest (receive a s)

abbrev pub end_read : ℕ → Cms → Cms
end_read n s = record s { ended = n ∷ s.ended }
