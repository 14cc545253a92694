-- ===== src/Cms/Transactions.antt =====
-- cmd/stub-cms/main.go: the transaction ids, over all connections.
use mathlib.Core.Option
use charger_simulator.Common.{
  ℕ, suc, ◌+◌, ◌≤◌, ◌<◌, String, Bool, true, false, List, [], ◌∷◌, Option, none, some, ◌≡◌, refl,
  arith, length, if_cases,
}
use charger_simulator.Common.Int.{ℤ, pos}
use charger_simulator.Json.{fits_int}
use charger_simulator.J16.Messages.{StartTransactionResp}
use charger_simulator.J16.Frame.{
  Call, DecodedFrame, a_call, a_result, an_error, Result, ok, err, decode,
}
use charger_simulator.J16.Marshal.{TimeText}
use charger_simulator.J16.Unmarshal.{start_resp_of}
use charger_simulator.J16.Payloads.{start_read}
use charger_simulator.Cms.Server.{
  Cms, Reply, payload, Known, known_action, unknown, boot, heartbeat, status_notification,
  authorize, start, stop, meter_values, data_transfer, reply_to, handle_call, next, int_of,
  accepted_info, answer_frame, answer, Arrival, elem, write_answer, receive, receive_all,
}

abbrev pub id_in : StartTransactionResp → ℤ
id_in r = r.transaction_id

abbrev pub Small : ℕ → Type 0
Small n = n < 9223372036854775808

pub next-Small : (n : ℕ) → Small (suc n) → next n ≡ suc n
next-Small n small = omega (arith, small)

pub int_of-Small : (n : ℕ) → Small n → int_of n ≡ pos n
int_of-Small n small = ground (arith, small)

pub fits_int-Small : (n : ℕ) → Small n → fits_int (pos n) ≡ true
fits_int-Small n small = ground (arith, small)

module _ (times : TimeText) where
  abbrev pub id_of : Option (String × Reply) → Option ℤ
  id_of (some (_, payload p)) = Option.map id_in (start_resp_of times p)
  id_of _ = none

  -- The transaction id that a charger reads in the answer to an arrival.
  abbrev pub granted : Arrival → Cms → Option ℤ
  granted a s = id_of (answer times a.at a.bytes s).1

  -- The arrival is a StartTransaction.
  abbrev pub Starts : Arrival → Type 0
  Starts a = (c : Call) × (decode a.bytes ≡ ok (a_call c)) × (known_action c.action ≡ start)

  granted_lem :
      (a : Arrival) (s : Cms)
      → Starts a
      → Small (suc s.next_tx)
      → granted a s ≡ some (pos (suc s.next_tx))
  unfolding answer answer_frame handle_call reply_to
  granted_lem a s (c, e, k) small =
      rw
        (
          e,
          k,
          next-Small s.next_tx small,
          int_of-Small (suc s.next_tx) small,
          start_read times
              (record { id_tag_info = accepted_info; transaction_id = pos (suc s.next_tx) }) refl
              (fits_int-Small (suc s.next_tx) small),
        )
        refl

  -- The counter after a round: as it was, or one more.
  abbrev Advances : ℕ → ℕ → Type 0
  Advances n m = (n ≤ m) × (m ≤ suc n)

  stays : (n : ℕ) → Advances n n
  stays n = (omega arith, omega arith)

  reply_to-Advances :
      (k : Known) (now : ℕ) (action : String) (s : Cms)
      → Small (suc s.next_tx)
      → Advances s.next_tx (reply_to times k now action s).0.next_tx
  unfolding reply_to
  reply_to-Advances start now action s small =
      rw (next-Small s.next_tx small) (omega arith, omega arith)
  reply_to-Advances unknown now action s small = stays s.next_tx
  reply_to-Advances boot now action s small = stays s.next_tx
  reply_to-Advances heartbeat now action s small = stays s.next_tx
  reply_to-Advances status_notification now action s small = stays s.next_tx
  reply_to-Advances authorize now action s small = stays s.next_tx
  reply_to-Advances stop now action s small = stays s.next_tx
  reply_to-Advances meter_values now action s small = stays s.next_tx
  reply_to-Advances data_transfer now action s small = stays s.next_tx

  write_keeps :
      (n : ℕ) (written : Bool) (o : Option (String × Reply)) (s : Cms)
      → (write_answer n written o s).next_tx ≡ s.next_tx
  unfolding write_answer
  write_keeps n true none s = refl
  write_keeps n false none s = refl
  write_keeps n true (some (id, reply)) s = refl
  write_keeps n false (some (id, reply)) s = refl

  answer-Advances :
      (now : ℕ) (f : Result DecodedFrame) (s : Cms)
      → Small (suc s.next_tx)
      → Advances s.next_tx (answer_frame times now f s).0.next_tx
  unfolding answer_frame handle_call
  answer-Advances now (ok (a_call c)) s small =
      reply_to-Advances (known_action c.action) now c.action s small
  answer-Advances now (ok (a_result _)) s small = stays s.next_tx
  answer-Advances now (ok (an_error _)) s small = stays s.next_tx
  answer-Advances now (err _) s small = stays s.next_tx

  receive-Advances :
      (a : Arrival) (s : Cms)
      → Small (suc s.next_tx)
      → Advances s.next_tx (receive times a s).next_tx
  unfolding receive answer
  receive-Advances a s small =
      let r = answer_frame times a.at (decode a.bytes) s in
      if_cases (λ (s' : Cms). Advances s.next_tx s'.next_tx) (elem a.conn s.ended)
        (λ _. stays s.next_tx)
        (λ _.
          rw (write_keeps a.conn a.written r.1 r.0) (answer-Advances a.at (decode a.bytes) s small))

  all_advance :
      (rest : List Arrival) (s : Cms)
      → Small (length rest + s.next_tx)
      → (s.next_tx ≤ (receive_all times rest s).next_tx)
        × ((receive_all times rest s).next_tx ≤ length rest + s.next_tx)
  unfolding receive_all
  all_advance [] s small = (omega arith, omega arith)
  all_advance (a ∷ rest) s small =
      let one = receive-Advances a s (omega (arith, small)) in
      let more = all_advance rest (receive times a s) (omega (arith, one, small)) in
      (omega (arith, one, more), omega (arith, one, more))

  -- A StartTransaction that is answered takes a number.
  start_takes :
      (a : Arrival) (s : Cms)
      → Starts a
      → elem a.conn s.ended ≡ false
      → Small (suc s.next_tx)
      → (receive times a s).next_tx ≡ suc s.next_tx
  unfolding receive answer answer_frame handle_call reply_to
  start_takes a s (c, e, k) live small =
      rw
        (
          live,
          e,
          k,
          write_keeps a.conn a.written
              (some (c.message_id, (reply_to times start a.at c.action s).1))
              (reply_to times start a.at c.action s).0,
          next-Small s.next_tx small,
        )
        refl

  -- Of two answered StartTransaction calls, on whatever connections and with whatever calls of whatever
  -- chargers between them, the later one gets the greater transaction id, as the chargers
  -- read them; as long as the counter stays below 2^63.
  pub transaction_ids :
      (a b : Arrival) (between : List Arrival) (s : Cms)
      → Starts a
      → Starts b
      → elem a.conn s.ended ≡ false
      → length between + s.next_tx + 2 < 9223372036854775808
      → (i j : ℕ) × (granted a s ≡ some (pos i))
        × (granted b (receive_all times between (receive times a s)) ≡ some (pos j))
        × (i < j)
  transaction_ids a b between s first later live small =
      let s₁ : Cms = receive times a s in
      let s₂ : Cms = receive_all times between s₁ in
      let taken : s₁.next_tx ≡ suc s.next_tx = start_takes a s first live (omega (arith, small)) in
      let more = all_advance between s₁ (omega (arith, small, taken)) in
      (
        suc s.next_tx,
        suc s₂.next_tx,
        granted_lem a s first (omega (arith, small)),
        granted_lem b s₂ later (omega (arith, small, taken, more)),
        omega (arith, taken, more),
      )
