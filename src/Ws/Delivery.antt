-- ===== src/Ws/Delivery.antt =====
-- internal/transport/ws/client.go: the inbound channel hands on what was read, in order.
use charger_simulator.Common.{
  ◌≤◌, true, List, [], ◌∷◌, ◌++◌, Option, ◌≡◌, ◌≢◌, refl, sym, ap, ◌∙◌, ◌⊎◌, inl, inr, ◌↔◌, length,
  length-append, arith, append_assoc, Bool-cases, str_eq, not, if_cases,
}
use charger_simulator.Ws.Client.{
  ReadLoop, not_started, reading, exited, holding, Client, inbound_cap, Dialled, failed, negotiated,
  connect, close, LoopStep, read_frame, read_error, push, give_up, with_read, Reached, fresh,
  connects, steps, takes, closes,
}

module _ {A : Type 0} where
  abbrev pub held : ReadLoop A → List A
  held (holding x) = x ∷ []
  held _ = []

  -- The frames that the loop gave up on: none, or the one that it held when the client was closed.
  abbrev pub IsLost : Client A → List A → Type 0
  IsLost c lost = (lost ≡ []) ⊎ ((x : A) × (lost ≡ x ∷ []) × (c.loop ≡ exited) × (c.closed ≡ true))

  abbrev pub Delivers : List A → List A → Client A → Type 0
  Delivers rs ds c =
      (lost : List A) × (rs ≡ ds ++ (c.inbound ++ (held c.loop ++ lost))) × IsLost c lost

  none_lost : (c : Client A) (lost : List A) → IsLost c lost → c.loop ≢ exited → lost ≡ []
  none_lost c lost (inl e) going = e
  none_lost c lost (inr (x, e, done, shut)) going = absurd (going done)

  -- While the loop runs, nothing is lost.
  going_on :
      (rs ds : List A) (c : Client A) (l : ReadLoop A)
      → Delivers rs ds c
      → c.loop ≡ l
      → l ≢ exited
      → rs ≡ ds ++ (c.inbound ++ (held l ++ []))
  going_on rs ds c l (lost, e, h) at going =
      let none_yet = none_lost c lost h (λ done. going (sym at ∙ done)) in
      e
      ∙ ap (λ m. ds ++ (c.inbound ++ (held m ++ lost))) at
      ∙ ap (λ m. ds ++ (c.inbound ++ (held l ++ m))) none_yet

  step-Delivers :
      (rs ds : List A) (c c' : Client A) (o : Option A)
      → LoopStep c o c'
      → Delivers rs ds c
      → Delivers (with_read o rs) ds c'
  step-Delivers rs ds c c' o (read_frame x at open_) d = (
    [],
    ap (λ m. m ++ x ∷ []) (going_on rs ds c reading d at (λ e. cc e))
        ∙ append_assoc ds (c.inbound ++ []) (x ∷ [])
        ∙ ap (λ m. ds ++ m) (append_assoc c.inbound [] (x ∷ [])),
    inl refl,
  )
  step-Delivers rs ds c c' o (read_error at) d =
      ([], going_on rs ds c reading d at (λ e. cc e), inl refl)
  step-Delivers rs ds c c' o (push x at room) d = (
    [],
    going_on rs ds c (holding x) d at (λ e. cc e)
        ∙ ap (λ m. ds ++ m) (sym (append_assoc c.inbound (x ∷ []) [])),
    inl refl,
  )
  step-Delivers rs ds c c' o (give_up x at shut) d =
      (x ∷ [], going_on rs ds c (holding x) d at (λ e. cc e), inr (x, refl, refl, shut))

  take-Delivers :
      (rs ds : List A) (c : Client A) (x : A) (q : List A)
      → Delivers rs ds c
      → c.inbound ≡ x ∷ q
      → Delivers rs (ds ++ x ∷ []) (record c { inbound = q })
  take-Delivers rs ds c x q (lost, e, h) front = (
    lost,
    e
        ∙ ap (λ m. ds ++ (m ++ (held c.loop ++ lost))) front
        ∙ sym (append_assoc ds (x ∷ []) (q ++ (held c.loop ++ lost))),
    h,
  )

  shut_keeps :
      (c : Client A) (lost : List A)
      → IsLost c lost
      → IsLost (record c { closed = true; read_cancelled = c.dialled }) lost
  shut_keeps c lost (inl e) = inl e
  shut_keeps c lost (inr (x, e, done, shut)) = inr (x, e, done, refl)

  close-Delivers : (rs ds : List A) (c : Client A) → Delivers rs ds c → Delivers rs ds (close c)
  unfolding close
  close-Delivers rs ds c (lost, e, h) =
      if_cases (Delivers rs ds) c.closed (λ _. (lost, e, h)) (λ _. (lost, e, shut_keeps c lost h))

  connect-Delivers :
      (rs ds : List A) (c : Client A) (dial : Dialled)
      → Delivers rs ds c
      → c.loop ≡ not_started
      → Delivers rs ds (connect dial c).0
  unfolding connect
  connect-Delivers rs ds c failed d new = d
  connect-Delivers rs ds c (negotiated got) d new =
      elim (Bool-cases (not (str_eq got c.subprotocol))) [
        | inl other ↦ rw other d
        | inr same ↦ rw same ([], going_on rs ds c not_started d new (λ e. cc e), inl refl)
      ]

  Reached-Delivers : (rs ds : List A) (c : Client A) → Reached rs ds c → Delivers rs ds c
  Reached-Delivers _ _ _ (fresh url) = ([], refl, inl refl)
  Reached-Delivers rs ds _ (connects {c = c} dial r new) =
      connect-Delivers rs ds c dial (Reached-Delivers rs ds c r) new
  Reached-Delivers _ ds c' (steps {rs = rs} {c = c} {o = o} r step) =
      step-Delivers rs ds c c' o step (Reached-Delivers rs ds c r)
  Reached-Delivers rs _ _ (takes {ds = ds} {c = c} x q r front) =
      take-Delivers rs ds c x q (Reached-Delivers rs ds c r) front
  Reached-Delivers rs ds _ (closes {c = c} r) = close-Delivers rs ds c (Reached-Delivers rs ds c r)

  -- The inbound channel is within its capacity, and closed exactly if the loop has returned.
  abbrev pub IsSound : Client A → Type 0
  IsSound c = (length c.inbound ≤ inbound_cap) × ((c.inbound_closed ≡ true) ↔ (c.loop ≡ exited))

  step-IsSound : (c c' : Client A) (o : Option A) → LoopStep c o c' → IsSound c → IsSound c'
  step-IsSound c c' o (read_frame x at open_) (cap, shut) =
      (cap, (λ e. cc (shut.0 e, at), λ e. cc e))
  step-IsSound c c' o (read_error at) (cap, shut) = (cap, (λ _. refl, λ _. refl))
  step-IsSound c c' o (push x at room) (cap, shut) =
      (omega (arith, room, length-append c.inbound (x ∷ [])), (λ e. cc (shut.0 e, at), λ e. cc e))
  step-IsSound c c' o (give_up x at closed) (cap, shut) = (cap, (λ _. refl, λ _. refl))

  connect-IsSound :
      (c : Client A) (dial : Dialled)
      → IsSound c
      → c.loop ≡ not_started
      → IsSound (connect dial c).0
  unfolding connect
  connect-IsSound c failed h new = h
  connect-IsSound c (negotiated got) (cap, shut) new =
      elim (Bool-cases (not (str_eq got c.subprotocol))) [
        | inl other ↦ rw other (cap, shut)
        | inr same ↦ rw same (cap, (λ e. cc (shut.0 e, new), λ e. cc e))
      ]

  take-IsSound :
      (c : Client A) (x : A) (q : List A)
      → IsSound c
      → c.inbound ≡ x ∷ q
      → IsSound (record c { inbound = q })
  take-IsSound c x q (cap, shut) front = (omega (arith, cap, ap length front), shut)

  close-IsSound : (c : Client A) → IsSound c → IsSound (close c)
  unfolding close
  close-IsSound c h = if_cases IsSound c.closed (λ _. h) (λ _. h)

  Reached-IsSound : (rs ds : List A) (c : Client A) → Reached rs ds c → IsSound c
  Reached-IsSound _ _ _ (fresh url) = (omega arith, (λ e. cc e, λ e. cc e))
  Reached-IsSound rs ds _ (connects {c = c} dial r new) =
      connect-IsSound c dial (Reached-IsSound rs ds c r) new
  Reached-IsSound _ ds c' (steps {rs = rs} {c = c} {o = o} r step) =
      step-IsSound c c' o step (Reached-IsSound rs ds c r)
  Reached-IsSound rs _ _ (takes {ds = ds} {c = c} x q r front) =
      take-IsSound c x q (Reached-IsSound rs ds c r) front
  Reached-IsSound rs ds _ (closes {c = c} r) = close-IsSound c (Reached-IsSound rs ds c r)

  -- The client is a queue. After any steps of the read loop, of the reader and of the caller, what the
  -- connection has read is what the reader has taken, then what is in the channel, then the frame that
  -- the loop holds, in order; but for one frame at most, lost when the client was closed and
  -- the loop has returned. The channel is within its capacity, and it is closed exactly if the
  -- loop has returned.
  pub delivery : (rs ds : List A) (c : Client A) → Reached rs ds c → Delivers rs ds c × IsSound c
  delivery rs ds c r = (Reached-Delivers rs ds c r, Reached-IsSound rs ds c r)
