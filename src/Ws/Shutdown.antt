-- ===== src/Ws/Shutdown.antt =====
-- internal/transport/ws/client.go: `Close` ends the read loop.
use charger_simulator.Common.{
  ℕ, suc, ◌≤◌, ◌<◌, true, false, Option, none, ◌≡◌, refl, ap, ◌⊎◌, inl, inr, arith,
}
use charger_simulator.Ws.Client.{
  ReadLoop, not_started, reading, exited, holding, Client, close, exit_loop, LoopStep, read_frame,
  read_error, push, give_up,
}

module _ {A : Type 0} where
  -- A number of steps of the loop.
  pub data LoopRun : ℕ → Client A → Client A → Type 0 where
    no_step : {c : Client A} → LoopRun 0 c c
    one_more :
        {n : ℕ} {c c' c'' : Client A} {o : Option A}
        → LoopStep c o c'
        → LoopRun n c' c''
        → LoopRun (suc n) c c''

  -- The steps that a loop has left once its client is closed.
  abbrev pub rank : ReadLoop A → ℕ
  rank (holding x) = 2
  rank reading = 1
  rank _ = 0

  abbrev IsShut : Client A → Type 0
  IsShut c = (c.closed ≡ true) × (c.read_cancelled ≡ true)

  step_lowers :
      (c c' : Client A) (o : Option A)
      → IsShut c
      → LoopStep c o c'
      → IsShut c' × (rank c'.loop < rank c.loop)
  step_lowers c c' o shut (read_frame x at open_) = cc (shut.1, open_)
  step_lowers c c' o shut (read_error at) = (shut, omega (arith, ap rank at))
  step_lowers c c' o shut (push x at room) = (shut, omega (arith, ap rank at))
  step_lowers c c' o shut (give_up x at closed) = (shut, omega (arith, ap rank at))

  run_lowers : (n : ℕ) (c c' : Client A) → IsShut c → LoopRun n c c' → IsShut c' × (n ≤ rank c.loop)
  run_lowers _ c _ shut no_step = (shut, omega arith)
  run_lowers _ c c'' shut (one_more {n = n} {c' = c'} {o = o} step rest) =
      let (shut', less) = step_lowers c c' o shut step in
      let (shut'', few) = run_lowers n c' c'' shut' rest in (shut'', omega (arith, less, few))

  -- The loop has not been started, has returned, or can go on.
  abbrev pub CanEnd : Client A → Type 0
  CanEnd c =
      (c.loop ≡ not_started)
      ⊎ ((c.loop ≡ exited) ⊎ ((o : Option A) × (c' : Client A) × LoopStep c o c'))

  can_end : (c : Client A) (l : ReadLoop A) → c.loop ≡ l → IsShut c → CanEnd c
  can_end c not_started at shut = inl at
  can_end c exited at shut = inr (inl at)
  can_end c reading at shut = inr (inr (none, exit_loop c, read_error at))
  can_end c (holding x) at shut = inr (inr (none, exit_loop c, give_up x at shut.0))

  few_steps : (l : ReadLoop A) → rank l ≤ 2
  few_steps not_started = omega arith
  few_steps exited = omega arith
  few_steps reading = omega arith
  few_steps (holding x) = omega arith

  -- Once a connected client is closed, its read loop takes at most two steps, whatever they are, and is
  -- never blocked before it has returned, though nobody reads the inbound channel any more.
  pub close_ends_loop :
      (n : ℕ) (c c' : Client A)
      → c.dialled ≡ true
      → c.closed ≡ false
      → LoopRun n (close c) c'
      → (n ≤ 2) × CanEnd c'
  unfolding close
  close_ends_loop n c c' dialled open_ r =
      let shut : IsShut (close c) = rw open_ (refl, dialled) in
      let (shut', few) = run_lowers n (close c) c' shut r in
      (omega (arith, few, few_steps (close c).loop), can_end c' c'.loop refl shut')
