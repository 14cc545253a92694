-- ===== src/Tests/Sockets.antt =====
-- internal/transport/ws/client.go at concrete inputs.
use charger_simulator.Common.{ℕ, ◌≤◌, true, [], ◌∷◌, refl, arith}
use charger_simulator.Ws.Client.{
  ReadLoop, Client, holding, new_client, negotiated, connect, close, exit_loop, read_frame, push,
  give_up, Reached, fresh, connects, steps, takes,
}
use charger_simulator.Ws.Delivery.{Delivers, IsSound, delivery}
use charger_simulator.Ws.Shutdown.{LoopRun, no_step, one_more, CanEnd, close_ends_loop}

abbrev connected : Client ℕ
connected = record (new_client "ws://cms") { dialled = true; loop = ReadLoop.reading }

-- Two frames are read, the first is taken, and the second is in the loop's hand.
abbrev two_read : Client ℕ
two_read = record connected { loop = holding 8 }

two_read-Reached : Reached (7 ∷ 8 ∷ []) (7 ∷ []) two_read
unfolding connect
two_read-Reached =
    steps
      (takes 7 []
        (steps
          (steps (connects (negotiated "ocpp1.6") (fresh "ws://cms") refl) (read_frame 7 refl refl))
          (push 7 refl (omega arith)))
        refl)
      (read_frame 8 refl refl)

delivery_example : Delivers (7 ∷ 8 ∷ []) (7 ∷ []) two_read × IsSound two_read
delivery_example = delivery (7 ∷ 8 ∷ []) (7 ∷ []) two_read two_read-Reached

two_read-LoopRun : LoopRun 1 (close two_read) (exit_loop (close two_read))
unfolding close
two_read-LoopRun = one_more (give_up 8 refl refl) no_step

close_ends_loop_example : (1 ≤ 2) × CanEnd (exit_loop (close two_read))
close_ends_loop_example =
    close_ends_loop 1 two_read (exit_loop (close two_read)) refl refl two_read-LoopRun
