-- ===== src/Ws/Client.antt =====
-- internal/transport/ws/client.go: the client, its operations and the read loop that it starts. The
-- connection is the library's: a read returns a frame or an error, a write succeeds or not. A client
-- is connected at most once, as the actor does.
use charger_simulator.Common.{
  ℕ, ◌<◌, String, str_eq, Bool, true, false, not, List, [], ◌∷◌, ◌++◌, Option, none, some, ◌≡◌,
  if◌then◌else◌, length,
}

-- The goroutine of `readLoop`: waiting in `Read`, or in the `select` with a frame in hand.
pub data ReadLoop (A : Type 0) : Type 0 where
  not_started reading exited : ReadLoop A
  holding : A → ReadLoop A

-- `dialled`: the connection is not nil. `closed` and `inbound_closed` tell whether the channels are
-- closed.
pub record Client (A : Type 0) : Type 0 where
  pub url : String
  pub subprotocol : String
  pub dialled : Bool
  pub inbound : List A
  pub inbound_closed : Bool
  pub read_cancelled : Bool
  pub closed : Bool
  pub loop : ReadLoop A

abbrev pub inbound_cap : ℕ
inbound_cap = 64

pub data ConnectError : Type 0 where
  dial_error : ConnectError
  not_negotiated : String → ConnectError

-- What the dial returns: an error, or a connection with its subprotocol.
pub data Dialled : Type 0 where
  failed : Dialled
  negotiated : String → Dialled

module _ {A : Type 0} where
  abbrev pub new_client : String → Client A
  new_client url = record {
    url = url;
    subprotocol = "ocpp1.6";
    dialled = false;
    inbound = [];
    inbound_closed = false;
    read_cancelled = false;
    closed = false;
    loop = not_started;
  }

  unfoldable pub connect : Dialled → Client A → Client A × Option ConnectError
  connect failed c = (c, some dial_error)
  connect (negotiated got) c =
      if not (str_eq got c.subprotocol)
      then (c, some (not_negotiated got))
      else (record c { dialled = true; loop = reading }, none)

  -- Whether a frame is sent: there is a connection, and its write succeeds.
  abbrev pub send : Bool → Client A → Bool
  send written c = if not c.dialled then false else written

  -- The `sync.Once` runs its function for the first caller only.
  unfoldable pub close : Client A → Client A
  close c = if c.closed then c else record c { closed = true; read_cancelled = c.dialled }

  -- The loop returns, and closes the inbound channel.
  abbrev pub exit_loop : Client A → Client A
  exit_loop c = record c { loop = exited; inbound_closed = true }

  -- One step of the read loop. A read whose context is cancelled returns an error and no frame; the
  -- `select` may take either case that is ready.
  pub data LoopStep (c : Client A) : Option A → Client A → Type 0 where
    read_frame :
        (x : A)
        → c.loop ≡ reading
        → c.read_cancelled ≡ false
        → LoopStep c (some x) (record c { loop = holding x })
    read_error : c.loop ≡ reading → LoopStep c none (exit_loop c)
    push :
        (x : A)
        → c.loop ≡ holding x
        → length c.inbound < inbound_cap
        → LoopStep c none (record c { inbound = c.inbound ++ x ∷ []; loop = reading })
    give_up : (x : A) → c.loop ≡ holding x → c.closed ≡ true → LoopStep c none (exit_loop c)

  abbrev pub with_read : Option A → List A → List A
  with_read none rs = rs
  with_read (some x) rs = rs ++ x ∷ []

  -- A client that `New` made, after a connection and any steps of the loop, of the reader of the
  -- inbound channel, and of the caller of `Close`, with the frames that the connection has read and
  -- those that the reader has taken, in order.
  pub data Reached : List A → List A → Client A → Type 0 where
    fresh : (url : String) → Reached [] [] (new_client url)
    connects :
        {rs ds : List A} {c : Client A} (d : Dialled)
        → Reached rs ds c
        → c.loop ≡ not_started
        → Reached rs ds (connect d c).0
    steps :
        {rs ds : List A} {c c' : Client A} {o : Option A}
        → Reached rs ds c
        → LoopStep c o c'
        → Reached (with_read o rs) ds c'
    takes :
        {rs ds : List A} {c : Client A} (x : A) (q : List A)
        → Reached rs ds c
        → c.inbound ≡ x ∷ q
        → Reached rs (ds ++ x ∷ []) (record c { inbound = q })
    closes : {rs ds : List A} {c : Client A} → Reached rs ds c → Reached rs ds (close c)
