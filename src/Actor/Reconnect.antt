-- ===== src/Actor/Reconnect.antt =====
-- internal/actor/charger.go: the reconnection after an unexpected drop, its waits and its end.
use charger_simulator.Common.{
  ℕ, zero, suc, String, ◌*◌, ◌≤◌, ◌<◌, Bool, true, false, List, [], ◌∷◌, Option, none, some,
  if◌then◌else◌, ltb, length, ◌≡◌, refl, ◌∙◌, sym, arith, inl, inr, Bool-cases,
}
use charger_simulator.Meter.Float.{Float}
use charger_simulator.Actor.State.{call, Frame, boot_notification, Charger, Env}
use charger_simulator.J16.Messages.{BootNotificationReq}
use charger_simulator.Actor.Send.{send_boot, send_call}
use charger_simulator.Actor.Link.{
  dial_ok, dial_and_swap, attempt, next_backoff, Outcome, connected, reconnect_loop,
}

-- `n` doubled `i` times.
unfoldable pub doubled : ℕ → ℕ → ℕ
doubled n zero = n
doubled n (suc i) = doubled (n * 2) i

abbrev pub capped : ℕ → ℕ → ℕ
capped top n = if ltb top n then top else n

-- The wait after the failed attempt number `i`, from 0: the first is `first`, those after it double up
-- to `top`.
abbrev pub backoff_at : ℕ → ℕ → ℕ → ℕ
backoff_at top first zero = first
backoff_at top first (suc i) = capped top (doubled first (suc i))

abbrev pub wait_at : List ℕ → ℕ → Option ℕ
wait_at [] i = none
wait_at (w ∷ ws) zero = some w
wait_at (w ∷ ws) (suc i) = wait_at ws i

doubled-le : (top n i : ℕ) → top ≤ n → top ≤ doubled n i
unfolding doubled
doubled-le top n zero h = h
doubled-le top n (suc i) h = doubled-le top (n * 2) i (omega (arith, h))

capped_le : (top n : ℕ) → top ≤ n → capped top n ≡ top
capped_le top n h = ground (arith, h)

capped-doubled : (top n i : ℕ) → capped top (doubled (capped top n) i) ≡ capped top (doubled n i)
capped-doubled top n i = elim (Bool-cases (ltb top n)) [
  | inl over ↦
      let h : top ≤ n = ground (arith, over) in
      let cap : capped top n ≡ top = capped_le top n h in
      rw over (
        capped_le top (doubled top i) (doubled-le top top i (omega arith))
        ∙ sym (capped_le top (doubled n i) (doubled-le top n i h)))
  | inr under ↦ rw under refl
]

backoff_at-next :
    (top first i : ℕ) → backoff_at top (next_backoff top first) i ≡ backoff_at top first (suc i)
unfolding next_backoff doubled
backoff_at-next top first zero = refl
backoff_at-next top first (suc i) = capped-doubled top (first * 2) (suc i)

module _ {F : Type 0} ⦃fl : Float F⦄ (env : Env) (stop : ℕ → Bool) where
  -- The waits between the attempts are those of exponential backoff: the first is the initial
  -- backoff, and each wait after it twice the one before, but never above the maximum.
  pub reconnect_waits :
      (fuel top first i w : ℕ) (c : Charger F)
      → wait_at (reconnect_loop env stop fuel top first c).1 i ≡ some w
      → w ≡ backoff_at top first i
  unfolding reconnect_loop
  reconnect_waits zero top first i w c e = cc
  reconnect_waits (suc fuel) top first zero w c e = elim (Bool-cases (attempt env c).1) [
    | inl up ↦ cc (rw up at e)
    | inr down ↦ elim (Bool-cases (stop (attempt env c).0.ticks)) [
      | inl over ↦ cc (rw (down, over) at e)
      | inr goes_on ↦ cc (rw (down, goes_on) at e)
    ]
  ]
  reconnect_waits (suc fuel) top first (suc i) w c e = elim (Bool-cases (attempt env c).1) [
    | inl up ↦ cc (rw up at e)
    | inr down ↦ elim (Bool-cases (stop (attempt env c).0.ticks)) [
      | inl over ↦ cc (rw (down, over) at e)
      | inr goes_on ↦
          reconnect_waits fuel top (next_backoff top first) i w (attempt env c).0
            (rw (down, goes_on) at e)
          ∙ backoff_at-next top first i
    ]
  ]

-- The charger after `n` attempts.
abbrev pub after_attempts : {F : Type 0} ⦃fl : Float F⦄ → Env → ℕ → Charger F → Charger F
after_attempts env zero c = c
after_attempts env (suc n) c = after_attempts env n (attempt env c).0

-- The loop ended with a link: the client is open, and a BootNotification is the last frame written.
abbrev pub IsLinked : {F : Type 0} → Outcome F → Type 0
IsLinked {F} o =
    (c : Charger F) × (id : String) × (req : BootNotificationReq) × (rest : List Frame) × (o
      ≡ connected c)
    × (c.ws.closed ≡ false)
    × (c.wire ≡ call id (boot_notification req) ∷ rest)

module _ {F : Type 0} ⦃fl : Float F⦄ (env : Env) (stop : ℕ → Bool) where
  attempt-IsLinked :
      (c : Charger F) → (attempt env c).1 ≡ true → IsLinked (connected (attempt env c).0)
  unfolding attempt dial_and_swap send_boot send_call
  attempt-IsLinked c e = elim (Bool-cases (dial_ok env c)) [
    | inl dialled ↦ elim (Bool-cases (env.writes (suc c.ticks))) [
      | inl sent ↦ (
        (attempt env c).0,
        env.uuid (suc c.ticks),
        record {
          charge_point_vendor = c.cfg.vendor;
          charge_point_model = c.cfg.model;
          charge_point_serial_number = c.cfg.cpid;
          firmware_version = c.cfg.firmware_version;
        },
        c.wire,
        refl,
        rw (dialled, sent) refl,
        rw (dialled, sent) refl,
      )
      | inr lost ↦ cc (rw (dialled, lost) at e)
    ]
    | inr refused ↦ cc (rw refused at e)
  ]

  -- If the context is not cancelled, and some attempt gets its dial and its BootNotification through,
  -- the loop ends with a link after at most as many waits as attempts came before that one. Fuel for
  -- one attempt more than that is enough.
  pub reconnect_connects :
      (n fuel top first : ℕ) (c : Charger F)
      → ((k : ℕ) → stop k ≡ false)
      → n < fuel
      → (attempt env (after_attempts env n c)).1 ≡ true
      → IsLinked (reconnect_loop env stop fuel top first c).0
        × (length (reconnect_loop env stop fuel top first c).1 ≤ n)
  unfolding reconnect_loop
  reconnect_connects n zero top first c goes_on enough up = absurd (omega (arith, enough))
  reconnect_connects zero (suc fuel) top first c goes_on enough up =
      rw up (attempt-IsLinked c up, omega arith)
  reconnect_connects (suc n) (suc fuel) top first c goes_on enough up =
      elim (Bool-cases (attempt env c).1) [
        | inl now ↦ rw now (attempt-IsLinked c now, omega arith)
        | inr down ↦
            let (linked, few) =
              reconnect_connects n fuel top (next_backoff top first) (attempt env c).0 goes_on
                (omega (arith, enough)) up in
            rw (down, goes_on (attempt env c).0.ticks) (linked, omega (arith, few))
      ]
