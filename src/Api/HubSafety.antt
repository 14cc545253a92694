-- ===== src/Api/HubSafety.antt =====
-- internal/api/server.go: no dashboard makes the server panic, and Close reaches every one.
use charger_simulator.Common.{
  length, ℕ, Bool, true, false, not, List, [], ◌∷◌, Option, some, ◌==◌, ◌≡◌, refl, if_cases, All,
  arith, not-true, not-true,
}
use charger_simulator.Api.Hub.{
  Phase, greeted, serving, left, Tab, HubStep, joins, registers, broadcasts, writes, disconnects,
  shuts_down, join, enter, leave, write_phase, write_head, send_event, close_tab, tab_step, joined,
  each, hub_step, hub_run,
}

-- A step succeeds, and what it leaves has `P`.
abbrev pub Goes {κ} : {A : Type 0} → (A → Type κ) → Option A → Type κ
Goes {A = A} P o = (a : A) × (o ≡ some a) × P a

module _ {E : Type 0} where
  -- The channel of a registered dashboard is open, and so is that of one that is not registered yet; a
  -- write loop whose dashboard is not registered finds its channel closed.
  abbrev pub TabOpen : Tab E → Type 0
  TabOpen t =
      (t.registered ≡ true → t.out_closed ≡ false)
      × (t.phase ≡ greeted → (t.registered ≡ false) × (t.out_closed ≡ false))
      × (t.phase ≡ serving → t.registered ≡ false → t.out_closed ≡ true)

  -- Not registered, and its write loop, if there is one, will find the channel closed.
  abbrev pub TabShut : Tab E → Type 0
  TabShut t = (t.registered ≡ false) × (t.phase ≡ serving → t.out_closed ≡ true)

  enter-TabOpen : (t : Tab E) (p : Phase) → t.phase ≡ p → TabOpen t → TabOpen (enter p t)
  enter-TabOpen t greeted e (reg, new, served) = (λ _. (new e).1, λ h. cc h, λ _ h. cc h)
  enter-TabOpen t serving e h = h
  enter-TabOpen t left e h = h

  leave-TabOpen : (t : Tab E) (p : Phase) → TabOpen t → TabOpen (leave p t)
  leave-TabOpen t greeted h = h
  leave-TabOpen t serving h = (λ e. cc e, λ e. cc e, λ e. cc e)
  leave-TabOpen t left h = h

  write-TabOpen : (ok : Bool) (es : List E) (t : Tab E) → TabOpen t → TabOpen (write_head ok es t)
  write-TabOpen ok [] t h =
      if_cases TabOpen t.out_closed (λ _. (λ e. cc e, λ e. cc e, λ e. cc e)) (λ _. h)
  write-TabOpen true (e ∷ rest) t h = h
  write-TabOpen false (e ∷ rest) t h = (λ e. cc e, λ e. cc e, λ e. cc e)

  phase-TabOpen : (ok : Bool) (p : Phase) (t : Tab E) → TabOpen t → TabOpen (write_phase ok p t)
  phase-TabOpen ok serving t h = write-TabOpen ok t.out_ch t h
  phase-TabOpen ok greeted t h = h
  phase-TabOpen ok left t h = h

  send-TabOpen : (e : E) (t : Tab E) → TabOpen t → Goes TabOpen (send_event e t)
  unfolding send_event
  send-TabOpen e t h =
      if_cases (Goes TabOpen) (not t.registered) (λ _. (t, refl, h))
        (λ r.
          if_cases (Goes TabOpen) t.out_closed (λ shut. cc (h.0 (not-true t.registered r), shut))
            (λ _. (_, refl, h)))

  -- Open by the invariant, and shut.
  abbrev IsClosed : Tab E → Type 0
  IsClosed t = TabOpen t × TabShut t

  close-TabShut : (t : Tab E) → TabOpen t → Goes IsClosed (close_tab t)
  unfolding close_tab
  close-TabShut t h =
      if_cases (Goes IsClosed) (not t.registered)
        (λ r.
          let out : t.registered ≡ false = ground (arith, r) in
          (t, refl, (h, (out, λ serves. h.2 serves out))))
        (λ r.
          let reg : t.registered ≡ true = not-true t.registered r in
          if_cases (Goes IsClosed) t.out_closed (λ shut. cc (h.0 reg, shut))
            (λ _. (
              _,
              refl,
              ((λ e. cc e, λ new. cc ((h.1 new).0, reg), λ _ _. refl), (refl, λ _. refl)),
            )))

  tab_step-TabOpen : (s : HubStep E) (t : Tab E) → TabOpen t → Goes TabOpen (tab_step s t)
  unfolding tab_step
  tab_step-TabOpen (joins greet) t h = (t, refl, h)
  tab_step-TabOpen (registers k) t h =
      (_, refl, if_cases TabOpen (t.key == k) (λ _. enter-TabOpen t t.phase refl h) (λ _. h))
  tab_step-TabOpen (broadcasts e) t h = send-TabOpen e t h
  tab_step-TabOpen (writes k ok) t h =
      (_, refl, if_cases TabOpen (t.key == k) (λ _. phase-TabOpen ok t.phase t h) (λ _. h))
  tab_step-TabOpen (disconnects k) t h =
      (_, refl, if_cases TabOpen (t.key == k) (λ _. leave-TabOpen t t.phase h) (λ _. h))
  tab_step-TabOpen shuts_down t h = let (t', e, both) = close-TabShut t h in (t', e, both.0)

  -- A step on each dashboard.
  each-Goes :
      (P Q : Tab E → Type 0) (f : Tab E → Option (Tab E)) (ts : List (Tab E))
      → ((t : Tab E) → P t → Goes Q (f t))
      → All P ts
      → Goes (All Q) (each f ts)
  unfolding each
  each-Goes P Q f [] go all = ([], refl, tt)
  each-Goes P Q f (t ∷ ts) go all =
      let (t', e, q) = go t all.0 in
      let (ts', es, qs) = each-Goes P Q f ts go all.1 in (t' ∷ ts', rw (e, es) refl, (q, qs))

  join-TabOpen : (greet : Option E) (key : ℕ) → TabOpen (join greet key)
  unfolding join
  join-TabOpen greet key = (λ _. refl, λ _. (refl, refl), λ e. cc e)

  joined-TabOpen : (s : HubStep E) (ts : List (Tab E)) → All TabOpen ts → All TabOpen (joined s ts)
  joined-TabOpen (joins greet) ts all = (join-TabOpen greet (length ts), all)
  joined-TabOpen (registers _) ts all = all
  joined-TabOpen (broadcasts _) ts all = all
  joined-TabOpen (writes _ _) ts all = all
  joined-TabOpen (disconnects _) ts all = all
  joined-TabOpen shuts_down ts all = all

  run-Goes :
      (ss : List (HubStep E)) (ts : List (Tab E))
      → All TabOpen ts
      → Goes (All TabOpen) (hub_run ss ts)
  unfolding hub_run hub_step
  run-Goes [] ts all = (ts, refl, all)
  run-Goes (s ∷ ss) ts all =
      let (ts', e, all') = each-Goes TabOpen TabOpen (tab_step s) ts (tab_step-TabOpen s) all in
      let (ts'', e', all'') = run-Goes ss (joined s ts') (joined-TabOpen s ts' all') in
      (ts'', rw (e, e') refl, all'')

  -- Whatever the dashboards, the fanout and the handlers do, in any order, no send meets a closed
  -- channel and no channel is closed twice, so the server does not panic. And when it is then closed,
  -- no dashboard stays registered, and every write loop that still runs has its channel closed.
  pub hub_run_lem :
      (ss : List (HubStep E))
      → (ts : List (Tab E)) × (hub_run ss [] ≡ some ts)
        × All TabOpen ts
        × Goes (All TabShut) (hub_step shuts_down ts)
  unfolding hub_step tab_step
  hub_run_lem ss =
      let (ts, e, all) = run-Goes ss [] tt in
      let shut =
        each-Goes TabOpen TabShut close_tab ts
          (λ t h. let (t', e, both) = close-TabShut t h in (t', e, both.1)) all in
      (ts, e, all, (shut.0, rw shut.1 refl, shut.2))
