-- ===== src/Api/Fanout.antt =====
-- internal/api/server.go: the fanout of a charger's events to the dashboards. A dashboard has a
-- channel of 64 events, and a socket that its write loop writes to.
use charger_simulator.Common.{
  ℕ, ◌≤◌, List, [], ◌∷◌, ◌++◌, map, ◌==◌, if◌then◌else◌, length, length-append, ltb, ◌≡◌, refl, sym,
  ◌∙◌, ap, arith, Bool-cases, if_cases, inl, inr,
}
use mathlib.Core.List.{append_assoc, append-nil}
use charger_simulator.Actor.Snapshot.{offer}

abbrev pub out_cap : ℕ
out_cap = 64

-- `key` stands for the pointer in the server's set of clients; `written` is what the socket has got.
pub record Dashboard (E : Type 0) : Type 0 where
  pub key : ℕ
  pub out_ch : List E
  pub written : List E

-- The loops' steps: the fanout takes an event, or a write loop takes one and writes it.
pub data FanStep (E : Type 0) : Type 0 where
  event : E → FanStep E
  writes_one : ℕ → FanStep E

module _ {E : Type 0} where
  -- Non-blocking: a full channel drops the event.
  unfoldable pub receive : E → Dashboard E → Dashboard E
  receive e d = record d { out_ch = offer out_cap e d.out_ch }

  write_next : List E → Dashboard E → Dashboard E
  write_next [] d = d
  write_next (e ∷ rest) d = record d { out_ch = rest; written = d.written ++ e ∷ [] }

  unfoldable pub write : Dashboard E → Dashboard E
  unfolding write_next
  write d = write_next d.out_ch d

  -- The write loop of the dashboard with a key.
  unfoldable pub write_at : ℕ → Dashboard E → Dashboard E
  write_at n d = if d.key == n then write d else d

  unfoldable pub fan_step : FanStep E → List (Dashboard E) → List (Dashboard E)
  fan_step (event e) ds = map (receive e) ds
  fan_step (writes_one n) ds = map (write_at n) ds

  unfoldable pub fan_all : List (FanStep E) → List (Dashboard E) → List (Dashboard E)
  fan_all [] ds = ds
  fan_all (s ∷ ss) ds = fan_all ss (fan_step s ds)

  -- What one dashboard makes of the steps, alone.
  unfoldable pub follow : FanStep E → Dashboard E → Dashboard E
  follow (event e) d = receive e d
  follow (writes_one n) d = write_at n d

  abbrev pub follow_all : List (FanStep E) → Dashboard E → Dashboard E
  follow_all [] d = d
  follow_all (s ∷ ss) d = follow_all ss (follow s d)

  abbrev pub events_of : List (FanStep E) → List E
  events_of [] = []
  events_of (event e ∷ ss) = e ∷ events_of ss
  events_of (writes_one n ∷ ss) = events_of ss

  -- `xs` is `ys` with some entries left out.
  pub data IsThinned : List E → List E → Type 0 where
    nothing : IsThinned [] []
    keep : {e : E} {xs ys : List E} → IsThinned xs ys → IsThinned (e ∷ xs) (e ∷ ys)
    drop : {e : E} {xs ys : List E} → IsThinned xs ys → IsThinned xs (e ∷ ys)

  -- All that a dashboard has got, written or waiting.
  abbrev pub got : Dashboard E → List E
  got d = d.written ++ d.out_ch

  got-write : (d : Dashboard E) → got (write d) ≡ got d
  unfolding write
  got-write d = by_channel d.out_ch refl
    where
      by_channel : (es : List E) → d.out_ch ≡ es → got (write_next es d) ≡ d.written ++ es
      by_channel [] h = ap (λ es. d.written ++ es) h
      by_channel (e ∷ rest) h = append_assoc d.written (e ∷ []) rest

  got-write_at : (n : ℕ) (d : Dashboard E) → got (write_at n d) ≡ got d
  unfolding write_at
  got-write_at n d = elim (Bool-cases (d.key == n)) [
    | inl hit ↦ rw hit (got-write d)
    | inr miss ↦ rw miss refl
  ]

  got-receive :
      (e : E) (d : Dashboard E)
      → got (receive e d) ≡ (if ltb (length d.out_ch) out_cap then got d ++ e ∷ [] else got d)
  unfolding receive offer
  got-receive e d = elim (Bool-cases (ltb (length d.out_ch) out_cap)) [
    | inl room ↦ rw room (sym (append_assoc d.written d.out_ch (e ∷ [])))
    | inr full ↦ rw full refl
  ]

  follow-IsThinned :
      (ss : List (FanStep E)) (d : Dashboard E)
      → (kept : List E) × (got (follow_all ss d) ≡ got d ++ kept) × IsThinned kept (events_of ss)
  unfolding follow
  follow-IsThinned [] d = ([], sym (append-nil (got d)), nothing)
  follow-IsThinned (event e ∷ ss) d =
      let (kept, same, thinned) = follow-IsThinned ss (receive e d) in
      elim (Bool-cases (ltb (length d.out_ch) out_cap)) [
        | inl room ↦ (
          e ∷ kept,
          same
              ∙ ap (λ es. es ++ kept) (rw room at (got-receive e d))
              ∙ append_assoc (got d) (e ∷ []) kept,
          keep thinned,
        )
        | inr full ↦
            (kept, same ∙ ap (λ es. es ++ kept) (rw full at (got-receive e d)), drop thinned)
      ]
  follow-IsThinned (writes_one n ∷ ss) d =
      let (kept, same, thinned) = follow-IsThinned ss (write_at n d) in
      (kept, same ∙ ap (λ es. es ++ kept) (got-write_at n d), thinned)

  -- The channel never holds more than its capacity.
  receive_bounded :
      (e : E) (d : Dashboard E) → length d.out_ch ≤ out_cap → length (receive e d).out_ch ≤ out_cap
  unfolding receive offer
  receive_bounded e d h = ground (arith, h, length-append d.out_ch (e ∷ []))

  write_bounded : (d : Dashboard E) → length d.out_ch ≤ out_cap → length (write d).out_ch ≤ out_cap
  unfolding write
  write_bounded d h = by_channel d.out_ch h h
    where
      by_channel :
          (es : List E)
          → length es ≤ out_cap
          → length d.out_ch ≤ out_cap
          → length (write_next es d).out_ch ≤ out_cap
      by_channel [] _ h = h
      by_channel (e ∷ rest) h _ = omega (arith, h)

  follow_bounded :
      (ss : List (FanStep E)) (d : Dashboard E)
      → length d.out_ch ≤ out_cap
      → length (follow_all ss d).out_ch ≤ out_cap
  unfolding follow write_at
  follow_bounded [] d h = h
  follow_bounded (event e ∷ ss) d h = follow_bounded ss (receive e d) (receive_bounded e d h)
  follow_bounded (writes_one n ∷ ss) d h = follow_bounded ss (write_at n d) (
      if_cases (λ (d' : Dashboard E). length d'.out_ch ≤ out_cap) (d.key == n)
        (λ _. write_bounded d h) (λ _. h))

  fan_step-follow : (s : FanStep E) (ds : List (Dashboard E)) → fan_step s ds ≡ map (follow s) ds
  unfolding fan_step follow
  fan_step-follow (event e) ds = refl
  fan_step-follow (writes_one n) ds = refl

  map_twice :
      (f g : Dashboard E → Dashboard E) (ds : List (Dashboard E))
      → map g (map f ds) ≡ map (λ d. g (f d)) ds
  map_twice f g [] = refl
  map_twice f g (d ∷ ds) = ap (◌∷◌ (g (f d))) (map_twice f g ds)

  map_same : (ds : List (Dashboard E)) → ds ≡ map (λ d. d) ds
  map_same [] = refl
  map_same (d ∷ ds) = ap (◌∷◌ d) (map_same ds)

  alone : (ss : List (FanStep E)) (ds : List (Dashboard E)) → fan_all ss ds ≡ map (follow_all ss) ds
  unfolding fan_all
  alone [] ds = map_same ds
  alone (s ∷ ss) ds =
      alone ss (fan_step s ds)
      ∙ ap (map (follow_all ss)) (fan_step-follow s ds)
      ∙ map_twice (follow s) (follow_all ss) ds

  -- No dashboard depends on another: after any interleaving of events and writes, each is what it
  -- would be alone. Its channel stays within 64 events if it was so before. And what it has got, on
  -- the socket or waiting, is what it had and then events of the stream in their order, each at most
  -- as often as it was sent: a slow dashboard loses events, and never sees one twice or out of order.
  pub fan_all_lem :
      (ss : List (FanStep E)) (ds : List (Dashboard E)) (d : Dashboard E)
      → length d.out_ch ≤ out_cap
      → (fan_all ss ds ≡ map (follow_all ss) ds)
        × (length (follow_all ss d).out_ch ≤ out_cap)
        × (kept : List E) × (got (follow_all ss d) ≡ got d ++ kept)
        × IsThinned kept (events_of ss)
  fan_all_lem ss ds d h =
      let (kept, same, thinned) = follow-IsThinned ss d in
      (alone ss ds, follow_bounded ss d h, kept, same, thinned)
