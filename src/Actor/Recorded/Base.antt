-- ===== src/Actor/Recorded/Base.antt =====
-- internal/actor/charger.go and internal/session/store.go: the transaction of a connector, the one on
-- record, and what the writes of the code do to the two.
use mathlib.Core.Option
use charger_simulator.Common.{
  ℕ, String, eq_iff, Bool, true, false, List, [], ◌∷◌, Option, none, some, if◌then◌else◌, ◌≡◌, refl,
  ◌⊎◌, inl, inr, arith, Option-cases, Bool-cases, map,
}
use charger_simulator.Common.Int.{ℤ, pos, eq_ℤ}
use charger_simulator.Config.{ChargerConfig}
use charger_simulator.Meter.Engine.{Engine}
use charger_simulator.Session.Disk.{OpenSession, io_ok}
use charger_simulator.Session.Store.{FileStore, lookup, insert, put, delete, update_meter, flush}
use charger_simulator.Session.Lookup.{
  AreDistinct, store_operations, same_key, lookup-insert, delete-AreDistinct, delete-lookup,
  update_meter-lookup, update_meter-AreDistinct,
}
use charger_simulator.Session.Reload.{InSync, reload, delete-InSync, update_meter-InSync}
use charger_simulator.Actor.State.{Connector, Env}
use charger_simulator.Actor.Connectors.{find_connector, modify, find-modify, KeepsId, with_engine}

-- The transaction of a connector that is there, 0 if it has none.
abbrev pub tx_of : {F : Type 0} → ℤ → List (Connector F) → Option ℤ
tx_of {F} id cns = Option.map (λ (cn : Connector F). cn.tx_id) (find_connector id cns)

-- The transaction on record.
abbrev pub tx_on_record : String → ℤ → FileStore → Option ℤ
tx_on_record cpid id fs = Option.map (λ (r : OpenSession). r.tx_id) (lookup cpid id fs.records)

-- A transaction that is open is the one on record.
abbrev pub Covered : Option ℤ → Option ℤ → Type 0
Covered none on_record = Unit
Covered (some tx) on_record = (tx ≡ pos 0) ⊎ (on_record ≡ some tx)

-- No call of the disk fails.
abbrev pub DiskWorks : Env → Type 0
DiskWorks env = (k : ℕ) → io_ok (env.io k) ≡ true

-- The keys are distinct, and if the disk works, a process that starts now reads back the store.
abbrev pub IsSound : Env → FileStore → Type 0
IsSound env fs = AreDistinct fs.records × (DiskWorks env → InSync fs)

-- Under a store, which is sound, the open transaction of every connector is on record.
abbrev pub AreRecorded :
    {F : Type 0} → Env → ChargerConfig F → Option FileStore → List (Connector F) → Type 0
AreRecorded env cfg none cns = Unit
AreRecorded env cfg (some fs) cns =
    IsSound env fs × ((id : ℤ) → Covered (tx_of id cns) (tx_on_record cfg.cpid id fs))

abbrev set_if : Bool → ℤ → Option ℤ → Option ℤ
set_if false tx o = o
set_if true tx none = none
set_if true tx (some _) = some tx

Covered-begin :
    (b : Bool) (tx : ℤ) (o on_record : Option ℤ)
    → Covered o on_record
    → Covered (set_if b tx o) (if b then some tx else on_record)
Covered-begin false tx o on_record covered = covered
Covered-begin true tx none on_record covered = tt
Covered-begin true tx (some _) on_record covered = inr refl

Covered-end :
    (b k : Bool) (o on_record : Option ℤ)
    → (k ≡ true → b ≡ true)
    → Covered o on_record
    → Covered (set_if b (pos 0) o) (if k then none else on_record)
Covered-end true k none on_record same covered = tt
Covered-end true k (some _) on_record same covered = inl refl
Covered-end false false o on_record same covered = covered
Covered-end false true o on_record same covered = cc (same refl)

module _ (env : Env) where
  put-IsSound :
      (k : ℕ) (s : OpenSession) (fs : FileStore)
      → IsSound env fs
      → IsSound env (put (env.io k) s fs).0
  put-IsSound k s fs (distinct, sync) = (
    let (_, kept, _, _) =
          store_operations (env.io k) s s.cpid s.connector_id (pos 0) 0 fs distinct in
        kept,
    λ works.
        (reload (env.io k) s s.cpid s.connector_id (pos 0) 0 fs distinct (works k) (sync works)).0,
  )

  delete-IsSound :
      (k : ℕ) (cpid : String) (id : ℤ) (fs : FileStore)
      → IsSound env fs
      → IsSound env (delete (env.io k) cpid id fs).0
  delete-IsSound k cpid id fs (distinct, sync) = (
    delete-AreDistinct (env.io k) cpid id fs distinct,
    λ works. delete-InSync (env.io k) cpid id fs distinct (works k) (sync works),
  )

  update_meter-IsSound :
      (k : ℕ) (cpid : String) (id wh : ℤ) (at : ℕ) (fs : FileStore)
      → IsSound env fs
      → IsSound env (update_meter (env.io k) cpid id wh at fs).0
  update_meter-IsSound k cpid id wh at fs (distinct, sync) = (
    update_meter-AreDistinct (env.io k) cpid id wh at fs distinct,
    λ works. update_meter-InSync (env.io k) cpid id wh at fs distinct (works k) (sync works),
  )

module _ {F : Type 0} where
  -- A write that keeps the id and the transaction.
  abbrev pub KeepsTx : (Connector F → Connector F) → Type 0
  KeepsTx f = (cn : Connector F) → ((f cn).id ≡ cn.id) × ((f cn).tx_id ≡ cn.tx_id)

  pub tx_of-modify :
      (id j : ℤ) (f : Connector F → Connector F) (cns : List (Connector F))
      → KeepsTx f
      → tx_of j (modify id f cns) ≡ tx_of j cns
  unfolding modify find_connector
  tx_of-modify id j f [] keeps = refl
  tx_of-modify id j f (cn ∷ cns) keeps = ground (arith, tx_of-modify id j f cns keeps, keeps cn)

  tx_of-map :
      (j : ℤ) (f : Engine F → Engine F) (cns : List (Connector F))
      → tx_of j (map (with_engine f) cns) ≡ tx_of j cns
  unfolding find_connector
  tx_of-map j f [] = refl
  tx_of-map j f (cn ∷ cns) = ground (arith, tx_of-map j f cns)

  -- A write that sets the transaction of one connector.
  tx_of-set :
      (id j tx : ℤ) (f : Connector F → Connector F) (cns : List (Connector F))
      → KeepsId f
      → ((cn : Connector F) → (f cn).tx_id ≡ tx)
      → tx_of j (modify id f cns) ≡ set_if (eq_ℤ id j) tx (tx_of j cns)
  tx_of-set id j tx f cns keeps sets =
      rw (find-modify id j f cns keeps) (elim (Bool-cases (eq_ℤ id j)) [
        | inl hit ↦ elim (Option-cases (find_connector j cns)) [
          | inl missing ↦ rw (hit, missing) refl
          | inr (cn, found) ↦ rw (hit, found, sets cn) refl
        ]
        | inr miss ↦ rw miss refl
      ])

module _ {F : Type 0} (env : Env) where
  pub modify-AreRecorded :
      (cfg : ChargerConfig F) (store : Option FileStore) (id : ℤ) (f : Connector F → Connector F)
      (cns : List (Connector F))
      → KeepsTx f
      → AreRecorded env cfg store cns
      → AreRecorded env cfg store (modify id f cns)
  modify-AreRecorded cfg none id f cns keeps rec = tt
  modify-AreRecorded cfg (some fs) id f cns keeps (sound, covered) =
      (sound, λ j. rw (tx_of-modify id j f cns keeps) (covered j))

  pub map-AreRecorded :
      (cfg : ChargerConfig F) (store : Option FileStore) (f : Engine F → Engine F)
      (cns : List (Connector F))
      → AreRecorded env cfg store cns
      → AreRecorded env cfg store (map (with_engine f) cns)
  map-AreRecorded cfg none f cns rec = tt
  map-AreRecorded cfg (some fs) f cns (sound, covered) =
      (sound, λ j. rw (tx_of-map j f cns) (covered j))

  -- A session that begins: its transaction is set, and put on record.
  pub put-AreRecorded :
      (cfg : ChargerConfig F) (fs : FileStore) (k : ℕ) (s : OpenSession)
      (f : Connector F → Connector F) (cns : List (Connector F))
      → s.cpid ≡ cfg.cpid
      → KeepsId f
      → ((cn : Connector F) → (f cn).tx_id ≡ s.tx_id)
      → AreRecorded env cfg (some fs) cns
      → AreRecorded env cfg (some (put (env.io k) s fs).0) (modify s.connector_id f cns)
  unfolding put flush
  put-AreRecorded cfg fs k s f cns own keeps sets (sound, covered) = (
    put-IsSound env k s fs sound,
    λ j.
        rw (tx_of-set s.connector_id j s.tx_id f cns keeps sets, begun j)
          (Covered-begin (eq_ℤ s.connector_id j) s.tx_id (tx_of j cns) (tx_on_record cfg.cpid j fs)
            (covered j)),
  )
    where
      begun :
          (j : ℤ)
          → Option.map (λ (r : OpenSession). r.tx_id) (lookup cfg.cpid j (insert s fs.records))
            ≡ (if eq_ℤ s.connector_id j then some s.tx_id else tx_on_record cfg.cpid j fs)
      begun j = ground (arith, own, lookup-insert s cfg.cpid j fs.records, eq_iff s.cpid cfg.cpid)

  -- A session that ends: its transaction is cleared, and its record deleted.
  pub delete-AreRecorded :
      (cfg : ChargerConfig F) (fs : FileStore) (k : ℕ) (cpid : String) (id : ℤ)
      (f : Connector F → Connector F) (cns : List (Connector F))
      → KeepsId f
      → ((cn : Connector F) → (f cn).tx_id ≡ pos 0)
      → AreRecorded env cfg (some fs) cns
      → AreRecorded env cfg (some (delete (env.io k) cpid id fs).0) (modify id f cns)
  delete-AreRecorded cfg fs k cpid id f cns keeps clears (sound, covered) = (
    delete-IsSound env k cpid id fs sound,
    λ j.
        rw (tx_of-set id j (pos 0) f cns keeps clears, ended j)
          (Covered-end (eq_ℤ id j) (same_key cpid id cfg.cpid j) (tx_of j cns)
            (tx_on_record cfg.cpid j fs) (λ same. ground (arith, same)) (covered j)),
  )
    where
      ended :
          (j : ℤ)
          → tx_on_record cfg.cpid j (delete (env.io k) cpid id fs).0
            ≡ (if same_key cpid id cfg.cpid j then none else tx_on_record cfg.cpid j fs)
      ended j =
          rw (delete-lookup (env.io k) cpid id cfg.cpid j fs sound.0)
            (elim (Bool-cases (same_key cpid id cfg.cpid j)) [
              | inl e ↦ rw e refl
              | inr e ↦ rw e refl
            ])

  -- A reading refreshes a record, and keeps its transaction.
  pub update_meter-AreRecorded :
      (cfg : ChargerConfig F) (fs : FileStore) (k : ℕ) (cpid : String) (id wh : ℤ) (at : ℕ)
      (cns : List (Connector F))
      → AreRecorded env cfg (some fs) cns
      → AreRecorded env cfg (some (update_meter (env.io k) cpid id wh at fs).0) cns
  update_meter-AreRecorded cfg fs k cpid id wh at cns (sound, covered) =
      (update_meter-IsSound env k cpid id wh at fs sound, λ j. rw (same j) (covered j))
    where
      same :
          (j : ℤ)
          → tx_on_record cfg.cpid j (update_meter (env.io k) cpid id wh at fs).0
            ≡ tx_on_record cfg.cpid j fs
      same j =
          rw (update_meter-lookup (env.io k) cpid id wh at cfg.cpid j fs)
            (elim (Bool-cases (same_key cpid id cfg.cpid j)) [
              | inl e ↦ elim (Option-cases (lookup cfg.cpid j fs.records)) [
                | inl missing ↦ rw (e, missing) refl
                | inr (r, found) ↦ rw (e, found) refl
              ]
              | inr e ↦ rw e refl
            ])

module _ {F : Type 0} where
  -- A write through the pointer of a connector that is not there does nothing.
  pub modify_missing :
      (id : ℤ) (f : Connector F → Connector F) (cns : List (Connector F))
      → find_connector id cns ≡ none
      → modify id f cns ≡ cns
  unfolding modify find_connector
  modify_missing id f [] e = refl
  modify_missing id f (cn ∷ cns) e = ground (arith, e, modify_missing id f cns)
