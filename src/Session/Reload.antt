-- ===== src/Session/Reload.antt =====
-- internal/session/store.go: the store read back after a restart, and the sessions of one charger.
use charger_simulator.Common.{
  ℕ, String, eq_iff, true, false, List, [], ◌∷◌, ◌++◌, none, some, is_some, ◌≡◌, refl, arith, inl,
  inr, All, sym, Bool-cases, Option-cases,
}
use mathlib.Core.List.{append_assoc, append-nil}
use charger_simulator.Common.Int.{ℤ, eq_ℤ_iff}
use charger_simulator.Session.Disk.{OpenSession, Io, io_ok, atomic_write}
use charger_simulator.Session.Store.{
  has_key, lookup, insert, insert_all, remove, FileStore, flush, put, update_meter, delete,
  load_open, new_file_store, refreshed,
}
use charger_simulator.Session.Lookup.{AreDistinct, insert-AreDistinct, remove-AreDistinct}

not-has_key :
    (c : String) (i : ℤ) (m : List OpenSession) (r : OpenSession) (rs : List OpenSession)
    → lookup c i (m ++ r ∷ rs) ≡ none
    → has_key c i r ≡ false
unfolding lookup
not-has_key c i [] r rs h = ground arith
not-has_key c i (x ∷ m) r rs h = not-has_key c i m r rs (ground arith)

-- A new key goes to the end.
insert_new :
    (r : OpenSession) (m rs : List OpenSession)
    → AreDistinct (m ++ r ∷ rs)
    → insert r m ≡ m ++ r ∷ []
unfolding insert
insert_new r [] rs h = refl
insert_new r (x ∷ m) rs h = ground (
  arith,
  insert_new r m rs h.1,
  not-has_key x.cpid x.connector_id m r rs h.0,
  eq_iff x.cpid r.cpid,
  eq_iff r.cpid x.cpid,
  eq_ℤ_iff x.connector_id r.connector_id,
  eq_ℤ_iff r.connector_id x.connector_id,
)

insert_all-append : (m rs : List OpenSession) → AreDistinct (m ++ rs) → insert_all m rs ≡ m ++ rs
unfolding insert_all
insert_all-append m [] h = sym (append-nil m)
insert_all-append m (r ∷ rs) h =
    rw (insert_new r m rs h, insert_all-append (m ++ r ∷ []) rs regrouped) (append_assoc m _ rs)
  where
    regrouped : AreDistinct ((m ++ r ∷ []) ++ rs)
    regrouped = rw append_assoc h

-- The file holds the records in memory.
abbrev pub InSync : FileStore → Type 0
InSync fs = new_file_store true fs.dir ≡ some fs

flush-InSync :
    (io : Io) (fs : FileStore) → AreDistinct fs.records → io_ok io ≡ true → InSync (flush io fs).0
unfolding flush new_file_store atomic_write
flush-InSync io fs h ok = ground (arith, insert_all-append [] fs.records h)

pub update_meter-InSync :
    (io : Io) (cpid : String) (id wh : ℤ) (at : ℕ) (fs : FileStore)
    → AreDistinct fs.records
    → io_ok io ≡ true
    → InSync fs
    → InSync (update_meter io cpid id wh at fs).0
unfolding update_meter
update_meter-InSync io cpid id wh at fs h ok sync =
    elim (Option-cases (lookup cpid id fs.records)) [
      | inl e ↦ rw (e, update_meter) sync
      | inr (r, e) ↦
          rw (e, update_meter)
            (flush-InSync io (record fs { records = insert (refreshed wh at r) fs.records })
              (insert-AreDistinct (refreshed wh at r) fs.records h) ok)
    ]

pub delete-InSync :
    (io : Io) (cpid : String) (id : ℤ) (fs : FileStore)
    → AreDistinct fs.records
    → io_ok io ≡ true
    → InSync fs
    → InSync (delete io cpid id fs).0
unfolding delete
delete-InSync io cpid id fs h ok sync = elim (Bool-cases (is_some (lookup cpid id fs.records))) [
  | inl e ↦
      rw (e, delete)
        (flush-InSync io (record fs { records = remove cpid id fs.records })
          (remove-AreDistinct cpid id fs.records h) ok)
  | inr e ↦ rw (e, delete) sync
]

-- If the file is in step with the store and the write succeeds, a process restarted after `put`,
-- `update_meter` or `delete` reads back exactly the records that the store holds in memory.
pub reload :
    (io : Io) (s : OpenSession) (cpid : String) (id wh : ℤ) (at : ℕ) (fs : FileStore)
    → AreDistinct fs.records
    → io_ok io ≡ true
    → InSync fs
    → InSync (put io s fs).0
      × InSync (update_meter io cpid id wh at fs).0
      × InSync (delete io cpid id fs).0
unfolding put
reload io s cpid id wh at fs h ok sync = (
  flush-InSync io (record fs { records = insert s fs.records }) (insert-AreDistinct s fs.records h)
      ok,
  update_meter-InSync io cpid id wh at fs h ok sync,
  delete-InSync io cpid id fs h ok sync,
)

-- `load_open` returns the sessions of the given charger, and each of them, unchanged: its records all
-- have that CPID, and under every key of that CPID it holds what the store holds.
pub load_open_lem :
    (cpid : String) (rs : List OpenSession)
    → All (λ r. r.cpid ≡ cpid) (load_open cpid rs)
      × ((id : ℤ) → lookup cpid id (load_open cpid rs) ≡ lookup cpid id rs)
unfolding load_open lookup
load_open_lem cpid [] = (tt, λ id. refl)
load_open_lem cpid (r ∷ rs) =
    let (own, found) = load_open_lem cpid rs in
    (ground (arith, own, eq_iff r.cpid cpid), λ id. ground (arith, found id, eq_iff r.cpid cpid))
