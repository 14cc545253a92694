-- ===== src/Session/Lookup.antt =====
-- internal/session/store.go: what each operation does to the record under every key.
use mathlib.Core.Option
use charger_simulator.Common.{
  ℕ, String, str_eq, eq_iff, Bool, true, ◌&&◌, List, [], ◌∷◌, none, some, Option-cases,
  if◌then◌else◌, ◌≡◌, refl, arith, inl, inr,
}
use charger_simulator.Common.Int.{ℤ, eq_ℤ, eq_ℤ_iff}
use charger_simulator.Session.Disk.{OpenSession, Io}
use charger_simulator.Session.Store.{
  has_key, lookup, insert, remove, FileStore, put, update_meter, delete, refreshed,
}

-- The same key.
abbrev pub same_key : String → ℤ → String → ℤ → Bool
same_key c i c' i' = str_eq c c' && eq_ℤ i i'

pub lookup-insert :
    (s : OpenSession) (cpid : String) (id : ℤ) (rs : List OpenSession)
    → lookup cpid id (insert s rs) ≡ (if has_key cpid id s then some s else lookup cpid id rs)
unfolding lookup insert
lookup-insert s cpid id [] = refl
lookup-insert s cpid id (r ∷ rs) = ground (
  arith,
  lookup-insert s cpid id rs,
  eq_iff s.cpid cpid,
  eq_iff r.cpid cpid,
  eq_iff r.cpid s.cpid,
  eq_ℤ_iff s.connector_id id,
  eq_ℤ_iff r.connector_id id,
  eq_ℤ_iff r.connector_id s.connector_id,
)

-- The keys of the map are distinct.
abbrev pub AreDistinct : List OpenSession → Type 0
AreDistinct [] = Unit
AreDistinct (r ∷ rs) = (lookup r.cpid r.connector_id rs ≡ none) × AreDistinct rs

pub insert-AreDistinct :
    (s : OpenSession) (rs : List OpenSession) → AreDistinct rs → AreDistinct (insert s rs)
unfolding insert lookup
insert-AreDistinct s [] h = (refl, tt)
insert-AreDistinct s (r ∷ rs) h = ground (
  arith,
  insert-AreDistinct s rs,
  lookup-insert s r.cpid r.connector_id rs,
  eq_iff r.cpid s.cpid,
  eq_iff s.cpid r.cpid,
  eq_ℤ_iff r.connector_id s.connector_id,
  eq_ℤ_iff s.connector_id r.connector_id,
)

pub lookup-remove :
    (cpid : String) (id : ℤ) (c : String) (i : ℤ) (rs : List OpenSession)
    → AreDistinct rs
    → lookup c i (remove cpid id rs) ≡ (if same_key cpid id c i then none else lookup c i rs)
unfolding lookup remove
lookup-remove cpid id c i [] h = ground arith
lookup-remove cpid id c i (r ∷ rs) h = ground (
  arith,
  lookup-remove cpid id c i rs h.1,
  eq_iff r.cpid cpid,
  eq_iff r.cpid c,
  eq_iff cpid c,
  eq_ℤ_iff id i,
  eq_ℤ_iff r.connector_id id,
  eq_ℤ_iff r.connector_id i,
)

pub remove-AreDistinct :
    (cpid : String) (id : ℤ) (rs : List OpenSession)
    → AreDistinct rs
    → AreDistinct (remove cpid id rs)
unfolding remove lookup
remove-AreDistinct cpid id [] h = tt
remove-AreDistinct cpid id (r ∷ rs) h =
    ground
      (arith, remove-AreDistinct cpid id rs h.1, lookup-remove cpid id r.cpid r.connector_id rs h.1)

-- The record that a lookup finds has the key.
pub lookup-has_key :
    (cpid : String) (id : ℤ) (rs : List OpenSession) (r : OpenSession)
    → lookup cpid id rs ≡ some r
    → has_key cpid id r ≡ true
unfolding lookup
lookup-has_key cpid id [] r h = cc
lookup-has_key cpid id (x ∷ rs) r h = ground (arith, lookup-has_key cpid id rs r)

pub update_meter-lookup :
    (io : Io) (cpid : String) (id wh : ℤ) (at : ℕ) (c : String) (i : ℤ) (fs : FileStore)
    → lookup c i (update_meter io cpid id wh at fs).0.records ≡ (
        if same_key cpid id c i
        then Option.map (refreshed wh at) (lookup c i fs.records)
        else lookup c i fs.records)
unfolding update_meter
update_meter-lookup io cpid id wh at c i fs = elim (Option-cases (lookup cpid id fs.records)) [
  | inl e ↦ rw (e, update_meter) (ground (arith, e, eq_iff cpid c, eq_ℤ_iff id i))
  | inr (r, e) ↦
      rw (e, update_meter)
        (ground (
          arith,
          e,
          lookup-has_key cpid id fs.records r e,
          lookup-insert (refreshed wh at r) c i fs.records,
          eq_iff cpid c,
          eq_ℤ_iff id i,
          eq_iff r.cpid cpid,
          eq_iff r.cpid c,
          eq_ℤ_iff r.connector_id id,
          eq_ℤ_iff r.connector_id i,
        ))
]

pub delete-lookup :
    (io : Io) (cpid : String) (id : ℤ) (c : String) (i : ℤ) (fs : FileStore)
    → AreDistinct fs.records
    → lookup c i (delete io cpid id fs).0.records
      ≡ (if same_key cpid id c i then none else lookup c i fs.records)
unfolding delete
delete-lookup io cpid id c i fs h =
    ground (arith, lookup-remove cpid id c i fs.records h, eq_iff cpid c, eq_ℤ_iff id i)

pub update_meter-AreDistinct :
    (io : Io) (cpid : String) (id wh : ℤ) (at : ℕ) (fs : FileStore)
    → AreDistinct fs.records
    → AreDistinct (update_meter io cpid id wh at fs).0.records
unfolding update_meter
update_meter-AreDistinct io cpid id wh at fs h = elim (Option-cases (lookup cpid id fs.records)) [
  | inl e ↦ rw (e, update_meter) h
  | inr (r, e) ↦ rw (e, update_meter) (insert-AreDistinct (refreshed wh at r) fs.records h)
]

pub delete-AreDistinct :
    (io : Io) (cpid : String) (id : ℤ) (fs : FileStore)
    → AreDistinct fs.records
    → AreDistinct (delete io cpid id fs).0.records
unfolding delete
delete-AreDistinct io cpid id fs h = ground (arith, remove-AreDistinct cpid id fs.records h)

-- If the keys of the store are distinct: what the three operations that change it do to the record
-- under every key, whether or not the file is written: `put` sets one key; `update_meter` sets the last reading and its time in the
-- record of one key, if it has one, and nothing else of it; `delete` clears one key, and every other key keeps its record. The keys stay distinct.
pub store_operations :
    (io : Io) (s : OpenSession) (cpid : String) (id wh : ℤ) (at : ℕ) (fs : FileStore)
    → AreDistinct fs.records
    → ((c : String) (i : ℤ)
        → (lookup c i (put io s fs).0.records
            ≡ (if has_key c i s then some s else lookup c i fs.records))
          × (lookup c i (update_meter io cpid id wh at fs).0.records ≡ (
              if same_key cpid id c i
              then Option.map
                  (λ (r : OpenSession). record r { last_meter_wh = wh; last_meter_at = at })
                  (lookup c i fs.records)
              else lookup c i fs.records))
          × (lookup c i (delete io cpid id fs).0.records
              ≡ (if same_key cpid id c i then none else lookup c i fs.records)))
      × AreDistinct (put io s fs).0.records
      × AreDistinct (update_meter io cpid id wh at fs).0.records
      × AreDistinct (delete io cpid id fs).0.records
unfolding put
store_operations io s cpid id wh at fs h = (
  λ c i. (
    lookup-insert s c i fs.records,
    update_meter-lookup io cpid id wh at c i fs,
    delete-lookup io cpid id c i fs h,
  ),
  insert-AreDistinct s fs.records h,
  update_meter-AreDistinct io cpid id wh at fs h,
  delete-AreDistinct io cpid id fs h,
)
