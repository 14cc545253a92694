-- ===== src/Tests/Sessions.antt =====
-- internal/session/store.go at concrete inputs.
use mathlib.Core.Option
use charger_simulator.Common.{
  String, true, false, [], ◌∷◌, none, some, ◌≡◌, refl, ◌⊎◌, All, if◌then◌else◌,
}
use charger_simulator.Common.Int.{ℤ, pos}
use charger_simulator.Session.Disk.{
  OpenSession, Contents, sessions, Dir, io_ok, atomic_write, atomic_write_lem, write_states,
  write_states_whole, Disk, survives,
}
use charger_simulator.Session.Store.{
  has_key, lookup, put, update_meter, delete, new_file_store, insert_all, insert,
}
use charger_simulator.Session.Key.{key, has_key_lem}
use charger_simulator.Session.Store.{has_key}
use charger_simulator.Common.{◌↔◌, ◌||◌}
use charger_simulator.Session.Lookup.{AreDistinct, same_key, store_operations}
use charger_simulator.Session.Reload.{InSync, reload}
use charger_simulator.Tests.Values.{disk_ok, a_session, a_store}

abbrev another : OpenSession
another = record a_session { connector_id = pos 2; tx_id = pos 78 }

abbrev a_dir : Dir
a_dir = a_store.dir

abbrev new_contents : Contents
new_contents = sessions (another ∷ [])

atomic_write_lem_example :
    (((io_ok disk_ok ≡ true) × ((atomic_write disk_ok new_contents a_dir).0.path ≡ new_contents))
      ⊎ ((io_ok disk_ok ≡ false) × ((atomic_write disk_ok new_contents a_dir).0.path ≡ a_dir.path)))
    × ((atomic_write disk_ok new_contents a_dir).1 ≡ io_ok disk_ok)
    × ((io_ok disk_ok || disk_ok.removed) ≡ true
        → (atomic_write disk_ok new_contents a_dir).0.temp ≡ none)
atomic_write_lem_example = atomic_write_lem disk_ok new_contents a_dir refl

write_states_whole_example :
    All
      (λ (s : Disk). (survives false s.file ≡ a_dir.path) ⊎ (survives false s.file ≡ new_contents))
      (write_states disk_ok new_contents a_dir)
write_states_whole_example = write_states_whole disk_ok new_contents a_dir false

a_store-AreDistinct : AreDistinct a_store.records
unfolding lookup
a_store-AreDistinct = (refl, tt)

a_store-InSync : InSync a_store
unfolding new_file_store insert_all insert
a_store-InSync = refl

store_operations_example :
    ((c : String) (i : ℤ)
      → (lookup c i (put disk_ok another a_store).0.records
          ≡ (if has_key c i another then some another else lookup c i a_store.records))
        × (lookup c i (update_meter disk_ok "CP1" (pos 1) (pos 160) 12 a_store).0.records ≡ (
            if same_key "CP1" (pos 1) c i
            then Option.map
                (λ (r : OpenSession). record r { last_meter_wh = pos 160; last_meter_at = 12 })
                (lookup c i a_store.records)
            else lookup c i a_store.records))
        × (lookup c i (delete disk_ok "CP1" (pos 1) a_store).0.records
            ≡ (if same_key "CP1" (pos 1) c i then none else lookup c i a_store.records)))
    × AreDistinct (put disk_ok another a_store).0.records
    × AreDistinct (update_meter disk_ok "CP1" (pos 1) (pos 160) 12 a_store).0.records
    × AreDistinct (delete disk_ok "CP1" (pos 1) a_store).0.records
store_operations_example =
    store_operations disk_ok another "CP1" (pos 1) (pos 160) 12 a_store a_store-AreDistinct

reload_example :
    InSync (put disk_ok another a_store).0
    × InSync (update_meter disk_ok "CP1" (pos 1) (pos 160) 12 a_store).0
    × InSync (delete disk_ok "CP1" (pos 1) a_store).0
reload_example =
    reload disk_ok another "CP1" (pos 1) (pos 160) 12 a_store a_store-AreDistinct refl
      a_store-InSync

-- The separator in the id does no harm.
has_key_lem_example :
    (has_key "CP1\u{1f}" (pos 1) a_session ≡ true)
    ↔ (key a_session.cpid a_session.connector_id ≡ key "CP1\u{1f}" (pos 1))
has_key_lem_example = has_key_lem "CP1\u{1f}" (pos 1) a_session
