-- ===== src/Session/Store.antt =====
-- internal/session/store.go: the JSON-file store. The map is a list of records with distinct keys.
-- The parts of a key are compared in place of the text that `key` makes of them, which is in
-- Session.Key.
use charger_simulator.Common.{
  ℕ, String, str_eq, Bool, true, false, ◌&&◌, List, [], ◌∷◌, Option, none, some, is_some,
  if◌then◌else◌,
}
use charger_simulator.Common.Int.{ℤ, eq_ℤ}
use charger_simulator.Session.Disk.{
  OpenSession, Contents, missing, unreadable, corrupt, sessions, Dir, Io, atomic_write,
}

abbrev pub has_key : String → ℤ → OpenSession → Bool
has_key cpid id r = str_eq r.cpid cpid && eq_ℤ r.connector_id id

-- The map's operations.
unfoldable pub lookup : String → ℤ → List OpenSession → Option OpenSession
lookup cpid id [] = none
lookup cpid id (r ∷ rs) = if has_key cpid id r then some r else lookup cpid id rs

unfoldable pub insert : OpenSession → List OpenSession → List OpenSession
insert s [] = s ∷ []
insert s (r ∷ rs) = if has_key s.cpid s.connector_id r then s ∷ rs else r ∷ insert s rs

unfoldable pub remove : String → ℤ → List OpenSession → List OpenSession
remove cpid id [] = []
remove cpid id (r ∷ rs) = if has_key cpid id r then rs else r ∷ remove cpid id rs

pub record FileStore : Type 0 where
  pub records : List OpenSession
  pub dir : Dir

-- The records in memory, and whether the file was written.
unfoldable pub flush : Io → FileStore → FileStore × Bool
flush io fs =
    let (d, done) = atomic_write io (sessions fs.records) fs.dir in (record fs { dir = d }, done)

unfoldable pub put : Io → OpenSession → FileStore → FileStore × Bool
unfolding flush
put io s fs = flush io (record fs { records = insert s fs.records })

abbrev pub refreshed : ℤ → ℕ → OpenSession → OpenSession
refreshed wh at r = record r { last_meter_wh = wh; last_meter_at = at }

update_found : Io → ℤ → ℕ → FileStore → Option OpenSession → FileStore × Bool
unfolding flush
update_found io wh at fs none = (fs, true)
update_found io wh at fs (some r) =
    flush io (record fs { records = insert (refreshed wh at r) fs.records })

unfoldable pub update_meter : Io → String → ℤ → ℤ → ℕ → FileStore → FileStore × Bool
unfolding update_found
update_meter io cpid id wh at fs = update_found io wh at fs (lookup cpid id fs.records)

unfoldable pub delete : Io → String → ℤ → FileStore → FileStore × Bool
unfolding flush
delete io cpid id fs =
    if is_some (lookup cpid id fs.records)
    then flush io (record fs { records = remove cpid id fs.records })
    else (fs, true)

unfoldable pub load_open : String → List OpenSession → List OpenSession
load_open cpid [] = []
load_open cpid (r ∷ rs) =
    let rest = load_open cpid rs in if str_eq r.cpid cpid then r ∷ rest else rest

-- The records of the file, put into the map one after the other.
unfoldable pub insert_all : List OpenSession → List OpenSession → List OpenSession
insert_all m [] = m
insert_all m (r ∷ rs) = insert_all (insert r m) rs

-- Only a failure to make the directory is an error.
unfoldable pub new_file_store : Bool → Dir → Option FileStore
new_file_store false d = none
new_file_store true d = some (record { records = loaded d.path; dir = d })
  where
    loaded : Contents → List OpenSession
    loaded missing = []
    loaded unreadable = []
    loaded corrupt = []
    loaded (sessions rs) = insert_all [] rs
