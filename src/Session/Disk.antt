-- ===== src/Session/Disk.antt =====
-- internal/session/store.go: the store's file, and `atomicWrite`. A JSON file is the value that it
-- spells; whether each call of the operating system succeeds is an argument.
use charger_simulator.Common.{
  ℕ, String, Bool, true, false, ◌&&◌, ◌||◌, List, [], ◌∷◌, Option, none, some, if◌then◌else◌, ◌≡◌,
  arith, ◌⊎◌, All,
}
use charger_simulator.Common.Int.{ℤ}

pub record OpenSession : Type 0 where
  pub cpid : String
  pub connector_id : ℤ
  pub tx_id : ℤ
  pub id_tag : String
  pub meter_start_wh : ℤ
  pub started_at : ℕ
  pub last_meter_wh : ℤ
  pub last_meter_at : ℕ

-- What a read of the path gives: `os.ErrNotExist`, another error, text that is no list of sessions,
-- or the sessions.
pub data Contents : Type 0 where
  missing unreadable corrupt : Contents
  sessions : List OpenSession → Contents

-- The path, and the temporary file that was made last.
pub record Dir : Type 0 where
  pub path : Contents
  pub temp : Option Contents

-- Which of the calls in `atomicWrite` succeed; `removed` is that of the deferred `os.Remove`. A write
-- that fails leaves a part of the text.
pub record Io : Type 0 where
  pub created : Bool
  pub written : Bool
  pub synced : Bool
  pub closed : Bool
  pub renamed : Bool
  pub removed : Bool

-- There is no error. That of the removal is ignored.
abbrev pub io_ok : Io → Bool
io_ok io = io.created && (io.written && (io.synced && (io.closed && io.renamed)))

-- A file, and whether its text was synced to the disk.
pub record File : Type 0 where
  pub text : Contents
  pub is_synced : Bool

pub record Disk : Type 0 where
  pub file : File
  pub temp : Option File

-- The calls of `atomicWrite`, which returns early on the first that fails.
pub data WriteCall : Type 0 where
  create_temp write_temp sync_temp close_temp rename_temp : WriteCall

abbrev pub write_calls : List WriteCall
write_calls = create_temp ∷ write_temp ∷ sync_temp ∷ close_temp ∷ rename_temp ∷ []

abbrev succeeds : Io → WriteCall → Bool
succeeds io create_temp = io.created
succeeds io write_temp = io.written
succeeds io sync_temp = io.synced
succeeds io close_temp = io.closed
succeeds io rename_temp = io.renamed

abbrev sync_file : Option File → Option File
sync_file none = none
sync_file (some f) = some (record f { is_synced = true })

-- The temporary file takes the place of the file as it is, synced or not.
abbrev rename_over : Option File → Disk → Disk
rename_over none d = d
rename_over (some f) d = record { file = f; temp = none }

-- What a call does that succeeds.
abbrev call_done : Contents → WriteCall → Disk → Disk
call_done b create_temp d = record d { temp = some (record { text = corrupt; is_synced = false }) }
call_done b write_temp d = record d { temp = some (record { text = b; is_synced = false }) }
call_done b sync_temp d = record d { temp = sync_file d.temp }
call_done b close_temp d = d
call_done b rename_temp d = rename_over d.temp d

-- The deferred `os.Remove(tmpName)`.
abbrev remove_temp : Io → Disk → Disk
remove_temp io d = record d { temp = if io.removed then none else d.temp }

-- What is left when a call fails. Before the file is created, nothing is deferred.
abbrev call_failed : Io → WriteCall → Disk → Disk
call_failed io create_temp d = d
call_failed io _ d = remove_temp io d

-- The states that the disk passes through, and whether there was no error.
unfoldable pub run_calls : Io → Contents → List WriteCall → Disk → List Disk × Bool
run_calls io b [] d = ([], true)
run_calls io b (call ∷ calls) d =
    let after : Disk = call_done b call d in
    let rest = run_calls io b calls after in
    if succeeds io call then (after ∷ rest.0, rest.1) else (call_failed io call d ∷ [], false)

-- The file was there before, and is on the disk.
abbrev pub disk_of : Dir → Disk
disk_of d = record { file = record { text = d.path; is_synced = true }; temp = temp_of d.temp }
  where
    temp_of : Option Contents → Option File
    temp_of none = none
    temp_of (some b) = some (record { text = b; is_synced = false })

abbrev text_of : Option File → Option Contents
text_of none = none
text_of (some f) = some f.text

abbrev pub dir_of : Disk → Dir
dir_of d = record { path = d.file.text; temp = text_of d.temp }

abbrev last_of : Disk → List Disk → Disk
last_of d [] = d
last_of d (d' ∷ ds) = last_of d' ds

-- The directory afterwards, and whether there was no error.
unfoldable pub atomic_write : Io → Contents → Dir → Dir × Bool
unfolding run_calls
atomic_write io b d =
    let (states, done) = run_calls io b write_calls (disk_of d) in
    (dir_of (last_of (disk_of d) states), done)

-- The states in which a crash can find the disk.
unfoldable pub write_states : Io → Contents → Dir → List Disk
unfolding run_calls
write_states io b d = disk_of d ∷ (run_calls io b write_calls (disk_of d)).0

-- What a crash leaves of a file: of text that was not synced perhaps only a part.
unfoldable pub survives : Bool → File → Contents
survives kept f = if f.is_synced then f.text else if kept then f.text else corrupt

-- With no temporary file there before, the write replaces the whole file if every call succeeds, and
-- otherwise leaves the file as it was; it reports which, and leaves no temporary file behind, unless it
-- fails and its removal fails too.
pub atomic_write_lem :
    (io : Io) (b : Contents) (d : Dir)
    → d.temp ≡ none
    → (((io_ok io ≡ true) × ((atomic_write io b d).0.path ≡ b))
        ⊎ ((io_ok io ≡ false) × ((atomic_write io b d).0.path ≡ d.path)))
      × ((atomic_write io b d).1 ≡ io_ok io)
      × ((io_ok io || io.removed) ≡ true → (atomic_write io b d).0.temp ≡ none)
unfolding atomic_write
atomic_write_lem io b d h = ground (arith, h)

-- A crash at any point of the write leaves the file whole, the old contents or the new ones, though it
-- may leave only a part of text that was not synced.
pub write_states_whole :
    (io : Io) (b : Contents) (d : Dir) (kept : Bool)
    → All (λ s. (survives kept s.file ≡ d.path) ⊎ (survives kept s.file ≡ b)) (write_states io b d)
unfolding write_states survives
write_states_whole io b d kept = ground arith
