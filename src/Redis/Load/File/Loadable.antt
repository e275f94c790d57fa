-- ===== src/Redis/Load/File/Loadable.antt =====
-- Which files can be loaded again.
use double_swap.Base.{ℕ, ◌-◌, ◌^◌, ◌<◌, ◌≤◌, ◌≡◌, true, false, [], map, All, length}
use double_swap.Base.Int.{pos}
use double_swap.Redis.Opcodes.{Opcodes}
use double_swap.Redis.Host.{Host}
use double_swap.Redis.Dump.{KeyEntry, Database}
use double_swap.Redis.Dump.File.{Snapshot, magic}
use double_swap.Redis.Load.{Structures}
use double_swap.Redis.Load.Texts.{AreNew}
use double_swap.Redis.Load.Values.Loadable.{IsLoadable}
use double_swap.Redis.Load.File.{no_attributes, Loading, Config, drop_5}
use double_swap.Redis.Load.File.Saved.{keystr_of}
use double_swap.Redis.Load.File.Entries.{IsTaken}
use double_swap.Redis.Load.File.Preamble.{IsShortInfo, AreAccepted}

-- An entry that can be loaded, in a slot whose sizes are below 2 ^ 63.
pub record IsLoadableEntry (o : Opcodes) (e : Host) (c : Structures) (g : Config) (db : Database)
    (k : KeyEntry) : Type 0 where
  pub taken : IsTaken e g k
  pub value : IsLoadable o e c k.value
  pub slot_size : db.slot_size k.slot < 2 ^ 63
  pub slot_expires : db.slot_expires k.slot < 2 ^ 63

-- A database of fewer than 2 ^ 63 such entries, each under a name of its own.
pub record IsLoadableDb (o : Opcodes) (e : Host) (c : Structures) (g : Config) (db : Database)
    : Type 0 where
  pub size : length db.entries < 2 ^ 63
  pub expires_size : db.expires_size < 2 ^ 63
  pub names : AreNew [] (map keystr_of db.entries)
  pub entries : All (IsLoadableEntry o e c g db) db.entries

-- What is saved fits the server that loads it: nothing is left out, it knows the version, it has the
-- databases, and functions.c takes the functions.
pub record IsLoadableFile (o : Opcodes) (e : Host) (c : Structures) (g : Config) (x : Snapshot)
    : Type 0 where
  pub all_data : x.exclude_data ≡ false
  pub all_functions : x.exclude_functions ≡ false
  pub digits : g.atoi (drop_5 (magic x.rdb_version)) ≡ pos x.rdb_version
  pub recent : 9 ≤ x.rdb_version
  pub known : x.rdb_version ≤ g.rdb_version
  pub same_version : c.rdb_version ≡ x.rdb_version
  pub expire_limit : c.eb_expire_time_max < 2 ^ 64 - 1
  pub memory : (k : ℕ) → e.allocates k ≡ true
  pub info : IsShortInfo x.info
  pub functions : AreAccepted g [] x.functions
  pub room : length x.databases ≤ g.dbnum
  pub few : g.dbnum < 2 ^ 63
  pub databases : All (λ d. IsLoadableDb o e c g d.0) x.databases

-- The server has loaded nothing so far.
pub record IsBlank {V : Type 0} (s : Loading V) : Type 0 where
  pub attributes : s.attributes ≡ no_attributes
  pub keyspace : (j : ℕ) → s.keyspace j ≡ []
  pub libraries : s.libraries ≡ []
