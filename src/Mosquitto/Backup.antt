-- ===== src/Mosquitto/Backup.antt =====
-- mosquitto files/persist_write.c: `persist__backup`, without WIN32.
pub mod Others
pub mod Content
pub mod Results
pub mod Complete
use double_swap.Base.{
  ℕ, ◌+◌, ◌≡◌, Bool, true, false, not, ◌&&◌, Option, none, some, List, [], ◌∷◌, ◌++◌, Bytes, ◌==◌,
  if◌then◌else◌,
}
use double_swap.Base.Int.{ℤ}
use double_swap.Trace.Pages.{Tag}
use double_swap.Mosquitto.Chunks.{ClientMsgChunk, CfgChunk, cfg, Writer}
use double_swap.Mosquitto.Writes.{Extends}
use double_swap.Mosquitto.Store.{Stored, message_store_save}
use double_swap.Mosquitto.Clients.{Context, client_save}
use double_swap.Mosquitto.Subs.{Subhier, subs_save_all}
use double_swap.Mosquitto.Retained.{Retainhier, retain_save_all}

pub record Config : Type 0 where
  pub persistence : Bool
  pub persistence_filepath : Option Bytes
  pub autosave_interval : ℕ
  pub autosave_on_changes : Bool

-- The broker's `db`, as far as it is saved or decides on a save.
pub record Broker : Type 0 where
  pub config : Option Config
  pub last_db_id : ℕ
  pub now_s : ℕ
  pub now_real_s : ℕ
  pub persistence_changes : ℕ
  pub msg_store_count : ℤ
  pub msg_store : List Stored
  pub contexts_by_id : List Context
  pub normal_subs : List Subhier
  pub shared_subs : List Subhier
  pub retains : List Retainhier

-- What `unlink` says: done, ENOENT, or another error.
pub data Removal : Type 0 where
  removed : Removal
  missing : Removal
  refused : Removal

-- The answers of the system to one backup: those of `unlink`, `rename` and `mosquitto__malloc`, the
-- empty file of `mosquitto__fopen`, the writes of the header, which holds no chunk, and those of
-- `fflush`, `fsync` and `fclose`, with what is on the disk where one of them fails.
pub record System (w : Writer) : Type 0 where
  pub unlink : Removal
  pub opened : Option w.File
  pub opened-chunks : (f : w.File) → opened ≡ some f → w.chunks f ≡ []
  pub header : w.File → Bool × w.File
  pub header-chunks : (f : w.File) → w.chunks (header f).1 ≡ w.chunks f
  pub flushes : Bool
  pub syncs : Bool
  pub closes : Bool
  pub torn : w.File → w.File
  pub renames : Bool
  pub outfile_memory : Bool
  pub topic_memory : ℕ → Bool
  pub misread : ClientMsgChunk → w.File → ℕ × w.File  -- the wrong writer, which still only appends
  pub misread-appends : (c : ClientMsgChunk) (f : w.File) → Extends w f (misread c f).1
  pub page_size : ℕ
  pub clock : ℕ → ℕ
  pub dbid_size : ℕ

-- The files: the database, the new one beside it, and the two logs.
pub record Disk (w : Writer) : Type 0 where
  pub database : Option w.File
  pub outfile : Option w.File
  pub page_log : List (ℕ × Tag)
  pub reports : List (ℕ × ℕ)

-- What a backup returns and leaves.
pub record Backup (w : Writer) : Type 0 where
  pub rc : ℕ
  pub disk : Disk w

-- What was written into the new file, and whether this went as far as `fclose`.
pub record Written (w : Writer) : Type 0 where
  pub complete : Bool
  pub file : w.File
  pub page_log : List (ℕ × Tag)
  pub reports : List (ℕ × ℕ)

module _ (w : Writer) (sys : System w) where
  unfoldable pub cfg_chunk : Bool → Broker → CfgChunk
  cfg_chunk shutdown b = record {
    last_db_id = b.last_db_id;
    shutdown = shutdown;
    dbid_size = sys.dbid_size;
  }

  -- The last three saves, whose results are not read.
  unfoldable pub others_save : Broker → w.File → w.File
  others_save b f =
      let g = (client_save w sys.misread b.now_real_s b.contexts_by_id f).1 in
      let h = (subs_save_all w sys.topic_memory b.normal_subs b.shared_subs g).1 in
      (retain_save_all w b.retains h).1

  -- From the open file on, up to `fclose` or `error`.
  unfoldable pub fill : Bool → Broker → Disk w → w.File → Written w
  unfolding cfg_chunk
  fill shutdown b disk f =
      let (headed, g) = sys.header f in
      let (rc, h) = w.write (cfg (cfg_chunk shutdown b)) g in
      let (store_rc, s) =
        message_store_save w sys.page_size b.msg_store_count sys.clock b.msg_store h
          disk.page_log in
      let early : Bool → w.File → Written w = λ complete file. record {
        complete = complete;
        file = file;
        page_log = disk.page_log;
        reports = disk.reports;
      } in
      let stored : w.File → Bool → Written w = λ file complete. record {
        complete = complete;
        file = file;
        page_log = s.page_log;
        reports = disk.reports ++ s.counters.reports;
      } in
      if not headed
      then early false g
      else if not (rc == 0)
      then early false h
      else if not (store_rc == 0)
      then stored s.file false
      else stored (others_save b s.file) true

  abbrev pub leave : Option w.File → Option w.File → Written w → Disk w
  leave database outfile s = record {
    database = database;
    outfile = outfile;
    page_log = s.page_log;
    reports = s.reports;
  }

  -- The new file behind `fflush`, `fsync` and `fclose`, whose results are not read.
  unfoldable pub on_disk : w.File → w.File
  on_disk f = if sys.flushes && sys.syncs && sys.closes then f else sys.torn f

  -- What follows `rename`. Where it fails, `error` closes the file a second time.
  unfoldable pub after_rename : Disk w → Written w → Bool → Backup w
  after_rename disk s false = record {
    rc = 1;
    disk = leave disk.database (some (on_disk s.file)) s;
  }
  after_rename disk s true = record { rc = 0; disk = leave (some (on_disk s.file)) none s }

  -- What follows the writes, which `error` ends by closing the file.
  unfoldable pub finish : Disk w → Written w → Backup w
  unfolding after_rename on_disk
  finish disk s =
      if s.complete
      then after_rename disk s sys.renames
      else record { rc = 1; disk = leave disk.database (some (on_disk s.file)) s }

  -- A return before the new file is open.
  abbrev pub give_up : ℕ → Disk w → Backup w
  give_up rc disk = record { rc = rc; disk = disk }

  -- What follows `mosquitto__fopen`.
  unfoldable pub after_open : Bool → Broker → Disk w → Option w.File → Backup w
  after_open shutdown b disk none = give_up 1 disk
  after_open shutdown b disk (some f) = finish disk (fill shutdown b disk f)

  -- What follows `unlink`.
  unfoldable pub after_unlink : Bool → Broker → Disk w → Removal → Backup w
  unfolding after_open
  after_unlink shutdown b disk refused = give_up 1 disk
  after_unlink shutdown b disk removed =
      after_open shutdown b (record disk { outfile = none }) sys.opened
  after_unlink shutdown b disk missing =
      after_open shutdown b (record disk { outfile = none }) sys.opened

  -- What follows the `mosquitto__malloc` of the new file's name.
  unfoldable pub after_malloc : Bool → Broker → Disk w → Bool → Backup w
  unfolding after_unlink
  after_malloc shutdown b disk false = give_up 1 disk
  after_malloc shutdown b disk true = after_unlink shutdown b disk sys.unlink

  -- `persist__backup`; MOSQ_ERR_INVAL is 3 and MOSQ_ERR_NOMEM is 1.
  unfoldable pub with_config : Bool → Broker → Disk w → Option Config → Backup w
  unfolding after_malloc
  with_config shutdown b disk none = give_up 3 disk
  with_config shutdown b disk (some config) =
      if not config.persistence then give_up 0 disk else elim config.persistence_filepath [
        | none ↦ give_up 3 disk
        | some path ↦ after_malloc shutdown b disk sys.outfile_memory
      ]

  abbrev pub backup : Bool → Broker → Disk w → Backup w
  backup shutdown b disk = with_config shutdown b disk b.config
