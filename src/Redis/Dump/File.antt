-- ===== src/Redis/Dump/File.antt =====
-- redis/rdb.c: a whole file, `rdbSaveRio` and `rdbSaveRioWithEOFMark`, and the bytes of it.
use double_swap.Base.{
  ℕ, suc, ◌+◌, ◌/◌, ◌%◌, ◌≡◌, Bool, true, false, not, none, some, List, [], ◌∷◌, Bytes,
  if◌then◌else◌, Step, pure, ◌>>◌,
}
use double_swap.Redis.Format.{Format}
use double_swap.Redis.Rio.{Sink, Rdb, write_raw}
use double_swap.Redis.Host.{Host}
use double_swap.Redis.Endian.{little_endian}
use double_swap.Redis.Opcodes.{Opcodes}
use double_swap.Redis.Scalars.{save_type}
use double_swap.Redis.Entries.{Info, optional, save_info_aux_fields, save_functions}
use double_swap.Redis.Dump.State.{Dump, on_rdb, note}
use double_swap.Redis.Dump.{Server, Database, save_db}

-- `rdb->update_cksum` and `rdb->cksum`: the checksum that rio.c keeps of what is sent.
pub record Checksum (w : Sink) : Type 0 where
  pub start : w.Stream → w.Stream
  pub cksum : w.Stream → ℕ
  pub sent-start : (s : w.Stream) → w.sent (start s) ≡ w.sent s

-- What is saved: the options of `rdbSaveRio`, and the server's data in the order of its iterators.
pub record Snapshot : Type 0 where
  pub rdb_version : ℕ
  pub rdb_checksum : Bool
  pub exclude_data : Bool  -- SLAVE_REQ_RDB_EXCLUDE_DATA
  pub exclude_functions : Bool
  pub info : Info
  pub functions : List Bytes
  pub databases : List (Database × (ℕ → ℕ))  -- each with the clock of its loop

-- "REDIS%04d", of a version of four digits.
unfoldable pub magic : ℕ → Bytes
magic version =
    82
    ∷ 69
    ∷ 68
    ∷ 73
    ∷ 83
    ∷ (48 + version / 1000 % 10)
    ∷ (48 + version / 100 % 10)
    ∷ (48 + version / 10 % 10)
    ∷ (48 + version % 10)
    ∷ []

module _ (w : Sink) (k : Checksum w) where
  -- `if (server.rdb_checksum) rdb->update_cksum = ...`
  unfoldable pub start_cksum : Bool → Step (Rdb w) ℕ
  start_cksum b none = none
  start_cksum b (some s) = some (0, some (if b then k.start s else s))

  -- `cksum = rdb->cksum`, in little-endian order
  unfoldable pub write_cksum : Step (Rdb w) ℕ
  write_cksum none = none
  write_cksum (some s) = write_raw w (little_endian 8 (k.cksum s)) (some s)

-- `modules` is `rdbSaveModulesAux` of module.c, before and after the data.
module _ (f : Format) (c : Opcodes) (e : Host) (w : Sink) (k : Checksum w) (v : Server)
    (mstime : ℕ → ℕ) (modules : Bool → Step (Rdb w) ℕ) where
  unfoldable pub save_databases : ℕ → List (Database × (ℕ → ℕ)) → Step (Dump w) ℕ
  save_databases j [] = pure 0
  save_databases j ((db, elapsed) ∷ dbs) =
      save_db f c e w v mstime j db elapsed >> save_databases (suc j) dbs

  -- `rdbSaveRio`; a result is C_OK, and none C_ERR.
  unfoldable pub save_rio : Snapshot → Step (Dump w) ℕ
  unfolding start_cksum magic optional save_databases write_cksum
  save_rio x = do
    note w (λ n. record n { key_counter = 0 })
    on_rdb w (start_cksum w k x.rdb_checksum)
    on_rdb w (write_raw w (magic x.rdb_version))
    on_rdb w (save_info_aux_fields f c e w x.info)
    on_rdb w (optional f c e w (not x.exclude_data) (modules true))
    on_rdb w (optional f c e w (not x.exclude_functions) (save_functions f c e w x.functions))
    if x.exclude_data then pure 0 else save_databases 0 x.databases
    on_rdb w (optional f c e w (not x.exclude_data) (modules false))
    on_rdb w (save_type w c.rdb_opcode_eof)
    on_rdb w (write_cksum w k)

  -- `rdbSaveRioWithEOFMark`, but for the events that it sends to modules: "$EOF:", the mark and an
  -- end of line in front, the mark behind.
  unfoldable pub save_rio_with_eof_mark : Bytes → Snapshot → Step (Dump w) ℕ
  unfolding save_rio
  save_rio_with_eof_mark eofmark x = do
    on_rdb w (write_raw w (36 ∷ 69 ∷ 79 ∷ 70 ∷ 58 ∷ []))
    on_rdb w (write_raw w eofmark)
    on_rdb w (write_raw w (13 ∷ 10 ∷ []))
    save_rio x
    on_rdb w (write_raw w eofmark)
