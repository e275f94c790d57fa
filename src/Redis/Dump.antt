-- ===== src/Redis/Dump.antt =====
-- redis/rdb.c: `rdbSaveDb` with its log, and `rdbSaveRio`, `rdbSaveRioWithEOFMark`. A dictionary is
-- the list of what its iterator gives. The clocks are functions of the number of keys saved; the
-- checksum is a field of the `rio`, which rio.c maintains.
pub mod State
pub mod Code
pub mod Noted
pub mod Log
pub mod File
pub mod Layout
mod Runs
use double_swap.Base.{
  ℕ, ◌+◌, ◌-◌, ◌%◌, ◌^◌, Bool, true, false, not, ◌&&◌, Option, none, some, List, [], ◌∷◌, ◌++◌, map,
  Bytes, leb, ◌==◌, if◌then◌else◌, length, Step, pure, ◌>>=◌, ◌>>◌, or_fail,
}
use double_swap.Base.Int.{ℤ}
use double_swap.Redis.Format.{Format}
use double_swap.Redis.Rio.{Sink, Rdb, write_raw}
use double_swap.Redis.Host.{Host}
use double_swap.Redis.Endian.{little_endian}
use double_swap.Redis.Length.{save_len}
use double_swap.Redis.Scalars.{save_type}
use double_swap.Redis.Text.{sds_encoded, int_encoded}
use double_swap.Redis.Opcodes.{Opcodes}
use double_swap.Redis.Counting.{◌⊕◌}
use double_swap.Redis.Object.{Value, string}
use double_swap.Redis.Entries.{
  Policy, Pair, Info, save_key_value_pair, save_info_aux_fields, save_functions,
}
use double_swap.Redis.Dump.State.{Tag, out_g_star, out_g, Notes, Dump, on_rdb, note, sized}
use double_swap.Trace.Pages.{object_pages}
use double_swap.Trace.Progress.{start_progress, count_key}

-- What of the server's configuration and state `rdbSaveDb` reads.
pub record Server : Type 0 where
  pub policy : Policy
  pub cluster_enabled : Bool
  pub in_fork_child : Bool
  pub page_size : ℕ  -- `sysconf(_SC_PAGESIZE)`

-- An entry of a database: the key's sds and the value, with their places in memory.
pub record KeyEntry : Type 0 where
  pub slot : ℕ
  pub keystr : Bytes
  pub key_address : ℕ
  pub value : Value
  pub value_address : ℕ  -- `o->ptr`
  pub foreign_size : Option ℕ  -- what `sdslen(o->ptr)` reads if no sds is there, none if it crashes
  pub expire : ℤ
  pub idle_time : ℕ
  pub frequency : ℕ

pub record Database : Type 0 where
  pub entries : List KeyEntry
  pub expires_size : ℕ
  pub slot_size : ℕ → ℕ  -- `kvstoreDictSize(db->keys, slot)`
  pub slot_expires : ℕ → ℕ

abbrev pub entry_pair : KeyEntry → Pair
entry_pair k = record {
  key = sds_encoded k.keystr;
  value = k.value;
  expiretime = k.expire;
  idle_time = k.idle_time;
  frequency = k.frequency;
}

-- `log_virtual_address` for the pages of an object.
unfoldable pub log_pages : List ℕ → Tag → Notes → Notes
log_pages pages tag n = record n { page_log = n.page_log ++ map (λ p. (p, tag)) pages }

-- "Update child info", with `mstime` as it is at each count of keys.
unfoldable pub update_child_info : (ℕ → ℕ) → Notes → Notes
update_child_info mstime n =
    let counted = n.key_counter + 1 in
    let now = mstime n.key_counter in
    if n.key_counter % 1024 == 0 && leb 1000 (now - n.info_updated_time)
    then record n {
      key_counter = counted;
      info_updated_time = now;
      child_infos = n.child_infos ++ counted ∷ [];
    }
    else record n { key_counter = counted }

-- `curr_slot != last_slot`; none is -1.
unfoldable pub differs : ℕ → Option ℕ → Bool
differs slot none = true
differs slot (some last) = not (slot == last)

unfoldable pub next_slot : Server → ℕ → Option ℕ → Option ℕ
next_slot v slot last = if v.cluster_enabled then some slot else last

-- `sdslen(o->ptr)`, which is called on every value. The pointer of an integer-encoded string is the
-- integer itself, and the read in front of it crashes.
unfoldable pub value_sdslen : KeyEntry → Value → Option ℕ
value_sdslen k (string (sds_encoded t)) = some (length t)
value_sdslen k (string (int_encoded n)) = none
value_sdslen k _ = k.foreign_size

-- The pages of an entry's key, and then those of its value.
unfoldable pub entry_pages : Server → KeyEntry → Option (List ℕ)
unfolding value_sdslen
entry_pages v k = elim (value_sdslen k k.value) [
  | none ↦ none
  | some size ↦ some (
      object_pages v.page_size k.key_address (length k.keystr)
      ++ object_pages v.page_size k.value_address size)
]

unfoldable pub dismiss : Server → ℕ → ℕ → Notes → Notes
dismiss v address dump_size n =
    if v.in_fork_child then record n { dismissed = n.dismissed ++ (address, dump_size) ∷ [] } else n

module _ (f : Format) (c : Opcodes) (e : Host) (w : Sink) (v : Server) (mstime : ℕ → ℕ) where
  -- "Save slot info", with the count of its bytes.
  unfoldable pub save_slot_info : Database → ℕ → Option ℕ → Step (Rdb w) ℕ
  unfolding differs
  save_slot_info db slot last =
      if v.cluster_enabled && differs slot last
      then (save_type w c.rdb_opcode_slot_info
          ⊕ save_len f w slot
          ⊕ save_len f w (db.slot_size slot)
          ⊕ save_len f w (db.slot_expires slot))
      else pure 0

  -- The round of an entry behind the slot info, once its pages are known. `elapsed` is the clock since
  -- the loop began.
  unfoldable pub save_logged : ℕ → (ℕ → ℕ) → KeyEntry → List ℕ → Step (Dump w) ℕ
  unfolding log_pages update_child_info dismiss
  save_logged db_size elapsed k pages = do
    note w (log_pages pages out_g_star)
    (res, dump_size) ← sized w (on_rdb w (save_key_value_pair f c e w v.policy (entry_pair k)))
    note w (log_pages pages out_g)
    note w (dismiss v k.value_address dump_size)
    note w (update_child_info mstime)
    note w (λ n. record n {
      progress = count_key db_size (elapsed (n.progress.keys_processed + 1)) n.progress;
    })
    pure res

  -- One round of the loop behind the slot info. Where `sdslen` crashes there is no result.
  unfoldable pub save_entry : ℕ → (ℕ → ℕ) → KeyEntry → Step (Dump w) ℕ
  unfolding entry_pages save_logged
  save_entry db_size elapsed k = or_fail (entry_pages v k) (save_logged db_size elapsed k)

  -- "Iterate this DB writing every entry".
  unfoldable pub save_entries : Database → (ℕ → ℕ) → Option ℕ → List KeyEntry → Step (Dump w) ℕ
  unfolding save_slot_info save_entry next_slot
  save_entries db elapsed last [] = pure 0
  save_entries db elapsed last (k ∷ ks) =
      on_rdb w (save_slot_info db k.slot last)
      ⊕ save_entry (length db.entries) elapsed k
      ⊕ save_entries db elapsed (next_slot v k.slot last) ks

  -- `rdbSaveDb`
  unfoldable pub save_db : ℕ → Database → (ℕ → ℕ) → Step (Dump w) ℕ
  unfolding save_entries
  save_db dbid db elapsed =
      let db_size = length db.entries in
      if db_size == 0
      then pure 0
      else on_rdb w (
          save_type w c.rdb_opcode_selectdb
          ⊕ save_len f w dbid
          ⊕ save_type w c.rdb_opcode_resizedb
          ⊕ save_len f w db_size
          ⊕ save_len f w db.expires_size)
        ⊕ (do
          note w (λ n. record n {
            earlier_reports = n.earlier_reports ++ n.progress.reports;
            progress = start_progress db_size;
          })
          save_entries db elapsed none db.entries)
