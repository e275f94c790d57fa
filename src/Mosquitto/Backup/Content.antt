-- ===== src/Mosquitto/Backup/Content.antt =====
-- What a backup leaves as the database.
use double_swap.Base.{
  ◌≡◌, refl, ap, ◌∙◌, Bool, true, false, not, ◌&&◌, Bool-cases, inl, inr, ◌⊎◌, Option, none, some,
  List, [], ◌∷◌, Bytes, ◌++◌, append_assoc, ◌==◌, ==_iff, if◌then◌else◌,
}
use double_swap.Mosquitto.Chunks.{Chunk, cfg, Writer}
use double_swap.Mosquitto.Store.{message_store_save}
use double_swap.Mosquitto.Store.Saved.{persistent, store_chunks, message_store_save_lem}
use double_swap.Mosquitto.Backup.{
  Config, Broker, System, Removal, removed, missing, refused, Disk, Backup, Written, cfg_chunk,
  on_disk, fill, after_rename, finish, after_open, after_unlink, after_malloc, with_config, backup,
}
use double_swap.Mosquitto.Backup.Others.{others_save-Extends}

-- The new file reaches the disk as a whole.
abbrev pub IsFlushed : {w : Writer} → System w → Type 0
IsFlushed sys = (sys.flushes && sys.syncs && sys.closes) ≡ true

module _ (w : Writer) (sys : System w) where
  -- The file holds the configuration, the whole store, and some chunks behind them.
  pub record HoldsStore (shutdown : Bool) (b : Broker) (file : w.File) : Type 0 where
    pub more : List Chunk
    pub content :
        w.chunks file
        ≡ cfg (cfg_chunk w sys shutdown b) ∷ (store_chunks (persistent b.msg_store) ++ more)

  steps :
      (x y z : Bool) (first second third last : Written w)
      → first.complete ≡ false
      → second.complete ≡ false
      → third.complete ≡ false
      → (if not x then first else if not y then second else if not z then third else last).complete
        ≡ true
      → (x ≡ true) × (y ≡ true) × (z ≡ true)
  steps false y z first second third last a b c h = cc (a, h)
  steps true false z first second third last a b c h = cc (b, h)
  steps true true false first second third last a b c h = cc (c, h)
  steps true true true first second third last a b c h = (refl, refl, refl)

  fill-HoldsStore :
      (shutdown : Bool) (b : Broker) (disk : Disk w) (f : w.File)
      → sys.opened ≡ some f
      → (fill w sys shutdown b disk f).complete ≡ true
      → HoldsStore shutdown b (fill w sys shutdown b disk f).file
  unfolding fill
  fill-HoldsStore shutdown b disk f opened complete =
      let g = (sys.header f).1 in
      let c = cfg (cfg_chunk w sys shutdown b) in
      let h = (w.write c g).1 in
      let store =
        message_store_save w sys.page_size b.msg_store_count sys.clock b.msg_store h
          disk.page_log in
      let (headed, wrote, stored) =
        steps (sys.header f).0 ((w.write c g).0 == 0) (store.0 == 0) _ _ _ _ refl refl refl
          complete in
      let rc : (w.write c g).0 ≡ 0 = (==_iff _ 0).0 wrote in
      let held : w.chunks h ≡ c ∷ [] =
        w.chunks-write c g rc
        ∙ ap (λ l. l ++ c ∷ []) (sys.header-chunks f ∙ sys.opened-chunks f opened) in
      let (more, behind) = others_save-Extends w sys b store.1.file in
      elim (message_store_save_lem w sys.page_size b.msg_store_count sys.clock b.msg_store h
        disk.page_log) [
          | inr (failed, _) ↦ absurd (failed ((==_iff _ 0).0 stored))
          | inl (_, saved) ↦
              rw (headed, wrote, stored)
                (record {
                  more = more;
                  content =
                      behind
                      ∙ ap (λ l. l ++ more) saved.held
                      ∙ append_assoc (w.chunks h) (store_chunks (persistent b.msg_store)) more
                      ∙ ap (λ l. l ++ (store_chunks (persistent b.msg_store) ++ more)) held;
                })
        ]

  -- The database is the old one, or it is the new file and the result is 0.
  abbrev pub IsReplaced : Bool → Broker → Disk w → Backup w → Type 0
  IsReplaced shutdown b disk r =
      (r.disk.database ≡ disk.database)
      ⊎ ((r.rc ≡ 0) × (file : w.File) × (r.disk.database ≡ some file) × HoldsStore shutdown b file)

module _ (w : Writer) (sys : System w) (flushed : IsFlushed sys) where
  pub on_disk_whole : (f : w.File) → on_disk w sys f ≡ f
  unfolding on_disk
  on_disk_whole f = rw (on_disk, flushed) refl

  after_rename-IsReplaced :
      (shutdown : Bool) (b : Broker) (disk : Disk w) (s : Written w) (renames : Bool)
      → HoldsStore w sys shutdown b s.file
      → IsReplaced w sys shutdown b disk (after_rename w sys disk s renames)
  unfolding after_rename
  after_rename-IsReplaced shutdown b disk s false h = inl refl
  after_rename-IsReplaced shutdown b disk s true h =
      inr (refl, s.file, ap some (on_disk_whole s.file), h)

  finish-IsReplaced :
      (shutdown : Bool) (b : Broker) (disk : Disk w) (f : w.File)
      → sys.opened ≡ some f
      → IsReplaced w sys shutdown b disk (finish w sys disk (fill w sys shutdown b disk f))
  unfolding finish
  finish-IsReplaced shutdown b disk f opened =
      let s = fill w sys shutdown b disk f in
      elim (Bool-cases s.complete) [
        | inr z ↦ rw (finish, z) (inl refl)
        | inl z ↦
            rw (finish, z)
              (after_rename-IsReplaced shutdown b disk s sys.renames
                (fill-HoldsStore w sys shutdown b disk f opened z))
      ]

  after_open-IsReplaced :
      (shutdown : Bool) (b : Broker) (disk : Disk w) (o : Option w.File)
      → sys.opened ≡ o
      → IsReplaced w sys shutdown b disk (after_open w sys shutdown b disk o)
  unfolding after_open
  after_open-IsReplaced shutdown b disk none e = inl refl
  after_open-IsReplaced shutdown b disk (some f) e = finish-IsReplaced shutdown b disk f e

  after_unlink-IsReplaced :
      (shutdown : Bool) (b : Broker) (disk : Disk w) (u : Removal)
      → IsReplaced w sys shutdown b disk (after_unlink w sys shutdown b disk u)
  unfolding after_unlink
  after_unlink-IsReplaced shutdown b disk refused = inl refl
  after_unlink-IsReplaced shutdown b disk removed =
      after_open-IsReplaced shutdown b (record disk { outfile = none }) sys.opened refl
  after_unlink-IsReplaced shutdown b disk missing =
      after_open-IsReplaced shutdown b (record disk { outfile = none }) sys.opened refl

  after_malloc-IsReplaced :
      (shutdown : Bool) (b : Broker) (disk : Disk w) (m : Bool)
      → IsReplaced w sys shutdown b disk (after_malloc w sys shutdown b disk m)
  unfolding after_malloc
  after_malloc-IsReplaced shutdown b disk false = inl refl
  after_malloc-IsReplaced shutdown b disk true = after_unlink-IsReplaced shutdown b disk sys.unlink

  with_config-IsReplaced :
      (shutdown : Bool) (b : Broker) (disk : Disk w) (config : Option Config)
      → IsReplaced w sys shutdown b disk (with_config w sys shutdown b disk config)
  unfolding with_config
  with_config-IsReplaced shutdown b disk none = inl refl
  with_config-IsReplaced shutdown b disk (some config) =
      by_path config.persistence config.persistence_filepath
    where
      by_path :
          (p : Bool) (o : Option Bytes)
          → IsReplaced w sys shutdown b disk (
              with_config w sys shutdown b disk
                (some (record config { persistence = p; persistence_filepath = o })))
      by_path false o = inl refl
      by_path true none = inl refl
      by_path true (some path) = after_malloc-IsReplaced shutdown b disk sys.outfile_memory

-- For every broker and all answers of the system, but that `fflush`, `fsync` and `fclose` of the
-- new file succeed, where the writer that is handed the messages of clients only adds to the file:
-- a backup leaves the database that was there, or it returns 0 and the database is a file that
-- holds the configuration, then the chunk of every persistent message of the store in their order,
-- then more chunks.
pub backup-IsReplaced :
    (w : Writer) (sys : System w) (shutdown : Bool) (b : Broker) (disk : Disk w)
    → IsFlushed sys
    → IsReplaced w sys shutdown b disk (backup w sys shutdown b disk)
backup-IsReplaced w sys shutdown b disk flushed =
    with_config-IsReplaced w sys flushed shutdown b disk b.config
