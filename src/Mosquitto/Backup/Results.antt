-- ===== src/Mosquitto/Backup/Results.antt =====
-- On what the result of a backup depends.
use double_swap.Base.{
  ◌≡◌, refl, ◌∙◌, sym, Bool, true, false, not, ◌&&◌, Bool-cases, inl, inr, Option, none, some, List,
  Bytes, ◌==◌, if◌then◌else◌,
}
use double_swap.Mosquitto.Chunks.{cfg, Writer}
use double_swap.Mosquitto.Store.{message_store_save}
use double_swap.Mosquitto.Clients.{Context}
use double_swap.Mosquitto.Subs.{Subhier}
use double_swap.Mosquitto.Retained.{Retainhier}
use double_swap.Mosquitto.Backup.{
  Config, Broker, System, Removal, removed, missing, refused, Disk, Written, cfg_chunk, fill,
  after_rename, finish, after_open, after_unlink, after_malloc, with_config, backup,
}

-- The broker with other clients, subscriptions and retained messages.
abbrev pub with_others :
    List Context → List Subhier → List Subhier → List Retainhier → Broker → Broker
with_others contexts normal shared retains b = record b {
  contexts_by_id = contexts;
  normal_subs = normal;
  shared_subs = shared;
  retains = retains;
}

all_steps :
    {w : Writer} (x y z : Bool) (first second third last : Written w)
    → first.complete ≡ false
    → second.complete ≡ false
    → third.complete ≡ false
    → last.complete ≡ true
    → (if not x then first else if not y then second else if not z then third else last).complete
      ≡ (x && (y && z))
all_steps false y z first second third last a b c d = a
all_steps true false z first second third last a b c d = b
all_steps true true false first second third last a b c d = c
all_steps true true true first second third last a b c d = d

module _ (w : Writer) (sys : System w) (shutdown : Bool) (contexts : List Context)
    (normal shared : List Subhier) (retains : List Retainhier) (b : Broker) where
  abbrev c : Broker
  c = with_others contexts normal shared retains b

  fill-complete :
      (disk : Disk w) (f : w.File)
      → (fill w sys shutdown c disk f).complete ≡ (fill w sys shutdown b disk f).complete
  unfolding fill
  fill-complete disk f =
      let g = (sys.header f).1 in
      let k = cfg (cfg_chunk w sys shutdown b) in
      let h = (w.write k g).1 in
      let store =
        message_store_save w sys.page_size b.msg_store_count sys.clock b.msg_store h
          disk.page_log in
      let x = (sys.header f).0 in
      let y = (w.write k g).0 == 0 in
      let z = store.0 == 0 in
      all_steps x y z _ _ _ _ refl refl refl refl
      ∙ sym (all_steps x y z _ _ _ _ refl refl refl refl)

  after_rename-rc :
      (disk : Disk w) (s t : Written w) (renames : Bool)
      → (after_rename w sys disk s renames).rc ≡ (after_rename w sys disk t renames).rc
  unfolding after_rename
  after_rename-rc disk s t false = refl
  after_rename-rc disk s t true = refl

  finish-rc :
      (disk : Disk w) (s t : Written w)
      → s.complete ≡ t.complete
      → (finish w sys disk s).rc ≡ (finish w sys disk t).rc
  unfolding finish
  finish-rc disk s t e = elim (Bool-cases t.complete) [
    | inl z ↦ rw (finish, e, z) (after_rename-rc disk s t sys.renames)
    | inr z ↦ rw (finish, e, z) refl
  ]

  after_open-rc :
      (disk : Disk w) (o : Option w.File)
      → (after_open w sys shutdown c disk o).rc ≡ (after_open w sys shutdown b disk o).rc
  unfolding after_open
  after_open-rc disk none = refl
  after_open-rc disk (some f) = finish-rc disk _ _ (fill-complete disk f)

  after_unlink-rc :
      (disk : Disk w) (u : Removal)
      → (after_unlink w sys shutdown c disk u).rc ≡ (after_unlink w sys shutdown b disk u).rc
  unfolding after_unlink
  after_unlink-rc disk refused = refl
  after_unlink-rc disk removed = after_open-rc _ sys.opened
  after_unlink-rc disk missing = after_open-rc _ sys.opened

  after_malloc-rc :
      (disk : Disk w) (m : Bool)
      → (after_malloc w sys shutdown c disk m).rc ≡ (after_malloc w sys shutdown b disk m).rc
  unfolding after_malloc
  after_malloc-rc disk false = refl
  after_malloc-rc disk true = after_unlink-rc disk sys.unlink

  with_config-rc :
      (disk : Disk w) (config : Option Config)
      → (with_config w sys shutdown c disk config).rc
        ≡ (with_config w sys shutdown b disk config).rc
  unfolding with_config
  with_config-rc disk none = refl
  with_config-rc disk (some config) = by_path config.persistence config.persistence_filepath
    where
      by_path :
          (p : Bool) (o : Option Bytes)
          → (with_config w sys shutdown c disk
              (some (record config { persistence = p; persistence_filepath = o }))).rc
            ≡ (with_config w sys shutdown b disk
                (some (record config { persistence = p; persistence_filepath = o }))).rc
      by_path false o = refl
      by_path true none = refl
      by_path true (some path) = after_malloc-rc disk sys.outfile_memory

-- The result of a backup, whatever the system answers, does not depend on the clients, the
-- subscriptions and the retained messages, nor so on whether the writes of them succeed.
pub backup-rc :
    (w : Writer) (sys : System w) (shutdown : Bool) (contexts : List Context)
    (normal shared : List Subhier) (retains : List Retainhier) (b : Broker) (disk : Disk w)
    → (backup w sys shutdown (with_others contexts normal shared retains b) disk).rc
      ≡ (backup w sys shutdown b disk).rc
backup-rc w sys shutdown contexts normal shared retains b disk =
    with_config-rc w sys shutdown contexts normal shared retains b disk b.config
