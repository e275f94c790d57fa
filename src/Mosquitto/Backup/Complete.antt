-- ===== src/Mosquitto/Backup/Complete.antt =====
-- A backup in which nothing fails.
use double_swap.Base.{
  ℕ, ◌≡◌, ◌≢◌, refl, All, ap, ◌∙◌, Bool, true, inl, inr, Option, none, some, List, [], ◌∷◌, ◌++◌,
  append_assoc, Bytes, ==_iff,
}
use double_swap.Base.Int.{ℤ}
use double_swap.Mosquitto.Chunks.{Chunk, cfg, msg_store, Writer}
use double_swap.Mosquitto.Writes.{held_after}
use double_swap.Mosquitto.Store.{
  Stored, persistent_topic, store_chunk, StoreState, save_message, save_messages,
  message_store_save,
}
use double_swap.Mosquitto.Store.Saved.{persistent, store_chunks, message_store_save_lem}
use double_swap.Mosquitto.Clients.{client_save}
use double_swap.Mosquitto.Clients.Rows.{saved_contexts, IsQuiet, client_rows, client_save-Writes}
use double_swap.Mosquitto.Subs.{subs_save_all}
use double_swap.Mosquitto.Subs.Rows.{AreRoots, subscriptions, sub_rows, subs_save_all_lem}
use double_swap.Mosquitto.Retained.Rows.{retained, retain_rows, retain_save_all_lem}
use double_swap.Mosquitto.Backup.Content.{IsFlushed, on_disk_whole}
use double_swap.Mosquitto.Backup.{
  Config, Broker, System, Removal, removed, missing, refused, Disk, cfg_chunk, others_save, fill,
  after_rename, finish, after_open, after_unlink, after_malloc, with_config, backup,
}

-- The calls of the system that do not fail, for a broker that saves and whose clients have no message
-- to be saved.
pub record IsSmooth (w : Writer) (sys : System w) (b : Broker) : Type 0 where
  pub config : Config
  pub path : Bytes
  pub file : w.File
  pub configured : b.config ≡ some config
  pub persists : config.persistence ≡ true
  pub named : config.persistence_filepath ≡ some path
  pub clears : sys.unlink ≢ refused
  pub opens : sys.opened ≡ some file
  pub flushed : IsFlushed sys
  pub quiet : All IsQuiet (saved_contexts b.contexts_by_id)
  pub headed : (f : w.File) → (sys.header f).0 ≡ true
  pub renames : sys.renames ≡ true
  pub outfile_memory : sys.outfile_memory ≡ true
  pub topic_memory : (n : ℕ) → sys.topic_memory n ≡ true
  pub writes : (c : Chunk) (f : w.File) → (w.write c f).0 ≡ 0

-- The rows of the saves behind that of the store.
abbrev pub other_rows : (w : Writer) → System w → Broker → List Chunk
other_rows w sys b =
    client_rows b.now_real_s (saved_contexts b.contexts_by_id)
    ++ ((sub_rows (subscriptions b.normal_subs) ++ sub_rows (subscriptions b.shared_subs))
        ++ retain_rows (retained b.retains))

-- The file holds every chunk of the broker.
unfoldable pub HoldsAll : (w : Writer) → System w → Broker → Bool → w.File → Type 0
HoldsAll w sys b shutdown file =
    w.chunks file
    ≡ cfg (cfg_chunk w sys shutdown b)
      ∷ (store_chunks (persistent b.msg_store) ++ other_rows w sys b)

save_messages-zero :
    (w : Writer) (page_size : ℕ) (count : ℤ) (clock : ℕ → ℕ) (ms : List Stored) (s : StoreState w)
    → ((c : Chunk) (f : w.File) → (w.write c f).0 ≡ 0)
    → (save_messages w page_size count clock ms s).0 ≡ 0
unfolding save_messages save_message
save_messages-zero w page_size count clock [] s writes = refl
save_messages-zero w page_size count clock (m ∷ ms) s writes =
    by_topic (persistent_topic m) refl (λ t. save_messages-zero w page_size count clock ms t writes)
  where
    by_topic :
        (o : Option Bytes)
        → persistent_topic m ≡ o
        → ((t : StoreState w) → (save_messages w page_size count clock ms t).0 ≡ 0)
        → (save_messages w page_size count clock (m ∷ ms) s).0 ≡ 0
    by_topic none e ih = rw (save_messages, e) (ih s)
    by_topic (some topic) e ih =
        let ok = (==_iff _ 0).1 (writes (msg_store (store_chunk m topic)) s.file) in
        rw (save_messages, save_message, e, ok) (ih _)

module _ (w : Writer) (sys : System w) (b : Broker) (smooth : IsSmooth w sys b)
    (normal : AreRoots b.normal_subs) (shared : AreRoots b.shared_subs) where
  others_save-held :
      (f : w.File) → w.chunks (others_save w sys b f) ≡ w.chunks f ++ other_rows w sys b
  unfolding others_save
  others_save-held f =
      let c = client_save w sys.misread b.now_real_s b.contexts_by_id f in
      let g = subs_save_all w sys.topic_memory b.normal_subs b.shared_subs c.1 in
      let clients = client_rows b.now_real_s (saved_contexts b.contexts_by_id) in
      let subs = sub_rows (subscriptions b.normal_subs) ++ sub_rows (subscriptions b.shared_subs) in
      let client_held : w.chunks c.1 ≡ w.chunks f ++ clients =
        elim (client_save-Writes w sys.misread b.now_real_s b.contexts_by_id f smooth.quiet) [
          | inl (_, held) ↦ held
          | inr (_, h) ↦ absurd (h.fails (smooth.writes h.failing h.at))
        ] in
      held_after (w.chunks f) clients (subs ++ retain_rows (retained b.retains)) client_held (
        held_after (w.chunks c.1) subs (retain_rows (retained b.retains))
          (subs_save_all_lem w sys.topic_memory b.normal_subs b.shared_subs c.1 smooth.writes
            smooth.topic_memory normal shared)
          (retain_save_all_lem w b.retains g.1 smooth.writes))

  fill-HoldsAll :
      (shutdown : Bool) (disk : Disk w) (f : w.File)
      → sys.opened ≡ some f
      → let s = fill w sys shutdown b disk f in
        (s.complete ≡ true) × HoldsAll w sys b shutdown s.file
  unfolding fill HoldsAll message_store_save
  fill-HoldsAll shutdown disk f opened =
      let g = (sys.header f).1 in
      let c = cfg (cfg_chunk w sys shutdown b) in
      let h = (w.write c g).1 in
      let store =
        message_store_save w sys.page_size b.msg_store_count sys.clock b.msg_store h
          disk.page_log in
      let store_rc : store.0 ≡ 0 = save_messages-zero w _ _ _ b.msg_store _ smooth.writes in
      let held : w.chunks h ≡ c ∷ [] =
        w.chunks-write c g (smooth.writes c g)
        ∙ ap (λ l. l ++ c ∷ []) (sys.header-chunks f ∙ sys.opened-chunks f opened) in
      let behind = others_save-held store.1.file in
      elim (message_store_save_lem w sys.page_size b.msg_store_count sys.clock b.msg_store h
        disk.page_log) [
          | inr (failed, _) ↦ absurd (failed store_rc)
          | inl (_, saved) ↦
              rw (smooth.headed f, (==_iff _ 0).1 (smooth.writes c g), (==_iff _ 0).1 store_rc)
                (
                  refl,
                  behind
                      ∙ ap (λ l. l ++ other_rows w sys b) saved.held
                      ∙ append_assoc (w.chunks h) (store_chunks (persistent b.msg_store))
                          (other_rows w sys b)
                      ∙ ap (λ l. l ++ (store_chunks (persistent b.msg_store) ++ other_rows w sys b))
                          held,
                )
        ]

  unlinked :
      (shutdown : Bool) (disk : Disk w) (u : Removal)
      → u ≢ refused
      → after_unlink w sys shutdown b disk u
        ≡ after_open w sys shutdown b (record disk { outfile = none }) sys.opened
  unfolding after_unlink
  unlinked shutdown disk removed h = refl
  unlinked shutdown disk missing h = refl
  unlinked shutdown disk refused h = absurd (h refl)

  with_path :
      (shutdown : Bool) (disk : Disk w)
      → with_config w sys shutdown b disk (some smooth.config)
        ≡ after_malloc w sys shutdown b disk sys.outfile_memory
  unfolding with_config
  with_path shutdown disk = rw (with_config, smooth.persists, smooth.named) refl

  finished :
      (shutdown : Bool) (disk : Disk w)
      → backup w sys shutdown b disk
        ≡ finish w sys
            (record disk { outfile = none })
            (fill w sys shutdown b (record disk { outfile = none }) smooth.file)
  unfolding after_malloc after_open
  finished shutdown disk =
      ap (with_config w sys shutdown b disk) smooth.configured
      ∙ with_path shutdown disk
      ∙ ap (after_malloc w sys shutdown b disk) smooth.outfile_memory
      ∙ unlinked shutdown disk sys.unlink smooth.clears
      ∙ ap (after_open w sys shutdown b (record disk { outfile = none })) smooth.opens

-- When no call of the system fails, persistence is on with a path, no client has a message to be
-- saved in its queues, and each length that is kept of a topic level is right: the backup returns 0,
-- no new file is left beside the database, and the database holds the configuration, the persistent
-- messages of the store, the clients, the subscriptions and the retained messages, in this order,
-- and nothing else.
pub backup-HoldsAll :
    (w : Writer) (sys : System w) (b : Broker) (shutdown : Bool) (disk : Disk w)
    → IsSmooth w sys b
    → AreRoots b.normal_subs
    → AreRoots b.shared_subs
    → let r = backup w sys shutdown b disk in
      (r.rc ≡ 0)
      × (r.disk.outfile ≡ none)
      × (file : w.File) × (r.disk.database ≡ some file)
      × HoldsAll w sys b shutdown file
unfolding finish after_rename
backup-HoldsAll w sys b shutdown disk smooth normal shared =
    let s = fill w sys shutdown b (record disk { outfile = none }) smooth.file in
    let (complete, all) =
      fill-HoldsAll w sys b smooth normal shared shutdown (record disk { outfile = none })
        smooth.file smooth.opens in
    let moved : finish w sys (record disk { outfile = none }) s
        ≡ after_rename w sys (record disk { outfile = none }) s true =
      rw (finish, complete)
        (ap (after_rename w sys (record disk { outfile = none }) s) smooth.renames) in
    let whole = on_disk_whole w sys smooth.flushed s.file in
    rw (finished w sys b smooth normal shared shutdown disk, moved)
      (refl, refl, s.file, ap some whole, all)
