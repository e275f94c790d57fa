-- ===== src/Redis/Dump/Code.antt =====
-- The bytes of a database, what `rdbSaveDb` notes down, and that it does both.
use mathlib.Core.Path.{subst}
use double_swap.Base.{
  ℕ, ◌+◌, ◌%◌, ◌^◌, ◌<◌, ◌≡◌, sym, ◌∙◌, ap, All, Bool-cases, inl, inr, ◌&&◌, Option, none, some,
  List, [], ◌∷◌, ◌++◌, Bytes, append-nil, if◌then◌else◌, length, ◌==◌,
}
use double_swap.Redis.Format.{Format, IsFormat}
use double_swap.Redis.Rio.{Sink, pure-Writes}
use double_swap.Redis.Host.{Host, IsHost}
use double_swap.Redis.Length.Code.{len_code, save_len-Writes}
use double_swap.Redis.Opcodes.{Opcodes}
use double_swap.Redis.Counting.{◌⊕◌, Counts, ⊕-Counts}
use double_swap.Redis.Length.{save_len}
use double_swap.Redis.Scalars.{save_type}
use double_swap.Redis.Entries.Code.{when, pair_code, save_type-Counts, save_key_value_pair-Writes}
use double_swap.Redis.Dump.State.{
  out_g_star, out_g, Notes, Saves, on_rdb-Saves, note-Saves, pure-Saves, bind-Saves, sized-Saves,
  or_fail-Saves, ⊕-Saves,
}
use double_swap.Redis.Dump.{
  Server, KeyEntry, Database, entry_pair, log_pages, update_child_info, differs, next_slot,
  entry_pages, value_sdslen, dismiss, save_slot_info, save_logged, save_entry, save_entries,
  save_db,
}
use double_swap.Trace.Pages.{object_pages}
use double_swap.Trace.Progress.{start_progress, count_key}

module _ (f : Format) (c : Opcodes) (e : Host) (v : Server) where
  abbrev pub slot_code : Database → ℕ → Option ℕ → Bytes
  slot_code db slot last = when (v.cluster_enabled && differs slot last) (
      c.rdb_opcode_slot_info % 256
      ∷ (len_code f slot ++ (len_code f (db.slot_size slot) ++ len_code f (db.slot_expires slot))))

  abbrev pub entry_code : KeyEntry → Bytes
  entry_code k = pair_code f c e v.policy (entry_pair k)

  unfoldable pub entries_code : Database → Option ℕ → List KeyEntry → Bytes
  entries_code db last [] = []
  entries_code db last (k ∷ ks) =
      slot_code db k.slot last ++ (entry_code k ++ entries_code db (next_slot v k.slot last) ks)

  abbrev pub db_header : ℕ → Database → Bytes
  db_header dbid db =
      c.rdb_opcode_selectdb % 256
      ∷ (len_code f dbid
          ++ (c.rdb_opcode_resizedb % 256
              ∷ (len_code f (length db.entries) ++ len_code f db.expires_size)))

  -- An empty database leaves no trace in the file.
  unfoldable pub db_code : ℕ → Database → Bytes
  db_code dbid db =
      if length db.entries == 0 then [] else db_header dbid db ++ entries_code db none db.entries

unfoldable or_nil : Option (List ℕ) → List ℕ
or_nil none = []
or_nil (some pages) = pages

-- The pages that are logged for an entry.
unfoldable pub logged : Server → KeyEntry → List ℕ
unfolding or_nil
logged v k = or_nil (entry_pages v k)

-- An entry whose pages can be logged: `sdslen` on its value reads a size, which it does on every
-- string that is an sds, and the loops over the pages of key and value end below 2 ^ 64.
pub record IsLoggable (v : Server) (k : KeyEntry) : Type 0 where
  pub size : ℕ
  pub readable : value_sdslen k k.value ≡ some size
  pub page : 0 < v.page_size
  pub key_room : k.key_address + length k.keystr + v.page_size < 2 ^ 64
  pub value_room : k.value_address + size + v.page_size < 2 ^ 64

logged_lem : (v : Server) (k : KeyEntry) → IsLoggable v k → entry_pages v k ≡ some (logged v k)
unfolding entry_pages logged
logged_lem v k loggable =
    let pages = object_pages v.page_size k.key_address (length k.keystr) in
    let found =
      ap
        (λ o. elim o [
          | none ↦ none
          | some n ↦ some (pages ++ object_pages v.page_size k.value_address n)
        ])
        loggable.readable in
    found ∙ ap some (sym (ap or_nil found))

module _ (f : Format) (c : Opcodes) (e : Host) (v : Server) (mstime : ℕ → ℕ) where
  -- What the round of an entry notes down.
  unfoldable pub entry_notes : ℕ → (ℕ → ℕ) → KeyEntry → Notes → Notes
  entry_notes db_size elapsed k n =
      let n' = update_child_info mstime (
        dismiss v k.value_address (length (entry_code f c e v k))
          (log_pages (logged v k) out_g (log_pages (logged v k) out_g_star n))) in
      record n' {
        progress = count_key db_size (elapsed (n'.progress.keys_processed + 1)) n'.progress;
      }

  unfoldable pub entries_notes : ℕ → (ℕ → ℕ) → List KeyEntry → Notes → Notes
  entries_notes db_size elapsed [] n = n
  entries_notes db_size elapsed (k ∷ ks) n =
      entries_notes db_size elapsed ks (entry_notes db_size elapsed k n)

  unfoldable pub db_notes : Database → (ℕ → ℕ) → Notes → Notes
  db_notes db elapsed = if length db.entries == 0 then (λ n. n) else (λ n.
      entries_notes (length db.entries) elapsed db.entries (record n {
        earlier_reports = n.earlier_reports ++ n.progress.reports;
        progress = start_progress (length db.entries);
      }))

module _ (f : Format) (h : IsFormat f) (c : Opcodes) (e : Host) (i : IsHost e) (w : Sink)
    (v : Server) (mstime : ℕ → ℕ) where
  save_slot_info-Counts :
      (db : Database) (slot : ℕ) (last : Option ℕ)
      → Counts w (save_slot_info f c e w v mstime db slot last) (slot_code f c e v db slot last)
  unfolding save_slot_info
  save_slot_info-Counts db slot last = elim (Bool-cases (v.cluster_enabled && differs slot last)) [
    | inl z ↦ rw z (
        ⊕-Counts w (save_type-Counts w _) (
          ⊕-Counts w (save_len-Writes f h w slot)
            (⊕-Counts w (save_len-Writes f h w _) (save_len-Writes f h w _))))
    | inr z ↦ rw z (pure-Writes w 0)
  ]

  save_entry-Saves :
      (db_size : ℕ) (elapsed : ℕ → ℕ) (k : KeyEntry)
      → IsLoggable v k
      → Saves w
          (save_entry f c e w v mstime db_size elapsed k)
          (entry_code f c e v k)
          (entry_notes f c e v mstime db_size elapsed k)
          1
  unfolding save_entry save_logged entry_notes
  save_entry-Saves db_size elapsed k loggable = or_fail-Saves w _ (logged_lem v k loggable) (
      subst
        (λ p.
          Saves w (save_logged f c e w v mstime db_size elapsed k (logged v k)) p
            (entry_notes f c e v mstime db_size elapsed k) 1)
        (append-nil (entry_code f c e v k))
        (bind-Saves w _ (note-Saves w _) (
          bind-Saves w _
            (sized-Saves w
              (on_rdb-Saves w (save_key_value_pair-Writes f h c e i w v.policy (entry_pair k))))
            (bind-Saves w _ (note-Saves w _) (
              bind-Saves w _ (note-Saves w _) (
                bind-Saves w _ (note-Saves w _)
                  (bind-Saves w _ (note-Saves w _) (pure-Saves w 1))))))))

  save_entries-Saves :
      (db : Database) (elapsed : ℕ → ℕ) (last : Option ℕ) (ks : List KeyEntry)
      → All (IsLoggable v) ks
      → (n : ℕ) × Saves w
          (save_entries f c e w v mstime db elapsed last ks)
          (entries_code f c e v db last ks)
          (entries_notes f c e v mstime (length db.entries) elapsed ks)
          n
  unfolding save_entries entries_code entries_notes
  save_entries-Saves db elapsed last [] tt = (0, pure-Saves w 0)
  save_entries-Saves db elapsed last (k ∷ ks) (loggable, more) = (
    _,
    ⊕-Saves w (on_rdb-Saves w (save_slot_info-Counts db k.slot last)) (
        ⊕-Saves w (save_entry-Saves (length db.entries) elapsed k loggable)
          (save_entries-Saves db elapsed (next_slot v k.slot last) ks more).1),
  )

  header :
      (dbid : ℕ) (db : Database)
      → Counts w
          (save_type w c.rdb_opcode_selectdb
            ⊕ save_len f w dbid
            ⊕ save_type w c.rdb_opcode_resizedb
            ⊕ save_len f w (length db.entries)
            ⊕ save_len f w db.expires_size)
          (db_header f c e v dbid db)
  header dbid db = ⊕-Counts w (save_type-Counts w _) (
      ⊕-Counts w (save_len-Writes f h w dbid) (
        ⊕-Counts w (save_type-Counts w _)
          (⊕-Counts w (save_len-Writes f h w _) (save_len-Writes f h w db.expires_size))))

  -- Where every entry can be logged, `rdbSaveDb` sends the code of the database and notes its entries down, and fails only where
  -- the sink refuses a write.
  pub save_db-Saves :
      (dbid : ℕ) (db : Database) (elapsed : ℕ → ℕ)
      → All (IsLoggable v) db.entries
      → (n : ℕ) × Saves w
          (save_db f c e w v mstime dbid db elapsed)
          (db_code f c e v dbid db)
          (db_notes f c e v mstime db elapsed)
          n
  unfolding save_db db_code db_notes
  save_db-Saves dbid db elapsed loggable = elim (Bool-cases (length db.entries == 0)) [
    | inl z ↦ (0, rw z (pure-Saves w 0))
    | inr z ↦
        let (n, saved) = save_entries-Saves db elapsed none db.entries loggable in
        (
          length (db_header f c e v dbid db) + n,
          rw z
              (⊕-Saves w (on_rdb-Saves w (header dbid db)) (bind-Saves w _ (note-Saves w _) saved)),
        )
  ]
