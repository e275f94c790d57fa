-- ===== src/Redis/Dump/Layout.antt =====
-- What a whole file holds.
use double_swap.Base.{
  ℕ, All, suc, ◌%◌, ◌≡◌, refl, sym, ◌∙◌, ap, ◌⊎◌, inl, inr, Bool, true, false, Bool-cases, not,
  none, some, List, [], ◌∷◌, ◌++◌, append_assoc, append-nil, Bytes, length, if◌then◌else◌, Step,
  pure, ◌>>◌, >>=-some, >>=-none,
}
use double_swap.Redis.Format.{Format, IsFormat}
use double_swap.Redis.Rio.{Sink, Rdb, Refusal, Writes, write_raw-Writes, pure-Writes}
use double_swap.Redis.Host.{Host, IsHost}
use double_swap.Redis.Endian.{little_endian}
use double_swap.Redis.Opcodes.{Opcodes}
use double_swap.Redis.Counting.{all_codes}
use double_swap.Redis.Entries.{optional}
use double_swap.Redis.Entries.Code.{
  when, info_code, function_code, save_type-Counts, save_info_aux_fields-Writes,
  save_functions-Counts,
}
use double_swap.Redis.Dump.State.{
  Notes, Dump, on_rdb, Saves, on_rdb-Saves, note-Saves, pure-Saves, bind-Saves,
}
use double_swap.Redis.Dump.{Server, Database}
use double_swap.Redis.Dump.Code.{IsLoggable, db_code, db_notes, save_db-Saves}
use double_swap.Redis.Dump.File.{
  Checksum, Snapshot, magic, start_cksum, write_cksum, save_databases, save_rio,
}

module _ (w : Sink) where
  -- A step that sends the bytes `p` and notes `g` down, with some result.
  abbrev Sends : Step (Dump w) ℕ → Bytes → (Notes → Notes) → Type 0
  Sends m p g = (a : ℕ) × Saves w m p g a

  then-Sends :
      {m k : Step (Dump w) ℕ} {p q : Bytes} {g g' : Notes → Notes}
      → Sends m p g
      → Sends k q g'
      → Sends (m >> k) (p ++ q) (λ n. g' (g n))
  then-Sends {k} (a, x) (b, y) = (b, bind-Saves w (λ _. k) x y)

  rdb-Sends :
      {m : Step (Rdb w) ℕ} {p : Bytes} → (a : ℕ) × Writes w m p a → Sends (on_rdb w m) p (λ n. n)
  rdb-Sends (a, x) = (a, on_rdb-Saves w x)

module _ (f : Format) (c : Opcodes) (e : Host) (v : Server) (modules_code : Bool → Bytes) where
  unfoldable pub databases_code : ℕ → List (Database × (ℕ → ℕ)) → Bytes
  databases_code j [] = []
  databases_code j ((db, elapsed) ∷ dbs) = db_code f c e v j db ++ databases_code (suc j) dbs

  -- A file but for its checksum.
  unfoldable pub file_code : Snapshot → Bytes
  file_code x =
      magic x.rdb_version
      ++ (info_code f c e x.info
          ++ (when (not x.exclude_data) (modules_code true)
              ++ (when (not x.exclude_functions) (all_codes (function_code f c e) x.functions)
                  ++ ((if x.exclude_data then [] else databases_code 0 x.databases)
                      ++ (when (not x.exclude_data) (modules_code false)
                          ++ (c.rdb_opcode_eof % 256 ∷ []))))))

-- Every entry that is saved can be logged.
abbrev pub IsLoggableData : Server → Snapshot → Type 0
IsLoggableData v x = All (λ d. All (IsLoggable v) d.0.entries) x.databases

module _ (f : Format) (h : IsFormat f) (c : Opcodes) (e : Host) (i : IsHost e) (w : Sink)
    (k : Checksum w) (v : Server) (mstime : ℕ → ℕ) (modules : Bool → Step (Rdb w) ℕ)
    (modules_code : Bool → Bytes)
    (sends : (b : Bool) → (a : ℕ) × Writes w (modules b) (modules_code b) a) where
  databases_notes : List (Database × (ℕ → ℕ)) → Notes → Notes
  databases_notes [] n = n
  databases_notes ((db, elapsed) ∷ dbs) n =
      databases_notes dbs (db_notes f c e v mstime db elapsed n)

  databases-Sends :
      (j : ℕ) (dbs : List (Database × (ℕ → ℕ)))
      → All (λ d. All (IsLoggable v) d.0.entries) dbs
      → Sends w
          (save_databases f c e w k v mstime modules j dbs)
          (databases_code f c e v modules_code j dbs)
          (databases_notes dbs)
  unfolding save_databases databases_code databases_notes
  databases-Sends j [] tt = (0, pure-Saves w 0)
  databases-Sends j ((db, elapsed) ∷ dbs) (loggable, more) =
      then-Sends w (save_db-Saves f h c e i w v mstime j db elapsed loggable)
        (databases-Sends (suc j) dbs more)

  option-Sends :
      (b : Bool) {m : Step (Rdb w) ℕ} {p : Bytes}
      → (a : ℕ) × Writes w m p a
      → Sends w (on_rdb w (optional f c e w b m)) (when b p) (λ n. n)
  unfolding optional
  option-Sends true x = rdb-Sends w x
  option-Sends false x = rdb-Sends w (0, pure-Writes w {A = ℕ} 0)

  start_cksum-Sends : (b : Bool) → Sends w (on_rdb w (start_cksum w k b)) [] (λ n. n)
  unfolding start_cksum on_rdb
  start_cksum-Sends true =
      (0, record { outcome = λ s n. inl (k.start s, refl, k.sent-start s ∙ sym (append-nil _)) })
  start_cksum-Sends false = (0, record { outcome = λ s n. inl (s, refl, sym (append-nil _)) })

  data-Sends :
      (x : Snapshot)
      → IsLoggableData v x
      → (g : Notes → Notes) × Sends w
          (if x.exclude_data
            then pure 0
            else save_databases f c e w k v mstime modules 0 x.databases)
          (if x.exclude_data then [] else databases_code f c e v modules_code 0 x.databases)
          g
  data-Sends x loggable = elim (Bool-cases x.exclude_data) [
    | inl z ↦ ((λ n. n), rw z (0, pure-Saves w {A = ℕ} 0))
    | inr z ↦ (databases_notes x.databases, rw z (databases-Sends 0 x.databases loggable))
  ]

  -- `m` fails only where the sink refuses a write, or sends the bytes `p` and behind them the
  -- checksum that the `rio` has at that point.
  pub record Ends (m : Step (Dump w) ℕ) (p : Bytes) (g : Notes → Notes) : Type 0 where
    pub ending :
        (s : w.Stream) (n : Notes)
        → ((a : ℕ) × (t u : w.Stream) × (m (some s, n) ≡ some (a, (some u, g n)))
            × (w.sent t ≡ w.sent s ++ p)
            × (w.sent u ≡ w.sent t ++ little_endian 8 (k.cksum t)))
          ⊎ ((m (some s, n) ≡ none) × Refusal w)

  cksum-Ends : Ends (on_rdb w (write_cksum w k)) [] (λ n. n)
  unfolding write_cksum on_rdb
  cksum-Ends = record {
    ending = λ s n. elim ((write_raw-Writes w (little_endian 8 (k.cksum s))).on_stream s) [
      | inr (stop, why) ↦ inr (rw (stop, on_rdb) refl, why)
      | inl (u, run, sent) ↦ inl (
        length (little_endian 8 (k.cksum s)),
        s,
        u,
        rw (run, on_rdb) refl,
        sym (append-nil _),
        sent,
      )
    ];
  }

  then-Ends :
      {m l : Step (Dump w) ℕ} {p q : Bytes} {g g' : Notes → Notes}
      → Sends w m p g
      → Ends l q g'
      → Ends (m >> l) (p ++ q) (λ n. g' (g n))
  then-Ends {m} {l} {p} {q} {g} (a, x) y = record {
    ending = λ s n. elim (x.outcome s n) [
      | inr (stop, why) ↦ inr (>>=-none m (λ _. l) stop, why)
      | inl (r, run, sent) ↦ elim (y.ending r (g n)) [
        | inr (stop, why) ↦ inr (>>=-some m (λ _. l) run ∙ stop, why)
        | inl (b, t, u, run', sent', tail) ↦ inl (
          b,
          t,
          u,
          >>=-some m (λ _. l) run ∙ run',
          sent' ∙ ap (λ z. z ++ q) sent ∙ append_assoc (w.sent s) p q,
          tail,
        )
      ]
    ];
  }

  -- Where the modules send their own data or fail with the sink, `sdslen` on each value reads a size,
  -- as on every sds string, and not on an integer-encoded one, and keys and values end a page or more
  -- below 2 ^ 64: `rdbSaveRio` fails only where the sink refuses a write; otherwise it sends the
  -- file's magic, the fields on the server, the data of modules, the functions and the databases in
  -- their order, each left out if the request says so, the end mark, and last the checksum of all
  -- that.
  pub save_rio-Ends :
      (x : Snapshot)
      → IsLoggableData v x
      → (g : Notes → Notes) × Ends
          (save_rio f c e w k v mstime modules x)
          (file_code f c e v modules_code x)
          g
  unfolding save_rio file_code
  save_rio-Ends x loggable =
      let (g, dbs) = data-Sends x loggable in
      (
        _,
        then-Ends (0, note-Saves w (λ n. record n { key_counter = 0 }))
            (then-Ends (start_cksum-Sends x.rdb_checksum) (
              then-Ends (rdb-Sends w (_, write_raw-Writes w (magic x.rdb_version))) (
                then-Ends (rdb-Sends w (_, save_info_aux_fields-Writes f h c e i w x.info)) (
                  then-Ends (option-Sends (not x.exclude_data) (sends true)) (
                    then-Ends
                      (option-Sends (not x.exclude_functions)
                        (_, save_functions-Counts f h c e i w x.functions))
                      (then-Ends dbs (
                        then-Ends (option-Sends (not x.exclude_data) (sends false))
                          (then-Ends (rdb-Sends w (_, save_type-Counts w _)) cksum-Ends)))))))),
      )
