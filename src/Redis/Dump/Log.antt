-- ===== src/Redis/Dump/Log.antt =====
-- What a dump of a database leaves in the file and in the logs.
use Prim.Native.Nat.{min}
use double_swap.Base.{
  ℕ, All, ◌+◌, ◌*◌, ◌^◌, ◌<◌, ◌≡◌, ap, ◌∙◌, ◌⊎◌, inl, inr, none, some, [], ◌++◌, Bytes,
  if◌then◌else◌, length, arith,
}
use double_swap.Redis.Format.{Format, IsFormat}
use double_swap.Redis.Rio.{Sink, Refusal}
use double_swap.Redis.Host.{Host, IsHost}
use double_swap.Redis.Opcodes.{Opcodes}
use double_swap.Redis.Dump.State.{Notes}
use double_swap.Redis.Dump.{Server, Database, save_db}
use double_swap.Redis.Dump.Code.{IsLoggable, db_code, db_notes, save_db-Saves}
use double_swap.Trace.Progress.{Progress}
use double_swap.Trace.Progress.Tenths.{percentages, tens, reports_lem}
use double_swap.Redis.Dump.Noted.{brackets, hints, db-Noted, db_progress}

-- From a stream that had sent `before` and the notes `n` to one that has sent `after` and the
-- notes `n'`: the code of the database went out, each entry's pages are logged twice, its value
-- is given up with the bytes of its pair as hint, and up to ten tenths are reported.
pub record Dumped (f : Format) (c : Opcodes) (e : Host) (v : Server) (dbid : ℕ) (db : Database)
    (before after : Bytes) (n n' : Notes) : Type 0 where
  pub sent : after ≡ before ++ db_code f c e v dbid db
  pub pages : n'.page_log ≡ n.page_log ++ brackets v db.entries
  pub keys : n'.key_counter ≡ n.key_counter + length db.entries
  pub freed :
      n'.dismissed ≡ n.dismissed ++ (if v.in_fork_child then hints f c e v db.entries else [])
  pub tenths : percentages n'.progress.reports ≡ tens (min (length db.entries) 10)

-- For a database of one key or more, and less than 2 ^ 64 / 120, where `sdslen` on each value reads
-- a size, as on every sds string, and not on an integer-encoded one, and keys and values end a page
-- or more below 2 ^ 64: `rdbSaveDb` either fails, where the sink refuses a write, or sends the code
-- of the database, counts its keys, and logs the pages of each entry before its pair and the same
-- pages behind it; in a forked child it gives up each value with the number of bytes that its pair
-- took as hint; and it reports ten percentages, 10 to 100, or one for each key if there are fewer
-- than ten.
pub save_db-Dumped :
    (f : Format) (h : IsFormat f) (c : Opcodes) (e : Host) (i : IsHost e) (w : Sink) (v : Server)
    (mstime elapsed : ℕ → ℕ) (dbid : ℕ) (db : Database) (s : w.Stream) (n : Notes)
    → 0 < length db.entries
    → length db.entries * 120 < 2 ^ 64
    → All (IsLoggable v) db.entries
    → ((a : ℕ) × (t : w.Stream) × (n' : Notes) × (save_db f c e w v mstime dbid db elapsed
            (some s, n)
          ≡ some (a, (some t, n')))
        × Dumped f c e v dbid db (w.sent s) (w.sent t) n n')
      ⊎ ((save_db f c e w v mstime dbid db elapsed (some s, n) ≡ none) × Refusal w)
save_db-Dumped f h c e i w v mstime elapsed dbid db s n some_key room loggable =
    let (a, saves) = save_db-Saves f h c e i w v mstime dbid db elapsed loggable in
    elim (saves.outcome s n) [
      | inr stop ↦ inr stop
      | inl (t, run, sent) ↦ inl (
        a,
        t,
        db_notes f c e v mstime db elapsed n,
        run,
        record {
          sent = sent;
          pages = (db-Noted f c e v mstime db elapsed n some_key).pages;
          keys = (db-Noted f c e v mstime db elapsed n some_key).keys;
          freed = (db-Noted f c e v mstime db elapsed n some_key).freed;
          tenths =
              ap (λ (p : Progress). percentages p.reports)
                (db_progress f c e v mstime db elapsed n some_key (omega arith))
              ∙ reports_lem (length db.entries) room elapsed;
        },
      )
    ]
