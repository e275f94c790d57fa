-- ===== src/Mosquitto/Loop/Database.antt =====
-- The database behind any course of the main loop.
use mathlib.Core.Path.{subst}
use double_swap.Base.{
  ℕ, ◌+◌, ◌≡◌, refl, ap, inl, inr, false, Bool-cases, Option, none, some, List, ◌∷◌, ◌&&◌, ◌||◌,
  ltb, leb, ◌==◌,
}
use double_swap.Mosquitto.Chunks.{Writer}
use double_swap.Mosquitto.Backup.{Config, Broker, System, cfg_chunk}
use double_swap.Mosquitto.Backup.Content.{IsFlushed, HoldsStore, backup-IsReplaced}
use double_swap.Mosquitto.Loop.{
  Loop, Answers, save_now, key_backup, autosave_with, autosave, flag_backup, round, Run, begin,
  serve, save,
}

pub data IsAmong (b : Broker) : List Broker → Type 0 where
  first : (bs : List Broker) → IsAmong b (b ∷ bs)
  later : (c : Broker) {bs : List Broker} → IsAmong b bs → IsAmong b (c ∷ bs)

module _ (w : Writer) where
  -- The database was there at first, or it holds the whole store of one of `bs`.
  pub data IsWhole (old : Option w.File) (bs : List Broker) : Option w.File → Type 0 where
    kept : IsWhole old bs old
    saved :
        (sys : System w) (b : Broker) (file : w.File)
        → IsAmong b bs
        → HoldsStore w sys false b file
        → IsWhole old bs (some file)

  -- In each backup of a round, and of a whole run, the new file reaches the disk.
  abbrev AreFlushed : Answers w → Type 0
  AreFlushed a = IsFlushed a.to_key × IsFlushed a.to_autosave × IsFlushed a.to_flag

  unfoldable pub IsFlushedRun : {p q : Loop w} {bs : List Broker} → Run w p bs q → Type 0
  IsFlushedRun (begin p) = Unit {0}
  IsFlushedRun (serve b flag r) = IsFlushedRun r
  IsFlushedRun (save answers input r) = AreFlushed answers × IsFlushedRun r

  -- During a round: the broker is still `b` but for the count of its changes, and the database is
  -- the old one or holds the store of `b` or of one before.
  record IsRound (old : Option w.File) (b : Broker) (bs : List Broker) (s : Loop w) : Type 0 where
    changes : ℕ
    same : s.broker ≡ record b { persistence_changes = changes }
    whole : IsWhole old (b ∷ bs) s.disk.database

  holds_same :
      (sys : System w) (b : Broker) (n : ℕ) (file : w.File)
      → HoldsStore w sys false (record b { persistence_changes = n }) file
      → HoldsStore w sys false b file
  unfolding cfg_chunk
  holds_same sys b n file h = record { more = h.more; content = h.content }

  save_now-IsRound :
      {old : Option w.File} {b : Broker} {bs : List Broker} (sys : System w) (s : Loop w)
      → IsFlushed sys
      → IsRound old b bs s
      → IsRound old b bs (save_now w sys s)
  unfolding save_now
  save_now-IsRound {old} {b} {bs} sys s flushed h = record {
    changes = h.changes;
    same = h.same;
    whole = elim (backup-IsReplaced w sys false s.broker s.disk flushed) [
      | inl unchanged ↦ rw unchanged h.whole
      | inr (_, file, new, holds) ↦ rw new (
          saved sys b file (first bs) (
            holds_same sys b h.changes file
              (subst (λ c. HoldsStore w sys false c file) h.same holds)))
    ];
  }

  key_backup-IsRound :
      {old : Option w.File} {b : Broker} {bs : List Broker} (sys : System w) (input : Option ℕ)
      (s : Loop w)
      → IsFlushed sys
      → IsRound old b bs s
      → IsRound old b bs (key_backup w sys input s)
  unfolding key_backup
  key_backup-IsRound sys none s flushed h = h
  key_backup-IsRound sys (some input) s flushed h =
      elim (Bool-cases (input == 75 || input == 107)) [
        | inl z ↦ rw z (save_now-IsRound sys s flushed h)
        | inr z ↦ rw z h
      ]

  autosave_with-IsRound :
      {old : Option w.File} {b : Broker} {bs : List Broker} (sys : System w) (config : Config)
      (s : Loop w)
      → IsFlushed sys
      → IsRound old b bs s
      → IsRound old b bs (autosave_with w sys config s)
  unfolding autosave_with
  autosave_with-IsRound sys config s flushed h =
      let t = save_now-IsRound sys s flushed h in
      elim (Bool-cases (config.persistence && ltb 0 config.autosave_interval)) [
        | inr z ↦ rw (autosave_with, z) h
        | inl z ↦
            rw (autosave_with, z)
              (elim (Bool-cases config.autosave_on_changes) [
                | inl on ↦
                    rw on
                      (elim (Bool-cases
                        (leb config.autosave_interval s.broker.persistence_changes)) [
                          | inl many ↦ rw many (record {
                            changes = 0;
                            same = ap (λ (c : Broker). record c { persistence_changes = 0 }) h.same;
                            whole = t.whole;
                          })
                          | inr few ↦ rw few h
                        ])
                | inr off ↦
                    rw off
                      (elim (Bool-cases
                        (ltb (s.last_backup + config.autosave_interval) s.broker.now_s)) [
                          | inl late ↦
                              rw late
                                (record { changes = t.changes; same = t.same; whole = t.whole })
                          | inr early ↦ rw early h
                        ])
              ])
      ]

  autosave-IsRound :
      {old : Option w.File} {b : Broker} {bs : List Broker} (sys : System w) (s : Loop w)
      → IsFlushed sys
      → IsRound old b bs s
      → IsRound old b bs (autosave w sys s)
  unfolding autosave
  autosave-IsRound {old} {b} {bs} sys s flushed h = by_config s.broker.config
    where
      by_config :
          (o : Option Config)
          → IsRound old b bs (elim o [ none ↦ s | some config ↦ autosave_with w sys config s ])
      by_config none = h
      by_config (some config) = autosave_with-IsRound sys config s flushed h

  flag_backup-IsRound :
      {old : Option w.File} {b : Broker} {bs : List Broker} (sys : System w) (s : Loop w)
      → IsFlushed sys
      → IsRound old b bs s
      → IsRound old b bs (flag_backup w sys s)
  unfolding flag_backup
  flag_backup-IsRound sys s flushed h =
      let t = save_now-IsRound sys s flushed h in
      elim (Bool-cases s.flag_db_backup) [
        | inl z ↦
            rw (flag_backup, z) (record { changes = t.changes; same = t.same; whole = t.whole })
        | inr z ↦
            rw (flag_backup, z) (record { changes = h.changes; same = h.same; whole = h.whole })
      ]

  more-IsWhole :
      {old d : Option w.File} {bs : List Broker} (b : Broker)
      → IsWhole old bs d
      → IsWhole old (b ∷ bs) d
  more-IsWhole b kept = kept
  more-IsWhole b (saved sys c file m h) = saved sys c file (later b m) h

  round-IsWhole :
      {old : Option w.File} {bs : List Broker} (answers : Answers w) (input : Option ℕ) (s : Loop w)
      → AreFlushed answers
      → IsWhole old bs s.disk.database
      → IsWhole old (s.broker ∷ bs) (round w answers input s).disk.database
  unfolding round
  round-IsWhole answers input s (key, auto, flag) h =
      let start : IsRound _ s.broker _ s = record {
        changes = s.broker.persistence_changes;
        same = refl;
        whole = more-IsWhole s.broker h;
      } in
      let keyed = key_backup-IsRound answers.to_key input s key start in
      let saved = autosave-IsRound answers.to_autosave _ auto keyed in
      (flag_backup-IsRound answers.to_flag _ flag saved).whole

-- Whatever the other handlers do to the broker between the rounds, what is typed and what the
-- system answers to each backup, but that `fflush`, `fsync` and `fclose` of its new file succeed,
-- where the writer that is handed the messages of clients only adds to the file: the database is
-- the one that was there at first, or a file that holds a configuration and the whole store of the
-- broker as it was at the beginning of one of the rounds.
pub Run-IsWhole :
    (w : Writer) (p q : Loop w) (bs : List Broker) (r : Run w p bs q)
    → IsFlushedRun w r
    → IsWhole w p.disk.database bs q.disk.database
unfolding IsFlushedRun
Run-IsWhole w p q bs (begin p') flushed = kept
Run-IsWhole w p q bs (serve b flag r) flushed = Run-IsWhole w _ _ _ r flushed
Run-IsWhole w p q bs (save answers input r) (now, before) =
    round-IsWhole w answers input _ now (Run-IsWhole w _ _ _ r before)
